-- ===== src/Base/Partial.antt =====
-- The Option monad: a chain of steps each of which may give nothing.
use mathlib.Core.Path.{◌≡◌, refl}
use mathlib.Core.Option.{Option, none, some}

module _ {ℓ κ} {A : Type ℓ} {B : Type κ} where
  infixl 5 ◌>>=◌
  abbrev pub ◌>>=◌ : Option A → (A → Option B) → Option B
  none >>= g = none
  some a >>= g = g a

  -- Inversion of a chain that gives a value.
  pub >>=-eq-some :
      (m : Option A) (g : A → Option B) {b : B}
      → (m >>= g) ≡ some b
      → (a : A) × (m ≡ some a) × (g a ≡ some b)
  >>=-eq-some none g h = cc
  >>=-eq-some (some a) g h = (a, refl, h)
