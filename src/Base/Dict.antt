-- ===== src/Base/Dict.antt =====
-- `HashMap` as an association list with one entry for a key, in the order of the first insertion.
use Prim.Native.Nat.{ℕ, ◌+◌, ◌≤◌}
use mathlib.Core.Path.{◌≡◌, refl, subst}
use mathlib.Core.Logic.{inl, inr}
use mathlib.Core.Bool.{Bool, true, false, ◌||◌}
use mathlib.Core.Option.{Option, none, some}
use mathlib.Core.List.{List, [], ◌∷◌}
use native.Mathlib.Omega.{arith}
use lin_sight.Base.Tests.{if◌then◌else◌, Bool-cases}
use lin_sight.Base.Lists.{All}
use lin_sight.Base.Keys.{Eq}

abbrev pub Dict {ℓ κ} : Type ℓ → Type κ → Type (ℓ ⊔ κ)
Dict K V = List (K × V)

module _ {ℓ κ} {K : Type ℓ} {V : Type κ} ⦃e : Eq K⦄ where
  unfoldable pub lookup : K → Dict K V → Option V
  lookup k [] = none
  lookup k ((j, v) ∷ m) = if e.beq j k then some v else lookup k m

  unfoldable pub insert : K → V → Dict K V → Dict K V
  insert k v [] = (k, v) ∷ []
  insert k v ((j, w) ∷ m) = if e.beq j k then (k, v) ∷ m else (j, w) ∷ insert k v m

  unfoldable pub remove : K → Dict K V → Dict K V
  remove k [] = []
  remove k ((j, w) ∷ m) = if e.beq j k then remove k m else (j, w) ∷ remove k m

  pub lookup-insert :
      (k j : K) (v : V) (m : Dict K V)
      → lookup j (insert k v m) ≡ (if e.beq k j then some v else lookup j m)
  unfolding lookup insert
  lookup-insert k j v [] = refl
  lookup-insert k j v ((i, w) ∷ m) =
      ground (arith, e.beq_iff k j, e.beq_iff i k, e.beq_iff i j, lookup-insert k j v m)

  pub lookup-remove :
      (k j : K) (m : Dict K V) → lookup j (remove k m) ≡ (if e.beq k j then none else lookup j m)
  unfolding lookup remove
  lookup-remove k j [] = ground arith
  lookup-remove k j ((i, w) ∷ m) =
      ground (arith, e.beq_iff k j, e.beq_iff i k, e.beq_iff i j, lookup-remove k j m)

  module _ {μ} (P : K × V → Type μ) where
    pub insert-All : (k : K) (v : V) (m : Dict K V) → All P m → P (k, v) → All P (insert k v m)
    unfolding insert
    insert-All k v [] h p = (p, tt)
    insert-All k v ((j, w) ∷ m) h p = elim (Bool-cases (e.beq j k)) [
      | inl same ↦ rw same (p, h.1)
      | inr other ↦ rw other (h.0, insert-All k v m h.1 p)
    ]

    pub remove-All : (k : K) (m : Dict K V) → All P m → All P (remove k m)
    unfolding remove
    remove-All k [] h = tt
    remove-All k ((j, w) ∷ m) h = elim (Bool-cases (e.beq j k)) [
      | inl same ↦ rw same (remove-All k m h.1)
      | inr other ↦ rw other (h.0, remove-All k m h.1)
    ]

  pub lookup-All {μ} :
      (P : V → Type μ) (k : K) (m : Dict K V) {v : V}
      → All (λ p. P p.1) m
      → lookup k m ≡ some v
      → P v
  unfolding lookup
  lookup-All P k [] h found = absurd (cc)
  lookup-All P k ((j, w) ∷ m) {v} h found = elim (Bool-cases (e.beq j k)) [
    | inl same ↦ let here : w ≡ v = ground arith in subst P here h.0
    | inr other ↦ lookup-All P k m h.1 (ground arith)
  ]

  unfoldable pub has_key : K → Dict K V → Bool
  has_key k [] = false
  has_key k ((j, v) ∷ m) = e.beq j k || has_key k m

  -- No key stands twice.
  abbrev pub Unique : Dict K V → Type 0
  Unique [] = Unit {0}
  Unique ((j, v) ∷ m) = (has_key j m ≡ false) × Unique m

  pub has_key-insert :
      (k j : K) (v : V) (m : Dict K V) → has_key j (insert k v m) ≡ (e.beq k j || has_key j m)
  unfolding has_key insert
  has_key-insert k j v [] = refl
  has_key-insert k j v ((i, w) ∷ m) =
      ground (arith, e.beq_iff k j, e.beq_iff i k, e.beq_iff i j, has_key-insert k j v m)

  pub insert-Unique : (k : K) (v : V) (m : Dict K V) → Unique m → Unique (insert k v m)
  unfolding has_key insert
  insert-Unique k v [] u = (refl, tt)
  insert-Unique k v ((j, w) ∷ m) u = elim (Bool-cases (e.beq j k)) [
    | inl same ↦ let k_is_j : j ≡ k = (e.beq_iff j k).0 same in rw same (rw (← k_is_j) u.0, u.1)
    | inr other ↦ rw other (
      ground (arith, has_key-insert k j v m, e.beq_iff k j, e.beq_iff j k),
      insert-Unique k v m u.1,
    )
  ]

  pub has_key-remove :
      (k j : K) (m : Dict K V) → has_key j m ≡ false → has_key j (remove k m) ≡ false
  unfolding has_key remove
  has_key-remove k j [] h = refl
  has_key-remove k j ((i, w) ∷ m) h = ground (arith, has_key-remove k j m)

  pub remove-Unique : (k : K) (m : Dict K V) → Unique m → Unique (remove k m)
  unfolding remove
  remove-Unique k [] u = tt
  remove-Unique k ((j, w) ∷ m) u = elim (Bool-cases (e.beq j k)) [
    | inl same ↦ rw same (remove-Unique k m u.1)
    | inr other ↦ rw other (has_key-remove k j m u.0, remove-Unique k m u.1)
  ]

  pub lookup-has_key : (k : K) (m : Dict K V) → has_key k m ≡ false → lookup k m ≡ none
  unfolding has_key lookup
  lookup-has_key k [] h = refl
  lookup-has_key k ((j, w) ∷ m) h = ground (arith, lookup-has_key k m)

  pub has_key-lookup : (k : K) (m : Dict K V) → has_key k m ≡ true → (v : V) × (lookup k m ≡ some v)
  unfolding has_key lookup
  has_key-lookup k [] h = absurd (cc)
  has_key-lookup k ((j, w) ∷ m) h = elim (Bool-cases (e.beq j k)) [
    | inl same ↦ rw same (w, refl)
    | inr other ↦ rw other (has_key-lookup k m (ground arith))
  ]

  -- A sum over the values.
  unfoldable pub sum_of : (V → ℕ) → Dict K V → ℕ
  sum_of g [] = 0
  sum_of g ((j, v) ∷ m) = g v + sum_of g m

  pub sum_of-insert :
      (g : V → ℕ) (k : K) (v : V) (m : Dict K V) {w : V}
      → lookup k m ≡ some w
      → sum_of g (insert k v m) + g w ≡ sum_of g m + g v
  unfolding sum_of lookup insert
  sum_of-insert g k v [] h = absurd (cc)
  sum_of-insert g k v ((j, x) ∷ m) {w} h = ground (arith, sum_of-insert g k v m {w = w})

  pub sum_of-insert_new :
      (g : V → ℕ) (k : K) (v : V) (m : Dict K V)
      → lookup k m ≡ none
      → sum_of g (insert k v m) ≡ sum_of g m + g v
  unfolding sum_of lookup insert
  sum_of-insert_new g k v [] h = omega arith
  sum_of-insert_new g k v ((j, x) ∷ m) h = ground (arith, sum_of-insert_new g k v m)

  remove-absent : (k : K) (m : Dict K V) → has_key k m ≡ false → remove k m ≡ m
  unfolding remove has_key
  remove-absent k [] h = refl
  remove-absent k ((j, x) ∷ m) h = ground (arith, remove-absent k m)

  pub sum_of-remove :
      (g : V → ℕ) (k : K) (m : Dict K V) {w : V}
      → Unique m
      → lookup k m ≡ some w
      → sum_of g (remove k m) + g w ≡ sum_of g m
  unfolding sum_of lookup remove
  sum_of-remove g k [] u h = absurd (cc)
  sum_of-remove g k ((j, x) ∷ m) {w} u h =
      ground (arith, sum_of-remove g k m {w = w} u.1, remove-absent j m u.0, e.beq_iff j k)

  pub sum_of_mono :
      (g h : V → ℕ) (m : Dict K V) → All (λ p. g p.1 ≤ h p.1) m → sum_of g m ≤ sum_of h m
  unfolding sum_of
  sum_of_mono g h [] a = omega arith
  sum_of_mono g h ((j, x) ∷ m) a = omega (arith, sum_of_mono g h m a.1)

  pub sum_of-lookup :
      (g : V → ℕ) (k : K) (m : Dict K V) {w : V} → lookup k m ≡ some w → g w ≤ sum_of g m
  unfolding sum_of lookup
  sum_of-lookup g k [] h = absurd (cc)
  sum_of-lookup g k ((j, x) ∷ m) {w} h = ground (arith, sum_of-lookup g k m {w = w})
