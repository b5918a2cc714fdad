-- ===== src/Base/Sorting.antt =====
-- `slice::sort_by`, a stable sort: the sorted list is a permutation, in order, and the same for every
-- permutation of a list whose members the order tells apart.
use mathlib.Core.Path.{◌≡◌, refl, ap, ◌∙◌}
use mathlib.Core.Logic.{inl, inr}
use mathlib.Core.Bool.{Bool, true, false, ◌&&◌}
use mathlib.Core.List.{List, [], ◌∷◌}
use native.Mathlib.Omega.{arith}
use lin_sight.Base.Tests.{if◌then◌else◌, Bool-cases}
use lin_sight.Base.Lists.{All}

module _ {ℓ} {A : Type ℓ} where
  -- The same members, in another order.
  pub data Reordered : List A → List A → Type ℓ where
    nothing : Reordered [] []
    keeps : (x : A) {l r : List A} → Reordered l r → Reordered (x ∷ l) (x ∷ r)
    swaps : (x y : A) (l : List A) → Reordered (x ∷ y ∷ l) (y ∷ x ∷ l)
    chains : {l m r : List A} → Reordered l m → Reordered m r → Reordered l r

  pub Reordered-refl : (l : List A) → Reordered l l
  Reordered-refl [] = nothing
  Reordered-refl (x ∷ xs) = keeps x (Reordered-refl xs)

  pub All-Reordered {κ} : (P : A → Type κ) {l r : List A} → Reordered l r → All P l → All P r
  All-Reordered P nothing h = h
  All-Reordered P (keeps x {l} {r} p) h = (h.0, All-Reordered P {l = l} {r = r} p h.1)
  All-Reordered P (swaps x y l) h = (h.1.0, (h.0, h.1.1))
  All-Reordered P (chains {l} {m} {r} p q) h =
      All-Reordered P {l = m} {r = r} q (All-Reordered P {l = l} {r = m} p h)

  pub All-weaken {κ μ} :
      (P : A → Type κ) (Q : A → Type μ) (l : List A) → ((a : A) → P a → Q a) → All P l → All Q l
  All-weaken P Q [] f h = tt
  All-weaken P Q (x ∷ xs) f h = (f x h.0, All-weaken P Q xs f h.1)

module _ {ℓ} {A : Type ℓ} (le : A → A → Bool) where
  unfoldable pub place : A → List A → List A
  place a [] = a ∷ []
  place a (b ∷ bs) = let later = place a bs in if le a b then a ∷ b ∷ bs else b ∷ later

  unfoldable pub sort_by : List A → List A
  unfolding place
  sort_by [] = []
  sort_by (a ∷ l) = place a (sort_by l)

  abbrev pub Sorted : List A → Type 0
  Sorted [] = Unit
  Sorted (a ∷ l) = All (λ b. le a b ≡ true) l × Sorted l

  -- No two members stand in the order both ways.
  abbrev pub Apart : List A → Type 0
  Apart [] = Unit
  Apart (a ∷ l) = All (λ b. le a b && le b a ≡ false) l × Apart l

  place-Reordered : (a : A) (l : List A) → Reordered (a ∷ l) (place a l)
  unfolding place
  place-Reordered a [] = keeps a nothing
  place-Reordered a (b ∷ bs) = elim (Bool-cases (le a b)) [
    | inl here ↦ rw here (Reordered-refl (a ∷ b ∷ bs))
    | inr later ↦ rw later (chains (swaps a b bs) (keeps b (place-Reordered a bs)))
  ]

  pub sort_by-Reordered : (l : List A) → Reordered l (sort_by l)
  unfolding sort_by
  sort_by-Reordered [] = nothing
  sort_by-Reordered (a ∷ l) = chains (keeps a (sort_by-Reordered l)) (place-Reordered a (sort_by l))

  module _ (total : (a b : A) → le a b ≡ false → le b a ≡ true)
      (trans : (a b c : A) → le a b ≡ true → le b c ≡ true → le a c ≡ true) where
    place-Sorted : (a : A) (l : List A) → Sorted l → Sorted (place a l)
    unfolding place
    place-Sorted a [] s = (tt, tt)
    place-Sorted a (b ∷ bs) s = elim (Bool-cases (le a b)) [
      | inl here ↦ rw here (
        (here, All-weaken (λ c. le b c ≡ true) (λ c. le a c ≡ true) bs (λ c. trans a b c here) s.0),
        s,
      )
      | inr later ↦ rw later (
        All-Reordered (λ c. le b c ≡ true) (place-Reordered a bs) (total a b later, s.0),
        place-Sorted a bs s.1,
      )
    ]

    pub sort_by-Sorted : (l : List A) → Sorted (sort_by l)
    unfolding sort_by
    sort_by-Sorted [] = tt
    sort_by-Sorted (a ∷ l) = place-Sorted a (sort_by l) (sort_by-Sorted l)

    -- Two members that the order tells apart are placed in either order.
    place-place :
        (a b : A) (l : List A)
        → le a b && le b a ≡ false
        → place a (place b l) ≡ place b (place a l)
    unfolding place
    place-place a b [] h = ground (arith, total a b, total b a)
    place-place a b (c ∷ cs) h =
        ground (arith, total a b, total b a, trans a b c, trans b a c, place-place a b cs h)

    Apart-Reordered : {l r : List A} → Reordered l r → Apart l → Apart r
    Apart-Reordered nothing h = h
    Apart-Reordered (keeps x {l} {r} p) h = (
      All-Reordered (λ b. le x b && le b x ≡ false) {l = l} {r = r} p h.0,
      Apart-Reordered {l = l} {r = r} p h.1,
    )
    Apart-Reordered (swaps x y l) h = ((ground (arith, h.0.0), h.1.0), (h.0.1, h.1.1))
    Apart-Reordered (chains {l} {m} {r} p q) h =
        Apart-Reordered {l = m} {r = r} q (Apart-Reordered {l = l} {r = m} p h)

    pub sort_by_unique : {l r : List A} → Reordered l r → Apart l → sort_by l ≡ sort_by r
    unfolding sort_by
    sort_by_unique nothing h = refl
    sort_by_unique (keeps x {l} {r} p) h = ap (place x) (sort_by_unique {l = l} {r = r} p h.1)
    sort_by_unique (swaps x y l) h = place-place x y (sort_by l) h.0.0
    sort_by_unique (chains {l} {m} {r} p q) h =
        sort_by_unique {l = l} {r = m} p h
        ∙ sort_by_unique {l = m} {r = r} q (Apart-Reordered {l = l} {r = m} p h)
