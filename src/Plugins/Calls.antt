-- ===== src/Plugins/Calls.antt =====
-- The calls that an instance got, and those of one library.
use lin_sight.Base.{
  ℕ, ◌+◌, ◌≤◌, ◌≡◌, ◌≢◌, refl, inl, inr, ◌&&◌, List, [], ◌∷◌, ◌++◌, ◌⊎◌, if◌then◌else◌, ◌==◌, arith,
  Bool-cases, All,
}
use lin_sight.Base.Keys.{text_eq}
use lin_sight.Plugins.{Instance}
use lin_sight.Plugins.Loader.{Call, inited, shut_down, dropped, unmapped}

abbrev pub same : Instance → Instance → ℕ
same p q = if p.library == q.library && p.number == q.number then 1 else 0

pub same-le : (p q : Instance) → same p q ≤ 1
same-le p q = ground arith

pub same-cases : (p q : Instance) → (p ≡ q) ⊎ (same p q ≡ 0)
same-cases p q = elim (Bool-cases (p.library == q.library)) [
  | inr other ↦ inr (ground arith)
  | inl library ↦ elim (Bool-cases (p.number == q.number)) [
    | inr other ↦ inr (ground arith)
    | inl number ↦ inl (ground arith)
  ]
]

-- How often an instance was initialised.
abbrev pub inits : Instance → List Call → ℕ
inits p [] = 0
inits p (inited q ∷ cs) = same p q + inits p cs
inits p (shut_down q ∷ cs) = inits p cs
inits p (dropped q ∷ cs) = inits p cs
inits p (unmapped l ∷ cs) = inits p cs

-- How often an instance was shut down, dropped, or its library unmapped.
abbrev pub released : Instance → List Call → ℕ
released p [] = 0
released p (inited q ∷ cs) = released p cs
released p (shut_down q ∷ cs) = same p q + released p cs
released p (dropped q ∷ cs) = same p q + released p cs
released p (unmapped l ∷ cs) = (if p.library == l then 1 else 0) + released p cs

pub inits-append : (p : Instance) (xs ys : List Call) → inits p (xs ++ ys) ≡ inits p xs + inits p ys
inits-append p [] ys = omega arith
inits-append p (inited q ∷ xs) ys = omega (arith, inits-append p xs ys)
inits-append p (shut_down q ∷ xs) ys = inits-append p xs ys
inits-append p (dropped q ∷ xs) ys = inits-append p xs ys
inits-append p (unmapped l ∷ xs) ys = inits-append p xs ys

pub released-append :
    (p : Instance) (xs ys : List Call) → released p (xs ++ ys) ≡ released p xs + released p ys
released-append p [] ys = omega arith
released-append p (inited q ∷ xs) ys = released-append p xs ys
released-append p (shut_down q ∷ xs) ys = omega (arith, released-append p xs ys)
released-append p (dropped q ∷ xs) ys = omega (arith, released-append p xs ys)
released-append p (unmapped l ∷ xs) ys = omega (arith, released-append p xs ys)

abbrev pub library_of : Call → ℕ
library_of (inited q) = q.library
library_of (shut_down q) = q.library
library_of (dropped q) = q.library
library_of (unmapped l) = l

abbrev pub Concerns : ℕ → List Call → Type 0
Concerns k = All (λ c. library_of c ≡ k)

-- Calls of one library leave the instances of the others alone.
pub elsewhere :
    (k : ℕ) (p : Instance) (cs : List Call)
    → Concerns k cs
    → p.library ≢ k
    → (inits p cs ≡ 0) × (released p cs ≡ 0)
elsewhere k p [] h other = (refl, refl)
elsewhere k p (inited q ∷ cs) h other = ground (arith, elsewhere k p cs h.1 other)
elsewhere k p (shut_down q ∷ cs) h other = ground (arith, elsewhere k p cs h.1 other)
elsewhere k p (dropped q ∷ cs) h other = ground (arith, elsewhere k p cs h.1 other)
elsewhere k p (unmapped l ∷ cs) h other = ground (arith, elsewhere k p cs h.1 other)
