-- ===== src/Scheduler/Periods.antt =====
-- `period_counts: BTreeMap<u64, u32>` of a scheduler entry: how many subscriptions ask for each
-- period, in ascending order of the periods.
use lin_sight.Base.{
  ℕ, suc, ◌+◌, ◌-◌, ◌%◌, ◌≤◌, ◌<◌, ◌≡◌, refl, List, [], ◌∷◌, Option, none, some, arith, ltb, ◌==◌,
  if◌then◌else◌, u32_mod,
}

abbrev pub Periods : Type 0
Periods = List (ℕ × ℕ)

-- `*period_counts.entry(p).or_insert(0) += 1`
unfoldable pub bump : ℕ → Periods → Periods
bump p [] = (p, 1) ∷ []
bump p ((q, c) ∷ m) =
    if p == q
    then (q, (c + 1) % u32_mod) ∷ m
    else if ltb p q
    then (p, 1) ∷ (q, c) ∷ m
    else (q, c) ∷ bump p m

-- Takes one subscription off the count of `p`, and the period away with its last one.
unfoldable pub leave : ℕ → Periods → Periods
leave p [] = []
leave p ((q, c) ∷ m) =
    if p == q then (if c - 1 == 0 then m else (q, c - 1) ∷ m) else (q, c) ∷ leave p m

-- `period_counts.keys().next()`
unfoldable pub first_key : Periods → Option ℕ
first_key [] = none
first_key ((q, c) ∷ m) = some q

-- The subscriptions at the period `p`.
unfoldable pub count_of : ℕ → Periods → ℕ
count_of p [] = 0
count_of p ((q, c) ∷ m) = if p == q then c else count_of p m

-- Ascending periods from `n` on, each with a count of at least one that fits a `u32`.
abbrev pub Above : ℕ → Periods → Type 0
Above n [] = Unit {0}
Above n ((q, c) ∷ m) = (n ≤ q) × (0 < c) × (c < u32_mod) × Above (suc q) m

pub Above-mono : (k n : ℕ) (m : Periods) → k ≤ n → Above n m → Above k m
Above-mono k n [] h a = tt
Above-mono k n ((q, c) ∷ m) h (a, b, d, rest) = (omega arith, b, d, rest)

pub count_of-Above : (p n : ℕ) (m : Periods) → Above n m → p < n → count_of p m ≡ 0
unfolding count_of
count_of-Above p n [] a h = refl
count_of-Above p n ((q, c) ∷ m) a h = ground (arith, count_of-Above p (suc q) m a.3)

pub bump-Above :
    (n p : ℕ) (m : Periods) → Above n m → n ≤ p → count_of p m + 1 < u32_mod → Above n (bump p m)
unfolding bump count_of
bump-Above n p [] a h room = omega arith
bump-Above n p ((q, c) ∷ m) a h room = ground (arith, bump-Above (suc q) p m a.3)

pub count_of-bump :
    (n p q : ℕ) (m : Periods)
    → Above n m
    → count_of p m + 1 < u32_mod
    → count_of q (bump p m) ≡ count_of q m + (if p == q then 1 else 0)
unfolding bump count_of
count_of-bump n p q [] a room = ground arith
count_of-bump n p q ((r, c) ∷ m) a room =
    ground (arith, count_of-bump (suc r) p q m a.3, count_of-Above p (suc r) m a.3)

pub leave-Above : (n p : ℕ) (m : Periods) → Above n m → Above n (leave p m)
unfolding leave
leave-Above n p [] a = tt
leave-Above n p ((q, c) ∷ m) a = ground (arith, leave-Above (suc q) p m a.3, Above-mono n (suc q) m)

pub count_of-leave :
    (n p q : ℕ) (m : Periods)
    → Above n m
    → count_of q (leave p m) ≡ count_of q m - (if p == q then 1 else 0)
unfolding leave count_of
count_of-leave n p q [] a = omega arith
count_of-leave n p q ((r, c) ∷ m) a =
    ground (arith, count_of-leave (suc r) p q m a.3, count_of-Above q (suc r) m a.3)

-- The first period is the shortest that anybody asks for.
pub first_key-least :
    (n q : ℕ) (m : Periods) {k : ℕ} → Above n m → first_key m ≡ some k → 0 < count_of q m → k ≤ q
unfolding first_key count_of
first_key-least n q [] a e h = absurd (omega arith)
first_key-least n q ((r, c) ∷ m) a e h = ground (arith, count_of-Above q (suc r) m a.3)

pub first_key-held :
    (n : ℕ) (m : Periods) {k : ℕ} → Above n m → first_key m ≡ some k → 0 < count_of k m
unfolding first_key count_of
first_key-held n [] a e = absurd (cc)
first_key-held n ((r, c) ∷ m) a e = ground arith
