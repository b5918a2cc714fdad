-- ===== src/History/Retention.antt =====
-- Prunes are an hour apart, and what a written retention makes of the cutoff.
use lin_sight.Base.{
  ℕ, ◌*◌, ◌+◌, ◌-◌, ◌%◌, ◌<◌, ◌≤◌, ◌≡◌, refl, ap, ◌∙◌, true, false, List, [], ◌∷◌, ◌++◌, none, some,
  Text, codes, ltb, leb, if◌then◌else◌, u64_mod, u64_max, arith, Bool-cases, inl, inr,
}
use lin_sight.Base.Keys.{text_beq}
use lin_sight.Core.Numbers.{decimal, decimal-starts}
use lin_sight.Core.Durations.{
  parse_duration_dhm, DurationUnit, days, hours, minutes, letter, secs, letter-plain, trim-written,
  parse_duration_dhm-decimal,
}
use lin_sight.History.{prune_interval, or_default, retention_from_env, maybe_prune, prunes}

-- The prunes of a loop that prunes at each visit that comes an hour or more after the last prune,
-- and keeps what is no older than `r` seconds.
pub data Hourly (r : ℕ) : ℕ → List (ℕ × ℕ) → List (ℕ × ℕ) → Type 0 where
  over : {last : ℕ} → Hourly r last [] []
  early :
      {last now now_micros : ℕ} {ts ps : List (ℕ × ℕ)}
      → now < prune_interval + last
      → Hourly r last ts ps
      → Hourly r last ((now, now_micros) ∷ ts) ps
  due :
      {last now now_micros : ℕ} {ts ps : List (ℕ × ℕ)}
      → prune_interval + last ≤ now
      → Hourly r now ts ps
      → Hourly r last ((now, now_micros) ∷ ts) ((now, now_micros - r * 1_000_000) ∷ ps)

prunes-Hourly :
    (r last_prune : ℕ) (ts : List (ℕ × ℕ))
    → r * 1_000_000 < u64_mod
    → Hourly r last_prune ts (prunes (some r) last_prune ts)
unfolding prunes maybe_prune
prunes-Hourly r last [] fits = over
prunes-Hourly r last ((now, w) ∷ ts) fits = elim (Bool-cases (ltb (now - last) prune_interval)) [
  | inl soon ↦
      simp (prunes, maybe_prune, soon) (early (ground arith) (prunes-Hourly r last ts fits))
  | inr hour ↦
      let whole : r * 1_000_000 % u64_mod ≡ r * 1_000_000 = omega arith in
      simp (prunes, maybe_prune, hour, whole) (due (ground arith) (prunes-Hourly r now ts fits))
]

zero_text : (c : ℕ) (cs : Text) (u : ℕ) → text_beq (c ∷ cs ++ u ∷ []) (codes "0") ≡ false
unfolding text_beq
zero_text c [] u = ground arith
zero_text c (d ∷ cs) u = ground arith

secs-grow : (n : ℕ) (u : DurationUnit) → n ≤ n * secs u
secs-grow n days = omega arith
secs-grow n hours = omega arith
secs-grow n minutes = omega arith

parsed-written :
    (n : ℕ) (u : DurationUnit)
    → 0 < n
    → n * secs u ≤ u64_max
    → parse_duration_dhm (decimal n ++ letter u ∷ []) ≡ some (n * secs u)
parsed-written n u positive fits =
    let grow = secs-grow n u in
    let small : leb (n * secs u) u64_max ≡ true = ground arith in
    parse_duration_dhm-decimal n u positive (omega (arith, grow, fits)) ∙ rw small refl

written-zero :
    (n : ℕ) (u : DurationUnit) → text_beq (decimal n ++ letter u ∷ []) (codes "0") ≡ false
written-zero n u =
    let (c, cs, same, digit) = decimal-starts n in rw same (zero_text c cs (letter u))

retention-written :
    (n : ℕ) (u : DurationUnit)
    → 0 < n
    → n * secs u ≤ u64_max
    → retention_from_env (some (decimal n ++ letter u ∷ [])) ≡ some (n * secs u)
unfolding retention_from_env or_default
retention-written n u positive fits =
    let raw = decimal n ++ letter u ∷ [] in
    ap (λ t. if text_beq t (codes "0") then none else or_default (parse_duration_dhm t))
      (trim-written n (letter u) (letter-plain u).1)
    ∙ ap (λ b. if b then none else or_default (parse_duration_dhm raw)) (written-zero n u)
    ∙ ap or_default (parsed-written n u positive fits)

-- With a retention that is written as a positive number and a unit, and that is less than 2 ^ 64
-- microseconds, the writer prunes at each visit that comes an hour or more after the last prune,
-- and at no other, and the cutoff is the wall time less the retention, or 0.
pub written_retention :
    (n : ℕ) (u : DurationUnit) (last_prune : ℕ) (ts : List (ℕ × ℕ))
    → 0 < n
    → n * secs u * 1_000_000 < u64_mod
    → Hourly
        (n * secs u)
        last_prune
        ts
        (prunes (retention_from_env (some (decimal n ++ letter u ∷ []))) last_prune ts)
written_retention n u last_prune ts positive fits =
    rw (retention-written n u positive (omega (arith, fits)))
      (prunes-Hourly (n * secs u) last_prune ts fits)
