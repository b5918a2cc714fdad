-- ===== src/Alerts/Engine/Observe.antt =====
-- Which rules a sample has evaluated, and on which values.
use lin_sight.Base.{
  ◌∙◌, ℕ, suc, ◌-◌, ◌≡◌, refl, ap, Bool, true, false, ◌&&◌, List, [], ◌∷◌, Option, none, some,
  arith, leb, if◌then◌else◌, Text, map, Bool-cases, inl, inr,
}
use lin_sight.Base.Keys.{text_beq, text_eq, nat_eq, contains, beq_refl}
use lin_sight.Base.Dict.{Dict, lookup, insert, lookup-insert}
use lin_sight.Core.Samples.{Sample}
use lin_sight.Alerts.Engine.{
  Engine, Rule, rule_at, observe, numeric, store, make_room, prune_unreferenced_values, jobs_from,
  rewritten,
}

-- Whether a rule is to be evaluated for a sensor.
abbrev pub wants : Text → Option Rule → Bool
wants id none = false
wants id (some r) = r.enabled && contains id r.referenced_sensors

rule_at-shift :
    (i k : ℕ) (r : Rule) (rs : List Rule)
    → rule_at (i - k) (r ∷ rs) ≡ (if leb i k then some r else rule_at (i - suc k) rs)
unfolding rule_at
rule_at-shift i k r rs = elim (Bool-cases (leb i k)) [
  | inl low ↦ let first : i - k ≡ 0 = ground arith in rw (first, low) refl
  | inr high ↦ let next : i - k ≡ suc (i - suc k) = ground arith in rw (next, high) refl
]

jobs_from-contains :
    {V : Type 0} (k i : ℕ) (id : Text) (ctx : Dict Text V) (rs : List Rule)
    → contains i (map (λ j. j.idx) (jobs_from k id ctx rs))
      ≡ (leb k i && wants id (rule_at (i - k) rs))
unfolding jobs_from contains rule_at
jobs_from-contains k i id ctx [] = ground arith
jobs_from-contains k i id ctx (r ∷ rs) =
    let later = jobs_from-contains (suc k) i id ctx rs in
    let shift = rule_at-shift i k r rs in
    elim (Bool-cases (r.enabled && contains id r.referenced_sensors)) [
      | inl wanted ↦ rw (wanted, shift) (ground (arith, later, wanted))
      | inr idle ↦ rw (idle, shift) (ground (arith, later, idle))
    ]

from_zero :
    (i : ℕ) (id : Text) (rs : List Rule)
    → (leb 0 i && wants id (rule_at (i - 0) rs)) ≡ wants id (rule_at i rs)
from_zero i id rs =
    let low : leb 0 i ≡ true = ground arith in
    let same : i - 0 ≡ i = omega arith in rw (low, same) refl

stored : {V : Type 0} (k : Text) (v : V) (m : Dict Text V) → lookup k (insert k v m) ≡ some v
stored k v m =
    let same : text_beq k k ≡ true = beq_refl k in
    lookup-insert k k v m ∙ ap (λ b. if b then some v else lookup k m) same

make_room-rules : {V : Type 0} (g : Engine V) (id : Text) → (make_room g id).rules ≡ g.rules
unfolding make_room prune_unreferenced_values
make_room-rules g id = ground arith

-- A numeric sample is stored under its sensor, and for the expressions under the rewritten name;
-- exactly the enabled rules that refer to the sensor are to be evaluated, and no rule changes.
pub observe-jobs :
    {V : Type 0} (of_counter : ℕ → V) (g : Engine V) (sample : Sample V) {v : V}
    → numeric of_counter sample.reading ≡ some v
    → let o = observe of_counter g sample in
      ((i : ℕ) → contains i (map (λ j. j.idx) o.1) ≡ wants sample.sensor (rule_at i g.rules))
      × (lookup sample.sensor o.0.values ≡ some v)
      × (lookup (rewritten sample.sensor) o.0.ctx ≡ some v)
      × (o.0.rules ≡ g.rules)
unfolding observe store
observe-jobs of_counter g sample {v} h =
    let roomy = make_room g sample.sensor in
    let ctx = insert (rewritten sample.sensor) v roomy.ctx in
    rw (observe, h, make_room-rules g sample.sensor)
      (
        λ i. jobs_from-contains 0 i sample.sensor ctx g.rules ∙ from_zero i sample.sensor g.rules,
        stored sample.sensor v roomy.values,
        stored (rewritten sample.sensor) v roomy.ctx,
        refl,
      )
