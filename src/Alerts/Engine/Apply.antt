-- ===== src/Alerts/Engine/Apply.antt =====
-- `apply_eval_result` and `observe` over the rules of the engine.
use lin_sight.Base.{
  ℕ, zero, suc, ◌≤◌, ◌≡◌, ◌↔◌, refl, List, [], ◌∷◌, Option, none, some, arith, ◌==◌, if◌then◌else◌,
  Text, length,
}
use lin_sight.Base.Keys.{text_eq, nat_eq}
use lin_sight.Alerts.Notify.{Notified}
use lin_sight.Alerts.Engine.{
  Engine, Rule, EvalOutcome, rule_at, set_rule, apply_outcome, push_kind, push_event,
  apply_eval_result, notified_by, AlertEventKind,
}

set_rule-at :
    (i j : ℕ) (r q : Rule) (rs : List Rule)
    → rule_at i rs ≡ some q
    → rule_at j (set_rule i r rs) ≡ (if i == j then some r else rule_at j rs)
unfolding rule_at set_rule
set_rule-at i j r q [] h = absurd (ground arith)
set_rule-at zero zero r q (p ∷ rs) h = ground arith
set_rule-at zero (suc j) r q (p ∷ rs) h = ground arith
set_rule-at (suc i) zero r q (p ∷ rs) h = ground arith
set_rule-at (suc i) (suc j) r q (p ∷ rs) h = ground (arith, set_rule-at i j r q rs h)

rule_at-none : (i : ℕ) (rs : List Rule) → (rule_at i rs ≡ none) ↔ (length rs ≤ i)
unfolding rule_at
rule_at-none i [] = (λ h. omega arith, λ h. refl)
rule_at-none zero (r ∷ rs) = (λ h. absurd (ground arith), λ h. absurd (omega arith))
rule_at-none (suc i) (r ∷ rs) =
    let (to, back) = rule_at-none i rs in (λ h. omega (arith, to h), λ h. back (omega arith))

push_kind-rules :
    {V : Type 0} (g : Engine V) (name : Text) (wall : ℕ) (k : Option AlertEventKind)
    → (push_kind g name wall k).rules ≡ g.rules
unfolding push_kind push_event
push_kind-rules g name wall none = refl
push_kind-rules g name wall (some k) = refl

module _ {V : Type 0} (g : Engine V) (idx : ℕ) (o : EvalOutcome) (now wall : ℕ) where
  -- The result of an evaluation is applied to the rule at its index and to no other rule.
  pub apply_eval_result-rules :
      {r : Rule}
      → rule_at idx g.rules ≡ some r
      → (g' : Engine V) × (n : Notified) × (apply_eval_result g idx o now wall ≡ some (g', n))
        × ((j : ℕ)
            → rule_at j g'.rules
              ≡ (if idx == j then some (apply_outcome r o now).0 else rule_at j g.rules))
  unfolding apply_eval_result
  apply_eval_result-rules {r} h =
      let new = apply_outcome r o now in
      let stored = record g { rules = set_rule idx new.0 g.rules } in
      (
        push_kind stored r.name wall new.1,
        notified_by r new.1,
        rw (apply_eval_result, h) refl,
        λ j. rw (push_kind-rules stored r.name wall new.1) (set_rule-at idx j new.0 r g.rules h),
      )
