-- ===== src/Alerts/Engine/Rules.antt =====
-- The rules by name: `upsert_rule` and `delete_rule`. Durations come in as `opt_parse_duration` made
-- them.
use lin_sight.Base.{
  ℕ, ◌≤◌, ◌≡◌, refl, Bool, true, false, List, [], ◌∷◌, Option, none, some, arith, ltb,
  if◌then◌else◌, Text, length,
}
use lin_sight.Base.Keys.{text_beq, text_eq, text_beq_iff}
use lin_sight.Alerts.Engine.{Engine, Rule, rewritten, extract_sensor_refs}

-- What an `UpsertAlert` says of a rule.
pub record RuleInput : Type 0 where
  pub name : Text
  pub expr : Text
  pub for_duration : ℕ
  pub cooldown : ℕ
  pub notify : List Text
  pub enabled : Option Bool

unfoldable pub enabled_or : Bool → Option Bool → Bool
enabled_or b none = b
enabled_or b (some e) = e

unfoldable pub fresh_rule : RuleInput → Rule
unfolding enabled_or rewritten extract_sensor_refs
fresh_rule x = record {
  name = x.name;
  expr = x.expr;
  rewritten_expr = rewritten x.expr;
  for_duration = x.for_duration;
  cooldown = x.cooldown;
  notify = x.notify;
  enabled = enabled_or true x.enabled;
  triggered_at = none;
  fired = false;
  last_fired_at = none;
  referenced_sensors = extract_sensor_refs x.expr;
}

unfoldable pub updated_rule : RuleInput → Rule → Rule
unfolding enabled_or rewritten extract_sensor_refs
updated_rule x r = record r {
  expr = x.expr;
  rewritten_expr = rewritten x.expr;
  notify = x.notify;
  referenced_sensors = extract_sensor_refs x.expr;
  for_duration = x.for_duration;
  cooldown = x.cooldown;
  enabled = enabled_or r.enabled x.enabled;
  triggered_at = none;
  fired = false;
  last_fired_at = none;
}

-- The first rule of that name is updated, or a new one comes last.
unfoldable pub upsert_in : RuleInput → List Rule → List Rule
unfolding fresh_rule updated_rule
upsert_in x [] = fresh_rule x ∷ []
upsert_in x (r ∷ rs) =
    let later = upsert_in x rs in
    if text_beq r.name x.name then updated_rule x r ∷ rs else r ∷ later

unfoldable pub retain_others : Text → List Rule → List Rule
retain_others name [] = []
retain_others name (r ∷ rs) =
    let rest = retain_others name rs in if text_beq r.name name then rest else r ∷ rest

module _ {V : Type 0} where
  unfoldable pub upsert_rule : Engine V → RuleInput → Engine V
  unfolding upsert_in
  upsert_rule g x = record g { rules = upsert_in x g.rules }

  unfoldable pub delete_rule : Engine V → Text → Engine V × Bool
  unfolding retain_others
  delete_rule g name =
      let kept = retain_others name g.rules in
      (record g { rules = kept }, ltb (length kept) (length g.rules))

-- The rule that goes by a name, and whether there is one.
unfoldable pub find_rule : Text → List Rule → Option Rule
find_rule name [] = none
find_rule name (r ∷ rs) = if text_beq r.name name then some r else find_rule name rs

abbrev pub is_some {ℓ} : {A : Type ℓ} → Option A → Bool
is_some none = false
is_some (some a) = true

unfoldable pub upserted : RuleInput → Option Rule → Rule
unfolding fresh_rule updated_rule
upserted x none = fresh_rule x
upserted x (some r) = updated_rule x r

find_rule-upsert_in :
    (x : RuleInput) (name : Text) (rs : List Rule)
    → find_rule name (upsert_in x rs) ≡ (
        if text_beq x.name name then some (upserted x (find_rule x.name rs)) else find_rule name rs)
unfolding find_rule upsert_in upserted
find_rule-upsert_in x name [] = refl
find_rule-upsert_in x name (r ∷ rs) = ground (
  arith,
  find_rule-upsert_in x name rs,
  text_beq_iff r.name x.name,
  text_beq_iff r.name name,
  text_beq_iff x.name name,
)

find_rule-retain_others :
    (gone name : Text) (rs : List Rule)
    → find_rule name (retain_others gone rs)
      ≡ (if text_beq gone name then none else find_rule name rs)
unfolding find_rule retain_others
find_rule-retain_others gone name [] = ground arith
find_rule-retain_others gone name (r ∷ rs) = ground (
  arith,
  find_rule-retain_others gone name rs,
  text_beq_iff r.name gone,
  text_beq_iff r.name name,
  text_beq_iff gone name,
)

length-retain_others-le :
    (name : Text) (rs : List Rule) → length (retain_others name rs) ≤ length rs
unfolding retain_others
length-retain_others-le name [] = omega arith
length-retain_others-le name (r ∷ rs) = ground (arith, length-retain_others-le name rs)

length-retain_others :
    (name : Text) (rs : List Rule)
    → ltb (length (retain_others name rs)) (length rs) ≡ is_some (find_rule name rs)
unfolding find_rule retain_others
length-retain_others name [] = refl
length-retain_others name (r ∷ rs) =
    ground (arith, length-retain_others name rs, length-retain_others-le name rs)

module _ {V : Type 0} (g : Engine V) where
  -- After an upsert the name finds the rule it describes, with its alarm reset; every other name
  -- finds what it found before.
  pub upsert_rule-find :
      (x : RuleInput) (name : Text)
      → find_rule name (upsert_rule g x).rules ≡ (
          if text_beq x.name name
          then some (upserted x (find_rule x.name g.rules))
          else find_rule name g.rules)
  unfolding upsert_rule
  upsert_rule-find x name = find_rule-upsert_in x name g.rules

  -- After a deletion the name finds no rule and every other name what it found before; the answer
  -- says whether there was a rule.
  pub delete_rule-find :
      (gone name : Text)
      → (find_rule name (delete_rule g gone).0.rules
          ≡ (if text_beq gone name then none else find_rule name g.rules))
        × ((delete_rule g gone).1 ≡ is_some (find_rule gone g.rules))
  unfolding delete_rule
  delete_rule-find gone name =
      (find_rule-retain_others gone name g.rules, length-retain_others gone g.rules)
