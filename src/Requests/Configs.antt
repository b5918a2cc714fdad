-- ===== src/Requests/Configs.antt =====
-- apps/linsightd/src/alerts.rs: the rules in their TOML file, `save_config` and `AlertEngine::load`.
use lin_sight.Base.{
  ℕ, true, false, List, [], ◌∷◌, ◌++◌, Option, none, some, Text, codes, if◌then◌else◌, ◌==◌,
}
use lin_sight.Core.Hardware.{Checked, ok, err}
use lin_sight.Alerts.Engine.{Engine, Rule, rewritten, extract_sensor_refs}
use lin_sight.Alerts.Engine.Rules.{enabled_or}
use lin_sight.Base.{◌/◌, ◌&&◌, ◌||◌}
use lin_sight.Base.Keys.{text_beq}
use lin_sight.Core.Chars.{is_ascii_digit, trim}
use lin_sight.Core.Numbers.{decimal}
use lin_sight.Requests.{Env, RuleConfig, Seconds, Fault, says, panics}

-- The split of a text at the first character that is neither a digit nor a dot.
unfoldable pub split_number : Text → Text × Text
unfolding is_ascii_digit
split_number [] = ([], [])
split_number (c ∷ cs) =
    let (num, unit) = split_number cs in
    if is_ascii_digit c || c == b'.' then (c ∷ num, unit) else ([], c ∷ cs)

module _ {V : Type 0} (f64 : Seconds V) where
  -- The seconds of a number in a unit; `none` is a unit that there is not.
  unfoldable pub in_seconds : V → Text → Option V
  in_seconds n unit =
      if text_beq unit [] || text_beq unit (codes "s")
      then some n
      else if text_beq unit (codes "ms")
      then some (f64.over n 1000)
      else if text_beq unit (codes "m")
      then some (f64.times n 60)
      else if text_beq unit (codes "h")
      then some (f64.times n 3600)
      else none

  unfoldable pub from_secs_f64 : V → Checked Fault ℕ
  from_secs_f64 secs = elim (f64.from_secs secs) [ none ↦ err panics | some d ↦ ok d ]

  unfoldable pub parse_duration : Text → Checked Fault ℕ
  unfolding split_number in_seconds from_secs_f64
  parse_duration s =
      let (num, unit) = split_number (trim s) in
      elim (f64.parse num) [
        | none ↦ err (says (f64.bad_number (trim s)))
        | some n ↦ elim (in_seconds n unit) [
          | none ↦ err (says (f64.bad_unit unit))
          | some secs ↦ from_secs_f64 secs
        ]
      ]

  unfoldable pub format_duration : ℕ → Text
  format_duration d =
      let secs = f64.as_secs d in
      let whole = f64.truncated secs in
      if f64.at_least secs 3600 && f64.is_multiple secs 3600
      then decimal (whole / 3600) ++ codes "h"
      else if f64.at_least secs 60 && f64.is_multiple secs 60
      then decimal (whole / 60) ++ codes "m"
      else if f64.at_least secs 1 && f64.is_multiple secs 1
      then decimal whole ++ codes "s"
      else if f64.at_least_milli secs
      then decimal (d / 1_000_000) ++ codes "ms"
      else f64.text secs ++ codes "s"

-- `with_context`
unfoldable pub in_context : Text → Fault → Fault
in_context context (says e) = says context
in_context context panics = panics

module _ {F V W : Type 0} (env : Env F V W) where
  unfoldable pub opt_parse_duration : Option Text → Checked Fault ℕ
  unfolding parse_duration
  opt_parse_duration none = ok 0
  opt_parse_duration (some []) = ok 0
  opt_parse_duration (some (c ∷ cs)) = parse_duration env.f64 (c ∷ cs)

  unfoldable pub opt_format_duration : ℕ → Option Text
  unfolding format_duration
  opt_format_duration d = if d == 0 then none else some (format_duration env.f64 d)

  unfoldable pub rule_config : Rule → RuleConfig
  unfolding opt_format_duration
  rule_config r = record {
    name = r.name;
    expr = r.expr;
    for_duration = opt_format_duration r.for_duration;
    cooldown = opt_format_duration r.cooldown;
    notify = r.notify;
    enabled = if r.enabled then none else some false;
  }

  unfoldable pub rule_configs : List Rule → List RuleConfig
  unfolding rule_config
  rule_configs [] = []
  rule_configs (r ∷ rs) = rule_config r ∷ rule_configs rs

  -- One rule of the file; the error is the context that `load` gives it.
  unfoldable pub compile_rule : RuleConfig → Checked Fault Rule
  unfolding opt_parse_duration in_context rewritten extract_sensor_refs enabled_or
  compile_rule x = elim (opt_parse_duration x.for_duration) [
    | err e ↦ err (in_context (codes "rule " ++ x.name ++ codes ": bad `for`") e)
    | ok f ↦ elim (opt_parse_duration x.cooldown) [
      | err e ↦ err (in_context (codes "rule " ++ x.name ++ codes ": bad `cooldown`") e)
      | ok d ↦ ok (record {
        name = x.name;
        expr = x.expr;
        rewritten_expr = rewritten x.expr;
        for_duration = f;
        cooldown = d;
        notify = x.notify;
        enabled = enabled_or true x.enabled;
        triggered_at = none;
        fired = false;
        last_fired_at = none;
        referenced_sensors = extract_sensor_refs x.expr;
      })
    ]
  ]

  unfoldable pub compile_rules : List RuleConfig → Checked Fault (List Rule)
  unfolding compile_rule
  compile_rules [] = ok []
  compile_rules (x ∷ xs) = elim (compile_rule x) [
    | err e ↦ err e
    | ok r ↦ elim (compile_rules xs) [ err e ↦ err e | ok rs ↦ ok (r ∷ rs) ]
  ]

  -- The file is read and parsed by `read_rules`.
  unfoldable pub load_rules : Text → Checked Fault (List Rule)
  unfolding compile_rules
  load_rules path = elim (env.read_rules path) [ err e ↦ err (says e) | ok xs ↦ compile_rules xs ]

-- The engine that `load` makes of the rules.
unfoldable pub loaded_engine : {V : Type 0} → List Rule → Engine V
loaded_engine rules = record {
  rules = rules;
  values = [];
  ctx = [];
  events = [];
  event_writer = false;
  recorded = [];
}
