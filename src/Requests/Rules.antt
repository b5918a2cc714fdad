-- ===== src/Requests/Rules.antt =====
-- The requests about alerts: the rules, their test on the sensors of now, and the events.
use lin_sight.Base.{
  ℕ, Bool, false, List, [], ◌∷◌, ◌++◌, Option, none, some, Text, codes, take, if◌then◌else◌,
}
use lin_sight.Base.Keys.{text_eq}
use lin_sight.Base.Dict.{Dict, insert}
use lin_sight.Core.Samples.{scalar}
use lin_sight.Core.Hardware.{Checked, ok, err}
use lin_sight.Messages.{Reply, AlertRuleJson, ResponsePayload, internal, alert_not_found}
use lin_sight.Scheduler.Table.{Descriptor}
use lin_sight.Alerts.Engine.{Engine, Rule, AlertEvent, EvalOutcome, rewritten}
use lin_sight.Alerts.Engine.Rules.{upsert_rule, delete_rule}
use lin_sight.Requests.{
  Env, Conn, Served, panicked, Fault, says, panics, refused, respond, with_engine,
}
use lin_sight.Requests.Configs.{opt_parse_duration, opt_format_duration, rule_configs}

module _ {F V W : Type 0} (env : Env F V W) where
  unfoldable pub rule_json : Rule → AlertRuleJson
  unfolding opt_format_duration
  rule_json r = record {
    name = r.name;
    expr = r.expr;
    for_duration = opt_format_duration env r.for_duration;
    cooldown = opt_format_duration env r.cooldown;
    notify = r.notify;
    enabled = r.enabled;
  }

  unfoldable pub list_rules_json : List Rule → List AlertRuleJson
  unfolding rule_json
  list_rules_json [] = []
  list_rules_json (r ∷ rs) = rule_json r ∷ list_rules_json rs

  unfoldable pub answer_rules : Conn F V W → ℕ → Served F V W
  unfolding respond list_rules_json
  answer_rules c req_id =
      let s = c.shared in
      let rules = if s.scheduler.alerts then list_rules_json s.engine.rules else [] in
      respond env c req_id (Reply.ok (ResponsePayload.alert_list rules))

  -- The engine that the path of the rules' file belongs to, or the refusal.
  unfoldable pub with_alerts : Conn F V W → ℕ → (Text → Served F V W) → Served F V W
  unfolding respond
  with_alerts c req_id action =
      if c.shared.scheduler.alerts
      then elim (c.shared.scheduler.alerts_config_path) [
        | none ↦ respond env c req_id (refused internal (codes "alerts not configured"))
        | some path ↦ action path
      ]
      else respond env c req_id (refused internal (codes "alert engine not loaded"))

  -- The engine with other rules, and their file if it could be written; a failed save is only logged.
  unfoldable pub save_config : Text → Engine V → Conn F V W → Conn F V W
  unfolding rule_configs
  save_config path g c =
      let configs = rule_configs env g.rules in
      elim (env.save_rules path configs) [
        | some e ↦ with_engine g c
        | none ↦ record c { shared = record c.shared { engine = g; saved_rules = some configs } }
      ]

  -- The two durations of an upsert, in the order in which they are parsed.
  unfoldable pub durations : Option Text → Option Text → Checked Fault (ℕ × ℕ)
  unfolding opt_parse_duration
  durations for_duration cooldown = elim (opt_parse_duration env for_duration) [
    | err e ↦ err e
    | ok f ↦ elim (opt_parse_duration env cooldown) [ err e ↦ err e | ok d ↦ ok (f, d) ]
  ]

  unfoldable pub answer_upsert :
      Conn F V W
      → ℕ
      → Text
      → Text
      → Option Text
      → Option Text
      → List Text
      → Option Bool
      → Served F V W
  unfolding respond with_alerts durations upsert_rule save_config
  answer_upsert c req_id name expr for_duration cooldown notify enabled =
      with_alerts c req_id (λ path. elim (durations for_duration cooldown) [
        | err (says e) ↦ respond env c req_id (refused internal (codes "upsert failed: " ++ e))
        | err panics ↦ panicked c
        | ok (f, d) ↦
            let g = upsert_rule c.shared.engine (record {
              name = name;
              expr = expr;
              for_duration = f;
              cooldown = d;
              notify = notify;
              enabled = enabled;
            }) in
            respond env (save_config path g c) req_id
              (Reply.ok (ResponsePayload.alert_upserted name))
      ])

  unfoldable pub answer_delete : Conn F V W → ℕ → Text → Served F V W
  unfolding respond with_alerts delete_rule save_config
  answer_delete c req_id name = with_alerts c req_id (λ path.
      let (g, found) = delete_rule c.shared.engine name in
      if found
      then respond env (save_config path g c) req_id (Reply.ok (ResponsePayload.alert_deleted name))
      else respond env (with_engine g c) req_id
          (refused alert_not_found (codes "rule '" ++ name ++ codes "' not found")))

  -- The scalar sensors' values of now, under their rewritten names.
  unfoldable pub scalars_now : List (Descriptor F V) → Dict Text V → Dict Text V
  unfolding rewritten
  scalars_now [] ctx = ctx
  scalars_now (d ∷ ds) ctx = elim (env.sample_now d.id) [
    | none ↦ scalars_now ds ctx
    | some x ↦ elim (x.reading) [
      | scalar v ↦ scalars_now ds (insert (rewritten d.id) v ctx)
      | _ ↦ scalars_now ds ctx
    ]
  ]

  unfoldable pub test_payload : EvalOutcome → ResponsePayload F V
  test_payload (EvalOutcome.ok is_true) = ResponsePayload.alert_test_result is_true none
  test_payload (EvalOutcome.err e) =
      ResponsePayload.alert_test_result false (some (codes "eval failed: " ++ e))
  test_payload EvalOutcome.timeout =
      ResponsePayload.alert_test_result false (some (codes "expression evaluation timed out"))
  test_payload EvalOutcome.panic =
      ResponsePayload.alert_test_result false (some (codes "expression evaluation panicked"))

  unfoldable pub answer_test : Conn F V W → ℕ → Text → Served F V W
  unfolding respond scalars_now test_payload rewritten
  answer_test c req_id expr =
      let ctx = scalars_now c.shared.scheduler.host [] in
      respond env c req_id (Reply.ok (test_payload (env.eval_limited (rewritten expr) ctx)))

  unfoldable pub limited : Option ℕ → List AlertEvent → List AlertEvent
  limited none events = events
  limited (some n) events = take n events

  unfoldable pub list_events_json : Option ℕ → Engine V → Text
  unfolding limited
  list_events_json limit g = elim (env.events_json (limited limit g.events)) [
    | none ↦ codes "[]"
    | some json ↦ json
  ]

  unfoldable pub answer_events : Conn F V W → ℕ → Option ℕ → Served F V W
  unfolding respond list_events_json
  answer_events c req_id limit =
      let s = c.shared in
      let json = if s.scheduler.alerts then list_events_json limit s.engine else codes "[]" in
      respond env c req_id (Reply.ok (ResponsePayload.alert_event_list json))
