-- ===== src/Requests/Dispatch/Wired.antt =====
-- The subsystems stay wired together, and the pump interval in its range, through every request.
use lin_sight.Base.{
  ℕ, ◌≤◌, ◌≡◌, refl, ◌∙◌, sym, ap, subst, Bool, true, false, not, List, [], Option, none, some,
  Text, arith, Bool-cases, Option-cases, inl, inr,
}
use lin_sight.Core.Hardware.{Checked-cases, try_new_key, is_none}
use lin_sight.Messages.{
  Reply, ResponsePayload, response, RequestOp, get_hardware, set_nickname, set_pump_interval_ms,
  get_history, list_alerts, upsert_alert, delete_alert, test_alert_expr, list_alert_events,
  get_daemon_settings, set_daemon_settings, get_sensor_info,
}
use lin_sight.Registry.{revalidated, nicknames_snapshot}
use lin_sight.Registry
use lin_sight.Alerts.Engine.{Engine}
use lin_sight.Alerts.Engine.Rules.{upsert_rule, delete_rule}
use lin_sight.Requests.{
  Env, Shared, Conn, Served, Fault, says, panics, respond, with_engine, with_registry,
}
use lin_sight.Requests.Info.{answer_hardware, answer_sensor_info, answer_history}
use lin_sight.Requests.Nickname.{
  answer_nickname, apply_nickname, save_nickname, confirm_nickname, tell_everyone,
}
use lin_sight.Requests.Configs.{rule_configs, load_rules}
use lin_sight.Requests.Rules.{
  answer_rules, answer_upsert, answer_delete, answer_test, answer_events, with_alerts, durations,
  save_config,
}
use lin_sight.Requests.Settings.{
  answer_settings, answer_set_settings, toggle_history, toggle_alerts, set_event_writer, switched,
  change_settings, Toggled, spoken,
}
use lin_sight.Requests.Dispatch.{
  handle_request, answer_pump, pump_interval_min_ms, pump_interval_max_ms,
}
use lin_sight.Requests.Dispatch.Answered.{conn_after}

module _ {F V : Type 0} where
  -- A history writer and its database's path come together, an engine and its file's path too, and an
  -- attached engine has a writer for its events exactly if there is one.
  pub record Wired (s : Shared F V) : Type 0 where
    pub history_wired : s.scheduler.history ≡ not (is_none s.scheduler.history_db_path)
    pub alerts_wired : s.scheduler.alerts ≡ not (is_none s.scheduler.alerts_config_path)
    pub events_wired : s.scheduler.alerts ≡ true → s.engine.event_writer ≡ s.scheduler.history

  set_event_writer-Wired :
      {W : Type 0} (env : Env F V W) (b : Bool) (path : Option Text) (s : Shared F V)
      → Wired s
      → b ≡ not (is_none path)
      → let s' = set_event_writer env b s in
        Wired
          (record s' { scheduler = record s'.scheduler { history = b; history_db_path = path } })
  unfolding set_event_writer
  set_event_writer-Wired env b path s v h = elim (Bool-cases (s.scheduler.alerts)) [
    | inl on ↦
        simp (set_event_writer, on)
          (record {
            history_wired = h;
            alerts_wired = sym on ∙ v.alerts_wired;
            events_wired = λ _. refl;
          })
    | inr off ↦
        simp (set_event_writer, off)
          (record {
            history_wired = h;
            alerts_wired = sym off ∙ v.alerts_wired;
            events_wired = λ g. absurd (ground arith);
          })
  ]

  module _ {W : Type 0} (env : Env F V W) where
    toggle_history-Wired :
        (s : Shared F V) (enable : Bool) → Wired s → Wired (toggle_history env s enable).0
    unfolding toggle_history
    toggle_history-Wired s false v = set_event_writer-Wired env false none s v refl
    toggle_history-Wired s true v = elim (Bool-cases (s.scheduler.history)) [
      | inl on ↦ simp (toggle_history, on) v
      | inr off ↦ elim (Option-cases (env.spawn_history env.history_path)) [
        | inr (e, failure) ↦ simp (toggle_history, off, failure) v
        | inl spawned ↦
            simp (toggle_history, off, spawned)
              (set_event_writer-Wired env true (some env.history_path) s v refl)
      ]
    ]

    toggle_alerts-Wired :
        (s : Shared F V) (enable : Bool) → Wired s → Wired (toggle_alerts env s enable).0
    unfolding toggle_alerts
    toggle_alerts-Wired s false v = record {
      history_wired = v.history_wired;
      alerts_wired = refl;
      events_wired = λ g. absurd (ground arith);
    }
    toggle_alerts-Wired s true v = elim (Bool-cases (s.scheduler.alerts)) [
      | inl on ↦ simp (toggle_alerts, on) v
      | inr off ↦ elim (Checked-cases (load_rules env env.alerts_path)) [
        | inr (says e, bad) ↦ simp (toggle_alerts, off, bad) v
        | inr (panics, bad) ↦ simp (toggle_alerts, off, bad) v
        | inl (rules, good) ↦
            simp (toggle_alerts, off, good)
              (record {
                history_wired = v.history_wired;
                alerts_wired = refl;
                events_wired = λ _. refl;
              })
      ]
    ]

    switched-Wired :
        (toggle : Shared F V → Bool → Toggled F V) (v : Option Bool) (x : Shared F V × List Fault)
        → ((s : Shared F V) (b : Bool) → Wired s → Wired (toggle s b).0)
        → Wired x.0
        → Wired (switched toggle v x).0
    unfolding switched
    switched-Wired toggle none x keeps w = w
    switched-Wired toggle (some b) x keeps w = keeps x.0 b w

    change_settings-Wired :
        (s : Shared F V) (history alerts prom : Option Bool)
        → Wired s
        → Wired (change_settings env s history alerts prom).0
    unfolding change_settings
    change_settings-Wired s history alerts prom v =
        switched-Wired (toggle_alerts env) alerts _ toggle_alerts-Wired
          (switched-Wired (toggle_history env) history (s, []) toggle_history-Wired v)

-- What every request keeps true of a session and of what it shares.
pub record ConnOk {F V W : Type 0} (c : Conn F V W) : Type 0 where
  pub not_fast : pump_interval_min_ms ≤ c.pump_interval_ms
  pub not_slow : c.pump_interval_ms ≤ pump_interval_max_ms
  pub wired : Wired c.shared

module _ {F V W : Type 0} (env : Env F V W) (req_id : ℕ) where
  respond-ConnOk :
      (c : Conn F V W) (reply : Reply F V)
      → ConnOk c
      → ConnOk (conn_after (respond env c req_id reply))
  unfolding respond
  respond-ConnOk c reply v = elim (Option-cases (env.write c.writer (response req_id reply))) [
    | inl lost ↦ simp (respond, lost) v
    | inr (w, wrote) ↦
        simp (respond, wrote)
          (record { not_fast = v.not_fast; not_slow = v.not_slow; wired = v.wired })
  ]

  -- A change that keeps the scheduler and whether the engine has a writer.
  same_wiring :
      (c d : Conn F V W)
      → c.pump_interval_ms ≡ d.pump_interval_ms
      → c.shared.scheduler ≡ d.shared.scheduler
      → c.shared.engine.event_writer ≡ d.shared.engine.event_writer
      → ConnOk c
      → ConnOk d
  same_wiring c d pump scheduler writer v = record {
    not_fast = omega (arith, v.not_fast);
    not_slow = omega (arith, v.not_slow);
    wired = record {
      history_wired =
          subst (λ s. s.history ≡ not (is_none s.history_db_path)) scheduler v.wired.history_wired;
      alerts_wired =
          subst (λ s. s.alerts ≡ not (is_none s.alerts_config_path)) scheduler v.wired.alerts_wired;
      events_wired = λ on.
          sym writer
          ∙ v.wired.events_wired (ap (λ s. s.alerts) scheduler ∙ on)
          ∙ ap (λ s. s.history) scheduler;
    };
  }

  confirm_nickname-ConnOk :
      (c : Conn F V W) (key : Text) (value : Option Text)
      → ConnOk c
      → ConnOk (conn_after (confirm_nickname env c req_id key value))
  unfolding confirm_nickname respond tell_everyone
  confirm_nickname-ConnOk c key value v =
      let reply = Reply.ok (ResponsePayload.nickname_set key value) in
      elim (Option-cases (env.write c.writer (response req_id reply))) [
        | inl lost ↦ simp (confirm_nickname, respond, lost) v
        | inr (w, wrote) ↦
            simp (confirm_nickname, respond, wrote)
              (same_wiring c (tell_everyone env (record c { writer = w })) refl refl refl v)
      ]

  save_nickname-ConnOk :
      (c : Conn F V W) (key : Text) (value : Option Text)
      → ConnOk c
      → ConnOk (conn_after (save_nickname env c req_id key value))
  unfolding save_nickname
  save_nickname-ConnOk c key value v =
      let store = nicknames_snapshot c.shared.registry in
      elim (Option-cases (env.save_nicknames store)) [
        | inr (e, failure) ↦ simp (save_nickname, failure) (respond-ConnOk c _ v)
        | inl saved ↦
            let d = record c { shared = record c.shared { saved_nicknames = some store } } in
            simp (save_nickname, saved)
              (confirm_nickname-ConnOk d key value (same_wiring c d refl refl refl v))
      ]

  answer_nickname-ConnOk :
      (c : Conn F V W) (device_key : Text) (value : Option Text)
      → ConnOk c
      → ConnOk (conn_after (answer_nickname env c req_id device_key value))
  unfolding answer_nickname apply_nickname
  answer_nickname-ConnOk c device_key value v = elim (Checked-cases (try_new_key device_key)) [
    | inr (e, bad) ↦ simp (answer_nickname, bad) (respond-ConnOk c _ v)
    | inl (key, good) ↦ elim (Checked-cases (revalidated value)) [
      | inr (e, bad) ↦ simp (answer_nickname, good, bad) (respond-ConnOk c _ v)
      | inl (n, fine) ↦ elim (Checked-cases (Registry.set_nickname c.shared.registry key n)) [
        | inr (e, unknown) ↦
            simp (answer_nickname, good, fine, apply_nickname, unknown) (respond-ConnOk c _ v)
        | inl (r, renamed) ↦
            simp (answer_nickname, good, fine, apply_nickname, renamed)
              (save_nickname-ConnOk (with_registry r c) device_key n
                (same_wiring c (with_registry r c) refl refl refl v))
      ]
    ]
  ]

  with_alerts-ConnOk :
      (c : Conn F V W) (action : Text → Served F V W)
      → ConnOk c
      → ((path : Text) → ConnOk (conn_after (action path)))
      → ConnOk (conn_after (with_alerts env c req_id action))
  unfolding with_alerts
  with_alerts-ConnOk c action v acts = elim (Bool-cases (c.shared.scheduler.alerts)) [
    | inr off ↦ simp (with_alerts, off) (respond-ConnOk c _ v)
    | inl on ↦ elim (Option-cases (c.shared.scheduler.alerts_config_path)) [
      | inl nowhere ↦ simp (with_alerts, on, nowhere) (respond-ConnOk c _ v)
      | inr (path, there) ↦ simp (with_alerts, on, there) (acts path)
    ]
  ]

  save_config-ConnOk :
      (path : Text) (g : Engine V) (c : Conn F V W)
      → c.shared.engine.event_writer ≡ g.event_writer
      → ConnOk c
      → ConnOk (save_config env path g c)
  unfolding save_config
  save_config-ConnOk path g c same v =
      let configs = rule_configs env g.rules in
      elim (Option-cases (env.save_rules path configs)) [
        | inr (e, failure) ↦
            simp (save_config, failure) (same_wiring c (with_engine g c) refl refl same v)
        | inl saved ↦
            let shared = record c.shared { engine = g; saved_rules = some configs } in
            simp (save_config, saved)
              (same_wiring c (record c { shared = shared }) refl refl same v)
      ]

  answer_upsert-ConnOk :
      (c : Conn F V W) (name expr : Text) (for_duration cooldown : Option Text) (notify : List Text)
      (enabled : Option Bool)
      → ConnOk c
      → ConnOk
          (conn_after (answer_upsert env c req_id name expr for_duration cooldown notify enabled))
  unfolding answer_upsert upsert_rule
  answer_upsert-ConnOk c name expr for_duration cooldown notify enabled v =
      with_alerts-ConnOk c _ v (λ path. elim (Checked-cases (durations env for_duration cooldown)) [
        | inr (says e, bad) ↦ simp bad (respond-ConnOk c _ v)
        | inr (panics, bad) ↦ simp bad v
        | inl ((f, d), good) ↦ simp good (respond-ConnOk _ _ (save_config-ConnOk path _ c refl v))
      ])

  answer_delete-ConnOk :
      (c : Conn F V W) (name : Text)
      → ConnOk c
      → ConnOk (conn_after (answer_delete env c req_id name))
  unfolding answer_delete delete_rule
  answer_delete-ConnOk c name v = with_alerts-ConnOk c _ v (λ path.
      let g = (delete_rule c.shared.engine name).0 in
      elim (Bool-cases ((delete_rule c.shared.engine name).1)) [
        | inl found ↦ rw found (respond-ConnOk _ _ (save_config-ConnOk path g c refl v))
        | inr absent ↦
            rw absent (respond-ConnOk _ _ (same_wiring c (with_engine g c) refl refl refl v))
      ])

answer_set_settings-ConnOk :
    {F V W : Type 0} (env : Env F V W) (c : Conn F V W) (req_id : ℕ)
    (history alerts prom : Option Bool) (prom_bind : Option Text)
    → ConnOk c
    → ConnOk (conn_after (answer_set_settings env c req_id history alerts prom prom_bind))
unfolding answer_set_settings
answer_set_settings-ConnOk env c req_id history alerts prom prom_bind v =
    let after = change_settings-Wired env c.shared history alerts prom v.wired in
    elim (Option-cases (spoken (change_settings env c.shared history alerts prom).1)) [
      | inl broken ↦
          simp (answer_set_settings, broken)
            (record { not_fast = v.not_fast; not_slow = v.not_slow; wired = after })
      | inr (texts, fine) ↦
          simp (answer_set_settings, fine)
            (respond-ConnOk env req_id _ _ (record {
              not_fast = v.not_fast;
              not_slow = v.not_slow;
              wired = record {
                history_wired = after.history_wired;
                alerts_wired = after.alerts_wired;
                events_wired = after.events_wired;
              };
            }))
    ]

-- Every request, whether it is answered, fails or panics, keeps the session's pump interval between 50 and 1000
-- milliseconds, a history writer together with its database's path, an alert engine together with
-- its file's path, and an attached engine's event writer together with the history writer.
pub handle_request-ConnOk :
    {F V W : Type 0} (env : Env F V W) (c : Conn F V W) (req_id : ℕ) (op : RequestOp)
    → ConnOk c
    → ConnOk (conn_after (handle_request env c req_id op))
unfolding handle_request answer_hardware answer_sensor_info answer_history answer_rules answer_test
    answer_events answer_settings answer_pump
handle_request-ConnOk env c req_id get_hardware v = respond-ConnOk env req_id c _ v
handle_request-ConnOk env c req_id (get_sensor_info sensor) v = respond-ConnOk env req_id c _ v
handle_request-ConnOk env c req_id (set_nickname device_key value) v =
    answer_nickname-ConnOk env req_id c device_key value v
handle_request-ConnOk env c req_id (set_pump_interval_ms ms) v =
    respond-ConnOk env req_id _ _
      (record { not_fast = omega arith; not_slow = omega arith; wired = v.wired })
handle_request-ConnOk env c req_id (get_history sensor since until max_points) v =
    respond-ConnOk env req_id c _ v
handle_request-ConnOk env c req_id list_alerts v = respond-ConnOk env req_id c _ v
handle_request-ConnOk env c req_id (upsert_alert name expr for_duration cooldown notify enabled) v =
    answer_upsert-ConnOk env req_id c name expr for_duration cooldown notify enabled v
handle_request-ConnOk env c req_id (delete_alert name) v = answer_delete-ConnOk env req_id c name v
handle_request-ConnOk env c req_id (test_alert_expr expr) v = respond-ConnOk env req_id c _ v
handle_request-ConnOk env c req_id (list_alert_events limit) v = respond-ConnOk env req_id c _ v
handle_request-ConnOk env c req_id get_daemon_settings v = respond-ConnOk env req_id c _ v
handle_request-ConnOk env c req_id (set_daemon_settings history alerts prom prom_bind) v =
    answer_set_settings-ConnOk env c req_id history alerts prom prom_bind v
