-- ===== src/Requests/Settings.antt =====
-- The daemon's settings at run time: `toggle_history` and `toggle_alerts` of scheduler.rs, and the
-- requests that read and change them.
use lin_sight.Base.{
  ℕ, Bool, true, false, List, [], ◌∷◌, ◌++◌, Option, none, some, Text, codes, if◌then◌else◌,
}
use lin_sight.Core.Chars.{trim}
use lin_sight.Core.Hardware.{ok, err, is_none}
use lin_sight.Messages.{Reply, ResponsePayload, internal}
use lin_sight.Base.{not}
use lin_sight.Requests.{Env, Shared, Conn, Served, panicked, Fault, says, panics, refused, respond}
use lin_sight.Requests.Configs.{load_rules, loaded_engine}

-- A setting's change, and its error or panic if there is one.
abbrev pub Toggled : Type 0 → Type 0 → Type 0
Toggled F V = Shared F V × Option Fault

module _ {F V W : Type 0} (env : Env F V W) where
  -- `set_event_writer` of the engine behind the handle, if one is attached.
  unfoldable pub set_event_writer : Bool → Shared F V → Shared F V
  set_event_writer b s =
      if s.scheduler.alerts then record s { engine = record s.engine { event_writer = b } } else s

  unfoldable pub toggle_history : Shared F V → Bool → Toggled F V
  unfolding set_event_writer
  toggle_history s true =
      if s.scheduler.history then (s, none) else elim (env.spawn_history env.history_path) [
        | some e ↦ (s, some (says (codes "history spawn failed: " ++ e)))
        | none ↦
            let s' = set_event_writer true s in
            (
              record s' {
                scheduler = record s'.scheduler {
                  history = true;
                  history_db_path = some env.history_path;
                };
              },
              none,
            )
      ]
  toggle_history s false =
      let s' = set_event_writer false s in
      (
        record s' { scheduler = record s'.scheduler { history = false; history_db_path = none } },
        none,
      )

  unfoldable pub toggle_alerts : Shared F V → Bool → Toggled F V
  unfolding load_rules loaded_engine
  toggle_alerts s true =
      if s.scheduler.alerts then (s, none) else elim (load_rules env env.alerts_path) [
        | err (says e) ↦ (s, some (says (codes "alert load failed: " ++ e)))
        | err panics ↦ (s, some panics)
        | ok rules ↦ (
          record s {
            engine = record (loaded_engine rules) { event_writer = s.scheduler.history };
            scheduler = record s.scheduler {
              alerts = true;
              alerts_config_path = some env.alerts_path;
            };
          },
          none,
        )
      ]
  toggle_alerts s false = (
    record s { scheduler = record s.scheduler { alerts = false; alerts_config_path = none } },
    none,
  )

unfoldable pub error_list : Option Fault → List Fault
error_list none = []
error_list (some e) = e ∷ []

-- `errors.join("; ")`
unfoldable pub joined_errors : List Text → Text
joined_errors [] = []
joined_errors (e ∷ []) = e
joined_errors (e ∷ f ∷ es) = e ++ codes "; " ++ joined_errors (f ∷ es)

unfoldable pub prom_errors : Option Bool → List Fault
prom_errors none = []
prom_errors (some true) =
    says (codes "Prometheus toggle-on is not supported via RPC; set LINSIGHT_PROM_BIND and restart")
    ∷ []
prom_errors (some false) =
    says
      (codes "Prometheus toggle-off is not supported via RPC; unset LINSIGHT_PROM_BIND and restart")
    ∷ []

-- The texts of the errors, unless one of them is a panic.
unfoldable pub spoken : List Fault → Option (List Text)
spoken [] = some []
spoken (panics ∷ es) = none
spoken (says e ∷ es) = elim (spoken es) [ none ↦ none | some ts ↦ some (e ∷ ts) ]

-- The environment variable after a request that names it; white space removes it.
unfoldable pub prom_bind_after : Option Text → Option Text → Option Text
prom_bind_after none old = old
prom_bind_after (some bind) old = elim (trim bind) [ [] ↦ none | c ∷ cs ↦ some bind ]

module _ {F V : Type 0} where
  unfoldable pub switched :
      (Shared F V → Bool → Toggled F V)
      → Option Bool
      → Shared F V × List Fault
      → Shared F V × List Fault
  unfolding error_list
  switched toggle none (s, errors) = (s, errors)
  switched toggle (some v) (s, errors) = let (s', e) = toggle s v in (s', errors ++ error_list e)

module _ {F V W : Type 0} (env : Env F V W) where
  unfoldable pub answer_settings : Conn F V W → ℕ → Served F V W
  unfolding respond
  answer_settings c req_id =
      let s = c.shared in
      respond env c req_id (
        Reply.ok (
          ResponsePayload.daemon_settings s.scheduler.history s.scheduler.alerts
            (not (is_none s.prom_bind)) s.prom_bind))

  -- The two toggles, and the errors of them and of the Prometheus switch.
  unfoldable pub change_settings :
      Shared F V → Option Bool → Option Bool → Option Bool → Shared F V × List Fault
  unfolding switched toggle_history toggle_alerts prom_errors
  change_settings s history alerts prom =
      let (s', errors) =
        switched (toggle_alerts env) alerts (switched (toggle_history env) history (s, [])) in
      (s', errors ++ prom_errors prom)

  unfoldable pub settings_reply : Shared F V → List Text → Reply F V
  unfolding joined_errors
  settings_reply s [] = Reply.ok (
      ResponsePayload.daemon_settings_set s.scheduler.history s.scheduler.alerts
        (not (is_none s.prom_bind)))
  settings_reply s (e ∷ es) = refused internal (joined_errors (e ∷ es))

  unfoldable pub answer_set_settings :
      Conn F V W → ℕ → Option Bool → Option Bool → Option Bool → Option Text → Served F V W
  unfolding respond change_settings spoken settings_reply prom_bind_after
  answer_set_settings c req_id history alerts prom prom_bind =
      let (s, errors) = change_settings c.shared history alerts prom in
      elim (spoken errors) [
        | none ↦ panicked (record c { shared = s })
        | some texts ↦
            let s' = record s { prom_bind = prom_bind_after prom_bind s.prom_bind } in
            respond env (record c { shared = s' }) req_id (settings_reply s' texts)
      ]
