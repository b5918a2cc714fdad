-- ===== src/Requests.antt =====
-- apps/linsightd/src/transport/unix.rs: `handle_request`, the answers to the clients' requests, and
-- what it calls of scheduler.rs and alerts.rs. `W` is the state of the socket that is written to.
pub mod Info
pub mod Nickname
pub mod Settings
pub mod Configs
pub mod Rules
pub mod Dispatch
use lin_sight.Base.{ℕ, Bool, List, Option, none, some, Text}
use lin_sight.Base.Dict.{Dict}
use lin_sight.Core.Samples.{SensorId, Sample}
use lin_sight.Core.Hardware.{Checked, KeyError, NicknameError}
use lin_sight.Messages.{ServerMsg, Reply, response, ProtoErrorCode, ProtoError}
use lin_sight.Messages
use lin_sight.Scheduler.Table.{Scheduler}
use lin_sight.Registry.{Registry}
use lin_sight.Alerts.Engine.{Engine, Rule, AlertEvent, EvalOutcome}
use lin_sight.Outbound.{ClientMap}

-- A rule as the TOML file has it.
pub record RuleConfig : Type 0 where
  pub name : Text
  pub expr : Text
  pub for_duration : Option Text
  pub cooldown : Option Text
  pub notify : List Text
  pub enabled : Option Bool

-- What the durations of the rules need of `f64`: parsing, a division and a multiplication by a literal,
-- `Duration::from_secs_f64`, for which `none` is its panic, and `as_secs_f64`; for the text, whether a
-- number is at least a literal or 0.001, whether its remainder by a literal is below the epsilon,
-- the cast to `u64`, and the text of a number. A `Duration` is its nanoseconds.
pub record Seconds (V : Type 0) : Type 0 where
  pub parse : Text → Option V
  pub over : V → ℕ → V
  pub times : V → ℕ → V
  pub from_secs : V → Option ℕ
  pub as_secs : ℕ → V
  pub at_least : V → ℕ → Bool
  pub at_least_milli : V → Bool
  pub is_multiple : V → ℕ → Bool
  pub truncated : V → ℕ
  pub text : V → Text
  pub bad_number : Text → Text
  pub bad_unit : Text → Text

-- An error with its text, or a panic.
pub data Fault : Type 0 where
  says : Text → Fault
  panics : Fault

-- What the handlers call: the socket, the files, SQLite, the plugins, the expression evaluator and the
-- texts of errors. An operation that may fail gives the text of its error.
pub record Env (F V W : Type 0) : Type 0 where
  pub write : W → ServerMsg F V → Option W
  pub sensor_error : Text → Text
  pub key_error : KeyError → Text
  pub nickname_error : NicknameError → Text
  pub plugin_id_for : SensorId → Option Text
  pub sample_now : SensorId → Option (Sample V)
  pub save_nicknames : Dict Text Text → Option Text
  pub query_history : Text → Text → ℕ → ℕ → Option ℕ → Checked Text (List (Sample V))
  pub f64 : Seconds V
  pub save_rules : Text → List RuleConfig → Option Text
  pub eval_limited : Text → Dict Text V → EvalOutcome
  pub events_json : List AlertEvent → Option Text
  pub history_path : Text
  pub spawn_history : Text → Option Text
  pub alerts_path : Text
  pub read_rules : Text → Checked Text (List RuleConfig)

-- What the sessions share. `engine` is what the handle in the scheduler points to; `saved_nicknames`
-- and `saved_rules` are the last successful saves, and `prom_bind` is the environment variable
-- `LINSIGHT_PROM_BIND`.
pub record Shared (F V : Type 0) : Type 0 where
  pub scheduler : Scheduler F V
  pub engine : Engine V
  pub registry : Registry
  pub clients : ClientMap F V
  pub saved_nicknames : Option (Dict Text Text)
  pub saved_rules : Option (List RuleConfig)
  pub prom_bind : Option Text

-- One session at a request.
pub record Conn (F V W : Type 0) : Type 0 where
  pub shared : Shared F V
  pub pump_interval_ms : ℕ
  pub writer : W

-- `Result<(), FrameError>` with the state that it leaves, or a panic, which ends the session. That it
-- poisons the locks that are held is left out.
pub data Served (F V W : Type 0) : Type 0 where
  served : Conn F V W → Served F V W
  failed : Conn F V W → Served F V W
  panicked : Conn F V W → Served F V W

abbrev pub refused : {F V : Type 0} → ProtoErrorCode → Text → Reply F V
refused code message = Reply.err (record { code = code; message = message })

module _ {F V W : Type 0} (env : Env F V W) where
  -- `write_server(&ServerMsg::Response { req_id, result })`
  unfoldable pub respond : Conn F V W → ℕ → Reply F V → Served F V W
  respond c req_id result = elim (env.write c.writer (response req_id result)) [
    | none ↦ failed c
    | some w ↦ served (record c { writer = w })
  ]

module _ {F V W : Type 0} where
  abbrev pub with_scheduler : Scheduler F V → Conn F V W → Conn F V W
  with_scheduler s c = record c { shared = record c.shared { scheduler = s } }

  abbrev pub with_engine : Engine V → Conn F V W → Conn F V W
  with_engine g c = record c { shared = record c.shared { engine = g } }

  abbrev pub with_registry : Registry → Conn F V W → Conn F V W
  with_registry r c = record c { shared = record c.shared { registry = r } }
