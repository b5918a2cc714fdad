-- ===== src/Requests/Dispatch.antt =====
-- `handle_request`: which handler answers which request, and the pump interval.
pub mod Breaking
pub mod Answered
pub mod Wired
pub mod Renaming
use lin_sight.Base.{ℕ, Option, some, none, Text, min, max}
use lin_sight.Messages.{
  Reply, ResponsePayload, RequestOp, get_hardware, set_nickname, set_pump_interval_ms, get_history,
  list_alerts, upsert_alert, delete_alert, test_alert_expr, list_alert_events, get_daemon_settings,
  set_daemon_settings, get_sensor_info,
}
use lin_sight.Messages
use lin_sight.Requests.{Env, Conn, Served, respond}
use lin_sight.Requests.Info.{answer_hardware, answer_sensor_info, answer_history}
use lin_sight.Requests.Nickname.{answer_nickname}
use lin_sight.Requests.Rules.{
  answer_rules, answer_upsert, answer_delete, answer_test, answer_events,
}
use lin_sight.Requests.Settings.{answer_settings, answer_set_settings}

abbrev pub pump_interval_min_ms : ℕ
pump_interval_min_ms = 50

abbrev pub pump_interval_max_ms : ℕ
pump_interval_max_ms = 1000

abbrev pub pump_interval_default_ms : ℕ
pump_interval_default_ms = 150

module _ {F V W : Type 0} (env : Env F V W) where
  unfoldable pub answer_pump : Conn F V W → ℕ → ℕ → Served F V W
  unfolding respond
  answer_pump c req_id ms =
      let clamped = min (max ms pump_interval_min_ms) pump_interval_max_ms in
      respond env (record c { pump_interval_ms = clamped }) req_id
        (Reply.ok (ResponsePayload.pump_interval_set clamped))

  unfoldable pub handle_request : Conn F V W → ℕ → RequestOp → Served F V W
  unfolding answer_hardware answer_sensor_info answer_history answer_nickname answer_rules
      answer_upsert answer_delete answer_test answer_events answer_settings answer_set_settings
      answer_pump
  handle_request c req_id get_hardware = answer_hardware env c req_id
  handle_request c req_id (get_sensor_info sensor) = answer_sensor_info env c req_id sensor
  handle_request c req_id (set_nickname device_key value) =
      answer_nickname env c req_id device_key value
  handle_request c req_id (set_pump_interval_ms ms) = answer_pump c req_id ms
  handle_request c req_id (get_history sensor since until max_points) =
      answer_history env c req_id sensor since until max_points
  handle_request c req_id list_alerts = answer_rules env c req_id
  handle_request c req_id (upsert_alert name expr for_duration cooldown notify enabled) =
      answer_upsert env c req_id name expr for_duration cooldown notify enabled
  handle_request c req_id (delete_alert name) = answer_delete env c req_id name
  handle_request c req_id (test_alert_expr expr) = answer_test env c req_id expr
  handle_request c req_id (list_alert_events limit) = answer_events env c req_id limit
  handle_request c req_id get_daemon_settings = answer_settings env c req_id
  handle_request c req_id (set_daemon_settings history alerts prom prom_bind) =
      answer_set_settings env c req_id history alerts prom prom_bind
