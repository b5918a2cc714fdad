-- ===== src/Messages.antt =====
-- crates/linsight-protocol/src/messages.rs and lib.rs: the messages of both sides, and the check of
-- the first one. `F` stands for `f32`, `V` for `f64`.
use lin_sight.Base.{ℕ, Bool, List, Option, Text, ◌==◌, if◌then◌else◌}
use lin_sight.Base.Dict.{Dict}
use lin_sight.Core.Samples.{SensorId, Sample, MeasureUnit, Category, SensorKind}
use lin_sight.Core.Hardware.{HardwareDevice}

pub data RequestOp : Type 0 where
  get_hardware : RequestOp
  set_nickname : Text → Option Text → RequestOp
  set_pump_interval_ms : ℕ → RequestOp
  get_history : Text → ℕ → ℕ → Option ℕ → RequestOp
  list_alerts : RequestOp
  upsert_alert : Text → Text → Option Text → Option Text → List Text → Option Bool → RequestOp
  delete_alert : Text → RequestOp
  test_alert_expr : Text → RequestOp
  list_alert_events : Option ℕ → RequestOp
  get_daemon_settings : RequestOp
  set_daemon_settings : Option Bool → Option Bool → Option Bool → Option Text → RequestOp
  get_sensor_info : Text → RequestOp

pub data ClientMsg (F : Type 0) : Type 0 where
  hello : ℕ → Text → Option Text → ClientMsg F
  list_sensors : ClientMsg F
  subscribe : List SensorId → Option F → ClientMsg F
  unsubscribe : List SensorId → ClientMsg F
  goodbye : ClientMsg F
  request : ℕ → RequestOp → ClientMsg F

pub data ProtoErrorCode : Type 0 where
  unknown_device invalid_nickname io internal unknown_sensor : ProtoErrorCode
  alert_not_found alert_parse : ProtoErrorCode

pub record ProtoError : Type 0 where
  pub code : ProtoErrorCode
  pub message : Text

pub record PluginInfo : Type 0 where
  pub plugin_id : Text
  pub display_name : Text
  pub version : Text
  pub sensor_count : ℕ

pub record AlertRuleJson : Type 0 where
  pub name : Text
  pub expr : Text
  pub for_duration : Option Text
  pub cooldown : Option Text
  pub notify : List Text
  pub enabled : Bool

pub record SensorInfo (F V : Type 0) : Type 0 where
  pub id : SensorId
  pub display_name : Text
  pub unit : MeasureUnit
  pub kind : SensorKind
  pub category : Category
  pub native_rate_hz : F
  pub min : Option V
  pub max : Option V
  pub device_id : Option Text
  pub plugin_id : Text
  pub device_key : Option Text
  pub device_label : Option Text
  pub tags : List Text

pub data ResponsePayload (F V : Type 0) : Type 0 where
  hardware : List HardwareDevice → Dict Text Text → ResponsePayload F V
  nickname_set : Text → Option Text → ResponsePayload F V
  pump_interval_set : ℕ → ResponsePayload F V
  history : Text → List (Sample V) → ResponsePayload F V
  alert_list : List AlertRuleJson → ResponsePayload F V
  alert_upserted : Text → ResponsePayload F V
  alert_deleted : Text → ResponsePayload F V
  alert_test_result : Bool → Option Text → ResponsePayload F V
  alert_event_list : Text → ResponsePayload F V
  daemon_settings : Bool → Bool → Bool → Option Text → ResponsePayload F V
  daemon_settings_set : Bool → Bool → Bool → ResponsePayload F V
  sensor_info : SensorInfo F V → ResponsePayload F V

-- `Result<ResponsePayload, ProtoError>`
pub data Reply (F V : Type 0) : Type 0 where
  ok : ResponsePayload F V → Reply F V
  err : ProtoError → Reply F V

pub data ServerMsg (F V : Type 0) : Type 0 where
  welcome : ℕ → Text → List PluginInfo → ServerMsg F V
  sensor_list : List (SensorInfo F V) → ServerMsg F V
  sample : Sample V → ServerMsg F V
  sensor_degraded : SensorId → Text → ServerMsg F V
  bye : Text → ServerMsg F V
  response : ℕ → Reply F V → ServerMsg F V
  sensor_list_broadcast : List (SensorInfo F V) → ServerMsg F V

-- The index of a variant in declaration order, which postcard writes first.
unfoldable pub server_tag : {F V : Type 0} → ServerMsg F V → ℕ
server_tag (welcome _ _ _) = 0
server_tag (sensor_list _) = 1
server_tag (sample _) = 2
server_tag (sensor_degraded _ _) = 3
server_tag (bye _) = 4
server_tag (response _ _) = 5
server_tag (sensor_list_broadcast _) = 6

-- `PROTOCOL_VERSION`
abbrev pub protocol_version : ℕ
protocol_version = 3

pub data Hello : Type 0 where
  accepted : Text → Option Text → Hello
  not_hello : Hello
  version_mismatch : ℕ → ℕ → Hello

unfoldable pub verify_hello : {F : Type 0} → ClientMsg F → Hello
verify_hello (hello version client_name auth_token) =
    if version == protocol_version
    then accepted client_name auth_token
    else version_mismatch version protocol_version
verify_hello list_sensors = not_hello
verify_hello _ = not_hello
