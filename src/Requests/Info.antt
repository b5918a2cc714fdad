-- ===== src/Requests/Info.antt =====
-- The requests that only read: the hardware, one sensor, the history, and the catalogue of sensors.
pub mod Renamed
use lin_sight.Base.{ℕ, List, [], ◌∷◌, ◌++◌, Option, none, some, Text, codes, if◌then◌else◌}
use lin_sight.Core.Samples.{SensorId}
use lin_sight.Core.Hardware.{DeviceKey, Checked, ok, err, try_new_sensor}
use lin_sight.Messages.{Reply, SensorInfo, ResponsePayload, unknown_sensor, io, internal}
use lin_sight.Messages
use lin_sight.Scheduler.Table.{Descriptor, find_descriptor}
use lin_sight.Registry.{Registry, key_for, device_label_for, snapshot, nicknames_snapshot}
use lin_sight.Requests.{Env, Shared, Conn, Served, refused, respond}

unfoldable pub plugin_or_unknown : Option Text → Text
plugin_or_unknown none = codes "unknown"
plugin_or_unknown (some plugin_id) = plugin_id

-- A descriptor's device: the key that it names, or the one under which its device is registered.
unfoldable pub device_of : Registry → Text → Option DeviceKey → Option Text → Option DeviceKey
unfolding key_for
device_of r plugin_id (some key) device_id = some key
device_of r plugin_id none none = none
device_of r plugin_id none (some device_id) = key_for r plugin_id device_id

module _ {F V : Type 0} where
  unfoldable pub build_sensor_info :
      (SensorId → Option Text) → Registry → Descriptor F V → SensorInfo F V
  unfolding plugin_or_unknown device_of device_label_for
  build_sensor_info plugin_id_for r d =
      let plugin_id = plugin_or_unknown (plugin_id_for d.id) in
      let device_key = device_of r plugin_id d.device_key d.device_id in
      record {
        id = d.id;
        display_name = d.display_name;
        unit = d.unit;
        kind = d.kind;
        category = d.category;
        native_rate_hz = d.native_rate_hz;
        min = d.min;
        max = d.max;
        device_id = d.device_id;
        plugin_id = plugin_id;
        device_key = device_key;
        device_label = elim device_key [ none ↦ none | some k ↦ some (device_label_for r k) ];
        tags = d.tags;
      }

  unfoldable pub build_sensor_info_list :
      (SensorId → Option Text) → Registry → List (Descriptor F V) → List (SensorInfo F V)
  unfolding build_sensor_info
  build_sensor_info_list plugin_id_for r [] = []
  build_sensor_info_list plugin_id_for r (d ∷ ds) =
      build_sensor_info plugin_id_for r d ∷ build_sensor_info_list plugin_id_for r ds

module _ {F V W : Type 0} (env : Env F V W) where
  unfoldable pub answer_hardware : Conn F V W → ℕ → Served F V W
  unfolding respond snapshot nicknames_snapshot
  answer_hardware c req_id =
      let r = c.shared.registry in
      respond env c req_id (Reply.ok (ResponsePayload.hardware (snapshot r) (nicknames_snapshot r)))

  unfoldable pub sensor_reply : Shared F V → Text → Reply F V
  unfolding build_sensor_info find_descriptor
  sensor_reply s sensor = elim (try_new_sensor sensor) [
    | none ↦ refused unknown_sensor (codes "bad sensor id: " ++ env.sensor_error sensor)
    | some id ↦ elim (find_descriptor id s.scheduler.host) [
      | none ↦ refused unknown_sensor (codes "sensor not found: " ++ id)
      | some d ↦
          Reply.ok (ResponsePayload.sensor_info (build_sensor_info env.plugin_id_for s.registry d))
    ]
  ]

  unfoldable pub answer_sensor_info : Conn F V W → ℕ → Text → Served F V W
  unfolding respond sensor_reply
  answer_sensor_info c req_id sensor = respond env c req_id (sensor_reply c.shared sensor)

  unfoldable pub history_reply : Shared F V → Text → ℕ → ℕ → Option ℕ → Reply F V
  history_reply s sensor since until max_points = elim (s.scheduler.history_db_path) [
    | none ↦ refused internal (codes "history not enabled on daemon")
    | some path ↦ elim (env.query_history path sensor since until max_points) [
      | ok samples ↦ Reply.ok (ResponsePayload.history sensor samples)
      | err e ↦ refused io (codes "history query failed: " ++ e)
    ]
  ]

  unfoldable pub answer_history : Conn F V W → ℕ → Text → ℕ → ℕ → Option ℕ → Served F V W
  unfolding respond history_reply
  answer_history c req_id sensor since until max_points =
      respond env c req_id (history_reply c.shared sensor since until max_points)
