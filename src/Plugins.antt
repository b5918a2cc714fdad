-- ===== src/Plugins.antt =====
-- apps/linsightd/src/plugin_host.rs: the plugins that are registered and the owners of the sensors, and
-- the checks that crates/linsight-plugin-sdk makes of a manifest. An instance of a plugin is the
-- number of its library and its number within the library.

pub mod Checks
pub mod Listing
pub mod Owners
pub mod Loader
pub mod Calls
pub mod Live
pub mod Stages
pub mod Loaded
use lin_sight.Base.{
  ℕ, ◌+◌, Bool, true, false, ◌&&◌, ◌||◌, List, [], ◌∷◌, ◌++◌, map, Option, none, some, Text, length,
  if◌then◌else◌, zero, suc,
}
use lin_sight.Base.Keys.{text_eq, text_beq, contains}
use lin_sight.Base.Dict.{Dict, lookup, insert, has_key}
use lin_sight.Core.Samples.{SensorId, Sample, Reading}
use lin_sight.Core.Hardware.{
  HardwareDevice, DeviceKey, KeyError, Checked, ok, err, try_new_key, try_new_sensor,
}
use lin_sight.Scheduler.Table.{Descriptor}
use lin_sight.Scheduler.Tick.{PluginError, manifest, parse, unsupported}
use lin_sight.Registry.{Manifest}

pub record PluginManifest (F V : Type 0) : Type 0 where
  pub plugin_id : Text
  pub display_name : Text
  pub version : Text
  pub sensors : List (Descriptor F V)
  pub devices : List HardwareDevice

-- The texts of the errors.
pub record ManifestText : Type 0 where
  pub bad_key : Text → KeyError → Text
  pub duplicate : Text → Text
  pub dangling : SensorId → Text → Text
  pub bad_id : Text → Text → Text

module _ (t : ManifestText) where
  -- The loop over the devices, with the keys so far.
  unfoldable pub check_devices : List Text → List HardwareDevice → Checked PluginError (List Text)
  check_devices keys [] = ok keys
  check_devices keys (d ∷ ds) =
      let rest = check_devices (d.key ∷ keys) ds in
      elim (try_new_key d.key) [
        | err e ↦ err (manifest (t.bad_key d.key e))
        | ok k ↦ if contains d.key keys then err (manifest (t.duplicate d.key)) else rest
      ]

  module _ {F V : Type 0} where
    unfoldable pub check_sensors :
        List Text → List (Descriptor F V) → Checked PluginError (Unit {0})
    check_sensors keys [] = ok tt
    check_sensors keys (s ∷ ss) =
        let rest = check_sensors keys ss in
        elim (s.device_key) [
          | none ↦ rest
          | some k ↦ if contains k keys then rest else err (manifest (t.dangling s.id k))
        ]

    unfoldable pub validate_manifest : PluginManifest F V → Checked PluginError (Unit {0})
    unfolding check_devices check_sensors
    validate_manifest m = elim (check_devices [] m.devices) [
      | err e ↦ err e
      | ok keys ↦ check_sensors keys m.sensors
    ]

    unfoldable pub check_ids : Text → List (Descriptor F V) → Checked PluginError (Unit {0})
    check_ids plugin_id [] = ok tt
    check_ids plugin_id (s ∷ ss) =
        let rest = check_ids plugin_id ss in
        elim (try_new_sensor s.id) [ none ↦ err (parse (t.bad_id plugin_id s.id)) | some id ↦ rest ]

    -- `host_init`, on what the plugin's `init` returned.
    unfoldable pub host_init :
        Checked PluginError (PluginManifest F V) → Checked PluginError (PluginManifest F V)
    unfolding check_ids validate_manifest
    host_init (err e) = err e
    host_init (ok m) = elim (check_ids m.plugin_id m.sensors) [
      | err e ↦ err e
      | ok u ↦ elim (validate_manifest m) [ err e ↦ err e | ok w ↦ ok m ]
    ]

pub record PluginMeta : Type 0 where
  pub plugin_id : Text
  pub display_name : Text
  pub version : Text

pub record Instance : Type 0 where
  pub library : ℕ
  pub number : ℕ

pub record PluginEntry (F V : Type 0) : Type 0 where
  pub plugin : Instance
  pub mapped : Bool
  pub meta : PluginMeta
  pub sensor_count : ℕ
  pub devices : List HardwareDevice
  pub sensors : List (Descriptor F V)

pub record PluginHost (F V : Type 0) : Type 0 where
  pub plugins : List (PluginEntry F V)
  pub registry : Dict SensorId (ℕ × Descriptor F V)

-- What the loop over the sensors of a manifest fills.
pub record Accepted (F V : Type 0) : Type 0 where
  pub registry : Dict SensorId (ℕ × Descriptor F V)
  pub sensors : List (Descriptor F V)
  pub accepted : ℕ

-- An index past the end of `plugins` panics.
pub data Called (A : Type 0) : Type 0 where
  returned : A → Called A
  panicked : Called A

unfoldable pub stamped :
    {V : Type 0} → SensorId → ℕ → Checked PluginError (Reading V) → Checked PluginError (Sample V)
stamped id ts_micros (err why) = err why
stamped id ts_micros (ok reading) =
    ok (record { sensor = id; ts_micros = ts_micros; reading = reading })

module _ {F V : Type 0} where
  abbrev pub no_plugins : PluginHost F V
  no_plugins = record { plugins = []; registry = [] }

  unfoldable pub is_registered : Text → List (PluginEntry F V) → Bool
  is_registered plugin_id [] = false
  is_registered plugin_id (e ∷ es) =
      text_beq e.meta.plugin_id plugin_id || is_registered plugin_id es

  unfoldable pub accept_one : ℕ → Descriptor F V → Accepted F V → Accepted F V
  accept_one idx desc a = if has_key desc.id a.registry then a else record {
    registry = insert desc.id (idx, desc) a.registry;
    sensors = a.sensors ++ desc ∷ [];
    accepted = a.accepted + 1;
  }

  unfoldable pub accept_all : ℕ → List (Descriptor F V) → Accepted F V → Accepted F V
  unfolding accept_one
  accept_all idx [] a = a
  accept_all idx (desc ∷ ds) a = accept_all idx ds (accept_one idx desc a)

  -- `finish_register` for a manifest whose id is not registered yet.
  unfoldable pub add_plugin : Instance → Bool → PluginManifest F V → PluginHost F V → PluginHost F V
  unfolding accept_all
  add_plugin plugin mapped m h =
      let a =
        accept_all (length h.plugins) m.sensors
          (record { registry = h.registry; sensors = []; accepted = 0 }) in
      record {
        registry = a.registry;
        plugins =
            h.plugins
            ++ (record {
              plugin = plugin;
              mapped = mapped;
              meta = record {
                plugin_id = m.plugin_id;
                display_name = m.display_name;
                version = m.version;
              };
              sensor_count = a.accepted;
              devices = m.devices;
              sensors = a.sensors;
            })
              ∷ [];
      }

  unfoldable pub plugin_at : ℕ → List (PluginEntry F V) → Option (PluginEntry F V)
  plugin_at i [] = none
  plugin_at zero (e ∷ es) = some e
  plugin_at (suc i) (e ∷ es) = plugin_at i es

  unfoldable pub plugin_id_for : PluginHost F V → SensorId → Called (Option Text)
  unfolding plugin_at
  plugin_id_for h id = elim (lookup id h.registry) [
    | none ↦ returned none
    | some (idx, d) ↦ elim (plugin_at idx h.plugins) [
      | none ↦ panicked
      | some e ↦ returned (some e.meta.plugin_id)
    ]
  ]

  -- `sample` is what an instance answers.
  unfoldable pub sample_to :
      (Instance → SensorId → Checked PluginError (Reading V))
      → PluginHost F V
      → SensorId
      → ℕ
      → Called (Checked PluginError (Sample V))
  unfolding plugin_at stamped
  sample_to sample h id ts_micros = elim (lookup id h.registry) [
    | none ↦ returned (err (unsupported id))
    | some (idx, d) ↦ elim (plugin_at idx h.plugins) [
      | none ↦ panicked
      | some e ↦ returned (stamped id ts_micros (sample e.plugin id))
    ]
  ]

  unfoldable pub manifest_of : PluginEntry F V → Manifest F V
  manifest_of e = record { plugin_id = e.meta.plugin_id; devices = e.devices; sensors = e.sensors }

  unfoldable pub devices_by_plugin : PluginHost F V → List (Manifest F V)
  unfolding manifest_of
  devices_by_plugin h = map manifest_of h.plugins
