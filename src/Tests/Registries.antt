-- ===== src/Tests/Registries.antt =====
-- A registry of two graphics cards of one plugin, and a sensor of the first.
use lin_sight.Base.{ℕ, none, some, ◌≡◌, Text, List, [], ◌∷◌, Option, codes}
use lin_sight.Base.Keys.{text_eq, text_beq}
use lin_sight.Base.Dict.{lookup, insert, has_key}
use lin_sight.Base.Sorting.{swaps}
use lin_sight.Core.Samples.{MeasureUnit, SensorKind, Category}
use lin_sight.Core.Hardware.{HardwareDevice, DeviceKey, compute_device_label}
use lin_sight.Scheduler.Table.{Descriptor}
use lin_sight.Registry.{
  Registry, Manifest, build, device_label_for, values, snapshot, filled, add_manifests,
  add_manifest, add_devices, add_device, add_sensors, add_sensor, entry_or_default, rebuild_labels,
}
use lin_sight.Registry.Build.{declared, build-lookup}
use lin_sight.Registry.Labels.{rename_all, labels_current}
use lin_sight.Registry.Snapshot.{snapshot_unique}
use lin_sight.Tests.Fixtures.{Rate}
use lin_sight.Tests.Devices.{first_key, second_key, card}

abbrev pub temperature : Descriptor Rate ℕ
temperature = record {
  id = codes "xe.temp";
  display_name = [];
  unit = MeasureUnit.celsius;
  kind = SensorKind.scalar;
  category = Category.gpu;
  native_rate_hz = some 10;
  min = none;
  max = none;
  device_id = none;
  device_key = some first_key;
  tags = [];
}

abbrev pub manifest : Manifest Rate ℕ
manifest = record {
  plugin_id = codes "xe";
  devices = card first_key ∷ card second_key ∷ [];
  sensors = temperature ∷ [];
}

abbrev pub cards : Registry
cards = build (manifest ∷ []) []

build-lookup_example : lookup first_key cards.devices ≡ declared first_key (manifest ∷ [])
build-lookup_example = build-lookup (manifest ∷ []) [] first_key

abbrev changes : List (DeviceKey × Option Text)
changes = (first_key, some (codes " Desk ")) ∷ (second_key, none) ∷ []

labels_current_example :
    let r = rename_all cards changes in
    device_label_for r first_key ≡ elim (lookup first_key r.devices) [
      | none ↦ first_key
      | some d ↦ compute_device_label d (values r.devices) r.nicknames
    ]
labels_current_example = labels_current (manifest ∷ []) [] changes first_key

abbrev with_sensor : HardwareDevice → HardwareDevice
with_sensor d = record (filled (codes "xe") d) { sensor_ids = codes "xe.temp" ∷ [] }

abbrev swapped : Registry
swapped = record cards {
  devices =
      (second_key, filled (codes "xe") (card second_key))
      ∷ (first_key, with_sensor (card first_key))
      ∷ [];
}

snapshot_unique_example : snapshot (rename_all cards []) ≡ snapshot swapped
unfolding build rebuild_labels add_manifests add_manifest add_devices add_device add_sensors
    add_sensor entry_or_default lookup insert has_key text_beq filled
snapshot_unique_example = snapshot_unique (manifest ∷ []) [] [] swapped (
    swaps (first_key, with_sensor (card first_key))
      (second_key, filled (codes "xe") (card second_key)) [])
