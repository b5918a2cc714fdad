-- ===== src/Registry.antt =====
-- apps/linsightd/src/hardware.rs: the hardware registry, its build from the plugins' manifests, the
-- nicknames laid over it and the labels that follow from both.
pub mod Build
pub mod Labels
pub mod Renames
pub mod Snapshot
use lin_sight.Base.{
  ℕ, Bool, ◌&&◌, List, [], ◌∷◌, ◌++◌, map, Option, none, some, ltb, ◌==◌, if◌then◌else◌, Text,
}
use lin_sight.Base.Keys.{text_eq}
use lin_sight.Base.Dict.{Dict, lookup, insert, remove, has_key}
use lin_sight.Base.Partial.{◌>>=◌}
use lin_sight.Base.Sorting.{sort_by}
use lin_sight.Core.Order.{text_leb}
use lin_sight.Core.Hardware.{
  HardwareCategory, cpu, gpu, storage, network, other, HardwareDevice, DeviceKey, NicknameError,
  Checked, ok, err, try_new_key, validate_nickname, compute_device_label,
}
use lin_sight.Scheduler.Table.{Descriptor}

unfoldable pub category_rank : HardwareCategory → ℕ
category_rank cpu = 0
category_rank gpu = 1
category_rank storage = 2
category_rank network = 3
category_rank other = 4

pub data RegistryError : Type 0 where
  unknown_device : Text → RegistryError
  invalid_nickname : NicknameError → RegistryError

-- `HardwareRegistry`
pub record Registry : Type 0 where
  pub devices : Dict DeviceKey HardwareDevice
  pub by_plugin : Dict Text (Dict Text DeviceKey)
  pub nicknames : Dict DeviceKey Text
  pub labels : Dict DeviceKey Text

-- What one plugin hands to the registry.
pub record Manifest (F V : Type 0) : Type 0 where
  pub plugin_id : Text
  pub devices : List HardwareDevice
  pub sensors : List (Descriptor F V)

-- The two maps that the loops over the manifests fill.
pub record Indexed : Type 0 where
  pub devices : Dict DeviceKey HardwareDevice
  pub by_plugin : Dict Text (Dict Text DeviceKey)

unfoldable pub filled : Text → HardwareDevice → HardwareDevice
filled plugin_id d = record d { plugin_id = plugin_id; sensor_ids = [] }

-- `entry(plugin_id).or_default()`
unfoldable pub entry_or_default : Text → Dict Text (Dict Text DeviceKey) → Dict Text DeviceKey
entry_or_default plugin_id m = elim (lookup plugin_id m) [ none ↦ [] | some of_plugin ↦ of_plugin ]

unfoldable pub add_device : Text → HardwareDevice → Indexed → Indexed
unfolding filled entry_or_default
add_device plugin_id d x = if has_key d.key x.devices then x else record {
  devices = insert d.key (filled plugin_id d) x.devices;
  by_plugin =
      insert plugin_id (insert d.plugin_device_id d.key (entry_or_default plugin_id x.by_plugin))
        x.by_plugin;
}

unfoldable pub add_devices : Text → List HardwareDevice → Indexed → Indexed
unfolding add_device
add_devices plugin_id [] x = x
add_devices plugin_id (d ∷ ds) x = add_devices plugin_id ds (add_device plugin_id d x)

module _ {F V : Type 0} where
  unfoldable pub add_sensor :
      Descriptor F V → Dict DeviceKey HardwareDevice → Dict DeviceKey HardwareDevice
  add_sensor s m = elim (s.device_key) [
    | none ↦ m
    | some key ↦ elim (lookup key m) [
      | none ↦ m
      | some dev ↦ insert key (record dev { sensor_ids = dev.sensor_ids ++ s.id ∷ [] }) m
    ]
  ]

  unfoldable pub add_sensors :
      List (Descriptor F V) → Dict DeviceKey HardwareDevice → Dict DeviceKey HardwareDevice
  unfolding add_sensor
  add_sensors [] m = m
  add_sensors (s ∷ ss) m = add_sensors ss (add_sensor s m)

  unfoldable pub add_manifest : Manifest F V → Indexed → Indexed
  unfolding add_devices add_sensors
  add_manifest m x =
      let x' = add_devices m.plugin_id m.devices x in
      record x' { devices = add_sensors m.sensors x'.devices }

  unfoldable pub add_manifests : List (Manifest F V) → Indexed → Indexed
  unfolding add_manifest
  add_manifests [] x = x
  add_manifests (m ∷ ms) x = add_manifests ms (add_manifest m x)

-- The nicknames off the disk, those with a malformed key dropped, into `typed`.
unfoldable pub typed_nicknames : Dict DeviceKey Text → Dict Text Text → Dict DeviceKey Text
typed_nicknames typed [] = typed
typed_nicknames typed ((raw_key, value) ∷ m) = elim (try_new_key raw_key) [
  | ok k ↦ typed_nicknames (insert k value typed) m
  | err e ↦ typed_nicknames typed m
]

abbrev pub values : Dict DeviceKey HardwareDevice → List HardwareDevice
values = map (λ p. p.1)

-- The loop of `rebuild_labels` over the devices.
unfoldable pub labels_of :
    List HardwareDevice → Dict DeviceKey Text → Dict DeviceKey HardwareDevice → Dict DeviceKey Text
labels_of all_devices nicknames [] = []
labels_of all_devices nicknames ((key, dev) ∷ m) =
    insert key (compute_device_label dev all_devices nicknames) (labels_of all_devices nicknames m)

unfoldable pub rebuild_labels : Registry → Registry
unfolding labels_of
rebuild_labels r = record r { labels = labels_of (values r.devices) r.nicknames r.devices }

unfoldable pub build : {F V : Type 0} → List (Manifest F V) → Dict Text Text → Registry
unfolding add_manifests typed_nicknames rebuild_labels
build manifests nicknames =
    let x = add_manifests manifests (record { devices = []; by_plugin = [] }) in
    rebuild_labels (record {
      devices = x.devices;
      by_plugin = x.by_plugin;
      nicknames = typed_nicknames [] nicknames;
      labels = [];
    })

unfoldable pub device_label_for : Registry → DeviceKey → Text
device_label_for r key = elim (lookup key r.labels) [ none ↦ key | some label ↦ label ]

unfoldable pub key_for : Registry → Text → Text → Option DeviceKey
key_for r plugin_id plugin_device_id = do
  of_plugin ← lookup plugin_id r.by_plugin
  lookup plugin_device_id of_plugin

-- The nicknames after a change of one of them.
unfoldable pub overlaid : DeviceKey → Option Text → Dict DeviceKey Text → Dict DeviceKey Text
overlaid key (some n) m = insert key n m
overlaid key none m = remove key m

unfoldable pub revalidated : Option Text → Checked NicknameError (Option Text)
revalidated none = ok none
revalidated (some raw) = validate_nickname raw

unfoldable pub set_nickname : Registry → DeviceKey → Option Text → Checked RegistryError Registry
unfolding overlaid revalidated rebuild_labels
set_nickname r key value =
    if has_key key r.devices
    then elim (revalidated value) [
      | err e ↦ err (invalid_nickname e)
      | ok n ↦ ok (rebuild_labels (record r { nicknames = overlaid key n r.nicknames }))
    ]
    else err (unknown_device key)

-- The comparison of `snapshot`, as "not after".
unfoldable pub shown_first : HardwareDevice → HardwareDevice → Bool
unfolding category_rank text_leb
shown_first a b =
    let x = category_rank a.category in
    let y = category_rank b.category in if x == y then text_leb a.key b.key else ltb x y

unfoldable pub snapshot : Registry → List HardwareDevice
unfolding shown_first
snapshot r = sort_by shown_first (values r.devices)

unfoldable pub nicknames_snapshot : Registry → Dict Text Text
nicknames_snapshot r = r.nicknames
