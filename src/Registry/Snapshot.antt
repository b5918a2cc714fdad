-- ===== src/Registry/Snapshot.antt =====
-- The snapshot of the devices: its order, and that it does not depend on the order of the map.
use lin_sight.Base.{
  ◌≡◌, ◌≢◌, refl, subst, sym, ap, ◌∙◌, true, false, ◌&&◌, List, [], ◌∷◌, Option, some, arith, Text,
  All, Bool-cases, Option-cases, inl, inr,
}
use lin_sight.Base.Keys.{text_eq, text_beq, text_beq_iff}
use lin_sight.Base.Dict.{Dict, lookup, insert, has_key, Unique, insert-Unique, insert-All}
use lin_sight.Base.Sorting.{
  Reordered, nothing, keeps, swaps, chains, Sorted, Apart, sort_by-Reordered, sort_by-Sorted,
  sort_by_unique,
}
use lin_sight.Core.Order.{text_leb_total, text_leb_trans, text_leb_antisym}
use lin_sight.Core.Hardware.{HardwareDevice, DeviceKey, Checked-cases}
use lin_sight.Scheduler.Table.{Descriptor}
use lin_sight.Registry.{
  Registry, Manifest, Indexed, filled, add_device, add_devices, add_sensor, add_sensors,
  add_manifest, add_manifests, build, rebuild_labels, set_nickname, values, shown_first, snapshot,
}
use lin_sight.Registry.Labels.{rename_all}
use lin_sight.Registry.Renames.{set_nickname-devices}

shown_first_total : (a b : HardwareDevice) → shown_first a b ≡ false → shown_first b a ≡ true
unfolding shown_first
shown_first_total a b h = ground (arith, text_leb_total a.key b.key)

shown_first_trans :
    (a b c : HardwareDevice)
    → shown_first a b ≡ true
    → shown_first b c ≡ true
    → shown_first a c ≡ true
unfolding shown_first
shown_first_trans a b c h g = ground (arith, text_leb_trans a.key b.key c.key)

shown_first_apart :
    (a b : HardwareDevice) → a.key ≢ b.key → shown_first a b && shown_first b a ≡ false
unfolding shown_first
shown_first_apart a b h = ground (arith, h, text_leb_antisym a.key b.key)

-- Each device stands once, under its own key.
abbrev pub Keyed : Dict DeviceKey HardwareDevice → Type 0
Keyed m = Unique m × All (λ p. p.1.key ≡ p.0) m

insert-Keyed :
    (key : DeviceKey) (d : HardwareDevice) (m : Dict DeviceKey HardwareDevice)
    → d.key ≡ key
    → Keyed m
    → Keyed (insert key d m)
insert-Keyed key d m h k =
    (insert-Unique key d m k.0, insert-All (λ p. p.1.key ≡ p.0) key d m k.1 h)

pub lookup-key :
    (key : DeviceKey) (m : Dict DeviceKey HardwareDevice) {d : HardwareDevice}
    → All (λ p. p.1.key ≡ p.0) m
    → lookup key m ≡ some d
    → d.key ≡ key
unfolding lookup
lookup-key key [] h found = absurd (cc)
lookup-key key ((j, e) ∷ m) {d} h found = elim (Bool-cases (text_beq j key)) [
  | inl same ↦
      let here : e ≡ d = ground arith in
      sym (ap (λ x. x.key) here) ∙ h.0 ∙ (text_beq_iff j key).0 same
  | inr differ ↦ lookup-key key m {d = d} h.1 (ground arith)
]

add_device-Keyed :
    (plugin_id : Text) (d : HardwareDevice) (x : Indexed)
    → Keyed x.devices
    → Keyed (add_device plugin_id d x).devices
unfolding add_device filled
add_device-Keyed plugin_id d x k = elim (Bool-cases (has_key d.key x.devices)) [
  | inl known ↦ rw (add_device, known) k
  | inr new ↦ rw (add_device, new) (insert-Keyed d.key (filled plugin_id d) x.devices refl k)
]

add_devices-Keyed :
    (plugin_id : Text) (ds : List HardwareDevice) (x : Indexed)
    → Keyed x.devices
    → Keyed (add_devices plugin_id ds x).devices
unfolding add_devices
add_devices-Keyed plugin_id [] x k = k
add_devices-Keyed plugin_id (d ∷ ds) x k =
    add_devices-Keyed plugin_id ds (add_device plugin_id d x) (add_device-Keyed plugin_id d x k)

module _ {F V : Type 0} where
  add_sensor-Keyed :
      (s : Descriptor F V) (m : Dict DeviceKey HardwareDevice) → Keyed m → Keyed (add_sensor s m)
  unfolding add_sensor
  add_sensor-Keyed s m k = elim (Option-cases (s.device_key)) [
    | inl free ↦ rw (add_sensor, free) k
    | inr (key, bound) ↦ elim (Option-cases (lookup key m)) [
      | inl absent ↦ rw (add_sensor, bound, absent) k
      | inr (dev, found) ↦
          rw (add_sensor, bound, found)
            (insert-Keyed key _ m (lookup-key key m {d = dev} k.1 found) k)
    ]
  ]

  add_sensors-Keyed :
      (ss : List (Descriptor F V)) (m : Dict DeviceKey HardwareDevice)
      → Keyed m
      → Keyed (add_sensors ss m)
  unfolding add_sensors
  add_sensors-Keyed [] m k = k
  add_sensors-Keyed (s ∷ ss) m k = add_sensors-Keyed ss (add_sensor s m) (add_sensor-Keyed s m k)

  add_manifests-Keyed :
      (ms : List (Manifest F V)) (x : Indexed)
      → Keyed x.devices
      → Keyed (add_manifests ms x).devices
  unfolding add_manifests add_manifest
  add_manifests-Keyed [] x k = k
  add_manifests-Keyed (m ∷ ms) x k =
      add_manifests-Keyed ms (add_manifest m x)
        (add_sensors-Keyed m.sensors _ (add_devices-Keyed m.plugin_id m.devices x k))

  build-Keyed :
      (ms : List (Manifest F V)) (nicknames : Dict Text Text) → Keyed (build ms nicknames).devices
  unfolding build rebuild_labels
  build-Keyed ms nicknames =
      add_manifests-Keyed ms (record { devices = []; by_plugin = [] }) (tt, tt)

rename_all-devices :
    (r : Registry) (changes : List (DeviceKey × Option Text))
    → (rename_all r changes).devices ≡ r.devices
rename_all-devices r [] = refl
rename_all-devices r ((key, value) ∷ changes) = elim (Checked-cases (set_nickname r key value)) [
  | inr (e, failed) ↦ rw (rename_all, failed) (rename_all-devices r changes)
  | inl (r', renamed) ↦
      rw (rename_all, renamed)
        (rename_all-devices r' changes ∙ set_nickname-devices r key value {r' = r'} renamed)
]

-- The devices of a keyed map come in one order only.
values-apart :
    (key : DeviceKey) (d : HardwareDevice) (m : Dict DeviceKey HardwareDevice)
    → d.key ≡ key
    → has_key key m ≡ false
    → All (λ p. p.1.key ≡ p.0) m
    → All (λ e. shown_first d e && shown_first e d ≡ false) (values m)
unfolding has_key
values-apart key d [] h absent k = tt
values-apart key d ((j, e) ∷ m) h absent k =
    let differ : d.key ≢ e.key = λ same. ground (arith, text_beq_iff j key, k.0) in
    (shown_first_apart d e differ, values-apart key d m h (ground arith) k.1)

Keyed-Apart : (m : Dict DeviceKey HardwareDevice) → Keyed m → Apart shown_first (values m)
Keyed-Apart [] k = tt
Keyed-Apart ((j, d) ∷ m) k = (values-apart j d m k.1.0 k.0.0 k.1.1, Keyed-Apart m (k.0.1, k.1.1))

values-Reordered :
    {m m' : Dict DeviceKey HardwareDevice} → Reordered m m' → Reordered (values m) (values m')
values-Reordered nothing = nothing
values-Reordered (keeps p {l} {r} q) = keeps p.1 (values-Reordered {m = l} {m' = r} q)
values-Reordered (swaps p q l) = swaps p.1 q.1 (values l)
values-Reordered (chains {l} {m} {r} p q) =
    chains (values-Reordered {m = l} {m' = m} p) (values-Reordered {m = m} {m' = r} q)

-- A snapshot has exactly the registry's devices, in ascending order of category rank and, within a
-- category, of key.
pub snapshot-Sorted :
    (r : Registry) → Reordered (values r.devices) (snapshot r) × Sorted shown_first (snapshot r)
unfolding snapshot
snapshot-Sorted r = (
  sort_by-Reordered shown_first (values r.devices),
  sort_by-Sorted shown_first shown_first_total shown_first_trans (values r.devices),
)

-- The snapshot of a registry that was built from manifests and renamed does not depend on the order
-- in which the map of its devices is iterated.
pub snapshot_unique :
    {F V : Type 0} (manifests : List (Manifest F V)) (nicknames : Dict Text Text)
    (changes : List (DeviceKey × Option Text)) (r' : Registry)
    → Reordered (rename_all (build manifests nicknames) changes).devices r'.devices
    → snapshot (rename_all (build manifests nicknames) changes) ≡ snapshot r'
unfolding snapshot
snapshot_unique manifests nicknames changes r' same =
    let r = rename_all (build manifests nicknames) changes in
    let keyed : Keyed r.devices =
      subst Keyed (sym (rename_all-devices (build manifests nicknames) changes))
        (build-Keyed manifests nicknames) in
    sort_by_unique shown_first shown_first_total shown_first_trans
      (values-Reordered {m = r.devices} {m' = r'.devices} same) (Keyed-Apart r.devices keyed)
