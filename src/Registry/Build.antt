-- ===== src/Registry/Build.antt =====
-- What the build makes of the manifests.
use lin_sight.Base.{
  ◌≡◌, refl, sym, ap, ◌∙◌, Bool, false, List, [], ◌∷◌, ◌++◌, Option, none, some, arith, Text,
  Bool-cases, Option-cases, inl, inr, if◌then◌else◌,
}
use mathlib.Core.List.{append-nil, append_assoc}
use lin_sight.Base.Keys.{text_eq, text_beq, text_beq_iff}
use lin_sight.Base.Dict.{Dict, lookup, has_key, lookup-insert, lookup-has_key, has_key-lookup}
use lin_sight.Core.Samples.{SensorId}
use lin_sight.Core.Hardware.{HardwareDevice, DeviceKey}
use lin_sight.Scheduler.Table.{Descriptor}
use lin_sight.Registry.{
  Manifest, Indexed, filled, add_device, add_devices, add_sensor, add_sensors, add_manifest,
  add_manifests, build, rebuild_labels,
}

abbrev or_first : Option HardwareDevice → Option HardwareDevice → Option HardwareDevice
or_first none o = o
or_first (some d) o = some d

abbrev citing : List SensorId → Option HardwareDevice → Option HardwareDevice
citing ids none = none
citing ids (some d) = some (record d { sensor_ids = d.sensor_ids ++ ids })

-- The first device of a plugin with a key.
abbrev pub first_in : Text → DeviceKey → List HardwareDevice → Option HardwareDevice
first_in plugin_id key [] = none
first_in plugin_id key (d ∷ ds) =
    if text_beq d.key key then some (filled plugin_id d) else first_in plugin_id key ds

abbrev cites : DeviceKey → Option DeviceKey → Bool
cites key none = false
cites key (some k) = text_beq k key

module _ {F V : Type 0} where
  abbrev pub ids_of : DeviceKey → List (Descriptor F V) → List SensorId
  ids_of key [] = []
  ids_of key (s ∷ ss) = if cites key s.device_key then s.id ∷ ids_of key ss else ids_of key ss

  -- The sensors of the manifests that name a device, in order.
  abbrev pub cited : DeviceKey → List (Manifest F V) → List SensorId
  cited key [] = []
  cited key (m ∷ ms) = ids_of key m.sensors ++ cited key ms

  -- The first declaration of a key, with the sensors that name it from there on.
  abbrev pub declared : DeviceKey → List (Manifest F V) → Option HardwareDevice
  declared key [] = none
  declared key (m ∷ ms) = elim (first_in m.plugin_id key m.devices) [
    | some d ↦ some (record d { sensor_ids = cited key (m ∷ ms) })
    | none ↦ declared key ms
  ]

add_device-lookup :
    (plugin_id : Text) (key : DeviceKey) (d : HardwareDevice) (x : Indexed)
    → lookup key (add_device plugin_id d x).devices
      ≡ or_first (lookup key x.devices) (first_in plugin_id key (d ∷ []))
unfolding add_device
add_device-lookup plugin_id key d x = elim (Bool-cases (has_key d.key x.devices)) [
  | inl known ↦
      let (old, found) = has_key-lookup d.key x.devices known in
      ground (arith, text_beq_iff d.key key)
  | inr new ↦
      let absent = lookup-has_key d.key x.devices new in
      ground (arith, text_beq_iff d.key key, lookup-insert d.key key (filled plugin_id d) x.devices)
]

or_first_assoc :
    (a b c : Option HardwareDevice) → or_first (or_first a b) c ≡ or_first a (or_first b c)
or_first_assoc none b c = refl
or_first_assoc (some d) b c = refl

first_in-cons :
    (plugin_id : Text) (key : DeviceKey) (d : HardwareDevice) (ds : List HardwareDevice)
    → or_first (first_in plugin_id key (d ∷ [])) (first_in plugin_id key ds)
      ≡ first_in plugin_id key (d ∷ ds)
first_in-cons plugin_id key d ds = ground arith

or_first-none : (a : Option HardwareDevice) → or_first a none ≡ a
or_first-none none = refl
or_first-none (some d) = refl

add_devices-lookup :
    (plugin_id : Text) (key : DeviceKey) (ds : List HardwareDevice) (x : Indexed)
    → lookup key (add_devices plugin_id ds x).devices
      ≡ or_first (lookup key x.devices) (first_in plugin_id key ds)
unfolding add_devices
add_devices-lookup plugin_id key [] x = sym (or_first-none (lookup key x.devices))
add_devices-lookup plugin_id key (d ∷ ds) x =
    add_devices-lookup plugin_id key ds (add_device plugin_id d x)
    ∙ ap (λ o. or_first o (first_in plugin_id key ds)) (add_device-lookup plugin_id key d x)
    ∙ or_first_assoc (lookup key x.devices) (first_in plugin_id key (d ∷ []))
        (first_in plugin_id key ds)
    ∙ ap (or_first (lookup key x.devices)) (first_in-cons plugin_id key d ds)

citing-citing :
    (a b : List SensorId) (o : Option HardwareDevice) → citing b (citing a o) ≡ citing (a ++ b) o
citing-citing a b none = refl
citing-citing a b (some d) =
    ap (λ ids. some (record d { sensor_ids = ids })) (append_assoc d.sensor_ids a b)

citing-nil : (o : Option HardwareDevice) → citing [] o ≡ o
citing-nil none = refl
citing-nil (some d) = ap (λ ids. some (record d { sensor_ids = ids })) (append-nil d.sensor_ids)

first_in-bare :
    (plugin_id : Text) (key : DeviceKey) (ds : List HardwareDevice) {d : HardwareDevice}
    → first_in plugin_id key ds ≡ some d
    → d.sensor_ids ≡ []
unfolding filled
first_in-bare plugin_id key [] h = absurd (cc)
first_in-bare plugin_id key (e ∷ ds) {d} h = elim (Bool-cases (text_beq e.key key)) [
  | inl here ↦ let same : filled plugin_id e ≡ d = ground arith in ap (λ x. x.sensor_ids) (sym same)
  | inr later ↦ first_in-bare plugin_id key ds {d = d} (ground arith)
]

module _ {F V : Type 0} where
  add_sensor-lookup :
      (key : DeviceKey) (s : Descriptor F V) (m : Dict DeviceKey HardwareDevice)
      → lookup key (add_sensor s m) ≡ citing (ids_of key (s ∷ [])) (lookup key m)
  unfolding add_sensor
  add_sensor-lookup key s m = elim (Option-cases (s.device_key)) [
    | inl free ↦ rw (add_sensor, ids_of, free) (sym (citing-nil (lookup key m)))
    | inr (k, bound) ↦ elim (Option-cases (lookup k m)) [
      | inl absent ↦ elim (Bool-cases (text_beq k key)) [
        | inl same ↦ ground (arith, text_beq_iff k key)
        | inr differ ↦
            rw (add_sensor, ids_of, bound, absent, differ) (sym (citing-nil (lookup key m)))
      ]
      | inr (dev, found) ↦
          let changed = record dev { sensor_ids = dev.sensor_ids ++ s.id ∷ [] } in
          elim (Bool-cases (text_beq k key)) [
            | inl same ↦ ground (arith, text_beq_iff k key, lookup-insert k key changed m)
            | inr differ ↦
                rw (add_sensor, ids_of, bound, found, lookup-insert k key changed m, differ)
                  (sym (citing-nil (lookup key m)))
          ]
    ]
  ]

  ids_of-cons :
      (key : DeviceKey) (s : Descriptor F V) (ss : List (Descriptor F V))
      → ids_of key (s ∷ []) ++ ids_of key ss ≡ ids_of key (s ∷ ss)
  ids_of-cons key s ss = elim (Bool-cases (cites key s.device_key)) [
    | inl cited ↦ rw (ids_of, cited) refl
    | inr free ↦ rw (ids_of, free) refl
  ]

  add_sensors-lookup :
      (key : DeviceKey) (ss : List (Descriptor F V)) (m : Dict DeviceKey HardwareDevice)
      → lookup key (add_sensors ss m) ≡ citing (ids_of key ss) (lookup key m)
  unfolding add_sensors
  add_sensors-lookup key [] m = sym (citing-nil (lookup key m))
  add_sensors-lookup key (s ∷ ss) m =
      add_sensors-lookup key ss (add_sensor s m)
      ∙ ap (citing (ids_of key ss)) (add_sensor-lookup key s m)
      ∙ citing-citing (ids_of key (s ∷ [])) (ids_of key ss) (lookup key m)
      ∙ ap (λ ids. citing ids (lookup key m)) (ids_of-cons key s ss)

  add_manifest-lookup :
      (key : DeviceKey) (m : Manifest F V) (x : Indexed)
      → lookup key (add_manifest m x).devices
        ≡ citing
            (ids_of key m.sensors)
            (or_first (lookup key x.devices) (first_in m.plugin_id key m.devices))
  unfolding add_manifest
  add_manifest-lookup key m x =
      add_sensors-lookup key m.sensors (add_devices m.plugin_id m.devices x).devices
      ∙ ap (citing (ids_of key m.sensors)) (add_devices-lookup m.plugin_id key m.devices x)

  -- A key that is there already gets the later citations, another its first declaration.
  abbrev with_later :
      DeviceKey → List (Manifest F V) → Option HardwareDevice → Option HardwareDevice
  with_later key ms none = declared key ms
  with_later key ms (some d) = citing (cited key ms) (some d)

with_later-nil :
    (F V : Type 0) (key : DeviceKey) (o : Option HardwareDevice)
    → o ≡ with_later {F = F} {V = V} key [] o
with_later-nil F V key none = refl
with_later-nil F V key (some d) = sym (citing-nil (some d))

module _ {F V : Type 0} where
  with_later-cons :
      (key : DeviceKey) (m : Manifest F V) (ms : List (Manifest F V)) (o : Option HardwareDevice)
      → with_later key ms
          (citing (ids_of key m.sensors) (or_first o (first_in m.plugin_id key m.devices)))
        ≡ with_later key (m ∷ ms) o
  with_later-cons key m ms (some d) = citing-citing (ids_of key m.sensors) (cited key ms) (some d)
  with_later-cons key m ms none = elim (Option-cases (first_in m.plugin_id key m.devices)) [
    | inl undeclared ↦ rw (with_later, declared, undeclared) refl
    | inr (d, here) ↦
        let bare = first_in-bare m.plugin_id key m.devices {d = d} here in
        rw (with_later, declared, here, bare) refl
  ]

  add_manifests-lookup :
      (key : DeviceKey) (ms : List (Manifest F V)) (x : Indexed)
      → lookup key (add_manifests ms x).devices ≡ with_later key ms (lookup key x.devices)
  unfolding add_manifests
  add_manifests-lookup key [] x = with_later-nil F V key (lookup key x.devices)
  add_manifests-lookup key (m ∷ ms) x =
      add_manifests-lookup key ms (add_manifest m x)
      ∙ ap (with_later key ms) (add_manifest-lookup key m x)
      ∙ with_later-cons key m ms (lookup key x.devices)

  -- The device that the built registry holds under a key is the first one that the manifests declare
  -- under it, with its plugin's id filled in, and with the sensors that name the key in that manifest
  -- and the later ones, in their order; an undeclared key has none.
  pub build-lookup :
      (manifests : List (Manifest F V)) (nicknames : Dict Text Text) (key : DeviceKey)
      → lookup key (build manifests nicknames).devices ≡ declared key manifests
  unfolding build rebuild_labels lookup
  build-lookup manifests nicknames key =
      add_manifests-lookup key manifests (record { devices = []; by_plugin = [] })
