-- ===== src/Plugins/Checks.antt =====
-- What the checks of a manifest let through.
use lin_sight.Base.{
  ◌≡◌, Bool, true, false, ◌||◌, List, [], ◌∷◌, Option, none, some, Text, arith, Bool-cases,
  Option-cases, inl, inr, All, All-last, subst, ℕ,
}
use lin_sight.Base.Keys.{text_eq, text_beq, contains}
use lin_sight.Base.Dict.{has_key}
use lin_sight.Core.Hardware.{HardwareDevice, Checked, Checked-cases, ok, err, try_new_key}
use lin_sight.Scheduler.Table.{Descriptor}
use lin_sight.Scheduler.Tick.{PluginError}
use lin_sight.Plugins.{
  PluginManifest, ManifestText, Accepted, check_devices, check_sensors, validate_manifest,
  check_ids, host_init, accept_one, accept_all,
}

-- One of the devices has the key.
abbrev pub declares : Text → List HardwareDevice → Bool
declares k [] = false
declares k (d ∷ ds) = text_beq d.key k || declares k ds

-- The device that a sensor names is one of these.
abbrev pub NamesOneOf : List HardwareDevice → Option Text → Type 0
NamesOneOf ds none = Unit {0}
NamesOneOf ds (some k) = declares k ds ≡ true

module _ {F V : Type 0} where
  abbrev pub Grounded : List HardwareDevice → List (Descriptor F V) → Type 0
  Grounded ds = All (λ s. NamesOneOf ds s.device_key)

check_devices-keys :
    (t : ManifestText) (k : Text) (keys : List Text) (ds : List HardwareDevice) {keys' : List Text}
    → check_devices t keys ds ≡ ok keys'
    → contains k keys' ≡ true
    → (contains k keys || declares k ds) ≡ true
unfolding check_devices contains
check_devices-keys t k keys [] h known = ground arith
check_devices-keys t k keys (d ∷ ds) {keys'} h known = elim (Checked-cases (try_new_key d.key)) [
  | inr (e, bad) ↦ absurd (ground (arith, bad))
  | inl (key, good) ↦ elim (Bool-cases (contains d.key keys)) [
    | inl twice ↦ absurd (ground (arith, good, twice))
    | inr new ↦
        let rest : check_devices t (d.key ∷ keys) ds ≡ ok keys' = ground (arith, good, new) in
        ground (arith, check_devices-keys t k (d.key ∷ keys) ds {keys' = keys'} rest known)
  ]
]

declared_only :
    (k : Text) (ds : List HardwareDevice)
    → (contains k [] || declares k ds) ≡ true
    → declares k ds ≡ true
unfolding contains
declared_only k ds h = h

module _ {F V : Type 0} (t : ManifestText) where
  check_sensors-Grounded :
      (keys : List Text) (ds : List HardwareDevice) (ss : List (Descriptor F V))
      → ((k : Text) → contains k keys ≡ true → declares k ds ≡ true)
      → check_sensors t keys ss ≡ ok tt
      → Grounded ds ss
  unfolding check_sensors
  check_sensors-Grounded keys ds [] known h = tt
  check_sensors-Grounded keys ds (s ∷ ss) known h = elim (Option-cases (s.device_key)) [
    | inl free ↦ (rw free tt, check_sensors-Grounded keys ds ss known (ground (arith, free)))
    | inr (k, named) ↦ elim (Bool-cases (contains k keys)) [
      | inl there ↦ (
        rw named (known k there),
        check_sensors-Grounded keys ds ss known (ground (arith, named, there)),
      )
      | inr dangling ↦ absurd (ground (arith, named, dangling))
    ]
  ]

  validate_manifest-Grounded :
      (m : PluginManifest F V) → validate_manifest t m ≡ ok tt → Grounded m.devices m.sensors
  unfolding validate_manifest
  validate_manifest-Grounded m h = elim (Checked-cases (check_devices t [] m.devices)) [
    | inr (e, bad) ↦ absurd (ground (arith, bad))
    | inl (keys, good) ↦
        check_sensors-Grounded keys m.devices m.sensors
          (λ k known.
            declared_only k m.devices
              (check_devices-keys t k [] m.devices {keys' = keys} good known))
          (ground (arith, good))
  ]

  -- A sensor of a manifest that is accepted names a device of the manifest, or none.
  pub host_init-Grounded :
      (c : Checked PluginError (PluginManifest F V)) {m : PluginManifest F V}
      → host_init t c ≡ ok m
      → Grounded m.devices m.sensors
  unfolding host_init
  host_init-Grounded (err e) {m} h = absurd (ground arith)
  host_init-Grounded (ok m') {m} h = elim (Checked-cases (check_ids t m'.plugin_id m'.sensors)) [
    | inr (e, bad) ↦ absurd (ground (arith, bad))
    | inl (u, ids) ↦ elim (Checked-cases (validate_manifest t m')) [
      | inr (e, bad) ↦ absurd (ground (arith, ids, bad))
      | inl (w, valid) ↦
          let same : m' ≡ m = ground (arith, ids, valid) in
          subst (λ (x : PluginManifest F V). Grounded x.devices x.sensors) same
            (validate_manifest-Grounded m' valid)
    ]
  ]

module _ {F V : Type 0} where
  accept_one-Grounded :
      (ds : List HardwareDevice) (idx : ℕ) (s : Descriptor F V) (a : Accepted F V)
      → NamesOneOf ds s.device_key
      → Grounded ds a.sensors
      → Grounded ds (accept_one idx s a).sensors
  unfolding accept_one
  accept_one-Grounded ds idx s a g h = elim (Bool-cases (has_key s.id a.registry)) [
    | inl known ↦ simp (accept_one, known) h
    | inr new ↦
        simp (accept_one, new)
          (All-last (λ (x : Descriptor F V). NamesOneOf ds x.device_key) a.sensors s h g)
  ]

  pub accept_all-Grounded :
      (ds : List HardwareDevice) (idx : ℕ) (ss : List (Descriptor F V)) (a : Accepted F V)
      → Grounded ds ss
      → Grounded ds a.sensors
      → Grounded ds (accept_all idx ss a).sensors
  unfolding accept_all
  accept_all-Grounded ds idx [] a g h = h
  accept_all-Grounded ds idx (s ∷ ss) a g h =
      accept_all-Grounded ds idx ss (accept_one idx s a) g.1 (accept_one-Grounded ds idx s a g.0 h)
