-- ===== src/Registry/Labels.antt =====
-- The stored labels are always the ones that the current devices and nicknames give.
use lin_sight.Base.{
  ◌≡◌, refl, subst, List, [], ◌∷◌, Option, none, some, arith, Text, Bool-cases, Option-cases, inl,
  inr,
}
use lin_sight.Base.Keys.{text_eq}
use lin_sight.Base.Dict.{Dict, lookup, has_key, lookup-insert}
use lin_sight.Core.Hardware.{
  HardwareDevice, DeviceKey, Checked-cases, ok, err, compute_device_label,
}
use lin_sight.Registry.{
  Registry, Manifest, values, labels_of, rebuild_labels, build, set_nickname, device_label_for,
  revalidated, overlaid, add_manifests, typed_nicknames,
}

-- What a device is called now: its computed label, or its key if it is unknown.
abbrev pub called : Registry → DeviceKey → Text
called r key = elim (lookup key r.devices) [
  | none ↦ key
  | some d ↦ compute_device_label d (values r.devices) r.nicknames
]

lookup-labels_of :
    (all : List HardwareDevice) (nicknames : Dict DeviceKey Text)
    (m : Dict DeviceKey HardwareDevice) (key : DeviceKey)
    → lookup key (labels_of all nicknames m)
      ≡ elim (lookup key m) [ none ↦ none | some d ↦ some (compute_device_label d all nicknames) ]
unfolding labels_of lookup
lookup-labels_of all nicknames [] key = refl
lookup-labels_of all nicknames ((j, d) ∷ m) key =
    let label = compute_device_label d all nicknames in
    ground (
      arith,
      lookup-insert j key label (labels_of all nicknames m),
      lookup-labels_of all nicknames m key,
    )

rebuild_labels-called :
    (r : Registry) (key : DeviceKey) → device_label_for (rebuild_labels r) key ≡ called r key
unfolding rebuild_labels device_label_for
rebuild_labels-called r key =
    let from = lookup-labels_of (values r.devices) r.nicknames r.devices key in
    elim (Option-cases (lookup key r.devices)) [
      | inl unknown ↦ rw (device_label_for, rebuild_labels, called, from, unknown) refl
      | inr (d, known) ↦ rw (device_label_for, rebuild_labels, called, from, known) refl
    ]

-- Every label is the current one.
abbrev pub Current : Registry → Type 0
Current r = (key : DeviceKey) → device_label_for r key ≡ called r key

pub set_nickname-Current :
    (r : Registry) (key : DeviceKey) (value : Option Text) {r' : Registry}
    → set_nickname r key value ≡ ok r'
    → Current r'
unfolding set_nickname
set_nickname-Current r key value {r'} h = elim (Bool-cases (has_key key r.devices)) [
  | inr unknown ↦ absurd (ground arith)
  | inl known ↦ elim (Checked-cases (revalidated value)) [
    | inr (e, bad) ↦ absurd (ground arith)
    | inl (n, good) ↦
        let changed = record r { nicknames = overlaid key n r.nicknames } in
        let same : rebuild_labels changed ≡ r' = ground arith in
        subst Current same (rebuild_labels-called changed)
  ]
]

-- The registry after some calls of `set_nickname`, of which those that fail leave it as it is.
abbrev pub rename_all : Registry → List (DeviceKey × Option Text) → Registry
rename_all r [] = r
rename_all r ((key, value) ∷ changes) = elim (set_nickname r key value) [
  | err e ↦ rename_all r changes
  | ok r' ↦ rename_all r' changes
]

rename_all-Current :
    (r : Registry) (changes : List (DeviceKey × Option Text))
    → Current r
    → Current (rename_all r changes)
rename_all-Current r [] h = h
rename_all-Current r ((key, value) ∷ changes) h = elim (Checked-cases (set_nickname r key value)) [
  | inr (e, failed) ↦ rw (rename_all, failed) (rename_all-Current r changes h)
  | inl (r', renamed) ↦
      rw (rename_all, renamed)
        (rename_all-Current r' changes (set_nickname-Current r key value {r' = r'} renamed))
]

build-Current :
    {F V : Type 0} (manifests : List (Manifest F V)) (nicknames : Dict Text Text)
    → Current (build manifests nicknames)
unfolding build
build-Current manifests nicknames =
    let x = add_manifests manifests (record { devices = []; by_plugin = [] }) in
    rebuild_labels-called (record {
      devices = x.devices;
      by_plugin = x.by_plugin;
      nicknames = typed_nicknames [] nicknames;
      labels = [];
    })

-- However the registry was built and whatever nicknames were set or cleared since, the label that it
-- keeps for a device is the one that the devices and nicknames of now give, and an unknown key's
-- label is the key.
pub labels_current :
    {F V : Type 0} (manifests : List (Manifest F V)) (nicknames : Dict Text Text)
    (changes : List (DeviceKey × Option Text)) (key : DeviceKey)
    → let r = rename_all (build manifests nicknames) changes in
      device_label_for r key ≡ elim (lookup key r.devices) [
        | none ↦ key
        | some d ↦ compute_device_label d (values r.devices) r.nicknames
      ]
labels_current manifests nicknames changes key =
    rename_all-Current (build manifests nicknames) changes (build-Current manifests nicknames) key
