-- ===== src/Requests/Info/Renamed.antt =====
-- What a catalogue says of a device that was just renamed.
use lin_sight.Base.{◌≡◌, refl, ap, subst, ◌∙◌, Option, some, Text, arith}
use lin_sight.Base.Keys.{text_eq, beq_refl}
use lin_sight.Base.Dict.{lookup, has_key-lookup}
use lin_sight.Core.Hardware.{DeviceKey, ok, validate_nickname, compute_device_label}
use lin_sight.Core.Samples.{SensorId}
use lin_sight.Scheduler.Table.{Descriptor}
use lin_sight.Registry.{Registry, set_nickname, device_label_for, revalidated}
use lin_sight.Registry.Labels.{called, set_nickname-Current}
use lin_sight.Registry.Renames.{Outcome, set_nickname-Outcome}
use lin_sight.Registry.Snapshot.{Keyed, lookup-key}
use lin_sight.Requests.Info.{build_sensor_info, device_of}

set_nickname-label :
    (r r' : Registry) (key : DeviceKey) (raw n : Text)
    → Keyed r.devices
    → set_nickname r key (some raw) ≡ ok r'
    → validate_nickname raw ≡ ok (some n)
    → device_label_for r' key ≡ n
unfolding compute_device_label revalidated
set_nickname-label r r' key raw n keyed renamed valid =
    let promised : Outcome r key (some raw) (ok r') =
      subst (Outcome r key (some raw)) renamed (set_nickname-Outcome r key (some raw)) in
    let (known, devices, _, (m, good, nicknames)) = promised in
    let (d, found) = has_key-lookup key r.devices known in
    let own : d.key ≡ key = lookup-key key r.devices {d = d} keyed.1 found in
    let found' : lookup key r'.devices ≡ some d = ap (lookup key) devices ∙ found in
    let same : m ≡ some n = ground (arith, good, valid) in
    let named : lookup d.key r'.nicknames ≡ some n =
      ap (λ k. lookup k r'.nicknames) own ∙ nicknames key ∙ rw (beq_refl key) same in
    set_nickname-Current r key (some raw) {r' = r'} renamed key
    ∙ rw (called, found', compute_device_label, named) refl

-- After a device is given a valid nickname, every sensor that names the device is catalogued under
-- that nickname.
pub set_nickname-build_sensor_info :
    {F V : Type 0} (plugin_id_for : SensorId → Option Text) (r r' : Registry) (key : DeviceKey)
    (raw n : Text) (d : Descriptor F V)
    → Keyed r.devices
    → set_nickname r key (some raw) ≡ ok r'
    → validate_nickname raw ≡ ok (some n)
    → d.device_key ≡ some key
    → (build_sensor_info plugin_id_for r' d).device_label ≡ some n
unfolding build_sensor_info device_of
set_nickname-build_sensor_info plugin_id_for r r' key raw n d keyed renamed valid names =
    simp (build_sensor_info, device_of, names)
      (ap some (set_nickname-label r r' key raw n keyed renamed valid))
