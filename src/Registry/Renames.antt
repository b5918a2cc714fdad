-- ===== src/Registry/Renames.antt =====
-- `set_nickname` on every branch.
use lin_sight.Base.{
  ◌≡◌, refl, subst, false, true, Option, none, some, Text, Bool-cases, inl, inr, if◌then◌else◌,
}
use lin_sight.Base.Keys.{text_eq, text_beq}
use lin_sight.Base.Dict.{lookup, has_key, lookup-insert, lookup-remove}
use lin_sight.Core.Hardware.{DeviceKey, Checked-cases, ok, err, Checked}
use lin_sight.Registry.{
  Registry, RegistryError, unknown_device, invalid_nickname, rebuild_labels, set_nickname,
  revalidated, overlaid,
}

lookup-overlaid :
    (key j : DeviceKey) (n : Option Text) (r : Registry)
    → lookup j (overlaid key n r.nicknames) ≡ (if text_beq key j then n else lookup j r.nicknames)
unfolding overlaid
lookup-overlaid key j none r = lookup-remove key j r.nicknames
lookup-overlaid key j (some n) r = lookup-insert key j n r.nicknames

-- What `set_nickname` promises of its result.
abbrev pub Outcome : Registry → DeviceKey → Option Text → Checked RegistryError Registry → Type 0
Outcome r key value (err (unknown_device k)) = (k ≡ key) × (has_key key r.devices ≡ false)
Outcome r key value (err (invalid_nickname e)) =
    (has_key key r.devices ≡ true) × (revalidated value ≡ err e)
Outcome r key value (ok r') =
    (has_key key r.devices ≡ true)
    × (r'.devices ≡ r.devices)
    × (r'.by_plugin ≡ r.by_plugin)
    × ((n : Option Text) × (revalidated value ≡ ok n)
        × ((j : DeviceKey)
            → lookup j r'.nicknames ≡ (if text_beq key j then n else lookup j r.nicknames)))

-- A known device takes the validated nickname, or loses its own if there is none, and nothing else
-- of the devices and nicknames changes; a device that is not known and a nickname that is not valid
-- are refused with the error that says so.
pub set_nickname-Outcome :
    (r : Registry) (key : DeviceKey) (value : Option Text)
    → Outcome r key value (set_nickname r key value)
unfolding set_nickname rebuild_labels
set_nickname-Outcome r key value = elim (Bool-cases (has_key key r.devices)) [
  | inr unknown ↦ rw (set_nickname, unknown) (refl, unknown)
  | inl known ↦ elim (Checked-cases (revalidated value)) [
    | inr (e, bad) ↦ rw (set_nickname, known, bad) (known, bad)
    | inl (n, good) ↦
        rw (set_nickname, known, good)
          (known, refl, refl, (n, good, λ j. lookup-overlaid key j n r))
  ]
]

pub set_nickname-devices :
    (r : Registry) (key : DeviceKey) (value : Option Text) {r' : Registry}
    → set_nickname r key value ≡ ok r'
    → r'.devices ≡ r.devices
set_nickname-devices r key value {r'} h =
    let promised : Outcome r key value (ok r') =
      subst (Outcome r key value) h (set_nickname-Outcome r key value) in
    promised.1
