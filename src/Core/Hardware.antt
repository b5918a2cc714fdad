-- ===== src/Core/Hardware.antt =====
-- crates/linsight-core/src/hardware.rs and `SensorId::try_new` of types.rs: identifiers and device
-- keys, nicknames, and the labels of devices.
pub mod Keys
pub mod Nicknames
pub mod Labels
use lin_sight.Base.{
  ℕ, ◌+◌, Bool, true, false, ◌&&◌, ◌||◌, not, List, [], ◌∷◌, ◌++◌, Option, none, some, leb, ltb,
  ◌==◌, if◌then◌else◌, Text, codes, length, ◌≡◌, refl, ◌⊎◌, inl, inr,
}
use lin_sight.Base.Keys.{text_beq, text_eq, contains}
use lin_sight.Base.Dict.{Dict, lookup}
use lin_sight.Core.Chars.{
  is_whitespace, is_control, is_ascii_alphanumeric, byte_len, any_char, find_char, trim, split_once,
}
use lin_sight.Core.Samples.{SensorId}

pub data HardwareCategory : Type 0 where
  gpu storage network cpu other : HardwareCategory

unfoldable pub as_str : HardwareCategory → Text
as_str gpu = codes "gpu"
as_str storage = codes "storage"
as_str network = codes "network"
as_str cpu = codes "cpu"
as_str other = codes "other"

pub data KeyError : Type 0 where
  empty : KeyError
  too_long : ℕ → KeyError
  no_scheme : KeyError
  unknown_scheme : Text → KeyError
  empty_payload : Text → KeyError
  bad_char : ℕ → KeyError

pub data NicknameError : Type 0 where
  too_long : ℕ → NicknameError
  control_char : ℕ → NicknameError

pub data Checked (E A : Type 0) : Type 0 where
  ok : A → Checked E A
  err : E → Checked E A

pub Checked-cases :
    {E A : Type 0} (c : Checked E A) → ((a : A) × (c ≡ ok a)) ⊎ ((e : E) × (c ≡ err e))
Checked-cases (ok a) = inl (a, refl)
Checked-cases (err e) = inr (e, refl)

-- `HardwareDeviceKey` is a wrapper of a `String`.
abbrev pub DeviceKey : Type 0
DeviceKey = Text

pub record HardwareDevice : Type 0 where
  pub key : DeviceKey
  pub category : HardwareCategory
  pub model : Text
  pub vendor : Option Text
  pub location : Option Text
  pub plugin_id : Text
  pub plugin_device_id : Text
  pub sensor_ids : List SensorId

abbrev pub allowed_schemes : List Text
allowed_schemes =
    codes "pci"
    ∷ codes "nvml"
    ∷ codes "nvme"
    ∷ codes "net"
    ∷ codes "cpu"
    ∷ codes "system"
    ∷ codes "block"
    ∷ codes "hwmon"
    ∷ codes "fs"
    ∷ codes "amdgpu"
    ∷ codes "zram"
    ∷ codes "i915"
    ∷ codes "plugin"
    ∷ []

abbrev pub key_max_len : ℕ
key_max_len = 140

abbrev pub nickname_max_chars : ℕ
nickname_max_chars = 64

-- `SensorId::try_new`
unfoldable pub try_new_sensor : Text → Option SensorId
try_new_sensor [] = none
try_new_sensor (c ∷ cs) = if any_char is_whitespace (c ∷ cs) then none else some (c ∷ cs)

unfoldable pub key_char : ℕ → Bool
key_char c = is_ascii_alphanumeric c || c == b'_' || c == b':' || c == b'.' || c == b'-'

-- The payload of a key behind its scheme, in the key `s`.
unfoldable pub check_payload : Text → Text → Text → Checked KeyError DeviceKey
check_payload s scheme [] = err (empty_payload scheme)
check_payload s scheme (c ∷ cs) = elim (find_char (λ x. not (key_char x)) (c ∷ cs)) [
  | some bad ↦ err (bad_char bad)
  | none ↦ ok s
]

unfoldable pub check_scheme : Text → Option (Text × Text) → Checked KeyError DeviceKey
unfolding check_payload
check_scheme s none = err no_scheme
check_scheme s (some (scheme, rest)) =
    if contains scheme allowed_schemes
    then check_payload s scheme rest
    else err (unknown_scheme scheme)

-- `HardwareDeviceKey::try_new`
unfoldable pub try_new_key : Text → Checked KeyError DeviceKey
unfolding check_scheme
try_new_key [] = err empty
try_new_key (c ∷ cs) =
    let s = c ∷ cs in
    if ltb key_max_len (byte_len s)
    then err (KeyError.too_long (byte_len s))
    else check_scheme s (split_once b':' s)

-- A trimmed nickname.
unfoldable pub check_trimmed : Text → Checked NicknameError (Option Text)
check_trimmed [] = ok none
check_trimmed (c ∷ cs) =
    if ltb nickname_max_chars (length (c ∷ cs))
    then err (NicknameError.too_long (length (c ∷ cs)))
    else elim (find_char is_control (c ∷ cs)) [
      | some bad ↦ err (control_char bad)
      | none ↦ ok (some (c ∷ cs))
    ]

unfoldable pub validate_nickname : Text → Checked NicknameError (Option Text)
unfolding check_trimmed
validate_nickname input = check_trimmed (trim input)

abbrev pub is_none {ℓ} : {A : Type ℓ} → Option A → Bool
is_none none = true
is_none (some a) = false

-- Another device of the same model that goes by its model name.
unfoldable pub rivals : HardwareDevice → Dict Text Text → List HardwareDevice → Bool
rivals target nicknames [] = false
rivals target nicknames (d ∷ ds) =
    not (text_beq d.key target.key)
      && text_beq d.model target.model
      && is_none (lookup d.key nicknames)
    || rivals target nicknames ds

unfoldable pub payload_of : DeviceKey → Text
payload_of key = elim (split_once b':' key) [ none ↦ key | some (_, p) ↦ p ]

unfoldable pub compute_device_label : HardwareDevice → List HardwareDevice → Dict Text Text → Text
unfolding rivals payload_of
compute_device_label target all_devices nicknames = elim (lookup target.key nicknames) [
  | some nick ↦ nick
  | none ↦
      if rivals target nicknames all_devices
      then target.model ++ codes " (" ++ payload_of target.key ++ codes ")"
      else target.model
]
