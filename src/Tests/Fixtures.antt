-- ===== src/Tests/Fixtures.antt =====
-- Rates in tenths of a hertz, a codec of two messages, and small tables.
use lin_sight.Base.{
  ℕ, ◌/◌, ◌≤◌, ◌≡◌, ◌≢◌, refl, Bool, true, false, List, [], ◌∷◌, Option, none, some, arith, ltb,
  leb, codes, Text,
}
use native.Mathlib.Nat.{le-div_iff_mul-le, div-le_self}
use lin_sight.Core.Samples.{Sample, scalar, MeasureUnit, SensorKind, Category}
use lin_sight.Messages.{
  ServerMsg, Reply, ResponsePayload, response, bye, pump_interval_set, server_tag,
}
use lin_sight.Messages
use lin_sight.Frame.{Codec}
use lin_sight.Frame.RoundTrip.{IsCodec}
use lin_sight.Frame.Response.Wait.{Tagged}
use lin_sight.Scheduler.Rate.{Floats, IsIeee}
use lin_sight.Scheduler.Table.{Descriptor, Entry, Scheduler}

-- `none` is a NaN.
abbrev pub Rate : Type 0
Rate = Option ℕ

abbrev pub rate_lt : Rate → Rate → Bool
rate_lt none y = false
rate_lt (some a) none = false
rate_lt (some a) (some b) = ltb a b

abbrev pub rate_le : Rate → Rate → Bool
rate_le none y = false
rate_le (some a) none = false
rate_le (some a) (some b) = leb a b

abbrev pub rate_nan : Rate → Bool
rate_nan none = true
rate_nan (some a) = false

abbrev pub rate_finite : Rate → Bool
rate_finite none = false
rate_finite (some a) = true

abbrev pub rate_period : Rate → ℕ
rate_period none = 0
rate_period (some t) = 10_000_000 / t

abbrev pub rates : Floats Rate
rates = record {
  lt = rate_lt;
  le = rate_le;
  is_nan = rate_nan;
  is_finite = rate_finite;
  zero_rate = some 0;
  min_rate = some 1;
  max_rate = some 200;
  period_of = rate_period;
}

rates_nan_le : (x y : Rate) → rate_nan y ≡ true → rate_le x y ≡ false
rates_nan_le none none h = refl
rates_nan_le (some a) none h = refl
rates_nan_le x (some b) h = absurd (ground arith)

rates_nan_lt : (x y : Rate) → rate_nan x ≡ true → (rate_lt x y ≡ false) × (rate_lt y x ≡ false)
rates_nan_lt none none h = (refl, refl)
rates_nan_lt none (some b) h = (refl, refl)
rates_nan_lt (some a) y h = absurd (ground arith)

rates_nan_finite : (x : Rate) → rate_nan x ≡ true → rate_finite x ≡ false
rates_nan_finite none h = refl
rates_nan_finite (some a) h = absurd (ground arith)

rates_le_of_not_lt :
    (x y : Rate)
    → rate_nan x ≡ false
    → rate_nan y ≡ false
    → rate_lt x y ≡ false
    → rate_le y x ≡ true
rates_le_of_not_lt none y h g e = absurd (ground arith)
rates_le_of_not_lt (some a) none h g e = absurd (ground arith)
rates_le_of_not_lt (some a) (some b) h g e = ground arith

rates_le_trans : (x y z : Rate) → rate_le x y ≡ true → rate_le y z ≡ true → rate_le x z ≡ true
rates_le_trans none y z h g = absurd (ground arith)
rates_le_trans (some a) none z h g = absurd (ground arith)
rates_le_trans (some a) (some b) none h g = absurd (ground arith)
rates_le_trans (some a) (some b) (some c) h g = ground arith

rates_fast :
    (x : Rate) → rate_le (some 1) x ≡ true → rate_le x (some 200) ≡ true → 50_000 ≤ rate_period x
rates_fast none h g = absurd (ground arith)
rates_fast (some t) h g = (le-div_iff_mul-le {x = 50_000} (ground arith)).1 (ground arith)

rates_slow : (x : Rate) → rate_le (some 1) x ≡ true → rate_period x ≤ 10_000_000
rates_slow none h = absurd (ground arith)
rates_slow (some t) h = div-le_self 10_000_000 t

pub rates_law : IsIeee rates
rates_law = record {
  nan_le = rates_nan_le;
  nan_lt = rates_nan_lt;
  nan_finite = rates_nan_finite;
  le_of_not_lt = rates_le_of_not_lt;
  le_trans = rates_le_trans;
  min_nan = refl;
  max_nan = refl;
  min_min = refl;
  max_max = refl;
  min_max = refl;
  period_slow = rates_slow;
  period_fast = rates_fast;
}

-- A codec of goodbyes and of the answers about the pump interval.
abbrev pub small_to_bytes : ServerMsg Rate ℕ → Option (List ℕ)
small_to_bytes (bye []) = some (4 ∷ [])
small_to_bytes (response rid (Messages.Reply.ok (pump_interval_set n))) = some (5 ∷ rid ∷ n ∷ [])
small_to_bytes m = none

abbrev pub small_from_bytes : List ℕ → Option (ServerMsg Rate ℕ)
small_from_bytes (b ∷ []) = some (bye [])
small_from_bytes (b ∷ rid ∷ n ∷ []) = some (response rid (Messages.Reply.ok (pump_interval_set n)))
small_from_bytes body = none

abbrev pub small : Codec (ServerMsg Rate ℕ)
small = record { to_bytes = small_to_bytes; from_bytes = small_from_bytes }

small_back :
    (m : ServerMsg Rate ℕ) (body : List ℕ)
    → small_to_bytes m ≡ some body
    → small_from_bytes body ≡ some m
small_back m body h = ground arith

small_some_bytes : (m : ServerMsg Rate ℕ) → small_to_bytes m ≢ some []
small_some_bytes m h = ground arith

pub small_law : IsCodec small
small_law = record { back = small_back; some_bytes = small_some_bytes }

pub small-Tagged : Tagged small
unfolding server_tag
small-Tagged m b bs h = ground arith

-- A sensor of 2 Hz and a static one.
abbrev pub load : Text
load = codes "load"

abbrev pub model : Text
model = codes "model"

abbrev pub host : List (Descriptor Rate ℕ)
host =
    record {
      id = load;
      display_name = [];
      unit = MeasureUnit.percent;
      kind = SensorKind.scalar;
      category = Category.cpu;
      native_rate_hz = some 20;
      min = none;
      max = none;
      device_id = none;
      device_key = none;
      tags = [];
    }
    ∷ record {
      id = model;
      display_name = [];
      unit = MeasureUnit.count;
      kind = SensorKind.state;
      category = Category.cpu;
      native_rate_hz = none;
      min = none;
      max = none;
      device_id = none;
      device_key = none;
      tags = codes "static" ∷ [];
    }
    ∷ []

abbrev pub entry_of : Bool → ℕ → ℕ → Entry
entry_of static period next_due = record {
  period_counts = (period, 1) ∷ [];
  period = period;
  next_due = next_due;
  last_sampled = none;
  is_static = static;
  unsupported_strikes = 0;
  timeout_strikes = 0;
}

abbrev pub table : Scheduler Rate ℕ
table = record {
  host = host;
  entries = (load, entry_of false 500_000 0) ∷ (model, entry_of true 10_000_000 0) ∷ [];
  history = true;
  history_db_path = none;
  alerts_config_path = none;
  alerts = false;
  prom_running = false;
}

abbrev pub sample_of : Text → ℕ → Sample ℕ
sample_of id t = record { sensor = id; ts_micros = t; reading = scalar 7 }
