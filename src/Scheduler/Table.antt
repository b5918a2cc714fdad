-- ===== src/Scheduler/Table.antt =====
-- The subscription table: `subscribe`, `unsubscribe` and the descriptors that they look up.
use lin_sight.Base.{
  ◌≡◌, refl, ◌⊎◌, inl, inr, ℕ, ◌+◌, Bool, false, ◌||◌, List, [], ◌∷◌, Option, none, some,
  if◌then◌else◌, Text, codes, min, u64_max,
}
use lin_sight.Base.Keys.{text_beq, text_eq}
use lin_sight.Base.Dict.{Dict, lookup, insert, remove}
use lin_sight.Core.Samples.{SensorId, MeasureUnit, SensorKind, Category}
use lin_sight.Scheduler.Rate.{Floats, period_micros}
use lin_sight.Scheduler.Periods.{Periods, bump, leave}

-- `V` stands for `f64`.
pub record Descriptor (F V : Type 0) : Type 0 where
  pub id : SensorId
  pub display_name : Text
  pub unit : MeasureUnit
  pub kind : SensorKind
  pub category : Category
  pub native_rate_hz : F
  pub min : Option V
  pub max : Option V
  pub device_id : Option Text
  pub device_key : Option Text
  pub tags : List Text

pub record Subscription : Type 0 where
  pub sensor : SensorId
  pub period : ℕ

pub record Entry : Type 0 where
  pub period_counts : Periods
  pub period : ℕ
  pub next_due : ℕ
  pub last_sampled : Option ℕ
  pub is_static : Bool
  pub unsupported_strikes : ℕ
  pub timeout_strikes : ℕ

-- `history` says whether a history writer is attached, and `alerts` whether the handle of an engine
-- is; the engine stands behind a lock of its own.
pub record Scheduler (F V : Type 0) : Type 0 where
  pub host : List (Descriptor F V)
  pub entries : Dict SensorId Entry
  pub history : Bool
  pub history_db_path : Option Text
  pub alerts_config_path : Option Text
  pub alerts : Bool
  pub prom_running : Bool

pub data Subscribed (F V : Type 0) : Type 0 where
  subscribed : Subscription → Scheduler F V → Subscribed F V
  unknown : SensorId → Subscribed F V
  panicked : Subscribed F V

-- `STATIC_TAG`
abbrev static_tag : Text
static_tag = codes "static"

unfoldable pub has_tag : Text → List Text → Bool
has_tag t [] = false
has_tag t (x ∷ xs) = text_beq x t || has_tag t xs

module _ {F V : Type 0} where
  unfoldable pub find_descriptor : SensorId → List (Descriptor F V) → Option (Descriptor F V)
  find_descriptor id [] = none
  find_descriptor id (d ∷ ds) = if text_beq d.id id then some d else find_descriptor id ds

  unfoldable pub init : List (Descriptor F V) → Scheduler F V
  init host = record {
    host = host;
    entries = [];
    history = false;
    history_db_path = none;
    alerts_config_path = none;
    alerts = false;
    prom_running = false;
  }

-- The `or_insert` of `subscribe`.
unfoldable pub fresh_entry : Bool → ℕ → Entry
fresh_entry is_static period = record {
  period_counts = (period, 1) ∷ [];
  period = period;
  next_due = 0;
  last_sampled = none;
  is_static = is_static;
  unsupported_strikes = 0;
  timeout_strikes = 0;
}

-- The `and_modify` of `subscribe`, on the counts with the new subscription in them.
unfoldable pub joined_with : Entry → Periods → Option Entry
joined_with e [] = none
joined_with e ((k, c) ∷ m) =
    some (record e { period_counts = (k, c) ∷ m; period = k; next_due = 0 })

-- The entry after a subscription at `period`; `none` is the panic of `expect`.
unfoldable pub joined : Bool → ℕ → Option Entry → Option Entry
unfolding fresh_entry joined_with
joined is_static period none = some (fresh_entry is_static period)
joined is_static period (some e) = joined_with e (bump period e.period_counts)

-- When a sensor that is not static is next due, after its period changed.
unfoldable pub due_after : Option ℕ → ℕ → ℕ
due_after none period = 0
due_after (some last) period = min (last + period) u64_max

-- The entry with the counts that `unsubscribe` leaves; `none` has it removed.
unfoldable pub left_with : Entry → Periods → Option Entry
unfolding due_after
left_with e [] = none
left_with e ((k, c) ∷ m) = some (record e {
  period_counts = (k, c) ∷ m;
  period = k;
  next_due = if e.is_static then e.next_due else due_after e.last_sampled k;
})

unfoldable pub left : ℕ → Entry → Option Entry
unfolding left_with
left period e = left_with e (leave period e.period_counts)

module _ {F V : Type 0} where
  unfoldable pub subscribe_at : Scheduler F V → Descriptor F V → SensorId → ℕ → Subscribed F V
  unfolding joined has_tag
  subscribe_at s d id period =
      elim (joined (has_tag static_tag d.tags) period (lookup id s.entries)) [
        | none ↦ panicked
        | some e ↦
            subscribed (record { sensor = id; period = period })
              (record s { entries = insert id e s.entries })
      ]

  unfoldable pub subscribe : Floats F → Scheduler F V → SensorId → Option F → Subscribed F V
  unfolding find_descriptor subscribe_at
  subscribe f s id requested_rate_hz = elim (find_descriptor id s.host) [
    | none ↦ unknown id
    | some d ↦ elim (period_micros f d.native_rate_hz requested_rate_hz) [
      | none ↦ panicked
      | some period ↦ subscribe_at s d id period
    ]
  ]

  unfoldable pub unsubscribe : Scheduler F V → Subscription → Scheduler F V
  unfolding left
  unsubscribe s sub = elim (lookup sub.sensor s.entries) [
    | none ↦ s
    | some e ↦ elim (left sub.period e) [
      | none ↦ record s { entries = remove sub.sensor s.entries }
      | some e' ↦ record s { entries = insert sub.sensor e' s.entries }
    ]
  ]

pub Subscribed-cases :
    {F V : Type 0} (r : Subscribed F V)
    → ((id : SensorId) × (r ≡ unknown id))
      ⊎ (r ≡ panicked)
      ⊎ ((sub : Subscription) × (s : Scheduler F V) × (r ≡ subscribed sub s))
Subscribed-cases (unknown id) = inl (id, refl)
Subscribed-cases panicked = inr (inl refl)
Subscribed-cases (subscribed sub s) = inr (inr (sub, s, refl))

-- The attachments, as the start-up and the settings set them.
module _ {F V : Type 0} where
  unfoldable pub set_history_writer : Bool → Scheduler F V → Scheduler F V
  set_history_writer b s = record s { history = b }

  unfoldable pub set_history_db_path : Option Text → Scheduler F V → Scheduler F V
  set_history_db_path path s = record s { history_db_path = path }

  unfoldable pub set_alert_engine : Bool → Scheduler F V → Scheduler F V
  set_alert_engine b s = record s { alerts = b }

  unfoldable pub set_alerts_config_path : Option Text → Scheduler F V → Scheduler F V
  set_alerts_config_path path s = record s { alerts_config_path = path }

  unfoldable pub set_prom_running : Bool → Scheduler F V → Scheduler F V
  set_prom_running b s = record s { prom_running = b }
