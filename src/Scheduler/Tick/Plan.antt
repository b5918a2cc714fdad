-- ===== src/Scheduler/Tick/Plan.antt =====
-- Which sensors a tick plans, and what the plan leaves in the table.
use lin_sight.Base.{
  ℕ, ◌+◌, ◌%◌, ◌≤◌, ◌<◌, ◌≡◌, refl, Bool, false, not, [], ◌∷◌, Option, none, some, arith, ltb, leb,
  if◌then◌else◌, u64_mod,
}
use lin_sight.Base.Keys.{text_eq, text_beq_iff, contains}
use lin_sight.Base.Dict.{Dict, lookup, has_key, Unique, lookup-has_key}
use lin_sight.Core.Samples.{SensorId}
use lin_sight.Scheduler.Table.{Entry, Scheduler}
use lin_sight.Scheduler.Counts.{TableOk, SchedulerOk, holders, table_count, entry_count}
use lin_sight.Scheduler.Tick.{advance, plan_entries, tick_plan}

-- The entry after a plan at `now`.
unfoldable pub planned : ℕ → Entry → Entry
planned now e = if ltb now e.next_due then e else record e { next_due = (now + e.period) % u64_mod }

abbrev pub is_due : ℕ → Option Entry → Bool
is_due now none = false
is_due now (some e) = not (ltb now e.next_due)

abbrev pub map_planned : ℕ → Option Entry → Option Entry
map_planned now none = none
map_planned now (some e) = some (planned now e)

lookup-plan :
    (now : ℕ) (id : SensorId) (m : Dict SensorId Entry)
    → lookup id (plan_entries now m).1 ≡ map_planned now (lookup id m)
unfolding plan_entries planned advance lookup
lookup-plan now id [] = refl
lookup-plan now id ((j, e) ∷ m) = ground (arith, lookup-plan now id m)

has_key-plan :
    (now : ℕ) (id : SensorId) (m : Dict SensorId Entry)
    → has_key id (plan_entries now m).1 ≡ has_key id m
unfolding plan_entries has_key
has_key-plan now id [] = refl
has_key-plan now id ((j, e) ∷ m) = ground (arith, has_key-plan now id m)

contains-plan :
    (now : ℕ) (id : SensorId) (m : Dict SensorId Entry)
    → Unique m
    → contains id (plan_entries now m).0 ≡ is_due now (lookup id m)
unfolding plan_entries contains lookup
contains-plan now id [] u = refl
contains-plan now id ((j, e) ∷ m) u =
    ground (arith, contains-plan now id m u.1, lookup-has_key j m u.0, text_beq_iff j id)

plan-TableOk : (now : ℕ) (m : Dict SensorId Entry) → TableOk m → TableOk (plan_entries now m).1
unfolding plan_entries
plan-TableOk now [] v = tt
plan-TableOk now ((j, e) ∷ m) v = ground (arith, plan-TableOk now m v.1)

plan-Unique : (now : ℕ) (m : Dict SensorId Entry) → Unique m → Unique (plan_entries now m).1
unfolding plan_entries
plan-Unique now [] u = tt
plan-Unique now ((j, e) ∷ m) u = ground (arith, plan-Unique now m u.1, has_key-plan now j m)

module _ {F V : Type 0} (s : Scheduler F V) (now : ℕ) where
  pub tick_plan-SchedulerOk : SchedulerOk s → SchedulerOk (tick_plan s now).1
  unfolding tick_plan
  tick_plan-SchedulerOk v = (plan-TableOk now s.entries v.0, plan-Unique now s.entries v.1)

  pub tick_plan-holders :
      (id : SensorId) (p : ℕ) → holders id p (tick_plan s now).1 ≡ holders id p s
  unfolding tick_plan table_count entry_count planned
  tick_plan-holders id p = ground (arith, lookup-plan now id s.entries)

  -- A tick plans exactly the subscribed sensors whose due time has come. It sets the due times of
  -- those to one period from now, in the arithmetic of a `u64`, and leaves the rest of each entry
  -- as it was.
  pub tick_plan_exact :
      (id : SensorId)
      → SchedulerOk s
      → (contains id (tick_plan s now).0 ≡ is_due now (lookup id s.entries))
        × (lookup id (tick_plan s now).1.entries ≡ map_planned now (lookup id s.entries))
  unfolding tick_plan
  tick_plan_exact id v = (contains-plan now id s.entries v.1, lookup-plan now id s.entries)

-- A planned sensor is planned again, with no result of its sampling, once its period is over and
-- not before, unless the due time leaves the range of a `u64`.
pub tick_plan_again :
    {F V : Type 0} (s : Scheduler F V) (now : ℕ) (id : SensorId) (later : ℕ) {e : Entry}
    → SchedulerOk s
    → lookup id s.entries ≡ some e
    → e.next_due ≤ now
    → now + e.period < u64_mod
    → contains id (tick_plan (tick_plan s now).1 later).0 ≡ leb (now + e.period) later
unfolding planned advance
tick_plan_again s now id later v found due fits =
    rw
      (
        (tick_plan_exact (tick_plan s now).1 later id (tick_plan-SchedulerOk s now v)).0,
        (tick_plan_exact s now id v).1,
        found,
      )
      (ground arith)
