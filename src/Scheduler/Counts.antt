-- ===== src/Scheduler/Counts.antt =====
-- The table seen as a count of the subscriptions at each sensor and period.
pub mod Join
pub mod Leave
use lin_sight.Base.{
  ℕ, ◌+◌, ◌-◌, ◌≤◌, ◌<◌, ◌⊎◌, ◌∙◌, ◌≡◌, refl, Bool, ◌&&◌, [], ◌∷◌, Option, none, some, arith, ◌==◌,
  if◌then◌else◌, Bool-cases, Option-cases, inl, inr, All, u32_mod, codes,
}
use lin_sight.Base.Keys.{text_beq, text_eq, text_beq_iff}
use lin_sight.Base.Dict.{
  Dict, lookup, insert, remove, lookup-insert, lookup-remove, insert-All, remove-All, lookup-All,
  Unique, insert-Unique, remove-Unique,
}
use lin_sight.Core.Samples.{SensorId}
use lin_sight.Scheduler.Rate.{Floats, period_micros}
use lin_sight.Scheduler.Periods.{
  Periods, Above, leave, first_key, count_of, bump-Above, count_of-bump, leave-Above,
  count_of-leave, first_key-least, first_key-held,
}
use lin_sight.Scheduler.Table.{
  Descriptor, Subscription, Entry, Scheduler, subscribed, subscribe, unsubscribe, subscribe_at,
  find_descriptor, has_tag, joined, joined_with, left, left_with,
}

-- The counts are in order and positive, and the entry runs at the shortest period asked for.
pub record EntryOk (e : Entry) : Type 0 where
  pub counted : Above 0 e.period_counts
  pub shortest : first_key e.period_counts ≡ some e.period

abbrev pub TableOk : Dict SensorId Entry → Type 0
TableOk = All (λ p. EntryOk p.1)

abbrev pub SchedulerOk : {F V : Type 0} → Scheduler F V → Type 0
SchedulerOk s = TableOk s.entries × Unique s.entries

-- How many subscriptions the entry counts at the period `p`.
unfoldable pub entry_count : ℕ → Option Entry → ℕ
entry_count p none = 0
entry_count p (some e) = count_of p e.period_counts

unfoldable pub table_count : SensorId → ℕ → Dict SensorId Entry → ℕ
table_count id p m = entry_count p (lookup id m)

-- How many subscriptions the scheduler counts at a sensor and a period.
abbrev pub holders : {F V : Type 0} → SensorId → ℕ → Scheduler F V → ℕ
holders id p s = table_count id p s.entries

-- The entry of a sensor runs at the shortest period that a subscription of it asks for.
pub shortest_period :
    {F V : Type 0} (s : Scheduler F V) (id : SensorId) (q : ℕ) {e : Entry}
    → SchedulerOk s
    → lookup id s.entries ≡ some e
    → 0 < holders id q s
    → (e.period ≤ q) × (0 < holders id e.period s)
unfolding table_count entry_count
shortest_period s id q {e} v found held =
    let ok = lookup-All EntryOk id s.entries v.0 found in
    rw (found, table_count, entry_count)
      (
        first_key-least 0 q e.period_counts ok.counted ok.shortest
            (rw (found, table_count, entry_count) at held),
        first_key-held 0 e.period_counts ok.counted ok.shortest,
      )
