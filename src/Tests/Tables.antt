-- ===== src/Tests/Tables.antt =====
-- The subscription table with a subscription at 2 Hz.
use lin_sight.Base.{
  refl, some, arith, ◌≡◌, ◌<◌, ◌+◌, ◌-◌, u32_mod, ℕ, true, false, [], ◌∷◌, Bool, if◌then◌else◌,
  ◌&&◌, ◌==◌,
}
use lin_sight.Base.Keys.{text_beq}
use lin_sight.Base.Dict.{lookup, insert, has_key}
use lin_sight.Scheduler.Rate.{
  period_micros, clamped_rate_hz, requested_rate, settle, effective_rate,
}
use lin_sight.Scheduler.Table.{Scheduler, Subscription, subscribe, unsubscribe, subscribed}
use lin_sight.Scheduler.Counts.{EntryOk, table_count, entry_count, SchedulerOk, holders}
use lin_sight.Scheduler.Counts.Join.{subscribe-holders}
use lin_sight.Scheduler.Counts.Leave.{unsubscribe-holders}
use lin_sight.Scheduler.Periods.{first_key, count_of, bump}
use lin_sight.Tests.Fixtures.{Rate, rates, load, model, table, entry_of}

pub entry_of-EntryOk : (static : Bool) (period due : ℕ) → EntryOk (entry_of static period due)
unfolding first_key
entry_of-EntryOk static period due = record {
  counted = (omega arith, omega arith, omega arith, tt);
  shortest = refl;
}

pub table-SchedulerOk : SchedulerOk table
unfolding has_key text_beq
table-SchedulerOk = (
  (entry_of-EntryOk false 500_000 0, (entry_of-EntryOk true 10_000_000 0, tt)),
  (refl, (refl, tt)),
)

abbrev token : Subscription
token = record { sensor = load; period = 500_000 }

abbrev slow : Subscription
slow = record { sensor = load; period = 1_000_000 }

-- The table after a second subscription, at 1 Hz.
abbrev pub after : Scheduler Rate ℕ
after = record table {
  entries =
      (
        load,
        record (entry_of false 500_000 0) { period_counts = (500_000, 1) ∷ (1_000_000, 1) ∷ [] },
      )
      ∷ (model, entry_of true 10_000_000 0)
      ∷ [];
}

granted : subscribe rates table load (some (some 10)) ≡ subscribed slow after
unfolding subscribe text_beq period_micros effective_rate clamped_rate_hz requested_rate lookup bump
    settle insert
granted = refl

room : holders load 1_000_000 table + 1 < u32_mod
unfolding table_count lookup text_beq entry_count count_of
room = omega arith

subscribe-holders_example :
    holders load 1_000_000 after
    ≡ holders load 1_000_000 table + (if text_beq load load && 1_000_000 == 1_000_000 then 1 else 0)
subscribe-holders_example =
    subscribe-holders table rates load (some (some 10)) table-SchedulerOk granted room load
      1_000_000

unsubscribe-holders_example :
    holders load 500_000 (unsubscribe table token)
    ≡ holders load 500_000 table - (if text_beq load load && 500_000 == 500_000 then 1 else 0)
unsubscribe-holders_example = unsubscribe-holders table table-SchedulerOk token load 500_000
