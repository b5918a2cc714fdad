-- ===== src/Tests/Ticks.antt =====
-- Ticks over a table with a sensor at 2 Hz and a static one.
use lin_sight.Base.{refl, arith, ◌≡◌, ℕ, List, true, false, [], ◌∷◌}
use lin_sight.Base.Keys.{text_beq, text_eq, contains}
use lin_sight.Base.Dict.{lookup}
use lin_sight.Core.Samples.{SensorId}
use lin_sight.Scheduler.Table.{Scheduler}
use lin_sight.Scheduler.Tick.{Sampled, ok, err, timeout, tick_plan, tick_commit}
use lin_sight.Scheduler.Tick.Plan.{tick_plan_exact, is_due, map_planned}
use lin_sight.Scheduler.Tick.Commit.{settled_by, tick_commit_entry}
use lin_sight.Scheduler.Tick.Parking.{here, next, plans, parked_stays}
use lin_sight.Tests.Fixtures.{Rate, rates, load, model, table, entry_of, sample_of}
use lin_sight.Tests.Tables.{table-SchedulerOk}

tick_plan_exact_example :
    (contains load (tick_plan table 5).0 ≡ is_due 5 (lookup load table.entries))
    × (lookup load (tick_plan table 5).1.entries ≡ map_planned 5 (lookup load table.entries))
tick_plan_exact_example = tick_plan_exact table 5 load table-SchedulerOk

abbrev results : List (SensorId × Sampled ℕ)
results = (load, ok (sample_of load 5)) ∷ (model, err (timeout [])) ∷ []

tick_commit_entry_example :
    lookup model (tick_commit table results 5).scheduler.entries
    ≡ settled_by 5 model (lookup model table.entries) results
tick_commit_entry_example = tick_commit_entry table results 5 model

abbrev reading : List (SensorId × Sampled ℕ)
reading =
    (model, err (timeout [])) ∷ (model, ok (sample_of model 5)) ∷ (load, err (timeout [])) ∷ []

abbrev committed : Scheduler Rate ℕ
committed = (tick_commit table reading 5).scheduler

parked_stays_example : contains model (tick_plan (tick_plan committed 7).1 90).0 ≡ false
unfolding lookup text_beq contains
parked_stays_example =
    parked_stays ℕ rates model table 5 ((model, err (timeout [])) ∷ [])
      ((load, err (timeout [])) ∷ []) (sample_of model 5) (entry_of true 10_000_000 0) 90
      table-SchedulerOk refl refl refl (next here (plans committed [] 7 (omega arith)))
      (omega arith)
