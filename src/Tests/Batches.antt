-- ===== src/Tests/Batches.antt =====
-- The sampling of a tick on one worker: an answer of an earlier tick comes first, then the answer of
-- the first sensor; the second is sent and does not come back in time.
use lin_sight.Base.{ℕ, Bool, true, List, [], ◌∷◌, ◌≡◌, ◌≤◌, ◌+◌, codes, max}
use lin_sight.Base.Keys.{text_eq}
use lin_sight.Base.Dict.{sum_of}
use lin_sight.Core.Samples.{SensorId}
use lin_sight.Scheduler.Tick.{ok, tick_plan}
use lin_sight.Sampling.{SamplingResult, batch, sample}
use lin_sight.Sampling.Balance.{occurs, results_for}
use lin_sight.Sampling.Once.{sample_once}
use lin_sight.Tests.Fixtures.{load, model, sample_of, table}
use lin_sight.Tests.Tables.{table-SchedulerOk}

abbrev late_and_due : List (SamplingResult ℕ)
late_and_due =
    record { call_id = 6; sensor = model; result = ok (sample_of model 4) }
    ∷ record { call_id = 7; sensor = load; result = ok (sample_of load 5) }
    ∷ []

abbrev any : SensorId → Bool
any id = true

sample_once_example :
    let plan = (tick_plan table 5).0 in
    let ended = batch any 1 7 plan late_and_due in
    (results_for model (sample any (codes "late") 1 7 plan late_and_due)
        + occurs model ended.pending
      ≡ occurs model plan)
    × (occurs model plan ≤ 1)
    × (sum_of (λ _. 1) ended.in_flight ≤ max 1 1)
sample_once_example =
    sample_once table 5 any (codes "late") 1 7 late_and_due table-SchedulerOk.1 model
