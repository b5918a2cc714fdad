-- ===== src/Sampling/Once.antt =====
-- Each sensor of the plan gets at most one result, and the workers' share is bounded.
use lin_sight.Base.{ℕ, ◌+◌, ◌≤◌, ◌≡◌, refl, ap, Bool, false, List, [], ◌∷◌, Text, arith, max}
use lin_sight.Base.Keys.{text_eq, text_beq_iff}
use lin_sight.Base.Dict.{Dict, lookup, has_key, Unique, sum_of}
use lin_sight.Core.Samples.{SensorId}
use lin_sight.Scheduler.Table.{Entry, Scheduler}
use lin_sight.Scheduler.Tick.{plan_entries, tick_plan}
use lin_sight.Sampling.Balance.{
  same, occurs, results_for, results_for-append, BatchOk, receive-BatchOk, seed-BatchOk,
}
use lin_sight.Sampling.{SamplingResult, fresh_batch, seed, batch, expired, sample}

results_for-expired :
    (V : Type 0) (why : Text) (id : SensorId) (m : Dict SensorId SensorId)
    → results_for id (expired {V = V} why m) ≡ sum_of (same id) m
unfolding expired sum_of
results_for-expired V why id [] = refl
results_for-expired V why id ((k, item) ∷ m) =
    ap (λ n. same id item + n) (results_for-expired V why id m)

batch-BatchOk :
    {V : Type 0} (sent : SensorId → Bool) (workers call_id : ℕ) (plan : List SensorId)
    (arrivals : List (SamplingResult V))
    → ((id : SensorId) → occurs id plan ≤ 1)
    → BatchOk plan (max workers 1) (batch sent workers call_id plan arrivals)
unfolding batch sum_of lookup
batch-BatchOk sent workers call_id plan arrivals once =
    receive-BatchOk plan (max workers 1) once sent call_id arrivals
      (seed sent (max workers 1) (fresh_batch plan))
      (seed-BatchOk plan (max workers 1) once sent (max workers 1) (fresh_batch plan)
        (record {
          balance = λ id. omega arith;
          unique = tt;
          own = λ k v h. absurd (cc);
          few = omega arith;
        })
        (omega arith))

-- A sensor that has no entry is not due.
plan_entries-absent :
    (now : ℕ) (id : SensorId) (m : Dict SensorId Entry)
    → has_key id m ≡ false
    → occurs id (plan_entries now m).0 ≡ 0
unfolding plan_entries has_key
plan_entries-absent now id [] h = refl
plan_entries-absent now id ((j, e) ∷ m) h =
    ground (arith, plan_entries-absent now id m, text_beq_iff j id, text_beq_iff id j)

plan_entries_once :
    (now : ℕ) (id : SensorId) (m : Dict SensorId Entry)
    → Unique m
    → occurs id (plan_entries now m).0 ≤ 1
unfolding plan_entries
plan_entries_once now id [] u = omega arith
plan_entries_once now id ((j, e) ∷ m) u =
    ground
      (arith, plan_entries_once now id m u.1, plan_entries-absent now j m u.0, text_beq_iff j id)

-- The calls of a tick: in the sampling of what a tick planned, each sensor has at most one result,
-- and none if it was not planned; a sensor that was planned has one, an answer or an error, or it
-- still waits at the end; and at the end no more calls are under way than there are workers, or
-- one when there is none. No sensor stands twice in the table of the scheduler.
pub sample_once :
    {F V : Type 0} (s : Scheduler F V) (now : ℕ) (sent : SensorId → Bool) (why : Text)
    (workers call_id : ℕ) (arrivals : List (SamplingResult V))
    → Unique s.entries
    → (id : SensorId)
    → let plan = (tick_plan s now).0 in
      let ended = batch sent workers call_id plan arrivals in
      (results_for id (sample sent why workers call_id plan arrivals) + occurs id ended.pending
        ≡ occurs id plan)
      × (occurs id plan ≤ 1)
      × (sum_of (λ _. 1) ended.in_flight ≤ max workers 1)
unfolding sample batch tick_plan
sample_once s now sent why workers call_id arrivals unique id =
    let plan = (tick_plan s now).0 in
    let once : (j : SensorId) → occurs j plan ≤ 1 = λ j. plan_entries_once now j s.entries unique in
    let b = batch sent workers call_id plan arrivals in
    let v = batch-BatchOk sent workers call_id plan arrivals once in
    (
      omega (
        arith,
        v.balance id,
        results_for-append id b.results (expired why b.in_flight),
        results_for-expired _ why id b.in_flight,
      ),
      once id,
      v.few,
    )
