-- ===== src/Sampling.antt =====
-- apps/linsightd/src/transport/unix.rs: `SamplingPool::sample`, one tick's calls of the plugins. What
-- arrives on the channel of results, up to the deadline, is a list; `sent` says of each sensor
-- whether its job can be sent, which takes a live worker.
pub mod Balance
pub mod Once
use lin_sight.Base.{
  ℕ, Bool, true, false, List, [], ◌∷◌, ◌++◌, Option, none, some, Text, codes, if◌then◌else◌, ◌==◌,
  max, zero, suc,
}
use lin_sight.Base.Keys.{text_eq}
use lin_sight.Base.Dict.{Dict, lookup, insert, remove}
use lin_sight.Core.Samples.{SensorId}
use lin_sight.Scheduler.Tick.{Sampled, err, timeout}

-- A result that a worker sent, with the id of its call.
pub record SamplingResult (V : Type 0) : Type 0 where
  pub call_id : ℕ
  pub sensor : SensorId
  pub result : Sampled V

-- The sensors that wait, those that a worker has, and the results so far.
pub record Batch (V : Type 0) : Type 0 where
  pub pending : List SensorId
  pub in_flight : Dict SensorId SensorId
  pub results : List (SensorId × Sampled V)

abbrev pub fresh_batch : {V : Type 0} → List SensorId → Batch V
fresh_batch plan = record { pending = plan; in_flight = []; results = [] }

abbrev pub shut_down : Text
shut_down = codes "sampling pool shut down"

-- The next of the sensors that wait, whose job is sent or not.
unfoldable pub send_job : {V : Type 0} → Bool → SensorId → List SensorId → Batch V → Batch V
send_job true id rest b = record b { pending = rest; in_flight = insert id id b.in_flight }
send_job false id rest b = record b {
  pending = rest;
  results = b.results ++ (id, err (timeout shut_down)) ∷ [];
}

module _ {V : Type 0} (sent : SensorId → Bool) where
  unfoldable pub start_next : Batch V → Batch V
  unfolding send_job
  start_next b = elim (b.pending) [ [] ↦ b | id ∷ rest ↦ send_job (sent id) id rest b ]

  unfoldable pub seed : ℕ → Batch V → Batch V
  unfolding start_next
  seed zero b = b
  seed (suc n) b = seed n (start_next b)

  -- A result that is in.
  unfoldable pub arrive : ℕ → Batch V → SamplingResult V → Batch V
  unfolding start_next
  arrive call_id b r =
      if r.call_id == call_id
      then elim (lookup r.sensor b.in_flight) [
        | none ↦ b
        | some item ↦ start_next (record b {
          in_flight = remove r.sensor b.in_flight;
          results = b.results ++ (item, r.result) ∷ [];
        })
      ]
      else b

  unfoldable pub receive : ℕ → Batch V → List (SamplingResult V) → Batch V
  unfolding arrive
  receive call_id b [] = b
  receive call_id b (r ∷ rs) =
      let more = receive call_id (arrive call_id b r) rs in
      elim (b.in_flight) [ [] ↦ b | p ∷ ps ↦ more ]

  unfoldable pub batch : ℕ → ℕ → List SensorId → List (SamplingResult V) → Batch V
  unfolding seed receive
  batch workers call_id plan arrivals =
      receive call_id (seed (max workers 1) (fresh_batch plan)) arrivals

-- The calls that did not come back.
unfoldable pub expired : {V : Type 0} → Text → Dict SensorId SensorId → List (SensorId × Sampled V)
expired why [] = []
expired why ((id, item) ∷ m) = (item, err (timeout why)) ∷ expired why m

unfoldable pub sample :
    {V : Type 0}
    → (SensorId → Bool)
    → Text
    → ℕ
    → ℕ
    → List SensorId
    → List (SamplingResult V)
    → List (SensorId × Sampled V)
unfolding batch expired
sample sent why workers call_id plan arrivals =
    let b = batch sent workers call_id plan arrivals in b.results ++ expired why b.in_flight
