-- ===== src/Sampling/Balance.antt =====
-- The account of a batch: where each sensor of the plan is, and how many jobs are under way.
use lin_sight.Base.{
  ℕ, ◌+◌, ◌≤◌, ◌≡◌, refl, sym, ap, subst, ◌⊎◌, Bool, true, false, List, [], ◌∷◌, ◌++◌, none, some,
  arith, if◌then◌else◌, ◌==◌, zero, suc, Bool-cases, Option-cases, inl, inr,
}
use lin_sight.Base.Keys.{text_eq, text_beq, text_beq_iff}
use lin_sight.Base.Dict.{
  Dict, lookup, insert, remove, Unique, sum_of, sum_of-insert_new, sum_of-remove, sum_of-lookup,
  insert-Unique, lookup-insert, lookup-remove, remove-Unique,
}
use lin_sight.Core.Samples.{SensorId}
use lin_sight.Scheduler.Tick.{Sampled, timeout}
use lin_sight.Sampling.{
  SamplingResult, Batch, shut_down, send_job, start_next, seed, arrive, receive,
}

List-cases {ℓ} : {A : Type ℓ} (l : List A) → (l ≡ []) ⊎ ((x : A) × (xs : List A) × (l ≡ x ∷ xs))
List-cases [] = inl refl
List-cases (x ∷ xs) = inr (x, xs, refl)

abbrev pub same : SensorId → SensorId → ℕ
same id j = if text_beq j id then 1 else 0

abbrev pub occurs : SensorId → List SensorId → ℕ
occurs id [] = 0
occurs id (j ∷ js) = same id j + occurs id js

abbrev pub results_for {ℓ} : {A : Type ℓ} → SensorId → List (SensorId × A) → ℕ
results_for id [] = 0
results_for id ((j, r) ∷ rs) = same id j + results_for id rs

pub results_for-append {ℓ} :
    {A : Type ℓ} (id : SensorId) (xs ys : List (SensorId × A))
    → results_for id (xs ++ ys) ≡ results_for id xs + results_for id ys
results_for-append id [] ys = omega arith
results_for-append id ((j, r) ∷ xs) ys = omega (arith, results_for-append id xs ys)

-- A key that is in flight is the sensor itself.
abbrev pub Own : Dict SensorId SensorId → Type 0
Own m = (k v : SensorId) → lookup k m ≡ some v → v ≡ k

Own-insert : (id : SensorId) (m : Dict SensorId SensorId) → Own m → Own (insert id id m)
Own-insert id m o k v h = ground (arith, lookup-insert id k id m, text_beq_iff id k, o k v)

Own-remove : (id : SensorId) (m : Dict SensorId SensorId) → Own m → Own (remove id m)
Own-remove id m o k v h = ground (arith, lookup-remove id k m, o k v)

module _ {V : Type 0} (plan : List SensorId) (workers : ℕ) where
  -- Every sensor of the plan waits, is in flight, or has its result, once.
  pub record BatchOk (b : Batch V) : Type 0 where
    pub balance :
        (id : SensorId)
        → occurs id b.pending + sum_of (same id) b.in_flight + results_for id b.results
          ≡ occurs id plan
    pub unique : Unique b.in_flight
    pub own : Own b.in_flight
    pub few : sum_of (λ _. 1) b.in_flight ≤ workers

  if_busy-BatchOk :
      (b more : Batch V)
      → BatchOk b
      → BatchOk more
      → BatchOk (elim (b.in_flight) [ [] ↦ b | p ∷ ps ↦ more ])
  if_busy-BatchOk b more v w = elim (List-cases (b.in_flight)) [
    | inl idle ↦ simp idle v
    | inr (p, ps, busy) ↦ subst (λ m. BatchOk (elim m [ [] ↦ b | q ∷ qs ↦ more ])) (sym busy) w
  ]

  module _ (once : (id : SensorId) → occurs id plan ≤ 1) where
    pending-not_in_flight :
        (b : Batch V) (id : SensorId) (rest : List SensorId)
        → BatchOk b
        → b.pending ≡ id ∷ rest
        → lookup id b.in_flight ≡ none
    pending-not_in_flight b id rest v next = elim (Option-cases (lookup id b.in_flight)) [
      | inl absent ↦ absent
      | inr (x, found) ↦
          let itself : same id x ≡ 1 = ground (arith, text_beq_iff x id, v.own id x found) in
          let waits : occurs id b.pending ≡ same id id + occurs id rest = ap (occurs id) next in
          let one : same id id ≡ 1 = ground (arith, text_beq_iff id id) in
          absurd (
            omega (
              arith,
              sum_of-lookup (same id) id b.in_flight {w = x} found,
              v.balance id,
              once id,
              itself,
              waits,
              one,
            ))
    ]

    send_job-BatchOk :
        (works : Bool) (b : Batch V) (id : SensorId) (rest : List SensorId)
        → BatchOk b
        → b.pending ≡ id ∷ rest
        → suc (sum_of (λ _. 1) b.in_flight) ≤ workers
        → BatchOk (send_job works id rest b)
    unfolding send_job
    send_job-BatchOk true b id rest v next room =
        let absent = pending-not_in_flight b id rest v next in
        record {
          balance = λ j.
              let waits : occurs j b.pending ≡ same j id + occurs j rest = ap (occurs j) next in
              omega
                (arith, v.balance j, waits, sum_of-insert_new (same j) id id b.in_flight absent);
          unique = insert-Unique id id b.in_flight v.unique;
          own = Own-insert id b.in_flight v.own;
          few = omega (arith, sum_of-insert_new (λ _. 1) id id b.in_flight absent, room);
        }
    send_job-BatchOk false b id rest v next room = record {
      balance = λ j.
          let waits : occurs j b.pending ≡ same j id + occurs j rest = ap (occurs j) next in
          omega (
            arith,
            v.balance j,
            waits,
            results_for-append j b.results ((id, Sampled.err (timeout shut_down)) ∷ []),
          );
      unique = v.unique;
      own = v.own;
      few = v.few;
    }

    start_next-BatchOk :
        (sent : SensorId → Bool) (b : Batch V)
        → BatchOk b
        → suc (sum_of (λ _. 1) b.in_flight) ≤ workers
        → BatchOk (start_next sent b)
    unfolding start_next
    start_next-BatchOk sent b v room = elim (List-cases (b.pending)) [
      | inl empty ↦ simp (start_next, empty) v
      | inr (id, rest, next) ↦
          simp (start_next, next) (send_job-BatchOk (sent id) b id rest v next room)
    ]

    start_next-adds :
        (sent : SensorId → Bool) (b : Batch V)
        → BatchOk b
        → sum_of (λ _. 1) (start_next sent b).in_flight ≤ suc (sum_of (λ _. 1) b.in_flight)
    unfolding start_next send_job
    start_next-adds sent b v = elim (List-cases (b.pending)) [
      | inl empty ↦ simp (start_next, empty) (omega arith)
      | inr (id, rest, next) ↦ elim (Bool-cases (sent id)) [
        | inr closed ↦ simp (start_next, send_job, next, closed) (omega arith)
        | inl works ↦
            let absent = pending-not_in_flight b id rest v next in
            simp (start_next, send_job, next, works)
              (omega (arith, sum_of-insert_new (λ _. 1) id id b.in_flight absent))
      ]
    ]

    arrive-BatchOk :
        (sent : SensorId → Bool) (call_id : ℕ) (b : Batch V) (r : SamplingResult V)
        → BatchOk b
        → BatchOk (arrive sent call_id b r)
    unfolding arrive
    arrive-BatchOk sent call_id b r v = elim (Bool-cases (r.call_id == call_id)) [
      | inr stale ↦ simp (arrive, stale) v
      | inl current ↦ elim (Option-cases (lookup r.sensor b.in_flight)) [
        | inl unknown ↦ simp (arrive, current, unknown) v
        | inr (item, found) ↦
            simp (arrive, current, found)
              (start_next-BatchOk sent
                (record {
                  pending = b.pending;
                  in_flight = remove r.sensor b.in_flight;
                  results = b.results ++ (item, r.result) ∷ [];
                })
                (record {
                  balance = λ j. omega (
                    arith,
                    v.balance j,
                    sum_of-remove (same j) r.sensor b.in_flight {w = item} v.unique found,
                    results_for-append j b.results ((item, r.result) ∷ []),
                  );
                  unique = remove-Unique r.sensor b.in_flight v.unique;
                  own = Own-remove r.sensor b.in_flight v.own;
                  few = omega (
                    arith,
                    v.few,
                    sum_of-remove (λ _. 1) r.sensor b.in_flight {w = item} v.unique found,
                  );
                })
                (omega (
                  arith,
                  v.few,
                  sum_of-remove (λ _. 1) r.sensor b.in_flight {w = item} v.unique found,
                )))
      ]
    ]

    pub receive-BatchOk :
        (sent : SensorId → Bool) (call_id : ℕ) (rs : List (SamplingResult V)) (b : Batch V)
        → BatchOk b
        → BatchOk (receive sent call_id b rs)
    unfolding receive
    receive-BatchOk sent call_id [] b v = v
    receive-BatchOk sent call_id (r ∷ rs) b v =
        if_busy-BatchOk b (receive sent call_id (arrive sent call_id b r) rs) v (
          receive-BatchOk sent call_id rs (arrive sent call_id b r)
            (arrive-BatchOk sent call_id b r v))

    pub seed-BatchOk :
        (sent : SensorId → Bool) (n : ℕ) (b : Batch V)
        → BatchOk b
        → sum_of (λ _. 1) b.in_flight + n ≤ workers
        → BatchOk (seed sent n b)
    unfolding seed
    seed-BatchOk sent zero b v room = v
    seed-BatchOk sent (suc n) b v room =
        seed-BatchOk sent n (start_next sent b) (start_next-BatchOk sent b v (omega (arith, room)))
          (omega (arith, room, start_next-adds sent b v))
