-- ===== src/Scheduler/Tick/Parking.antt =====
-- A static sensor is read once and then parked at the largest due time.
use lin_sight.Base.{
  ℕ, ◌+◌, ◌<◌, ◌≡◌, refl, true, false, List, [], ◌∷◌, ◌++◌, Option, none, some, arith,
  if◌then◌else◌, Bool-cases, inl, inr, u64_max, map, subst, sym, ◌∙◌, u32_mod,
}
use lin_sight.Base.Keys.{text_beq, text_eq, text_beq_iff, contains}
use lin_sight.Base.Dict.{Dict, lookup, insert, remove, lookup-insert, lookup-remove}
use lin_sight.Core.Samples.{SensorId, Sample}
use lin_sight.Scheduler.Rate.{Floats}
use lin_sight.Scheduler.Table.{
  Entry, Scheduler, Subscription, subscribed, subscribe, unsubscribe, left, left_with,
}
use lin_sight.Scheduler.Counts.{SchedulerOk, holders}
use lin_sight.Scheduler.Counts.Join.{subscribe_inv, subscribe-SchedulerOk}
use lin_sight.Scheduler.Counts.Leave.{unsubscribe_cases, unsubscribe-SchedulerOk}
use lin_sight.Scheduler.Periods.{Periods, leave}
use lin_sight.Scheduler.Tick.{Sampled, ok, err, PluginError, fail, tick_plan, tick_commit, succeed}
use lin_sight.Scheduler.Tick.Plan.{
  planned, tick_plan_exact, tick_plan-SchedulerOk, map_planned, is_due,
}
use lin_sight.Scheduler.Tick.Commit.{
  settled, settled_by, tick_commit_entry, tick_commit-SchedulerOk,
}

abbrev pub IsParked : Entry → Type 0
IsParked e = (e.is_static ≡ true) × (e.next_due ≡ u64_max)

abbrev ParkedIn : SensorId → Dict SensorId Entry → Type 0
ParkedIn id m = (e : Entry) → lookup id m ≡ some e → IsParked e

-- The entry of the sensor, if it has one, is static and at the largest due time.
abbrev pub Parked : {F V : Type 0} → SensorId → Scheduler F V → Type 0
Parked id s = ParkedIn id s.entries

insert-ParkedIn :
    (id k : SensorId) (x : Entry) (m : Dict SensorId Entry)
    → ParkedIn id m
    → (text_beq k id ≡ true → IsParked x)
    → ParkedIn id (insert k x m)
insert-ParkedIn id k x m parked new e found =
    let here : (if text_beq k id then some x else lookup id m) ≡ some e =
      rw (lookup-insert k id x m) at found in
    elim (Bool-cases (text_beq k id)) [
      | inl same ↦ let x_is_e : x ≡ e = ground arith in subst IsParked x_is_e (new same)
      | inr other ↦ parked e (ground arith)
    ]

remove-ParkedIn :
    (id k : SensorId) (m : Dict SensorId Entry) → ParkedIn id m → ParkedIn id (remove k m)
remove-ParkedIn id k m parked e found =
    let here : (if text_beq k id then none else lookup id m) ≡ some e =
      rw (lookup-remove k id m) at found in
    parked e (ground arith)

left_with-IsParked :
    (e e' : Entry) (m : Periods) → IsParked e → left_with e m ≡ some e' → IsParked e'
unfolding left_with
left_with-IsParked e e' [] parked h = absurd (cc)
left_with-IsParked e e' ((k, c) ∷ m) parked h = ground arith

left-IsParked : (p : ℕ) (e e' : Entry) → IsParked e → left p e ≡ some e' → IsParked e'
unfolding left
left-IsParked p e e' = left_with-IsParked e e' (leave p e.period_counts)

settled_by-other :
    {V : Type 0} (now : ℕ) (id : SensorId) (o : Option Entry)
    (results : List (SensorId × Sampled V))
    → contains id (map (λ r. r.0) results) ≡ false
    → settled_by now id o results ≡ o
unfolding settled_by contains
settled_by-other now id none results h = refl
settled_by-other now id (some e) [] h = refl
settled_by-other now id (some e) ((j, r) ∷ rs) h =
    ground (arith, settled_by-other now id (some e) rs)

planned-IsParked :
    (now : ℕ) (o : Option Entry) (e : Entry)
    → ((x : Entry) → o ≡ some x → IsParked x)
    → now < u64_max
    → map_planned now o ≡ some e
    → IsParked e
unfolding planned
planned-IsParked now none e parked early h = absurd (cc)
planned-IsParked now (some x) e parked early h = ground (arith, parked x refl)

unsubscribe-Parked :
    {F V : Type 0} (id : SensorId) (s : Scheduler F V) (sub : Subscription)
    → Parked id s
    → Parked id (unsubscribe s sub)
unsubscribe-Parked id s sub parked = elim (unsubscribe_cases s sub) [
  | inl (_, same) ↦ rw same parked
  | inr (inl (_, _, _, gone)) ↦ rw gone (remove-ParkedIn id sub.sensor s.entries parked)
  | inr (inr (x, x', found, stays, kept)) ↦ rw kept (
      insert-ParkedIn id sub.sensor x' s.entries parked (λ same.
        left-IsParked sub.period x x' (parked x (rw (← (text_beq_iff sub.sensor id).0 same) found))
          stays))
]

settled-is_static :
    {V : Type 0} (now : ℕ) (e : Entry) (r : Sampled V) → (settled now e r).is_static ≡ e.is_static
unfolding settled succeed fail
settled-is_static now e (ok sample) = refl
settled-is_static now e (err (PluginError.io _)) = refl
settled-is_static now e (err _) = refl

-- The last result of the sensor is a success.
read-IsParked :
    {V : Type 0} (id : SensorId) (now : ℕ) (sample : Sample V)
    (before after : List (SensorId × Sampled V)) (e x : Entry)
    → e.is_static ≡ true
    → contains id (map (λ r. r.0) after) ≡ false
    → settled_by now id (some e) (before ++ (id, ok sample) ∷ after) ≡ some x
    → IsParked x
unfolding settled_by settled succeed
read-IsParked id now sample [] after e x static last h =
    let rest = settled_by-other now id (some (succeed now e)) after last in
    ground (arith, text_beq_iff id id, rest)
read-IsParked id now sample ((j, r) ∷ before) after e x static last h =
    read-IsParked id now sample before after (if text_beq j id then settled now e r else e) x
      (ground (arith, settled-is_static now e r)) last h

parked_not_due :
    (now : ℕ) (o : Option Entry)
    → ((x : Entry) → o ≡ some x → IsParked x)
    → now < u64_max
    → is_due now o ≡ false
parked_not_due now none parked early = refl
parked_not_due now (some x) parked early = ground (arith, parked x refl)

module _ {F : Type 0} (V : Type 0) (f : Floats F) (id : SensorId) where
  -- What may happen to the table and to the sensors that are planned and not committed yet, without a
  -- new subscription of `id`, while the clock is below the largest due time. The sampler commits
  -- results of planned sensors only, in which any of them may have failed.
  pub data Quiet : Scheduler F V → List SensorId → Scheduler F V → List SensorId → Type 0 where
    plans :
        (s : Scheduler F V) (due : List SensorId) (now : ℕ)
        → now < u64_max
        → Quiet s due (tick_plan s now).1 (tick_plan s now).0
    commits :
        (s : Scheduler F V) (due : List SensorId) (now : ℕ) (results : List (SensorId × Sampled V))
        → ((j : SensorId) → contains j (map (λ r. r.0) results) ≡ true → contains j due ≡ true)
        → Quiet s due (tick_commit s results now).scheduler []
    leaves :
        (s : Scheduler F V) (due : List SensorId) (sub : Subscription)
        → Quiet s due (unsubscribe s sub) due
    joins :
        (s : Scheduler F V) (due : List SensorId) (other : SensorId) (rate : Option F)
        (sub : Subscription) {s' : Scheduler F V}
        → text_beq other id ≡ false
        → holders other sub.period s + 1 < u32_mod
        → subscribe f s other rate ≡ subscribed sub s'
        → Quiet s due s' due

  pub data Quietly (s : Scheduler F V) (due : List SensorId)
      : Scheduler F V → List SensorId → Type 0 where
    here : Quietly s due s due
    next :
        {t u : Scheduler F V} {planned_t planned_u : List SensorId}
        → Quietly s due t planned_t
        → Quiet t planned_t u planned_u
        → Quietly s due u planned_u

  -- The table is well formed, the sensor is parked, and it is not planned.
  abbrev AtRest : Scheduler F V → List SensorId → Type 0
  AtRest s due = SchedulerOk s × Parked id s × (contains id due ≡ false)

  Quiet-AtRest :
      {s t : Scheduler F V} {due due_after : List SensorId}
      → Quiet s due t due_after
      → AtRest s due
      → AtRest t due_after
  unfolding contains
  Quiet-AtRest (plans s due now early) (v, parked, idle) = (
    tick_plan-SchedulerOk s now v,
    λ e found.
        planned-IsParked now (lookup id s.entries) e parked early
          (rw (tick_plan_exact s now id v).1 at found),
    (tick_plan_exact s now id v).0 ∙ parked_not_due now (lookup id s.entries) parked early,
  )
  Quiet-AtRest (commits s due now results ran) (v, parked, idle) =
      let quiet : contains id (map (λ r. r.0) results) ≡ false =
        elim (Bool-cases (contains id (map (λ r. r.0) results))) [
          | inl some_result ↦ ground (arith, ran id some_result, idle)
          | inr quiet ↦ quiet
        ] in
      (
        tick_commit-SchedulerOk s results now v,
        λ e found.
            let kept =
              tick_commit_entry s results now id
              ∙ settled_by-other now id (lookup id s.entries) results quiet in
            parked e (rw kept at found),
        refl,
      )
  Quiet-AtRest (leaves s due sub) (v, parked, idle) =
      (unsubscribe-SchedulerOk s v sub, unsubscribe-Parked id s sub parked, idle)
  Quiet-AtRest (joins s due other rate sub another room granted) (v, parked, idle) =
      let (_, e, _, _, _, _, is_s) = subscribe_inv s f other rate granted in
      (
        subscribe-SchedulerOk s f other rate v granted room,
        rw is_s (insert-ParkedIn id other e s.entries parked (λ same. cc)),
        idle,
      )

  Quietly-AtRest :
      {s : Scheduler F V} {due : List SensorId} {t : Scheduler F V} {due_after : List SensorId}
      → AtRest s due
      → Quietly s due t due_after
      → AtRest t due_after
  Quietly-AtRest v here = v
  Quietly-AtRest v (next steps step) = Quiet-AtRest step (Quietly-AtRest v steps)

  -- A static sensor whose last result in a commit is a success stays out of every plan until somebody
  -- subscribes to it anew, while the clock is below the largest due time: whatever else the commit
  -- holds, and whatever is then subscribed to, given back, planned, and committed of what was planned.
  pub parked_stays :
      (s : Scheduler F V) (now : ℕ) (before after : List (SensorId × Sampled V)) (sample : Sample V)
      (e : Entry) {t : Scheduler F V} {due : List SensorId} (later : ℕ)
      → SchedulerOk s
      → lookup id s.entries ≡ some e
      → e.is_static ≡ true
      → contains id (map (λ r. r.0) after) ≡ false
      → Quietly (tick_commit s (before ++ (id, ok sample) ∷ after) now).scheduler [] t due
      → later < u64_max
      → contains id (tick_plan t later).0 ≡ false
  unfolding contains
  parked_stays s now before after sample e {t} later v found static last steps early =
      let read = tick_commit_entry s (before ++ (id, ok sample) ∷ after) now id in
      let (v', parked, _) =
        Quietly-AtRest
          (
            tick_commit-SchedulerOk s _ now v,
            λ x here.
                read-IsParked id now sample before after e x static last
                  (sym (rw found at read) ∙ here),
            refl,
          )
          steps in
      rw (tick_plan_exact t later id v').0 (parked_not_due later (lookup id t.entries) parked early)
