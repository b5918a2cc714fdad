-- ===== src/Workspace/Served.antt =====
-- apps/linsightd/src/transport/unix.rs: what the session of a connection holds, after what the daemon
-- was told on it. Other sessions and the sampler may change the scheduler between two messages.
use lin_sight.Base.{
  ℕ, ◌≡◌, refl, ap, sym, ◌∙◌, Bool, true, false, not, ◌&&◌, ◌||◌, List, [], ◌∷◌, ◌++◌, Option, none,
  some, arith, Bool-cases, Option-cases, inl, inr,
}
use lin_sight.Base.Keys.{text_eq, text_beq, text_beq_iff, nat_eq, pair_eq, contains}
use lin_sight.Base.Dict.{lookup, insert}
use lin_sight.Core.Samples.{SensorId}
use lin_sight.Scheduler.Rate.{Floats}
use lin_sight.Scheduler.Table.{
  Descriptor, Scheduler, Subscription, find_descriptor, subscribed, unknown, panicked,
  Subscribed-cases,
}
use lin_sight.Scheduler.Table
use lin_sight.Session.{
  Ledger, Session, Work, keep_token, subscribe_one, subscribe_each, take_sensor, take_sensors,
}

unfoldable pub in_ledger : SensorId → Ledger → Bool
in_ledger id [] = false
in_ledger id (((j, p), sub) ∷ m) = text_beq j id || in_ledger id m

in_ledger-insert :
    (id : SensorId) (p : ℕ) (sub : Subscription) (m : Ledger) (j : SensorId)
    → in_ledger j (insert (id, p) sub m) ≡ (text_beq id j || in_ledger j m)
unfolding in_ledger insert
in_ledger-insert id p sub [] j = refl
in_ledger-insert id p sub (((i, q), s) ∷ m) j =
    ground (arith, in_ledger-insert id p sub m j, text_beq_iff i id)

lookup-in_ledger :
    (id : SensorId) (p : ℕ) (sub : Subscription) (m : Ledger)
    → lookup (id, p) m ≡ some sub
    → in_ledger id m ≡ true
unfolding in_ledger lookup
lookup-in_ledger id p sub [] found = ground (arith, found)
lookup-in_ledger id p sub (((i, q), s) ∷ m) found =
    ground (arith, found, lookup-in_ledger id p sub m)

in_ledger-take_sensor :
    (id : SensorId) (m : Ledger) (j : SensorId)
    → in_ledger j (take_sensor id m).1 ≡ (not (text_beq id j) && in_ledger j m)
unfolding in_ledger take_sensor
in_ledger-take_sensor id [] j = ground arith
in_ledger-take_sensor id (((i, p), sub) ∷ m) j = elim (Bool-cases (text_beq i id)) [
  | inl same ↦ rw same (ground (arith, in_ledger-take_sensor id m j, text_beq_iff i id, same))
  | inr other ↦ rw other (
      ground (
        arith,
        in_ledger-take_sensor id m j,
        text_beq_iff i j,
        text_beq_iff id j,
        text_beq_iff i id,
        other,
      ))
]

pub in_ledger-take_sensors :
    (se : Session) (ids : List SensorId) (j : SensorId)
    → in_ledger j (take_sensors se ids).local ≡ (not (contains j ids) && in_ledger j se.local)
unfolding take_sensors contains
in_ledger-take_sensors se [] j = refl
in_ledger-take_sensors se (id ∷ ids) j =
    let taken = take_sensor id se.local in
    in_ledger-take_sensors (record { local = taken.1; pending = se.pending ++ taken.0 }) ids j
    ∙ ap (λ b. not (contains j ids) && b) (in_ledger-take_sensor id se.local j)
    ∙ ground arith

module _ {F V : Type 0} where
  -- Whether the daemon has the sensor.
  unfoldable pub known : SensorId → List (Descriptor F V) → Bool
  unfolding find_descriptor
  known id host = elim (find_descriptor id host) [ none ↦ false | some d ↦ true ]

  unsubscribe-host :
      (s : Scheduler F V) (sub : Subscription)
      → (lin_sight.Scheduler.Table.unsubscribe s sub).host ≡ s.host
  unfolding lin_sight.Scheduler.Table.unsubscribe
  unsubscribe-host s sub = ground arith

  keep_token-host :
      (w : Work F V) (id : SensorId) (sub : Subscription) (s : Scheduler F V)
      → (keep_token w id sub s).scheduler.host ≡ s.host
  unfolding keep_token
  keep_token-host w id sub s = elim (Option-cases (lookup (id, sub.period) w.local)) [
    | inl fresh ↦ simp (keep_token, fresh) refl
    | inr (old, twice) ↦ simp (keep_token, twice) (unsubscribe-host s sub)
  ]

  in_ledger-keep_token :
      (w : Work F V) (id : SensorId) (sub : Subscription) (s : Scheduler F V) (j : SensorId)
      → in_ledger j (keep_token w id sub s).local ≡ (text_beq id j || in_ledger j w.local)
  unfolding keep_token
  in_ledger-keep_token w id sub s j = elim (Option-cases (lookup (id, sub.period) w.local)) [
    | inl fresh ↦ simp (keep_token, fresh) (in_ledger-insert id sub.period sub w.local j)
    | inr (old, twice) ↦
        simp (keep_token, twice)
          (ground (arith, lookup-in_ledger id sub.period old w.local twice, text_beq_iff id j))
  ]

  subscribe-host :
      (f : Floats F) (s s' : Scheduler F V) (id : SensorId) (rate : Option F) (sub : Subscription)
      → lin_sight.Scheduler.Table.subscribe f s id rate ≡ subscribed sub s'
      → (s'.host ≡ s.host) × (known id s.host ≡ true)
  unfolding lin_sight.Scheduler.Table.subscribe lin_sight.Scheduler.Table.subscribe_at known
  subscribe-host f s s' id rate sub done = ground (arith, done)

  subscribe-unknown :
      (f : Floats F) (s : Scheduler F V) (id j : SensorId) (rate : Option F)
      → lin_sight.Scheduler.Table.subscribe f s id rate ≡ unknown j
      → known id s.host ≡ false
  unfolding lin_sight.Scheduler.Table.subscribe lin_sight.Scheduler.Table.subscribe_at known
  subscribe-unknown f s id j rate done = ground (arith, done)

  -- The sensors that are taken up are those asked for that the daemon has.
  abbrev pub Took : List SensorId → Work F V → Work F V → Type 0
  Took ids w w' =
      (w'.scheduler.host ≡ w.scheduler.host)
      × ((j : SensorId)
          → in_ledger j w'.local
            ≡ ((contains j ids && known j w.scheduler.host) || in_ledger j w.local))

  subscribe_one-Took :
      (f : Floats F) (rate : Option F) (w w' : Work F V) (id : SensorId)
      → subscribe_one f rate w id ≡ some w'
      → Took (id ∷ []) w w'
  unfolding subscribe_one contains
  subscribe_one-Took f rate w w' id done =
      elim (Subscribed-cases (lin_sight.Scheduler.Table.subscribe f w.scheduler id rate)) [
        | inl (i, refused) ↦
            let same : record w { degraded = w.degraded ++ id ∷ [] } ≡ w' =
              ground (arith, simp (subscribe_one, refused) at done) in
            let absent = subscribe-unknown f w.scheduler id i rate refused in
            (
              ap (λ (v : Work F V). v.scheduler.host) (sym same),
              λ j.
                  ap (λ (v : Work F V). in_ledger j v.local) (sym same)
                  ∙ ground (arith, absent, text_beq_iff id j),
            )
        | inr (inl broken) ↦ ground (arith, simp (subscribe_one, broken) at done)
        | inr (inr (sub, s, granted)) ↦
            let same : keep_token w id sub s ≡ w' =
              ground (arith, simp (subscribe_one, granted) at done) in
            let has = subscribe-host f w.scheduler s id rate sub granted in
            (
              ap (λ (v : Work F V). v.scheduler.host) (sym same)
                  ∙ keep_token-host w id sub s
                  ∙ has.0,
              λ j.
                  ap (λ (v : Work F V). in_ledger j v.local) (sym same)
                  ∙ in_ledger-keep_token w id sub s j
                  ∙ ground (arith, has.1, text_beq_iff id j),
            )
      ]

  pub subscribe_each-Took :
      (f : Floats F) (rate : Option F) (w w' : Work F V) (ids : List SensorId)
      → subscribe_each f rate w ids ≡ some w'
      → Took ids w w'
  unfolding subscribe_each contains
  subscribe_each-Took f rate w w' [] done =
      let same : w ≡ w' = ground (arith, done) in
      (
        ap (λ (v : Work F V). v.scheduler.host) (sym same),
        λ j. ap (λ (v : Work F V). in_ledger j v.local) (sym same),
      )
  subscribe_each-Took f rate w w' (id ∷ ids) done =
      elim (Option-cases (subscribe_one f rate w id)) [
        | inl broken ↦ ground (arith, simp (subscribe_each, broken) at done)
        | inr (v, went) ↦
            let one = subscribe_one-Took f rate w v id went in
            let each =
              subscribe_each-Took f rate v w' ids (sym (simp (subscribe_each, went) refl) ∙ done) in
            (
              each.0 ∙ one.0,
              λ j.
                  each.1 j
                  ∙ ap (λ host. (contains j ids && known j host) || in_ledger j v.local) one.0
                  ∙ ap (λ b. (contains j ids && known j w.scheduler.host) || b) (one.1 j)
                  ∙ ground arith,
            )
      ]
