-- ===== src/Session/Daemon/Invariant.antt =====
-- The scheduler's counts are what the sessions hold, after any course of events.
use lin_sight.Base.{
  ℕ, ◌+◌, ◌-◌, ◌≤◌, ◌<◌, ◌≡◌, refl, ◌∙◌, List, [], ◌∷◌, Option, none, some, arith, Option-cases,
  inl, inr, All, u32_mod,
}
use lin_sight.Base.Keys.{nat_eq, text_eq}
use lin_sight.Base.Dict.{
  Dict, lookup, insert, Unique, sum_of, sum_of-insert, sum_of-insert_new, sum_of-remove,
  sum_of-lookup, insert-All, remove-All, lookup-All, insert-Unique, remove-Unique,
}
use lin_sight.Core.Samples.{SensorId}
use lin_sight.Scheduler.Rate.{Floats}
use lin_sight.Scheduler.Table.{Scheduler, Descriptor, Entry, init}
use lin_sight.Scheduler.Periods.{first_key-held}
use lin_sight.Scheduler.Counts.{SchedulerOk, EntryOk, holders, table_count, entry_count}
use lin_sight.Scheduler.Tick.Plan.{tick_plan-SchedulerOk, tick_plan-holders}
use lin_sight.Scheduler.Tick.Commit.{tick_commit-SchedulerOk, tick_commit-holders}
use lin_sight.Session.{Session, Work, fresh_session, subscribe_each, take_sensors, drain, release}
use lin_sight.Session.Ledger.{stake, held, owed, LedgerOk, take_sensors-stake, drain-stake}
use lin_sight.Session.Balance.{subscribe_each-WorkOk, release-SchedulerOk, release-holders}
use lin_sight.Session.Daemon.{
  Daemon, start, live, Step, connects, subscribes, takes, drains, releases, ends, plans, commits,
  Reach, here, next, max_client_sessions,
}

-- A session holds at most one subscription at a sensor and a period.
abbrev pub SessionOk : Session → Type 0
SessionOk se = LedgerOk se.local × ((j : SensorId) (q : ℕ) → stake j q se ≤ 1)

-- What all the sessions hold at a sensor and a period.
abbrev pub total : SensorId → ℕ → Dict ℕ Session → ℕ
total j q = sum_of (stake j q)

pub record DaemonOk {F V : Type 0} (d : Daemon F V) : Type 0 where
  pub scheduler_ok : SchedulerOk d.scheduler
  pub unique : Unique d.sessions
  pub each : All (λ p. SessionOk p.1) d.sessions
  pub capped : live d.sessions ≤ max_client_sessions
  pub balanced : (j : SensorId) (q : ℕ) → holders j q d.scheduler ≡ total j q d.sessions

total-le-live :
    (j : SensorId) (q : ℕ) (m : Dict ℕ Session) → All (λ p. SessionOk p.1) m → total j q m ≤ live m
unfolding sum_of
total-le-live j q [] v = omega arith
total-le-live j q ((c, se) ∷ m) v = omega (arith, v.0.1 j q, total-le-live j q m v.1)

module _ {F V : Type 0} {d : Daemon F V} (v : DaemonOk d) (c : ℕ) {se : Session}
    (found : lookup c d.sessions ≡ some se) where
  session_ok : SessionOk se
  session_ok = lookup-All SessionOk c d.sessions v.each found

  others : SensorId → ℕ → ℕ
  others j q = total j q d.sessions - stake j q se

  others-few : (j : SensorId) (q : ℕ) → others j q + 2 < u32_mod
  unfolding others
  others-few j q = omega (arith, total-le-live j q d.sessions v.each, v.capped)

  -- One session moves to another state, and the scheduler with it.
  move_session :
      (s' : Scheduler F V) (se' : Session)
      → SchedulerOk s'
      → SessionOk se'
      → ((j : SensorId) (q : ℕ) → holders j q s' ≡ stake j q se' + others j q)
      → DaemonOk (record { scheduler = s'; sessions = insert c se' d.sessions })
  unfolding others
  move_session s' se' ok ok' counts = record {
    scheduler_ok = ok;
    unique = insert-Unique c se' d.sessions v.unique;
    each = insert-All (λ p. SessionOk p.1) c se' d.sessions v.each ok';
    capped = omega (arith, v.capped, sum_of-insert (λ _. 1) c se' d.sessions found);
    balanced = λ j q. omega (
      arith,
      counts j q,
      sum_of-insert (stake j q) c se' d.sessions found,
      sum_of-lookup (stake j q) c d.sessions found,
    );
  }

  held_by : (j : SensorId) (q : ℕ) → holders j q d.scheduler ≡ stake j q se + others j q
  unfolding others
  held_by j q = omega (arith, v.balanced j q, sum_of-lookup (stake j q) c d.sessions found)

fresh-SessionOk : SessionOk fresh_session
unfolding held owed
fresh-SessionOk = (tt, λ j q. omega arith)

fresh-stake : (j : SensorId) (q : ℕ) → stake j q fresh_session ≡ 0
unfolding held owed
fresh-stake j q = refl

drain-LedgerOk : (se : Session) → LedgerOk (drain se).local
unfolding drain
drain-LedgerOk se = tt

module _ {F : Type 0} (V : Type 0) (f : Floats F) where
  connect-DaemonOk :
      (d : Daemon F V) (c : ℕ)
      → lookup c d.sessions ≡ none
      → live d.sessions < max_client_sessions
      → DaemonOk d
      → DaemonOk (record d { sessions = insert c fresh_session d.sessions })
  connect-DaemonOk d c new below v = record {
    scheduler_ok = v.scheduler_ok;
    unique = insert-Unique c fresh_session d.sessions v.unique;
    each = insert-All (λ p. SessionOk p.1) c fresh_session d.sessions v.each fresh-SessionOk;
    capped = omega (arith, sum_of-insert_new (λ _. 1) c fresh_session d.sessions new);
    balanced = λ j q. omega (
      arith,
      v.balanced j q,
      sum_of-insert_new (stake j q) c fresh_session d.sessions new,
      fresh-stake j q,
    );
  }

  subscribe-DaemonOk :
      (d : Daemon F V) (c : ℕ) (se : Session) (rate : Option F) (sensors : List SensorId)
      (w : Work F V)
      → lookup c d.sessions ≡ some se
      → se.pending ≡ []
      → subscribe_each f rate
          (record { scheduler = d.scheduler; local = se.local; degraded = [] })
          sensors
        ≡ some w
      → DaemonOk d
      → DaemonOk (record {
        scheduler = w.scheduler;
        sessions = insert c (record se { local = w.local }) d.sessions;
      })
  unfolding owed
  subscribe-DaemonOk d c se rate sensors w found idle done v =
      let ok = session_ok v c found in
      let nothing_owed : (j : SensorId) (q : ℕ) → owed j q se.pending ≡ 0 = λ j q. rw idle in
      let w_ok =
        subscribe_each-WorkOk f rate (others v c found) (others-few v c found) sensors _
          (record {
            scheduler_ok = v.scheduler_ok;
            ledger_ok = ok.0;
            once = λ j q. omega (arith, ok.1 j q);
            balanced = λ j q. omega (arith, held_by v c found j q, nothing_owed j q);
          })
          done in
      move_session v c found w.scheduler (record se { local = w.local }) w_ok.scheduler_ok
        (w_ok.ledger_ok, λ j q. omega (arith, w_ok.once j q, nothing_owed j q))
        (λ j q. omega (arith, w_ok.balanced j q, nothing_owed j q))

  Step-DaemonOk : {d e : Daemon F V} → Step V f d e → DaemonOk d → DaemonOk e
  Step-DaemonOk {d} (connects c new below) v = connect-DaemonOk d c new below v
  Step-DaemonOk {d} (subscribes c se rate sensors w found idle done) v =
      subscribe-DaemonOk d c se rate sensors w found idle done v
  Step-DaemonOk {d} (takes c se sensors found) v =
      let (ok, same) = take_sensors-stake se sensors (session_ok v c found).0 in
      move_session v c found d.scheduler (take_sensors se sensors) v.scheduler_ok
        (ok, λ j q. omega (arith, same j q, (session_ok v c found).1 j q))
        (λ j q. omega (arith, held_by v c found j q, same j q))
  Step-DaemonOk {d} (drains c se found) v =
      move_session v c found d.scheduler (drain se) v.scheduler_ok
        (
          drain-LedgerOk se,
          λ j q.
              omega
                (arith, drain-stake se j q (session_ok v c found).0, (session_ok v c found).1 j q),
        )
        (λ j q. omega (arith, held_by v c found j q, drain-stake se j q (session_ok v c found).0))
  Step-DaemonOk {d} (releases c se found) v =
      move_session v c found (release d.scheduler se.pending) (record se { pending = [] })
        (release-SchedulerOk d.scheduler se.pending v.scheduler_ok)
        (
          (session_ok v c found).0,
          λ j q. unfold owed in omega (arith, (session_ok v c found).1 j q),
        )
        (λ j q.
          unfold owed in
          omega (
            arith,
            held_by v c found j q,
            release-holders d.scheduler se.pending j q v.scheduler_ok,
          ))
  Step-DaemonOk {d} (ends c found) v = record {
    scheduler_ok = v.scheduler_ok;
    unique = remove-Unique c d.sessions v.unique;
    each = remove-All (λ p. SessionOk p.1) c d.sessions v.each;
    capped = omega (arith, v.capped, sum_of-remove (λ _. 1) c d.sessions v.unique found);
    balanced = λ j q. omega (
      arith,
      v.balanced j q,
      sum_of-remove (stake j q) c d.sessions v.unique found,
      fresh-stake j q,
    );
  }
  Step-DaemonOk {d} (plans now) v = record {
    scheduler_ok = tick_plan-SchedulerOk d.scheduler now v.scheduler_ok;
    unique = v.unique;
    each = v.each;
    capped = v.capped;
    balanced = λ j q. tick_plan-holders d.scheduler now j q ∙ v.balanced j q;
  }
  Step-DaemonOk {d} (commits results now) v = record {
    scheduler_ok = tick_commit-SchedulerOk d.scheduler results now v.scheduler_ok;
    unique = v.unique;
    each = v.each;
    capped = v.capped;
    balanced = λ j q. tick_commit-holders d.scheduler results now j q ∙ v.balanced j q;
  }

  start-DaemonOk : (host : List (Descriptor F V)) → DaemonOk (start host)
  unfolding init table_count entry_count lookup sum_of
  start-DaemonOk host = record {
    scheduler_ok = (tt, tt);
    unique = tt;
    each = tt;
    capped = omega arith;
    balanced = λ j q. refl;
  }

  Reach-DaemonOk : {d e : Daemon F V} → DaemonOk d → Reach V f d e → DaemonOk e
  Reach-DaemonOk v here = v
  Reach-DaemonOk v (next steps step) = Step-DaemonOk step (Reach-DaemonOk v steps)

  -- After any course of connections, messages, disconnections and sampler ticks the scheduler
  -- counts, at each sensor and period, exactly the subscriptions that the sessions hold: those
  -- in the ledgers and those on their way back. These are at most as many as the sessions, of
  -- which there are at most 64.
  pub subscriptions_balanced :
      (host : List (Descriptor F V)) {d : Daemon F V} (j : SensorId) (q : ℕ)
      → Reach V f (start host) d
      → (holders j q d.scheduler ≡ total j q d.sessions)
        × (holders j q d.scheduler ≤ live d.sessions)
        × (live d.sessions ≤ max_client_sessions)
  subscriptions_balanced host {d} j q steps =
      let v = Reach-DaemonOk (start-DaemonOk host) steps in
      (v.balanced j q, omega (arith, v.balanced j q, total-le-live j q d.sessions v.each), v.capped)

  entry_held :
      (d : Daemon F V) (id : SensorId) {e : Entry}
      → DaemonOk d
      → lookup id d.scheduler.entries ≡ some e
      → 0 < total id e.period d.sessions
  unfolding table_count entry_count
  entry_held d id {e} v found =
      let ok = lookup-All EntryOk id d.scheduler.entries v.scheduler_ok.0 found in
      let counted = first_key-held 0 e.period_counts ok.counted ok.shortest in
      let same = v.balanced id e.period in rw (← same, found, table_count, entry_count) counted

  -- A sensor that is scheduled has a session that subscribes to it at its period.
  pub scheduled_is_held :
      (host : List (Descriptor F V)) {d : Daemon F V} (id : SensorId) {e : Entry}
      → Reach V f (start host) d
      → lookup id d.scheduler.entries ≡ some e
      → 0 < total id e.period d.sessions
  scheduled_is_held host {d} id steps found =
      entry_held d id (Reach-DaemonOk (start-DaemonOk host) steps) found

  -- Once the last session is gone no sensor is scheduled.
  pub idle_when_alone :
      (host : List (Descriptor F V)) {d : Daemon F V} (id : SensorId)
      → Reach V f (start host) d
      → d.sessions ≡ []
      → lookup id d.scheduler.entries ≡ none
  unfolding sum_of
  idle_when_alone host {d} id steps alone = elim (Option-cases (lookup id d.scheduler.entries)) [
    | inl absent ↦ absent
    | inr (e, found) ↦
        let held = scheduled_is_held host id steps found in absurd (ground (arith, held))
  ]
