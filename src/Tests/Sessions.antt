-- ===== src/Tests/Sessions.antt =====
-- A client that connects and subscribes.
use lin_sight.Base.{refl, none, some, arith, ◌≡◌, ◌≤◌, ℕ, false, [], ◌∷◌}
use lin_sight.Base.Keys.{text_beq, text_eq, nat_eq, pair_eq}
use lin_sight.Base.Dict.{lookup, insert, sum_of}
use lin_sight.Scheduler.Table.{Scheduler, Subscription, init, subscribe}
use lin_sight.Scheduler.Rate.{
  period_micros, effective_rate, clamped_rate_hz, requested_rate, settle,
}
use lin_sight.Scheduler.Counts.{holders}
use lin_sight.Session.{Session, fresh_session, subscribe_each}
use lin_sight.Session.Daemon.{
  Daemon, start, live, max_client_sessions, Reach, here, next, connects, subscribes,
}
use lin_sight.Session.Daemon.Invariant.{total, subscriptions_balanced}
use lin_sight.Tests.Fixtures.{Rate, rates, load, host, entry_of}

abbrev token : Subscription
token = record { sensor = load; period = 500_000 }

abbrev served : Scheduler Rate ℕ
served = record (start host).scheduler { entries = (load, entry_of false 500_000 0) ∷ [] }

abbrev subscriber : Session
subscriber = record { local = ((load, 500_000), token) ∷ []; pending = [] }

abbrev one_client : Daemon Rate ℕ
one_client = record { scheduler = (start host).scheduler; sessions = (9, fresh_session) ∷ [] }

abbrev busy : Daemon Rate ℕ
busy = record { scheduler = served; sessions = (9, subscriber) ∷ [] }

connected : Reach ℕ rates (start host) one_client
unfolding lookup insert sum_of
connected = next here (connects 9 refl (omega arith))

granted :
    subscribe_each rates none
      (record { scheduler = (start host).scheduler; local = []; degraded = [] })
      (load ∷ [])
    ≡ some (record { scheduler = served; local = subscriber.local; degraded = [] })
unfolding subscribe_each subscribe init text_beq period_micros effective_rate clamped_rate_hz
    requested_rate lookup insert settle
granted = refl

busy_reached : Reach ℕ rates (start host) busy
unfolding lookup insert
busy_reached = next connected (
    subscribes 9 fresh_session none (load ∷ [])
      (record { scheduler = served; local = subscriber.local; degraded = [] }) refl refl granted)

subscriptions_balanced_example :
    (holders load 500_000 busy.scheduler ≡ total load 500_000 busy.sessions)
    × (holders load 500_000 busy.scheduler ≤ live busy.sessions)
    × (live busy.sessions ≤ max_client_sessions)
subscriptions_balanced_example = subscriptions_balanced ℕ rates host load 500_000 busy_reached
