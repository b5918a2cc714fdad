-- ===== src/Session.antt =====
-- apps/linsightd/src/transport/unix.rs: what a client's session does to the shared scheduler. Each
-- definition is one critical section of `serve`: what it does under the locks that it holds.
pub mod Ledger
pub mod Balance
pub mod Daemon
use lin_sight.Base.{ℕ, ◌≡◌, Bool, List, [], ◌∷◌, ◌++◌, Option, none, some, if◌then◌else◌}
use lin_sight.Base.Keys.{text_beq, text_eq, nat_eq, pair_eq}
use lin_sight.Base.Dict.{Dict, lookup, insert}
use lin_sight.Base.Partial.{◌>>=◌}
use lin_sight.Core.Samples.{SensorId}
use lin_sight.Scheduler.Rate.{Floats}
use lin_sight.Scheduler.Table.{
  Scheduler, Subscription, subscribed, unknown, panicked, subscribe, unsubscribe,
}

-- `ClientSubscriptions`
abbrev pub Ledger : Type 0
Ledger = Dict (SensorId × ℕ) Subscription

-- `pending` is the `removed` of an `Unsubscribe` or of the end of the session: the subscriptions
-- that are out of the ledger and not yet given back to the scheduler.
pub record Session : Type 0 where
  pub local : Ledger
  pub pending : List Subscription

abbrev pub fresh_session : Session
fresh_session = record { local = []; pending = [] }

-- The state of a `Subscribe` message on its way: `degraded` are the sensors that were refused.
pub record Work (F V : Type 0) : Type 0 where
  pub scheduler : Scheduler F V
  pub local : Ledger
  pub degraded : List SensorId

module _ {F V : Type 0} where
  -- The token is kept, or given back at once if the ledger has it.
  unfoldable pub keep_token : Work F V → SensorId → Subscription → Scheduler F V → Work F V
  keep_token w id sub s = elim (lookup (id, sub.period) w.local) [
    | none ↦ record w { scheduler = s; local = insert (id, sub.period) sub w.local }
    | some _ ↦ record w { scheduler = unsubscribe s sub }
  ]

  -- One sensor of a `Subscribe`; `none` is a panic.
  unfoldable pub subscribe_one : Floats F → Option F → Work F V → SensorId → Option (Work F V)
  unfolding keep_token
  subscribe_one f rate_hz w id = elim (subscribe f w.scheduler id rate_hz) [
    | unknown _ ↦ some (record w { degraded = w.degraded ++ id ∷ [] })
    | panicked ↦ none
    | subscribed sub s ↦ some (keep_token w id sub s)
  ]

  unfoldable pub subscribe_each : Floats F → Option F → Work F V → List SensorId → Option (Work F V)
  unfolding subscribe_one
  subscribe_each f rate_hz w [] = some w
  subscribe_each f rate_hz w (id ∷ ids) = do
    w' ← subscribe_one f rate_hz w id
    subscribe_each f rate_hz w' ids

  -- `for subscription in &removed { s.unsubscribe(subscription) }`
  unfoldable pub release : Scheduler F V → List Subscription → Scheduler F V
  release s [] = s
  release s (sub ∷ subs) = release (unsubscribe s sub) subs

-- The tokens of one sensor, and the ledger without them.
unfoldable pub take_sensor : SensorId → Ledger → List Subscription × Ledger
take_sensor id [] = ([], [])
take_sensor id (((j, p), sub) ∷ m) =
    let (taken, rest) = take_sensor id m in
    if text_beq j id then (sub ∷ taken, rest) else (taken, ((j, p), sub) ∷ rest)

-- An `Unsubscribe`, under the lock of the ledger.
unfoldable pub take_sensors : Session → List SensorId → Session
unfolding take_sensor
take_sensors se [] = se
take_sensors se (id ∷ ids) =
    let (taken, rest) = take_sensor id se.local in
    take_sensors (record { local = rest; pending = se.pending ++ taken }) ids

unfoldable pub tokens : Ledger → List Subscription
tokens [] = []
tokens ((key, sub) ∷ m) = sub ∷ tokens m

-- The end of a session drains its ledger.
unfoldable pub drain : Session → Session
unfolding tokens
drain se = record { local = []; pending = se.pending ++ tokens se.local }
