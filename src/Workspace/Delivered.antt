-- ===== src/Workspace/Delivered.antt =====
-- The desktop application and its daemon together: what the session of the connection holds.
use lin_sight.Base.{
  ℕ, ◌≡◌, refl, ap, ◌∙◌, false, not, ◌&&◌, ◌||◌, List, [], ◌∷◌, Option, some, Text, arith,
}
use lin_sight.Base.Keys.{text_eq, contains}
use lin_sight.Core.Samples.{SensorId}
use lin_sight.Messages.{ClientMsg, list_sensors, subscribe, unsubscribe, request, RequestOp}
use lin_sight.Scheduler.Rate.{Floats}
use lin_sight.Scheduler.Table.{Descriptor}
use lin_sight.Session.{Ledger, Session, Work, subscribe_each, take_sensors}
use lin_sight.Workspace.{new}
use lin_sight.Workspace.Replay.{heard}
use lin_sight.Workspace.Commands.{Command, run_all, Undisturbed, run_all-Current}
use lin_sight.Workspace.Served.{in_ledger, known, subscribe_each-Took, in_ledger-take_sensors}

module _ {F V : Type 0} (f : Floats F) (host : List (Descriptor F V)) where
  -- The ledgers that a session can have after the messages, the latest first. A subscription meets
  -- whatever the other sessions and the sampler left in the scheduler, whose host stays the same.
  pub data Serves : List (ClientMsg F) → Ledger → Type 0 where
    greets : Serves [] []
    takes_up :
        {ms : List (ClientMsg F)} (w w' : Work F V) (rate_hz : Option F) (ids : List SensorId)
        → Serves ms w.local
        → w.scheduler.host ≡ host
        → subscribe_each f rate_hz w ids ≡ some w'
        → Serves (subscribe ids rate_hz ∷ ms) w'.local
    gives_back :
        {ms : List (ClientMsg F)} (se : Session) (ids : List SensorId)
        → Serves ms se.local
        → Serves (unsubscribe ids ∷ ms) (take_sensors se ids).local
    lists : {ms : List (ClientMsg F)} {m : Ledger} → Serves ms m → Serves (list_sensors ∷ ms) m
    answers :
        {ms : List (ClientMsg F)} {m : Ledger} (req_id : ℕ) (op : RequestOp)
        → Serves ms m
        → Serves (request req_id op ∷ ms) m

  in_ledger-heard :
      {ms : List (ClientMsg F)} {m : Ledger}
      → Serves ms m
      → (id : SensorId) → in_ledger id m ≡ (heard id ms && known id host)
  unfolding in_ledger
  in_ledger-heard greets id = refl
  in_ledger-heard (takes_up w w' rate_hz ids before same went) id =
      let took = subscribe_each-Took f rate_hz w w' ids went in
      took.1 id
      ∙ ap (λ h. (contains id ids && known id h) || in_ledger id w.local) same
      ∙ ap (λ b. (contains id ids && known id host) || b) (in_ledger-heard before id)
      ∙ ground arith
  in_ledger-heard (gives_back se ids before) id =
      in_ledger-take_sensors se ids id
      ∙ ap (λ b. not (contains id ids) && b) (in_ledger-heard before id)
      ∙ ground arith
  in_ledger-heard (lists before) id = in_ledger-heard before id
  in_ledger-heard (answers req_id op before) id = in_ledger-heard before id

  -- After whatever the application did since it started, operation by operation, failed writes and
  -- reconnects included, if nothing changed what is remembered between the replay of a reconnect and
  -- its commit: the session of a connection on which no write failed, once the daemon has taken in
  -- all that it was told, holds a token of exactly those remembered sensors that the daemon has.
  pub remembered_is_held :
      (target : Text) (cs : List Command) (m : Ledger)
      → Undisturbed {F = F} cs (new target)
      → (run_all {F = F} cs (new target)).client.failed ≡ false
      → Serves (run_all cs (new target)).client.told m
      → (id : SensorId)
      → in_ledger id m
        ≡ (contains id (run_all {F = F} cs (new target)).subscriptions && known id host)
  unfolding new contains
  remembered_is_held target cs m quiet up served id =
      in_ledger-heard served id
      ∙ ap (λ b. b && known id host)
          ((run_all-Current cs (new target) quiet
              (λ up' id'. refl, λ a h. absurd (ground (arith, h)))).0
            up id)
