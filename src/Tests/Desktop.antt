-- ===== src/Tests/Desktop.antt =====
-- The desktop application over two connections, the first of which breaks.
use lin_sight.Base.{
  ℕ, ◌+◌, ◌<◌, refl, none, some, arith, ◌≡◌, ◌&&◌, true, false, List, [], ◌∷◌, Text, codes,
}
use lin_sight.Base.Keys.{text_eq, text_beq, nat_eq, pair_eq, contains}
use lin_sight.Base.Dict.{lookup, insert}
use lin_sight.Core.Chars.{strip_prefix}
use lin_sight.Messages.{ClientMsg, subscribe, unsubscribe, request, set_pump_interval_ms}
use lin_sight.Scheduler.Table
use lin_sight.Scheduler.Table.{Scheduler, init}
use lin_sight.Scheduler.Rate.{
  period_micros, effective_rate, clamped_rate_hz, requested_rate, settle,
}
use lin_sight.Session.{Session, Work, subscribe_each, take_sensors}
use lin_sight.Session.Daemon.{start}
use lin_sight.Workspace.{
  Workspace, new, supported, remember, forget, write_client, send_frame, subscribe_sensors,
  unsubscribe_sensors, set_pump_interval, send_keepalive, replay_subscriptions, replay_pump,
  replayed, begin_reconnect, commit_reconnect, forwarder_ends,
}
use lin_sight.Workspace.Commands.{
  Command, subscribes, unsubscribes, sets_pump, keeps_alive, begins_reconnect, commits_reconnect,
  forwarder_stops, run_all, Undisturbed,
}
use lin_sight.Workspace.Supervised.{longest_silence, longest_silence_bounded}
use lin_sight.Workspace.Served.{in_ledger, known}
use lin_sight.Workspace.Delivered.{greets, takes_up, gives_back, answers, remembered_is_held}
use lin_sight.Tests.Fixtures.{Rate, rates, load, host, entry_of}

abbrev gone : Text
gone = codes "gone"

abbrev course : List Command
course =
    subscribes true (load ∷ gone ∷ [])
    ∷ sets_pump true 7 200 (some 200)
    ∷ keeps_alive false
    ∷ forwarder_stops 1
    ∷ begins_reconnect false true true none (codes "local")
    ∷ begins_reconnect true true true (some 200) (codes "local")
    ∷ commits_reconnect
    ∷ unsubscribes true (gone ∷ [])
    ∷ []

abbrev after : Workspace Rate
after = run_all course (new (codes "local"))

abbrev offered : Work Rate ℕ
offered = record { scheduler = (start host).scheduler; local = []; degraded = [] }

abbrev taken : Work Rate ℕ
taken = record {
  scheduler = record (start host).scheduler { entries = (load, entry_of false 500_000 0) ∷ [] };
  local = ((load, 500_000), record { sensor = load; period = 500_000 }) ∷ [];
  degraded = gone ∷ [];
}

offer_taken : subscribe_each rates none offered (load ∷ gone ∷ []) ≡ some taken
unfolding subscribe_each lin_sight.Scheduler.Table.subscribe init text_beq period_micros
    effective_rate clamped_rate_hz requested_rate lookup insert settle
offer_taken = refl

abbrev session : Session
session = record { local = taken.local; pending = [] }

told :
    after.client.told
    ≡ unsubscribe (gone ∷ [])
      ∷ request 1 (set_pump_interval_ms 200)
      ∷ subscribe (load ∷ gone ∷ []) none
      ∷ []
unfolding new supported remember forget write_client send_frame subscribe_sensors
    unsubscribe_sensors set_pump_interval send_keepalive replay_subscriptions replay_pump replayed
    begin_reconnect commit_reconnect forwarder_ends strip_prefix text_beq contains
told = refl

course-Undisturbed : Undisturbed {F = Rate} course (new (codes "local"))
unfolding new supported remember forget write_client send_frame subscribe_sensors
    unsubscribe_sensors set_pump_interval send_keepalive replay_subscriptions replay_pump replayed
    begin_reconnect commit_reconnect forwarder_ends strip_prefix text_beq contains
course-Undisturbed = (
  λ h. refl,
  (
    λ h. absurd (ground (arith, h)),
    (
      λ h. absurd (ground (arith, h)),
      (
        λ h. absurd (ground (arith, h)),
        (
          λ h. absurd (ground (arith, h)),
          (λ h. absurd (ground (arith, h)), (λ h. absurd (ground (arith, h)), (λ h. refl, tt))),
        ),
      ),
    ),
  ),
)

remembered_is_held_example :
    in_ledger load (take_sensors session (gone ∷ [])).local
    ≡ (contains load after.subscriptions && known load host)
unfolding new supported remember forget write_client send_frame subscribe_sensors
    unsubscribe_sensors set_pump_interval send_keepalive replay_subscriptions replay_pump replayed
    begin_reconnect commit_reconnect forwarder_ends strip_prefix text_beq contains init
remembered_is_held_example =
    remembered_is_held rates host (codes "local") course (take_sensors session (gone ∷ [])).local
      course-Undisturbed refl
      (gives_back session (gone ∷ []) (
        answers 1 (set_pump_interval_ms 200)
          (takes_up offered taken none (load ∷ gone ∷ []) greets refl offer_taken)))
      load

longest_silence_bounded_example :
    longest_silence (1 ∷ 599 ∷ 2 ∷ 1 ∷ []) 5 (record { last_keepalive = 5; backoff = 1 })
    < 600 + 599
longest_silence_bounded_example =
    longest_silence_bounded 599 (1 ∷ 599 ∷ 2 ∷ 1 ∷ []) 5
      (record { last_keepalive = 5; backoff = 1 })
      (omega arith, (omega arith, (omega arith, (omega arith, tt)))) (omega arith)

abbrev told_of_attempt : List (ClientMsg Rate)
told_of_attempt = subscribe (load ∷ []) none ∷ []

abbrev under_way : Workspace Rate
under_way = record (new (codes "local")) {
  subscriptions = load ∷ [];
  attempt = some (record {
    new_client = record { told = subscribe (load ∷ []) none ∷ []; failed = false };
    new_generation = 2;
    target = codes "local";
  });
}

abbrev late : Workspace Rate
late = commit_reconnect (subscribe_sensors true (gone ∷ []) under_way).0
