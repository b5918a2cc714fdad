-- ===== src/Workspace.antt =====
-- apps/linsight-gui/src/workspace.rs: the connection of the desktop application, and what it replays on a new
-- one. A connection is what its daemon has been told since the handshake, the latest first; whether
-- a write goes through, and what a request is answered, are parameters. A reconnect is two steps, with
-- other operations in between.
pub mod Replay
pub mod Commands
pub mod Served
pub mod Delivered
pub mod Supervised
use lin_sight.Base.{
  ℕ, ◌+◌, ◌*◌, ◌-◌, Bool, true, false, not, ◌&&◌, ◌||◌, List, [], ◌∷◌, ◌++◌, Option, none, some,
  Text, codes, ltb, ◌==◌, if◌then◌else◌, min, u64_max,
}
use lin_sight.Base.Keys.{text_eq, text_beq, contains}
use lin_sight.Core.Samples.{SensorId}
use lin_sight.Core.Hardware.{Checked, ok, err}
use lin_sight.Messages.{ClientMsg, subscribe, unsubscribe, request, set_pump_interval_ms}
use lin_sight.Messages
use lin_sight.Requests.Dispatch.{pump_interval_default_ms}
use lin_sight.Core.Chars.{strip_prefix}

pub record Connection (F : Type 0) : Type 0 where
  pub told : List (ClientMsg F)
  pub failed : Bool

abbrev pub fresh_connection : {F : Type 0} → Connection F
fresh_connection = record { told = []; failed = false }

-- A reconnect between its replay and its commit, under the reconnect lock.
pub record Attempt (F : Type 0) : Type 0 where
  pub new_client : Connection F
  pub new_generation : ℕ
  pub target : Text

pub record Workspace (F : Type 0) : Type 0 where
  pub client : Connection F
  pub subscriptions : List SensorId
  pub pump_interval_ms : ℕ
  pub active_target : Text
  pub connection_generation : ℕ
  pub connection_alive : Bool
  pub attempt : Option (Attempt F)

-- The targets that can be dialled.
unfoldable pub supported : Text → Bool
unfolding strip_prefix
supported target =
    if text_beq target (codes "local")
    then true
    else elim (strip_prefix (codes "ssh://") target) [ none ↦ false | some url ↦ true ]

-- The loop of `subscribe` over the sensors.
unfoldable pub remember : List SensorId → List SensorId → List SensorId
remember [] subs = subs
remember (s ∷ ss) subs = remember ss (if contains s subs then subs else subs ++ s ∷ [])

unfoldable pub forget : List SensorId → List SensorId → List SensorId
forget sensors [] = []
forget sensors (s ∷ subs) =
    let rest = forget sensors subs in if contains s sensors then rest else s ∷ rest

module _ {F : Type 0} where
  -- A write of one frame, which goes through or fails.
  unfoldable pub write_client : Bool → ClientMsg F → Connection F → Connection F
  write_client true m c = record c { told = m ∷ c.told }
  write_client false m c = record c { failed = true }

  unfoldable pub send_frame : Bool → ClientMsg F → Workspace F → Workspace F
  unfolding write_client
  send_frame through m ws = record ws { client = write_client through m ws.client }

  unfoldable pub subscribe_sensors : Bool → List SensorId → Workspace F → Workspace F × Bool
  unfolding remember send_frame
  subscribe_sensors through [] ws = (ws, true)
  subscribe_sensors through (s ∷ ss) ws =
      let subs = remember (s ∷ ss) ws.subscriptions in
      (send_frame through (subscribe (s ∷ ss) none) (record ws { subscriptions = subs }), through)

  unfoldable pub unsubscribe_sensors : Bool → List SensorId → Workspace F → Workspace F × Bool
  unfolding forget send_frame
  unsubscribe_sensors through [] ws = (ws, true)
  unsubscribe_sensors through (s ∷ ss) ws =
      let subs = forget (s ∷ ss) ws.subscriptions in
      (send_frame through (unsubscribe (s ∷ ss)) (record ws { subscriptions = subs }), through)

  unfoldable pub drop_all : Bool → List SensorId → Workspace F → Workspace F
  unfolding send_frame
  drop_all through [] ws = ws
  drop_all through (s ∷ ss) ws = send_frame through (unsubscribe (s ∷ ss)) ws

  unfoldable pub take_all : Bool → List SensorId → Workspace F → Workspace F × Bool
  unfolding send_frame
  take_all through [] ws = (ws, true)
  take_all through (s ∷ ss) ws =
      (send_frame through (subscribe (s ∷ ss) none) (record ws { subscriptions = s ∷ ss }), through)

  -- The two writes, of which the result of the first is ignored.
  unfoldable pub replace_subscriptions :
      Bool → Bool → List SensorId → Workspace F → Workspace F × Bool
  unfolding drop_all take_all
  replace_subscriptions first second sensors ws =
      take_all second sensors (drop_all first ws.subscriptions (record ws { subscriptions = [] }))

  -- The request with its answer, if one comes in time.
  unfoldable pub set_pump_interval : Bool → ℕ → ℕ → Option ℕ → Workspace F → Workspace F × Option ℕ
  unfolding send_frame
  set_pump_interval through req_id ms answer ws =
      let ws' = send_frame through (request req_id (set_pump_interval_ms ms)) ws in
      if through
      then elim answer [
        | none ↦ (ws', none)
        | some applied ↦ (record ws' { pump_interval_ms = applied }, some applied)
      ]
      else (ws', none)

  unfoldable pub send_keepalive : Bool → Workspace F → Workspace F
  unfolding send_frame
  send_keepalive through ws = send_frame through (subscribe [] none) ws

  unfoldable pub replay_subscriptions : Bool → List SensorId → Connection F → Option (Connection F)
  unfolding write_client
  replay_subscriptions through [] c = some c
  replay_subscriptions through (s ∷ ss) c =
      if through then some (write_client true (subscribe (s ∷ ss) none) c) else none

  unfoldable pub replay_pump : ℕ → Bool → ℕ → Option ℕ → Connection F → Option (Connection F)
  unfolding write_client
  replay_pump req_id through ms answer c =
      if ms == pump_interval_default_ms then some c else elim answer [
        | none ↦ none
        | some applied ↦
            if through
            then some (write_client true (request req_id (set_pump_interval_ms ms)) c)
            else none
      ]

  unfoldable pub replayed : Bool → Bool → Option ℕ → Workspace F → Option (Connection F)
  unfolding replay_subscriptions replay_pump
  replayed first second answer ws =
      elim (replay_subscriptions first ws.subscriptions fresh_connection) [
        | none ↦ none
        | some c ↦ replay_pump 1 second ws.pump_interval_ms answer c
      ]

  -- What `subscriptions` and the rest hold when the application starts.
  unfoldable pub new : Text → Workspace F
  new initial_target = record {
    client = fresh_connection;
    subscriptions = [];
    pump_interval_ms = pump_interval_default_ms;
    active_target = initial_target;
    connection_generation = 1;
    connection_alive = true;
    attempt = none;
  }

  -- The first half of a reconnect, which needs the lock. Dialling the target succeeds or not, and what
  -- is remembered then is replayed on the new connection.
  unfoldable pub begin_reconnect : Bool → Bool → Bool → Option ℕ → Text → Workspace F → Workspace F
  unfolding replayed supported
  begin_reconnect dialled first second answer target ws = elim (ws.attempt) [
    | some a ↦ ws
    | none ↦
        if supported target && dialled
        then elim (replayed first second answer ws) [
          | none ↦ ws
          | some c ↦ record ws {
            attempt = some (record {
              new_client = c;
              new_generation = min (ws.connection_generation + 1) u64_max;
              target = target;
            });
          }
        ]
        else ws
  ]

  -- The second half: the swap of the connections.
  unfoldable pub commit_reconnect : Workspace F → Workspace F
  commit_reconnect ws = elim (ws.attempt) [
    | none ↦ ws
    | some a ↦ record ws {
      client = a.new_client;
      active_target = a.target;
      connection_generation = a.new_generation;
      connection_alive = true;
      attempt = none;
    }
  ]

  -- The end of the forwarder of a generation.
  unfoldable pub forwarder_ends : ℕ → Workspace F → Workspace F
  forwarder_ends my_generation ws =
      if ws.connection_generation == my_generation
      then record ws { connection_alive = false }
      else ws

-- The loop of the supervisor, in seconds: when the last keepalive was, and how long it waits.
pub record Supervisor : Type 0 where
  pub last_keepalive : ℕ
  pub backoff : ℕ

pub data Act : Type 0 where
  idles keeps_alive reconnects : Act

unfoldable pub supervisor_act : Bool → ℕ → Supervisor → Act
supervisor_act alive now v =
    if alive then if ltb (now - v.last_keepalive) 600 then idles else keeps_alive else reconnects

-- After the act, of which `reconnected` says whether a reconnect worked.
unfoldable pub supervise : Bool → Bool → ℕ → Supervisor → Supervisor
unfolding supervisor_act
supervise alive reconnected now v = elim (supervisor_act alive now v) [
  | idles ↦ record v { backoff = 1 }
  | keeps_alive ↦ record { last_keepalive = now; backoff = 1 }
  | reconnects ↦
      if reconnected
      then record { last_keepalive = now; backoff = 1 }
      else record v { backoff = min (v.backoff * 2) 15 }
]
