-- ===== src/Outbound.antt =====
-- apps/linsightd/src/transport/unix.rs: the clients' bounded outbound queues, the fan-out of samples
-- and of catalogues onto them, and the pump that drains one of them to its socket.
pub mod Deliver
pub mod Drain
use lin_sight.Base.{
  ℕ, ◌+◌, Bool, true, false, ◌||◌, List, [], ◌∷◌, ◌++◌, Option, none, some, ltb, leb, if◌then◌else◌,
  length, zero, suc,
}
use lin_sight.Base.Keys.{text_beq, text_eq, nat_eq, pair_eq}
use lin_sight.Base.Dict.{Dict, remove}
use lin_sight.Core.Samples.{SensorId, Sample}
use lin_sight.Messages.{ServerMsg, SensorInfo, sensor_list_broadcast}
use lin_sight.Messages
use lin_sight.Session.{Ledger}

pub data OutboundMsg (F V : Type 0) : Type 0 where
  sample : Sample V → OutboundMsg F V
  broadcast : List (SensorInfo F V) → OutboundMsg F V

-- A `ClientSink`: the channel, oldest message first, whether its receiver still lives, and the
-- client's ledger.
pub record Sink (F V : Type 0) : Type 0 where
  pub queue : List (OutboundMsg F V)
  pub connected : Bool
  pub subscriptions : Ledger

abbrev pub outbound_queue_cap : ℕ
outbound_queue_cap = 1024

abbrev pub pump_drain_cap : ℕ
pump_drain_cap = 256

-- The outcome of `try_send`.
pub data TrySend (F V : Type 0) : Type 0 where
  sent : Sink F V → TrySend F V
  full disconnected : TrySend F V

abbrev pub ClientMap : Type 0 → Type 0 → Type 0
ClientMap F V = Dict ℕ (Sink F V)

-- Whether the ledger has a token of the sensor, at any period.
unfoldable pub wants : Ledger → SensorId → Bool
wants [] id = false
wants (((j, p), sub) ∷ m) id = text_beq j id || wants m id

unfoldable pub interested : {V : Type 0} → Ledger → List (Sample V) → List (Sample V)
unfolding wants
interested l [] = []
interested l (x ∷ xs) = let rest = interested l xs in if wants l x.sensor then x ∷ rest else rest

module _ {F V : Type 0} where
  -- `SyncSender::try_send`
  unfoldable pub try_send : Sink F V → OutboundMsg F V → TrySend F V
  try_send k m =
      if k.connected
      then if ltb (length k.queue) outbound_queue_cap
        then sent (record k { queue = k.queue ++ m ∷ [] })
        else full
      else disconnected

  -- The sink of a client in `broadcast_sensor_list`; `none` has it removed.
  unfoldable pub broadcast_to : Sink F V → List (SensorInfo F V) → Option (Sink F V)
  unfolding try_send
  broadcast_to k infos = elim (try_send k (broadcast infos)) [
    | sent k' ↦ some k'
    | full ↦ some k
    | disconnected ↦ none
  ]

  unfoldable pub broadcast_sensor_list : ClientMap F V → List (SensorInfo F V) → ClientMap F V
  unfolding broadcast_to
  broadcast_sensor_list [] infos = []
  broadcast_sensor_list ((c, k) ∷ m) infos =
      let rest = broadcast_sensor_list m infos in
      elim (broadcast_to k infos) [ none ↦ rest | some k' ↦ (c, k') ∷ rest ]

  -- The samples for one client; `true` stands for a receiver that is gone.
  unfoldable pub send_each : Sink F V → List (Sample V) → Sink F V × Bool
  unfolding try_send
  send_each k [] = (k, false)
  send_each k (x ∷ xs) = elim (try_send k (sample x)) [
    | sent k' ↦ send_each k' xs
    | full ↦ send_each k xs
    | disconnected ↦ (k, true)
  ]

  unfoldable pub send_all : ClientMap F V → List (Sample V) → ClientMap F V × List ℕ
  unfolding send_each interested
  send_all [] samples = ([], [])
  send_all ((c, k) ∷ m) samples =
      let (k', gone) = send_each k (interested k.subscriptions samples) in
      let (rest, others) = send_all m samples in
      ((c, k') ∷ rest, if gone then c ∷ others else others)

  unfoldable pub remove_all : List ℕ → ClientMap F V → ClientMap F V
  remove_all [] m = m
  remove_all (c ∷ cs) m = remove_all cs (remove c m)

  -- The delivery of a tick's samples in `spawn_sampler`.
  unfoldable pub fan_out : ClientMap F V → List (Sample V) → ClientMap F V
  unfolding send_all remove_all
  fan_out clients [] = clients
  fan_out clients (x ∷ xs) =
      let (served, gone) = send_all clients (x ∷ xs) in remove_all gone served

  unfoldable pub server_msg_of : OutboundMsg F V → ServerMsg F V
  server_msg_of (sample x) = ServerMsg.sample x
  server_msg_of (broadcast infos) = sensor_list_broadcast infos

-- What one wake-up of the pump leaves: the writer, the queue, and whether the pump goes on.
pub record Pumped (F V W : Type 0) : Type 0 where
  pub writer : W
  pub queue : List (OutboundMsg F V)
  pub running : Bool

module _ {F V W : Type 0} (write : W → ServerMsg F V → Option W) where
  -- `n` messages at most; a message whose write fails is lost, and the pump ends.
  unfoldable pub pump_up_to : ℕ → W → List (OutboundMsg F V) → Pumped F V W
  unfolding server_msg_of
  pump_up_to zero w q = record { writer = w; queue = q; running = true }
  pump_up_to (suc n) w [] = record { writer = w; queue = []; running = true }
  pump_up_to (suc n) w (m ∷ q) = elim (write w (server_msg_of m)) [
    | none ↦ record { writer = w; queue = q; running = false }
    | some w' ↦ pump_up_to n w' q
  ]

  unfoldable pub pump : W → List (OutboundMsg F V) → Pumped F V W
  unfolding pump_up_to
  pump w q = pump_up_to pump_drain_cap w q
