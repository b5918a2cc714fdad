-- ===== src/Workspace/Replay.antt =====
-- A daemon that can be reached has been told to send what the application wants.
use lin_sight.Base.{
  ◌≡◌, refl, ap, sym, ◌∙◌, Bool, true, false, not, ◌&&◌, ◌||◌, List, [], ◌∷◌, ◌++◌, arith,
  Bool-cases, inl, inr,
}
use lin_sight.Base.Keys.{text_eq, text_beq, text_beq_iff, contains}
use lin_sight.Core.Samples.{SensorId}
use lin_sight.Messages.{ClientMsg, hello, list_sensors, subscribe, unsubscribe, goodbye, request}
use lin_sight.Workspace.{
  new, Workspace, remember, forget, write_client, send_frame, subscribe_sensors,
  unsubscribe_sensors, drop_all, take_all,
}

contains-append :
    (id s : SensorId) (xs : List SensorId)
    → contains id (xs ++ s ∷ []) ≡ (contains id xs || text_beq s id)
unfolding contains
contains-append id s [] = ground arith
contains-append id s (x ∷ xs) = ground (arith, contains-append id s xs)

pub contains-remember :
    (id : SensorId) (ss subs : List SensorId)
    → contains id (remember ss subs) ≡ (contains id ss || contains id subs)
unfolding remember contains
contains-remember id [] subs = refl
contains-remember id (s ∷ ss) subs = elim (Bool-cases (contains s subs)) [
  | inl known ↦
      simp (remember, known)
        (ground (arith, contains-remember id ss subs, text_beq_iff s id, known))
  | inr new ↦
      simp (remember, new)
        (ground (arith, contains-remember id ss (subs ++ s ∷ []), contains-append id s subs))
]

contains-forget :
    (id : SensorId) (ss subs : List SensorId)
    → contains id (forget ss subs) ≡ (not (contains id ss) && contains id subs)
unfolding forget contains
contains-forget id ss [] = ground arith
contains-forget id ss (s ∷ subs) = ground (arith, contains-forget id ss subs, text_beq_iff s id)

module _ {F : Type 0} where
  -- Whether a daemon sends a sensor, after what it was told.
  abbrev pub heard : SensorId → List (ClientMsg F) → Bool
  heard id [] = false
  heard id (hello v n r ∷ ms) = heard id ms
  heard id (list_sensors ∷ ms) = heard id ms
  heard id (subscribe ss rate ∷ ms) = contains id ss || heard id ms
  heard id (unsubscribe ss ∷ ms) = not (contains id ss) && heard id ms
  heard id (goodbye ∷ ms) = heard id ms
  heard id (request n op ∷ ms) = heard id ms

  -- Unless a write to it failed, the daemon of the connection sends exactly the sensors that a
  -- reconnect would replay.
  abbrev pub Current : Workspace F → Type 0
  Current ws =
      ws.client.failed ≡ false
      → (id : SensorId) → heard id ws.client.told ≡ contains id ws.subscriptions

  -- Subscribing tells the daemon what was remembered.
  pub subscribe_sensors-Current :
      (through : Bool) (ss : List SensorId) (ws : Workspace F)
      → Current ws
      → Current (subscribe_sensors through ss ws).0
  unfolding subscribe_sensors send_frame write_client
  subscribe_sensors-Current through [] ws cur = cur
  subscribe_sensors-Current true (s ∷ ss) ws cur = λ up id.
      ap (λ b. contains id (s ∷ ss) || b) (cur up id)
      ∙ sym (contains-remember id (s ∷ ss) ws.subscriptions)
  subscribe_sensors-Current false (s ∷ ss) ws cur = λ up id. ground (arith, up)

  pub unsubscribe_sensors-Current :
      (through : Bool) (ss : List SensorId) (ws : Workspace F)
      → Current ws
      → Current (unsubscribe_sensors through ss ws).0
  unfolding unsubscribe_sensors send_frame write_client
  unsubscribe_sensors-Current through [] ws cur = cur
  unsubscribe_sensors-Current true (s ∷ ss) ws cur = λ up id.
      ap (λ b. not (contains id (s ∷ ss)) && b) (cur up id)
      ∙ sym (contains-forget id (s ∷ ss) ws.subscriptions)
  unsubscribe_sensors-Current false (s ∷ ss) ws cur = λ up id. ground (arith, up)

  -- What the replacement starts with: nothing is remembered, and nothing is sent.
  pub drop_all_silent :
      (through : Bool) (old : List SensorId) (ws : Workspace F)
      → (ws.client.failed ≡ false → (id : SensorId) → heard id ws.client.told ≡ contains id old)
      → (drop_all through old ws).client.failed ≡ false
      → (id : SensorId) → heard id (drop_all through old ws).client.told ≡ false
  unfolding drop_all send_frame write_client contains
  drop_all_silent through [] ws cur up id = cur up id
  drop_all_silent true (s ∷ ss) ws cur up id =
      ap (λ b. not (contains id (s ∷ ss)) && b) (cur up id) ∙ ground arith
  drop_all_silent false (s ∷ ss) ws cur up id = ground (arith, up)

  pub take_all-Current :
      (through : Bool) (ss : List SensorId) (ws : Workspace F)
      → ws.subscriptions ≡ []
      → (ws.client.failed ≡ false → (id : SensorId) → heard id ws.client.told ≡ false)
      → Current (take_all through ss ws).0
  unfolding take_all send_frame write_client contains
  take_all-Current through [] ws empty silent =
      λ up id. silent up id ∙ sym (ap (λ subs. contains id subs) empty)
  take_all-Current true (s ∷ ss) ws empty silent =
      λ up id. ap (λ b. contains id (s ∷ ss) || b) (silent up id) ∙ ground arith
  take_all-Current false (s ∷ ss) ws empty silent = λ up id. ground (arith, up)
