-- ===== src/Workspace/Commands.antt =====
-- Every operation on the connection keeps the daemon told, also across failed writes and reconnects.
use lin_sight.Base.{
  ℕ, ◌≡◌, refl, ap, sym, ◌∙◌, subst, Bool, true, false, ◌&&◌, List, [], ◌∷◌, Option, none, some,
  Text, ◌==◌, arith, Bool-cases, Option-cases, inl, inr,
}
use lin_sight.Base.Keys.{text_eq, contains}
use lin_sight.Core.Samples.{SensorId}
use lin_sight.Messages.{subscribe, request, set_pump_interval_ms}
use lin_sight.Workspace.{
  supported, Connection, fresh_connection, Workspace, write_client, send_frame, subscribe_sensors,
  unsubscribe_sensors, drop_all, replace_subscriptions, set_pump_interval, send_keepalive,
  replay_subscriptions, replay_pump, replayed, begin_reconnect, commit_reconnect, take_all,
  forwarder_ends, Attempt,
}
use lin_sight.Requests.Dispatch.{pump_interval_default_ms}
use lin_sight.Workspace.Replay.{
  Current, heard, subscribe_sensors-Current, unsubscribe_sensors-Current, drop_all_silent,
  take_all-Current,
}

-- What the application does, with how its writes go and what it is answered.
pub data Command : Type 0 where
  subscribes : Bool → List SensorId → Command
  unsubscribes : Bool → List SensorId → Command
  replaces : Bool → Bool → List SensorId → Command
  sets_pump : Bool → ℕ → ℕ → Option ℕ → Command
  keeps_alive : Bool → Command
  begins_reconnect : Bool → Bool → Bool → Option ℕ → Text → Command
  commits_reconnect : Command
  forwarder_stops : ℕ → Command

abbrev pub changes : Command → Bool
changes (subscribes through ss) = true
changes (unsubscribes through ss) = true
changes (replaces first second ss) = true
changes (sets_pump through req_id ms answer) = false
changes (keeps_alive through) = false
changes (begins_reconnect dialled first second answer target) = false
changes commits_reconnect = false
changes (forwarder_stops generation) = false

module _ {F : Type 0} where
  abbrev pub run : Command → Workspace F → Workspace F
  run (subscribes through ss) ws = (subscribe_sensors through ss ws).0
  run (unsubscribes through ss) ws = (unsubscribe_sensors through ss ws).0
  run (replaces first second ss) ws = (replace_subscriptions first second ss ws).0
  run (sets_pump through req_id ms answer) ws = (set_pump_interval through req_id ms answer ws).0
  run (keeps_alive through) ws = send_keepalive through ws
  run (begins_reconnect dialled first second answer target) ws =
      begin_reconnect dialled first second answer target ws
  run commits_reconnect ws = commit_reconnect ws
  run (forwarder_stops generation) ws = forwarder_ends generation ws

  abbrev pub run_all : List Command → Workspace F → Workspace F
  run_all [] ws = ws
  run_all (c ∷ cs) ws = run_all cs (run c ws)

  -- The operations that change what is remembered, none of which comes between the two halves of a
  -- reconnect.
  abbrev pub Undisturbed : List Command → Workspace F → Type 0
  Undisturbed [] ws = Unit
  Undisturbed (c ∷ cs) ws = (changes c ≡ true → ws.attempt ≡ none) × Undisturbed cs (run c ws)

  -- A connection that a reconnect is about to commit has been told what is remembered.
  abbrev pub Ready : Workspace F → Type 0
  Ready ws =
      (a : Attempt F)
      → ws.attempt ≡ some a
      → (id : SensorId) → heard id a.new_client.told ≡ contains id ws.subscriptions

  drop_all-subscriptions :
      (through : Bool) (old : List SensorId) (ws : Workspace F)
      → (drop_all through old ws).subscriptions ≡ ws.subscriptions
  unfolding drop_all send_frame
  drop_all-subscriptions through [] ws = refl
  drop_all-subscriptions through (s ∷ ss) ws = refl

  replace_subscriptions-Current :
      (first second : Bool) (ss : List SensorId) (ws : Workspace F)
      → Current ws
      → Current (replace_subscriptions first second ss ws).0
  unfolding replace_subscriptions
  replace_subscriptions-Current first second ss ws cur =
      let emptied = record ws { subscriptions = [] } in
      take_all-Current second ss (drop_all first ws.subscriptions emptied)
        (drop_all-subscriptions first ws.subscriptions emptied)
        (drop_all_silent first ws.subscriptions emptied cur)

  -- A frame that names no sensor changes nothing that is sent.
  send_keepalive-Current :
      (through : Bool) (ws : Workspace F) → Current ws → Current (send_keepalive through ws)
  unfolding send_keepalive send_frame write_client contains
  send_keepalive-Current true ws cur = λ up id. cur up id
  send_keepalive-Current false ws cur = λ up id. ground (arith, up)

  set_pump_interval-Current :
      (through : Bool) (req_id ms : ℕ) (answer : Option ℕ) (ws : Workspace F)
      → Current ws
      → Current (set_pump_interval through req_id ms answer ws).0
  unfolding set_pump_interval send_frame write_client
  set_pump_interval-Current true req_id ms none ws cur = λ up id. cur up id
  set_pump_interval-Current true req_id ms (some applied) ws cur = λ up id. cur up id
  set_pump_interval-Current false req_id ms answer ws cur = λ up id. ground (arith, up)

  forwarder_ends-Current :
      (generation : ℕ) (ws : Workspace F) → Current ws → Current (forwarder_ends generation ws)
  unfolding forwarder_ends
  forwarder_ends-Current generation ws cur =
      elim (Bool-cases (ws.connection_generation == generation)) [
        | inl mine ↦ simp (mine) cur
        | inr other ↦ simp (other) cur
      ]

  same_connection :
      (id : SensorId) (c d : Connection F) → some c ≡ some d → heard id d.told ≡ heard id c.told
  same_connection id c d same =
      let eq : c ≡ d = ground (arith, same) in ap (λ (e : Connection F). heard id e.told) (sym eq)

  replay_subscriptions-heard :
      (through : Bool) (subs : List SensorId) (c : Connection F)
      → replay_subscriptions through subs fresh_connection ≡ some c
      → (id : SensorId) → heard id c.told ≡ contains id subs
  unfolding replay_subscriptions write_client contains
  replay_subscriptions-heard through [] c done id = same_connection id fresh_connection c done
  replay_subscriptions-heard true (s ∷ ss) c done id =
      same_connection id (write_client true (subscribe (s ∷ ss) none) fresh_connection) c done
      ∙ ground arith
  replay_subscriptions-heard false (s ∷ ss) c done id = ground (arith, done)

  replay_pump-heard :
      (req_id : ℕ) (through : Bool) (ms : ℕ) (answer : Option ℕ) (c d : Connection F)
      → replay_pump req_id through ms answer c ≡ some d
      → (id : SensorId) → heard id d.told ≡ heard id c.told
  unfolding replay_pump write_client
  replay_pump-heard req_id through ms answer c d done id =
      elim (Bool-cases (ms == pump_interval_default_ms)) [
        | inl default ↦ same_connection id c d (sym (simp (replay_pump, default) refl) ∙ done)
        | inr other ↦ elim (Option-cases answer) [
          | inl late ↦ ground (arith, done, other, late)
          | inr (applied, came) ↦ elim (Bool-cases through) [
            | inl sent ↦
                same_connection id (write_client true (request req_id (set_pump_interval_ms ms)) c)
                  d (sym (simp (replay_pump, other, came, sent) refl) ∙ done)
            | inr lost ↦ ground (arith, done, other, came, lost)
          ]
        ]
      ]

  -- A connection on which the replay worked has been told everything that is remembered.
  replayed-heard :
      (first second : Bool) (answer : Option ℕ) (ws : Workspace F) (c : Connection F)
      → replayed first second answer ws ≡ some c
      → (id : SensorId) → heard id c.told ≡ contains id ws.subscriptions
  unfolding replayed
  replayed-heard first second answer ws c done id =
      elim (Option-cases (replay_subscriptions {F = F} first ws.subscriptions fresh_connection)) [
        | inl fails ↦ ground (arith, done, fails)
        | inr (b, told) ↦
            replay_pump-heard 1 second ws.pump_interval_ms answer b c
              (sym (simp (replayed, told) refl) ∙ done) id
            ∙ replay_subscriptions-heard first ws.subscriptions b told id
      ]

  begin_reconnect-Current :
      (dialled first second : Bool) (answer : Option ℕ) (target : Text) (ws : Workspace F)
      → Current ws × Ready ws
      → Current (begin_reconnect dialled first second answer target ws)
        × Ready (begin_reconnect dialled first second answer target ws)
  unfolding begin_reconnect
  begin_reconnect-Current dialled first second answer target ws v =
      elim (Option-cases (ws.attempt)) [
        | inr (a, busy) ↦
            let same : begin_reconnect dialled first second answer target ws ≡ ws =
              simp (begin_reconnect, busy) refl in
            subst (λ x. Current x × Ready x) (sym same) v
        | inl idle ↦ elim (Bool-cases (supported target && dialled)) [
          | inr refused ↦
              let same : begin_reconnect dialled first second answer target ws ≡ ws =
                simp (begin_reconnect, idle, refused) refl in
              subst (λ x. Current x × Ready x) (sym same) v
          | inl dials ↦ elim (Option-cases (replayed first second answer ws)) [
            | inl fails ↦
                let same : begin_reconnect dialled first second answer target ws ≡ ws =
                  simp (begin_reconnect, idle, dials, fails) refl in
                subst (λ x. Current x × Ready x) (sym same) v
            | inr (c, done) ↦
                simp (begin_reconnect, idle, dials, done)
                  (
                    v.0,
                    λ a same id.
                        let it : c ≡ a.new_client = ground (arith, same) in
                        ap (λ (x : Connection F). heard id x.told) (sym it)
                        ∙ replayed-heard first second answer ws c done id,
                  )
          ]
        ]
      ]

  commit_reconnect-Current :
      (ws : Workspace F)
      → Current ws × Ready ws
      → Current (commit_reconnect ws) × Ready (commit_reconnect ws)
  unfolding commit_reconnect
  commit_reconnect-Current ws v = elim (Option-cases (ws.attempt)) [
    | inl idle ↦
        let same : commit_reconnect ws ≡ ws = simp (commit_reconnect, idle) refl in
        subst (λ x. Current x × Ready x) (sym same) v
    | inr (a, due) ↦
        simp (commit_reconnect, due)
          (λ up id. v.1 a due id, λ b same. absurd (ground (arith, same)))
  ]

  -- The other operations leave an attempt alone.
  changes-attempt :
      (c : Command) (ws : Workspace F) → changes c ≡ true → (run c ws).attempt ≡ ws.attempt
  unfolding subscribe_sensors unsubscribe_sensors replace_subscriptions drop_all take_all send_frame
  changes-attempt (subscribes through []) ws h = refl
  changes-attempt (subscribes through (s ∷ ss)) ws h = refl
  changes-attempt (unsubscribes through []) ws h = refl
  changes-attempt (unsubscribes through (s ∷ ss)) ws h = refl
  changes-attempt (replaces first second ss) ws h = ground arith
  changes-attempt (sets_pump through req_id ms answer) ws h = absurd (ground (arith, h))
  changes-attempt (keeps_alive through) ws h = absurd (ground (arith, h))
  changes-attempt (begins_reconnect dialled first second answer target) ws h =
      absurd (ground (arith, h))
  changes-attempt commits_reconnect ws h = absurd (ground (arith, h))
  changes-attempt (forwarder_stops generation) ws h = absurd (ground (arith, h))

  changes-Ready :
      (c : Command) (ws : Workspace F) → changes c ≡ true → ws.attempt ≡ none → Ready (run c ws)
  changes-Ready c ws h idle a same id =
      let clash : none ≡ some a = sym idle ∙ sym (changes-attempt c ws h) ∙ same in
      absurd (ground (arith, clash))

  set_pump_interval-Ready :
      (through : Bool) (req_id ms : ℕ) (answer : Option ℕ) (ws : Workspace F)
      → Ready ws
      → Ready (set_pump_interval through req_id ms answer ws).0
  unfolding set_pump_interval send_frame
  set_pump_interval-Ready true req_id ms none ws v = v
  set_pump_interval-Ready true req_id ms (some applied) ws v = v
  set_pump_interval-Ready false req_id ms answer ws v = v

  forwarder_ends-Ready :
      (generation : ℕ) (ws : Workspace F) → Ready ws → Ready (forwarder_ends generation ws)
  unfolding forwarder_ends
  forwarder_ends-Ready generation ws v =
      elim (Bool-cases (ws.connection_generation == generation)) [
        | inl mine ↦ simp mine v
        | inr other ↦ simp other v
      ]

  run-Current :
      (c : Command) (ws : Workspace F)
      → (changes c ≡ true → ws.attempt ≡ none)
      → Current ws × Ready ws
      → Current (run c ws) × Ready (run c ws)
  unfolding send_keepalive send_frame
  run-Current (subscribes through ss) ws idle v = (
    subscribe_sensors-Current through ss ws v.0,
    changes-Ready (subscribes through ss) ws refl (idle refl),
  )
  run-Current (unsubscribes through ss) ws idle v = (
    unsubscribe_sensors-Current through ss ws v.0,
    changes-Ready (unsubscribes through ss) ws refl (idle refl),
  )
  run-Current (replaces first second ss) ws idle v = (
    replace_subscriptions-Current first second ss ws v.0,
    changes-Ready (replaces first second ss) ws refl (idle refl),
  )
  run-Current (sets_pump through req_id ms answer) ws idle v = (
    set_pump_interval-Current through req_id ms answer ws v.0,
    set_pump_interval-Ready through req_id ms answer ws v.1,
  )
  run-Current (keeps_alive through) ws idle v = (send_keepalive-Current through ws v.0, v.1)
  run-Current (begins_reconnect dialled first second answer target) ws idle v =
      begin_reconnect-Current dialled first second answer target ws v
  run-Current commits_reconnect ws idle v = commit_reconnect-Current ws v
  run-Current (forwarder_stops generation) ws idle v =
      (forwarder_ends-Current generation ws v.0, forwarder_ends-Ready generation ws v.1)

  -- Whatever the application does, and however its writes, its dials and its requests go, if nothing
  -- changes what is remembered between the two halves of a reconnect: unless a write to the current
  -- connection failed, what its daemon was told since the handshake makes it send exactly the
  -- sensors that the workspace remembers, if that held before and no reconnect was under way.
  pub run_all-Current :
      (cs : List Command) (ws : Workspace F)
      → Undisturbed cs ws
      → Current ws × Ready ws
      → Current (run_all cs ws) × Ready (run_all cs ws)
  run_all-Current [] ws quiet v = v
  run_all-Current (c ∷ cs) ws quiet v =
      run_all-Current cs (run c ws) quiet.1 (run-Current c ws quiet.0 v)
