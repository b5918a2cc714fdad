-- ===== src/Outbound/Drain.antt =====
-- What a wake-up of the pump writes to the socket.
use lin_sight.Base.{
  ℕ, ◌<◌, ◌≡◌, refl, true, false, List, [], ◌∷◌, map, Option, none, some, arith, take, drop, zero,
  suc, Option-cases, inl, inr,
}
use lin_sight.Messages.{ServerMsg}
use lin_sight.Outbound.{OutboundMsg, Pumped, server_msg_of, pump_drain_cap, pump_up_to, pump}

module _ {F V W : Type 0} (write : W → ServerMsg F V → Option W) where
  -- Messages written one after the other, all of them.
  abbrev pub write_all : W → List (ServerMsg F V) → Option W
  write_all w [] = some w
  write_all w (m ∷ ms) = elim (write w m) [ none ↦ none | some w' ↦ write_all w' ms ]

  abbrev pub Drains : ℕ → W → List (OutboundMsg F V) → Pumped F V W → Type 0
  Drains n w q r =
      ((r.running ≡ true)
        → (r.queue ≡ drop n q) × (write_all w (map server_msg_of (take n q)) ≡ some r.writer))
      × ((r.running ≡ false)
          → (i : ℕ) × (i < n)
            × (r.queue ≡ drop (suc i) q)
            × (write_all w (map server_msg_of (take i q)) ≡ some r.writer)
            × (write_all w (map server_msg_of (take (suc i) q)) ≡ none))

  drain_stopped :
      (n : ℕ) (w : W) (m : OutboundMsg F V) (q : List (OutboundMsg F V))
      → write w (server_msg_of m) ≡ none
      → Drains (suc n) w (m ∷ q) (pump_up_to write (suc n) w (m ∷ q))
  unfolding pump_up_to
  drain_stopped n w m q failed =
      rw (pump_up_to, failed) (λ h. absurd (cc), λ h. (0, omega arith, refl, refl, refl))

  drain_on :
      (n : ℕ) (w w' : W) (m : OutboundMsg F V) (q : List (OutboundMsg F V))
      → write w (server_msg_of m) ≡ some w'
      → Drains n w' q (pump_up_to write n w' q)
      → Drains (suc n) w (m ∷ q) (pump_up_to write (suc n) w (m ∷ q))
  unfolding pump_up_to
  drain_on n w w' m q wrote h =
      rw (pump_up_to, write_all, wrote)
        (
          h.0,
          λ stopped.
              let (i, below, rest, fine, bad) = h.1 stopped in
              (suc i, omega arith, rest, rw wrote fine, bad),
        )

  pump_up_to-Drains :
      (n : ℕ) (w : W) (q : List (OutboundMsg F V)) → Drains n w q (pump_up_to write n w q)
  unfolding pump_up_to
  pump_up_to-Drains zero w q = (λ h. (refl, refl), λ h. absurd (cc))
  pump_up_to-Drains (suc n) w [] = (λ h. (refl, refl), λ h. absurd (cc))
  pump_up_to-Drains (suc n) w (m ∷ q) = elim (Option-cases (write w (server_msg_of m))) [
    | inl failed ↦ drain_stopped n w m q failed
    | inr (w', wrote) ↦ drain_on n w w' m q wrote (pump_up_to-Drains n w' q)
  ]

  -- A wake-up of the pump writes the first 256 messages of the queue, or all if there are fewer, in
  -- their order, and leaves the others; if a write fails, it has written the messages in front of that
  -- one, and the pump ends.
  pub pump-Drains :
      (w : W) (q : List (OutboundMsg F V)) → Drains pump_drain_cap w q (pump write w q)
  unfolding pump
  pump-Drains w q = pump_up_to-Drains pump_drain_cap w q
