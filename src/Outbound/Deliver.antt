-- ===== src/Outbound/Deliver.antt =====
-- What the fan-out of a tick's samples puts into each client's queue.
use lin_sight.Base.{
  ℕ, ◌-◌, ◌≡◌, refl, sym, ap, ◌∙◌, Bool, true, false, ◌||◌, List, [], ◌∷◌, ◌++◌, map, Option, none,
  some, arith, ltb, if◌then◌else◌, length, take, take-nil, length-append, suc, ◌==◌, ==_iff,
  Bool-cases, Option-cases, inl, inr,
}
use mathlib.Core.List.{append-nil, append_assoc}
use lin_sight.Base.Keys.{nat_eq, text_eq, text_beq, contains}
use lin_sight.Base.Dict.{lookup, remove, has_key, Unique, lookup-remove}
use lin_sight.Core.Samples.{SensorId, Sample}
use lin_sight.Session.{Ledger}
use lin_sight.Outbound.{
  sample, Sink, ClientMap, outbound_queue_cap, wants, interested, try_send, send_each, send_all,
  remove_all, fan_out,
}

-- The sensors that a client is subscribed to.
abbrev pub sensors_of : Ledger → List SensorId
sensors_of l = map (λ r. r.0.0) l

-- The samples of some sensors, in their order.
abbrev pub samples_of : {V : Type 0} → List SensorId → List (Sample V) → List (Sample V)
samples_of ids [] = []
samples_of ids (x ∷ xs) = if contains x.sensor ids then x ∷ samples_of ids xs else samples_of ids xs

wants-sensors_of : (l : Ledger) (id : SensorId) → wants l id ≡ contains id (sensors_of l)
unfolding wants contains
wants-sensors_of [] id = refl
wants-sensors_of (((j, p), sub) ∷ m) id = ap (λ b. text_beq j id || b) (wants-sensors_of m id)

interested-samples_of :
    {V : Type 0} (l : Ledger) (xs : List (Sample V))
    → interested l xs ≡ samples_of (sensors_of l) xs
unfolding interested
interested-samples_of l [] = refl
interested-samples_of l (x ∷ xs) =
    rw (interested, wants-sensors_of l x.sensor, interested-samples_of l xs) refl

module _ {F V : Type 0} where
  -- A sink with samples added to its queue up to the capacity.
  abbrev filled_with : List (Sample V) → Sink F V → Sink F V
  filled_with xs k = record k {
    queue = k.queue ++ map sample (take (outbound_queue_cap - length k.queue) xs);
  }

  filled_with-nil : (k : Sink F V) → filled_with [] k ≡ k
  filled_with-nil k =
      ap (λ q. record k { queue = q })
        (ap (λ xs. k.queue ++ map sample xs) (take-nil (outbound_queue_cap - length k.queue))
          ∙ append-nil k.queue)

  filled_with-full :
      (k : Sink F V) (xs : List (Sample V))
      → ltb (length k.queue) outbound_queue_cap ≡ false
      → filled_with xs k ≡ k
  filled_with-full k xs h =
      let none_left : outbound_queue_cap - length k.queue ≡ 0 = ground arith in
      ap (λ q. record k { queue = q })
        (ap (λ n. k.queue ++ map sample (take n xs)) none_left ∙ append-nil k.queue)

  filled_with-room :
      (k : Sink F V) (x : Sample V) (xs : List (Sample V))
      → ltb (length k.queue) outbound_queue_cap ≡ true
      → filled_with xs (record k { queue = k.queue ++ sample x ∷ [] }) ≡ filled_with (x ∷ xs) k
  filled_with-room k x xs h =
      let more = length-append k.queue (sample x ∷ []) in
      let left : outbound_queue_cap - length k.queue
          ≡ suc (outbound_queue_cap - length (k.queue ++ sample x ∷ [])) =
        ground (arith, more) in
      ap (λ q. record k { queue = q })
        (append_assoc k.queue (sample x ∷ []) _
          ∙ ap (λ n. k.queue ++ map sample (take n (x ∷ xs))) (sym left))

  send_each-room :
      (k : Sink F V) (x : Sample V) (xs : List (Sample V))
      → k.connected ≡ true
      → ltb (length k.queue) outbound_queue_cap ≡ true
      → send_each k (x ∷ xs) ≡ send_each (record k { queue = k.queue ++ sample x ∷ [] }) xs
  unfolding send_each try_send
  send_each-room k x xs on room = rw (send_each, try_send, on, room) refl

  send_each-full :
      (k : Sink F V) (x : Sample V) (xs : List (Sample V))
      → k.connected ≡ true
      → ltb (length k.queue) outbound_queue_cap ≡ false
      → send_each k (x ∷ xs) ≡ send_each k xs
  unfolding send_each try_send
  send_each-full k x xs on crowded = ground arith

  send_each-connected :
      (k : Sink F V) (xs : List (Sample V))
      → k.connected ≡ true
      → send_each k xs ≡ (filled_with xs k, false)
  unfolding send_each
  send_each-connected k [] on = ap (λ s. (s, false)) (sym (filled_with-nil k))
  send_each-connected k (x ∷ xs) on = elim (Bool-cases (ltb (length k.queue) outbound_queue_cap)) [
    | inl room ↦
        send_each-room k x xs on room
        ∙ send_each-connected (record k { queue = k.queue ++ sample x ∷ [] }) xs on
        ∙ ap (λ s. (s, false)) (filled_with-room k x xs room)
    | inr crowded ↦
        send_each-full k x xs on crowded
        ∙ send_each-connected k xs on
        ∙ ap (λ s. (s, false))
            (filled_with-full k xs crowded ∙ sym (filled_with-full k (x ∷ xs) crowded))
  ]

  -- What a delivery makes of a client: its samples, in order, as far as its queue has room; a client
  -- that is gone and has samples to get is taken off the map.
  abbrev pub delivered : List (Sample V) → Sink F V → Option (Sink F V)
  delivered samples k =
      let mine = samples_of (sensors_of k.subscriptions) samples in
      if k.connected
      then some (record k {
        queue = k.queue ++ map sample (take (outbound_queue_cap - length k.queue) mine);
      })
      else elim mine [ [] ↦ some k | x ∷ xs ↦ none ]

  abbrev kept : Sink F V × Bool → Option (Sink F V)
  kept (k, gone) = if gone then none else some k

  send_each-gone :
      (k : Sink F V) (mine : List (Sample V))
      → k.connected ≡ false
      → kept (send_each k mine) ≡ elim mine [ [] ↦ some k | x ∷ xs ↦ none ]
  unfolding send_each try_send
  send_each-gone k [] off = refl
  send_each-gone k (x ∷ xs) off = rw (send_each, try_send, off) refl

  send_each-kept :
      (k : Sink F V) (samples : List (Sample V))
      → kept (send_each k (interested k.subscriptions samples)) ≡ delivered samples k
  send_each-kept k samples =
      ap (λ xs. kept (send_each k xs)) (interested-samples_of k.subscriptions samples)
      ∙ elim (Bool-cases (k.connected)) [
        | inl on ↦
            ap kept (send_each-connected k (samples_of (sensors_of k.subscriptions) samples) on)
            ∙ rw (delivered, on) refl
        | inr off ↦
            send_each-gone k (samples_of (sensors_of k.subscriptions) samples) off
            ∙ rw (delivered, off) refl
      ]

  gone_of : List (Sample V) → Sink F V → Bool
  gone_of samples k = (send_each k (interested k.subscriptions samples)).1

  sent_of : List (Sample V) → Sink F V → Sink F V
  sent_of samples k = (send_each k (interested k.subscriptions samples)).0

  send_all-lookup :
      (c : ℕ) (m : ClientMap F V) (samples : List (Sample V))
      → lookup c (send_all m samples).0
        ≡ elim (lookup c m) [ none ↦ none | some k ↦ some (sent_of samples k) ]
  unfolding send_all lookup sent_of
  send_all-lookup c [] samples = refl
  send_all-lookup c ((j, k) ∷ m) samples = elim (Bool-cases (j == c)) [
    | inl here ↦ rw here refl
    | inr later ↦ rw later (send_all-lookup c m samples)
  ]

  send_all-absent :
      (c : ℕ) (m : ClientMap F V) (samples : List (Sample V))
      → has_key c m ≡ false
      → contains c (send_all m samples).1 ≡ false
  unfolding send_all has_key contains
  send_all-absent c [] samples h = refl
  send_all-absent c ((j, k) ∷ m) samples h = ground (arith, send_all-absent c m samples)

  send_all-gone :
      (c : ℕ) (m : ClientMap F V) (samples : List (Sample V))
      → Unique m
      → contains c (send_all m samples).1
        ≡ elim (lookup c m) [ none ↦ false | some k ↦ gone_of samples k ]
  unfolding send_all lookup contains gone_of
  send_all-gone c [] samples u = refl
  send_all-gone c ((j, k) ∷ m) samples u =
      ground (arith, ==_iff j c, send_all-gone c m samples u.1, send_all-absent j m samples u.0)

  remove_all-lookup :
      (c : ℕ) (cs : List ℕ) (m : ClientMap F V)
      → lookup c (remove_all cs m) ≡ (if contains c cs then none else lookup c m)
  unfolding remove_all contains
  remove_all-lookup c [] m = refl
  remove_all-lookup c (j ∷ cs) m =
      ground (arith, remove_all-lookup c cs (remove j m), lookup-remove j c m)

  delivered-nil : (k : Sink F V) → delivered [] k ≡ some k
  unfolding interested send_each
  delivered-nil k = sym (send_each-kept k [])

  -- After the delivery of a tick's samples each client that was there has in its queue, behind what it
  -- held, the samples of the sensors it is subscribed to, in their order, as far as the queue has room;
  -- a client whose receiver is gone is dropped if there was a sample for it, and no other client is.
  pub fan_out-lookup :
      (clients : ClientMap F V) (samples : List (Sample V)) (c : ℕ)
      → Unique clients
      → lookup c (fan_out clients samples)
        ≡ elim (lookup c clients) [ none ↦ none | some k ↦ delivered samples k ]
  unfolding fan_out gone_of sent_of
  fan_out-lookup clients [] c u = elim (Option-cases (lookup c clients)) [
    | inl absent ↦ rw absent refl
    | inr (k, found) ↦ rw found (sym (delivered-nil k))
  ]
  fan_out-lookup clients (x ∷ xs) c u =
      let cleared =
        remove_all-lookup c (send_all clients (x ∷ xs)).1 (send_all clients (x ∷ xs)).0 in
      let gone = send_all-gone c clients (x ∷ xs) u in
      let sent = send_all-lookup c clients (x ∷ xs) in
      elim (Option-cases (lookup c clients)) [
        | inl absent ↦ rw absent (cleared ∙ (rw (gone, sent, absent) refl))
        | inr (k, found) ↦ rw found (cleared ∙ (rw (gone, sent, found) (send_each-kept k (x ∷ xs))))
      ]
