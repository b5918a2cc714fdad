-- ===== src/Alerts/Engine/Log.antt =====
-- The ring buffer of events.
use lin_sight.Base.{
  ℕ, zero, suc, ◌≤◌, ◌≡◌, refl, ap, List, [], ◌∷◌, ◌++◌, arith, ◌==◌, if◌then◌else◌, length, take,
  Bool-cases, inl, inr, length-take-le,
}
use lin_sight.Alerts.Engine.{Engine, AlertEvent, event_capacity, pop_back, push_event}

module _ {ℓ} {A : Type ℓ} where
  pop_back-take :
      (n : ℕ) (xs : List A)
      → length (take (suc n) xs) ≡ suc n
      → pop_back (take (suc n) xs) ≡ take n xs
  unfolding pop_back
  pop_back-take zero [] h = refl
  pop_back-take zero (x ∷ xs) h = refl
  pop_back-take (suc n) [] h = refl
  pop_back-take (suc n) (x ∷ []) h = absurd (omega arith)
  pop_back-take (suc n) (x ∷ y ∷ ys) h = ap (◌∷◌ x) (pop_back-take n (y ∷ ys) (omega arith))

  take-short : (n : ℕ) (xs : List A) → length (take (suc n) xs) ≤ n → take (suc n) xs ≡ take n xs
  take-short zero [] h = refl
  take-short zero (x ∷ xs) h = absurd (omega arith)
  take-short (suc n) [] h = refl
  take-short (suc n) (x ∷ xs) h = ap (◌∷◌ x) (take-short n xs (omega arith))

  take-all : (n : ℕ) (xs : List A) → length xs ≤ n → xs ≡ take n xs
  take-all zero [] h = refl
  take-all zero (x ∷ xs) h = absurd (omega arith)
  take-all (suc n) [] h = refl
  take-all (suc n) (x ∷ xs) h = ap (◌∷◌ x) (take-all n xs (omega arith))

  -- A ring of `n + 1` places.
  ring :
      (n : ℕ) (x : A) (xs : List A)
      → x
          ∷ (if length (take (suc n) xs) == suc n
              then pop_back (take (suc n) xs)
              else take (suc n) xs)
        ≡ take (suc n) (x ∷ xs)
  ring n x xs = elim (Bool-cases (length (take (suc n) xs) == suc n)) [
    | inl full ↦ rw full (ap (◌∷◌ x) (pop_back-take n xs (ground arith)))
    | inr room ↦ rw room (ap (◌∷◌ x) (take-short n xs (ground (arith, length-take-le (suc n) xs))))
  ]

-- The events of an engine after each of these was pushed, the first of them last.
abbrev pub push_all : {V : Type 0} → Engine V → List AlertEvent → Engine V
push_all g [] = g
push_all g (e ∷ es) = push_event (push_all g es) e

-- However many events are pushed, the buffer holds the newest 512 of them and of those before, and
-- the history writer, if there is one, was handed every one.
pub push_event_ring :
    {V : Type 0} (g : Engine V) (es : List AlertEvent)
    → length g.events ≤ event_capacity
    → ((push_all g es).events ≡ take event_capacity (es ++ g.events))
      × ((push_all g es).recorded ≡ (if g.event_writer then es ++ g.recorded else g.recorded))
      × ((push_all g es).event_writer ≡ g.event_writer)
unfolding push_event
push_event_ring g [] h = (take-all event_capacity g.events h, ground arith, refl)
push_event_ring g (e ∷ es) h =
    let (events, recorded, writer) = push_event_ring g es h in
    (rw events (ring 511 e (es ++ g.events)), rw (writer, recorded) (ground arith), writer)
