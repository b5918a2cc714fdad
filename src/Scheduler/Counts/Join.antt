-- ===== src/Scheduler/Counts/Join.antt =====
-- `subscribe` adds one to one count, and keeps the table in order.
use lin_sight.Base.{
  ℕ, ◌+◌, ◌<◌, ◌≡◌, refl, Bool, ◌&&◌, [], ◌∷◌, Option, none, some, arith, ◌==◌, if◌then◌else◌,
  Bool-cases, Option-cases, inl, inr, u32_mod, codes,
}
use lin_sight.Base.Keys.{text_beq, text_eq, text_beq_iff}
use lin_sight.Base.Dict.{lookup, insert, lookup-insert, insert-All, lookup-All, insert-Unique}
use lin_sight.Core.Samples.{SensorId}
use lin_sight.Scheduler.Rate.{Floats, period_micros}
use lin_sight.Scheduler.Periods.{Periods, Above, first_key, count_of, bump-Above, count_of-bump}
use lin_sight.Scheduler.Table.{
  Descriptor, Subscription, Entry, Scheduler, subscribed, subscribe, subscribe_at, find_descriptor,
  has_tag, joined, joined_with,
}
use lin_sight.Scheduler.Counts.{EntryOk, SchedulerOk, holders, table_count, entry_count}

joined_with-EntryOk :
    (e e' : Entry) (m : Periods) → Above 0 m → joined_with e m ≡ some e' → EntryOk e'
unfolding joined_with first_key
joined_with-EntryOk e e' [] a h = absurd (cc)
joined_with-EntryOk e e' ((k, c) ∷ m) a h = ground arith

joined-EntryOk :
    (b : Bool) (p : ℕ) (o : Option Entry) {e : Entry}
    → ((x : Entry) → o ≡ some x → EntryOk x)
    → entry_count p o + 1 < u32_mod
    → joined b p o ≡ some e
    → EntryOk e
unfolding joined entry_count first_key
joined-EntryOk b p none v room h = ground arith
joined-EntryOk b p (some x) {e} v room h =
    joined_with-EntryOk x e _ (bump-Above 0 p x.period_counts (v x refl).counted (omega arith) room)
      h

joined_with-counts : (e e' : Entry) (m : Periods) → joined_with e m ≡ some e' → e'.period_counts ≡ m
unfolding joined_with
joined_with-counts e e' [] h = absurd (cc)
joined_with-counts e e' ((k, c) ∷ m) h = ground arith

joined-count :
    (b : Bool) (p q : ℕ) (o : Option Entry) {e : Entry}
    → ((x : Entry) → o ≡ some x → EntryOk x)
    → entry_count p o + 1 < u32_mod
    → joined b p o ≡ some e
    → count_of q e.period_counts ≡ entry_count q o + (if p == q then 1 else 0)
unfolding joined entry_count count_of
joined-count b p q none v room h = ground arith
joined-count b p q (some x) {e} v room h =
    rw (joined_with-counts x e _ h) (count_of-bump 0 p q x.period_counts (v x refl).counted room)

module _ {F V : Type 0} (s : Scheduler F V) where
  subscribe_at_inv :
      (d : Descriptor F V) (id : SensorId) (p : ℕ) {sub : Subscription} {s' : Scheduler F V}
      → subscribe_at s d id p ≡ subscribed sub s'
      → (e : Entry) × (sub ≡ record { sensor = id; period = p })
        × (joined (has_tag (codes "static") d.tags) p (lookup id s.entries) ≡ some e)
        × (s' ≡ record s { entries = insert id e s.entries })
  unfolding subscribe_at
  subscribe_at_inv d id p h =
      elim (Option-cases (joined (has_tag (codes "static") d.tags) p (lookup id s.entries))) [
        | inl none_e ↦ absurd (ground arith)
        | inr (e, some_e) ↦ (e, ground arith, some_e, ground arith)
      ]

  -- What a subscription that is granted comes from.
  pub subscribe_inv :
      (f : Floats F) (id : SensorId) (r : Option F) {sub : Subscription} {s' : Scheduler F V}
      → subscribe f s id r ≡ subscribed sub s'
      → (d : Descriptor F V) × (e : Entry) × (find_descriptor id s.host ≡ some d)
        × (period_micros f d.native_rate_hz r ≡ some sub.period)
        × (joined (has_tag (codes "static") d.tags) sub.period (lookup id s.entries) ≡ some e)
        × (sub.sensor ≡ id)
        × (s' ≡ record s { entries = insert id e s.entries })
  unfolding subscribe
  subscribe_inv f id r {sub} {s'} h = elim (Option-cases (find_descriptor id s.host)) [
    | inl none_d ↦ absurd (ground arith)
    | inr (d, some_d) ↦ elim (Option-cases (period_micros f d.native_rate_hz r)) [
      | inl none_p ↦ absurd (ground arith)
      | inr (p, some_p) ↦
          let granted : subscribe_at s d id p ≡ subscribed sub s' = ground arith in
          let (e, is_sub, made, is_s) = subscribe_at_inv d id p granted in
          rw is_sub (d, e, some_d, some_p, made, refl, is_s)
    ]
  ]

  -- A granted subscription keeps the table in order (counts positive and in the range of a
  -- `u32`, each entry at its shortest period, no sensor twice), if its count stays in that
  -- range.
  pub subscribe-SchedulerOk :
      (f : Floats F) (id : SensorId) (r : Option F) {sub : Subscription} {s' : Scheduler F V}
      → SchedulerOk s
      → subscribe f s id r ≡ subscribed sub s'
      → holders id sub.period s + 1 < u32_mod
      → SchedulerOk s'
  unfolding table_count
  subscribe-SchedulerOk f id r {sub} v h room =
      let (d, e, _, _, made, _, is_s) = subscribe_inv f id r h in
      rw is_s (
        insert-All (λ p. EntryOk p.1) id e s.entries v.0
            (joined-EntryOk _ sub.period (lookup id s.entries)
              (λ x found. lookup-All EntryOk id s.entries v.0 found) room made),
        insert-Unique id e s.entries v.1,
      )

  -- A granted subscription adds one to the count at its sensor and period, and changes no
  -- other count.
  pub subscribe-holders :
      (f : Floats F) (id : SensorId) (r : Option F) {sub : Subscription} {s' : Scheduler F V}
      → SchedulerOk s
      → subscribe f s id r ≡ subscribed sub s'
      → holders id sub.period s + 1 < u32_mod
      → (j : SensorId) (q : ℕ)
      → holders j q s' ≡ holders j q s + (if text_beq id j && sub.period == q then 1 else 0)
  unfolding table_count entry_count
  subscribe-holders f id r {sub} v h room j q =
      let (d, e, _, _, made, _, is_s) = subscribe_inv f id r h in
      let count =
        joined-count _ sub.period q (lookup id s.entries)
          (λ x found. lookup-All EntryOk id s.entries v.0 found) room made in
      rw is_s (elim (Bool-cases (text_beq id j)) [
        | inl same ↦
            let same_id : id ≡ j = (text_beq_iff id j).0 same in
            rw (lookup-insert id j e s.entries, same) (ground (arith, count, same_id))
        | inr other ↦ rw (lookup-insert id j e s.entries, other) (ground arith)
      ])
