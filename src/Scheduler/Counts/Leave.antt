-- ===== src/Scheduler/Counts/Leave.antt =====
-- `unsubscribe` takes one off one count, and keeps the table in order.
use lin_sight.Base.{
  ℕ, ◌-◌, ◌⊎◌, ◌∙◌, ◌≡◌, refl, ◌&&◌, [], ◌∷◌, none, some, arith, ◌==◌, if◌then◌else◌, Bool-cases,
  Option-cases, inl, inr,
}
use lin_sight.Base.Keys.{text_beq, text_eq, text_beq_iff}
use lin_sight.Base.Dict.{
  lookup, insert, remove, lookup-insert, lookup-remove, insert-All, remove-All, lookup-All,
  insert-Unique, remove-Unique,
}
use lin_sight.Core.Samples.{SensorId}
use lin_sight.Scheduler.Periods.{
  Periods, Above, leave, first_key, count_of, leave-Above, count_of-leave,
}
use lin_sight.Scheduler.Table.{Subscription, Entry, Scheduler, unsubscribe, left, left_with}
use lin_sight.Scheduler.Counts.{EntryOk, SchedulerOk, holders, table_count, entry_count}

module _ {F V : Type 0} (s : Scheduler F V) where
  pub unsubscribe_cases :
      (sub : Subscription)
      → (lookup sub.sensor s.entries ≡ none) × (unsubscribe s sub ≡ s)
        ⊎ ((e : Entry) × (lookup sub.sensor s.entries ≡ some e)
            × (left sub.period e ≡ none)
            × (unsubscribe s sub ≡ record s { entries = remove sub.sensor s.entries }))
        ⊎ ((e : Entry) × (e' : Entry) × (lookup sub.sensor s.entries ≡ some e)
            × (left sub.period e ≡ some e')
            × (unsubscribe s sub ≡ record s { entries = insert sub.sensor e' s.entries }))
  unfolding unsubscribe
  unsubscribe_cases sub = elim (Option-cases (lookup sub.sensor s.entries)) [
    | inl absent ↦ inl (absent, rw (absent, unsubscribe))
    | inr (e, found) ↦ elim (Option-cases (left sub.period e)) [
      | inl gone ↦ inr (inl (e, found, gone, rw (found, unsubscribe, gone)))
      | inr (e', stays) ↦ inr (inr (e, e', found, stays, rw (found, unsubscribe, stays)))
    ]
  ]

left_with-EntryOk : (e e' : Entry) (m : Periods) → Above 0 m → left_with e m ≡ some e' → EntryOk e'
unfolding left_with first_key
left_with-EntryOk e e' [] a h = absurd (cc)
left_with-EntryOk e e' ((k, c) ∷ m) a h = ground arith

left-EntryOk : (p : ℕ) (e e' : Entry) → EntryOk e → left p e ≡ some e' → EntryOk e'
unfolding left
left-EntryOk p e e' v h = left_with-EntryOk e e' _ (leave-Above 0 p e.period_counts v.counted) h

left_with-count : (q : ℕ) (e : Entry) (m : Periods) → entry_count q (left_with e m) ≡ count_of q m
unfolding left_with entry_count count_of
left_with-count q e [] = refl
left_with-count q e ((k, c) ∷ m) = refl

left-count :
    (p q : ℕ) (e : Entry)
    → EntryOk e
    → entry_count q (left p e) ≡ count_of q e.period_counts - (if p == q then 1 else 0)
unfolding left
left-count p q e v =
    left_with-count q e (leave p e.period_counts) ∙ count_of-leave 0 p q e.period_counts v.counted

module _ {F V : Type 0} (s : Scheduler F V) (v : SchedulerOk s) (sub : Subscription) where
  -- Giving back any token, even one that the table does not count, keeps the table in order.
  pub unsubscribe-SchedulerOk : SchedulerOk (unsubscribe s sub)
  unsubscribe-SchedulerOk = elim (unsubscribe_cases s sub) [
    | inl (_, same) ↦ rw same v
    | inr (inl (_, _, _, gone)) ↦ rw gone (
      remove-All (λ p. EntryOk p.1) sub.sensor s.entries v.0,
      remove-Unique sub.sensor s.entries v.1,
    )
    | inr (inr (e, e', found, stays, kept)) ↦ rw kept (
      insert-All (λ p. EntryOk p.1) sub.sensor e' s.entries v.0
          (left-EntryOk sub.period e e' (lookup-All EntryOk sub.sensor s.entries v.0 found) stays),
      insert-Unique sub.sensor e' s.entries v.1,
    )
  ]

  abbrev counted_off : SensorId → ℕ → ℕ
  counted_off j q = if text_beq sub.sensor j && sub.period == q then 1 else 0

  -- The count at `j` when the entry of the subscription's sensor becomes `o`.
  after_left :
      (j : SensorId) (q : ℕ) (e : Entry)
      → lookup sub.sensor s.entries ≡ some e
      → entry_count q (if text_beq sub.sensor j then left sub.period e else lookup j s.entries)
        ≡ holders j q s - counted_off j q
  unfolding table_count entry_count
  after_left j q e found = elim (Bool-cases (text_beq sub.sensor j)) [
    | inl same ↦
        let here : lookup j s.entries ≡ some e = rw (← (text_beq_iff sub.sensor j).0 same) found in
        rw (same, here, table_count, entry_count)
          (left-count sub.period q e (lookup-All EntryOk sub.sensor s.entries v.0 found))
    | inr other ↦ rw other (omega arith)
  ]

  after_absent :
      lookup sub.sensor s.entries ≡ none
      → (j : SensorId) (q : ℕ) → holders j q s ≡ holders j q s - counted_off j q
  unfolding table_count entry_count
  after_absent absent j q = elim (Bool-cases (text_beq sub.sensor j)) [
    | inl same ↦
        let here : lookup j s.entries ≡ none = rw (← (text_beq_iff sub.sensor j).0 same) absent in
        rw (here, table_count, entry_count) (omega arith)
    | inr other ↦ rw other (omega arith)
  ]

  -- Giving back a token takes one off the count at its sensor and period, if there is one, and
  -- changes no other count.
  pub unsubscribe-holders :
      (j : SensorId) (q : ℕ) → holders j q (unsubscribe s sub) ≡ holders j q s - counted_off j q
  unfolding table_count
  unsubscribe-holders j q = elim (unsubscribe_cases s sub) [
    | inl (absent, same) ↦ rw same (after_absent absent j q)
    | inr (inl (e, found, none_left, gone)) ↦
        rw (gone, lookup-remove sub.sensor j s.entries, ← none_left) (after_left j q e found)
    | inr (inr (e, e', found, stays, kept)) ↦
        rw (kept, lookup-insert sub.sensor j e' s.entries, ← stays) (after_left j q e found)
  ]
