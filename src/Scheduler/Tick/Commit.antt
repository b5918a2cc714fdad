-- ===== src/Scheduler/Tick/Commit.antt =====
-- What `tick_commit` does to each sensor, and which samples it hands on.
use lin_sight.Base.{
  ℕ, ◌≡◌, refl, Bool, true, false, List, [], ◌∷◌, ◌++◌, Option, none, some, arith, if◌then◌else◌,
  Option-cases, inl, inr, ◌∙◌, ◌⊎◌,
}
use mathlib.Core.List.{append_assoc, append-nil}
use lin_sight.Base.Keys.{text_beq, text_eq, text_beq_iff}
use lin_sight.Base.Dict.{Dict, lookup, lookup-insert, insert-All, insert-Unique, lookup-All}
use lin_sight.Core.Samples.{SensorId, Sample}
use lin_sight.Scheduler.Table.{Entry, Scheduler}
use lin_sight.Scheduler.Counts.{EntryOk, SchedulerOk, holders, table_count, entry_count}
use lin_sight.Scheduler.Tick.{
  Sampled, ok, err, PluginError, Committed, fail, succeed, write_entry, commit_found, commit_one,
  commit_all, tick_commit,
}

abbrev pub is_some {ℓ} : {A : Type ℓ} → Option A → Bool
is_some none = false
is_some (some a) = true

-- The entry after one result.
unfoldable pub settled : {V : Type 0} → ℕ → Entry → Sampled V → Entry
settled now e (ok sample) = succeed now e
settled now e (err why) = fail now e why

-- The entry of `id` after the results, read in order.
unfoldable pub settled_by :
    {V : Type 0} → ℕ → SensorId → Option Entry → List (SensorId × Sampled V) → Option Entry
settled_by now id none rs = none
settled_by now id (some e) [] = some e
settled_by now id (some e) ((j, r) ∷ rs) =
    settled_by now id (some (if text_beq j id then settled now e r else e)) rs

-- The samples of the successful results at sensors that are subscribed.
unfoldable pub delivered :
    {V : Type 0} → Dict SensorId Entry → List (SensorId × Sampled V) → List (Sample V)
delivered m [] = []
delivered m ((id, err why) ∷ rs) = delivered m rs
delivered m ((id, ok sample) ∷ rs) =
    if is_some (lookup id m) then sample ∷ delivered m rs else delivered m rs

fail-EntryOk : (now : ℕ) (e : Entry) (why : PluginError) → EntryOk e → EntryOk (fail now e why)
unfolding fail
fail-EntryOk now e (PluginError.io _) v = ground arith
fail-EntryOk now e _ v = ground arith

fail-counts :
    (now : ℕ) (e : Entry) (why : PluginError) → (fail now e why).period_counts ≡ e.period_counts
unfolding fail
fail-counts now e (PluginError.io _) = refl
fail-counts now e _ = refl

module _ {V : Type 0} where
  settled-EntryOk : (now : ℕ) (e : Entry) (r : Sampled V) → EntryOk e → EntryOk (settled now e r)
  unfolding settled succeed
  settled-EntryOk now e (ok sample) v = ground arith
  settled-EntryOk now e (err why) v = fail-EntryOk now e why v

  settled-counts :
      (now : ℕ) (e : Entry) (r : Sampled V) → (settled now e r).period_counts ≡ e.period_counts
  unfolding settled succeed
  settled-counts now e (ok sample) = refl
  settled-counts now e (err why) = fail-counts now e why

module _ {F V : Type 0} where
  commit_found-scheduler :
      (c : Committed F V) (now : ℕ) (id : SensorId) (e : Entry) (r : Sampled V)
      → (commit_found c now id e r).scheduler ≡ write_entry c.scheduler id (settled now e r)
  unfolding commit_found settled
  commit_found-scheduler c now id e (ok sample) = refl
  commit_found-scheduler c now id e (err why) = refl

  commit_one-scheduler :
      (c : Committed F V) (now : ℕ) (id : SensorId) (r : Sampled V)
      → ((lookup id c.scheduler.entries ≡ none) × (commit_one c now (id, r) ≡ c))
        ⊎ ((e : Entry) × (lookup id c.scheduler.entries ≡ some e)
            × (commit_one c now (id, r) ≡ commit_found c now id e r)
            × ((commit_one c now (id, r)).scheduler ≡ write_entry c.scheduler id (settled now e r)))
  unfolding commit_one
  commit_one-scheduler c now id r = elim (Option-cases (lookup id c.scheduler.entries)) [
    | inl absent ↦ inl (absent, rw (absent, commit_one))
    | inr (e, found) ↦ inr (
      e,
      found,
      rw (found, commit_one),
      rw (found, commit_one) (commit_found-scheduler c now id e r),
    )
  ]

  commit_one-SchedulerOk :
      (c : Committed F V) (now : ℕ) (id : SensorId) (r : Sampled V)
      → SchedulerOk c.scheduler
      → SchedulerOk (commit_one c now (id, r)).scheduler
  unfolding write_entry
  commit_one-SchedulerOk c now id r v = elim (commit_one-scheduler c now id r) [
    | inl (_, same) ↦ rw same v
    | inr (e, found, _, is_s) ↦ rw is_s (
      insert-All (λ p. EntryOk p.1) id _ c.scheduler.entries v.0
          (settled-EntryOk now e r (lookup-All EntryOk id c.scheduler.entries v.0 found)),
      insert-Unique id _ c.scheduler.entries v.1,
    )
  ]

  lookup-commit_one :
      (c : Committed F V) (now : ℕ) (id j : SensorId) (r : Sampled V) {e : Entry}
      → lookup j c.scheduler.entries ≡ some e
      → lookup j (commit_one c now (id, r)).scheduler.entries
        ≡ some (if text_beq id j then settled now e r else e)
  unfolding write_entry
  lookup-commit_one c now id j r {e} here = elim (commit_one-scheduler c now id r) [
    | inl (absent, same) ↦ rw same (ground (arith, text_beq_iff id j))
    | inr (e', found, _, is_s) ↦
        rw (is_s, lookup-insert id j (settled now e' r) c.scheduler.entries)
          (ground (arith, text_beq_iff id j))
  ]

  lookup-commit_one-none :
      (c : Committed F V) (now : ℕ) (id j : SensorId) (r : Sampled V)
      → lookup j c.scheduler.entries ≡ none
      → lookup j (commit_one c now (id, r)).scheduler.entries ≡ none
  unfolding write_entry
  lookup-commit_one-none c now id j r here = elim (commit_one-scheduler c now id r) [
    | inl (absent, same) ↦ rw same here
    | inr (e', found, _, is_s) ↦
        rw (is_s, lookup-insert id j (settled now e' r) c.scheduler.entries)
          (ground (arith, text_beq_iff id j))
  ]

  known-commit_one :
      (c : Committed F V) (now : ℕ) (id j : SensorId) (r : Sampled V)
      → is_some (lookup j (commit_one c now (id, r)).scheduler.entries)
        ≡ is_some (lookup j c.scheduler.entries)
  known-commit_one c now id j r = elim (Option-cases (lookup j c.scheduler.entries)) [
    | inl absent ↦ rw (absent, lookup-commit_one-none c now id j r absent)
    | inr (e, found) ↦ rw (found, lookup-commit_one c now id j r found)
  ]

  lookup-commit_all :
      (c : Committed F V) (now : ℕ) (id : SensorId) (rs : List (SensorId × Sampled V))
      → lookup id (commit_all c now rs).scheduler.entries
        ≡ settled_by now id (lookup id c.scheduler.entries) rs
  unfolding commit_all settled_by
  lookup-commit_all c now id [] = elim (Option-cases (lookup id c.scheduler.entries)) [
    | inl absent ↦ rw absent
    | inr (e, found) ↦ rw found
  ]
  lookup-commit_all c now id ((j, r) ∷ rs) =
      lookup-commit_all (commit_one c now (j, r)) now id rs
      ∙ elim (Option-cases (lookup id c.scheduler.entries)) [
        | inl absent ↦ rw (absent, lookup-commit_one-none c now j id r absent)
        | inr (e, found) ↦ rw (found, lookup-commit_one c now j id r found)
      ]

  commit_all-SchedulerOk :
      (c : Committed F V) (now : ℕ) (rs : List (SensorId × Sampled V))
      → SchedulerOk c.scheduler
      → SchedulerOk (commit_all c now rs).scheduler
  unfolding commit_all
  commit_all-SchedulerOk c now [] v = v
  commit_all-SchedulerOk c now ((j, r) ∷ rs) v =
      commit_all-SchedulerOk (commit_one c now (j, r)) now rs (commit_one-SchedulerOk c now j r v)

  -- The three lists of one result.
  commit_one-lists :
      (c : Committed F V) (now : ℕ) (id : SensorId) (r : Sampled V)
      → let s = c.scheduler in
        let d = delivered s.entries ((id, r) ∷ []) in
        let c' = commit_one c now (id, r) in
        (c'.out ≡ c.out ++ d)
        × (c'.recorded ≡ c.recorded ++ (if s.history then d else []))
        × (c'.observed ≡ c.observed ++ (if s.alerts then d else []))
        × (c'.scheduler.history ≡ s.history)
        × (c'.scheduler.alerts ≡ s.alerts)
  unfolding delivered commit_one
  commit_one-lists c now id (ok sample) =
      ground (arith, append-nil c.out, append-nil c.recorded, append-nil c.observed)
  commit_one-lists c now id (err why) =
      ground (arith, append-nil c.out, append-nil c.recorded, append-nil c.observed)

module _ {V : Type 0} where
  delivered-cons :
      (m : Dict SensorId Entry) (r : SensorId × Sampled V) (rs : List (SensorId × Sampled V))
      → delivered m (r ∷ rs) ≡ delivered m (r ∷ []) ++ delivered m rs
  unfolding delivered
  delivered-cons m (id, ok sample) rs = ground arith
  delivered-cons m (id, err why) rs = refl

  delivered-known :
      (m m' : Dict SensorId Entry) (rs : List (SensorId × Sampled V))
      → ((j : SensorId) → is_some (lookup j m) ≡ is_some (lookup j m'))
      → delivered m rs ≡ delivered m' rs
  unfolding delivered
  delivered-known m m' [] h = refl
  delivered-known m m' ((id, ok sample) ∷ rs) h = rw (h id, delivered-known m m' rs h)
  delivered-known m m' ((id, err why) ∷ rs) h = delivered-known m m' rs h

  if-append :
      (b : Bool) (xs ys : List (Sample V))
      → (if b then xs ++ ys else []) ≡ (if b then xs else []) ++ (if b then ys else [])
  if-append true xs ys = refl
  if-append false xs ys = refl

module _ {F V : Type 0} where
  commit_all-lists :
      (c : Committed F V) (now : ℕ) (rs : List (SensorId × Sampled V))
      → let s = c.scheduler in
        let d = delivered s.entries rs in
        let c' = commit_all c now rs in
        (c'.out ≡ c.out ++ d)
        × (c'.recorded ≡ c.recorded ++ (if s.history then d else []))
        × (c'.observed ≡ c.observed ++ (if s.alerts then d else []))
  unfolding commit_all
  commit_all-lists c now [] =
      unfold delivered in
      ground (arith, append-nil c.out, append-nil c.recorded, append-nil c.observed)
  commit_all-lists c now ((id, r) ∷ rs) =
      let (out, recorded, observed, history, alerts) = commit_one-lists c now id r in
      let (out', recorded', observed') = commit_all-lists (commit_one c now (id, r)) now rs in
      let m = c.scheduler.entries in
      let one = delivered m ((id, r) ∷ []) in
      let more = delivered m rs in
      let known =
        delivered-known (commit_one c now (id, r)).scheduler.entries m rs
          (λ j. known-commit_one c now id j r) in
      let split = delivered-cons m (id, r) rs in
      ground (
        arith,
        known,
        split,
        append_assoc c.out one more,
        append_assoc c.recorded one more,
        append_assoc c.observed one more,
        append-nil c.recorded,
        append-nil c.observed,
      )

module _ {F V : Type 0} (s : Scheduler F V) (results : List (SensorId × Sampled V)) (now : ℕ) where
  pub tick_commit-SchedulerOk : SchedulerOk s → SchedulerOk (tick_commit s results now).scheduler
  unfolding tick_commit
  tick_commit-SchedulerOk v = commit_all-SchedulerOk _ now results v

  -- Each sensor's entry after a commit depends on its own results alone, in their order; a sensor
  -- that nobody is subscribed to gets no entry.
  pub tick_commit_entry :
      (id : SensorId)
      → lookup id (tick_commit s results now).scheduler.entries
        ≡ settled_by now id (lookup id s.entries) results
  unfolding tick_commit
  tick_commit_entry id = lookup-commit_all _ now id results

  -- The clients are handed the successful samples of the subscribed sensors, in order and once
  -- each, and so are the history writer and the alert engine if they are attached.
  pub tick_commit_delivers :
      let c = tick_commit s results now in
      let d = delivered s.entries results in
      (c.out ≡ d)
      × (c.recorded ≡ (if s.history then d else []))
      × (c.observed ≡ (if s.alerts then d else []))
  unfolding tick_commit
  tick_commit_delivers = commit_all-lists _ now results

  settled_by-count :
      (p : ℕ) (id : SensorId) (o : Option Entry) (rs : List (SensorId × Sampled V))
      → entry_count p (settled_by now id o rs) ≡ entry_count p o
  unfolding settled_by entry_count
  settled_by-count p id none rs = refl
  settled_by-count p id (some e) [] = refl
  settled_by-count p id (some e) ((j, r) ∷ rs) = ground (
    arith,
    settled_by-count p id (some (if text_beq j id then settled now e r else e)) rs,
    settled-counts now e r,
  )

  pub tick_commit-holders :
      (id : SensorId) (p : ℕ) → holders id p (tick_commit s results now).scheduler ≡ holders id p s
  unfolding table_count
  tick_commit-holders id p =
      rw (tick_commit_entry id) (settled_by-count p id (lookup id s.entries) results)
