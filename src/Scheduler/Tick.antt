-- ===== src/Scheduler/Tick.antt =====
-- The two phases of a scheduler tick, `tick_plan` and `tick_commit`. Sums of a `u64` wrap, as in
-- a release build.
pub mod Plan
pub mod Commit
pub mod Backoff
pub mod Parking
use lin_sight.Base.{
  ℕ, ◌+◌, ◌*◌, ◌%◌, ◌^◌, ◌≡◌, Bool, true, false, List, [], ◌∷◌, ◌++◌, Option, none, some, arith,
  ltb, if◌then◌else◌, Text, min, u32_mod, u64_mod, u64_max,
}
use lin_sight.Base.Keys.{text_eq}
use lin_sight.Base.Dict.{Dict, lookup, insert}
use lin_sight.Core.Samples.{SensorId, Sample}
use lin_sight.Scheduler.Table.{Entry, Scheduler}

-- plugin.rs of the plugin SDK
pub data PluginError : Type 0 where
  io parse unsupported transient timeout manifest panicked : Text → PluginError

pub data Sampled (V : Type 0) : Type 0 where
  ok : Sample V → Sampled V
  err : PluginError → Sampled V

-- The due time that `tick_plan` writes ahead of the sampling.
unfoldable pub advance : ℕ → Entry → Entry
advance now e = record e { next_due = (now + e.period) % u64_mod }

-- The sensors that are due, and the entries with their due times moved on.
unfoldable pub plan_entries : ℕ → Dict SensorId Entry → List SensorId × Dict SensorId Entry
unfolding advance
plan_entries now [] = ([], [])
plan_entries now ((id, e) ∷ m) =
    let (due, rest) = plan_entries now m in
    if ltb now e.next_due then (due, (id, e) ∷ rest) else (id ∷ due, (id, advance now e) ∷ rest)

-- `strikes.saturating_add(1)` of a `u32`
unfoldable pub strike : ℕ → ℕ
strike n = min (n + 1) 0xffff_ffff

-- The due time after `n` failures in a row.
unfoldable pub backoff : ℕ → ℕ → ℕ → ℕ
backoff now period n = (now + min (period * 2 ^ min n 8) u64_max) % u64_mod

-- What `tick_commit` does to the entry of one result.
unfoldable pub fail : ℕ → Entry → PluginError → Entry
unfolding strike backoff
fail now e (unsupported _) =
    let n = strike e.unsupported_strikes in
    record e { unsupported_strikes = n; next_due = backoff now e.period n }
fail now e (timeout _) =
    let n = strike e.timeout_strikes in
    record e { timeout_strikes = n; next_due = backoff now e.period n }
fail now e _ = record e { next_due = (now + e.period) % u64_mod }

unfoldable pub succeed : ℕ → Entry → Entry
succeed now e = record e {
  unsupported_strikes = 0;
  timeout_strikes = 0;
  last_sampled = some now;
  next_due = if e.is_static then u64_max else e.next_due;
}

-- The table, the samples that go to the clients, and those that the history writer and the alert
-- engine are given, oldest first.
pub record Committed (F V : Type 0) : Type 0 where
  pub scheduler : Scheduler F V
  pub out : List (Sample V)
  pub recorded : List (Sample V)
  pub observed : List (Sample V)

abbrev if_attached {ℓ} : {A : Type ℓ} → Bool → A → List A
if_attached b a = if b then a ∷ [] else []

module _ {F V : Type 0} where
  unfoldable pub tick_plan : Scheduler F V → ℕ → List SensorId × Scheduler F V
  unfolding plan_entries
  tick_plan s now =
      let (due, entries) = plan_entries now s.entries in (due, record s { entries = entries })

  unfoldable pub write_entry : Scheduler F V → SensorId → Entry → Scheduler F V
  write_entry s id e = record s { entries = insert id e s.entries }

module _ {F V : Type 0} where
  unfoldable pub commit_found : Committed F V → ℕ → SensorId → Entry → Sampled V → Committed F V
  unfolding succeed fail write_entry
  commit_found c now id e (ok sample) = record c {
    scheduler = write_entry c.scheduler id (succeed now e);
    out = c.out ++ sample ∷ [];
    recorded = c.recorded ++ if_attached c.scheduler.history sample;
    observed = c.observed ++ if_attached c.scheduler.alerts sample;
  }
  commit_found c now id e (err why) = record c {
    scheduler = write_entry c.scheduler id (fail now e why);
  }

  -- A sensor that lost its last subscription between the phases is passed over.
  unfoldable pub commit_one : Committed F V → ℕ → SensorId × Sampled V → Committed F V
  unfolding commit_found
  commit_one c now (id, result) = elim (lookup id c.scheduler.entries) [
    | none ↦ c
    | some e ↦ commit_found c now id e result
  ]

  unfoldable pub commit_all : Committed F V → ℕ → List (SensorId × Sampled V) → Committed F V
  commit_all c now [] = c
  commit_all c now (r ∷ rs) = commit_all (commit_one c now r) now rs

  unfoldable pub tick_commit : Scheduler F V → List (SensorId × Sampled V) → ℕ → Committed F V
  unfolding commit_all commit_one
  tick_commit s results now =
      commit_all (record { scheduler = s; out = []; recorded = []; observed = [] }) now results
