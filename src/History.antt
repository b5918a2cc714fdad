-- ===== src/History.antt =====
-- apps/linsightd/src/history.rs: how long rows are kept. An instant is its nanoseconds, a retention its
-- seconds, a wall time its microseconds; a prune is the cutoff that the database is handed.
pub mod Retention
use lin_sight.Base.{
  ℕ, ◌*◌, ◌-◌, ◌%◌, ◌^◌, Bool, true, false, List, [], ◌∷◌, Option, none, some, Text, codes, ltb,
  if◌then◌else◌, u64_mod,
}
use lin_sight.Base.Keys.{text_beq}
use lin_sight.Core.Chars.{trim}
use lin_sight.Core.Durations.{parse_duration_dhm}

abbrev pub default_retention : ℕ
default_retention = 30 * 86_400

abbrev pub prune_interval : ℕ
prune_interval = 3_600 * 1_000_000_000

unfoldable or_default : Option ℕ → Option ℕ
or_default (some d) = some d
or_default none = some default_retention

unfoldable pub retention_from_env : Option Text → Option ℕ
unfolding or_default
retention_from_env none = some default_retention
retention_from_env (some s) =
    if text_beq (trim s) (codes "0") then none else or_default (parse_duration_dhm (trim s))

-- The cutoff, if a prune is due, and when the last prune was.
unfoldable pub maybe_prune : Option ℕ → ℕ → ℕ → ℕ → Option ℕ × ℕ
maybe_prune none last_prune now now_micros = (none, last_prune)
maybe_prune (some retention) last_prune now now_micros =
    if ltb (now - last_prune) prune_interval
    then (none, last_prune)
    else (some (now_micros - retention * 1_000_000 % u64_mod), now)

-- The prunes of the writer's loop, each with its instant, over the instants and wall times at which
-- it comes by.
unfoldable pub prunes : Option ℕ → ℕ → List (ℕ × ℕ) → List (ℕ × ℕ)
unfolding maybe_prune
prunes retention last_prune [] = []
prunes retention last_prune ((now, now_micros) ∷ ts) =
    let (cutoff, last) = maybe_prune retention last_prune now now_micros in
    let rest = prunes retention last ts in elim cutoff [ none ↦ rest | some c ↦ (now, c) ∷ rest ]
