-- ===== src/Tests/Retentions.antt =====
-- A retention of twelve hours, and three visits of the writer.
use lin_sight.Base.{ℕ, ◌*◌, ◌+◌, List, [], ◌∷◌, ◌++◌, some, arith}
use lin_sight.Core.Numbers.{decimal}
use lin_sight.Core.Durations.{hours, letter, secs}
use lin_sight.History.{prunes, retention_from_env, prune_interval}
use lin_sight.History.Retention.{Hourly, written_retention}

abbrev visits : List (ℕ × ℕ)
visits =
    (prune_interval, 1_700_000_000_000_000)
    ∷ (prune_interval + 1_000_000_000, 1_700_000_001_000_000)
    ∷ (2 * prune_interval, 1_700_003_600_000_000)
    ∷ []

written_retention_example :
    Hourly
      (12 * secs hours)
      0
      visits
      (prunes (retention_from_env (some (decimal 12 ++ letter hours ∷ []))) 0 visits)
written_retention_example = written_retention 12 hours 0 visits (omega arith) (omega arith)
