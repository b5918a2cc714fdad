-- ===== src/Sensors/ProcStat/Usage.antt =====
-- The utilisation between two samples.
use lin_sight.Base.{ℕ, ◌+◌, ◌-◌, ◌≤◌, ◌<◌, ◌≡◌, some, arith, u64_mod}
use lin_sight.Sensors.ProcStat.{Stat, total, busy, wrapping_sub, util_between}

-- All the ticks of a sample, without a bound.
abbrev pub ticks : Stat → ℕ
ticks s = s.user + s.nice + s.system + s.idle + s.iowait + s.irq + s.softirq + s.steal

wrapping_sub-le : (a b : ℕ) → b ≤ a → a < u64_mod → wrapping_sub a b ≡ a - b
unfolding wrapping_sub
wrapping_sub-le a b h g = omega (arith, h, g)

busy-sum :
    (s : Stat)
    → ticks s < u64_mod
    → busy s ≡ s.user + s.nice + s.system + s.irq + s.softirq + s.steal
unfolding busy total wrapping_sub
busy-sum s h = omega (arith, h)

total-sum : (s : Stat) → ticks s < u64_mod → total s ≡ ticks s
unfolding total
total-sum s h = omega (arith, h)

-- Between two samples whose ticks fit in 64 bits, and of which the second counts no fewer idle and
-- waiting ticks than the first, no more ticks are in use than pass: the utilisation is 100 per
-- cent at most.
pub util_between-le :
    (a b : Stat) {used passed : ℕ}
    → ticks a < u64_mod
    → ticks b < u64_mod
    → a.idle ≤ b.idle
    → a.iowait ≤ b.iowait
    → util_between a b ≡ some (used, passed)
    → used ≤ passed
unfolding util_between
util_between-le a b {used} {passed} fits_a fits_b idle iowait h =
    let same_used : busy b - busy a ≡ used = ground arith in
    let same_passed : total b - total a ≡ passed = ground arith in
    omega (
      arith,
      busy-sum a fits_a,
      busy-sum b fits_b,
      total-sum a fits_a,
      total-sum b fits_b,
      idle,
      iowait,
      same_used,
      same_passed,
    )
