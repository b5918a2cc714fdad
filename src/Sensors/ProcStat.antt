-- ===== src/Sensors/ProcStat.antt =====
-- crates/linsight-sensors/cpu/src/proc_stat.rs: the counters of /proc/stat. Sums and differences of
-- `u64` wrap, as in a release build; `CoreStat`, which has the fields of `Stat`, is `Stat` here.
pub mod Cores
pub mod Usage
use lin_sight.Base.{
  ℕ, ◌+◌, ◌-◌, ◌%◌, ◌^◌, Bool, true, false, not, ◌&&◌, List, [], ◌∷◌, Option, none, some, Text,
  codes, if◌then◌else◌, leb, ◌==◌, u64_mod, u64_max, zero, suc,
}
use lin_sight.Base.Keys.{text_beq}
use lin_sight.Base.Sorting.{sort_by}
use lin_sight.Core.Chars.{
  lines, split_whitespace, trim, is_ascii_digit, is_ascii_whitespace, strip_prefix,
}
use lin_sight.Core.Numbers.{parse_unsigned}
use lin_sight.Core.Hardware.{Checked, ok, err}

pub data StatError : Type 0 where
  missing_aggregate too_short : StatError
  bad_number : Text → StatError

pub record Stat : Type 0 where
  pub user : ℕ
  pub nice : ℕ
  pub system : ℕ
  pub idle : ℕ
  pub iowait : ℕ
  pub irq : ℕ
  pub softirq : ℕ
  pub steal : ℕ

unfoldable pub total : Stat → ℕ
total s = (s.user + s.nice + s.system + s.idle + s.iowait + s.irq + s.softirq + s.steal) % u64_mod

-- A difference of two `u64`.
unfoldable pub wrapping_sub : ℕ → ℕ → ℕ
wrapping_sub a b = (a + u64_mod - b) % u64_mod

unfoldable pub busy : Stat → ℕ
unfolding total wrapping_sub
busy s = wrapping_sub (wrapping_sub (total s) s.idle) s.iowait

-- One field, and the tokens behind it.
unfoldable pub parse_field : List Text → Checked StatError (ℕ × List Text)
unfolding parse_unsigned
parse_field [] = err too_short
parse_field (tok ∷ toks) = elim (parse_unsigned u64_max tok) [
  | none ↦ err (bad_number tok)
  | some n ↦ ok (n, toks)
]

-- As many fields as are asked for.
unfoldable pub parse_fields : List Text → ℕ → Checked StatError (List ℕ)
unfolding parse_field
parse_fields toks zero = ok []
parse_fields toks (suc n) = elim (parse_field toks) [
  | err e ↦ err e
  | ok (x, rest) ↦ elim (parse_fields rest n) [ err e ↦ err e | ok xs ↦ ok (x ∷ xs) ]
]

-- The eight fields in their order.
unfoldable pub stat_of : List ℕ → Checked StatError Stat
stat_of (user ∷ nice ∷ system ∷ idle ∷ iowait ∷ irq ∷ softirq ∷ steal ∷ []) = ok (record {
  user = user;
  nice = nice;
  system = system;
  idle = idle;
  iowait = iowait;
  irq = irq;
  softirq = softirq;
  steal = steal;
})
stat_of _ = err too_short

unfoldable pub parse_stat : List Text → Checked StatError Stat
unfolding parse_fields stat_of
parse_stat toks = elim (parse_fields toks 8) [ err e ↦ err e | ok xs ↦ stat_of xs ]

unfoldable pub parse_aggregate : List Text → Checked StatError Stat
unfolding parse_stat
parse_aggregate [] = err missing_aggregate
parse_aggregate (first ∷ toks) =
    if text_beq first (codes "cpu") then parse_stat toks else err missing_aggregate

unfoldable pub parse_proc_stat : Text → Checked StatError Stat
unfolding lines split_whitespace parse_aggregate
parse_proc_stat s = elim (lines s) [
  | [] ↦ err missing_aggregate
  | line ∷ more ↦ parse_aggregate (split_whitespace line)
]

unfoldable pub parse_core_stat : Text → Checked StatError Stat
unfolding split_whitespace parse_stat
parse_core_stat line = elim (split_whitespace line) [
  | [] ↦ err missing_aggregate
  | first ∷ toks ↦ parse_stat toks
]

-- A core's index and counters, no core on this line, or an error.
pub data CoreLine : Type 0 where
  core : ℕ → Stat → CoreLine
  skipped : CoreLine
  wrong : StatError → CoreLine

abbrev pub starts_blank : Text → Bool
starts_blank [] = true
starts_blank (c ∷ cs) = is_ascii_whitespace c

-- The index of a core, a `u32`, in front of `rest`.
unfoldable pub core_index : Text → Option ℕ
unfolding split_whitespace parse_unsigned
core_index rest = elim (split_whitespace rest) [
  | [] ↦ none
  | tok ∷ toks ↦ parse_unsigned 0xffff_ffff tok
]

-- `trimmed`, which is `cpu` and then `rest`.
unfoldable pub core_of : Text → Text → CoreLine
unfolding core_index parse_core_stat
core_of trimmed [] = skipped
core_of trimmed (c ∷ digits) =
    if is_ascii_digit c && starts_blank digits
    then elim (core_index (c ∷ digits)) [
      | none ↦ wrong (bad_number trimmed)
      | some idx ↦ elim (parse_core_stat trimmed) [ err e ↦ wrong e | ok s ↦ core idx s ]
    ]
    else skipped

unfoldable pub core_line : Text → CoreLine
unfolding trim strip_prefix core_of
core_line line = elim (strip_prefix (codes "cpu") (trim line)) [
  | none ↦ skipped
  | some rest ↦ core_of (trim line) rest
]

unfoldable pub collect_cores : List Text → Checked StatError (List (ℕ × Stat))
unfolding core_line
collect_cores [] = ok []
collect_cores (l ∷ ls) = elim (core_line l) [
  | wrong e ↦ err e
  | skipped ↦ collect_cores ls
  | core idx s ↦ elim (collect_cores ls) [ err e ↦ err e | ok cores ↦ ok ((idx, s) ∷ cores) ]
]

unfoldable pub parse_core_stats : Text → Checked StatError (List (ℕ × Stat))
unfolding lines collect_cores
parse_core_stats s = elim (collect_cores (lines s)) [
  | err e ↦ err e
  | ok cores ↦ ok (sort_by (λ p q. leb p.0 q.0) cores)
]

pub record ProcStatSnapshot : Type 0 where
  pub aggregate : Stat
  pub cores : List (ℕ × Stat)

-- The snapshot of a file's content.
unfoldable pub snapshot_of : Text → Checked StatError ProcStatSnapshot
unfolding parse_proc_stat parse_core_stats
snapshot_of content = elim (parse_proc_stat content) [
  | err e ↦ err e
  | ok stat ↦ elim (parse_core_stats content) [
    | err e ↦ err e
    | ok cores ↦ ok (record { aggregate = stat; cores = cores })
  ]
]

-- The ticks in use and all the ticks between two samples, whose quotient is the utilisation; `none`
-- stands for 0 per cent.
unfoldable pub util_between : Stat → Stat → Option (ℕ × ℕ)
unfolding total busy
util_between a b =
    if total b - total a == 0 then none else some (busy b - busy a, total b - total a)
