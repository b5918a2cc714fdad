-- ===== src/Sensors/ProcStat/Cores.antt =====
-- Which cores are reported.
use lin_sight.Base.{
  ℕ, ◌<◌, ◌≡◌, ◌⊎◌, refl, subst, sym, ◌∙◌, Bool, true, false, ◌&&◌, List, [], ◌∷◌, some, Text,
  codes, arith, All, leb, Bool-cases, Option-cases, inl, inr,
}
use lin_sight.Base.Sorting.{sort_by, sort_by-Reordered, All-Reordered}
use lin_sight.Core.Chars.{
  lines, split_whitespace, words_from, trim, is_ascii_digit, is_ascii_whitespace, is_whitespace,
  strip_prefix,
}
use lin_sight.Core.Numbers.{parse_unsigned, unsigned, digits_value}
use lin_sight.Core.Hardware.{Checked-cases, ok}
use lin_sight.Sensors.ProcStat.{
  Stat, StatError, CoreLine, core, skipped, wrong, starts_blank, core_index, core_of, core_line,
  parse_core_stat, collect_cores, parse_core_stats,
}

first_word :
    (c : ℕ) (t : Text)
    → is_ascii_digit c ≡ true
    → starts_blank t ≡ true
    → (more : List Text) × (split_whitespace (c ∷ t) ≡ (c ∷ []) ∷ more)
unfolding split_whitespace words_from is_ascii_digit is_whitespace is_ascii_whitespace
first_word c [] digit blank = ([], ground arith)
first_word c (d ∷ t) digit blank =
    let black : is_whitespace c ≡ false = ground arith in
    let white : is_whitespace d ≡ true = ground arith in
    (words_from [] t, rw (split_whitespace, words_from, black, white) refl)

one_digit :
    (c : ℕ) {n : ℕ}
    → is_ascii_digit c ≡ true
    → parse_unsigned 0xffff_ffff (c ∷ []) ≡ some n
    → n < 10
unfolding parse_unsigned unsigned digits_value is_ascii_digit
one_digit c {n} digit h = ground arith

core_index-small :
    (c : ℕ) (t : Text) {n : ℕ}
    → is_ascii_digit c ≡ true
    → starts_blank t ≡ true
    → core_index (c ∷ t) ≡ some n
    → n < 10
unfolding core_index
core_index-small c t {n} digit blank h =
    let (more, split) = first_word c t digit blank in
    let parsed : parse_unsigned 0xffff_ffff (c ∷ []) ≡ some n =
      sym (rw (core_index, split) refl) ∙ h in
    one_digit c {n = n} digit parsed

-- A line that gives a core gives one below 10.
abbrev Small : CoreLine → Type 0
Small (core idx s) = idx < 10
Small skipped = Unit {0}
Small (wrong e) = Unit {0}

core_of-Small : (trimmed rest : Text) → Small (core_of trimmed rest)
unfolding core_of
core_of-Small trimmed [] = tt
core_of-Small trimmed (c ∷ t) = elim (Bool-cases (is_ascii_digit c && starts_blank t)) [
  | inr no_core ↦ rw (core_of, no_core) tt
  | inl fits ↦ elim (Option-cases (core_index (c ∷ t))) [
    | inl bad ↦ rw (core_of, fits, bad) tt
    | inr (n, index) ↦ elim (Checked-cases (parse_core_stat trimmed)) [
      | inr (e, bad) ↦ rw (core_of, fits, index, bad) tt
      | inl (s, good) ↦
          rw (core_of, fits, index, good)
            (core_index-small c t {n = n} (ground arith) (ground arith) index)
    ]
  ]
]

core_line-Small : (l : Text) → Small (core_line l)
unfolding core_line
core_line-Small l = elim (Option-cases (strip_prefix (codes "cpu") (trim l))) [
  | inl other ↦ rw (core_line, other) tt
  | inr (rest, found) ↦ rw (core_line, found) (core_of-Small (trim l) rest)
]

CoreLine-cases :
    (l : CoreLine)
    → ((n : ℕ) × (s : Stat) × (l ≡ core n s)) ⊎ (l ≡ skipped) ⊎ ((e : StatError) × (l ≡ wrong e))
CoreLine-cases (core n s) = inl (n, s, refl)
CoreLine-cases skipped = inr (inl refl)
CoreLine-cases (wrong e) = inr (inr (e, refl))

collect_cores-small :
    (ls : List Text) {cores : List (ℕ × Stat)}
    → collect_cores ls ≡ ok cores
    → All (λ p. p.0 < 10) cores
unfolding collect_cores
collect_cores-small [] {cores} h =
    let none_left : [] ≡ cores = ground arith in subst (All (λ p. p.0 < 10)) none_left tt
collect_cores-small (l ∷ ls) {cores} h = elim (CoreLine-cases (core_line l)) [
  | inr (inl passed) ↦
      collect_cores-small ls {cores = cores} (sym (rw (collect_cores, passed) refl) ∙ h)
  | inr (inr (e, bad)) ↦ absurd (ground (arith, bad))
  | inl (n, s, found) ↦ elim (Checked-cases (collect_cores ls)) [
    | inr (e, bad) ↦ absurd (ground (arith, found, bad))
    | inl (later, good) ↦
        let whole : (n, s) ∷ later ≡ cores = ground (arith, found, good) in
        subst (All (λ p. p.0 < 10)) whole
          (subst Small found (core_line-Small l), collect_cores-small ls {cores = later} good)
  ]
]

-- Whatever the file says, no core beyond the tenth is reported: every index that comes back is below
-- 10.
pub parse_core_stats-small :
    (s : Text) {cores : List (ℕ × Stat)} → parse_core_stats s ≡ ok cores → All (λ p. p.0 < 10) cores
unfolding parse_core_stats
parse_core_stats-small s {cores} h = elim (Checked-cases (collect_cores (lines s))) [
  | inr (e, bad) ↦ absurd (ground (arith, bad))
  | inl (found, good) ↦
      let by_index : ℕ × Stat → ℕ × Stat → Bool = λ p q. leb p.0 q.0 in
      let sorted : sort_by by_index found ≡ cores = ground (arith, good) in
      subst (All (λ p. p.0 < 10)) sorted (
        All-Reordered (λ p. p.0 < 10) {l = found} {r = sort_by by_index found}
          (sort_by-Reordered by_index found) (collect_cores-small (lines s) {cores = found} good))
]
