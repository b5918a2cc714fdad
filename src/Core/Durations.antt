-- ===== src/Core/Durations.antt =====
-- crates/linsight-core/src/time.rs: durations written as a number and a unit. A `Duration` is its
-- seconds.
use lin_sight.Base.{
  ℕ, ◌+◌, ◌*◌, ◌%◌, ◌/◌, ◌<◌, ◌≤◌, ◌≡◌, refl, ap, ◌∙◌, Bool, true, false, ◌&&◌, [], ◌∷◌, ◌++◌,
  Option, none, some, Text, codes, arith, leb, ltb, ◌==◌, if◌then◌else◌, u64_max, zero, suc,
  Bool-cases, inl, inr,
}
use lin_sight.Base.Keys.{text_beq}
use lin_sight.Core.Chars.{
  is_ascii_digit, is_whitespace, all_chars, trim, trim_start, trim_end, keep_end,
}
use lin_sight.Core.Numbers.{
  parse_unsigned, decimal, digits_onto, decimal-starts, parse_unsigned-decimal,
}

-- The split at the first character that is no digit.
unfoldable split_digits : Text → Text × Text
unfolding is_ascii_digit
split_digits [] = ([], [])
split_digits (c ∷ cs) =
    let (digits, unit) = split_digits cs in
    if is_ascii_digit c then (c ∷ digits, unit) else ([], c ∷ cs)

unfoldable checked_mul : ℕ → ℕ → Option ℕ
checked_mul n k = if leb (n * k) u64_max then some (n * k) else none

-- The seconds of a unit.
unfoldable unit_secs : Text → Option ℕ
unit_secs unit =
    if text_beq unit (codes "d")
    then some 86_400
    else if text_beq unit (codes "h")
    then some 3_600
    else if text_beq unit (codes "m")
    then some 60
    else none

unfoldable in_unit : ℕ → Text → Option ℕ
unfolding checked_mul unit_secs
in_unit n unit = elim (unit_secs unit) [ none ↦ none | some k ↦ checked_mul n k ]

unfoldable of_count : Option ℕ → Text → Option ℕ
unfolding in_unit
of_count none unit = none
of_count (some n) unit = if n == 0 then none else in_unit n unit

unfoldable pub parse_duration_dhm : Text → Option ℕ
unfolding split_digits of_count
parse_duration_dhm s =
    let (digits, unit) = split_digits (trim s) in of_count (parse_unsigned u64_max digits) unit

both_true : (a b : Bool) → (a && b) ≡ true → (a ≡ true) × (b ≡ true)
both_true true b h = (refl, h)
both_true false b h = absurd (cc)

digits_onto-digits :
    (fuel n : ℕ) (acc : Text)
    → all_chars is_ascii_digit acc ≡ true
    → all_chars is_ascii_digit (digits_onto fuel n acc) ≡ true
unfolding digits_onto all_chars is_ascii_digit
digits_onto-digits zero n acc h = h
digits_onto-digits (suc fuel) n acc h = elim (Bool-cases (ltb n 10)) [
  | inl small ↦ ground arith
  | inr big ↦
      let below : n % 10 < 10 = omega arith in
      rw big (digits_onto-digits fuel (n / 10) ((b'0' + n % 10) ∷ acc) (ground arith))
]

split_digits-append :
    (ds : Text) (u : ℕ)
    → all_chars is_ascii_digit ds ≡ true
    → is_ascii_digit u ≡ false
    → split_digits (ds ++ u ∷ []) ≡ (ds, u ∷ [])
unfolding split_digits all_chars
split_digits-append [] u all other = rw other refl
split_digits-append (d ∷ ds) u all other =
    let (digit, rest) = both_true (is_ascii_digit d) (all_chars is_ascii_digit ds) all in
    rw (digit, split_digits-append ds u rest other) refl

trim_end-append :
    (s : Text) (u : ℕ) → is_whitespace u ≡ false → trim_end (s ++ u ∷ []) ≡ s ++ u ∷ []
unfolding trim_end keep_end
trim_end-append [] u h = rw h refl
trim_end-append (c ∷ []) u h = rw h refl
trim_end-append (c ∷ d ∷ s) u h = ap (keep_end c) (trim_end-append (d ∷ s) u h)

digit-not_whitespace : (c : ℕ) → is_ascii_digit c ≡ true → is_whitespace c ≡ false
unfolding is_ascii_digit is_whitespace
digit-not_whitespace c h = ground arith

-- The seconds and the letter of a unit.
pub data DurationUnit : Type 0 where
  days : DurationUnit
  hours : DurationUnit
  minutes : DurationUnit

abbrev pub letter : DurationUnit → ℕ
letter days = b'd'
letter hours = b'h'
letter minutes = b'm'

abbrev pub secs : DurationUnit → ℕ
secs days = 86_400
secs hours = 3_600
secs minutes = 60

pub letter-plain :
    (u : DurationUnit) → (is_ascii_digit (letter u) ≡ false) × (is_whitespace (letter u) ≡ false)
unfolding is_ascii_digit is_whitespace
letter-plain days = (refl, refl)
letter-plain hours = (refl, refl)
letter-plain minutes = (refl, refl)

unit_secs-letter : (u : DurationUnit) → unit_secs (letter u ∷ []) ≡ some (secs u)
unfolding unit_secs text_beq
unit_secs-letter days = refl
unit_secs-letter hours = refl
unit_secs-letter minutes = refl

pub trim-written :
    (n u : ℕ) → is_whitespace u ≡ false → trim (decimal n ++ u ∷ []) ≡ decimal n ++ u ∷ []
unfolding trim trim_start
trim-written n u h =
    let (c, cs, same, digit) = decimal-starts n in
    rw (same, digit-not_whitespace c digit) (trim_end-append (c ∷ cs) u h)

split_digits-written :
    (n : ℕ) (u : DurationUnit)
    → split_digits (trim (decimal n ++ letter u ∷ [])) ≡ (decimal n, letter u ∷ [])
unfolding decimal all_chars
split_digits-written n u =
    let (plain, solid) = letter-plain u in
    rw (trim-written n (letter u) solid)
      (split_digits-append (decimal n) (letter u) (digits_onto-digits (suc n) n [] refl) plain)

of_count-letter :
    (n : ℕ) (u : DurationUnit)
    → 0 < n
    → of_count (some n) (letter u ∷ [])
      ≡ (if leb (n * secs u) u64_max then some (n * secs u) else none)
unfolding of_count in_unit checked_mul
of_count-letter n u positive =
    let counted : (n == 0) ≡ false = ground arith in
    rw counted (ap (λ k. elim k [ none ↦ none | some m ↦ checked_mul n m ]) (unit_secs-letter u))

-- A positive number with the letter of a unit behind it is read back as that many units, in
-- seconds, if the seconds fit into a `u64`; and if they do not, it is refused.
pub parse_duration_dhm-decimal :
    (n : ℕ) (u : DurationUnit)
    → 0 < n
    → n ≤ u64_max
    → parse_duration_dhm (decimal n ++ letter u ∷ [])
      ≡ (if leb (n * secs u) u64_max then some (n * secs u) else none)
unfolding parse_duration_dhm
parse_duration_dhm-decimal n u positive fits =
    ap (λ p. of_count (parse_unsigned u64_max p.0) p.1) (split_digits-written n u)
    ∙ ap (λ r. of_count r (letter u ∷ [])) (parse_unsigned-decimal u64_max n fits)
    ∙ of_count-letter n u positive

in_unit-bounds :
    (n : ℕ) (unit : Text) {k : ℕ} → 0 < n → in_unit n unit ≡ some k → (0 < k) × (k ≤ u64_max)
unfolding in_unit unit_secs checked_mul
in_unit-bounds n unit {k} positive h = ground arith

of_count-bounds :
    (r : Option ℕ) (unit : Text) {k : ℕ} → of_count r unit ≡ some k → (0 < k) × (k ≤ u64_max)
unfolding of_count
of_count-bounds none unit h = absurd (cc)
of_count-bounds (some n) unit {k} h = elim (Bool-cases (n == 0)) [
  | inl nothing ↦ let refused : none ≡ some k = rw nothing at h in absurd (cc)
  | inr counted ↦ in_unit-bounds n unit {k = k} (ground arith) (rw counted at h)
]

-- What is accepted is a positive number of seconds that fits into a `u64`.
pub parse_duration_dhm-bounds :
    (s : Text) {k : ℕ} → parse_duration_dhm s ≡ some k → (0 < k) × (k ≤ u64_max)
unfolding parse_duration_dhm
parse_duration_dhm-bounds s {k} h =
    let (digits, unit) = split_digits (trim s) in
    of_count-bounds (parse_unsigned u64_max digits) unit {k = k} h
