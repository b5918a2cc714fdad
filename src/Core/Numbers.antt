-- ===== src/Core/Numbers.antt =====
-- `to_string` and `parse` of Rust's unsigned integers.
use lin_sight.Base.{
  ℕ, ◌+◌, ◌*◌, ◌/◌, ◌%◌, ◌-◌, ◌<◌, ◌≤◌, ◌≡◌, refl, true, [], ◌∷◌, Option, none, some, arith, ltb,
  leb, ◌==◌, if◌then◌else◌, Text, zero, suc, Bool-cases, inl, inr,
}
use lin_sight.Core.Chars.{is_ascii_digit}

-- The digits of a number, on fuel, in front of others.
unfoldable pub digits_onto : ℕ → ℕ → Text → Text
digits_onto zero n acc = acc
digits_onto (suc fuel) n acc =
    let rest = digits_onto fuel (n / 10) ((b'0' + n % 10) ∷ acc) in
    if ltb n 10 then (b'0' + n) ∷ acc else rest

unfoldable pub decimal : ℕ → Text
unfolding digits_onto
decimal n = digits_onto (suc n) n []

-- The value of a text of digits behind a number, at most `max`.
unfoldable pub digits_value : ℕ → ℕ → Text → Option ℕ
unfolding is_ascii_digit
digits_value max n [] = some n
digits_value max n (c ∷ cs) =
    let rest = digits_value max (n * 10 + (c - b'0')) cs in
    if is_ascii_digit c then if leb (n * 10 + (c - b'0')) max then rest else none else none

unfoldable pub unsigned : ℕ → Text → Option ℕ
unfolding digits_value
unsigned max [] = none
unsigned max (c ∷ cs) = digits_value max 0 (c ∷ cs)

-- `from_str` of an unsigned type whose greatest value is `max`: a plus sign may stand in front.
unfoldable pub parse_unsigned : ℕ → Text → Option ℕ
unfolding unsigned
parse_unsigned max [] = none
parse_unsigned max (c ∷ cs) = if c == b'+' then unsigned max cs else unsigned max (c ∷ cs)

-- Reading what `digits_onto` wrote: the number itself goes in front of what is read already.
digits_value-digits_onto :
    (max fuel n : ℕ) (acc : Text)
    → n < fuel
    → n ≤ max
    → digits_value max 0 (digits_onto fuel n acc) ≡ digits_value max n acc
unfolding digits_onto digits_value is_ascii_digit
digits_value-digits_onto max zero n acc h g = absurd (omega arith)
digits_value-digits_onto max (suc fuel) n acc h g = elim (Bool-cases (ltb n 10)) [
  | inl small ↦ ground arith
  | inr big ↦
      let less : n / 10 < fuel = ground arith in
      let low : n / 10 ≤ max = ground arith in
      let whole : n / 10 * 10 + (b'0' + n % 10 - b'0') ≡ n = ground arith in
      let again = digits_value-digits_onto max fuel (n / 10) ((b'0' + n % 10) ∷ acc) less low in
      ground (arith, again, whole)
]

digits_onto-starts :
    (fuel n : ℕ) (acc : Text)
    → n < fuel
    → (c : ℕ) × (cs : Text) × (digits_onto fuel n acc ≡ c ∷ cs) × (is_ascii_digit c ≡ true)
unfolding digits_onto is_ascii_digit
digits_onto-starts zero n acc h = absurd (omega arith)
digits_onto-starts (suc fuel) n acc h = elim (Bool-cases (ltb n 10)) [
  | inl small ↦ (b'0' + n, acc, rw small refl, ground arith)
  | inr big ↦
      let (c, cs, same, digit) =
        digits_onto-starts fuel (n / 10) ((b'0' + n % 10) ∷ acc) (ground arith) in
      (c, cs, rw big same, digit)
]

-- A number's digits start with a digit.
pub decimal-starts :
    (n : ℕ) → (c : ℕ) × (cs : Text) × (decimal n ≡ c ∷ cs) × (is_ascii_digit c ≡ true)
unfolding decimal
decimal-starts n = digits_onto-starts (suc n) n [] (omega arith)

-- A number that the type can hold is parsed back from its digits.
pub parse_unsigned-decimal : (max n : ℕ) → n ≤ max → parse_unsigned max (decimal n) ≡ some n
unfolding parse_unsigned unsigned decimal is_ascii_digit digits_value
parse_unsigned-decimal max n h =
    let (c, cs, same, digit) = digits_onto-starts (suc n) n [] (omega arith) in
    let read = digits_value-digits_onto max (suc n) n [] (omega arith) h in
    rw same (ground (arith, read, same, digit))
