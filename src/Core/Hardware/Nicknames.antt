-- ===== src/Core/Hardware/Nicknames.antt =====
-- What a nickname looks like once it is validated.
use lin_sight.Base.{
  ℕ, ◌≤◌, ◌≡◌, ◌≢◌, refl, ap, ◌∙◌, Bool, false, [], ◌∷◌, none, some, arith, ltb, Text, length,
  Bool-cases, Option-cases, inl, inr,
}
use lin_sight.Core.Chars.{
  is_whitespace, is_control, any_char, find_char, trim, trim_start, trim_end, keep_end,
}
use lin_sight.Core.Hardware.{ok, check_trimmed, validate_nickname, nickname_max_chars}

-- The first character, if there is one, is not white space.
abbrev Flush : Text → Type 0
Flush [] = Unit {0}
Flush (c ∷ cs) = is_whitespace c ≡ false

trim_start-Flush : (s : Text) → Flush (trim_start s)
unfolding trim_start
trim_start-Flush [] = tt
trim_start-Flush (c ∷ cs) = elim (Bool-cases (is_whitespace c)) [
  | inl white ↦ rw white (trim_start-Flush cs)
  | inr black ↦ rw black black
]

keep_end-Flush : (c : ℕ) (s : Text) → is_whitespace c ≡ false → Flush (keep_end c s)
unfolding keep_end
keep_end-Flush c [] h = rw h h
keep_end-Flush c (d ∷ ds) h = h

trim_end-Flush : (s : Text) → Flush s → Flush (trim_end s)
unfolding trim_end
trim_end-Flush [] h = tt
trim_end-Flush (c ∷ cs) h = keep_end-Flush c (trim_end cs) h

trim_start-same : (s : Text) → Flush s → trim_start s ≡ s
unfolding trim_start
trim_start-same [] h = refl
trim_start-same (c ∷ cs) h = rw h refl

keep_end-again : (c : ℕ) (s : Text) → trim_end s ≡ s → trim_end (keep_end c s) ≡ keep_end c s
unfolding trim_end keep_end
keep_end-again c [] h = elim (Bool-cases (is_whitespace c)) [
  | inl white ↦ rw white refl
  | inr black ↦ ground arith
]
keep_end-again c (d ∷ ds) h = rw h refl

trim_end-again : (s : Text) → trim_end (trim_end s) ≡ trim_end s
unfolding trim_end
trim_end-again [] = refl
trim_end-again (c ∷ cs) = keep_end-again c (trim_end cs) (trim_end-again cs)

-- Trimming twice is trimming once.
pub trim-again : (s : Text) → trim (trim s) ≡ trim s
unfolding trim
trim-again s =
    ap trim_end (
      trim_start-same (trim_end (trim_start s))
        (trim_end-Flush (trim_start s) (trim_start-Flush s)))
    ∙ trim_end-again (trim_start s)

find_char-any_char : (p : ℕ → Bool) (s : Text) → find_char p s ≡ none → any_char p s ≡ false
unfolding find_char any_char
find_char-any_char p [] h = refl
find_char-any_char p (c ∷ cs) h = ground (arith, find_char-any_char p cs)

check_trimmed-ok :
    (s : Text) {t : Text}
    → check_trimmed s ≡ ok (some t)
    → (t ≡ s) × (s ≢ []) × (length s ≤ nickname_max_chars) × (any_char is_control s ≡ false)
unfolding check_trimmed
check_trimmed-ok [] h = absurd (ground arith)
check_trimmed-ok (c ∷ cs) {t} h = elim (Bool-cases (ltb nickname_max_chars (length (c ∷ cs)))) [
  | inl long ↦ absurd (ground arith)
  | inr short ↦ elim (Option-cases (find_char is_control (c ∷ cs))) [
    | inr (bad, e) ↦ absurd (ground arith)
    | inl clean ↦ (
      ground arith,
      λ e. absurd (ground arith),
      ground arith,
      find_char-any_char is_control (c ∷ cs) clean,
    )
  ]
]

-- A nickname that is accepted is the input without the white space around it; it has 1 to 64
-- characters and no control character, and is accepted again as it is.
pub validate_nickname-ok :
    (input : Text) {t : Text}
    → validate_nickname input ≡ ok (some t)
    → (t ≡ trim input)
      × (t ≢ [])
      × (length t ≤ nickname_max_chars)
      × (any_char is_control t ≡ false)
      × (validate_nickname t ≡ ok (some t))
unfolding validate_nickname
validate_nickname-ok input {t} h =
    let (same, full, short, clean) = check_trimmed-ok (trim input) h in
    rw same (refl, full, short, clean, rw (trim-again input) (h ∙ ap (λ x. ok (some x)) same))
