-- ===== src/Core/Hardware/Keys.antt =====
-- Which texts are device keys.
use lin_sight.Base.{
  ℕ, ◌≤◌, ◌≡◌, ◌≢◌, ◌↔◌, refl, ap, sym, ◌∙◌, Bool, true, false, not, [], ◌∷◌, ◌++◌, none, some,
  arith, ◌==◌, ltb, Text, Bool-cases, Option-cases, inl, inr,
}
use lin_sight.Base.Keys.{text_eq, contains}
use lin_sight.Core.Chars.{any_char, all_chars, find_char, split_once, byte_len}
use lin_sight.Core.Hardware.{
  DeviceKey, ok, try_new_key, check_scheme, check_payload, key_char, allowed_schemes, key_max_len,
}

find_char-all_chars :
    (p : ℕ → Bool) (s : Text) → find_char (λ x. not (p x)) s ≡ none → all_chars p s ≡ true
unfolding find_char all_chars
find_char-all_chars p [] h = refl
find_char-all_chars p (c ∷ cs) h = ground (arith, find_char-all_chars p cs)

all_chars-find_char :
    (p : ℕ → Bool) (s : Text) → all_chars p s ≡ true → find_char (λ x. not (p x)) s ≡ none
unfolding find_char all_chars
all_chars-find_char p [] h = refl
all_chars-find_char p (c ∷ cs) h = ground (arith, all_chars-find_char p cs)

split_once-joins :
    (sep : ℕ) (s a b : Text)
    → split_once sep s ≡ some (a, b)
    → (s ≡ a ++ sep ∷ b) × (any_char (λ c. c == sep) a ≡ false)
unfolding split_once any_char
split_once-joins sep [] a b h = absurd (ground arith)
split_once-joins sep (c ∷ cs) a b h = elim (Bool-cases (c == sep)) [
  | inl here ↦
      let front : [] ≡ a = ground arith in
      let rest : cs ≡ b = ground arith in rw (← front, ← rest) (ground arith, refl)
  | inr later ↦ elim (Option-cases (split_once sep cs)) [
    | inl without ↦ absurd (ground arith)
    | inr ((a', b'), e) ↦
        let (joined, absent) = split_once-joins sep cs a' b' e in
        let front : c ∷ a' ≡ a = ground arith in
        let rest : b' ≡ b = ground arith in
        rw (← front, ← rest) (ap (◌∷◌ c) joined, rw later absent)
  ]
]

split_once-front :
    (sep : ℕ) (a b : Text)
    → any_char (λ c. c == sep) a ≡ false
    → split_once sep (a ++ sep ∷ b) ≡ some (a, b)
unfolding split_once any_char
split_once-front sep [] b h = ground arith
split_once-front sep (c ∷ cs) b h = ground (arith, split_once-front sep cs b)

-- A key: at most 140 bytes, a known scheme, a colon, and a payload of key characters.
pub record IsKey (s : Text) : Type 0 where
  pub scheme : Text
  pub payload : Text
  pub joins : s ≡ scheme ++ b':' ∷ payload
  pub one_scheme : any_char (λ c. c == b':') scheme ≡ false
  pub known : contains scheme allowed_schemes ≡ true
  pub some_payload : payload ≢ []
  pub chars : all_chars key_char payload ≡ true
  pub short : byte_len s ≤ key_max_len

check_payload-ok :
    (s scheme payload : Text) {k : DeviceKey}
    → check_payload s scheme payload ≡ ok k
    → (k ≡ s) × (payload ≢ []) × (all_chars key_char payload ≡ true)
unfolding check_payload
check_payload-ok s scheme [] h = absurd (ground arith)
check_payload-ok s scheme (c ∷ cs) {k} h =
    elim (Option-cases (find_char (λ x. not (key_char x)) (c ∷ cs))) [
      | inl good ↦
          (ground arith, λ e. absurd (ground arith), find_char-all_chars key_char (c ∷ cs) good)
      | inr (bad, e) ↦ absurd (ground arith)
    ]

check_scheme-ok :
    (s : Text) {k : DeviceKey}
    → byte_len s ≤ key_max_len
    → check_scheme s (split_once b':' s) ≡ ok k
    → (k ≡ s) × IsKey s
unfolding check_scheme
check_scheme-ok s {k} short h = elim (Option-cases (split_once b':' s)) [
  | inl without ↦ absurd (ground arith)
  | inr ((a, b), e) ↦ elim (Bool-cases (contains a allowed_schemes)) [
    | inr unknown ↦ absurd (ground arith)
    | inl known ↦
        let (same, full, good) = check_payload-ok s a b {k = k} (ground arith) in
        let (joined, absent) = split_once-joins b':' s a b e in
        (
          same,
          record {
            scheme = a;
            payload = b;
            joins = joined;
            one_scheme = absent;
            known = known;
            some_payload = full;
            chars = good;
            short = short;
          },
        )
  ]
]

try_new_key-ok : (s : Text) {k : DeviceKey} → try_new_key s ≡ ok k → (k ≡ s) × IsKey s
unfolding try_new_key
try_new_key-ok [] h = absurd (ground arith)
try_new_key-ok (c ∷ cs) {k} h = elim (Bool-cases (ltb key_max_len (byte_len (c ∷ cs)))) [
  | inl long ↦ absurd (ground arith)
  | inr short ↦ check_scheme-ok (c ∷ cs) {k = k} (ground arith) (ground arith)
]

check_payload-good :
    (s scheme payload : Text)
    → payload ≢ []
    → all_chars key_char payload ≡ true
    → check_payload s scheme payload ≡ ok s
unfolding check_payload
check_payload-good s scheme [] full good = absurd (full refl)
check_payload-good s scheme (c ∷ cs) full good =
    rw (check_payload, all_chars-find_char key_char (c ∷ cs) good) refl

check_scheme-good : (s : Text) → IsKey s → check_scheme s (split_once b':' s) ≡ ok s
unfolding check_scheme
check_scheme-good s v =
    let split : split_once b':' s ≡ some (v.scheme, v.payload) =
      ap (split_once b':') v.joins ∙ split_once-front b':' v.scheme v.payload v.one_scheme in
    rw (split, v.known) (check_payload-good s v.scheme v.payload v.some_payload v.chars)

joined_nonempty : (a : Text) (c : ℕ) (b : Text) → a ++ c ∷ b ≢ []
joined_nonempty [] c b h = absurd (ground arith)
joined_nonempty (x ∷ xs) c b h = absurd (ground arith)

key_nonempty : (s : Text) → IsKey s → s ≢ []
key_nonempty s v e = absurd (joined_nonempty v.scheme b':' v.payload (sym v.joins ∙ e))

try_new_key-good : (s : Text) → IsKey s → try_new_key s ≡ ok s
unfolding try_new_key
try_new_key-good [] v = absurd (key_nonempty [] v refl)
try_new_key-good (c ∷ cs) v =
    let short : ltb key_max_len (byte_len (c ∷ cs)) ≡ false = ground (arith, v.short) in
    rw short (check_scheme-good (c ∷ cs) v)

-- A text is accepted as a key exactly if it has at most 140 bytes and is a known scheme, a colon and
-- a payload of key characters; the key is the text itself.
pub try_new_key_iff : (s k : Text) → (try_new_key s ≡ ok k) ↔ ((k ≡ s) × IsKey s)
try_new_key_iff s k =
    (λ h. try_new_key-ok s h, λ (same, v). try_new_key-good s v ∙ ap ok (sym same))
