-- ===== src/Dashboards/Slugs.antt =====
-- Every name has a slug that is valid.
use lin_sight.Base.{
  ℕ, ◌%◌, ◌/◌, ◌≡◌, ◌≤◌, ◌<◌, refl, sym, Bool, true, false, ◌&&◌, [], ◌∷◌, ◌++◌, Text, codes, ltb,
  ◌==◌, if◌then◌else◌, take, length, zero, suc, u32_mod, arith, Bool-cases, inl, inr, subst,
  length-take-le, length-append,
}
use lin_sight.Core.Chars.{
  is_ascii_digit, is_ascii_alphanumeric, is_ascii_alphabetic, byte_len, utf8_len, all_chars,
}
use lin_sight.Dashboards.{
  starts_dash, ends_dash, double_dash, slug_char, is_valid_slug, to_ascii_lowercase, slug_chars,
  keep_dash, drop_dashes, hex_digit, hex_digits, shortened, or_hashed, derive_slug,
}

-- Characters of a slug in which no dash follows another, nor stands first where `last_dash`.
abbrev Shape : Bool → Text → Type 0
Shape last_dash [] = Unit {0}
Shape last_dash (c ∷ cs) =
    (slug_char c ≡ true) × ((last_dash && c == b'-') ≡ false) × Shape (c == b'-') cs

lower-slug_char :
    (c : ℕ)
    → is_ascii_alphanumeric (to_ascii_lowercase c) ≡ true
    → (slug_char (to_ascii_lowercase c) ≡ true) × ((to_ascii_lowercase c == b'-') ≡ false)
unfolding is_ascii_alphanumeric is_ascii_alphabetic is_ascii_digit to_ascii_lowercase slug_char
lower-slug_char c h = ground arith

after_skip-Shape :
    (last_dash : Bool) (s : Text)
    → Shape true s
    → Shape last_dash (if last_dash then s else b'-' ∷ s)
unfolding slug_char
after_skip-Shape true s h = h
after_skip-Shape false s h = (refl, refl, h)

slug_chars-Shape : (last_dash : Bool) (name : Text) → Shape last_dash (slug_chars last_dash name)
unfolding slug_chars
slug_chars-Shape last_dash [] = tt
slug_chars-Shape last_dash (ch ∷ cs) =
    let lower = to_ascii_lowercase ch in
    elim (Bool-cases (is_ascii_alphanumeric lower)) [
      | inl kept ↦
          let (good, other) = lower-slug_char ch kept in
          simp (slug_chars, kept)
            (
              good,
              ground (arith, other),
              subst (λ b. Shape b (slug_chars false cs)) (sym other) (slug_chars-Shape false cs),
            )
      | inr skipped ↦
          simp (slug_chars, skipped)
            (after_skip-Shape last_dash (slug_chars true cs) (slug_chars-Shape true cs))
    ]

Shape-weaken : (last_dash : Bool) (s : Text) → Shape last_dash s → Shape false s
Shape-weaken last_dash [] h = tt
Shape-weaken last_dash (c ∷ cs) h = (h.0, refl, h.2)

take-Shape : (n : ℕ) (last_dash : Bool) (s : Text) → Shape last_dash s → Shape last_dash (take n s)
take-Shape zero last_dash s h = tt
take-Shape (suc n) last_dash [] h = tt
take-Shape (suc n) last_dash (c ∷ cs) h = (h.0, h.1, take-Shape n (c == b'-') cs h.2)

keep_dash-Shape :
    (c : ℕ) (last_dash : Bool) (s : Text)
    → Shape last_dash (c ∷ s)
    → Shape last_dash (keep_dash c s) × (ends_dash s ≡ false → ends_dash (keep_dash c s) ≡ false)
unfolding keep_dash ends_dash
keep_dash-Shape c last_dash [] h = elim (Bool-cases (c == b'-')) [
  | inl dash ↦ rw dash (tt, λ e. refl)
  | inr other ↦ rw other (h, λ e. other)
]
keep_dash-Shape c last_dash (d ∷ ds) h = (h, λ e. e)

drop_dashes-Shape :
    (last_dash : Bool) (s : Text)
    → Shape last_dash s
    → Shape last_dash (drop_dashes s) × (ends_dash (drop_dashes s) ≡ false)
unfolding drop_dashes ends_dash
drop_dashes-Shape last_dash [] h = (tt, refl)
drop_dashes-Shape last_dash (c ∷ cs) h =
    let (shape, end) = drop_dashes-Shape (c == b'-') cs h.2 in
    let (kept, ending) = keep_dash-Shape c last_dash (drop_dashes cs) (h.0, h.1, shape) in
    (kept, ending end)

length-keep_dash : (c : ℕ) (s : Text) → length (keep_dash c s) ≤ suc (length s)
unfolding keep_dash
length-keep_dash c [] = ground arith
length-keep_dash c (d ∷ ds) = omega arith

length-drop_dashes : (s : Text) → length (drop_dashes s) ≤ length s
unfolding drop_dashes
length-drop_dashes [] = omega arith
length-drop_dashes (c ∷ cs) =
    ground (arith, length-keep_dash c (drop_dashes cs), length-drop_dashes cs)

byte_len-Shape : (last_dash : Bool) (s : Text) → Shape last_dash s → byte_len s ≡ length s
unfolding byte_len utf8_len slug_char is_ascii_digit
byte_len-Shape last_dash [] h = refl
byte_len-Shape last_dash (c ∷ cs) h =
    let rest = byte_len-Shape (c == b'-') cs h.2 in
    let one : utf8_len c ≡ 1 = ground (arith, h.0) in omega (arith, rest, one)

all_chars-Shape : (last_dash : Bool) (s : Text) → Shape last_dash s → all_chars slug_char s ≡ true
unfolding all_chars
all_chars-Shape last_dash [] h = refl
all_chars-Shape last_dash (c ∷ cs) h = ground (arith, all_chars-Shape (c == b'-') cs h.2, h.0)

double_dash-Shape : (last_dash : Bool) (s : Text) → Shape last_dash s → double_dash s ≡ false
unfolding double_dash
double_dash-Shape last_dash [] h = refl
double_dash-Shape last_dash (c ∷ []) h = refl
double_dash-Shape last_dash (c ∷ d ∷ ds) h =
    ground (arith, double_dash-Shape (c == b'-') (d ∷ ds) h.2, h.2.1)

Shape-valid :
    (c : ℕ) (cs : Text)
    → Shape true (c ∷ cs)
    → ends_dash (c ∷ cs) ≡ false
    → length (c ∷ cs) ≤ 40
    → is_valid_slug (c ∷ cs) ≡ true
unfolding is_valid_slug starts_dash
Shape-valid c cs h end short =
    let small : ltb 40 (byte_len (c ∷ cs)) ≡ false =
      ground (arith, byte_len-Shape true (c ∷ cs) h) in
    ground
      (arith, small, end, double_dash-Shape true (c ∷ cs) h, all_chars-Shape true (c ∷ cs) h, h.1)

shortened-Shape :
    (s : Text)
    → Shape true s
    → ends_dash s ≡ false
    → Shape true (shortened s) × (ends_dash (shortened s) ≡ false) × (length (shortened s) ≤ 40)
unfolding shortened
shortened-Shape s h end = elim (Bool-cases (ltb 40 (byte_len s))) [
  | inl long ↦
      let (shape, ending) = drop_dashes-Shape true (take 40 s) (take-Shape 40 true s h) in
      let less = length-drop_dashes (take 40 s) in
      simp (shortened, long) (shape, ending, omega (arith, less, length-take-le 40 s))
  | inr short ↦ simp (shortened, short) (h, end, ground (arith, byte_len-Shape true s h))
]

-- Characters of a slug that are no dashes.
abbrev Plain : Text → Type 0
Plain [] = Unit {0}
Plain (c ∷ cs) = (slug_char c ≡ true) × ((c == b'-') ≡ false) × Plain cs

Plain-append :
    (s : Text) (c : ℕ) → Plain s → slug_char c ≡ true → (c == b'-') ≡ false → Plain (s ++ c ∷ [])
Plain-append [] c h good other = (good, other, tt)
Plain-append (d ∷ ds) c h good other = (h.0, h.1, Plain-append ds c h.2 good other)

Plain-Shape : (last_dash : Bool) (s : Text) → Plain s → Shape last_dash s
Plain-Shape last_dash [] h = tt
Plain-Shape last_dash (c ∷ cs) h =
    (h.0, ground (arith, h.1), subst (λ b. Shape b cs) (sym h.1) (Plain-Shape false cs h.2))

Plain-ends_dash : (s : Text) → Plain s → ends_dash s ≡ false
unfolding ends_dash
Plain-ends_dash [] h = refl
Plain-ends_dash (c ∷ []) h = h.1
Plain-ends_dash (c ∷ d ∷ ds) h = Plain-ends_dash (d ∷ ds) h.2

hex_digit-Plain :
    (d : ℕ) → d < 16 → (slug_char (hex_digit d) ≡ true) × ((hex_digit d == b'-') ≡ false)
unfolding hex_digit slug_char is_ascii_digit
hex_digit-Plain d h = ground arith

hex_digits-Plain : (k n : ℕ) → Plain (hex_digits k n) × (length (hex_digits k n) ≡ k)
unfolding hex_digits
hex_digits-Plain zero n = (tt, refl)
hex_digits-Plain (suc k) n =
    let (rest, long) = hex_digits-Plain k (n / 16) in
    let (good, other) = hex_digit-Plain (n % 16) (omega arith) in
    (
      Plain-append (hex_digits k (n / 16)) (hex_digit (n % 16)) rest good other,
      omega (arith, long, length-append (hex_digits k (n / 16)) (hex_digit (n % 16) ∷ [])),
    )

hashed_valid : (hash : ℕ) → is_valid_slug (or_hashed hash []) ≡ true
unfolding or_hashed slug_char ends_dash
hashed_valid hash =
    let hs = hex_digits 8 (hash % u32_mod) in
    let plain = (hex_digits-Plain 8 (hash % u32_mod)).0 in
    Shape-valid b'd' (codes "ash-" ++ hs)
      (
        refl,
        refl,
        (refl, refl, (refl, refl, (refl, refl, (refl, refl, Plain-Shape true hs plain)))),
      )
      (Plain-ends_dash hs plain) (omega arith)

or_hashed_valid :
    (hash : ℕ) (s : Text)
    → Shape true s
    → ends_dash s ≡ false
    → length s ≤ 40
    → is_valid_slug (or_hashed hash s) ≡ true
unfolding or_hashed
or_hashed_valid hash [] h end short = hashed_valid hash
or_hashed_valid hash (c ∷ cs) h end short = Shape-valid c cs h end short

-- The slug of every name, in whatever script, is valid.
pub derive_slug_valid :
    (hash : Text → ℕ) (name : Text) → is_valid_slug (derive_slug hash name) ≡ true
unfolding derive_slug
derive_slug_valid hash name =
    let (shape, end) = drop_dashes-Shape true (slug_chars true name) (slug_chars-Shape true name) in
    let (shape', end', short) = shortened-Shape (drop_dashes (slug_chars true name)) shape end in
    or_hashed_valid (hash name) (shortened (drop_dashes (slug_chars true name))) shape' end' short
