-- ===== src/Dashboards/Long.antt =====
-- A base of 39 characters or more has one file, and no second.
use lin_sight.Base.{
  ℕ, ◌+◌, ◌≤◌, ◌<◌, ◌≡◌, refl, ap, ◌∙◌, true, false, [], ◌∷◌, ◌++◌, Text, ◌==◌, arith, zero, suc,
}
use lin_sight.Base.Keys.{text_eq}
use lin_sight.Base.Dict.{has_key}
use lin_sight.Core.Chars.{byte_len, utf8_len}
use lin_sight.Core.Numbers.{decimal, decimal-starts}
use lin_sight.Core.Hardware.{err}
use lin_sight.Dashboards.{is_valid_slug}
use lin_sight.Dashboards.Files.{Disk, Io, too_many, candidate, allocate_from, allocate_unique_slug}

byte_len-append : (s t : Text) → byte_len (s ++ t) ≡ byte_len s + byte_len t
unfolding byte_len
byte_len-append [] t = omega arith
byte_len-append (c ∷ cs) t = omega (arith, byte_len-append cs t)

utf8_len-pos : (c : ℕ) → 0 < utf8_len c
unfolding utf8_len
utf8_len-pos c = ground arith

byte_len-decimal : (n : ℕ) → 0 < byte_len (decimal n)
unfolding byte_len
byte_len-decimal n =
    let (c, cs, same, digit) = decimal-starts n in rw same (omega (arith, utf8_len-pos c))

too_long_invalid : (s : Text) → 40 < byte_len s → is_valid_slug s ≡ false
unfolding is_valid_slug byte_len
too_long_invalid [] h = refl
too_long_invalid (c ∷ cs) h = ground arith

suffixed_invalid :
    (base : Text) (i : ℕ) → 39 ≤ byte_len base → is_valid_slug (candidate base (suc i)) ≡ false
unfolding candidate byte_len utf8_len
suffixed_invalid base i long =
    let suffix = byte_len-decimal (suc i + 1) in
    let whole = byte_len-append base (b'-' ∷ decimal (suc i + 1)) in
    let numbered : (suc i == 0) ≡ false = ground arith in
    simp (candidate, numbered)
      (too_long_invalid (base ++ b'-' ∷ decimal (suc i + 1)) (omega (arith, long, suffix, whole)))

module _ {J : Type 0} (env : Io J) where
  passed_over :
      (n i : ℕ) (base : Text) (disk : Disk J)
      → is_valid_slug (candidate base i) ≡ false
      → allocate_from env (suc n) i base disk ≡ allocate_from env n (i + 1) base disk
  unfolding allocate_from
  passed_over n i base disk bad = rw (bad, allocate_from) refl

  passed_taken :
      (n i : ℕ) (base : Text) (disk : Disk J)
      → is_valid_slug (candidate base i) ≡ true
      → has_key (candidate base i) disk ≡ true
      → allocate_from env (suc n) i base disk ≡ allocate_from env n (i + 1) base disk
  unfolding allocate_from
  passed_taken n i base disk good taken = rw (good, allocate_from) (rw taken refl)

  none_left :
      (n i : ℕ) (base : Text) (disk : Disk J)
      → 39 ≤ byte_len base
      → allocate_from env n (suc i) base disk ≡ (disk, err too_many)
  unfolding allocate_from
  none_left zero i base disk long = refl
  none_left (suc n) i base disk long =
      let next : suc i + 1 ≡ suc (i + 1) = omega arith in
      passed_over n (suc i) base disk (suffixed_invalid base i long)
      ∙ ap (λ k. allocate_from env n k base disk) next
      ∙ none_left n (i + 1) base disk long

  first_taken :
      (n : ℕ) (base : Text) (disk : Disk J)
      → is_valid_slug base ≡ true
      → 39 ≤ byte_len base
      → has_key base disk ≡ true
      → allocate_from env (suc n) 0 base disk ≡ (disk, err too_many)
  unfolding candidate
  first_taken n base disk valid long taken =
      let next : 0 + 1 ≡ suc 0 = omega arith in
      passed_taken n 0 base disk valid taken
      ∙ ap (λ k. allocate_from env n k base disk) next
      ∙ none_left n 0 base disk long

  -- Where the slug that a name leads to has 39 bytes or more and its file is there, no dashboard of
  -- such a name can be made: the numbered slugs are all too long.
  pub long_name_taken :
      (base : Text) (disk : Disk J)
      → is_valid_slug base ≡ true
      → env.creates_dir ≡ true
      → 39 ≤ byte_len base
      → has_key base disk ≡ true
      → allocate_unique_slug env base disk ≡ (disk, err too_many)
  unfolding allocate_unique_slug
  long_name_taken base disk valid made long taken =
      simp (allocate_unique_slug, valid, made) (first_taken 98 base disk valid long taken)
