-- ===== src/Alerts/Split.antt =====
-- `shell_split`: the arguments of an `exec:` target.
use lin_sight.Base.{
  ℕ, ◌≡◌, ◌∙◌, ap, Bool, arith, Bool-cases, inl, inr, true, false, ◌||◌, List, [], ◌∷◌, ◌++◌, ◌==◌,
  if◌then◌else◌, Text,
}
use mathlib.Core.List.{append_assoc, append-nil}

pub data SplitError : Type 0 where
  single_quote double_quote escape_in_quote trailing_backslash : SplitError

pub data Split : Type 0 where
  ok : List Text → Split
  err : SplitError → Split

-- Where the reader of the characters is.
pub data Mode : Type 0 where
  outside in_single in_double after_escape after_backslash : Mode

abbrev pub is_space : ℕ → Bool
is_space c = c == b' ' || c == 9 || c == 10

abbrev pub escapable : ℕ → Bool
escapable c = c == b'\\' || c == b'"' || c == b'$' || c == b'`'

abbrev finished : List Text → Text → Bool → Split
finished argv current in_token = ok (if in_token then argv ++ current ∷ [] else argv)

unfoldable pub split_from : Mode → List Text → Text → Bool → Text → Split
split_from outside argv current in_token [] = finished argv current in_token
split_from outside argv current in_token (c ∷ cs) =
    let skip = split_from outside argv current false cs in
    let cut = split_from outside (argv ++ current ∷ []) [] false cs in
    let single = split_from in_single argv current true cs in
    let double = split_from in_double argv current true cs in
    let backslash = split_from after_backslash argv current true cs in
    let other = split_from outside argv (current ++ c ∷ []) true cs in
    if is_space c
    then (if in_token then cut else skip)
    else if c == b'\''
    then single
    else if c == b'"'
    then double
    else if c == b'\\'
    then backslash
    else other
split_from in_single argv current in_token [] = err single_quote
split_from in_single argv current in_token (c ∷ cs) =
    let close = split_from outside argv current true cs in
    let literal = split_from in_single argv (current ++ c ∷ []) true cs in
    if c == b'\'' then close else literal
split_from in_double argv current in_token [] = err double_quote
split_from in_double argv current in_token (c ∷ cs) =
    let close = split_from outside argv current true cs in
    let escape = split_from after_escape argv current true cs in
    let literal = split_from in_double argv (current ++ c ∷ []) true cs in
    if c == b'"' then close else if c == b'\\' then escape else literal
split_from after_escape argv current in_token [] = err escape_in_quote
split_from after_escape argv current in_token (c ∷ cs) =
    let plain = split_from in_double argv (current ++ c ∷ []) true cs in
    let both = split_from in_double argv (current ++ b'\\' ∷ c ∷ []) true cs in
    if escapable c then plain else both
split_from after_backslash argv current in_token [] = err trailing_backslash
split_from after_backslash argv current in_token (c ∷ cs) =
    split_from outside argv (current ++ c ∷ []) true cs

unfoldable pub shell_split : Text → Split
unfolding split_from
shell_split input = split_from outside [] [] false input

-- A way to write arguments: each in double quotes, with backslashes, followed by a blank.
unfoldable pub quoted_chars : Text → Text
quoted_chars [] = []
quoted_chars (c ∷ cs) = if escapable c then b'\\' ∷ c ∷ quoted_chars cs else c ∷ quoted_chars cs

unfoldable pub quoted : List Text → Text
unfolding quoted_chars
quoted [] = []
quoted (t ∷ ts) = b'"' ∷ (quoted_chars t ++ b'"' ∷ b' ' ∷ quoted ts)

split_from-quoted_chars :
    (t rest current : Text) (argv : List Text)
    → split_from in_double argv current true (quoted_chars t ++ b'"' ∷ rest)
      ≡ split_from outside argv (current ++ t) true rest
unfolding split_from quoted_chars
split_from-quoted_chars [] rest current argv = rw append-nil
split_from-quoted_chars (c ∷ cs) rest current argv =
    let later = split_from-quoted_chars cs rest (current ++ c ∷ []) argv in
    let joined : (current ++ c ∷ []) ++ cs ≡ current ++ c ∷ cs = append_assoc current (c ∷ []) cs in
    elim (Bool-cases (escapable c)) [
      | inl escaped ↦ ground (arith, later, joined)
      | inr plain ↦ ground (arith, later, joined)
    ]

split_from-quoted :
    (ts argv : List Text) → split_from outside argv [] false (quoted ts) ≡ ok (argv ++ ts)
unfolding split_from quoted
split_from-quoted [] argv = rw append-nil
split_from-quoted (t ∷ ts) argv =
    split_from-quoted_chars t (b' ' ∷ quoted ts) [] argv
    ∙ split_from-quoted ts (argv ++ t ∷ [])
    ∙ ap ok (append_assoc argv (t ∷ []) ts)

-- Arguments that are written in double quotes, with a backslash before each backslash, quote,
-- dollar and backquote, are split into just those arguments, whatever characters they hold.
pub shell_split-quoted : (ts : List Text) → shell_split (quoted ts) ≡ ok ts
unfolding shell_split
shell_split-quoted ts = split_from-quoted ts []
