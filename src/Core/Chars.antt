-- ===== src/Core/Chars.antt =====
-- The character classes of Rust's `char` that the program asks for, on code points, and `str::trim`.
use lin_sight.Base.{
  ℕ, ◌+◌, Bool, true, false, ◌&&◌, ◌||◌, List, [], ◌∷◌, ◌++◌, Option, none, some, leb, ltb, ◌==◌,
  if◌then◌else◌, Text,
}

abbrev pub within : ℕ → ℕ → ℕ → Bool
within lo hi c = leb lo c && leb c hi

unfoldable pub is_ascii_digit : ℕ → Bool
is_ascii_digit c = within b'0' b'9' c

unfoldable pub is_ascii_alphabetic : ℕ → Bool
is_ascii_alphabetic c = within b'a' b'z' c || within b'A' b'Z' c

unfoldable pub is_ascii_alphanumeric : ℕ → Bool
unfolding is_ascii_digit is_ascii_alphabetic
is_ascii_alphanumeric c = is_ascii_alphabetic c || is_ascii_digit c

-- The code points with the Unicode property White_Space.
unfoldable pub is_whitespace : ℕ → Bool
is_whitespace c =
    within 9 13 c
    || c == 32
    || c == 0x85
    || c == 0xa0
    || c == 0x1680
    || within 0x2000 0x200a c
    || within 0x2028 0x2029 c
    || c == 0x202f
    || c == 0x205f
    || c == 0x3000

-- The code points of the category Cc.
unfoldable pub is_control : ℕ → Bool
is_control c = ltb c 32 || within 127 159 c

-- `str::len`, the bytes of the UTF-8 encoding.
unfoldable pub utf8_len : ℕ → ℕ
utf8_len c = if ltb c 0x80 then 1 else if ltb c 0x800 then 2 else if ltb c 0x10000 then 3 else 4

unfoldable pub byte_len : Text → ℕ
unfolding utf8_len
byte_len [] = 0
byte_len (c ∷ cs) = utf8_len c + byte_len cs

unfoldable pub any_char : (ℕ → Bool) → Text → Bool
any_char p [] = false
any_char p (c ∷ cs) = p c || any_char p cs

unfoldable pub all_chars : (ℕ → Bool) → Text → Bool
all_chars p [] = true
all_chars p (c ∷ cs) = p c && all_chars p cs

unfoldable pub find_char : (ℕ → Bool) → Text → Option ℕ
find_char p [] = none
find_char p (c ∷ cs) = if p c then some c else find_char p cs

unfoldable pub trim_start : Text → Text
unfolding is_whitespace
trim_start [] = []
trim_start (c ∷ cs) = if is_whitespace c then trim_start cs else c ∷ cs

-- One more character in front of a trimmed end.
unfoldable pub keep_end : ℕ → Text → Text
unfolding is_whitespace
keep_end c [] = if is_whitespace c then [] else c ∷ []
keep_end c (d ∷ ds) = c ∷ d ∷ ds

unfoldable pub trim_end : Text → Text
unfolding keep_end
trim_end [] = []
trim_end (c ∷ cs) = keep_end c (trim_end cs)

unfoldable pub trim : Text → Text
unfolding trim_start trim_end
trim s = trim_end (trim_start s)

abbrev pub left_cons : ℕ → Option (Text × Text) → Option (Text × Text)
left_cons c none = none
left_cons c (some (a, b)) = some (c ∷ a, b)

-- `str::split_once`
unfoldable pub split_once : ℕ → Text → Option (Text × Text)
split_once sep [] = none
split_once sep (c ∷ cs) = if c == sep then some ([], cs) else left_cons c (split_once sep cs)

-- `str::split_whitespace`, with the token that was begun.
unfoldable pub words_from : Text → Text → List Text
unfolding is_whitespace
words_from [] [] = []
words_from (t ∷ ts) [] = (t ∷ ts) ∷ []
words_from [] (c ∷ cs) =
    let next = words_from [] cs in
    let begun = words_from (c ∷ []) cs in if is_whitespace c then next else begun
words_from (t ∷ ts) (c ∷ cs) =
    let next = words_from [] cs in
    let longer = words_from (t ∷ ts ++ c ∷ []) cs in
    if is_whitespace c then (t ∷ ts) ∷ next else longer

unfoldable pub split_whitespace : Text → List Text
unfolding words_from
split_whitespace s = words_from [] s

-- A line that ended at a newline, without a carriage return at its end.
unfoldable pub chomp : Text → Text
chomp [] = []
chomp (c ∷ []) = if c == 13 then [] else c ∷ []
chomp (c ∷ d ∷ ds) = c ∷ chomp (d ∷ ds)

-- `str::lines`, with the line that was begun.
unfoldable pub lines_from : Text → Text → List Text
unfolding chomp
lines_from [] [] = []
lines_from (t ∷ ts) [] = (t ∷ ts) ∷ []
lines_from line (c ∷ cs) =
    let next = lines_from [] cs in
    let longer = lines_from (line ++ c ∷ []) cs in if c == 10 then chomp line ∷ next else longer

unfoldable pub lines : Text → List Text
unfolding lines_from
lines s = lines_from [] s

unfoldable pub is_ascii_whitespace : ℕ → Bool
is_ascii_whitespace c = c == 32 || c == 9 || c == 10 || c == 12 || c == 13

-- `str::strip_prefix`
unfoldable pub strip_prefix : Text → Text → Option Text
strip_prefix [] s = some s
strip_prefix (p ∷ ps) [] = none
strip_prefix (p ∷ ps) (c ∷ cs) = if p == c then strip_prefix ps cs else none
