-- ===== src/Dashboards.antt =====
-- apps/linsight-gui/src/qobjects/dashboards_model.rs: the dashboards, one file each. The directory is a
-- dictionary from the stems of its `.json` files to what they hold: a dashboard, or nothing that
-- can be read as one. `J` is a JSON value, the options of a tile.
pub mod Slugs
pub mod Files
pub mod Named
pub mod Fresh
pub mod Commands
pub mod Renames
pub mod Long
use lin_sight.Base.{
  ℕ, ◌+◌, ◌-◌, ◌/◌, ◌%◌, ◌^◌, Bool, true, false, not, ◌&&◌, ◌||◌, List, [], ◌∷◌, ◌++◌, Option, none,
  some, Text, codes, ltb, leb, ◌==◌, if◌then◌else◌, take, zero, suc, u32_mod,
}
use lin_sight.Base.Keys.{text_eq, text_beq}
use lin_sight.Base.Dict.{Dict, lookup, insert, remove, has_key}
use lin_sight.Base.Sorting.{sort_by}
use lin_sight.Core.Order.{text_leb}
use lin_sight.Core.Chars.{is_ascii_digit, is_ascii_alphanumeric, byte_len, all_chars, within}
use lin_sight.Core.Numbers.{decimal}
use lin_sight.Core.Hardware.{Checked, ok, err}

-- Slugs

unfoldable pub starts_dash : Text → Bool
starts_dash [] = false
starts_dash (c ∷ cs) = c == b'-'

unfoldable pub ends_dash : Text → Bool
ends_dash [] = false
ends_dash (c ∷ []) = c == b'-'
ends_dash (c ∷ d ∷ ds) = ends_dash (d ∷ ds)

unfoldable pub double_dash : Text → Bool
double_dash [] = false
double_dash (c ∷ []) = false
double_dash (c ∷ d ∷ ds) = (c == b'-' && d == b'-') || double_dash (d ∷ ds)

unfoldable pub slug_char : ℕ → Bool
unfolding is_ascii_digit
slug_char c = within b'a' b'z' c || is_ascii_digit c || c == b'-'

unfoldable pub is_valid_slug : Text → Bool
unfolding starts_dash ends_dash double_dash slug_char
is_valid_slug [] = false
is_valid_slug (c ∷ cs) =
    let s = c ∷ cs in
    if ltb 40 (byte_len s)
    then false
    else if starts_dash s || ends_dash s || double_dash s
    then false
    else all_chars slug_char s

unfoldable pub to_ascii_lowercase : ℕ → ℕ
to_ascii_lowercase c = if within b'A' b'Z' c then c + 32 else c

-- The loop of `derive_slug` over the characters, with `last_dash`.
unfoldable pub slug_chars : Bool → Text → Text
unfolding to_ascii_lowercase is_ascii_alphanumeric
slug_chars last_dash [] = []
slug_chars last_dash (ch ∷ cs) =
    let lower = to_ascii_lowercase ch in
    let kept = lower ∷ slug_chars false cs in
    let skipped = slug_chars true cs in
    if is_ascii_alphanumeric lower then kept else if last_dash then skipped else b'-' ∷ skipped

unfoldable pub keep_dash : ℕ → Text → Text
keep_dash c [] = if c == b'-' then [] else c ∷ []
keep_dash c (d ∷ ds) = c ∷ d ∷ ds

-- `while out.ends_with('-') { out.pop() }`
unfoldable pub drop_dashes : Text → Text
unfolding keep_dash
drop_dashes [] = []
drop_dashes (c ∷ cs) = keep_dash c (drop_dashes cs)

unfoldable pub hex_digit : ℕ → ℕ
hex_digit d = if ltb d 10 then b'0' + d else b'a' + (d - 10)

-- `{:08x}`: that many hexadecimal digits.
unfoldable pub hex_digits : ℕ → ℕ → Text
unfolding hex_digit
hex_digits zero n = []
hex_digits (suc k) n = hex_digits k (n / 16) ++ hex_digit (n % 16) ∷ []

unfoldable pub shortened : Text → Text
unfolding drop_dashes
shortened out = if ltb 40 (byte_len out) then drop_dashes (take 40 out) else out

unfoldable pub or_hashed : ℕ → Text → Text
unfolding hex_digits
or_hashed hash [] = codes "dash-" ++ hex_digits 8 (hash % u32_mod)
or_hashed hash (c ∷ cs) = c ∷ cs

-- `hash` is what `DefaultHasher` makes of the name.
unfoldable pub derive_slug : (Text → ℕ) → Text → Text
unfolding slug_chars shortened or_hashed drop_dashes
derive_slug hash name = or_hashed (hash name) (shortened (drop_dashes (slug_chars true name)))
