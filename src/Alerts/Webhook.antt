-- ===== src/Alerts/Webhook.antt =====
-- The addresses that a webhook may not name. `IpAddr::from_str` is a parameter.
pub mod Ranges
pub mod Hosts
use lin_sight.Base.{
  ℕ, ◌+◌, ◌*◌, ◌/◌, ◌≤◌, ◌≡◌, Bool, true, false, not, ◌&&◌, ◌||◌, List, [], ◌∷◌, ◌++◌, Option, none,
  some, ◌==◌, if◌then◌else◌, Text, codes, leb,
}
use lin_sight.Core.Chars.{strip_prefix, is_ascii_digit, all_chars, split_once}
use lin_sight.Base.Keys.{text_beq}

-- The octets of an IPv4 address, and the segments of an IPv6 one.
pub data IpAddr : Type 0 where
  v4 : ℕ → ℕ → ℕ → ℕ → IpAddr
  v6 : ℕ → ℕ → ℕ → ℕ → ℕ → ℕ → ℕ → ℕ → IpAddr

pub data UrlError : Type 0 where
  scheme malformed : UrlError
  restricted : IpAddr → UrlError
  obfuscated : Text → UrlError

pub data Vetted : Type 0 where
  ok : Vetted
  err : UrlError → Vetted

-- `x & 0xffc0` and `x & 0xfe00` of a `u16`
abbrev pub upper10 : ℕ → ℕ
upper10 x = x / 64 * 64

abbrev pub upper7 : ℕ → ℕ
upper7 x = x / 512 * 512

unfoldable pub is_ipv6_link_local : ℕ → Bool
is_ipv6_link_local s = upper10 s == 0xfe80

unfoldable pub is_ipv6_unique_local : ℕ → Bool
is_ipv6_unique_local s = upper7 s == 0xfc00

unfoldable pub is_restricted_ip : IpAddr → Bool
unfolding is_ipv6_link_local is_ipv6_unique_local
is_restricted_ip (v4 a b c d) =
    a == 127
    || (a == 169 && b == 254)
    || (a == 10 || (a == 172 && leb 16 b && leb b 31) || (a == 192 && b == 168))
    || (a == 0 && b == 0 && c == 0 && d == 0)
is_restricted_ip (v6 a b c d e f g h) =
    let zeros = a == 0 && b == 0 && c == 0 && d == 0 && e == 0 && f == 0 && g == 0 in
    (zeros && h == 1) || is_ipv6_link_local a || is_ipv6_unique_local a || (zeros && h == 0)

-- What stands before the first `sep`, or everything: `split(sep).next()`.
unfoldable pub before : ℕ → Text → Text
before sep s = elim (split_once sep s) [ none ↦ s | some (a, b) ↦ a ]

-- What stands behind the last `sep`, or everything: `rsplit(sep).next()`.
unfoldable pub after_last : ℕ → Text → Text
after_last sep [] = []
after_last sep (c ∷ cs) =
    let rest = after_last sep cs in elim (split_once sep (c ∷ cs)) [ none ↦ c ∷ cs | some _ ↦ rest ]

unfoldable pub all_digits : Text → Bool
all_digits [] = false
all_digits (c ∷ cs) = all_chars is_ascii_digit (c ∷ cs)

abbrev pub is_some {ℓ} : {A : Type ℓ} → Option A → Bool
is_some none = false
is_some (some a) = true

unfoldable pub looks_like_numeric_host : Text → Bool
unfolding strip_prefix after_last all_digits
looks_like_numeric_host [] = false
looks_like_numeric_host (c ∷ cs) =
    is_some (strip_prefix (codes "0x") (c ∷ cs))
    || is_some (strip_prefix (codes "0X") (c ∷ cs))
    || all_digits (after_last b'.' (c ∷ cs))

-- The host of an authority; `none` is a literal without its closing bracket.
unfoldable pub host_of : Text → Option Text
unfolding before
host_of [] = some []
host_of (c ∷ cs) =
    if c == b'['
    then elim (split_once b']' cs) [ none ↦ none | some (a, b) ↦ some a ]
    else some (before b':' (c ∷ cs))

unfoldable pub after_scheme : Text → Option Text
unfolding strip_prefix
after_scheme raw = elim (strip_prefix (codes "http://") raw) [
  | some rest ↦ some rest
  | none ↦ strip_prefix (codes "https://") raw
]

module _ (parse_ip : Text → Option IpAddr) where
  unfoldable pub vet_host : Text → Vetted
  unfolding is_restricted_ip looks_like_numeric_host
  vet_host host = elim (parse_ip host) [
    | some ip ↦ if is_restricted_ip ip then err (restricted ip) else ok
    | none ↦ if looks_like_numeric_host host then err (obfuscated host) else ok
  ]

  unfoldable pub validate_webhook_url : Text → Vetted
  unfolding after_scheme host_of vet_host after_last before
  validate_webhook_url raw = elim (after_scheme raw) [
    | none ↦ err scheme
    | some rest ↦ elim (host_of (after_last b'@' (before b'/' rest))) [
      | none ↦ err malformed
      | some host ↦ vet_host host
    ]
  ]
