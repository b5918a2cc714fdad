-- ===== src/Alerts/Webhook/Hosts.antt =====
-- No user name, port or path hides a restricted address.
use lin_sight.Base.{
  ℕ, ◌≡◌, refl, ◌∙◌, Bool, true, false, [], ◌∷◌, ◌++◌, Option, none, some, arith, ◌==◌, Text, codes,
  Bool-cases, inl, inr,
}
use lin_sight.Core.Chars.{any_char, split_once, strip_prefix}
use lin_sight.Alerts.Webhook.{
  IpAddr, restricted, err, is_restricted_ip, before, after_last, host_of, vet_host, after_scheme,
  validate_webhook_url,
}

-- The character is not in the text.
abbrev pub Absent : ℕ → Text → Type 0
Absent c s = any_char (λ x. x == c) s ≡ false

split_once-Absent : (sep : ℕ) (s : Text) → Absent sep s → split_once sep s ≡ none
unfolding split_once any_char
split_once-Absent sep [] h = refl
split_once-Absent sep (c ∷ cs) h = ground (arith, split_once-Absent sep cs)

split_once-front :
    (sep : ℕ) (a b : Text) → Absent sep a → split_once sep (a ++ sep ∷ b) ≡ some (a, b)
unfolding split_once any_char
split_once-front sep [] b h = ground arith
split_once-front sep (c ∷ cs) b h = ground (arith, split_once-front sep cs b)

split_once-some :
    (sep : ℕ) (a b : Text) → (r : Text × Text) × (split_once sep (a ++ sep ∷ b) ≡ some r)
unfolding split_once
split_once-some sep [] b = (([], b), ground arith)
split_once-some sep (c ∷ cs) b =
    let (r, rest) = split_once-some sep cs b in
    elim (Bool-cases (c == sep)) [
      | inl here ↦ (([], cs ++ sep ∷ b), ground arith)
      | inr later ↦ ((c ∷ r.0, r.1), ground (arith, rest))
    ]

after_last-Absent : (sep : ℕ) (b : Text) → Absent sep b → after_last sep b ≡ b
unfolding after_last
after_last-Absent sep [] h = refl
after_last-Absent sep (c ∷ cs) h = rw (after_last, split_once-Absent sep (c ∷ cs) h)

after_last-front : (sep : ℕ) (a b : Text) → Absent sep b → after_last sep (a ++ sep ∷ b) ≡ b
unfolding after_last
after_last-front sep [] b h =
    rw (after_last, (split_once-some sep [] b).1) (after_last-Absent sep b h)
after_last-front sep (c ∷ cs) b h =
    rw (after_last, (split_once-some sep (c ∷ cs) b).1) (after_last-front sep cs b h)

before-front : (sep : ℕ) (a b : Text) → Absent sep a → before sep (a ++ sep ∷ b) ≡ a
unfolding before
before-front sep a b h = rw (before, split_once-front sep a b h)

any_char-head : (p : ℕ → Bool) (c : ℕ) (cs : Text) → any_char p (c ∷ cs) ≡ false → p c ≡ false
unfolding any_char
any_char-head p c cs h = ground arith

host_of-front :
    (host port : Text)
    → Absent b':' host
    → Absent b'[' host
    → host_of (host ++ b':' ∷ port) ≡ some host
unfolding host_of before split_once
host_of-front [] port h g = refl
host_of-front (c ∷ cs) port h g =
    let plain : (c == b'[') ≡ false = any_char-head (λ x. x == b'[') c cs g in
    rw (plain, before-front b':' (c ∷ cs) port h)

validate_webhook_url-vets :
    (parse_ip : Text → Option IpAddr) (raw rest host : Text)
    → after_scheme raw ≡ some rest
    → host_of (after_last b'@' (before b'/' rest)) ≡ some host
    → validate_webhook_url parse_ip raw ≡ vet_host parse_ip host
unfolding validate_webhook_url
validate_webhook_url-vets parse_ip raw rest host h g = rw (h, g)

vet_host-restricted :
    (parse_ip : Text → Option IpAddr) (host : Text) (ip : IpAddr)
    → parse_ip host ≡ some ip
    → is_restricted_ip ip ≡ true
    → vet_host parse_ip host ≡ err (restricted ip)
unfolding vet_host
vet_host-restricted parse_ip host ip parses bad = rw (vet_host, parses, bad)

after_scheme-http : (rest : Text) → after_scheme (codes "http://" ++ rest) ≡ some rest
unfolding after_scheme strip_prefix
after_scheme-http rest = refl

-- A URL whose host is a restricted address is refused, whatever user name stands before it and
-- whatever port and path behind it, if no slash stands before the path, no at sign behind the user
-- name, and no colon or opening bracket in the host.
pub restricted_host_refused :
    (parse_ip : Text → Option IpAddr) (user host port path : Text) (ip : IpAddr)
    → Absent b'/' (user ++ b'@' ∷ (host ++ b':' ∷ port))
    → Absent b'@' (host ++ b':' ∷ port)
    → Absent b':' host
    → Absent b'[' host
    → parse_ip host ≡ some ip
    → is_restricted_ip ip ≡ true
    → validate_webhook_url parse_ip
        (codes "http://" ++ ((user ++ b'@' ∷ (host ++ b':' ∷ port)) ++ b'/' ∷ path))
      ≡ err (restricted ip)
restricted_host_refused parse_ip user host port path ip no_slash no_at no_colon no_bracket parses
      bad =
    let rest = (user ++ b'@' ∷ (host ++ b':' ∷ port)) ++ b'/' ∷ path in
    let refused : vet_host parse_ip host ≡ err (restricted ip) =
      vet_host-restricted parse_ip host ip parses bad in
    let found : host_of (after_last b'@' (before b'/' rest)) ≡ some host =
      rw
        (
          before-front b'/' (user ++ b'@' ∷ (host ++ b':' ∷ port)) path no_slash,
          after_last-front b'@' user (host ++ b':' ∷ port) no_at,
        )
        (host_of-front host port no_colon no_bracket) in
    validate_webhook_url-vets parse_ip (codes "http://" ++ rest) rest host (after_scheme-http rest)
      found
    ∙ refused
