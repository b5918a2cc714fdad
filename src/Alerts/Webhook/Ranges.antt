-- ===== src/Alerts/Webhook/Ranges.antt =====
-- The restricted addresses as blocks.
use lin_sight.Base.{ℕ, ◌+◌, ◌*◌, ◌≤◌, ◌<◌, ◌≡◌, ◌↔◌, ◌⊎◌, true, arith}
use lin_sight.Alerts.Webhook.{v4, v6, is_restricted_ip, is_ipv6_link_local, is_ipv6_unique_local}

abbrev pub address : ℕ → ℕ → ℕ → ℕ → ℕ
address a b c d = ((a * 256 + b) * 256 + c) * 256 + d

-- The blocks 127.0.0.0/8, 169.254.0.0/16, 10.0.0.0/8, 172.16.0.0/12, 192.168.0.0/16 and 0.0.0.0/32.
abbrev pub InBlock : ℕ → Type 0
InBlock n =
    ((2130706432 ≤ n) × (n ≤ 2147483647))
    ⊎ ((2851995648 ≤ n) × (n ≤ 2852061183))
    ⊎ ((167772160 ≤ n) × (n ≤ 184549375))
    ⊎ ((2886729728 ≤ n) × (n ≤ 2887778303))
    ⊎ ((3232235520 ≤ n) × (n ≤ 3232301055))
    ⊎ (n ≡ 0)

-- An IPv4 address is refused exactly in the blocks 127.0.0.0/8, 169.254.0.0/16, 10.0.0.0/8,
-- 172.16.0.0/12 and 192.168.0.0/16, and as 0.0.0.0.
pub v4_blocks :
    (a b c d : ℕ)
    → a < 256
    → b < 256
    → c < 256
    → d < 256
    → (is_restricted_ip (v4 a b c d) ≡ true) ↔ InBlock (address a b c d)
unfolding is_restricted_ip
v4_blocks a b c d ha hb hc hd = (λ h. ground arith, λ h. ground arith)

-- An IPv6 address is refused exactly if its first segment is in fe80::/10 or fc00::/7, or if it is
-- one of :: and ::1: not if it is an IPv4 address in disguise.
pub v6_blocks :
    (a b c d e f g h : ℕ)
    → (is_restricted_ip (v6 a b c d e f g h) ≡ true) ↔ (
        ((0xfe80 ≤ a) × (a ≤ 0xfebf))
        ⊎ ((0xfc00 ≤ a) × (a ≤ 0xfdff))
        ⊎ (((a + b + c + d + e + f + g) ≡ 0) × (h ≤ 1)))
unfolding is_restricted_ip is_ipv6_link_local is_ipv6_unique_local
v6_blocks a b c d e f g h = (λ r. ground arith, λ r. ground arith)
