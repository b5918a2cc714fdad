-- ===== src/Frame/Bytes.antt =====
-- `u32::to_le_bytes` and `u32::from_le_bytes`.
use lin_sight.Base.{ℕ, ◌+◌, ◌*◌, ◌/◌, ◌%◌, ◌<◌, ◌≡◌, List, [], ◌∷◌, arith, u32_mod}

unfoldable pub to_le_bytes : ℕ → List ℕ
to_le_bytes n = n % 256 ∷ n / 256 % 256 ∷ n / 65536 % 256 ∷ n / 16777216 % 256 ∷ []

unfoldable pub of_le_bytes : List ℕ → ℕ
of_le_bytes [] = 0
of_le_bytes (b ∷ bs) = b + 256 * of_le_bytes bs

pub of_le_bytes-to_le_bytes : (n : ℕ) → n < u32_mod → of_le_bytes (to_le_bytes n) ≡ n
unfolding of_le_bytes to_le_bytes
of_le_bytes-to_le_bytes n h = omega arith
