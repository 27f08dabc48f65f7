-- ===== src/Checksum.antt =====
-- rex/src/xdp/xdp_impl.rs, `compute_ip_checksum`, over the bytes of an IP header. The machine is
-- little-endian.
pub mod Verify
pub mod Tests
use rex_with_driver.Base.{ℕ, zero, suc, ◌+◌, ◌-◌, ◌*◌, ◌/◌, ◌%◌, ◌^◌, List, [], ◌∷◌}
use rex_with_driver.Kernel.{Bytes}

-- The header read as a slice of u16, and an assignment of the n-th of them.
unfoldable pub u16_slice : Bytes → List ℕ
u16_slice [] = []
u16_slice (a ∷ []) = []
u16_slice (a ∷ b ∷ rest) = (a + 256 * b) ∷ u16_slice rest

unfoldable pub set_u16 : ℕ → ℕ → Bytes → Bytes
set_u16 n v [] = []
set_u16 n v (a ∷ []) = a ∷ []
set_u16 zero v (a ∷ b ∷ rest) = v % 256 ∷ v / 256 ∷ rest
set_u16 (suc n) v (a ∷ b ∷ rest) = a ∷ b ∷ set_u16 n v rest

-- `for &word in u16_slice { sum += word as u32 }`
unfoldable pub sum_words : ℕ → List ℕ → ℕ
sum_words sum [] = sum
sum_words sum (word ∷ rest) = sum_words ((sum + word) % 2 ^ 32) rest

-- `(sum & 0xffff) + (sum >> 16)` and `!sum as u16`
unfoldable pub fold_carry : ℕ → ℕ
fold_carry sum = (sum % 2 ^ 16 + sum / 2 ^ 16) % 2 ^ 32

abbrev pub not_u16 : ℕ → ℕ
not_u16 sum = (2 ^ 32 - 1 - sum) % 2 ^ 16

-- The checksum, and the header with its `check` field, the u16 at index `check`, set to 0.
unfoldable pub compute_ip_checksum : ℕ → Bytes → ℕ × Bytes
compute_ip_checksum check ip_header =
    let cleared = set_u16 check 0 ip_header in
    (not_u16 (fold_carry (sum_words 0 (u16_slice cleared))), cleared)

-- `ip_header.check = compute_ip_checksum(ip_header)`
unfoldable pub store_checksum : ℕ → Bytes → Bytes
store_checksum check ip_header =
    let (sum, cleared) = compute_ip_checksum check ip_header in set_u16 check sum cleared
