-- ===== src/Words.antt =====
-- Machine words as bytes: `from_ne_bytes` and `to_ne_bytes` on a little-endian machine, `from_be`
-- and `to_be` of the fields of network headers, and the bit operations of the sample programs.
pub mod Bits
use rex_with_driver.Base.{
  ℕ, zero, suc, ◌+◌, ◌*◌, ◌/◌, ◌%◌, ◌^◌, ◌<◌, ◌≡◌, refl, ap, ◌∙◌, List, [], ◌∷◌, arith, length,
}
use rex_with_driver.Kernel.{Bytes}

-- The `n` low bytes of a word, the lowest first, and back.
unfoldable pub to_le : ℕ → ℕ → Bytes
to_le zero v = []
to_le (suc n) v = v % 256 ∷ to_le n (v / 256)

unfoldable pub of_le : Bytes → ℕ
of_le [] = 0
of_le (b ∷ bs) = b + 256 * of_le bs

-- A u16 in network order.
unfoldable pub to_be16 : ℕ → Bytes
to_be16 v = v / 256 % 256 ∷ v % 256 ∷ []

unfoldable pub of_be : Bytes → ℕ → ℕ
of_be [] acc = acc
of_be (b ∷ bs) acc = of_be bs (256 * acc + b)

pub length-to_le : (n v : ℕ) → length (to_le n v) ≡ n
unfolding to_le
length-to_le zero v = refl
length-to_le (suc n) v = ap suc (length-to_le n (v / 256))

pub of_le-to_le4 : (v : ℕ) → v < 2 ^ 32 → of_le (to_le 4 v) ≡ v
unfolding of_le to_le
of_le-to_le4 v h = omega arith

pub of_be-to_be16 : (v : ℕ) → v < 2 ^ 16 → of_be (to_be16 v) 0 ≡ v
unfolding of_be to_be16
of_be-to_be16 v h = omega arith

-- `count_ones` of a word of `w` bits.
unfoldable pub count_ones : ℕ → ℕ → ℕ
count_ones zero n = 0
count_ones (suc w) n = n % 2 + count_ones w (n / 2)

-- The bit of index `i`.
unfoldable pub bit : ℕ → ℕ → ℕ
bit zero n = n % 2
bit (suc i) n = bit i (n / 2)
