-- ===== src/Words/Bits.antt =====
-- Setting a bit of a word, and how many are set.
use Prim.Native.Nat.{max, digits, bit_or-bitwise}
use native.Mathlib.Numerals.{unary_clauses}
use rex_with_driver.Base.{
  ℕ, zero, suc, ◌+◌, ◌-◌, ◌*◌, ◌/◌, ◌%◌, ◌^◌, ◌≤◌, ◌<◌, ◌≡◌, refl, ◌∙◌, bit_or, arith, ◌==◌,
  if◌then◌else◌,
}
use rex_with_driver.Words.{count_ones, bit}

abbrev joined : ℕ → ℕ → ℕ → ℕ
joined = digits (λ y. y) max

-- More digits than the first number has make no difference.
joined_more : (n x y : ℕ) → x ≤ n → joined (suc n) x y ≡ joined n x y
joined_more zero zero y h = refl
joined_more (suc n) zero y h = refl
joined_more zero (suc x) y h = absurd (omega arith)
joined_more (suc n) (suc x) y h = omega (arith, joined_more n (suc x / 2) (y / 2) (omega arith))

joined_spare : (k n x y : ℕ) → x ≤ n → joined (k + n) x y ≡ joined n x y
joined_spare zero n x y h = let e : 0 + n ≡ n = omega arith in rw e refl
joined_spare (suc k) n x y h =
    let e : suc k + n ≡ suc (k + n) = omega arith in
    rw e (joined_more (k + n) x y (omega arith) ∙ joined_spare k n x y h)

zero-bit_or : (y : ℕ) → bit_or 0 y ≡ y
zero-bit_or = bit_or-bitwise 0

bit_or_halves : (x y : ℕ) → bit_or x y ≡ 2 * bit_or (x / 2) (y / 2) + max (x % 2) (y % 2)
bit_or_halves zero y = omega (arith, zero-bit_or y, zero-bit_or (y / 2))
bit_or_halves (suc x) y =
    let half : ℕ = suc x / 2 in
    let split : x - half + half ≡ x = omega arith in
    let spare = joined_spare (x - half) half half (y / 2) (omega arith) in
    omega (arith, rw split at spare, bit_or-bitwise (suc x) y, bit_or-bitwise half (y / 2))

bit_or-zero : (n x : ℕ) → x ≤ n → bit_or x 0 ≡ x
bit_or-zero n zero h = zero-bit_or 0
bit_or-zero zero (suc x) h = absurd (omega arith)
bit_or-zero (suc n) (suc x) h =
    omega (arith, bit_or_halves (suc x) 0, bit_or-zero n (suc x / 2) (omega arith))

-- `x |= 1 << i`
abbrev pub set_bit : ℕ → ℕ → ℕ
set_bit i x = bit_or x (2 ^ i)

set_bit-suc-half :
    (i x : ℕ) → (set_bit (suc i) x / 2 ≡ set_bit i (x / 2)) × (set_bit (suc i) x % 2 ≡ x % 2)
set_bit-suc-half i x =
    let power : 2 ^ suc i ≡ 2 * 2 ^ i = simp unary_clauses (omega arith) in
    let halves = bit_or_halves x (2 ^ suc i) in
    let half : 2 ^ suc i / 2 ≡ 2 ^ i = omega (arith, power) in
    let even : 2 ^ suc i % 2 ≡ 0 = omega (arith, power) in omega (arith, rw half at halves, even)

set_bit-zero-half : (x : ℕ) → (set_bit 0 x / 2 ≡ x / 2) × (set_bit 0 x % 2 ≡ 1)
set_bit-zero-half x = omega (arith, bit_or_halves x 1, bit_or-zero (x / 2) (x / 2) (omega arith))

-- A bit set reads 1, and the others are as before.
pub bit-set_bit : (j i x : ℕ) → bit j (set_bit i x) ≡ (if j == i then 1 else bit j x)
unfolding bit
bit-set_bit zero zero x = omega (arith, set_bit-zero-half x)
bit-set_bit zero (suc i) x = ground (arith, set_bit-suc-half i x)
bit-set_bit (suc j) zero x = ground (arith, set_bit-zero-half x)
bit-set_bit (suc j) (suc i) x = ground (arith, set_bit-suc-half i x, bit-set_bit j i (x / 2))

-- Setting a bit adds one to the count if the bit was clear.
pub count_ones-set_bit :
    (w i x : ℕ)
    → i < w
    → count_ones w (set_bit i x) ≡ count_ones w x + (if bit i x == 0 then 1 else 0)
unfolding count_ones bit
count_ones-set_bit zero i x h = absurd (omega arith)
count_ones-set_bit (suc w) zero x h = ground (arith, set_bit-zero-half x)
count_ones-set_bit (suc w) (suc i) x h =
    ground (arith, set_bit-suc-half i x, count_ones-set_bit w i (x / 2) (omega arith))

pub count_ones-zero : (w : ℕ) → count_ones w 0 ≡ 0
unfolding count_ones
count_ones-zero zero = refl
count_ones-zero (suc w) = omega (arith, count_ones-zero w)

pub bit-zero : (i : ℕ) → bit i 0 ≡ 0
unfolding bit
bit-zero zero = refl
bit-zero (suc i) = bit-zero i

pub bit-lt : (i x : ℕ) → bit i x < 2
unfolding bit
bit-lt zero x = omega arith
bit-lt (suc i) x = bit-lt i (x / 2)
