-- ===== src/Checksum/Verify.antt =====
-- rex/src/xdp/xdp_impl.rs, `compute_ip_checksum`: when a receiver accepts the header.
use rex_with_driver.Base.{
  ℕ, zero, suc, ◌+◌, ◌*◌, ◌/◌, ◌%◌, ◌^◌, ◌≤◌, ◌<◌, ◌≡◌, refl, ap, ◌∙◌, List, [], ◌∷◌, arith, length,
  ltb, if◌then◌else◌,
}
use rex_with_driver.Kernel.{Bytes}
use rex_with_driver.Checksum.{
  u16_slice, set_u16, sum_words, fold_carry, not_u16, compute_ip_checksum, store_checksum,
}

-- Every byte of the header is one.
abbrev pub AllBytes : Bytes → Type 0
AllBytes [] = Unit {0}
AllBytes (b ∷ bs) = (b < 256) × AllBytes bs

-- The exact sum of words.
unfoldable pub total : List ℕ → ℕ
total [] = 0
total (w ∷ ws) = w + total ws

-- A receiver adds the words up in ones' complement and expects 0xffff: the sum is a multiple of
-- 65535.
abbrev pub remainder : Bytes → ℕ
remainder header = total (u16_slice header) % 65535

sum_words-eq-total :
    (acc : ℕ) (ws : List ℕ) → acc + total ws < 2 ^ 32 → sum_words acc ws ≡ acc + total ws
unfolding sum_words total
sum_words-eq-total acc [] h = omega arith
sum_words-eq-total acc (w ∷ ws) h =
    let step : (acc + w) % 2 ^ 32 ≡ acc + w = omega arith in
    rw step (sum_words-eq-total (acc + w) ws (omega arith) ∙ omega arith)

total-set_u16 :
    (n v : ℕ) (h : Bytes)
    → n < length (u16_slice h)
    → total (u16_slice (set_u16 n v (set_u16 n 0 h))) ≡ total (u16_slice (set_u16 n 0 h)) + v
unfolding total u16_slice set_u16
total-set_u16 n v [] h = absurd (omega arith)
total-set_u16 n v (a ∷ []) h = absurd (omega arith)
total-set_u16 zero v (a ∷ b ∷ rest) h = omega arith
total-set_u16 (suc n) v (a ∷ b ∷ rest) h = omega (arith, total-set_u16 n v rest (omega arith))

total-u16_slice-le : (h : Bytes) → AllBytes h → total (u16_slice h) ≤ 65535 * length (u16_slice h)
unfolding total u16_slice
total-u16_slice-le [] v = omega arith
total-u16_slice-le (a ∷ []) v = omega arith
total-u16_slice-le (a ∷ b ∷ rest) v = omega (arith, total-u16_slice-le rest v.1.1)

set_u16-AllBytes : (n : ℕ) (h : Bytes) → AllBytes h → AllBytes (set_u16 n 0 h)
unfolding set_u16
set_u16-AllBytes n [] v = tt
set_u16-AllBytes n (a ∷ []) v = v
set_u16-AllBytes zero (a ∷ b ∷ rest) v = (omega arith, (omega arith, v.1.1))
set_u16-AllBytes (suc n) (a ∷ b ∷ rest) v = (v.0, (v.1.0, set_u16-AllBytes n rest v.1.1))

length-set_u16 : (n v : ℕ) (h : Bytes) → length (u16_slice (set_u16 n v h)) ≡ length (u16_slice h)
unfolding set_u16 u16_slice
length-set_u16 n v [] = refl
length-set_u16 n v (a ∷ []) = refl
length-set_u16 zero v (a ∷ b ∷ rest) = refl
length-set_u16 (suc n) v (a ∷ b ∷ rest) = ap suc (length-set_u16 n v rest)

-- The words of the header but its checksum, added up.
abbrev pub word_sum : ℕ → Bytes → ℕ
word_sum check header = total (u16_slice (set_u16 check 0 header))

-- Folding the carry in once is enough, unless that carries again.
folded :
    (sum : ℕ)
    → sum < 2 ^ 21
    → (sum + not_u16 (fold_carry sum)) % 65535
      ≡ (if ltb (sum % 65536 + sum / 65536) 65536 then 0 else 1)
unfolding fold_carry
folded sum small = ground arith

-- In a header of at most sixty bytes that has a checksum field, the stored checksum makes a
-- receiver accept the header, except where folding the carry in once carries again: there the
-- header is off by one, and is rejected.
pub store_checksum_lem :
    (check : ℕ) (header : Bytes)
    → AllBytes header
    → length (u16_slice header) ≤ 30
    → check < length (u16_slice header)
    → remainder (store_checksum check header)
      ≡ (if ltb (word_sum check header % 65536 + word_sum check header / 65536) 65536 then 0 else 1)
unfolding store_checksum compute_ip_checksum
store_checksum_lem check header bytes short inside =
    let cleared = set_u16 check 0 header in
    let bound = total-u16_slice-le cleared (set_u16-AllBytes check header bytes) in
    let small : word_sum check header < 2 ^ 21 =
      omega (arith, bound, length-set_u16 check 0 header) in
    let exact = sum_words-eq-total 0 (u16_slice cleared) (omega arith) in
    let stored = total-set_u16 check (not_u16 (fold_carry (word_sum check header))) header inside in
    ap (λ sum. total (u16_slice (set_u16 check (not_u16 (fold_carry sum)) cleared)) % 65535)
      (exact ∙ omega arith)
    ∙ ap (λ n. n % 65535) stored
    ∙ folded (word_sum check header) small
