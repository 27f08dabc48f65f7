-- ===== src/Checksum/Tests.antt =====
-- An IP header of twenty bytes.
use rex_with_driver.Base.{
  ◌≤◌, ◌<◌, refl, length, ◌+◌, ◌%◌, ◌/◌, ◌≡◌, arith, [], ◌∷◌, ltb, if◌then◌else◌,
}
use rex_with_driver.Kernel.{Bytes}
use rex_with_driver.Checksum.{
  u16_slice, set_u16, store_checksum, compute_ip_checksum, fold_carry, sum_words,
}
use rex_with_driver.Checksum.Verify.{remainder, total, word_sum, store_checksum_lem}

abbrev header : Bytes
header =
    69 ∷ 0 ∷ 0 ∷ 60 ∷ 28 ∷ 70 ∷ 64 ∷ 0 ∷ 64 ∷ 6 ∷ 0 ∷ 0 ∷ 172 ∷ 16 ∷ 10 ∷ 99 ∷ 172 ∷ 16 ∷ 10 ∷ 12
    ∷ []

header-length : (length (u16_slice header) ≤ 30) × (5 < length (u16_slice header))
unfolding u16_slice
header-length = omega arith

store_checksum_lem_example :
    remainder (store_checksum 5 header)
    ≡ (if ltb (word_sum 5 header % 65536 + word_sum 5 header / 65536) 65536 then 0 else 1)
store_checksum_lem_example =
    store_checksum_lem 5 header (omega arith) header-length.0 header-length.1

-- Words that add up to 0x1ffff: their checksum is rejected.
carries_twice : remainder (store_checksum 3 (255 ∷ 255 ∷ 255 ∷ 255 ∷ 1 ∷ 0 ∷ 0 ∷ 0 ∷ [])) ≡ 1
unfolding store_checksum compute_ip_checksum u16_slice set_u16 sum_words fold_carry total
carries_twice = refl
