-- ===== src/MemcachedBenchmark/Entries/Dictionary.antt =====
-- tools/memcached_benchmark/src/dict.rs: the dictionary of a benchmark.
use native.Mathlib.Decide.{dec_lt}
use rex_with_driver.Base.{
  ℕ, zero, suc, ◌+◌, ◌<◌, ◌≤◌, ◌≡◌, refl, ap, arith, List, [], ◌∷◌, Bool, true, inl, inr, ◌⊎◌,
  Bool-cases, length,
}
use rex_with_driver.Kernel.{Bytes}
use rex_with_driver.Text.{same_string}
use rex_with_driver.MemcachedBenchmark.{Dict, insert_pair}
use rex_with_driver.MemcachedBenchmark.Entries.{
  insert_random, generate_memcached_test_dict, generate_test_dict_write_to_disk, generated, failed,
  empty_dict,
}

-- Keys and values of these sizes.
pub data Sized (key_size value_size : ℕ) : Dict → Type 0 where
  no_pairs : Sized key_size value_size []
  sized :
      {key value : Bytes} {rest : Dict}
      → length key ≡ key_size
      → length value ≡ value_size
      → Sized key_size value_size rest
      → Sized key_size value_size ((key, value) ∷ rest)

insert_pair-Sized :
    {key_size value_size : ℕ} (key value : Bytes) (dict : Dict)
    → length key ≡ key_size
    → length value ≡ value_size
    → Sized key_size value_size dict
    → Sized key_size value_size (insert_pair key value dict)
unfolding insert_pair
insert_pair-Sized key value [] k v no_pairs = sized k v no_pairs
insert_pair-Sized key value ((k', v') ∷ rest) k v (sized e e' more) =
    elim (Bool-cases (same_string k' key)) [
      | inl same ↦ rw same (sized e v more)
      | inr other ↦ rw other (sized e e' (insert_pair-Sized key value rest k v more))
    ]

length-insert_pair :
    (key value : Bytes) (dict : Dict)
    → (length (insert_pair key value dict) ≤ length dict + 1)
      × (0 < length (insert_pair key value dict))
      × (length dict ≤ length (insert_pair key value dict))
unfolding insert_pair
length-insert_pair key value [] = (omega arith, omega arith, omega arith)
length-insert_pair key value ((k, v) ∷ rest) =
    let (most, some_pair, least) = length-insert_pair key value rest in
    (ground (arith, most), ground arith, ground (arith, least))

insert_random-Sized :
    {key_size value_size : ℕ} (random : ℕ → Bytes × Bytes) (idx nums : ℕ) (dict : Dict)
    → ((i : ℕ) → (length (random i).0 ≡ key_size) × (length (random i).1 ≡ value_size))
    → Sized key_size value_size dict
    → Sized key_size value_size (insert_random random idx nums dict)
      × (length (insert_random random idx nums dict) ≤ length dict + nums)
      × (length dict ≤ length (insert_random random idx nums dict))
      × (0 < nums → 0 < length (insert_random random idx nums dict))
unfolding insert_random
insert_random-Sized random idx zero dict sizes all =
    (all, omega arith, omega arith, λ h. absurd (omega arith))
insert_random-Sized random idx (suc nums) dict sizes all =
    let (k, v) = sizes idx in
    let next = insert_pair (random idx).0 (random idx).1 dict in
    let (most, some_pair, least) = length-insert_pair (random idx).0 (random idx).1 dict in
    let (all', most', least', some') =
      insert_random-Sized random (idx + 1) nums next sizes
        (insert_pair-Sized (random idx).0 (random idx).1 dict k v all) in
    (
      all',
      omega (arith, most, most'),
      omega (arith, least, least'),
      λ h. omega (arith, some_pair, least'),
    )

List-cases : {A : Type 0} (xs : List A) → (xs ≡ []) ⊎ ((x : A) × (rest : List A) × (xs ≡ x ∷ rest))
List-cases [] = inl refl
List-cases (x ∷ rest) = inr (x, rest, refl)

-- Where random strings have the lengths asked for and the disk takes the file, a dictionary for one
-- pair or more is written and returned: it has at least one pair and at most as many as asked for, all
-- of the key and value sizes. For none the error says that it is empty.
pub generate_test_dict_write_to_disk_lem :
    (random : ℕ → ℕ → ℕ → Bytes × Bytes) (writes : Dict → Bool) (key_size value_size nums : ℕ)
    → ((i : ℕ)
        → (length (random key_size value_size i).0 ≡ key_size)
          × (length (random key_size value_size i).1 ≡ value_size))
    → ((dict : Dict) → writes dict ≡ true)
    → ((generate_test_dict_write_to_disk random writes key_size value_size nums ≡ failed empty_dict)
        × (nums ≡ 0))
      ⊎ ((dict : Dict) × (generate_test_dict_write_to_disk random writes key_size value_size nums
            ≡ generated dict)
          × (0 < length dict)
          × (length dict ≤ nums)
          × Sized key_size value_size dict)
unfolding generate_test_dict_write_to_disk generate_memcached_test_dict
generate_test_dict_write_to_disk_lem random writes key_size value_size nums sizes written =
    let dict = insert_random (random key_size value_size) 0 nums [] in
    let (all, most, least, some_pair) =
      insert_random-Sized (random key_size value_size) 0 nums [] sizes no_pairs in
    elim (List-cases dict) [
      | inl none_made ↦ inl (
        ground (arith, none_made),
        elim (dec_lt 0 nums) [
          | yes p ↦ absurd (omega (arith, some_pair p, ap length none_made))
          | no p ↦ omega arith
        ],
      )
      | inr (pair, rest, made) ↦ inr (
        dict,
        ground (arith, made, written (pair ∷ rest)),
        omega (arith, ap length made),
        omega (arith, most),
        all,
      )
    ]
