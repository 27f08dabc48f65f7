-- ===== src/MemcachedBenchmark/Entries.antt =====
-- tools/memcached_benchmark/src/dict.rs: the dictionary and the entries of a benchmark, in a build
-- whose arithmetic wraps. The random strings, the samples of the Zipf distribution and the disk are
-- parameters.
pub mod Mix
pub mod Dictionary
use rex_with_driver.Base.{
  ℕ, zero, suc, ◌+◌, ◌-◌, ◌%◌, ◌^◌, ◌==◌, List, [], ◌∷◌, Option, none, some, Bool, if◌then◌else◌,
  length, get_elem?, map,
}
use rex_with_driver.Kernel.{Bytes}
use rex_with_driver.Utils.{Result, ok, err}
use rex_with_driver.Text.{same_string}
use rex_with_driver.MemcachedBenchmark.{Protocol, udp, tcp, Dict, find_value, insert_pair}

-- The keys and values of the calls from the `idx`-th on.
unfoldable pub insert_random : (ℕ → Bytes × Bytes) → ℕ → ℕ → Dict → Dict
insert_random random idx zero dict = dict
insert_random random idx (suc nums) dict =
    let (key, value) = random idx in
    insert_random random (idx + 1) nums (insert_pair key value dict)

-- `generate_random_str` gives the `idx`-th key and value of the sizes.
unfoldable pub generate_memcached_test_dict : (ℕ → ℕ → ℕ → Bytes × Bytes) → ℕ → ℕ → ℕ → Dict
generate_memcached_test_dict random key_size value_size nums =
    insert_random (random key_size value_size) 0 nums []

-- The errors of `generate_test_dict_write_to_disk`.
pub data DictError : Type 0 where
  empty_dict : DictError
  not_written : DictError

pub data Generated : Type 0 where
  generated : Dict → Generated
  failed : DictError → Generated

unfoldable pub generate_test_dict_write_to_disk :
    (ℕ → ℕ → ℕ → Bytes × Bytes) → (Dict → Bool) → ℕ → ℕ → ℕ → Generated
generate_test_dict_write_to_disk random writes key_size value_size nums =
    let test_dict = generate_memcached_test_dict random key_size value_size nums in
    elim test_dict [
      | [] ↦ failed empty_dict
      | pair ∷ rest ↦ if writes (pair ∷ rest) then generated (pair ∷ rest) else failed not_written
    ]

pub record Entry : Type 0 where
  pub key : Bytes
  pub value : Bytes
  pub protocol : Protocol

abbrev pub keys_of : Dict → List Bytes
keys_of = map (λ p. p.0)

-- Every 31st entry is for TCP.
abbrev pub protocol_of : ℕ → Protocol
protocol_of idx = if idx % 31 == 30 then tcp else udp

-- The entry whose key is the one of index `i`; both the index and the `unwrap` may panic.
unfoldable pub entry_of : Dict → ℕ → ℕ → Option Entry
entry_of dict i idx = elim (get_elem? (keys_of dict) i) [
  | none ↦ none
  | some key ↦ elim (find_value dict key) [
    | none ↦ none
    | some value ↦ some (record { key = key; value = value; protocol = protocol_of idx })
  ]
]

unfoldable pub entries_from : Dict → (ℕ → ℕ) → ℕ → ℕ → Option (List Entry)
entries_from dict sample idx zero = some []
entries_from dict sample idx (suc nums) =
    let rest = entries_from dict sample (idx + 1) nums in
    elim (entry_of dict (sample idx) idx) [
      | none ↦ none
      | some e ↦ elim rest [ none ↦ none | some es ↦ some (e ∷ es) ]
    ]

-- `zipf n` is `Zipf::new(n, 0.99)`: `none` for an error, or its samples.
unfoldable pub generate_test_entries : (ℕ → Option (ℕ → ℕ)) → Dict → ℕ → Option (List Entry)
generate_test_entries zipf dict nums = elim (zipf ((length dict + 2 ^ 64 - 1) % 2 ^ 64)) [
  | none ↦ none
  | some sample ↦ entries_from dict sample 0 nums
]

-- The frequency of a key, in a HashMap.
unfoldable pub add_frequency : Bytes → List (Bytes × ℕ) → List (Bytes × ℕ)
add_frequency key [] = (key, 1) ∷ []
add_frequency key ((k, n) ∷ rest) =
    let rest' = add_frequency key rest in
    if same_string k key then (k, n + 1) ∷ rest else (k, n) ∷ rest'

pub record Statistics : Type 0 where
  pub udp_count : ℕ
  pub tcp_count : ℕ
  pub key_frequency : List (Bytes × ℕ)

abbrev pub count_entry : Entry → Statistics → Statistics
count_entry e s = record {
  udp_count = elim e.protocol [ udp ↦ s.udp_count + 1 | tcp ↦ s.udp_count ];
  tcp_count = elim e.protocol [ udp ↦ s.tcp_count | tcp ↦ s.tcp_count + 1 ];
  key_frequency = add_frequency e.key s.key_frequency;
}

unfoldable pub count_entries : List Entry → Statistics → Statistics
count_entries [] s = s
count_entries (e ∷ es) s = count_entries es (count_entry e s)

unfoldable pub test_entries_statistics : List Entry → Statistics
test_entries_statistics entries =
    count_entries entries (record { udp_count = 0; tcp_count = 0; key_frequency = [] })
