-- ===== src/MemcachedBenchmark/Entries/Mix.antt =====
-- tools/memcached_benchmark/src/dict.rs, `generate_test_entries`: every entry is drawn from the
-- dictionary, and one in 31 is for TCP.
use rex_with_driver.Base.{
  ℕ, zero, suc, ◌+◌, ◌-◌, ◌/◌, ◌%◌, ◌^◌, ◌≡◌, ◌<◌, ◌≤◌, refl, ap, ◌∙◌, arith, List, [], ◌∷◌, Option,
  some, true, inl, inr, Bool-cases, length, get_elem?,
}
use rex_with_driver.Kernel.{Bytes}
use rex_with_driver.Text.{same_string}
use rex_with_driver.MemcachedBenchmark.{Dict, find_value}
use rex_with_driver.MemcachedBenchmark.Entries.{
  Entry, keys_of, protocol_of, entry_of, entries_from, generate_test_entries, Statistics,
  count_entry, count_entries, test_entries_statistics,
}

-- `Zipf::new(n, s)` fails only for n < 1 or s < 0, and samples lie in 1 ... n.
pub record Samples (zipf : ℕ → Option (ℕ → ℕ)) (n : ℕ) : Type 0 where
  pub sample : ℕ → ℕ
  pub made : zipf n ≡ some sample
  pub low : (idx : ℕ) → 1 ≤ sample idx
  pub high : (idx : ℕ) → sample idx ≤ n

-- The entries from `idx` on are those of the samples.
pub data Drawn (dict : Dict) (sample : ℕ → ℕ) : ℕ → List Entry → Type 0 where
  all_drawn : {idx : ℕ} → Drawn dict sample idx []
  drawn :
      {idx : ℕ} {e : Entry} {es : List Entry}
      → get_elem? (keys_of dict) (sample idx) ≡ some e.key
      → find_value dict e.key ≡ some e.value
      → e.protocol ≡ protocol_of idx
      → Drawn dict sample (idx + 1) es
      → Drawn dict sample idx (e ∷ es)

pub same_string_refl : (s : Bytes) → same_string s s ≡ true
unfolding same_string
same_string_refl [] = refl
same_string_refl (b ∷ bs) = ground (arith, same_string_refl bs)

find_value-key :
    (dict : Dict) (i : ℕ)
    → i < length dict
    → (key : Bytes) × (value : Bytes) × (get_elem? (keys_of dict) i ≡ some key)
      × (find_value dict key ≡ some value)
unfolding find_value
find_value-key [] i h = absurd (omega arith)
find_value-key ((k, v) ∷ rest) zero h = (k, v, refl, ground (arith, same_string_refl k))
find_value-key ((k, v) ∷ rest) (suc i) h =
    let (key, value, at_i, found) = find_value-key rest i (omega arith) in
    elim (Bool-cases (same_string k key)) [
      | inl here ↦ (key, v, at_i, ground (arith, here))
      | inr there ↦ (key, value, at_i, ground (arith, there, found))
    ]

entries_from-Drawn :
    (dict : Dict) (sample : ℕ → ℕ) (idx nums : ℕ)
    → ((i : ℕ) → sample i < length dict)
    → (es : List Entry) × (entries_from dict sample idx nums ≡ some es)
      × (length es ≡ nums)
      × Drawn dict sample idx es
unfolding entries_from entry_of
entries_from-Drawn dict sample idx zero inside = ([], refl, refl, all_drawn)
entries_from-Drawn dict sample idx (suc nums) inside =
    let (es, rest, size, drawn_rest) = entries_from-Drawn dict sample (idx + 1) nums inside in
    let (key, value, at_i, found) = find_value-key dict (sample idx) (inside idx) in
    (
      record { key = key; value = value; protocol = protocol_of idx } ∷ es,
      ground (arith, at_i, found, rest),
      ap suc size,
      drawn at_i found refl drawn_rest,
    )

-- The counts after the entries from `idx` on.
count_entries-Drawn :
    (dict : Dict) (sample : ℕ → ℕ) (idx : ℕ) (es : List Entry) (s : Statistics)
    → Drawn dict sample idx es
    → ((count_entries es s).tcp_count + idx / 31 ≡ s.tcp_count + (idx + length es) / 31)
      × ((count_entries es s).tcp_count + (count_entries es s).udp_count
          ≡ s.tcp_count + s.udp_count + length es)
unfolding count_entries
count_entries-Drawn dict sample idx [] s all_drawn = (omega arith, omega arith)
count_entries-Drawn dict sample idx (e ∷ es) s (drawn at_i found protocol rest) =
    let (tcp_rest, all_rest) =
      count_entries-Drawn dict sample (idx + 1) es (count_entry e s) rest in
    (ground (arith, protocol, tcp_rest), ground (arith, protocol, all_rest))

-- From a dictionary of at least two pairs, `generate_test_entries` makes as many entries as it is
-- asked for: the samples of the Zipf distribution are indices of keys, every entry has its key's value
-- in the dictionary, and `nums / 31` entries are for TCP, the others for UDP, as the statistics count
-- them.
pub generate_test_entries-test_entries_statistics :
    (zipf : ℕ → Option (ℕ → ℕ)) (dict : Dict) (nums : ℕ) (z : Samples zipf (length dict - 1))
    → 2 ≤ length dict
    → length dict < 2 ^ 64
    → (es : List Entry) × (generate_test_entries zipf dict nums ≡ some es)
      × (length es ≡ nums)
      × Drawn dict z.sample 0 es
      × ((test_entries_statistics es).tcp_count ≡ nums / 31)
      × ((test_entries_statistics es).udp_count ≡ nums - nums / 31)
unfolding generate_test_entries test_entries_statistics
generate_test_entries-test_entries_statistics zipf dict nums z two small =
    let (es, made, size, d) =
      entries_from-Drawn dict z.sample 0 nums (λ i. omega (arith, z.high i)) in
    let none_yet : Statistics = record { udp_count = 0; tcp_count = 0; key_frequency = [] } in
    let (tcps, alls) = count_entries-Drawn dict z.sample 0 es none_yet d in
    let last : (length dict + 2 ^ 64 - 1) % 2 ^ 64 ≡ length dict - 1 = omega arith in
    (
      es,
      ground (arith, ap zipf last ∙ z.made, made),
      size,
      d,
      omega (arith, tcps, size),
      omega (arith, tcps, alls, size),
    )
