-- ===== src/Bmc/Get/Keys.antt =====
-- samples/bmc/src/main.rs, `hash_key`: a request of several keys.
use rex_with_driver.Base.{
  ℕ, zero, suc, ◌+◌, ◌%◌, ◌^◌, ◌≡◌, ◌<◌, ◌≤◌, refl, ap, ◌∙◌, arith, none, some, false, ◌==◌, ◌&&◌,
  length, drop, take, get_elem?, get_elem?-lt, get_elem?-set_self, length-set, length-take,
  length-drop, set, min,
}
use rex_with_driver.Kernel.{Bytes, sub64}
use rex_with_driver.Program.{World, Host, yields, then_run, slice, from}
use rex_with_driver.Bmc.{
  BmcMaps, BmcCacheEntry, BmcStats, MemcachedKey, hash_bytes, find_entry, put_key, count, increment,
  fnv_offset_basis_32,
}
use rex_with_driver.Bmc.Invalidate.Sets.{count-kcache}
use rex_with_driver.Bmc.Get.{
  key_bytes, check_key, key_at, one_key, hash_keys, hash_key, close_some, next_offset,
}

-- The bytes that every pass looks at, where the packet has enough of them.
abbrev head : Bytes → Bytes
head payload = take 231 payload

-- The state that a pass leaves alone, for a packet of `total` bytes and a hash that misses.
record Missing (total hash : ℕ) (w : World BmcMaps) : Type 0 where
  size : length w.packet ≡ total
  key : (k : MemcachedKey) × (get_elem? w.rest.keys 0 ≡ some k)
  entry : BmcCacheEntry
  found : w.rest.kcache (hash % 3250000) ≡ some entry
  misses : (entry.valid == 1 && entry.hash == hash) ≡ false

pub count-keys :
    (f : BmcStats → BmcStats) (m : BmcMaps) → get_elem? (count f m).keys 0 ≡ get_elem? m.keys 0
count-keys f m = ground arith

check_key-miss :
    (h : Host) (part : Bytes) (k : MemcachedKey) (entry : BmcCacheEntry) (w : World BmcMaps)
    → 0 < length (key_bytes part)
    → length (key_bytes part) < 231
    → get_elem? part (length (key_bytes part)) ≡ some 32
    → w.rest.kcache (hash_bytes fnv_offset_basis_32 (key_bytes part) % 3250000) ≡ some entry
    → let hash = hash_bytes fnv_offset_basis_32 (key_bytes part) in
      (entry.valid == 1 && entry.hash == hash) ≡ false
      → check_key h 0 k part w
        ≡ yields
            (false, (0, length (key_bytes part)))
            (record w {
              rest =
                  count
                    (λ s. record s { miss_count = increment s.miss_count })
                    (put_key 0 (record k { hash = hash }) w.rest);
            })
unfolding check_key find_entry
check_key-miss h part k entry w some_key short space found misses =
    ground (arith, space, found, misses)

pub slice-head :
    (payload : Bytes) (n : ℕ) (w : World BmcMaps)
    → n ≤ length payload
    → slice payload 0 n w ≡ yields (take n payload) w
slice-head payload n w enough = ground arith

pub one_key-head :
    (h : Host) (payload : Bytes) (offset : ℕ) (k : MemcachedKey) (w : World BmcMaps)
    → get_elem? w.rest.keys 0 ≡ some k
    → one_key h payload 0 offset w ≡ key_at h payload 0 offset k w
unfolding one_key
one_key-head h payload offset k w found = ground (arith, found)

key_at-head :
    (h : Host) (payload : Bytes) (offset : ℕ) (k : MemcachedKey) (w : World BmcMaps)
    → min 231 (sub64 (length w.packet) offset) ≡ 231
    → 231 ≤ length payload
    → key_at h payload 0 offset k w
      ≡ check_key h 0 k
          (head payload)
          (record w { rest = put_key 0 (record k { hash = fnv_offset_basis_32 }) w.rest })
unfolding key_at
key_at-head h payload offset k w limit enough =
    let w1 = record w { rest = put_key 0 (record k { hash = fnv_offset_basis_32 }) w.rest } in
    ap (λ n. then_run (slice payload 0 n w1) (check_key h 0 k)) limit
    ∙ ap (λ r. then_run r (check_key h 0 k)) (slice-head payload 231 w1 enough)

one_key-miss :
    (h : Host) (payload : Bytes) (offset total : ℕ) (w : World BmcMaps)
    → offset < 256
    → 487 ≤ total
    → total < 2 ^ 32
    → 231 ≤ length payload
    → 0 < length (key_bytes (head payload))
    → get_elem? (head payload) (length (key_bytes (head payload))) ≡ some 32
    → Missing total (hash_bytes fnv_offset_basis_32 (key_bytes (head payload))) w
    → (w' : World BmcMaps) × (one_key h payload 0 offset w
        ≡ yields (false, (0, length (key_bytes (head payload)))) w')
      × Missing total (hash_bytes fnv_offset_basis_32 (key_bytes (head payload))) w'
one_key-miss h payload offset total w small long fits enough some_key space m =
    let (k, found_key) = m.key in
    let hash = hash_bytes fnv_offset_basis_32 (key_bytes (head payload)) in
    let m2 =
      put_key 0 (record k { hash = hash })
        (put_key 0 (record k { hash = fnv_offset_basis_32 }) w.rest) in
    let missed = λ (s : BmcStats). record s { miss_count = increment s.miss_count } in
    let limit : min 231 (sub64 (length w.packet) offset) ≡ 231 = omega (arith, m.size) in
    let short : length (key_bytes (head payload)) < 231 = omega (
      arith,
      get_elem?-lt (head payload) (length (key_bytes (head payload))) space,
      length-take 231 payload,
    ) in
    let inside : 0 < length w.rest.keys = get_elem?-lt w.rest.keys 0 found_key in
    (
      record w { rest = count missed m2 },
      one_key-head h payload offset k w found_key
          ∙ key_at-head h payload offset k w limit enough
          ∙ check_key-miss h (head payload) k m.entry
              (record w { rest = put_key 0 (record k { hash = fnv_offset_basis_32 }) w.rest })
              some_key short space m.found m.misses,
      record {
        size = m.size;
        key = (
          record k { hash = hash },
          count-keys missed m2
              ∙ get_elem?-set_self (set w.rest.keys 0 (record k { hash = fnv_offset_basis_32 })) 0
                  (record k { hash = hash })
                  (omega (
                    arith,
                    inside,
                    length-set w.rest.keys 0 (record k { hash = fnv_offset_basis_32 }),
                  )),
        );
        entry = m.entry;
        found = count-kcache missed m2 (hash % 3250000) ∙ m.found;
        misses = m.misses;
      },
    )

pub from-fits :
    (a : ℕ) (w : World BmcMaps) → a ≤ length w.packet → from a w ≡ yields (drop a w.packet) w
from-fits a w fits = ground arith

hash_keys-endless :
    (h : Host) (fuel payload_index : ℕ) (payload : Bytes) (offset total : ℕ) (w : World BmcMaps)
    → offset < 256
    → 487 ≤ total
    → total < 2 ^ 32
    → 231 ≤ length payload
    → 0 < length (key_bytes (head payload))
    → get_elem? (head payload) (length (key_bytes (head payload))) ≡ some 32
    → Missing total (hash_bytes fnv_offset_basis_32 (key_bytes (head payload))) w
    → (w' : World BmcMaps) × (hash_keys h fuel payload_index payload 0 offset w ≡ yields none w')
unfolding hash_keys
hash_keys-endless h zero payload_index payload offset total w small long fits enough some_key space
      m =
    (w, refl)
hash_keys-endless h (suc fuel) payload_index payload offset total w small long fits enough some_key
      space m =
    let (w1, first, m1) =
      one_key-miss h payload offset total w small long fits enough some_key space m in
    let next = next_offset offset (length (key_bytes (head payload))) in
    let (w2, rest) =
      hash_keys-endless h fuel payload_index payload next total w1 (omega arith) long fits enough
        some_key space m1 in
    (w2, ground (arith, first, rest))

-- A request of several keys, whose first misses the cache, keeps the program in its loop: no number
-- of passes is enough. The first key is to have 1 to 230 bytes and a space behind it, the entry at
-- its index is to be invalid or of another hash, the packet is to have at least 487 bytes, and at
-- least 231 of them from the place of the key on (with fewer the slice of a pass panics), and the
-- map of keys is to have its first entry. A pass then looks at the same bytes as the one before,
-- since only the limit of the slice moves, and that modulo 256.
pub hash_key-endless :
    (h : Host) (fuel payload_index offset : ℕ) (w : World BmcMaps) (k : MemcachedKey)
    (entry : BmcCacheEntry)
    → let payload = drop payload_index w.packet in
      offset < 256
      → 487 ≤ length w.packet
      → length w.packet < 2 ^ 32
      → payload_index + 231 ≤ length w.packet
      → 0 < length (key_bytes (take 231 payload))
      → get_elem? (take 231 payload) (length (key_bytes (take 231 payload))) ≡ some 32
      → get_elem? w.rest.keys 0 ≡ some k
      → w.rest.kcache (hash_bytes fnv_offset_basis_32 (key_bytes (take 231 payload)) % 3250000)
        ≡ some entry
      → (entry.valid == 1
          && entry.hash == hash_bytes fnv_offset_basis_32 (key_bytes (take 231 payload)))
        ≡ false
      → (w' : World BmcMaps) × (hash_key h fuel payload_index offset w ≡ yields none w')
unfolding hash_key close_some
hash_key-endless h fuel payload_index offset w k entry small long fits enough some_key space found
      cached misses =
    let payload = drop payload_index w.packet in
    let (w', stuck) =
      hash_keys-endless h fuel payload_index payload offset (length w.packet) w small long fits
        (omega (arith, length-drop payload_index w.packet)) some_key space
        (record {
          size = refl;
          key = (k, found);
          entry = entry;
          found = cached;
          misses = misses;
        }) in
    (
      w',
      ap (λ r. close_some h (then_run r (λ rest. hash_keys h fuel payload_index rest 0 offset)))
            (from-fits payload_index w (omega arith))
          ∙ ap (close_some h) stuck,
    )
