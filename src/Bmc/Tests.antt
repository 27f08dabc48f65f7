-- ===== src/Bmc/Tests.antt =====
-- A cache of one entry at every index, and a request of two keys.
use rex_with_driver.Base.{
  ℕ, ◌+◌, ◌%◌, ◌≡◌, refl, arith, [], ◌∷◌, ◌++◌, some, none, codes, replicate,
}
use rex_with_driver.Kernel.{Bytes}
use rex_with_driver.Utils.{ok}
use rex_with_driver.Example.{host}
use rex_with_driver.Program.{World, yields}
use rex_with_driver.Bmc.{
  BmcMaps, BmcCacheEntry, MemcachedKey, BmcStats, hash_func, take_until, fnv_offset_basis_32,
}
use rex_with_driver.Bmc.Get.{key_bytes, hash_key}
use rex_with_driver.Bmc.Get.Keys.{hash_key-endless}
use rex_with_driver.Bmc.Update.{bmc_update_cache, hash_value_key}
use rex_with_driver.Bmc.Update.Copy.{Holds, lines, newlines_in, bmc_update_cache-Holds}

abbrev stats : BmcStats
stats = record {
  get_recv_count = 0;
  set_recv_count = 0;
  get_resp_count = 0;
  hit_misprediction = 0;
  hit_count = 0;
  miss_count = 0;
  update_count = 0;
  invalidation_count = 0;
  debug_count = 0;
}

abbrev entry : BmcCacheEntry
entry = record { len = 3; valid = 0; hash = 0; bytes = replicate 1500 65 }

abbrev key : MemcachedKey
key = record { hash = 0; bytes = replicate 230 0; len = 0 }

abbrev maps : BmcMaps
maps = record { kcache = λ i. some entry; keys = key ∷ []; stats = stats ∷ [] }

abbrev with_packet : Bytes → World BmcMaps
with_packet packet = record { packet = packet; rest = maps }

abbrev set_command : Bytes
set_command = 65 ∷ codes "set k 0"

-- Two keys in a packet of 500 bytes.
abbrev two_keys : World BmcMaps
two_keys = with_packet (replicate 54 0 ++ (codes "a b" ++ replicate 443 65))

hash_key-endless_example : (w : World BmcMaps) × (hash_key host 1000 54 54 two_keys ≡ yields none w)
unfolding key_bytes take_until
hash_key-endless_example =
    hash_key-endless host 1000 54 54 two_keys key entry (omega arith) (omega arith) (omega arith)
      (omega arith) (omega arith) refl refl refl refl

abbrev value : Bytes
value = codes "VALUE k 0 1" ++ (13 ∷ 10 ∷ 65 ∷ 13 ∷ 10 ∷ [])

abbrev key_hash : ℕ
key_hash = hash_func fnv_offset_basis_32 107

bmc_update_cache-Holds_example :
    (w : World BmcMaps) × (entry' : BmcCacheEntry) × (bmc_update_cache host
        (50 + 16)
        50
        value
        (with_packet [])
      ≡ yields (ok 0) w)
    × (w.rest.kcache (key_hash % 3250000) ≡ some entry')
    × Holds key_hash (lines 2 value) entry'
unfolding hash_value_key hash_func lines newlines_in
bmc_update_cache-Holds_example =
    bmc_update_cache-Holds host 50 key_hash value entry (with_packet []) refl refl refl
      (omega arith) (omega arith) refl
