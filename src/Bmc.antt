-- ===== src/Bmc.antt =====
-- samples/bmc/src/main.rs: the constants, the structures, the maps and the hash of the memcached
-- cache. The locks of its entries are not part of the state: one program runs at a time here.
pub mod Reply
pub mod Get
pub mod Invalidate
pub mod Update
pub mod Tests
use rex_with_driver.Base.{
  ℕ, ◌+◌, ◌*◌, ◌%◌, ◌^◌, ◌==◌, List, [], ◌∷◌, Option, none, some, Bool, not, if◌then◌else◌, bit_xor,
  set,
}
use rex_with_driver.Kernel.{Bytes}
use rex_with_driver.Utils.{err}
use rex_with_driver.Program.{World, Prog, yields, returns, lookup, modify, ◌>>=◌}

abbrev pub bmc_max_packet_length : ℕ
bmc_max_packet_length = 1500

abbrev pub bmc_cache_entry_count : ℕ
bmc_cache_entry_count = 3250000

abbrev pub bmc_max_key_length : ℕ
bmc_max_key_length = 230

abbrev pub bmc_max_cache_data_size : ℕ
bmc_max_cache_data_size = bmc_max_key_length + 1000 + 53

abbrev pub fnv_offset_basis_32 : ℕ
fnv_offset_basis_32 = 2166136261

abbrev pub fnv_prime_32 : ℕ
fnv_prime_32 = 16777619

abbrev pub memcached_port : ℕ
memcached_port = 11211

-- The size of `memcached_udp_header`.
abbrev pub memcached_udphdr : ℕ
memcached_udphdr = 8

-- The field `bytes` is the `data` of the source.
pub record BmcCacheEntry : Type 0 where
  pub len : ℕ
  pub valid : ℕ
  pub hash : ℕ
  pub bytes : Bytes

pub record MemcachedKey : Type 0 where
  pub hash : ℕ
  pub bytes : Bytes
  pub len : ℕ

pub record BmcStats : Type 0 where
  pub get_recv_count : ℕ
  pub set_recv_count : ℕ
  pub get_resp_count : ℕ
  pub hit_misprediction : ℕ
  pub hit_count : ℕ
  pub miss_count : ℕ
  pub update_count : ℕ
  pub invalidation_count : ℕ
  pub debug_count : ℕ

-- The maps; `kcache` gives the entry of an index, `none` out of range or if it is not loaded.
pub record BmcMaps : Type 0 where
  pub kcache : ℕ → Option BmcCacheEntry
  pub keys : List MemcachedKey
  pub stats : List BmcStats

-- `hash_func!`
unfoldable pub hash_func : ℕ → ℕ → ℕ
hash_func hash value = bit_xor hash value * fnv_prime_32 % 2 ^ 32

unfoldable pub hash_bytes : ℕ → Bytes → ℕ
hash_bytes hash [] = hash
hash_bytes hash (b ∷ bs) = hash_bytes (hash_func hash b) bs

-- `take_while` up to the first byte that stops it.
unfoldable pub take_until : (ℕ → Bool) → Bytes → Bytes
take_until stops [] = []
take_until stops (b ∷ bs) = let rest = take_until stops bs in if stops b then [] else b ∷ rest

-- A u32 or u8 counter that is incremented.
abbrev pub increment : ℕ → ℕ
increment n = (n + 1) % 2 ^ 32

-- `bpf_map_lookup_elem(&map_kcache, &i).ok_or(missing)?`, and a write to the entry.
unfoldable pub find_entry : ℕ → ℕ → Prog BmcMaps BmcCacheEntry
find_entry i missing w = elim (w.rest.kcache i) [
  | none ↦ returns (err missing) w
  | some entry ↦ yields entry w
]

unfoldable pub put_entry : ℕ → BmcCacheEntry → BmcMaps → BmcMaps
put_entry i entry m = record m { kcache = λ j. if i == j then some entry else m.kcache j }

-- A write to the statistics of this CPU, and to a key.
abbrev pub count : (BmcStats → BmcStats) → BmcMaps → BmcMaps
count f m = elim m.stats [ [] ↦ m | s ∷ ss ↦ record m { stats = f s ∷ ss } ]

abbrev pub put_key : ℕ → MemcachedKey → BmcMaps → BmcMaps
put_key i key m = record m { keys = set m.keys i key }
