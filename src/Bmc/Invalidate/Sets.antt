-- ===== src/Bmc/Invalidate/Sets.antt =====
-- samples/bmc/src/main.rs, `bmc_invalidate_cache`: every command is found and its entry invalidated.
use rex_with_driver.Base.{ℕ, ◌%◌, ◌≡◌, ◌<◌, arith, none, some, Bool, false, ◌==◌, get_elem?}
use rex_with_driver.Kernel.{Bytes}
use rex_with_driver.Bmc.{BmcMaps, BmcCacheEntry, BmcStats, count}
use rex_with_driver.Bmc.Invalidate.{set_hash}

-- The maps are loaded.
pub record Loaded (m : BmcMaps) : Type 0 where
  pub entries : (i : ℕ) → i < 3250000 → (entry : BmcCacheEntry) × (m.kcache i ≡ some entry)
  pub stats : (s : BmcStats) × (get_elem? m.stats 0 ≡ some s)

-- Whether an entry can be hit.
unfoldable pub valid_at : BmcMaps → ℕ → Bool
valid_at m i = elim (m.kcache i) [ none ↦ false | some entry ↦ entry.valid == 1 ]

-- A step that leaves the maps loaded and validates nothing.
record Stales (m m' : BmcMaps) : Type 0 where
  loaded : Loaded m'
  stays : (j : ℕ) → valid_at m j ≡ false → valid_at m' j ≡ false

abbrev index_of : Bytes → ℕ
index_of payload = set_hash payload % 3250000

pub count-kcache :
    (f : BmcStats → BmcStats) (m : BmcMaps) (j : ℕ) → (count f m).kcache j ≡ m.kcache j
count-kcache f m j = ground arith
