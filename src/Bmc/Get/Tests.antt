-- ===== src/Bmc/Get/Tests.antt =====
-- A cache with the value of the key `k` at every index, and a request for it.
use rex_with_driver.Base.{
  ℕ, ◌+◌, ◌-◌, ◌%◌, ◌^◌, ◌≡◌, refl, arith, [], ◌∷◌, ◌++◌, some, codes, replicate, drop, length,
  take, length-append, length-take, length-replicate,
}
use rex_with_driver.Kernel.{Bytes}
use rex_with_driver.Utils.{ok}
use rex_with_driver.Example.{host, linux_layout}
use rex_with_driver.Program.{World, Host, yields}
use rex_with_driver.Program.Updates.{Fitting}
use rex_with_driver.Bmc.{
  BmcMaps, BmcCacheEntry, BmcStats, MemcachedKey, hash_func, hash_bytes, take_until,
  fnv_offset_basis_32,
}
use rex_with_driver.Bmc.Reply.{end_bytes}
use rex_with_driver.Bmc.Reply.Answer.{Moves}
use rex_with_driver.Bmc.Get.{key_bytes, xdp_rx_filter}
use rex_with_driver.Bmc.Get.Request.{xdp_rx_filter-answers}
use rex_with_driver.Words.{of_be}

abbrev pub stats : BmcStats
stats = record {
  get_recv_count = 0;
  set_recv_count = 0;
  get_resp_count = 0;
  hit_misprediction = 0;
  hit_count = 0;
  miss_count = 0;
  update_count = 0;
  invalidation_count = 0;
  debug_count = 0;
}

abbrev pub value : Bytes
value = codes "VALUE k 0 1" ++ (13 ∷ 10 ∷ 65 ∷ 13 ∷ 10 ∷ [])

abbrev pub entry : BmcCacheEntry
entry = record {
  len = 16;
  valid = 1;
  hash = hash_func fnv_offset_basis_32 107;
  bytes = value ++ replicate 1484 0;
}

abbrev pub key : MemcachedKey
key = record { hash = 0; bytes = replicate 230 0; len = 0 }

abbrev pub maps : BmcMaps
maps = record { kcache = λ i. some entry; keys = key ∷ []; stats = stats ∷ [] }

-- The kernel fills a longer tail with zeros.
abbrev pub moved : Bytes → ℕ → Bytes
moved packet padding =
    let n = (length packet + padding) % 2 ^ 32 in take n packet ++ replicate (n - length packet) 0

abbrev pub growing : Host
growing = record host { adjust_tail = λ packet padding. some (moved packet padding) }

pub growing-Moves : (packet : Bytes) (padding : ℕ) → Moves growing packet padding
growing-Moves packet padding =
    let n = (length packet + padding) % 2 ^ 32 in
    record {
      moved = moved packet padding;
      succeeds = refl;
      size = omega (
        arith,
        length-append (take n packet) (replicate (n - length packet) 0),
        length-take n packet,
        length-replicate {A = ℕ} (n - length packet) 0,
      );
    }

pub linux_layout-Fitting : Fitting linux_layout
linux_layout-Fitting = record {
  eth_dest = omega arith;
  eth_source = omega arith;
  ip_tot_len = omega arith;
  ip_saddr = omega arith;
  ip_daddr = omega arith;
  udp_source = omega arith;
  udp_dest = omega arith;
  udp_len = omega arith;
  udp_check = omega arith;
}

-- A datagram of 61 bytes to port 11211 that asks for the key `k`.
abbrev request : World BmcMaps
request = record {
  packet =
      replicate 23 0
      ++ (17
          ∷ (replicate 12 0 ++ (43 ∷ 203 ∷ (replicate 12 0 ++ (codes "get k" ++ (13 ∷ 10 ∷ []))))));
  rest = maps;
}

xdp_rx_filter-answers_example :
    (w : World BmcMaps) × (xdp_rx_filter growing 1 request ≡ yields (some (ok 3)) w)
    × (drop 50 w.packet ≡ value ++ end_bytes)
unfolding hash_bytes hash_func key_bytes take_until of_be
xdp_rx_filter-answers_example =
    xdp_rx_filter-answers growing 0 (107 ∷ []) (10 ∷ []) value request linux_layout-Fitting refl
      (λ packet same. growing-Moves packet _) (omega arith) (omega arith)
      (record {
        protocol = refl;
        port = refl;
        headers = omega arith;
        payload = refl;
        plain = refl;
        some_key = omega arith;
        short = omega arith;
      })
      (record {
        scratch = key;
        kept = refl;
        stats = stats;
        counted = refl;
        entry = entry;
        found = refl;
        holds = record { valid = refl; hash = refl; len = refl; bytes = refl };
        more = drop 7 value;
        line = refl;
        room = omega arith;
        brief = omega arith;
      })
