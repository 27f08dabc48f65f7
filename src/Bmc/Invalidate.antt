-- ===== src/Bmc/Invalidate.antt =====
-- samples/bmc/src/main.rs, `bmc_invalidate_cache`: a `set` over TCP invalidates the entry of its key.
pub mod Sets
use rex_with_driver.Base.{
  ℕ, ◌+◌, ◌%◌, ◌==◌, [], ◌∷◌, Bool, not, ◌||◌, ltb, if◌then◌else◌, length, drop, codes,
}
use rex_with_driver.Kernel.{Bytes}
use rex_with_driver.Utils.{Result, ok}
use rex_with_driver.Words.{of_be}
use rex_with_driver.Packet.{bytes_at, tcp_header}
use rex_with_driver.Program.{
  Prog, Host, ret, body, guard, from, lookup, modify, header_of, starts_with, ◌>>=◌, ◌>>◌,
}
use rex_with_driver.Bmc.{
  BmcMaps, BmcCacheEntry, hash_bytes, take_until, find_entry, put_entry, count, increment,
  fnv_offset_basis_32, bmc_cache_entry_count, memcached_port,
}

-- The hash of the key of a `set`, which begins the bytes.
unfoldable pub set_hash : Bytes → ℕ
set_hash payload = hash_bytes fnv_offset_basis_32 (take_until (λ c. c == 32) (drop 4 payload))

-- The body of the loop over the commands, at one of them.
unfoldable pub invalidate : Bytes → Prog BmcMaps (Unit {0})
invalidate payload = do
  stats ← lookup (λ m. m.stats) 0 0
  modify (count (λ s. record s { set_recv_count = increment s.set_recv_count }))
  let cache_idx = set_hash payload % bmc_cache_entry_count
  entry ← find_entry cache_idx 0
  if entry.valid == 1
      then (do
        modify (count (λ s. record s { invalidation_count = increment s.invalidation_count }))
        modify (put_entry cache_idx (record entry { valid = 0 })))
      else ret tt

-- The windows of four bytes, in their order.
unfoldable pub invalidate_sets : Bytes → Prog BmcMaps (Unit {0})
invalidate_sets [] = ret tt
invalidate_sets (b ∷ bs) = do
  if starts_with (b ∷ bs) (codes "set ") then invalidate (b ∷ bs) else ret tt
  invalidate_sets bs

unfoldable pub bmc_invalidate_cache : Host → Prog BmcMaps Result
bmc_invalidate_cache h = body do
  let l = h.layout
  tcp ← header_of (tcp_header l h.aligned)
  payload ← from (l.ethhdr + l.iphdr + l.tcphdr)
  guard (not (of_be (bytes_at tcp l.tcp_dest 2) 0 == memcached_port) || ltb (length payload) 4)
      (ok h.xdp_pass)
  invalidate_sets payload
  ret (ok h.xdp_pass)
