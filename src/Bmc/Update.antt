-- ===== src/Bmc/Update.antt =====
-- samples/bmc/src/main.rs, `xdp_tx_filter` and `bmc_update_cache`: a reply of memcached fills the entry
-- of its key. `skb_len` is the length of the socket buffer, of which the packet is the linear part.
pub mod Copy
use rex_with_driver.Base.{
  ℕ, zero, suc, ◌+◌, ◌-◌, ◌%◌, ◌==◌, [], ◌∷◌, Option, none, some, Bool, true, false, not, ◌||◌,
  ◌&&◌, ltb, leb, if◌then◌else◌, length, take, drop, set, codes,
}
use rex_with_driver.Kernel.{Bytes}
use rex_with_driver.Utils.{Result, ok, err}
use rex_with_driver.Words.{of_be}
use rex_with_driver.Packet.{bytes_at, ip_header, udp_header}
use rex_with_driver.Program.{
  World, Prog, Host, yields, returns, panics, ret, body, guard, from, lookup, modify, header_of,
  starts_with, ◌>>=◌, ◌>>◌,
}
use rex_with_driver.Bmc.{
  BmcMaps, BmcCacheEntry, hash_func, find_entry, put_entry, count, increment, fnv_offset_basis_32,
  bmc_cache_entry_count, bmc_max_key_length, bmc_max_cache_data_size, memcached_port,
  memcached_udphdr,
}

-- The loop that hashes the key, from `off` on; `none` is an index out of range.
unfoldable pub hash_value_key : ℕ → ℕ → ℕ → ℕ → Bytes → Option ℕ
hash_value_key header_len skb_len off hash [] =
    if ltb off bmc_max_key_length && ltb (header_len + off) skb_len then none else some hash
hash_value_key header_len skb_len off hash (b ∷ bs) =
    let rest = hash_value_key header_len skb_len (off + 1) (hash_func hash b) bs in
    if ltb off bmc_max_key_length && ltb (header_len + off) skb_len && not (b == 32)
    then rest
    else some hash

-- The loop that compares the payload with the entry, from `off` on in both.
unfoldable pub differs : ℕ → ℕ → ℕ → Bytes → Bytes → Option Bool
differs header_len total off [] bytes = some false
differs header_len total off (p ∷ payload) [] =
    if ltb off bmc_max_key_length && ltb (header_len + off) total then none else some false
differs header_len total off (p ∷ payload) (d ∷ cached) =
    let rest = differs header_len total (off + 1) payload cached in
    if ltb off bmc_max_key_length
      && ltb (header_len + off) total
      && (not (p == 32) || not (d == 32))
    then if d == p then rest else some true
    else some false

-- The loop that copies, up to the second newline.
pub record Copied : Type 0 where
  pub bytes : Bytes
  pub len : ℕ
  pub newlines : ℕ

unfoldable pub copy_byte : ℕ → ℕ → Copied → Copied
copy_byte i b c = record {
  bytes = set c.bytes i b;
  len = c.len + 1;
  newlines = if b == 10 then c.newlines + 1 else c.newlines;
}

unfoldable pub copy_lines : ℕ → ℕ → ℕ → Bytes → Copied → Copied
copy_lines header_len skb_len i [] c = c
copy_lines header_len skb_len i (b ∷ bs) c =
    let rest = copy_lines header_len skb_len (i + 1) bs (copy_byte i b c) in
    if leb skb_len (header_len + i) || leb 2 c.newlines then c else rest

-- A computation that may be out of range.
unfoldable pub in_range : {A : Type 0} → Option A → Prog BmcMaps A
in_range none w = panics w
in_range (some a) w = yields a w

-- `?` on a result.
unfoldable pub of_result : Result → Prog BmcMaps (Unit {0})
of_result (ok value) w = yields tt w
of_result (err e) w = returns (err e) w

-- The entry after the copy.
unfoldable pub filled : ℕ → BmcCacheEntry → Copied → BmcCacheEntry
filled hash entry c =
    if c.newlines == 2
    then record { len = c.len; valid = 1; hash = hash; bytes = c.bytes }
    else record entry { len = c.len; bytes = c.bytes }

unfoldable pub up_to_date : ℕ → ℕ → BmcCacheEntry → Bytes → Prog BmcMaps Bool
up_to_date header_len hash entry payload =
    if entry.valid == 1 && entry.hash == hash
    then (do
      diff ← in_range (differs header_len (length payload) 6 (drop 6 payload) (drop 6 entry.bytes))
      ret (not diff))
    else ret false

unfoldable pub bmc_update_cache : Host → ℕ → ℕ → Bytes → Prog BmcMaps Result
bmc_update_cache h skb_len header_len payload = body do
  hash ← in_range (hash_value_key header_len skb_len 6 fnv_offset_basis_32 (drop 6 payload))
  let cache_idx = hash % bmc_cache_entry_count
  entry ← find_entry cache_idx h.tc_act_ok
  current ← up_to_date header_len hash entry payload
  guard current (ok h.tc_act_ok)
  let c =
      copy_lines header_len skb_len 0 (take bmc_max_cache_data_size payload)
        (record { bytes = entry.bytes; len = 0; newlines = 0 })
  modify (put_entry cache_idx (filled hash entry c))
  if c.newlines == 2
      then modify (count (λ s. record s { update_count = increment s.update_count }))
      else ret tt
  ret (ok h.tc_act_ok)

unfoldable pub tx_reply : Host → ℕ → ℕ → Prog BmcMaps Result
tx_reply h skb_len header_len = do
  stats ← lookup (λ m. m.stats) 0 0
  modify (count (λ s. record s { get_resp_count = increment s.get_resp_count }))
  payload ← from header_len
  done ← λ w. elim (bmc_update_cache h skb_len header_len payload w) [
    | yields r w' ↦ of_result r w'
    | returns r w' ↦ returns r w'
    | panics w' ↦ panics w'
  ]
  ret (ok h.tc_act_ok)

unfoldable pub xdp_tx_filter : Host → ℕ → Prog BmcMaps Result
xdp_tx_filter h skb_len = body do
  let l = h.layout
  let header_len = l.iphdr + l.ethhdr + l.udphdr + memcached_udphdr
  guard (leb skb_len header_len) (ok h.tc_act_ok)
  ip ← header_of (ip_header l h.aligned)
  guard (not (of_be (bytes_at ip l.ip_protocol 1) 0 == h.ipproto_udp)) (ok h.tc_act_ok)
  udp ← header_of (udp_header l h.aligned)
  guard (not (of_be (bytes_at udp l.udp_source 2) 0 == memcached_port)) (ok h.tc_act_ok)
  total ← λ w. ret (length w.packet) w
  guard (ltb total (header_len + 6)) (ok h.tc_act_ok)
  payload ← from header_len
  guard (not (starts_with payload (codes "VALUE "))) (ok h.tc_act_ok)
  tx_reply h skb_len header_len
