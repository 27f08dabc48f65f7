-- ===== src/Bmc/Get.antt =====
-- samples/bmc/src/main.rs, `xdp_rx_filter` and `hash_key`: a `get` over UDP. The parsing context is the
-- loop's state: `key_count` and `read_pkt_offset`; `current_key` stays 0.
pub mod Keys
pub mod Served
pub mod Hit
pub mod Request
pub mod Tests
use rex_with_driver.Base.{
  ℕ, zero, suc, ◌+◌, ◌-◌, ◌%◌, ◌^◌, ◌==◌, [], ◌∷◌, Option, none, some, Bool, not, ◌||◌, ◌&&◌, ltb,
  leb, if◌then◌else◌, length, drop, min, codes,
}
use rex_with_driver.Kernel.{Bytes, sub64}
use rex_with_driver.Text.{splice}
use rex_with_driver.Utils.{Result, ok}
use rex_with_driver.Words.{of_be}
use rex_with_driver.Packet.{bytes_at, eth_header, ip_header, udp_header}
use rex_with_driver.Program.{
  Ran, yields, returns, panics, Prog, Host, ret, exit, body, guard, slice, at, from, lookup, modify,
  update, header_of, starts_with, ◌>>=◌, ◌>>◌,
}
use rex_with_driver.Bmc.{
  BmcMaps, BmcCacheEntry, MemcachedKey, hash_bytes, take_until, find_entry, put_key, count,
  increment, fnv_offset_basis_32, bmc_cache_entry_count, bmc_max_key_length, bmc_max_packet_length,
  memcached_port, memcached_udphdr,
}
use rex_with_driver.Bmc.Reply.{write_pkt_reply}
use rex_with_driver.Bmc.Invalidate.{bmc_invalidate_cache}

-- Two fields of a header change places.
abbrev pub swap_field : ℕ → ℕ → ℕ → Bytes → Bytes
swap_field a b size hdr = splice (splice hdr a (bytes_at hdr b size)) b (bytes_at hdr a size)

-- The bytes of the key that begins here.
unfoldable pub key_bytes : Bytes → Bytes
key_bytes = take_until (λ b. b == 13 || b == 32)

-- The hash of the key is kept in the map; on a potential hit the key is, too.
unfoldable pub with_key : Bytes → MemcachedKey → MemcachedKey
with_key bytes key = record key { bytes = splice key.bytes 0 bytes; len = length bytes }

-- `read_pkt_offset += key_len as u8 + 1`
abbrev pub next_offset : ℕ → ℕ → ℕ
next_offset offset key_len = (offset + (key_len % 2 ^ 8 + 1) % 2 ^ 8) % 2 ^ 8

module _ (h : Host) where
  open h use {layout as l}

  -- The headers of a reply.
  unfoldable pub turn_round : Prog BmcMaps (Unit {0})
  turn_round = do
    update (eth_header l h.aligned) (swap_field l.eth_dest l.eth_source 6)
    update (ip_header l h.aligned) (swap_field l.ip_saddr l.ip_daddr 4)
    update (udp_header l h.aligned) (swap_field l.udp_source l.udp_dest 2)

  -- The part of a pass on the bytes that it looks at: whether the key was the last, the number of hits
  -- then, and the length of the key.
  unfoldable pub check_key : ℕ → MemcachedKey → Bytes → Prog BmcMaps (Bool × (ℕ × ℕ))
  check_key key_count key part = do
    let bytes = key_bytes part
    let hash = hash_bytes fnv_offset_basis_32 bytes
    modify (put_key key_count (record key { hash = hash }))
    stop ← at part (length bytes)
    guard (length bytes == 0 || ltb bmc_max_key_length (length bytes)) (ok h.xdp_pass)
    entry ← find_entry (hash % bmc_cache_entry_count) 0
    if entry.valid == 1 && entry.hash == hash
        then (do
          modify (put_key key_count (with_key bytes (record key { hash = hash })))
          ret (stop == 13, (increment key_count, length bytes)))
        else (do
          modify (count (λ s. record s { miss_count = increment s.miss_count }))
          ret (stop == 13, (key_count, length bytes)))

  unfoldable pub key_at : Bytes → ℕ → ℕ → MemcachedKey → Prog BmcMaps (Bool × (ℕ × ℕ))
  key_at payload key_count offset key = do
    modify (put_key key_count (record key { hash = fnv_offset_basis_32 }))
    total ← λ w. ret (length w.packet) w
    part ← slice payload 0 (min (bmc_max_key_length + 1) (sub64 total offset))
    check_key key_count key part

  unfoldable pub one_key : Bytes → ℕ → ℕ → Prog BmcMaps (Bool × (ℕ × ℕ))
  one_key payload key_count offset = do
    key ← lookup (λ m. m.keys) key_count 0
    key_at payload key_count offset key

  -- The loop, of `fuel` passes; `none` if they are not enough.
  unfoldable pub hash_keys : ℕ → ℕ → Bytes → ℕ → ℕ → Prog BmcMaps (Option Result)
  hash_keys zero payload_index payload key_count offset = ret none
  hash_keys (suc fuel) payload_index payload key_count offset = do
    (done_parsing, (hits, key_len)) ← one_key payload key_count offset
    if done_parsing
        then (if ltb 0 hits
            then (do turn_round; r ← write_pkt_reply h payload_index 0; ret (some r))
            else ret (some (ok h.xdp_pass)))
        else hash_keys fuel payload_index payload hits (next_offset offset key_len)

  -- The end of a function whose loop may need more fuel.
  unfoldable pub close_some : Ran BmcMaps (Option Result) → Ran BmcMaps (Option Result)
  close_some (yields r w) = yields r w
  close_some (returns r w) = yields (some r) w
  close_some (panics w) = panics w

  unfoldable pub hash_key : ℕ → ℕ → ℕ → Prog BmcMaps (Option Result)
  hash_key fuel payload_index offset w =
      close_some
        ((do payload ← from payload_index; hash_keys fuel payload_index payload 0 offset) w)

  -- The loop over the spaces before the first key, from `off` on, at `payload[off..]`.
  unfoldable pub skip_spaces : ℕ → Bytes → ℕ
  skip_spaces off [] = off
  skip_spaces off (b ∷ bs) =
      let rest = skip_spaces (off + 1) bs in
      if ltb off bmc_max_packet_length && ltb 0 (length bs) && b == 32 then rest else off

  -- The branch of UDP.
  unfoldable pub receive_get : ℕ → Prog BmcMaps (Option Result)
  receive_get fuel = do
    let header_len = l.ethhdr + l.iphdr + l.udphdr + memcached_udphdr
    udp ← header_of (udp_header l h.aligned)
    payload ← from header_len
    guard (not (of_be (bytes_at udp l.udp_dest 2) 0 == memcached_port) || ltb (length payload) 4)
        (ok h.xdp_pass)
    guard (not (starts_with payload (codes "get "))) (ok h.xdp_pass)
    stats ← lookup (λ m. m.stats) 0 h.xdp_pass
    modify (count (λ s. record s { get_recv_count = increment s.get_recv_count }))
    let off = skip_spaces 4 (drop 4 payload) + header_len
    hash_key fuel off (off % 2 ^ 8)

  unfoldable pub xdp_rx_filter : ℕ → Prog BmcMaps (Option Result)
  xdp_rx_filter fuel w = close_some (
      (do
        ip ← header_of (ip_header l h.aligned)
        let protocol = of_be (bytes_at ip l.ip_protocol 1) 0
        if protocol == h.ipproto_tcp
            then (do r ← bmc_invalidate_cache h; ret (some r))
            else if protocol == h.ipproto_udp
            then receive_get fuel
            else ret (some (ok h.xdp_pass)))
        w)
