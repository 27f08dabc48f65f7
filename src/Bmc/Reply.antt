-- ===== src/Bmc/Reply.antt =====
-- samples/bmc/src/main.rs, `write_pkt_reply`: the reply from the cache.
pub mod Sent
pub mod Answer
use rex_with_driver.Base.{
  ℕ, ◌+◌, ◌-◌, ◌%◌, ◌^◌, ◌==◌, [], ◌∷◌, ◌++◌, none, some, Bool, true, false, ◌&&◌, leb, not,
  if◌then◌else◌, length, codes,
}
use rex_with_driver.Kernel.{Bytes, sub64}
use rex_with_driver.Text.{splice}
use rex_with_driver.Utils.{Result, ok, err}
use rex_with_driver.Words.{to_le, to_be16, of_be}
use rex_with_driver.Checksum.{store_checksum}
use rex_with_driver.Packet.{bytes_at, ip_header, udp_header}
use rex_with_driver.Program.{
  Prog, Host, ret, exit, body, slice, from, write, lookup, modify, update, adjust_tail, ◌>>=◌, ◌>>◌,
}
use rex_with_driver.Bmc.{
  BmcMaps, BmcCacheEntry, MemcachedKey, find_entry, count, increment, bmc_cache_entry_count,
  bmc_max_key_length,
}

-- `zip` and `all`.
unfoldable pub zip_equal : Bytes → Bytes → Bool
zip_equal [] ys = true
zip_equal (x ∷ xs) [] = true
zip_equal (x ∷ xs) (y ∷ ys) = x == y && zip_equal xs ys

-- Whether the entry is that of the key.
unfoldable pub is_hit : MemcachedKey → BmcCacheEntry → Prog BmcMaps Bool
is_hit key entry =
    if entry.valid == 1 && entry.hash == key.hash && not_too_long
    then (do
      entry_data_key ← slice entry.bytes 6 (6 + key.len)
      if zip_equal key.bytes entry_data_key then ret true else (do
        modify (count (λ s. record s { hit_misprediction = increment s.hit_misprediction }))
        ret false))
    else ret false
  where
    not_too_long : Bool
    not_too_long = not (leb bmc_max_key_length key.len)

-- `padding`, an i32: how much longer the packet becomes.
unfoldable pub padding_of : ℕ → ℕ → ℕ → ℕ
padding_of len total payload_index =
    (len + 2 ^ 32 - sub64 total payload_index % 2 ^ 32 + 1) % 2 ^ 32

-- The loop over the bytes of the end.
unfoldable pub write_end : ℕ → Bytes → Prog BmcMaps (Unit {0})
write_end a [] = ret tt
write_end a (b ∷ bs) = do write a (b ∷ []); write_end (a + 1) bs

abbrev pub end_bytes : Bytes
end_bytes = codes "END" ++ (13 ∷ 10 ∷ [])

-- The value and the end, at `a`.
unfoldable pub write_value : ℕ → BmcCacheEntry → Prog BmcMaps (Unit {0})
write_value a entry = do
  payload ← from a
  value ← slice entry.bytes 0 entry.len
  write a value
  write_end (a + entry.len) end_bytes

module _ (h : Host) where
  open h use {layout as l}

  -- A length field of a header after the packet has grown.
  abbrev pub grown : ℕ → ℕ → Bytes → Bytes
  grown field padding hdr =
      splice hdr field (to_be16 ((of_be (bytes_at hdr field 2) 0 + padding % 2 ^ 16) % 2 ^ 16))

  unfoldable pub grow_ip : ℕ → Bytes → Bytes
  grow_ip padding hdr = store_checksum l.ip_check (grown l.ip_tot_len padding hdr)

  unfoldable pub grow_udp : ℕ → Bytes → Bytes
  grow_udp padding hdr = splice (grown l.udp_len padding hdr) l.udp_check (to_le 2 0)

  -- A failure to move the tail.
  unfoldable pub tail_failed : Prog BmcMaps (Unit {0})
  tail_failed = elim h.printk [ none ↦ exit (ok h.xdp_drop) | some e ↦ exit (err e) ]

  -- The lengths in the headers.
  unfoldable pub grow_headers : ℕ → Prog BmcMaps (Unit {0})
  grow_headers padding = do
    update (ip_header l h.aligned) (grow_ip padding)
    update (udp_header l h.aligned) (grow_udp padding)

  -- The branch of a hit.
  unfoldable pub send_value : ℕ → BmcCacheEntry → Prog BmcMaps (Unit {0})
  send_value payload_index entry = do
    stats ← lookup (λ m. m.stats) 0 0
    modify (count (λ s. record s { hit_count = increment s.hit_count }))
    total ← λ w. ret (length w.packet) w
    let padding = padding_of entry.len total payload_index
    moved ← adjust_tail h padding
    if moved then ret tt else tail_failed
    grow_headers padding
    write_value (sub64 payload_index 4) entry

  unfoldable pub write_pkt_reply : ℕ → ℕ → Prog BmcMaps Result
  write_pkt_reply payload_index current_key = body do
    key ← lookup (λ m. m.keys) current_key h.xdp_pass
    entry ← find_entry (key.hash % bmc_cache_entry_count) h.xdp_drop
    cache_hit ← is_hit key entry
    if cache_hit
        then send_value payload_index entry
        else modify (count (λ s. record s { miss_count = increment s.miss_count }))
    ret (ok h.xdp_tx)
