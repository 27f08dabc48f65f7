-- ===== src/Bmc/Reply/Answer.antt =====
-- samples/bmc/src/main.rs, `write_pkt_reply`: the whole of a hit.
use rex_with_driver.Base.{
  ℕ, ◌+◌, ◌-◌, ◌%◌, ◌^◌, ◌≡◌, ◌<◌, ◌≤◌, refl, ap, ◌∙◌, arith, ◌++◌, true, some, length, take, drop,
  length-take, drop-append_length, subst, get_elem?,
}
use rex_with_driver.Kernel.{Bytes}
use rex_with_driver.Text.Copy.{length-splice}
use rex_with_driver.Utils.{ok}
use rex_with_driver.Words.{to_be16, to_le, length-to_le}
use rex_with_driver.Packet.{bytes_at, udp_header}
use rex_with_driver.Program.{World, Host, yields, then_run, update}
use rex_with_driver.Program.Updates.{
  Fitting, length-bytes_at, length-store_checksum, update-ip_header, update-udp_header,
}
use rex_with_driver.Bmc.{
  BmcMaps, BmcCacheEntry, BmcStats, MemcachedKey, count, increment, find_entry,
}
use rex_with_driver.Bmc.Reply.{
  zip_equal, is_hit, padding_of, end_bytes, grown, grow_ip, grow_udp, grow_headers, send_value,
  write_pkt_reply,
}
use rex_with_driver.Bmc.Reply.Sent.{padding_of-fits, write_value-fills}

length-to_be16 : (v : ℕ) → length (to_be16 v) ≡ 2
unfolding to_be16
length-to_be16 v = refl

length-grow_ip :
    (h : Host) (padding : ℕ) (hdr : Bytes)
    → h.layout.ip_tot_len + 2 ≤ length hdr
    → length (grow_ip h padding hdr) ≡ length hdr
unfolding grow_ip
length-grow_ip h padding hdr fits =
    length-store_checksum h.layout.ip_check (grown h h.layout.ip_tot_len padding hdr)
    ∙ length-splice hdr h.layout.ip_tot_len _ (omega (arith, length-to_be16))

length-grow_udp :
    (h : Host) (padding : ℕ) (hdr : Bytes)
    → h.layout.udp_len + 2 ≤ length hdr
    → h.layout.udp_check + 2 ≤ length hdr
    → length (grow_udp h padding hdr) ≡ length hdr
unfolding grow_udp
length-grow_udp h padding hdr fits fits' =
    let same : length (grown h h.layout.udp_len padding hdr) ≡ length hdr =
      length-splice hdr h.layout.udp_len _ (omega (arith, length-to_be16)) in
    length-splice (grown h h.layout.udp_len padding hdr) h.layout.udp_check (to_le 2 0)
      (omega (arith, same, length-to_le 2 0))
    ∙ same

-- The kernel moves the tail of this packet.
pub record Moves (h : Host) (packet : Bytes) (padding : ℕ) : Type 0 where
  pub moved : Bytes
  pub succeeds : h.adjust_tail packet padding ≡ some moved
  pub size : length moved ≡ (length packet + padding) % 2 ^ 32

grow_headers-yields :
    (h : Host) (padding : ℕ) (w : World BmcMaps)
    → Fitting h.layout
    → h.layout.ethhdr + h.layout.iphdr + h.layout.udphdr ≤ length w.packet
    → (packet : Bytes) × (grow_headers h padding w ≡ yields tt (record w { packet = packet }))
      × (length packet ≡ length w.packet)
unfolding grow_headers
grow_headers-yields h padding w fitting fits =
    let l = h.layout in
    let ip = bytes_at w.packet l.ethhdr l.iphdr in
    let ip_size : length ip ≡ l.iphdr = length-bytes_at w.packet l.ethhdr l.iphdr (omega arith) in
    let (p1, first, same1) =
      update-ip_header l h.aligned (grow_ip h padding) w (omega arith)
        (length-grow_ip h padding ip (omega (arith, ip_size, fitting.ip_tot_len)) ∙ ip_size) in
    let udp = bytes_at p1 (l.ethhdr + l.iphdr) l.udphdr in
    let udp_size : length udp ≡ l.udphdr =
      length-bytes_at p1 (l.ethhdr + l.iphdr) l.udphdr (omega (arith, same1)) in
    let (p2, second, same2) =
      update-udp_header l h.aligned (grow_udp h padding) (record w { packet = p1 })
        (omega (arith, same1))
        (length-grow_udp h padding udp (omega (arith, udp_size, fitting.udp_len))
            (omega (arith, udp_size, fitting.udp_check))
          ∙ udp_size) in
    (
      p2,
      ap (λ r. then_run r (λ _. update (udp_header l h.aligned) (grow_udp h padding))) first
          ∙ second,
      same2 ∙ same1,
    )

drop-append_of_eq : (n : ℕ) (xs ys : Bytes) → length xs ≡ n → drop n (xs ++ ys) ≡ ys
drop-append_of_eq n xs ys e = subst (λ m. drop m (xs ++ ys) ≡ ys) e (drop-append_length xs ys)

-- The branch of a hit, where the kernel moves the tail.
send_value-yields :
    (h : Host) (payload_index : ℕ) (entry : BmcCacheEntry) (w : World BmcMaps) (s : BmcStats)
    → Fitting h.layout
    → h.layout.ethhdr + h.layout.iphdr + h.layout.udphdr + 4 ≤ payload_index
    → payload_index ≤ length w.packet
    → length w.packet < 2 ^ 31
    → entry.len < 2 ^ 30
    → entry.len ≤ length entry.bytes
    → get_elem? w.rest.stats 0 ≡ some s
    → Moves h w.packet (padding_of entry.len (length w.packet) payload_index)
    → (w' : World BmcMaps) × (send_value h payload_index entry w ≡ yields tt w')
      × (drop (payload_index - 4) w'.packet ≡ take entry.len entry.bytes ++ end_bytes)
unfolding send_value
send_value-yields h payload_index entry w s fitting headers inside small short stored counted m =
    let padding = padding_of entry.len (length w.packet) payload_index in
    let hits = count (λ t. record t { hit_count = increment t.hit_count }) w.rest in
    let fits =
      padding_of-fits entry.len (length w.packet) payload_index (omega arith) inside small short in
    let w1 : World BmcMaps = record { packet = m.moved; rest = hits } in
    let (p2, grows, same) =
      grow_headers-yields h padding w1 fitting (omega (arith, m.size, fits)) in
    let w2 = record w1 { packet = p2 } in
    let written =
      write_value-fills (length w.packet) payload_index entry w2 (omega arith) inside small short
        stored (same ∙ m.size) in
    let front = take (payload_index - 4) p2 in
    let value = take entry.len entry.bytes ++ end_bytes in
    (
      record w2 { packet = front ++ value },
      ground (arith, counted, m.succeeds, grows, written),
      drop-append_of_eq (payload_index - 4) front value
          (omega (arith, length-take (payload_index - 4) p2, same, m.size, fits)),
    )

-- The key of the map is that of a valid entry, and the kernel moves the tail.
pub record Answered (key : MemcachedKey) (entry : BmcCacheEntry) (w : World BmcMaps) : Type 0 where
  pub key_found : get_elem? w.rest.keys 0 ≡ some key
  pub found : w.rest.kcache (key.hash % 3250000) ≡ some entry
  pub valid : entry.valid ≡ 1
  pub hash : entry.hash ≡ key.hash
  pub short : key.len < 230
  pub room : 6 + key.len ≤ length entry.bytes
  pub same : zip_equal key.bytes (take key.len (drop 6 entry.bytes)) ≡ true

is_hit-true :
    (key : MemcachedKey) (entry : BmcCacheEntry) (w : World BmcMaps)
    → Answered key entry w
    → is_hit key entry w ≡ yields true w
unfolding is_hit
is_hit-true key entry w a =
    let size : 6 + key.len - 6 ≡ key.len = omega arith in
    let same : zip_equal key.bytes (take (6 + key.len - 6) (drop 6 entry.bytes)) ≡ true =
      ap (λ n. zip_equal key.bytes (take n (drop 6 entry.bytes))) size ∙ a.same in
    ground (arith, a.valid, a.hash, a.short, a.room, same)

pub write_pkt_reply-answers :
    (h : Host) (payload_index : ℕ) (key : MemcachedKey) (entry : BmcCacheEntry) (w : World BmcMaps)
    (s : BmcStats)
    → Fitting h.layout
    → h.layout.ethhdr + h.layout.iphdr + h.layout.udphdr + 4 ≤ payload_index
    → payload_index ≤ length w.packet
    → length w.packet < 2 ^ 31
    → entry.len < 2 ^ 30
    → entry.len ≤ length entry.bytes
    → get_elem? w.rest.stats 0 ≡ some s
    → Moves h w.packet (padding_of entry.len (length w.packet) payload_index)
    → Answered key entry w
    → (w' : World BmcMaps) × (write_pkt_reply h payload_index 0 w ≡ yields (ok h.xdp_tx) w')
      × (drop (payload_index - 4) w'.packet ≡ take entry.len entry.bytes ++ end_bytes)
unfolding write_pkt_reply find_entry
write_pkt_reply-answers h payload_index key entry w s fitting headers inside small short stored
      counted m a =
    let (w', sends, reply) =
      send_value-yields h payload_index entry w s fitting headers inside small short stored counted
        m in
    (w', ground (arith, a.key_found, a.found, is_hit-true key entry w a, sends), reply)
