-- ===== src/Bmc/Get/Request.antt =====
-- samples/bmc/src/main.rs, `xdp_rx_filter`: a `get` of one key over UDP, from the packet's headers on.
use rex_with_driver.Base.{
  ℕ, zero, suc, ◌+◌, ◌%◌, ◌^◌, ◌≡◌, ◌<◌, ◌≤◌, refl, ap, ap₂, ◌∙◌, arith, [], ◌∷◌, ◌++◌, true, false,
  some, List, ◌==◌, length, drop, length-drop, get_elem?, codes,
}
use rex_with_driver.Kernel.{Bytes}
use rex_with_driver.Utils.{ok}
use rex_with_driver.Words.{of_be}
use rex_with_driver.Packet.{bytes_at}
use rex_with_driver.Program.{World, Host, yields, starts_with}
use rex_with_driver.Program.Updates.{Fitting}
use rex_with_driver.Program.Headers.{header_of-ip_header, header_of-udp_header}
use rex_with_driver.Bmc.{
  BmcMaps, BmcCacheEntry, BmcStats, MemcachedKey, hash_bytes, take_until, count, increment,
  fnv_offset_basis_32,
}
use rex_with_driver.Bmc.Invalidate.Sets.{count-kcache}
use rex_with_driver.Bmc.Reply.{padding_of, end_bytes}
use rex_with_driver.Bmc.Reply.Answer.{Moves}
use rex_with_driver.Bmc.Update.Copy.{Holds}
use rex_with_driver.Bmc.Get.{
  key_bytes, hash_key, skip_spaces, receive_get, xdp_rx_filter, close_some,
}
use rex_with_driver.Bmc.Get.Keys.{from-fits, count-keys}
use rex_with_driver.Bmc.Get.Hit.{hash_key-answers}

-- The packet is a datagram to memcached that asks for a key.
pub record Asks (h : Host) (key rest packet : Bytes) : Type 0 where
  pub protocol :
      of_be (bytes_at (bytes_at packet h.layout.ethhdr h.layout.iphdr) h.layout.ip_protocol 1) 0
      ≡ h.ipproto_udp
  pub port :
      of_be
        (bytes_at
          (bytes_at packet (h.layout.ethhdr + h.layout.iphdr) h.layout.udphdr)
          h.layout.udp_dest
          2)
        0
      ≡ 11211
  pub headers : h.layout.ethhdr + h.layout.iphdr + h.layout.udphdr + 8 ≤ length packet
  pub payload :
      drop (h.layout.ethhdr + h.layout.iphdr + h.layout.udphdr + 8) packet
      ≡ codes "get " ++ (key ++ (13 ∷ rest))
  pub plain : key_bytes key ≡ key
  pub some_key : 0 < length key
  pub short : length key < 230

-- The maps are those of the program's start, and the entry of the key's hash holds its value.
pub record Cached (key value : Bytes) (m : BmcMaps) : Type 0 where
  pub scratch : MemcachedKey
  pub kept : get_elem? m.keys 0 ≡ some scratch
  pub stats : BmcStats
  pub counted : get_elem? m.stats 0 ≡ some stats
  pub entry : BmcCacheEntry
  pub found : m.kcache (hash_bytes fnv_offset_basis_32 key % 3250000) ≡ some entry
  pub holds : Holds (hash_bytes fnv_offset_basis_32 key) value entry
  pub more : Bytes
  pub line : value ≡ codes "VALUE " ++ (key ++ more)
  pub room : length value ≤ length entry.bytes
  pub brief : length value < 2 ^ 30

pub drop-drop : (a b : ℕ) (bs : Bytes) → drop (a + b) bs ≡ drop b (drop a bs)
drop-drop zero b bs = ap (λ n. drop n bs) (omega arith)
drop-drop (suc a) zero [] = ap (λ n. drop n []) {y = suc a} (omega arith)
drop-drop (suc a) (suc b) [] = ap (λ n. drop n []) {y = suc (a + suc b)} (omega arith)
drop-drop (suc a) b (x ∷ bs) =
    ap (λ n. drop n (x ∷ bs)) {y = suc (a + b)} (omega arith) ∙ drop-drop a b bs

get_command :
    (key rest : Bytes) → starts_with (codes "get " ++ (key ++ (13 ∷ rest))) (codes "get ") ≡ true
unfolding starts_with
get_command key rest = refl

-- A key's first byte is no space.
skip_spaces-key :
    (h : Host) (off : ℕ) (key rest : Bytes)
    → key_bytes key ≡ key
    → 0 < length key
    → skip_spaces h off (key ++ (13 ∷ rest)) ≡ off
unfolding skip_spaces key_bytes take_until
skip_spaces-key h off [] rest plain some_key = absurd (omega arith)
skip_spaces-key h off (b ∷ key) rest plain some_key = ground arith

count-Cached :
    (key value : Bytes) (f : BmcStats → BmcStats) (m : BmcMaps)
    → Cached key value m
    → Cached key value (count f m)
count-Cached key value f m c = record {
  scratch = c.scratch;
  kept = count-keys f m ∙ c.kept;
  stats = f c.stats;
  counted = count-stats m.stats c.counted;
  entry = c.entry;
  found = count-kcache f m (hash_bytes fnv_offset_basis_32 key % 3250000) ∙ c.found;
  holds = c.holds;
  more = c.more;
  line = c.line;
  room = c.room;
  brief = c.brief;
}
  where
    count-stats :
        (ss : List BmcStats)
        → get_elem? ss 0 ≡ some c.stats
        → get_elem? (count f (record m { stats = ss })).stats 0 ≡ some (f c.stats)
    count-stats [] e = absurd (cc)
    count-stats (s ∷ ss) e = ground (arith, e)

module _ (h : Host) (fuel : ℕ) (key rest value : Bytes) (w : World BmcMaps) where
  open h use {layout as l}

  -- The key lies behind `get `.
  receive_get-answers :
      Fitting l
      → ((packet : Bytes)
          → length packet ≡ length w.packet
          → Moves h packet
              (padding_of (length value) (length w.packet) (l.ethhdr + l.iphdr + l.udphdr + 12)))
      → l.ethhdr + l.iphdr + l.udphdr + 12 < 256
      → length w.packet < 2 ^ 31
      → Asks h key rest w.packet
      → Cached key value w.rest
      → (w' : World BmcMaps) × (receive_get h (suc fuel) w ≡ yields (some (ok h.xdp_tx)) w')
        × (drop (l.ethhdr + l.iphdr + l.udphdr + 8) w'.packet ≡ value ++ end_bytes)
  unfolding receive_get
  receive_get-answers fitting moves low small asks cached =
      let header_len = l.ethhdr + l.iphdr + l.udphdr + 8 in
      let off = l.ethhdr + l.iphdr + l.udphdr + 12 in
      let got = λ (s : BmcStats). record s { get_recv_count = increment s.get_recv_count } in
      let w1 = record w { rest = count got w.rest } in
      let c = count-Cached key value got w.rest cached in
      let request : drop off w.packet ≡ key ++ (13 ∷ rest) =
        ap (λ n. drop n w.packet) {y = header_len + 4} (omega arith)
        ∙ drop-drop header_len 4 w.packet
        ∙ ap (drop 4) asks.payload in
      let size = ap length asks.payload in
      let inside : header_len + 4 ≤ length w.packet =
        omega (arith, size, length-drop header_len w.packet) in
      let (w', answers, reply) =
        hash_key-answers h fuel off key rest c.more value c.scratch c.entry c.stats w1 fitting moves
          (omega arith) low small (omega (arith, inside)) request asks.plain asks.some_key
          asks.short c.kept c.counted c.found c.holds c.line c.room c.brief in
      let payload = drop header_len w.packet in
      let skipped : skip_spaces h 4 (drop 4 payload) ≡ 4 =
        ap (λ bs. skip_spaces h 4 (drop 4 bs)) asks.payload
        ∙ skip_spaces-key h 4 key rest asks.plain asks.some_key in
      let at_key : skip_spaces h 4 (drop 4 payload) + header_len ≡ off = omega (arith, skipped) in
      let at_key' : (skip_spaces h 4 (drop 4 payload) + header_len) % 2 ^ 8 ≡ off =
        omega (arith, skipped) in
      let hashed = ap₂ (λ a b. hash_key h (suc fuel) a b w1) at_key at_key' ∙ answers in
      (
        w',
        ground (
          arith,
          header_of-udp_header l h.aligned w (omega (arith, inside)),
          from-fits header_len w (omega (arith, inside)),
          asks.port,
          length-drop header_len w.packet,
          inside,
          ap (λ bs. starts_with bs (codes "get ")) asks.payload ∙ get_command key rest,
          cached.counted,
          hashed,
        ),
        ap (λ n. drop n w'.packet) {x = header_len} (omega arith) ∙ reply,
      )

  -- A `get` of one key over UDP to memcached's port is answered from the cache: where the key has 1 to
  -- 229 bytes with neither a space nor a return and is followed by a return, the entry of its hash
  -- holds a value that begins with `VALUE ` and the key, the headers take fewer than 244 bytes, and the
  -- kernel moves the tail of a packet of this length as its documentation says, the program ends with
  -- XDP_TX after one pass, and behind its headers the packet is the value and `END`.
  pub xdp_rx_filter-answers :
      Fitting l
      → (h.ipproto_udp == h.ipproto_tcp) ≡ false
      → ((packet : Bytes)
          → length packet ≡ length w.packet
          → Moves h packet
              (padding_of (length value) (length w.packet) (l.ethhdr + l.iphdr + l.udphdr + 12)))
      → l.ethhdr + l.iphdr + l.udphdr + 12 < 256
      → length w.packet < 2 ^ 31
      → Asks h key rest w.packet
      → Cached key value w.rest
      → (w' : World BmcMaps) × (xdp_rx_filter h (suc fuel) w ≡ yields (some (ok h.xdp_tx)) w')
        × (drop (l.ethhdr + l.iphdr + l.udphdr + 8) w'.packet ≡ value ++ end_bytes)
  unfolding xdp_rx_filter close_some
  xdp_rx_filter-answers fitting other moves low small asks cached =
      let (w', answers, reply) = receive_get-answers fitting moves low small asks cached in
      let fits = asks.headers in
      (
        w',
        ground
            (arith, header_of-ip_header l h.aligned w (omega arith), asks.protocol, other, answers),
        reply,
      )
