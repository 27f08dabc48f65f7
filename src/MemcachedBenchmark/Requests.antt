-- ===== src/MemcachedBenchmark/Requests.antt =====
-- tools/memcached_benchmark/src/get_values.rs, `wrap_get_command`, and samples/bmc/src/main.rs: the
-- cache answers the benchmark's requests.
use rex_with_driver.Base.{
  ℕ, suc, ◌+◌, ◌^◌, ◌==◌, ◌≡◌, ◌<◌, refl, ap, ◌∙◌, arith, [], ◌∷◌, ◌++◌, some, false, length, drop,
  length-append, length-drop, codes, append_assoc,
}
use rex_with_driver.Kernel.{Bytes}
use rex_with_driver.Utils.{ok}
use rex_with_driver.Words.{of_be, to_be16}
use rex_with_driver.Packet.{bytes_at}
use rex_with_driver.Program.{World, Host, yields}
use rex_with_driver.Program.Updates.{Fitting}
use rex_with_driver.Bmc.{BmcMaps}
use rex_with_driver.Bmc.Reply.{padding_of, end_bytes}
use rex_with_driver.Bmc.Reply.Answer.{Moves}
use rex_with_driver.Bmc.Get.{key_bytes, xdp_rx_filter}
use rex_with_driver.Bmc.Get.Request.{Asks, Cached, xdp_rx_filter-answers, drop-drop}
use rex_with_driver.MemcachedBenchmark.{wrap_get_command, pattern}
use rex_with_driver.MemcachedBenchmark.Replies.{reply_text}

-- A datagram of the benchmark to memcached's port.
pub record Datagram (h : Host) (key : Bytes) (seq : ℕ) (packet : Bytes) : Type 0 where
  pub protocol :
      of_be (bytes_at (bytes_at packet h.layout.ethhdr h.layout.iphdr) h.layout.ip_protocol 1) 0
      ≡ h.ipproto_udp
  pub port :
      of_be
        (bytes_at
          (bytes_at packet (h.layout.ethhdr + h.layout.iphdr) h.layout.udphdr)
          h.layout.udp_dest
          2)
        0
      ≡ 11211
  pub payload :
      drop (h.layout.ethhdr + h.layout.iphdr + h.layout.udphdr) packet ≡ wrap_get_command key seq

-- The first value of a cache line is what a reply has behind `VALUE `.
abbrev pub cached_line : Bytes → Bytes → Bytes → Bytes
cached_line key digits value =
    pattern ++ (key ++ (codes " 0 " ++ (digits ++ (13 ∷ 10 ∷ (value ++ (13 ∷ 10 ∷ []))))))

append_assoc4 :
    (key digits value end : Bytes)
    → (key ++ (codes " 0 " ++ (digits ++ (13 ∷ 10 ∷ (value ++ (13 ∷ 10 ∷ [])))))) ++ end
      ≡ key ++ (codes " 0 " ++ (digits ++ (13 ∷ 10 ∷ (value ++ (13 ∷ 10 ∷ end)))))
append_assoc4 key digits value end = simp append_assoc refl

Datagram-Asks :
    (h : Host) (key : Bytes) (seq : ℕ) (packet : Bytes)
    → Datagram h key seq packet
    → key_bytes key ≡ key
    → 0 < length key
    → length key < 230
    → Asks h key (10 ∷ []) packet
unfolding wrap_get_command to_be16
Datagram-Asks h key seq packet d plain some_key short =
    let header_len = h.layout.ethhdr + h.layout.iphdr + h.layout.udphdr in
    record {
      protocol = d.protocol;
      port = d.port;
      headers = omega (
        arith,
        ap length d.payload,
        length-drop header_len packet,
        length-append key (13 ∷ 10 ∷ []),
      );
      payload = drop-drop header_len 8 packet ∙ ap (drop 8) d.payload;
      plain = plain;
      some_key = some_key;
      short = short;
    }

-- The benchmark's request for a key that the cache has is answered by the cache: the program ends with
-- XDP_TX, and behind its headers the packet is `VALUE `, the text that the benchmark looks for the
-- value in, and nothing else. The conditions on the key, the headers and the kernel are those of
-- any request of one key, and the cache holds memcached's line for the key and the value's line.
pub wrap_get_command-xdp_rx_filter :
    (h : Host) (fuel : ℕ) (key digits value : Bytes) (seq : ℕ) (w : World BmcMaps)
    → Fitting h.layout
    → (h.ipproto_udp == h.ipproto_tcp) ≡ false
    → ((packet : Bytes)
        → length packet ≡ length w.packet
        → Moves h packet (
            padding_of
              (length (cached_line key digits value))
              (length w.packet)
              (h.layout.ethhdr + h.layout.iphdr + h.layout.udphdr + 12)))
    → h.layout.ethhdr + h.layout.iphdr + h.layout.udphdr + 12 < 256
    → length w.packet < 2 ^ 31
    → Datagram h key seq w.packet
    → key_bytes key ≡ key
    → 0 < length key
    → length key < 230
    → Cached key (cached_line key digits value) w.rest
    → (w' : World BmcMaps) × (xdp_rx_filter h (suc fuel) w ≡ yields (some (ok h.xdp_tx)) w')
      × (drop (h.layout.ethhdr + h.layout.iphdr + h.layout.udphdr + 8) w'.packet
          ≡ pattern ++ reply_text key digits value)
wrap_get_command-xdp_rx_filter h fuel key digits value seq w fitting other moves low small d plain
      some_key short cached =
    let (w', answers, reply) =
      xdp_rx_filter-answers h fuel key (10 ∷ []) (cached_line key digits value) w fitting other
        moves low small (Datagram-Asks h key seq w.packet d plain some_key short) cached in
    (w', answers, reply ∙ ap (◌++◌ pattern) (append_assoc4 key digits value end_bytes))
