-- ===== src/Electrode/Broadcast/Message.antt =====
-- samples/electrode/src/main.rs, `fast_broad_cast_main`: the packets of the protocol, which the program
-- reads up to the place where it picks a replica, and a stamp there leaves them such packets.
use rex_with_driver.Base.{
  ℕ, ◌+◌, ◌-◌, ◌≤◌, ◌<◌, ◌≡◌, refl, ap, ◌∙◌, arith, [], ◌∷◌, true, length, drop, take, length-drop,
  take-all,
}
use rex_with_driver.Kernel.{Bytes}
use rex_with_driver.Text.{splice}
use rex_with_driver.Text.Copy.{length-splice}
use rex_with_driver.Utils.{Result}
use rex_with_driver.Words.{of_le, of_be}
use rex_with_driver.Packet.{Layout, bytes_at}
use rex_with_driver.Packet.Views.{read_field_lem}
use rex_with_driver.Packet.Splices.{bytes_at-splice_before, drop-splice_behind, drop-drop}
use rex_with_driver.Program.{
  World, Ran, Host, yields, close, close-close, slice, field, starts_with,
}
use rex_with_driver.Electrode.{Maps, magic_len, magic_bits, paxos_port, mtu, fast_paxos_data_len}
use rex_with_driver.Electrode.Messages.Types.{named_type, compute_message_type-named_type}
use rex_with_driver.Electrode.Broadcast.{
  broadcast, handle_udp_fast_broad_cast, broadcast_udp, fast_broad_cast_main,
}

-- The place of the type string, behind the headers, the magic and the length word.
abbrev pub place : Layout → ℕ
place l = l.ethhdr + l.iphdr + l.udphdr + magic_len + 8

-- A UDP packet of the protocol, whose type string has `type_len` bytes with `text` behind it.
pub record Message (h : Host) (type_len : ℕ) (text packet : Bytes) : Type 0 where
  pub udp : of_be (bytes_at packet (h.layout.ethhdr + h.layout.ip_protocol) 1) 0 ≡ h.ipproto_udp
  pub port :
      of_be (bytes_at packet (h.layout.ethhdr + h.layout.iphdr + h.layout.udp_dest) 2) 0
      ≡ paxos_port
  pub magic :
      bytes_at packet (h.layout.ethhdr + h.layout.iphdr + h.layout.udphdr) magic_len ≡ magic_bits
  pub word :
      of_le (bytes_at packet (h.layout.ethhdr + h.layout.iphdr + h.layout.udphdr + magic_len) 8)
      ≡ type_len
  pub named : 2 ≤ type_len
  pub short : type_len < mtu
  pub size : place h.layout + type_len + fast_paxos_data_len ≤ length packet
  pub rest : drop (place h.layout + type_len) packet ≡ text

-- The fields that are read lie in their headers.
pub record Readable (l : Layout) : Type 0 where
  pub ip_protocol : l.ip_protocol + 1 ≤ l.iphdr
  pub udp_dest : l.udp_dest + 2 ≤ l.udphdr

starts_with-take : (xs ps : Bytes) → take (length ps) xs ≡ ps → starts_with xs ps ≡ true
unfolding starts_with
starts_with-take xs [] h = refl
starts_with-take [] (p ∷ ps) h = absurd (omega (arith, ap length h))
starts_with-take (x ∷ xs) (p ∷ ps) h = ground (arith, starts_with-take xs ps (ap (drop 1) h), h)

slice-to_end :
    (xs : Bytes) (n : ℕ) (w : World Maps)
    → n ≤ length xs
    → slice xs n (length xs) w ≡ yields (drop n xs) w
slice-to_end xs n w fits =
    let all = take-all (length xs - n) (drop n xs) (omega (arith, length-drop n xs)) in
    ground (arith, all, fits)

field-reads :
    (h : Host) (base offset size : ℕ) (w : World Maps)
    → base + offset + size ≤ length w.packet
    → field h base offset size w ≡ yields (bytes_at w.packet (base + offset) size) w
field-reads h base offset size w fits =
    let read = read_field_lem h.aligned w.packet base offset size in ground (arith, read, fits)

module _ (h : Host) (type_len : ℕ) (text : Bytes) (w : World Maps)
    (m : Message h type_len text w.packet) where
  open h use {layout as l}

  abbrev header_len : ℕ
  header_len = l.ethhdr + l.iphdr + l.udphdr + magic_len

  -- The packet from the magic's end on, and from the type string on.
  abbrev whole : Bytes
  whole = drop header_len w.packet

  abbrev payload : Bytes
  payload = drop 8 whole

  -- The part after the message was read.
  abbrev pub relayed : Ran Maps Result
  relayed =
      broadcast h (place l) (of_le (take 4 text)) (of_le (take 4 (drop 4 text))) (named_type text) w

  payload-text : drop type_len payload ≡ text
  payload-text =
      ap (drop type_len) (drop-drop header_len 8 (place l) w.packet refl)
      ∙ drop-drop (place l) type_len (place l + type_len) w.packet refl
      ∙ m.rest

  length-whole : length whole + header_len ≡ length w.packet
  length-whole = omega (arith, length-drop header_len w.packet, m.size)

  length-payload : length payload + place l ≡ length w.packet
  length-payload = omega (arith, length-drop 8 whole, length-whole, m.size)

  length-text : length text + type_len + place l ≡ length w.packet
  length-text =
      omega (arith, ap length payload-text, length-drop type_len payload, length-payload, m.size)

  read_rest : slice payload type_len (length payload) w ≡ yields text w
  read_rest =
      slice-to_end payload type_len w (omega (arith, length-payload, m.size))
      ∙ ap (λ b. yields b w) payload-text

  handle_udp_fast_broad_cast-relayed : handle_udp_fast_broad_cast h w ≡ close relayed
  unfolding handle_udp_fast_broad_cast
  handle_udp_fast_broad_cast-relayed =
      let word : slice whole 0 8 w ≡ yields (bytes_at w.packet header_len 8) w =
        ground (arith, length-whole, m.size) in
      let behind = slice-to_end whole 8 w (omega (arith, length-whole, m.size)) in
      let view : slice text 0 4 w ≡ yields (take 4 text) w = ground (arith, length-text, m.size) in
      let op : slice text 4 8 w ≡ yields (take 4 (drop 4 text)) w =
        ground (arith, length-text, m.size) in
      ground (
        arith,
        word,
        behind,
        m.word,
        m.short,
        m.size,
        length-payload,
        length-text,
        read_rest,
        view,
        op,
        compute_message_type-named_type text w,
      )

  starts_with-magic : starts_with (drop (l.iphdr + l.ethhdr + l.udphdr) w.packet) magic_bits ≡ true
  starts_with-magic =
      starts_with-take (drop (l.iphdr + l.ethhdr + l.udphdr) w.packet) magic_bits (
        ap (λ n. bytes_at w.packet n 4) {x = l.iphdr + l.ethhdr + l.udphdr} (omega arith) ∙ m.magic)

  -- The program relays such a packet.
  pub fast_broad_cast_main-relayed : Readable l → fast_broad_cast_main h w ≡ close relayed
  unfolding fast_broad_cast_main broadcast_udp
  fast_broad_cast_main-relayed readable =
      let port =
        field-reads h (l.ethhdr + l.iphdr) l.udp_dest 2 w
          (omega (arith, readable.udp_dest, m.size)) in
      let protocol =
        field-reads h l.ethhdr l.ip_protocol 1 w (omega (arith, readable.ip_protocol, m.size)) in
      let outer : fast_broad_cast_main h w ≡ close (handle_udp_fast_broad_cast h w) = ground (
        arith,
        port,
        protocol,
        m.port,
        m.udp,
        m.size,
        starts_with-magic,
        length-drop (l.iphdr + l.ethhdr + l.udphdr) w.packet,
      ) in
      (outer ∙ ap close handle_udp_fast_broad_cast-relayed ∙ close-close relayed)

module _ (h : Host) (readable : Readable h.layout) (type_len : ℕ) (text : Bytes) where
  open h use {layout as l}

  -- A stamp of at most two bytes at the place of the type string.
  pub Message-splice :
      (packet s : Bytes) (off : ℕ)
      → Message h type_len text packet
      → place l ≤ off
      → off + length s ≤ place l + 2
      → Message h type_len text (splice packet off s)
  Message-splice packet s off m from_place short =
      let fits : off ≤ length packet = omega (arith, m.size, m.named, short) in
      let before = λ (start size : ℕ) (h' : start + size ≤ off).
        bytes_at-splice_before packet off s start size fits h' in
      record {
        udp =
            ap (λ b. of_be b 0)
              (before (l.ethhdr + l.ip_protocol) 1
                (omega (arith, readable.ip_protocol, from_place)))
            ∙ m.udp;
        port =
            ap (λ b. of_be b 0)
              (before (l.ethhdr + l.iphdr + l.udp_dest) 2
                (omega (arith, readable.udp_dest, from_place)))
            ∙ m.port;
        magic =
            before (l.ethhdr + l.iphdr + l.udphdr) magic_len (omega (arith, from_place)) ∙ m.magic;
        word =
            ap of_le
              (before (l.ethhdr + l.iphdr + l.udphdr + magic_len) 8 (omega (arith, from_place)))
            ∙ m.word;
        named = m.named;
        short = m.short;
        size =
            omega
              (arith, m.size, length-splice packet off s (omega (arith, short, m.size, m.named)));
        rest =
            drop-splice_behind packet off s (place l + type_len) fits
              (omega (arith, short, m.named))
            ∙ m.rest;
      }
