-- ===== src/Electrode/Broadcast/Address.antt =====
-- samples/electrode/src/main.rs, the end of `handle_udp_fast_broad_cast`: the packet leaves for the
-- replica that was picked.
use rex_with_driver.Base.{ℕ, ◌+◌, ◌≤◌, ◌≡◌, ap, ◌∙◌, arith, some, length, take, get_elem?, codes}
use rex_with_driver.Kernel.{Bytes}
use rex_with_driver.Text.{splice}
use rex_with_driver.Text.Copy.{length-splice}
use rex_with_driver.Utils.{ok}
use rex_with_driver.Words.{to_le}
use rex_with_driver.Packet.{Layout, bytes_at}
use rex_with_driver.Packet.Splices.{bytes_at-splice, bytes_at-splice_behind}
use rex_with_driver.Program.{World, Host, yields}
use rex_with_driver.Program.Updates.{
  length-bytes_at, update-eth_spliced, update-ip_spliced, update-udp_spliced,
}
use rex_with_driver.Electrode.{Maps, PaxosConfigure, eth_alen}
use rex_with_driver.Electrode.Broadcast.Fields.{
  Apart, length-to_udp, to_udp-port, length-to_ip, to_ip-addr, length-to_eth, to_eth-dest,
}
use rex_with_driver.Electrode.Broadcast.{to_udp, to_ip, to_eth, address}

-- Where a packet goes: its MAC address, IP address and UDP port, as bytes.
pub record Destination : Type 0 where
  pub eth : Bytes
  pub addr : Bytes
  pub port : Bytes

abbrev pub destination : Layout → Bytes → Destination
destination l packet = record {
  eth = bytes_at packet l.eth_dest eth_alen;
  addr = bytes_at packet (l.ethhdr + l.ip_daddr) 4;
  port = bytes_at packet (l.ethhdr + l.iphdr + l.udp_dest) 2;
}

-- A replica, as the map of the configuration has it.
abbrev pub location : PaxosConfigure → Destination
location r = record { eth = take eth_alen r.eth; addr = to_le 4 r.addr; port = to_le 2 r.port }

module _ (h : Host) (apart : Apart h.layout) where
  open h use {layout as l}

  -- The three updates, one after the other.
  abbrev to_udp_packet : PaxosConfigure → Bytes → Bytes
  to_udp_packet r p =
      let start = l.ethhdr + l.iphdr in splice p start (to_udp h r.port (bytes_at p start l.udphdr))

  abbrev to_ip_packet : PaxosConfigure → Bytes → Bytes
  to_ip_packet r p = splice p l.ethhdr (to_ip h r.addr (bytes_at p l.ethhdr l.iphdr))

  abbrev to_eth_packet : PaxosConfigure → Bytes → Bytes
  to_eth_packet r p = splice p 0 (to_eth h r.eth (bytes_at p 0 l.ethhdr))

  to_udp_packet-port :
      (r : PaxosConfigure) (p : Bytes)
      → l.ethhdr + l.iphdr + l.udphdr ≤ length p
      → (length (to_udp_packet r p) ≡ length p)
        × (bytes_at (to_udp_packet r p) (l.ethhdr + l.iphdr + l.udp_dest) 2 ≡ to_le 2 r.port)
  to_udp_packet-port r p fits =
      let start = l.ethhdr + l.iphdr in
      let hdr = bytes_at p start l.udphdr in
      let size = length-bytes_at p start l.udphdr fits in
      let kept = length-to_udp h apart r.port hdr size in
      (
        length-splice p start (to_udp h r.port hdr) (omega (arith, kept, fits)),
        bytes_at-splice p start (to_udp h r.port hdr) l.udp_dest 2 (omega (arith, fits))
              (omega (arith, kept, apart.fields.udp_dest))
            ∙ to_udp-port h apart r.port hdr size,
      )

  to_ip_packet-addr :
      (r : PaxosConfigure) (p : Bytes)
      → l.ethhdr + l.iphdr + l.udphdr ≤ length p
      → (length (to_ip_packet r p) ≡ length p)
        × (bytes_at (to_ip_packet r p) (l.ethhdr + l.ip_daddr) 4 ≡ to_le 4 r.addr)
        × ((start size : ℕ)
            → l.ethhdr + l.iphdr ≤ start
            → bytes_at (to_ip_packet r p) start size ≡ bytes_at p start size)
  to_ip_packet-addr r p fits =
      let hdr = bytes_at p l.ethhdr l.iphdr in
      let size = length-bytes_at p l.ethhdr l.iphdr (omega (arith, fits)) in
      let kept = length-to_ip h apart r.addr hdr size in
      (
        length-splice p l.ethhdr (to_ip h r.addr hdr) (omega (arith, kept, fits)),
        bytes_at-splice p l.ethhdr (to_ip h r.addr hdr) l.ip_daddr 4 (omega (arith, fits))
              (omega (arith, kept, apart.fields.ip_daddr))
            ∙ to_ip-addr h apart r.addr hdr size,
        λ start n behind.
            bytes_at-splice_behind p l.ethhdr (to_ip h r.addr hdr) start n (omega (arith, fits))
              (omega (arith, kept, behind)),
      )

  to_eth_packet-dest :
      (r : PaxosConfigure) (p : Bytes)
      → eth_alen ≤ length r.eth
      → l.ethhdr ≤ length p
      → (length (to_eth_packet r p) ≡ length p)
        × (bytes_at (to_eth_packet r p) l.eth_dest eth_alen ≡ take eth_alen r.eth)
        × ((start size : ℕ)
            → l.ethhdr ≤ start
            → bytes_at (to_eth_packet r p) start size ≡ bytes_at p start size)
  to_eth_packet-dest r p long fits =
      let hdr = bytes_at p 0 l.ethhdr in
      let size = length-bytes_at p 0 l.ethhdr (omega (arith, fits)) in
      let kept = length-to_eth h apart r.eth hdr long size in
      (
        length-splice p 0 (to_eth h r.eth hdr) (omega (arith, kept, fits)),
        ap (λ n. bytes_at (to_eth_packet r p) n eth_alen) {x = l.eth_dest} {y = 0 + l.eth_dest}
              (omega arith)
            ∙ bytes_at-splice p 0 (to_eth h r.eth hdr) l.eth_dest eth_alen (omega arith)
                (omega (arith, kept, apart.fields.eth_dest))
            ∙ to_eth-dest h apart r.eth hdr long size,
        λ start n behind.
            bytes_at-splice_behind p 0 (to_eth h r.eth hdr) start n (omega arith)
              (omega (arith, kept, behind)),
      )

  abbrev marked : ℕ → Bytes → Bytes
  marked a p = splice (splice p a (codes "s")) (a + 1) (codes "p")

  -- A packet that is addressed to a replica of the configuration leaves for it.
  pub address-location :
      (a id : ℕ) (w : World Maps) (r : PaxosConfigure)
      → l.ethhdr + l.iphdr + l.udphdr ≤ a
      → a + 2 ≤ length w.packet
      → eth_alen ≤ length r.eth
      → get_elem? w.rest.configure id ≡ some r
      → (packet : Bytes) × (address h a id w
          ≡ yields (ok h.tc_act_ok) (record w { packet = packet }))
        × (destination l packet ≡ location r)
  unfolding address
  address-location a id w r behind inside long found =
      let p1 = marked a w.packet in
      let same0 = length-splice w.packet a (codes "s") (omega (arith, inside)) in
      let same1 : length p1 ≡ length w.packet =
        length-splice (splice w.packet a (codes "s")) (a + 1) (codes "p")
          (omega (arith, inside, same0))
        ∙ same0 in
      let p2 = to_udp_packet r p1 in
      let (same2, port) = to_udp_packet-port r p1 (omega (arith, same1)) in
      let p3 = to_ip_packet r p2 in
      let (same3, addr, rest3) = to_ip_packet-addr r p2 (omega (arith, same1, same2)) in
      let p4 = to_eth_packet r p3 in
      let (same4, eth, rest4) = to_eth_packet-dest r p3 long (omega (arith, same1, same2, same3)) in
      let w1 = record w { packet = p1 } in
      let w2 = record w { packet = p2 } in
      let w3 = record w { packet = p3 } in
      let udp = update-udp_spliced l h.aligned (to_udp h r.port) w1 (omega (arith, same1)) in
      let ip = update-ip_spliced l h.aligned (to_ip h r.addr) w2 (omega (arith, same1, same2)) in
      let mac =
        update-eth_spliced l h.aligned (to_eth h r.eth) w3 (omega (arith, same1, same2, same3)) in
      (
        p4,
        ground (arith, same0, found, udp, ip, mac),
        λ i. record {
          eth = eth i;
          addr = (rest4 (l.ethhdr + l.ip_daddr) 4 (omega arith) ∙ addr) i;
          port =
              (rest4 (l.ethhdr + l.iphdr + l.udp_dest) 2 (omega arith)
                  ∙ rest3 (l.ethhdr + l.iphdr + l.udp_dest) 2 (omega arith)
                  ∙ port)
                i;
        },
      )
