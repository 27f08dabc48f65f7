-- ===== src/Electrode/Broadcast/Fields.antt =====
-- samples/electrode/src/main.rs, the end of `handle_udp_fast_broad_cast`: what the updates of the
-- headers write.
use rex_with_driver.Base.{
  ℕ, ◌+◌, ◌*◌, ◌≤◌, ◌≡◌, ap, ◌∙◌, arith, length, take, take-all, length-take,
}
use rex_with_driver.Kernel.{Bytes}
use rex_with_driver.Text.{splice}
use rex_with_driver.Text.Copy.{length-splice}
use rex_with_driver.Words.{to_le, length-to_le}
use rex_with_driver.Packet.{Layout, bytes_at}
use rex_with_driver.Packet.Splices.{
  bytes_at-splice, bytes_at-splice_before, bytes_at-store_checksum,
}
use rex_with_driver.Program.{Host}
use rex_with_driver.Program.Updates.{Fitting, length-store_checksum}
use rex_with_driver.Electrode.{eth_alen}
use rex_with_driver.Electrode.Broadcast.{to_udp, to_ip, to_eth}

-- The fields that are written lie in their headers, the checksums off the destination.
pub record Apart (l : Layout) : Type 0 where
  pub fields : Fitting l
  pub ip_check : 2 * l.ip_check + 2 ≤ l.ip_daddr
  pub udp_check : l.udp_dest + 2 ≤ l.udp_check

written_at :
    (buf : Bytes) (off size : ℕ) (s : Bytes)
    → off ≤ length buf
    → length s ≡ size
    → bytes_at (splice buf off s) off size ≡ s
written_at buf off size s fits same =
    ap (λ n. bytes_at (splice buf off s) n size) {y = off + 0} (omega arith)
    ∙ bytes_at-splice buf off s 0 size fits (omega (arith, same))
    ∙ take-all size s (omega (arith, same))

module _ (h : Host) (apart : Apart h.layout) where
  open h use {layout as l}

  pub length-to_udp :
      (port : ℕ) (hdr : Bytes) → length hdr ≡ l.udphdr → length (to_udp h port hdr) ≡ l.udphdr
  unfolding to_udp
  length-to_udp port hdr size =
      let first =
        length-splice hdr l.udp_dest (to_le 2 port)
          (omega (arith, size, length-to_le 2 port, apart.fields.udp_dest)) in
      length-splice (splice hdr l.udp_dest (to_le 2 port)) l.udp_check (to_le 2 0)
        (omega (arith, size, first, length-to_le 2 0, apart.fields.udp_check))
      ∙ first
      ∙ size

  pub to_udp-port :
      (port : ℕ) (hdr : Bytes)
      → length hdr ≡ l.udphdr
      → bytes_at (to_udp h port hdr) l.udp_dest 2 ≡ to_le 2 port
  unfolding to_udp
  to_udp-port port hdr size =
      let first =
        length-splice hdr l.udp_dest (to_le 2 port)
          (omega (arith, size, length-to_le 2 port, apart.fields.udp_dest)) in
      bytes_at-splice_before (splice hdr l.udp_dest (to_le 2 port)) l.udp_check (to_le 2 0)
        l.udp_dest 2 (omega (arith, first, size, apart.fields.udp_check)) apart.udp_check
      ∙ written_at hdr l.udp_dest 2 (to_le 2 port) (omega (arith, size, apart.fields.udp_dest))
          (length-to_le 2 port)

  pub length-to_ip :
      (addr : ℕ) (hdr : Bytes) → length hdr ≡ l.iphdr → length (to_ip h addr hdr) ≡ l.iphdr
  unfolding to_ip
  length-to_ip addr hdr size =
      length-store_checksum l.ip_check (splice hdr l.ip_daddr (to_le 4 addr))
      ∙ length-splice hdr l.ip_daddr (to_le 4 addr)
          (omega (arith, size, length-to_le 4 addr, apart.fields.ip_daddr))
      ∙ size

  pub to_ip-addr :
      (addr : ℕ) (hdr : Bytes)
      → length hdr ≡ l.iphdr
      → bytes_at (to_ip h addr hdr) l.ip_daddr 4 ≡ to_le 4 addr
  unfolding to_ip
  to_ip-addr addr hdr size =
      bytes_at-store_checksum l.ip_check l.ip_daddr 4 (splice hdr l.ip_daddr (to_le 4 addr))
        apart.ip_check
      ∙ written_at hdr l.ip_daddr 4 (to_le 4 addr) (omega (arith, size, apart.fields.ip_daddr))
          (length-to_le 4 addr)

  pub length-to_eth :
      (eth hdr : Bytes)
      → eth_alen ≤ length eth
      → length hdr ≡ l.ethhdr
      → length (to_eth h eth hdr) ≡ l.ethhdr
  unfolding to_eth
  length-to_eth eth hdr long size =
      length-splice hdr l.eth_dest (take eth_alen eth)
        (omega (arith, size, length-take eth_alen eth, apart.fields.eth_dest))
      ∙ size

  pub to_eth-dest :
      (eth hdr : Bytes)
      → eth_alen ≤ length eth
      → length hdr ≡ l.ethhdr
      → bytes_at (to_eth h eth hdr) l.eth_dest eth_alen ≡ take eth_alen eth
  unfolding to_eth
  to_eth-dest eth hdr long size =
      written_at hdr l.eth_dest eth_alen (take eth_alen eth)
        (omega (arith, size, apart.fields.eth_dest)) (omega (arith, length-take eth_alen eth, long))
