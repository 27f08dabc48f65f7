-- ===== src/Program/Updates.antt =====
-- Updates of headers, from whichever program: where the header lies in the packet they go through and
-- keep the length of the packet.
use rex_with_driver.Base.{
  ℕ, zero, suc, ◌+◌, ◌-◌, ◌≤◌, ◌≡◌, refl, ap, ◌∙◌, arith, [], ◌∷◌, Bool, some, Option, length,
  length-take, length-drop, drop,
}
use rex_with_driver.Kernel.{Bytes}
use rex_with_driver.Text.{splice}
use rex_with_driver.Text.Copy.{length-splice}
use rex_with_driver.Checksum.{set_u16, compute_ip_checksum, store_checksum}
use rex_with_driver.Packet.{
  AlignedMut, Layout, bytes_at, convert_slice_to_struct_mut, update_header, eth_header, ip_header,
  udp_header,
}
use rex_with_driver.Packet.Views.{update_header-convert}
use rex_with_driver.Program.{World, yields, update}

pub length-bytes_at :
    (packet : Bytes) (start size : ℕ)
    → start + size ≤ length packet
    → length (bytes_at packet start size) ≡ size
length-bytes_at packet start size fits =
    omega (arith, length-take size (drop start packet), length-drop start packet)

length-set_u16_bytes : (n v : ℕ) (hdr : Bytes) → length (set_u16 n v hdr) ≡ length hdr
unfolding set_u16
length-set_u16_bytes n v [] = refl
length-set_u16_bytes n v (a ∷ []) = refl
length-set_u16_bytes zero v (a ∷ b ∷ rest) = refl
length-set_u16_bytes (suc n) v (a ∷ b ∷ rest) =
    ap (λ m. suc (suc m)) (length-set_u16_bytes n v rest)

pub length-store_checksum :
    (check : ℕ) (hdr : Bytes) → length (store_checksum check hdr) ≡ length hdr
unfolding store_checksum compute_ip_checksum
length-store_checksum check hdr =
    length-set_u16_bytes check _ (set_u16 check 0 hdr) ∙ length-set_u16_bytes check 0 hdr

-- An update by `f` of the `size` bytes at `start`.
update-spliced :
    {R : Type 0} (header : Bytes → Option AlignedMut) (f : Bytes → Bytes) (is_aligned : Bool)
    (start size : ℕ) (w : World R)
    → header w.packet ≡ convert_slice_to_struct_mut is_aligned w.packet start size size
    → update header f w
      ≡ yields tt (record w { packet = splice w.packet start (f (bytes_at w.packet start size)) })
update-spliced header f is_aligned start size w at =
    let done : update_header (header w.packet) f w.packet
        ≡ some (splice w.packet start (f (bytes_at w.packet start size))) =
      ap (λ m. update_header m f w.packet) at
      ∙ update_header-convert is_aligned w.packet start size size f
      ∙ ground arith in
    ground (arith, done)

module _ {R : Type 0} (l : Layout) (aligned : ℕ → Bool) (f : Bytes → Bytes) (w : World R) where
  abbrev updated : ℕ → ℕ → Bytes
  updated start size = splice w.packet start (f (bytes_at w.packet start size))

  length-updated :
      (start size : ℕ)
      → start + size ≤ length w.packet
      → length (f (bytes_at w.packet start size)) ≡ size
      → length (updated start size) ≡ length w.packet
  length-updated start size fits keeps =
      length-splice w.packet start (f (bytes_at w.packet start size)) (omega (arith, keeps))

  pub update-eth_spliced :
      l.ethhdr ≤ length w.packet
      → update (eth_header l aligned) f w ≡ yields tt (record w { packet = updated 0 l.ethhdr })
  unfolding eth_header
  update-eth_spliced fits =
      update-spliced (eth_header l aligned) f (aligned 0) 0 l.ethhdr w (ground arith)

  pub update-ip_spliced :
      l.ethhdr + l.iphdr ≤ length w.packet
      → update (ip_header l aligned) f w
        ≡ yields tt (record w { packet = updated l.ethhdr l.iphdr })
  unfolding ip_header
  update-ip_spliced fits =
      let size : l.iphdr + l.ethhdr - l.ethhdr ≡ l.iphdr = omega arith in
      update-spliced (ip_header l aligned) f (aligned l.ethhdr) l.ethhdr l.iphdr w
        (rw size (ground arith))

  pub update-udp_spliced :
      l.ethhdr + l.iphdr + l.udphdr ≤ length w.packet
      → update (udp_header l aligned) f w
        ≡ yields tt (record w { packet = updated (l.ethhdr + l.iphdr) l.udphdr })
  unfolding udp_header
  update-udp_spliced fits =
      let size : l.udphdr + (l.ethhdr + l.iphdr) - (l.ethhdr + l.iphdr) ≡ l.udphdr = omega arith in
      update-spliced (udp_header l aligned) f (aligned (l.ethhdr + l.iphdr)) (l.ethhdr + l.iphdr)
        l.udphdr w (rw size (ground arith))

  pub update-eth_header :
      l.ethhdr ≤ length w.packet
      → length (f (bytes_at w.packet 0 l.ethhdr)) ≡ l.ethhdr
      → (packet : Bytes) × (update (eth_header l aligned) f w
          ≡ yields tt (record w { packet = packet }))
        × (length packet ≡ length w.packet)
  update-eth_header fits keeps =
      (updated 0 l.ethhdr, update-eth_spliced fits, length-updated 0 l.ethhdr (omega arith) keeps)

  pub update-ip_header :
      l.ethhdr + l.iphdr ≤ length w.packet
      → length (f (bytes_at w.packet l.ethhdr l.iphdr)) ≡ l.iphdr
      → (packet : Bytes) × (update (ip_header l aligned) f w
          ≡ yields tt (record w { packet = packet }))
        × (length packet ≡ length w.packet)
  update-ip_header fits keeps =
      (updated l.ethhdr l.iphdr, update-ip_spliced fits, length-updated l.ethhdr l.iphdr fits keeps)

  pub update-udp_header :
      l.ethhdr + l.iphdr + l.udphdr ≤ length w.packet
      → length (f (bytes_at w.packet (l.ethhdr + l.iphdr) l.udphdr)) ≡ l.udphdr
      → (packet : Bytes) × (update (udp_header l aligned) f w
          ≡ yields tt (record w { packet = packet }))
        × (length packet ≡ length w.packet)
  update-udp_header fits keeps = (
    updated (l.ethhdr + l.iphdr) l.udphdr,
    update-udp_spliced fits,
    length-updated (l.ethhdr + l.iphdr) l.udphdr fits keeps,
  )

-- The fields that the programs write lie in their headers.
pub record Fitting (l : Layout) : Type 0 where
  pub eth_dest : l.eth_dest + 6 ≤ l.ethhdr
  pub eth_source : l.eth_source + 6 ≤ l.ethhdr
  pub ip_tot_len : l.ip_tot_len + 2 ≤ l.iphdr
  pub ip_saddr : l.ip_saddr + 4 ≤ l.iphdr
  pub ip_daddr : l.ip_daddr + 4 ≤ l.iphdr
  pub udp_source : l.udp_source + 2 ≤ l.udphdr
  pub udp_dest : l.udp_dest + 2 ≤ l.udphdr
  pub udp_len : l.udp_len + 2 ≤ l.udphdr
  pub udp_check : l.udp_check + 2 ≤ l.udphdr
