-- ===== src/Program/Headers.antt =====
-- Headers that a program reads and drops, from whichever program: it gets their bytes, and the packet
-- stays as it is.
use rex_with_driver.Base.{
  ℕ, zero, suc, ◌+◌, ◌-◌, ◌≤◌, ◌≡◌, refl, ap, ◌∙◌, arith, [], ◌∷◌, ◌++◌, Bool, true, false, Option,
  length, take, drop,
}
use rex_with_driver.Kernel.{Bytes}
use rex_with_driver.Text.{splice}
use rex_with_driver.Packet.{
  AlignedMut, Layout, bytes_at, convert_slice_to_struct_mut, ip_header, udp_header, deref,
  drop_aligned,
}
use rex_with_driver.Program.Updates.{length-bytes_at}
use rex_with_driver.Program.{World, yields, header_of}

splice-bytes : (n : ℕ) (bs : Bytes) → take n bs ++ drop n bs ≡ bs
splice-bytes zero bs = refl
splice-bytes (suc n) [] = refl
splice-bytes (suc n) (b ∷ bs) = ap (◌∷◌ b) (splice-bytes n bs)

splice-bytes_at :
    (start size : ℕ) (packet : Bytes)
    → start + size ≤ length packet
    → splice packet start (bytes_at packet start size) ≡ packet
splice-bytes_at zero size packet fits =
    ap (λ n. take size packet ++ drop n packet) {x = 0 + length (take size packet)}
      (omega (arith, length-bytes_at packet 0 size fits))
    ∙ splice-bytes size packet
splice-bytes_at (suc start) size [] fits = absurd (omega arith)
splice-bytes_at (suc start) size (b ∷ packet) fits =
    let value = bytes_at packet start size in
    ap (λ n. b ∷ (take start packet ++ (value ++ drop n (b ∷ packet))))
      {y = suc (start + length value)} (omega arith)
    ∙ ap (◌∷◌ b) (splice-bytes_at start size packet (omega arith))

header_of-reads :
    {R : Type 0} (header : Bytes → Option AlignedMut) (is_aligned : Bool) (start size : ℕ)
    (w : World R)
    → header w.packet ≡ convert_slice_to_struct_mut is_aligned w.packet start size size
    → start + size ≤ length w.packet
    → header_of header w ≡ yields (bytes_at w.packet start size) w
unfolding convert_slice_to_struct_mut deref drop_aligned
header_of-reads header true start size w at fits = ground (arith, at)
header_of-reads header false start size w at fits =
    ground (arith, at, splice-bytes_at start size w.packet fits)

module _ {R : Type 0} (l : Layout) (aligned : ℕ → Bool) (w : World R) where
  pub header_of-ip_header :
      l.ethhdr + l.iphdr ≤ length w.packet
      → header_of (ip_header l aligned) w ≡ yields (bytes_at w.packet l.ethhdr l.iphdr) w
  unfolding ip_header
  header_of-ip_header fits =
      let size : l.iphdr + l.ethhdr - l.ethhdr ≡ l.iphdr = omega arith in
      header_of-reads (ip_header l aligned) (aligned l.ethhdr) l.ethhdr l.iphdr w
        (rw size (ground arith)) fits

  pub header_of-udp_header :
      l.ethhdr + l.iphdr + l.udphdr ≤ length w.packet
      → header_of (udp_header l aligned) w
        ≡ yields (bytes_at w.packet (l.ethhdr + l.iphdr) l.udphdr) w
  unfolding udp_header
  header_of-udp_header fits =
      let size : l.udphdr + (l.ethhdr + l.iphdr) - (l.ethhdr + l.iphdr) ≡ l.udphdr = omega arith in
      header_of-reads (udp_header l aligned) (aligned (l.ethhdr + l.iphdr)) (l.ethhdr + l.iphdr)
        l.udphdr w (rw size (ground arith)) fits
