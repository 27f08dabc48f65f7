-- ===== src/Packet/Views.antt =====
-- What a program that updates a header in place may rely on, whether the header is aligned or not.
use rex_with_driver.Base.{
  ℕ, ◌+◌, ◌-◌, ◌≤◌, ◌<◌, ◌≡◌, refl, ap, ◌∙◌, Bool, true, false, none, some, ltb, if◌then◌else◌,
  length, take, drop, arith, ◌++◌, append_assoc, take-append_length, length-append, length-take, [],
  ◌∷◌, take-take_of_le, zero, suc, sym,
}
use rex_with_driver.Kernel.{Bytes}
use rex_with_driver.Text.{splice}
use rex_with_driver.Packet.{
  Aligned, by_ref, by_val, convert_slice_to_struct, deref_aligned, read_field, bytes_at,
  convert_slice_to_struct_mut, deref, assign, drop_aligned, update_header, Layout, ip_header,
}

-- Updating a header of `size` bytes at `start`: `f` of its bytes takes their place, if the slice
-- is long enough, and the program panics otherwise. Alignment makes no difference.
pub update_header-convert :
    (is_aligned : Bool) (packet : Bytes) (start len size : ℕ) (f : Bytes → Bytes)
    → update_header (convert_slice_to_struct_mut is_aligned packet start len size) f packet
      ≡ (if ltb len size then none else some (splice packet start (f (bytes_at packet start size))))
unfolding convert_slice_to_struct_mut update_header deref assign drop_aligned
update_header-convert true packet start len size f = ground arith
update_header-convert false packet start len size f = ground arith

pub take-append_of_le : (n : ℕ) (xs ys : Bytes) → n ≤ length xs → take n (xs ++ ys) ≡ take n xs
take-append_of_le zero xs ys h = refl
take-append_of_le (suc n) [] ys h = absurd (omega arith)
take-append_of_le (suc n) (x ∷ xs) ys h = ap (◌∷◌ x) (take-append_of_le n xs ys (omega arith))

drop-append_of_eq : (n : ℕ) (xs ys : Bytes) → length xs ≡ n → drop n (xs ++ ys) ≡ ys
drop-append_of_eq zero [] ys h = refl
drop-append_of_eq (suc n) [] ys h = absurd (omega arith)
drop-append_of_eq zero (x ∷ xs) ys h = absurd (omega arith)
drop-append_of_eq (suc n) (x ∷ xs) ys h = drop-append_of_eq n xs ys (omega arith)

-- A packet whose bytes from `start` up to `end` are now `value`, and all others are as before.
pub record Framed (packet : Bytes) (start end : ℕ) (value out : Bytes) : Type 0 where
  pub before : take start out ≡ take start packet
  pub inside : bytes_at out start (end - start) ≡ value
  pub after : drop end out ≡ drop end packet

splice-Framed :
    (packet : Bytes) (start size : ℕ) (value : Bytes)
    → size + start ≤ length packet
    → length value ≡ size
    → Framed packet start (size + start) value (splice packet start value)
splice-Framed packet start size value h e = record {
  before =
      take-append_of_le start (take start packet) (value ++ drop (start + length value) packet)
        (omega (arith, length-take start packet))
      ∙ take-take_of_le start start packet (omega arith);
  inside =
      ap (take (size + start - start)) front
      ∙ ap (λ n. take n (value ++ drop (start + length value) packet)) (omega arith)
      ∙ take-append_length value (drop (start + length value) packet);
  after =
      ap (drop (size + start)) (sym (append_assoc (take start packet) value rest))
      ∙ drop-append_of_eq (size + start) (take start packet ++ value) rest
          (omega (arith, length-append (take start packet) value, length-take start packet))
      ∙ ap (λ n. drop n packet) (omega arith);
}
  where
    rest : Bytes
    rest = drop (start + length value) packet

    front : drop start (splice packet start value) ≡ value ++ rest
    front =
        drop-append_of_eq start (take start packet) (value ++ rest)
          (omega (arith, length-take start packet))

ip_header-in_range :
    (l : Layout) (aligned : ℕ → Bool) (packet : Bytes)
    → l.iphdr + l.ethhdr ≤ length packet
    → ip_header l aligned packet
      ≡ convert_slice_to_struct_mut (aligned l.ethhdr) packet l.ethhdr l.iphdr l.iphdr
unfolding ip_header
ip_header-in_range l aligned packet h =
    let size : l.iphdr + l.ethhdr - l.ethhdr ≡ l.iphdr = omega arith in rw size (ground arith)

-- Updating the IP header of a packet that holds one replaces that header by `f` of it, aligned or
-- not, if `f` keeps its size. The Ethernet header before it and all bytes behind it stay.
pub ip_header-Framed :
    (l : Layout) (aligned : ℕ → Bool) (packet : Bytes) (f : Bytes → Bytes)
    → l.iphdr + l.ethhdr ≤ length packet
    → length (f (bytes_at packet l.ethhdr l.iphdr)) ≡ l.iphdr
    → (out : Bytes) × (update_header (ip_header l aligned packet) f packet ≡ some out)
      × Framed packet l.ethhdr (l.iphdr + l.ethhdr) (f (bytes_at packet l.ethhdr l.iphdr)) out
ip_header-Framed l aligned packet f h e = (
  splice packet l.ethhdr (f (bytes_at packet l.ethhdr l.iphdr)),
  ap (λ m. update_header m f packet) (ip_header-in_range l aligned packet h)
      ∙ update_header-convert (aligned l.ethhdr) packet l.ethhdr l.iphdr l.iphdr f
      ∙ ground arith,
  splice-Framed packet l.ethhdr l.iphdr (f (bytes_at packet l.ethhdr l.iphdr)) h e,
)

-- The IP header of a packet too short to hold one cannot be had: the program panics.
pub ip_header-short :
    (l : Layout) (aligned : ℕ → Bool) (packet : Bytes)
    → length packet < l.iphdr + l.ethhdr
    → ip_header l aligned packet ≡ none
unfolding ip_header
ip_header-short l aligned packet h = ground arith

convert_slice_to_struct-fits :
    (is_aligned : Bool) (packet : Bytes) (start size : ℕ)
    → (a : Aligned) × (convert_slice_to_struct is_aligned packet start size size ≡ some a)
      × (deref_aligned a packet ≡ bytes_at packet start size)
unfolding convert_slice_to_struct deref_aligned
convert_slice_to_struct-fits true packet start size =
    (record { inner = by_ref; start = start; size = size }, ground arith, refl)
convert_slice_to_struct-fits false packet start size = (
  record { inner = by_val (bytes_at packet start size); start = start; size = size },
  ground arith,
  refl,
)

-- Reading a header field gives the bytes at its place in the packet, aligned or not, and panics
-- only if they do not all lie in the packet.
pub read_field_lem :
    (aligned : ℕ → Bool) (packet : Bytes) (hdr_base offset size : ℕ)
    → read_field aligned packet hdr_base offset size ≡ (
        if ltb (length packet) (hdr_base + offset + size)
        then none
        else some (bytes_at packet (hdr_base + offset) size))
unfolding read_field
read_field_lem aligned packet hdr_base offset size =
    let start : ℕ = hdr_base + offset in
    let (a, e, d) = convert_slice_to_struct-fits (aligned start) packet start size in rw (e, d) refl
