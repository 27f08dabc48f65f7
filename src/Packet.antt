-- ===== src/Packet.antt =====
-- rex/src/utils.rs, `AlignedMut` and `convert_slice_to_struct_mut`, and the header accessors of
-- rex/src/xdp/xdp_impl.rs and rex/src/sched_cls/sched_cls_impl.rs, over the bytes of a packet.
pub mod Views
pub mod Splices
pub mod Tests
use rex_with_driver.Base.{
  ℕ, ◌+◌, ◌-◌, ◌≤◌, Bool, true, false, ◌||◌, Option, none, some, ltb, if◌then◌else◌, length, take,
  drop,
}
use rex_with_driver.Kernel.{Bytes}
use rex_with_driver.Text.{splice}

-- `AlignedInner`: a reference into the slice, or a copy of the value.
pub data AlignedInner : Type 0 where
  by_ref : AlignedInner
  by_val : Bytes → AlignedInner

-- `AlignedMut<T>` for a `T` of `size` bytes, over the slice that begins at `start` in the packet.
pub record AlignedMut : Type 0 where
  pub inner : AlignedInner
  pub start : ℕ
  pub size : ℕ

-- The `size` bytes from `start`.
abbrev pub bytes_at : Bytes → ℕ → ℕ → Bytes
bytes_at packet start size = take size (drop start packet)

-- `none` is the panic of the assertion on the slice's length `len`.
unfoldable pub convert_slice_to_struct_mut : Bool → Bytes → ℕ → ℕ → ℕ → Option AlignedMut
convert_slice_to_struct_mut is_aligned packet start len size =
    if ltb len size
    then none
    else if is_aligned
    then some (record { inner = by_ref; start = start; size = size })
    else some (record { inner = by_val (bytes_at packet start size); start = start; size = size })

-- `Deref::deref`
deref_inner : AlignedInner → Bytes → Bytes
deref_inner by_ref direct = direct
deref_inner (by_val copied) direct = copied

unfoldable pub deref : AlignedMut → Bytes → Bytes
unfolding deref_inner
deref m packet = deref_inner m.inner (bytes_at packet m.start m.size)

-- An assignment through `DerefMut::deref_mut`: to the packet, or to the copy.
assign_inner : AlignedInner → AlignedMut → Bytes → Bytes → AlignedMut × Bytes
assign_inner by_ref m value packet = (m, splice packet m.start value)
assign_inner (by_val copied) m value packet = (record m { inner = by_val value }, packet)

unfoldable pub assign : AlignedMut → Bytes → Bytes → AlignedMut × Bytes
unfolding assign_inner
assign m value packet = assign_inner m.inner m value packet

-- `Drop::drop` writes a copy back.
drop_inner : AlignedInner → ℕ → Bytes → Bytes
drop_inner by_ref start packet = packet
drop_inner (by_val copied) start packet = splice packet start copied

unfoldable pub drop_aligned : AlignedMut → Bytes → Bytes
unfolding drop_inner
drop_aligned m packet = drop_inner m.inner m.start packet

-- `Aligned<T>`, the same for shared references.
pub record Aligned : Type 0 where
  pub inner : AlignedInner
  pub start : ℕ
  pub size : ℕ

unfoldable pub convert_slice_to_struct : Bool → Bytes → ℕ → ℕ → ℕ → Option Aligned
convert_slice_to_struct is_aligned packet start len size =
    if ltb len size
    then none
    else if is_aligned
    then some (record { inner = by_ref; start = start; size = size })
    else some (record { inner = by_val (bytes_at packet start size); start = start; size = size })

unfoldable pub deref_aligned : Aligned → Bytes → Bytes
unfolding deref_inner
deref_aligned a packet = deref_inner a.inner (bytes_at packet a.start a.size)

-- `read_field!`: `offset` is that of the field in its header, `size` that of its type.
unfoldable pub read_field : (ℕ → Bool) → Bytes → ℕ → ℕ → ℕ → Option Bytes
read_field aligned packet hdr_base offset size =
    let start = hdr_base + offset in
    if ltb (length packet) (start + size)
    then none
    else elim (convert_slice_to_struct (aligned start) packet start size size) [
      | none ↦ none
      | some a ↦ some (deref_aligned a packet)
    ]

-- The sizes of the kernel's header types and the offsets of the fields that programs use, for which
-- the build generates bindings. `ip_check` is an index in u16.
pub record Layout : Type 0 where
  pub ethhdr : ℕ
  pub iphdr : ℕ
  pub udphdr : ℕ
  pub tcphdr : ℕ
  pub eth_dest : ℕ
  pub eth_source : ℕ
  pub ip_tot_len : ℕ
  pub ip_protocol : ℕ
  pub ip_check : ℕ
  pub ip_saddr : ℕ
  pub ip_daddr : ℕ
  pub udp_source : ℕ
  pub udp_dest : ℕ
  pub udp_len : ℕ
  pub udp_check : ℕ
  pub tcp_dest : ℕ

-- `&mut data_slice[begin..end]`, then the conversion. The slice index panics if it is out of range.
-- `aligned` says whether the address at an offset suits the header's type.
abbrev header_at : (ℕ → Bool) → Bytes → ℕ → ℕ → Option AlignedMut
header_at aligned packet begin end =
    if ltb end begin || ltb (length packet) end
    then none
    else convert_slice_to_struct_mut (aligned begin) packet begin (end - begin) (end - begin)

module _ (l : Layout) (aligned : ℕ → Bool) where
  unfoldable pub eth_header : Bytes → Option AlignedMut
  eth_header packet = header_at aligned packet 0 l.ethhdr

  unfoldable pub ip_header : Bytes → Option AlignedMut
  ip_header packet =
      let begin = l.ethhdr in let end = l.iphdr + begin in header_at aligned packet begin end

  unfoldable pub udp_header : Bytes → Option AlignedMut
  udp_header packet =
      let begin = l.ethhdr + l.iphdr in
      let end = l.udphdr + begin in header_at aligned packet begin end

  unfoldable pub tcp_header : Bytes → Option AlignedMut
  tcp_header packet =
      let begin = l.ethhdr + l.iphdr in
      let end = l.tcphdr + begin in header_at aligned packet begin end

-- A block that takes a header, computes a new value from what it reads, assigns it and lets the
-- header go out of scope, as the programs do.
unfoldable pub update_header : Option AlignedMut → (Bytes → Bytes) → Bytes → Option Bytes
update_header none f packet = none
update_header (some m) f packet =
    let (m', packet') = assign m (f (deref m packet)) packet in some (drop_aligned m' packet')
