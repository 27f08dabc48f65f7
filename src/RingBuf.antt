-- ===== src/RingBuf.antt =====
-- rex/src/map.rs, `RexRingBuf` and `RexRingBufEntry`: reservations, the writer over a reserved
-- payload, and the three ways in which an entry is consumed.
pub mod Entry
pub mod Lifecycle
pub mod Tests
use rex_with_driver.Base.{
  ℕ, ◌+◌, ◌-◌, ◌%◌, ◌^◌, List, [], ◌∷◌, ◌++◌, Option, none, some, ◌==◌, ltb, if◌then◌else◌, length,
  take, replicate,
}
use rex_with_driver.Kernel.{Bytes, Env, Call, M, pure, add64, ◌>>=◌}
use rex_with_driver.Text.{Written, written, refused, out_of_range, copy_in}
use rex_with_driver.Text
use rex_with_driver.Utils.{Result, err, to_result}
use rex_with_driver.Termination.{checked_call}
use rex_with_driver.BaseHelper.{RexMapHandle, with_map, int_call}

-- `RexRingBufEntry`: the payload behind `addr`, and the write offset.
pub record RexRingBufEntry : Type 0 where
  pub addr : ℕ
  pub payload : Bytes
  pub off : ℕ

-- `slice::from_raw_parts_mut(data, size)` over what the memory holds.
abbrev pub slice_of : ℕ → Bytes → Bytes
slice_of size memory = take size (memory ++ replicate size 0)

-- `saturating_sub` on the native numbers is `-`.
unfoldable pub write_str : RexRingBufEntry → Bytes → Written RexRingBufEntry
write_str e s =
    let available = length e.payload - add64 e.off 1 in
    let end = add64 e.off (length s) in
    if ltb available (length s) then refused e else elim (copy_in e.payload e.off s end) [
      | some bytes ↦ written (record e { payload = bytes; off = end })
      | none ↦ out_of_range
    ]

abbrev pub write_fmt : RexRingBufEntry → List Bytes → Written RexRingBufEntry
write_fmt = Text.write_fmt write_str

module _ (k : Env) where
  unfoldable pub reserve : RexMapHandle → ℕ → M (Option RexRingBufEntry)
  reserve map size = with_map k map none λ kptr. do
    mem ← checked_call k (Call.ringbuf_reserve kptr size 0)
    pure (
        if mem.rax == 0
        then none
        else some (record { addr = mem.rax; payload = slice_of size mem.out; off = 0 }))

  -- `to_result!` here sees the i64.
  unfoldable pub output : RexMapHandle → Bytes → ℕ → M Result
  output map bytes flags = with_map k map (err k.uapi.einval) λ kptr. do
    ret ← checked_call k (Call.ringbuf_output kptr bytes flags)
    pure (to_result 64 ret.rax)

  abbrev pub query : RexMapHandle → ℕ → M (Option ℕ)
  query map what =
      with_map k map none λ kptr. do
        ret ← checked_call k (Call.ringbuf_query kptr what)
        pure (some (ret.rax % 2 ^ 64))

  unfoldable pub available_bytes : RexMapHandle → M (Option ℕ)
  available_bytes map = query map k.uapi.bpf_rb_avail_data

  unfoldable pub size : RexMapHandle → M (Option ℕ)
  size map = query map k.uapi.bpf_rb_ring_size

  unfoldable pub consumer_position : RexMapHandle → M (Option ℕ)
  consumer_position map = query map k.uapi.bpf_rb_cons_pos

  unfoldable pub producer_position : RexMapHandle → M (Option ℕ)
  producer_position map = query map k.uapi.bpf_rb_prod_pos

  -- `submit` and `discard` take the entry and forget it, so `drop` does not run after them.
  unfoldable pub submit : RexRingBufEntry → ℕ → M (Unit {0})
  submit e flags = do _ ← checked_call k (Call.ringbuf_submit e.addr e.payload flags); pure tt

  unfoldable pub discard : RexRingBufEntry → ℕ → M (Unit {0})
  discard e flags = do _ ← checked_call k (Call.ringbuf_discard e.addr flags); pure tt

  unfoldable pub drop : RexRingBufEntry → M (Unit {0})
  drop e = do _ ← checked_call k (Call.ringbuf_discard e.addr 0); pure tt
