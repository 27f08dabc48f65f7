-- ===== src/RingBuf/Entry.antt =====
-- rex/src/map.rs, `impl Write for RexRingBufEntry`: on a payload of at least one byte it is the
-- writer of the log buffer, so it never leaves the payload; on an empty payload it panics.
use rex_with_driver.Base.{ℕ, ◌≡◌, refl, List, [], ◌∷◌, arith, length, ◌==◌, ◌-◌, if◌then◌else◌}
use rex_with_driver.Kernel.{Bytes, add64}
use rex_with_driver.Text.{Written, written, refused, out_of_range, flatten, copy_in}
use rex_with_driver.Text
use rex_with_driver.Log.{LogBuf}
use rex_with_driver.Log
use rex_with_driver.Log.Write.{
  IsValid, Ended, room, room_lem, write_fmt-Ended, write_str-fits, write_str-refused,
}
use native.Mathlib.Decide.{dec_le}
use rex_with_driver.RingBuf.{RexRingBufEntry, write_str, write_fmt}

-- The payload and offset as a log buffer, and back.
abbrev pub as_log : RexRingBufEntry → LogBuf
as_log e = record { buf = e.payload; off = e.off }

abbrev pub with_log : RexRingBufEntry → LogBuf → RexRingBufEntry
with_log e b = record e { payload = b.buf; off = b.off }

abbrev pub map_written : (LogBuf → RexRingBufEntry) → Written LogBuf → Written RexRingBufEntry
map_written f (written b) = written (f b)
map_written f (refused b) = refused (f b)
map_written f out_of_range = out_of_range

-- On a valid entry a write does what the log buffer's would on the same bytes.
pub write_str-eq-log :
    (e : RexRingBufEntry) (s : Bytes)
    → IsValid (as_log e)
    → write_str e s ≡ map_written (with_log e) (Log.write_str (as_log e) s)
unfolding write_str Log.write_str
write_str-eq-log e s v =
    let available : length e.payload - add64 e.off 1 ≡ room (as_log e) = omega arith in
    ground (arith, available, room_lem (as_log e) v)

-- On an entry whose offset lies inside its payload, a formatted write does to the payload and the
-- offset what the log buffer's write does to the same bytes: it ends with the whole text appended
-- and a NUL behind it, or refused with some of the pieces written, as `Ended` says for a log
-- buffer.
pub write_fmt-eq-log :
    (e : RexRingBufEntry) (ps : List Bytes)
    → IsValid (as_log e)
    → (write_fmt e ps ≡ map_written (with_log e) (Log.write_fmt (as_log e) ps))
      × Ended (as_log e) ps (Log.write_fmt (as_log e) ps)
unfolding Text.write_fmt
write_fmt-eq-log e ps v = (same e ps v, write_fmt-Ended (as_log e) ps v)
  where
    same :
        (e : RexRingBufEntry) (ps : List Bytes)
        → IsValid (as_log e)
        → write_fmt e ps ≡ map_written (with_log e) (Log.write_fmt (as_log e) ps)
    same e [] v = refl
    same e (s ∷ ps) v = elim (dec_le (length s) (room (as_log e))) [
      | yes h ↦
          let (b, r, p) = write_str-fits (as_log e) s v h in
          rw (write_str-eq-log e s v, r, Text.write_fmt) (same (with_log e b) ps p.valid)
      | no h ↦
          rw
            (write_str-eq-log e s v, write_str-refused (as_log e) s v (omega arith), Text.write_fmt)
            refl
    ]

-- On an empty payload, a write of the empty text panics, since its NUL has no place, and any other
-- text is refused.
write_str_empty_payload :
    (addr : ℕ) (s : Bytes)
    → let e : RexRingBufEntry = record { addr = addr; payload = []; off = 0 } in
      write_str e s ≡ (if length s == 0 then out_of_range else refused e)
unfolding write_str copy_in
write_str_empty_payload addr s = ground arith
