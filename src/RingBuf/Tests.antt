-- ===== src/RingBuf/Tests.antt =====
-- Entries of a ring buffer, run on the example kernel.
use rex_with_driver.Base.{◌+◌, ◌≡◌, arith, List, [], ◌∷◌, codes, replicate}
use rex_with_driver.Kernel.{Bytes, Call, Cpu}
use rex_with_driver.Log
use rex_with_driver.Log.Write.{Ended}
use rex_with_driver.RingBuf.{RexRingBufEntry, write_fmt}
use rex_with_driver.RingBuf.Entry.{as_log, with_log, map_written, write_fmt-eq-log}
use rex_with_driver.RingBuf.Lifecycle.{consume, submits, settled, EndedAt, consume_once}
use rex_with_driver.Example.{late, crowded}

abbrev reserved : RexRingBufEntry
reserved = record { addr = 64; payload = replicate 8 0; off = 0 }

consume_once_example :
    (t : Cpu) × EndedAt late
      (Call.ringbuf_submit 64 (replicate 8 0) 1)
      crowded
      (consume late reserved (submits 1) crowded)
      t
    × (settled 64 t.calls ≡ settled 64 crowded.calls + 1)
consume_once_example = consume_once late reserved (submits 1) crowded (omega arith)

abbrev pieces : List Bytes
pieces = codes "abc" ∷ codes "defghi" ∷ []

write_fmt-eq-log_example :
    (write_fmt reserved pieces
      ≡ map_written (with_log reserved) (Log.write_fmt (as_log reserved) pieces))
    × Ended (as_log reserved) pieces (Log.write_fmt (as_log reserved) pieces)
write_fmt-eq-log_example = write_fmt-eq-log reserved pieces (omega arith)

abbrev empty_entry : RexRingBufEntry
empty_entry = record { addr = 64; payload = []; off = 0 }
