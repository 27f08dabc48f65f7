-- ===== src/Log.antt =====
-- rex/src/log.rs: the writer over the per-CPU log buffer.
pub mod Write
pub mod Tests
use rex_with_driver.Base.{ℕ, ◌-◌, List, none, some, ltb, if◌then◌else◌, length}
use rex_with_driver.Kernel.{Bytes, add64, sub64}
use rex_with_driver.Text.{Written, written, refused, out_of_range, copy_in}
use rex_with_driver.Text

pub record LogBuf : Type 0 where
  pub buf : Bytes
  pub off : ℕ

unfoldable pub new : Bytes → LogBuf
new log_buf = record { buf = log_buf; off = 0 }

unfoldable pub reset : LogBuf → LogBuf
reset b = record b { off = 0 }

-- `Err` leaves the buffer as it was; the copy panics if its range is wrong.
unfoldable pub write_str : LogBuf → Bytes → Written LogBuf
write_str b s =
    let available = sub64 (sub64 (length b.buf) b.off) 1 in
    let end = add64 b.off (length s) in
    if ltb available (length s) then refused b else elim (copy_in b.buf b.off s end) [
      | some bytes ↦ written (record { buf = bytes; off = end })
      | none ↦ out_of_range
    ]

abbrev pub write_fmt : LogBuf → List Bytes → Written LogBuf
write_fmt = Text.write_fmt write_str
