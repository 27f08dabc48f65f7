-- ===== src/Printk.antt =====
-- rex/src/log.rs, `rex_trace_printk`.
pub mod Printed
pub mod Tests
use rex_with_driver.Base.{ℕ, ◌-◌, ◌%◌, ◌^◌, List}
use rex_with_driver.Kernel.{Bytes, Env, Cpu, Call, M, pure, done, ◌>>=◌}
use rex_with_driver.Text.{Written, written, refused, out_of_range}
use rex_with_driver.Log.{LogBuf}
use rex_with_driver.Log
use rex_with_driver.Panic.{panic, index_out_of_bounds}
use rex_with_driver.Termination.{checked_call}
use rex_with_driver.Utils.{Result, ok, err}

-- The pattern of `-(e as i32)`.
abbrev pub negated : ℕ → ℕ
negated e = (2 ^ 32 - e) % 2 ^ 32

abbrev pub with_log : Cpu → LogBuf → Cpu
with_log s b = record s { log_buf = b.buf }

unfoldable pub print_log : Env → M Result
print_log k = do _ ← checked_call k Call.trace_printk; pure (ok 0)

-- `args` is the formatted text in the pieces that `core` hands to the writer.
unfoldable pub rex_trace_printk : Env → List Bytes → M Result
rex_trace_printk k args s = elim (Log.write_fmt (Log.new s.log_buf) args) [
  | written b ↦ print_log k (with_log s b)
  | refused b ↦ done (err (negated k.uapi.e2_big)) (with_log s b)
  | out_of_range ↦ panic k index_out_of_bounds s
]
