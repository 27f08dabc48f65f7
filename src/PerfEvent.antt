-- ===== src/PerfEvent.antt =====
-- rex/src/perf_event/perf_event_impl.rs and rex/src/tracepoint/tp_impl.rs: the helpers of the two
-- program types, and `RexPerfEventArray::output` of rex/src/map.rs, which calls the latter.
pub mod Issues
pub mod Tests
use rex_with_driver.Base.{ℕ, ◌%◌, ◌^◌}
use rex_with_driver.Kernel.{Bytes, Env, Call, M, pure, ◌>>=◌}
use rex_with_driver.Termination.{checked_call}
use rex_with_driver.Utils.{Result, err, to_result, PerfEventMaskedCpu}
use rex_with_driver.BaseHelper.{RexMapHandle, with_map}

module _ (k : Env) where
  -- `size` is that of the kernel's `bpf_perf_event_value`. What is returned besides is `buf`.
  unfoldable pub bpf_perf_prog_read_value : ℕ → ℕ → M (Result × Bytes)
  bpf_perf_prog_read_value size ctx = do
    ret ← checked_call k (Call.perf_prog_read_value ctx (size % 2 ^ 32))
    pure (to_result 64 ret.rax, ret.out)

  unfoldable pub bpf_get_stackid_pe : ℕ → RexMapHandle → ℕ → M Result
  bpf_get_stackid_pe ctx map flags = with_map k map (err k.uapi.einval) λ kptr. do
    ret ← checked_call k (Call.get_stackid_pe ctx kptr flags)
    pure (to_result 64 ret.rax)

  -- `output_event` of a tracepoint does not look whether the map is loaded.
  unfoldable pub output_event : ℕ → RexMapHandle → Bytes → PerfEventMaskedCpu → M Result
  output_event ctx map value cpu = do
    ret ← checked_call k (Call.perf_event_output_tp ctx map.kptr cpu.masked_cpu value)
    pure (to_result 64 ret.rax)

  unfoldable pub perf_output : RexMapHandle → ℕ → Bytes → PerfEventMaskedCpu → M Result
  perf_output map ctx value cpu = output_event ctx map value cpu
