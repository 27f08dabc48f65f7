-- ===== src/PerfEvent/Tests.antt =====
-- The helpers of perf event and tracepoint programs, on a map that is not loaded.
use rex_with_driver.Base.{◌%◌, ◌^◌, ◌≡◌, [], ◌∷◌}
use rex_with_driver.Kernel.{Call}
use rex_with_driver.Utils.{err, PerfEventMaskedCpu}
use rex_with_driver.BaseHelper.{RexMapHandle}
use rex_with_driver.Map.Issues.{issue}
use rex_with_driver.PerfEvent.{bpf_perf_prog_read_value, bpf_get_stackid_pe, perf_output}
use rex_with_driver.PerfEvent.Issues.{ask, long_value, perf_issue}
use rex_with_driver.Example.{quiet, idle}

abbrev unloaded : RexMapHandle
unloaded = record { map_type = 4; key_size = 4; val_size = 8; max_size = 8; map_flag = 0; kptr = 0 }

abbrev any_one : PerfEventMaskedCpu
any_one = record { masked_cpu = 4294967295 }

perf_issue_example :
    (bpf_perf_prog_read_value quiet 24 640 idle
      ≡ ask quiet (Call.perf_prog_read_value 640 (24 % 2 ^ 32)) (λ a. (long_value a, a.out)) idle)
    × (bpf_get_stackid_pe quiet 640 unloaded 0 idle
        ≡ issue quiet unloaded (err 22) (λ p. Call.get_stackid_pe 640 p 0) long_value idle)
    × (perf_output quiet unloaded 640 (1 ∷ []) any_one idle
        ≡ ask quiet (Call.perf_event_output_tp 640 0 4294967295 (1 ∷ [])) long_value idle)
perf_issue_example = perf_issue quiet idle 640 24 unloaded 0 (1 ∷ []) any_one
