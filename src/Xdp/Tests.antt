-- ===== src/Xdp/Tests.antt =====
-- The XDP context of the example kernel.
use rex_with_driver.Base.{arith}
use rex_with_driver.Kernel.{Call}
use rex_with_driver.Xdp.{XdpMd, bpf_xdp_adjust_tail}
use rex_with_driver.Xdp.Slices.{Ordered, Adjusted, bpf_xdp_adjust_tail-Adjusted}
use rex_with_driver.Example.{quiet, idle}

quiet-Ordered : Ordered quiet 512
quiet-Ordered cs = omega arith

-- A context whose slice is out of date.
abbrev stale : XdpMd
stale = record { data_slice = record { start = 8192; len = 10 }; kptr = 512 }

bpf_xdp_adjust_tail-Adjusted_example :
    Adjusted quiet stale (Call.xdp_adjust_tail 512 8) idle (bpf_xdp_adjust_tail quiet stale 8 idle)
bpf_xdp_adjust_tail-Adjusted_example = bpf_xdp_adjust_tail-Adjusted quiet stale 8 idle quiet-Ordered
