-- ===== src/Kprobe/Tests.antt =====
-- The error 12 is injected into the task of the example kernel, whose pid is 7.
use rex_with_driver.Base.{◌≡◌, refl, [], ◌∷◌}
use rex_with_driver.Kernel.{Call, Cpu, done}
use rex_with_driver.Example.{idle, memory_values}
use rex_with_driver.Map.Tests.{loaded}
use rex_with_driver.Map.Contents.Tests.{keeper, keeper-Kept, contents, value_at}
use rex_with_driver.Kprobe.{PtRegs, err_injector}
use rex_with_driver.Kprobe.Injected.{errno_of, overridden, err_injector-overridden}

abbrev regs : PtRegs
regs = record {
  r15 = 0;
  r14 = 0;
  r13 = 0;
  r12 = 0;
  r11 = 0;
  r10 = 0;
  r9 = 0;
  r8 = 0;
  bp = 0;
  bx = 0;
  ax = 1;
  cx = 0;
  dx = 0;
  si = 0;
  di = 0;
  ip = 8192;
  sp = 0;
  orig_ax = 0;
  cs = 16;
  flags = 0;
  ss = 24;
}

-- The map has the error 12 for the pid 7.
abbrev cpu : Cpu
cpu = record idle {
  calls =
      Call.map_update_elem 256 (7 ∷ 0 ∷ 0 ∷ 0 ∷ []) (12 ∷ 0 ∷ 0 ∷ 0 ∷ 0 ∷ 0 ∷ 0 ∷ 0 ∷ []) 0 ∷ [];
}

err_injector-overridden_example :
    (t : Cpu) × (err_injector keeper value_at 4096 loaded regs cpu
      ≡ done (overridden 4096 regs (errno_of memory_values (contents cpu.calls))) t)
    × (contents t.calls ≡ contents cpu.calls)
unfolding keeper-Kept
err_injector-overridden_example =
    err_injector-overridden keeper loaded refl keeper-Kept 4096 regs cpu
