-- ===== src/SchedCls/Tests.antt =====
-- The socket buffer of the example kernel, of 100 bytes with 40 outside its linear part.
use rex_with_driver.Base.{◌+◌, ◌≡◌, refl, arith}
use rex_with_driver.Kernel.{done, after_call}
use rex_with_driver.Termination.Laws.{outside}
use rex_with_driver.Utils.{ok}
use rex_with_driver.SchedCls.{SkBuffMd, convert_ctx, bpf_clone_redirect}
use rex_with_driver.SchedCls.Slices.{redirect_call, clone_redirect_overruns}
use rex_with_driver.Example.{quiet, idle}

abbrev skb : SkBuffMd
skb = record { data_slice = record { start = 8192; len = 60 }; kptr = 512 }

clone_redirect_overruns_example :
    (skb' : SkBuffMd) × (fresh : SkBuffMd) × (bpf_clone_redirect quiet skb 2 0 idle
      ≡ done (ok 0, skb') (outside (after_call quiet (redirect_call skb 2 0) idle)))
    × (convert_ctx quiet 512 (after_call quiet (redirect_call skb 2 0) idle)
        ≡ done fresh (after_call quiet (redirect_call skb 2 0) idle))
    × (skb'.data_slice.start ≡ fresh.data_slice.start)
    × (skb'.data_slice.len ≡ fresh.data_slice.len + 40)
clone_redirect_overruns_example =
    clone_redirect_overruns quiet skb 2 0 idle refl refl (omega arith) (omega arith)
