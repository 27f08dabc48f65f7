-- ===== src/Xdp.antt =====
-- rex/src/xdp/xdp_impl.rs: the context of an XDP program and the slice over its packet.
pub mod Slices
pub mod Tests
use rex_with_driver.Base.{ℕ, ◌%◌, ◌^◌, ◌==◌, if◌then◌else◌}
use rex_with_driver.Kernel.{Env, Call, XdpBuff, Slice, M, pure, peek_memory, sub64, ◌>>=◌}
use rex_with_driver.Termination.{checked_call}
use rex_with_driver.Utils.{Result, ok, err}

-- `xdp_md`
pub record XdpMd : Type 0 where
  pub data_slice : Slice
  pub kptr : ℕ

-- `from_raw_parts_mut(kptr.data, kptr.data_end - kptr.data)`
abbrev pub slice_of : XdpBuff → Slice
slice_of b = record { start = b.data_ptr; len = sub64 b.data_end b.data_ptr }

abbrev md_of : ℕ → XdpBuff → XdpMd
md_of kptr b = record { data_slice = slice_of b; kptr = kptr }

module _ (k : Env) where
  unfoldable pub convert_ctx : ℕ → M XdpMd
  convert_ctx ctx = do kptr ← peek_memory k (λ m. m.xdp ctx); pure (md_of ctx kptr)

  -- The success branch of `bpf_xdp_adjust_tail`: the slice is taken again.
  unfoldable pub refresh : XdpMd → M (Result × XdpMd)
  refresh ctx = do
    kptr ← peek_memory k (λ m. m.xdp ctx.kptr)
    pure (ok 0, record ctx { data_slice = slice_of kptr })

  -- The offset and the result are i32 patterns.
  unfoldable pub bpf_xdp_adjust_tail : XdpMd → ℕ → M (Result × XdpMd)
  bpf_xdp_adjust_tail ctx offset = do
    answer ← checked_call k (Call.xdp_adjust_tail ctx.kptr offset)
    if answer.rax % 2 ^ 32 == 0 then refresh ctx else pure (err (answer.rax % 2 ^ 32), ctx)
