-- ===== src/SchedCls.antt =====
-- rex/src/sched_cls/sched_cls_impl.rs: the context of a traffic control program and the slice over
-- its packet.
pub mod Slices
pub mod Tests
use rex_with_driver.Base.{ℕ, ◌+◌, ◌-◌, ◌%◌, ◌^◌, ◌==◌, if◌then◌else◌}
use rex_with_driver.Kernel.{Env, Call, SkBuff, Slice, M, pure, peek_memory, ◌>>=◌}
use rex_with_driver.Termination.{checked_call}
use rex_with_driver.Utils.{Result, ok, err}

-- `__sk_buff`
pub record SkBuffMd : Type 0 where
  pub data_slice : Slice
  pub kptr : ℕ

-- The slice that `convert_ctx` takes: `len - data_len` bytes, on u32.
abbrev pub linear_slice : SkBuff → Slice
linear_slice b = record { start = b.data_ptr; len = (b.len + 2 ^ 32 - b.data_len) % 2 ^ 32 }

-- The slice that `bpf_clone_redirect` takes: `len` bytes.
abbrev pub whole_slice : SkBuff → Slice
whole_slice b = record { start = b.data_ptr; len = b.len }

abbrev md_of : ℕ → SkBuff → SkBuffMd
md_of kptr b = record { data_slice = linear_slice b; kptr = kptr }

module _ (k : Env) where
  unfoldable pub convert_ctx : ℕ → M SkBuffMd
  convert_ctx ctx = do kptr ← peek_memory k (λ m. m.skb ctx); pure (md_of ctx kptr)

  -- The success branch of `bpf_clone_redirect`.
  unfoldable pub refresh : SkBuffMd → M (Result × SkBuffMd)
  refresh skb = do
    kptr ← peek_memory k (λ m. m.skb skb.kptr)
    pure (ok 0, record skb { data_slice = whole_slice kptr })

  unfoldable pub bpf_clone_redirect : SkBuffMd → ℕ → ℕ → M (Result × SkBuffMd)
  bpf_clone_redirect skb ifindex flags = do
    answer ← checked_call k (Call.clone_redirect skb.kptr ifindex flags)
    if answer.rax % 2 ^ 32 == 0 then refresh skb else pure (err (answer.rax % 2 ^ 32), skb)
