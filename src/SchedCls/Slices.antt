-- ===== src/SchedCls/Slices.antt =====
-- rex/src/sched_cls/sched_cls_impl.rs: the slices that the two operations take of one buffer.
use rex_with_driver.Base.{
  ℕ, ◌+◌, ◌%◌, ◌^◌, ◌≤◌, ◌<◌, ◌≡◌, refl, ap, ◌∙◌, false, arith, ◌==◌, if◌then◌else◌,
}
use rex_with_driver.Kernel.{Env, Cpu, Call, Answer, SkBuff, done, after_call, bind, M, pure}
use rex_with_driver.Termination.Laws.{outside, checked_call-replied}
use rex_with_driver.Utils.{Result, ok, err}
use rex_with_driver.SchedCls.{
  SkBuffMd, linear_slice, whole_slice, convert_ctx, refresh, bpf_clone_redirect,
}

abbrev pub redirect_call : SkBuffMd → ℕ → ℕ → Call
redirect_call skb ifindex flags = Call.clone_redirect skb.kptr ifindex flags

-- The buffer as the kernel leaves it after the call.
abbrev pub buffer_after : Env → SkBuffMd → ℕ → ℕ → Cpu → SkBuff
buffer_after k skb ifindex flags s =
    (k.memory (after_call k (redirect_call skb ifindex flags) s).calls).skb skb.kptr

-- A redirect that succeeds leaves the program a slice that is longer than the linear part of the
-- buffer, the slice that `convert_ctx` takes of the same buffer, by the bytes outside it. The
-- timer is not to fire during the call, and the kernel's lengths are to be in order.
pub clone_redirect_overruns :
    (k : Env) (skb : SkBuffMd) (ifindex flags : ℕ) (s : Cpu)
    → (k.kernel s.calls (redirect_call skb ifindex flags)).timeout ≡ false
    → (k.kernel s.calls (redirect_call skb ifindex flags)).rax % 2 ^ 32 ≡ 0
    → (buffer_after k skb ifindex flags s).data_len ≤ (buffer_after k skb ifindex flags s).len
    → (buffer_after k skb ifindex flags s).len < 2 ^ 32
    → let t = after_call k (redirect_call skb ifindex flags) s in
      (skb' : SkBuffMd) × (fresh : SkBuffMd) × (bpf_clone_redirect k skb ifindex flags s
        ≡ done (ok 0, skb') (outside t))
      × (convert_ctx k skb.kptr t ≡ done fresh t)
      × (skb'.data_slice.start ≡ fresh.data_slice.start)
      × (skb'.data_slice.len ≡ fresh.data_slice.len + (buffer_after k skb ifindex flags s).data_len)
unfolding bpf_clone_redirect refresh convert_ctx
clone_redirect_overruns k skb ifindex flags s soon good inside small = (
  record skb { data_slice = whole_slice buffer },
  record { data_slice = linear_slice buffer; kptr = skb.kptr },
  ap (λ o. bind o reply) (checked_call-replied k c s soon) ∙ rw good refl,
  refl,
  refl,
  omega (arith, inside, small),
)
  where
    c : Call
    c = Call.clone_redirect skb.kptr ifindex flags

    buffer : SkBuff
    buffer = (k.memory (after_call k c s).calls).skb skb.kptr

    reply : Answer → M (Result × SkBuffMd)
    reply a = if a.rax % 2 ^ 32 == 0 then refresh k skb else pure (err (a.rax % 2 ^ 32), skb)
