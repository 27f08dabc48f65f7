-- ===== src/Xdp/Slices.antt =====
-- rex/src/xdp/xdp_impl.rs: the slice of an XDP context is the packet that the kernel has.
use rex_with_driver.Base.{
  false, ℕ, ◌+◌, ◌%◌, ◌^◌, ◌≤◌, ◌<◌, ◌≡◌, ◌≢◌, refl, ap, ◌∙◌, List, true, arith, ◌==◌, inl, inr,
  Bool-cases, ==_iff, if◌then◌else◌,
}
use rex_with_driver.Kernel.{Env, Cpu, Call, Answer, Outcome, done, after_call, bind, M, pure}
use rex_with_driver.Panic.{rex_handle_timeout}
use rex_with_driver.Termination.Laws.{
  inside, outside, checked_call-replied, checked_call-expired, bind-handle_timeout,
}
use rex_with_driver.Utils.{Result, ok, err}
use rex_with_driver.Xdp.{XdpMd, slice_of, convert_ctx, refresh, bpf_xdp_adjust_tail}

-- The kernel keeps the ends of a buffer in order.
abbrev pub Ordered : Env → ℕ → Type 0
Ordered k kptr =
    (cs : List Call)
    → (((k.memory cs).xdp kptr).data_ptr ≤ ((k.memory cs).xdp kptr).data_end)
      × (((k.memory cs).xdp kptr).data_end < 2 ^ 64)

-- The slice begins and ends where the kernel's packet does.
pub record Covers (k : Env) (s : Cpu) (ctx : XdpMd) : Type 0 where
  pub begins : ctx.data_slice.start ≡ ((k.memory s.calls).xdp ctx.kptr).data_ptr
  pub ends : ctx.data_slice.start + ctx.data_slice.len ≡ ((k.memory s.calls).xdp ctx.kptr).data_end

-- The context that a program is handed covers the kernel's packet, if the kernel keeps the ends of
-- the buffer in order.
pub convert_ctx-Covers :
    (k : Env) (kptr : ℕ) (s : Cpu)
    → Ordered k kptr
    → (ctx : XdpMd) × (convert_ctx k kptr s ≡ done ctx s) × (ctx.kptr ≡ kptr) × Covers k s ctx
unfolding convert_ctx
convert_ctx-Covers k kptr s ordered =
    let (below, small) = ordered s.calls in
    (
      record { data_slice = slice_of ((k.memory s.calls).xdp kptr); kptr = kptr },
      refl,
      refl,
      record { begins = refl; ends = omega (arith, below, small) },
    )

-- How an adjustment ends.
pub data Adjusted (k : Env) (ctx : XdpMd) (c : Call) (s : Cpu) (r : Outcome (Result × XdpMd))
    : Type 0 where
  moved :
      (ctx' : XdpMd)
      → (k.kernel s.calls c).timeout ≡ false
      → (k.kernel s.calls c).rax % 2 ^ 32 ≡ 0
      → r ≡ done (ok 0, ctx') (outside (after_call k c s))
      → ctx'.kptr ≡ ctx.kptr
      → Covers k (after_call k c s) ctx'
      → Adjusted k ctx c s r
  refused :
      (k.kernel s.calls c).timeout ≡ false
      → (k.kernel s.calls c).rax % 2 ^ 32 ≢ 0
      → r ≡ done (err ((k.kernel s.calls c).rax % 2 ^ 32), ctx) (outside (after_call k c s))
      → Adjusted k ctx c s r
  expired :
      (k.kernel s.calls c).timeout ≡ true
      → r ≡ rex_handle_timeout k (after_call k c (inside s))
      → Adjusted k ctx c s r

-- Moving the tail of a packet asks the kernel once. If the timer fires during the call, the timeout
-- handler runs, whatever the kernel answered. If it does not, and the kernel agrees, the slice is
-- taken again and covers the packet that the kernel now has; if the kernel refuses, its error is
-- returned and the context kept. The kernel is to keep the ends of the buffer in order.
pub bpf_xdp_adjust_tail-Adjusted :
    (k : Env) (ctx : XdpMd) (offset : ℕ) (s : Cpu)
    → Ordered k ctx.kptr
    → Adjusted k ctx (Call.xdp_adjust_tail ctx.kptr offset) s (bpf_xdp_adjust_tail k ctx offset s)
unfolding bpf_xdp_adjust_tail refresh
bpf_xdp_adjust_tail-Adjusted k ctx offset s ordered = elim (Bool-cases answer.timeout) [
  | inl late ↦ expired late (
      ap (λ o. bind o reply) (checked_call-expired k c s late)
      ∙ bind-handle_timeout k reply (after_call k c (inside s)))
  | inr soon ↦ elim (Bool-cases (answer.rax % 2 ^ 32 == 0)) [
    | inl good ↦
        moved (record ctx { data_slice = slice_of ((k.memory called.calls).xdp ctx.kptr) }) soon
          ((==_iff (answer.rax % 2 ^ 32) 0).0 good)
          (ap (λ o. bind o reply) (checked_call-replied k c s soon) ∙ rw good refl) refl
          (let (below, small) = ordered called.calls in
            record { begins = refl; ends = omega (arith, below, small) })
    | inr bad ↦
        refused soon (ground (arith, bad))
          (ap (λ o. bind o reply) (checked_call-replied k c s soon) ∙ rw bad refl)
  ]
]
  where
    c : Call
    c = Call.xdp_adjust_tail ctx.kptr offset

    answer : Answer
    answer = k.kernel s.calls c

    called : Cpu
    called = after_call k c s

    reply : Answer → M (Result × XdpMd)
    reply a = if a.rax % 2 ^ 32 == 0 then refresh k ctx else pure (err (a.rax % 2 ^ 32), ctx)
