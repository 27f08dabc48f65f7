-- ===== src/PerfEvent/Issues.antt =====
-- rex/src/perf_event/perf_event_impl.rs and rex/src/tracepoint/tp_impl.rs: which kernel call each
-- helper makes.
use rex_with_driver.Base.{
  ℕ, ◌%◌, ◌^◌, ◌≡◌, ap, ◌∙◌, sym, if◌then◌else◌, inl, inr, Bool-cases, if_true, if_false,
}
use rex_with_driver.Kernel.{Bytes, Env, Cpu, Call, Answer, M, Outcome, done, after_call, bind, pure}
use rex_with_driver.Panic.{rex_handle_timeout}
use rex_with_driver.Termination.{checked_call}
use rex_with_driver.Termination.Laws.{
  inside, outside, checked_call-replied, checked_call-expired, bind-handle_timeout,
}
use rex_with_driver.Utils.{Result, err, to_result, PerfEventMaskedCpu}
use rex_with_driver.BaseHelper.{RexMapHandle}
use rex_with_driver.Map.Issues.{issue, with_map-issue}
use rex_with_driver.PerfEvent.{
  bpf_perf_prog_read_value, bpf_get_stackid_pe, output_event, perf_output,
}

-- What one kernel call comes to: it is made once and its answer decoded, with the flag cleared; if
-- the timer fires meanwhile, the timeout handler runs.
pub ask {ℓ} : {A : Type ℓ} → Env → Call → (Answer → A) → Cpu → Outcome A
ask k c decode s =
    if (k.kernel s.calls c).timeout
    then rex_handle_timeout k (after_call k c (inside s))
    else done (decode (k.kernel s.calls c)) (outside (after_call k c s))

bind-checked_call {ℓ} :
    {A : Type ℓ} (k : Env) (c : Call) (decode : Answer → A) (s : Cpu)
    → bind (checked_call k c s) (λ a. pure (decode a)) ≡ ask k c decode s
unfolding ask
bind-checked_call {A} k c decode s = elim (Bool-cases (k.kernel s.calls c).timeout) [
  | inl late ↦
      ap (λ o. bind o reply) (checked_call-expired k c s late)
      ∙ bind-handle_timeout k reply (after_call k c (inside s))
      ∙ sym (if_true _ _ late)
  | inr soon ↦ ap (λ o. bind o reply) (checked_call-replied k c s soon) ∙ sym (if_false _ _ soon)
]
  where
    reply : Answer → M A
    reply a = pure (decode a)

abbrev pub long_value : Answer → Result
long_value a = to_result 64 a.rax

module _ (k : Env) (s : Cpu) (ctx : ℕ) where
  -- Each helper of the perf event and tracepoint programs makes its own kernel call once and
  -- decodes its 64-bit answer, or ends in the timeout handler. The stack helper makes none on a
  -- map that is not loaded; the output of a tracepoint does not look, and hands the kernel a null
  -- pointer then.
  pub perf_issue :
      (size : ℕ) (map : RexMapHandle) (flags : ℕ) (value : Bytes) (cpu : PerfEventMaskedCpu)
      → (bpf_perf_prog_read_value k size ctx s
          ≡ ask k (Call.perf_prog_read_value ctx (size % 2 ^ 32)) (λ a. (long_value a, a.out)) s)
        × (bpf_get_stackid_pe k ctx map flags s
            ≡ issue k map (err k.uapi.einval) (λ p. Call.get_stackid_pe ctx p flags) long_value s)
        × (perf_output k map ctx value cpu s
            ≡ ask k (Call.perf_event_output_tp ctx map.kptr cpu.masked_cpu value) long_value s)
  unfolding bpf_perf_prog_read_value bpf_get_stackid_pe output_event perf_output
  perf_issue size map flags value cpu = (
    bind-checked_call k (Call.perf_prog_read_value ctx (size % 2 ^ 32)) (λ a. (long_value a, a.out))
        s,
    with_map-issue k map (err k.uapi.einval) (λ p. Call.get_stackid_pe ctx p flags) long_value s,
    bind-checked_call k (Call.perf_event_output_tp ctx map.kptr cpu.masked_cpu value) long_value s,
  )
