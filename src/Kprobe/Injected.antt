-- ===== src/Kprobe/Injected.antt =====
-- samples/error_injector/src/main.rs: which returns are overridden.
use rex_with_driver.Base.{
  ℕ, ◌≡◌, ◌==◌, refl, ap, sym, ◌∙◌, Option, none, some, false, if◌then◌else◌, inl, inr,
  Option-cases, Bool-cases,
}
use rex_with_driver.Kernel.{
  Bytes, Env, Call, Cpu, M, Outcome, done, landed, nested, bind, after_call, Memory,
}
use rex_with_driver.Termination.Laws.{outside}
use rex_with_driver.Utils.{Result, ok, err}
use rex_with_driver.Words.{to_le, of_le}
use rex_with_driver.BaseHelper.{RexMapHandle, bpf_map_lookup_elem}
use rex_with_driver.CurrentTask.{TaskStruct, get_current_task, get_pid}
use rex_with_driver.Map.Issues.{pointer, with_map-issue}
use rex_with_driver.Map.Contents.{Contents, Kept}
use rex_with_driver.Map.Contents.Replays.{issue-quiet}
use rex_with_driver.Kprobe.{PtRegs, bpf_override_return, cloned, injected, inject_for, err_injector}

-- What the map has for the current task's pid, an i32 in four bytes.
unfoldable pub errno_of : Memory → Contents → Option Bytes
errno_of m contents =
    if m.current_task == 0 then none else contents (to_le 4 (m.task m.current_task).pid)

-- The registers after a return with this error was asked for.
unfoldable pub overridden : ℕ → PtRegs → Option Bytes → Result × PtRegs
overridden just_return ctx none = (err 0, ctx)
overridden just_return ctx (some e) = (ok 0, record ctx { ax = of_le e; ip = just_return })

bind-bind :
    {A B C : Type 0} (o : Outcome A) (f : A → M B) (g : B → M C)
    → bind (bind o f) g ≡ bind o (λ a t. bind (f a t) g)
bind-bind (done a t) f g = refl
bind-bind (landed t) f g = refl
bind-bind (nested t) f g = refl

module _ (k : Env) (map : RexMapHandle) (loaded : (map.kptr == 0) ≡ false) (kept : Kept k map.kptr)
    (just_return : ℕ) where
  lookup-cloned :
      (key : Bytes) (s : Cpu)
      → (t : Cpu) × (bind (bpf_map_lookup_elem k map key s) (cloned k kept.value_at just_return map)
          ≡ done (kept.contents s.calls key) t)
        × (kept.contents t.calls ≡ kept.contents s.calls)
  unfolding cloned bpf_map_lookup_elem
  lookup-cloned key s =
      let c = Call.map_lookup_elem map.kptr key in
      let t = outside (after_call k c s) in
      let issued =
        with_map-issue k map none (λ p. Call.map_lookup_elem p key) pointer s
        ∙ issue-quiet k map none (λ p. Call.map_lookup_elem p key) pointer s loaded
            (kept.quiet s.calls c) in
      let reads = λ (o : Outcome (Option ℕ)). bind o (cloned k kept.value_at just_return map) in
      (
        t,
        elim (Option-cases (kept.contents s.calls key)) [
          | inl missing ↦
              let null = kept.lookup_missing s.calls key missing in
              ap reads (issued ∙ ap (λ n. done (if n == 0 then none else some n) t) null)
              ∙ ap (λ o. done o t) (sym missing)
          | inr (v, there) ↦
              let address = (k.kernel s.calls c).rax in
              let (some_address, holds) = kept.lookup_found s.calls key v there in
              ap reads (issued ∙ ap (λ b. done (if b then none else some address) t) some_address)
              ∙ ap (λ w. done (some w) t) holds
              ∙ ap (λ o. done o t) (sym there)
        ],
        kept.after_lookup s.calls key,
      )

  injected-overridden :
      (ctx : PtRegs) (o : Option Bytes)
      → injected k kept.value_at just_return map ctx o ≡ overridden just_return ctx o
  unfolding injected overridden bpf_override_return
  injected-overridden ctx none = refl
  injected-overridden ctx (some e) = refl

  -- The injector returns, and asks for an error exactly if the map has one for the pid of the current
  -- task: then `rax` is that error and `rip` the function that only returns, and every other register
  -- is as it was; else no register changes and the program returns Err(0). The map keeps its contents.
  -- It is to be loaded, the kernel to keep it as documented, and the timer not to fire.
  pub err_injector-overridden :
      (ctx : PtRegs) (s : Cpu)
      → (t : Cpu) × (err_injector k kept.value_at just_return map ctx s
          ≡ done
              (overridden just_return ctx (errno_of (k.memory s.calls) (kept.contents s.calls)))
              t)
        × (kept.contents t.calls ≡ kept.contents s.calls)
  unfolding err_injector inject_for get_current_task get_pid errno_of overridden
  err_injector-overridden ctx s =
      let m = k.memory s.calls in
      let key = to_le 4 (m.task m.current_task).pid in
      let (t, cloned_e, same) = lookup-cloned key s in
      let found = kept.contents s.calls key in
      let current : TaskStruct = record { kptr = m.current_task } in
      let choose = inject_for k kept.value_at just_return map ctx in
      let reply =
        λ (o : Option Bytes) (u : Cpu). done (injected k kept.value_at just_return map ctx o) u in
      elim (Bool-cases (m.current_task == 0)) [
        | inl null ↦ (
          s,
          ap (λ b. choose (if b then none else some current) s) null
              ∙ ap (λ b. done (overridden just_return ctx (if b then none else found)) s)
                  (sym null),
          refl,
        )
        | inr task ↦ (
          t,
          ap (λ b. choose (if b then none else some current) s) task
              ∙ sym (
                  bind-bind (bpf_map_lookup_elem k map key s)
                    (cloned k kept.value_at just_return map) reply)
              ∙ ap (λ o. bind o reply) cloned_e
              ∙ ap (λ r. done r t) (injected-overridden ctx found)
              ∙ ap (λ b. done (overridden just_return ctx (if b then none else found)) t)
                  (sym task),
          same,
        )
      ]
