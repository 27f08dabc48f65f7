-- ===== src/Ownership/Progress.antt =====
-- rex/src/panic.rs, spinlock.rs, task_struct.rs: no operation ends in a panic inside the panic
-- handler.
use rex_with_driver.Base.{
  ℕ, ◌≡◌, refl, sym, ap, subst, ◌∙◌, inl, inr, some, none, ◌==◌, if◌then◌else◌, Bool-cases,
  Option-cases, get_elem?, codes,
}
use rex_with_driver.Kernel.{
  Bytes, Env, Cpu, Call, Answer, CleanupFn, unlock_spinlock, release_task, M, Outcome, done, landed,
  bind, pure, ffi, after_call,
}
use rex_with_driver.Panic.{
  panic, register_cleanup, deregister_cleanup, rex_handle_timeout, object_count_exceeded,
  index_out_of_bounds,
}
use rex_with_driver.Panic.Handler.{Roomy, panic-Landing}
use rex_with_driver.Panic.Table.{register_cleanup_cases}
use rex_with_driver.Termination.{termination_check, checked_call}
use rex_with_driver.Termination.Laws.{
  inside, outside, Checked, in_time, timed_out, ended, double_fault, termination_check-Checked,
}
use rex_with_driver.Spinlock.{SpinlockGuard}
use rex_with_driver.Spinlock
use rex_with_driver.TaskStruct.{OwnedTaskStruct, own}
use rex_with_driver.TaskStruct

-- The code returns with the log as it was, or ends in the landing pad.
pub data Runs {ℓ} {A : Type ℓ} (s : Cpu) (o : Outcome A) : Type ℓ where
  returned : (a : A) (t : Cpu) → o ≡ done a t → t.log_buf ≡ s.log_buf → Runs s o
  left : (t : Cpu) → o ≡ landed t → Runs s o

module _ {ℓ} {A : Type ℓ} (k : Env) where
  panic-Runs : (text : Bytes) (s : Cpu) → Roomy s.log_buf → Runs {A = A} s (panic k text s)
  panic-Runs text s r = let (t, e, _) = panic-Landing {A = A} k text s r in left t e

  check-Runs :
      (func : M A) (s : Cpu)
      → Roomy s.log_buf
      → Runs (inside s) (func (inside s))
      → Runs s (termination_check k func s)
  unfolding rex_handle_timeout
  check-Runs func s r body = split body (termination_check-Checked k func s)
    where
      split :
          Runs (inside s) (func (inside s))
          → Checked k func s (termination_check k func s)
          → Runs s (termination_check k func s)
      split (returned a t e same) (in_time b u e' late out) =
          returned b (outside u) out
            (let reached : t ≡ u = cc in ap (λ c. c.log_buf) (sym reached) ∙ same)
      split (returned a t e same) (timed_out b u e' late out) =
          let reached : t ≡ u = cc in
          let room = subst Roomy (sym (ap (λ c. c.log_buf) (sym reached) ∙ same)) r in
          let (v, e2, _) = panic-Landing {A = A} k (codes "Timeout in Rex program") u room in
          left v (out ∙ e2)
      split (returned a t e same) (ended u e' out) = left u out
      split (returned a t e same) (double_fault u e' out) = absurd (cc)
      split (left t e) (in_time b u e' late out) = absurd (cc)
      split (left t e) (timed_out b u e' late out) = absurd (cc)
      split (left t e) (ended u e' out) = left u out
      split (left t e) (double_fault u e' out) = absurd (cc)

bind-Runs {ℓ κ} :
    {A : Type ℓ} {B : Type κ} {s : Cpu} (o : Outcome A) (f : A → M B)
    → Runs s o
    → ((a : A) (t : Cpu) → t.log_buf ≡ s.log_buf → Runs t (f a t))
    → Runs s (bind o f)
bind-Runs {s} o f (left t e) rest = left t (rw e refl)
bind-Runs {s} o f (returned a t e same) rest = split (rest a t same)
  where
    split : Runs t (f a t) → Runs s (bind o f)
    split (returned b u e' same') = returned b u (rw e e') (same' ∙ same)
    split (left u e') = left u (rw e e')

module _ (k : Env) where
  register_cleanup-Runs :
      (f : CleanupFn) (arg : ℕ) (s : Cpu) → Roomy s.log_buf → Runs s (register_cleanup k f arg s)
  register_cleanup-Runs f arg s r = elim (register_cleanup_cases k f arg s) [
    | inl (i, v, e) ↦ returned i _ e refl
    | inr (all, e) ↦ subst (Runs s) (sym e) (panic-Runs k object_count_exceeded s r)
  ]

  deregister_cleanup-Runs : (i : ℕ) (s : Cpu) → Roomy s.log_buf → Runs s (deregister_cleanup k i s)
  unfolding deregister_cleanup
  deregister_cleanup-Runs i s r = elim (Option-cases (get_elem? s.cleanup_entries i)) [
    | inl e ↦ rw (e, deregister_cleanup) (panic-Runs k index_out_of_bounds s r)
    | inr (x, e) ↦ rw (e, deregister_cleanup) (returned tt _ refl refl)
  ]

  ffi-Runs : (c : Call) (s : Cpu) → Runs s (ffi k c s)
  ffi-Runs c s = returned (k.kernel s.calls c) (after_call k c s) refl refl

  -- One call whose answer is not looked at.
  then-Runs {ℓ} :
      {A : Type ℓ} (c : Call) (a : A) (s : Cpu) → Runs s (bind (ffi k c s) (λ _. pure a))
  then-Runs c a s = returned a (after_call k c s) refl refl

  own-Runs : (task : ℕ) (s : Cpu) → Roomy s.log_buf → Runs s (own k task s)
  unfolding own
  own-Runs task s r =
      bind-Runs (register_cleanup k release_task task s) (λ i. pure (some _))
        (register_cleanup-Runs release_task task s r) (λ i t same. returned _ t refl refl)

  found-Runs :
      (a : Answer) (s : Cpu)
      → Roomy s.log_buf
      → Runs s ((if a.rax == 0 then pure none else own k a.rax) s)
  found-Runs a s r = elim (Bool-cases (a.rax == 0)) [
    | inl null ↦ rw null (returned none s refl refl)
    | inr found ↦ rw found (own-Runs a.rax s r)
  ]

  lookup-Runs : (pid : ℕ) (s : Cpu) → Roomy s.log_buf → Runs s (TaskStruct.acquire k pid s)
  unfolding TaskStruct.acquire
  lookup-Runs pid s r =
      bind-Runs (ffi k (Call.task_from_pid pid) s) _ (ffi-Runs (Call.task_from_pid pid) s)
        (λ a t same. found-Runs a t (subst Roomy (sym same) r))

  -- From a CPU whose log holds the fallback message, taking and dropping a lock, looking up and
  -- dropping a task, and any checked call of the kernel either return, with the log as it was, or
  -- end in the landing pad: never in a panic inside the panic handler, whatever the table holds,
  -- whatever the kernel answers and whenever the timer fires.
  pub operations-Runs :
      (s : Cpu)
      → Roomy s.log_buf
      → (addr pid : ℕ) (g : SpinlockGuard) (o : OwnedTaskStruct) (c : Call)
      → Runs s (Spinlock.new k addr s)
        × Runs s (Spinlock.drop k g s)
        × Runs s (TaskStruct.from_pid k pid s)
        × Runs s (TaskStruct.drop k o s)
        × Runs s (checked_call k c s)
  unfolding Spinlock.new Spinlock.acquire Spinlock.drop Spinlock.release TaskStruct.from_pid
      TaskStruct.drop TaskStruct.release checked_call
  operations-Runs s r addr pid g o c = (
    check-Runs k (Spinlock.acquire k addr) s r (
        bind-Runs (register_cleanup k unlock_spinlock addr (inside s)) _
          (register_cleanup-Runs unlock_spinlock addr (inside s) r)
          (λ i t same. then-Runs (Call.spin_lock addr) _ t)),
    check-Runs k (Spinlock.release k g) s r (
        bind-Runs (deregister_cleanup k g.cleanup_idx (inside s)) _
          (deregister_cleanup-Runs g.cleanup_idx (inside s) r)
          (λ _ t same. then-Runs (Call.spin_unlock g.lock) tt t)),
    check-Runs k (TaskStruct.acquire k pid) s r (lookup-Runs pid (inside s) r),
    check-Runs k (TaskStruct.release k o) s r (
        bind-Runs (deregister_cleanup k o.cleanup_idx (inside s)) _
          (deregister_cleanup-Runs o.cleanup_idx (inside s) r)
          (λ _ t same. then-Runs (Call.task_release o.kptr) tt t)),
    check-Runs k (ffi k c) s r (ffi-Runs c (inside s)),
  )
