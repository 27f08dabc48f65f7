-- ===== src/Ownership/Operations.antt =====
-- What the constructors and `drop` handlers of rex/src/spinlock.rs and rex/src/task_struct.rs do to
-- the table and the tally of calls.
use rex_with_driver.Base.{
  ℕ, ◌≡◌, ◌≢◌, refl, Option, some, none, arith, get_elem?, length, ◌<◌, ◌==◌, ==_iff, false,
  Bool-cases, inl, inr,
}
use rex_with_driver.Kernel.{
  Env, Cpu, Call, unlock_spinlock, release_task, done, Outcome, after_call,
}
use rex_with_driver.Panic.{new_entry, panic, object_count_exceeded}
use rex_with_driver.Panic.Table.{
  Occupied, register_cleanup_cases, deregister_cleanup-in_range, bind-panic, register_cleanup-full,
}
use rex_with_driver.Spinlock.{SpinlockGuard}
use rex_with_driver.Spinlock
use rex_with_driver.TaskStruct.{OwnedTaskStruct}
use rex_with_driver.TaskStruct
use rex_with_driver.Ownership.Tally.{
  filled, freed, spin_lock-Took, task_from_pid-Took, task_from_pid-Kept, release_call-Gave,
}
use rex_with_driver.Ownership.Invariant.{Took, Gave, Kept}

-- How the body of `rex_spinlock_guard::new` ends: the lock is held by the guard at the first vacant
-- slot, or the table was full and nothing was locked.
pub data Locked (k : Env) (lock : ℕ) (s : Cpu) (r : Outcome SpinlockGuard) : Type 0 where
  holding :
      (g : SpinlockGuard) (t : Cpu)
      → r ≡ done g t
      → g.lock ≡ lock
      → Took k unlock_spinlock g.lock g.cleanup_idx s t
      → Locked k lock s r
  full : r ≡ panic k object_count_exceeded s → Locked k lock s r

pub acquire-Locked : (k : Env) (lock : ℕ) (s : Cpu) → Locked k lock s (Spinlock.acquire k lock s)
unfolding Spinlock.acquire
acquire-Locked k lock s = elim (register_cleanup_cases k unlock_spinlock lock s) [
  | inl (i, v, e) ↦
      holding (record { lock = lock; cleanup_idx = i })
        (after_call k (Call.spin_lock lock) (filled unlock_spinlock lock i s)) (rw e refl) refl
        (spin_lock-Took k lock i s v)
  | inr (all, e) ↦ full (rw e (bind-panic k object_count_exceeded _ s))
]

-- How the body of `OwnedTaskStruct::from_pid` ends: the reference is owned, or there is no such
-- task, or the table was full and the reference that the lookup returned is lost.
pub data Looked (k : Env) (pid : ℕ) (s : Cpu) (r : Outcome (Option OwnedTaskStruct)) : Type 0 where
  owning :
      (o : OwnedTaskStruct) (t : Cpu)
      → r ≡ done (some o) t
      → Took k release_task o.kptr o.cleanup_idx s t
      → Looked k pid s r
  absent : (t : Cpu) → r ≡ done none t → Kept k s t → Looked k pid s r
  full :
      (k.kernel s.calls (Call.task_from_pid pid)).rax ≢ 0
      → ((j : ℕ) → j < length s.cleanup_entries → Occupied s.cleanup_entries j)
      → r ≡ panic k object_count_exceeded (after_call k (Call.task_from_pid pid) s)
      → Looked k pid s r

pub acquire-Looked : (k : Env) (pid : ℕ) (s : Cpu) → Looked k pid s (TaskStruct.acquire k pid s)
unfolding TaskStruct.acquire TaskStruct.own
acquire-Looked k pid s = elim (Bool-cases (task == 0)) [
  | inl none_found ↦
      absent called (rw none_found refl) (task_from_pid-Kept k pid s ((==_iff task 0).0 none_found))
  | inr found ↦ elim (register_cleanup_cases k release_task task called) [
    | inl (i, v, e) ↦
        owning (record { kptr = task; cleanup_idx = i }) (filled release_task task i called)
          (rw (found, e) refl) (task_from_pid-Took k pid task i s refl (ground arith) v)
    | inr (all, e) ↦
        full (ground arith) all (rw (found, e) (bind-panic k object_count_exceeded _ called))
  ]
]
  where
    task : ℕ
    task = (k.kernel s.calls (Call.task_from_pid pid)).rax

    called : Cpu
    called = after_call k (Call.task_from_pid pid) s

-- The body of each `drop` gives the resource back and frees its slot.
pub release_lock-Gave :
    (k : Env) (g : SpinlockGuard) (s : Cpu)
    → get_elem? s.cleanup_entries g.cleanup_idx ≡ some (new_entry unlock_spinlock g.lock)
    → (t : Cpu) × (Spinlock.release k g s ≡ done tt t)
      × Gave k unlock_spinlock g.lock g.cleanup_idx s t
unfolding Spinlock.release
release_lock-Gave k g s h = (
  after_call k (Call.spin_unlock g.lock) (freed unlock_spinlock g.lock g.cleanup_idx s),
  rw (deregister_cleanup-in_range k g.cleanup_idx s h) refl,
  release_call-Gave k unlock_spinlock g.lock g.cleanup_idx s,
)

pub release_owned-Gave :
    (k : Env) (o : OwnedTaskStruct) (s : Cpu)
    → get_elem? s.cleanup_entries o.cleanup_idx ≡ some (new_entry release_task o.kptr)
    → (t : Cpu) × (TaskStruct.release k o s ≡ done tt t)
      × Gave k release_task o.kptr o.cleanup_idx s t
unfolding TaskStruct.release
release_owned-Gave k o s h = (
  after_call k (Call.task_release o.kptr) (freed release_task o.kptr o.cleanup_idx s),
  rw (deregister_cleanup-in_range k o.cleanup_idx s h) refl,
  release_call-Gave k release_task o.kptr o.cleanup_idx s,
)

-- With every slot in use, a task that was found cannot be registered.
pub acquire-full :
    (k : Env) (pid : ℕ) (s : Cpu)
    → ((j : ℕ) → j < length s.cleanup_entries → Occupied s.cleanup_entries j)
    → (k.kernel s.calls (Call.task_from_pid pid)).rax ≢ 0
    → TaskStruct.acquire k pid s
      ≡ panic k object_count_exceeded (after_call k (Call.task_from_pid pid) s)
unfolding TaskStruct.acquire TaskStruct.own
acquire-full k pid s all ne =
    let task = (k.kernel s.calls (Call.task_from_pid pid)).rax in
    let called = after_call k (Call.task_from_pid pid) s in
    let found : (task == 0) ≡ false = ground arith in
    rw (found, register_cleanup-full k release_task task called all)
      (bind-panic k object_count_exceeded _ called)
