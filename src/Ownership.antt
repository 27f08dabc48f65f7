-- ===== src/Ownership.antt =====
-- Which kernel resources a CPU holds, by the history of its calls and by its table of cleanup
-- entries, over rex/src/panic.rs, spinlock.rs and task_struct.rs. A resource is named by the
-- cleanup that releases it: the function and its argument.
pub mod Count
pub mod Program
pub mod Invariant
pub mod Tied
pub mod Tally
pub mod Operations
pub mod Steps
pub mod Endings
pub mod Leak
pub mod Plain
pub mod Progress
pub mod Tests
use rex_with_driver.Base.{
  ℕ, ◌+◌, ◌≡◌, List, [], ◌∷◌, Bool, true, false, ◌&&◌, none, some, ◌==◌, if◌then◌else◌,
}
use rex_with_driver.Kernel.{Env, Cpu, Call, CleanupFn, unlock_spinlock, release_task, CleanupEntry}

abbrev pub same_fn : CleanupFn → CleanupFn → Bool
same_fn unlock_spinlock unlock_spinlock = true
same_fn release_task release_task = true
same_fn _ _ = false

abbrev one_if : Bool → ℕ
one_if b = if b then 1 else 0

module _ (f : CleanupFn) (a : ℕ) where
  -- 1 for a valid entry that would release the resource.
  pub entry_holds : CleanupEntry → ℕ
  entry_holds e =
      if e.valid == 0
      then 0
      else elim e.cleanup_fn [ none ↦ 0 | some g ↦ one_if (same_fn f g && e.cleanup_arg == a) ]

  pub held : List CleanupEntry → ℕ
  held [] = 0
  held (e ∷ es) = entry_holds e + held es

  -- How often the calls gave the resource back.
  pub gives_back : Call → ℕ
  gives_back (Call.spin_unlock lock) = one_if (same_fn f unlock_spinlock && lock == a)
  gives_back (Call.task_release task) = one_if (same_fn f release_task && task == a)
  gives_back _ = 0

  pub released : List Call → ℕ
  released [] = 0
  released (c ∷ cs) = gives_back c + released cs

  -- How often they obtained it: a lock by taking it, a task by a lookup that returned it.
  pub obtains : Env → List Call → Call → ℕ
  obtains k cs (Call.spin_lock lock) = one_if (same_fn f unlock_spinlock && lock == a)
  obtains k cs (Call.task_from_pid pid) =
      let task = (k.kernel cs (Call.task_from_pid pid)).rax in
      if task == 0 then 0 else one_if (same_fn f release_task && task == a)
  obtains _ _ _ = 0

  pub acquired : Env → List Call → ℕ
  acquired k [] = 0
  acquired k (c ∷ cs) = obtains k cs c + acquired k cs

-- All that was obtained and not given back stands in the table.
abbrev pub Balanced : Env → Cpu → Type 0
Balanced k s =
    (f : CleanupFn) (a : ℕ)
    → acquired f a k s.calls ≡ released f a s.calls + held f a s.cleanup_entries

-- Nothing is left.
abbrev pub Settled : Env → Cpu → Type 0
Settled k s = (f : CleanupFn) (a : ℕ) → acquired f a k s.calls ≡ released f a s.calls
