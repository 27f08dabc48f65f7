-- ===== src/Ownership/Tally.antt =====
-- How each call of rex/src/spinlock.rs and rex/src/task_struct.rs enters the tally.
use rex_with_driver.Base.{ℕ, ◌≡◌, ◌≢◌, refl, arith, set}
use rex_with_driver.Kernel.{Env, Cpu, Call, CleanupFn, unlock_spinlock, release_task, after_call}
use rex_with_driver.Panic.{invalidate, new_entry, release_call}
use rex_with_driver.Panic.Table.{FirstVacant}
use rex_with_driver.Ownership.{entry_holds, gives_back, obtains, released, acquired}
use rex_with_driver.Ownership.Program.{Plain}
use rex_with_driver.Ownership.Invariant.{Took, Gave, Kept}

-- The table with a new entry at a slot, and with that entry invalidated.
abbrev pub filled : CleanupFn → ℕ → ℕ → Cpu → Cpu
filled f b i s = record s { cleanup_entries = set s.cleanup_entries i (new_entry f b) }

abbrev pub freed : CleanupFn → ℕ → ℕ → Cpu → Cpu
freed f b i s = record s { cleanup_entries = set s.cleanup_entries i (invalidate (new_entry f b)) }

module _ (k : Env) where
  pub spin_lock-Took :
      (lock i : ℕ) (s : Cpu)
      → FirstVacant s.cleanup_entries i
      → Took k unlock_spinlock lock i s
          (after_call k (Call.spin_lock lock) (filled unlock_spinlock lock i s))
  unfolding acquired obtains released gives_back entry_holds new_entry
  spin_lock-Took lock i s v = record {
    vacant = v;
    table = refl;
    obtained = λ g a. ground arith;
    gave = λ g a. omega arith;
  }

  -- A lookup that returned a task, then its registration.
  pub task_from_pid-Took :
      (pid task i : ℕ) (s : Cpu)
      → (k.kernel s.calls (Call.task_from_pid pid)).rax ≡ task
      → task ≢ 0
      → FirstVacant s.cleanup_entries i
      → Took k release_task task i s
          (filled release_task task i (after_call k (Call.task_from_pid pid) s))
  unfolding acquired obtains released gives_back entry_holds new_entry
  task_from_pid-Took pid task i s e ne v = record {
    vacant = v;
    table = refl;
    obtained = λ g a. ground arith;
    gave = λ g a. omega arith;
  }

  pub task_from_pid-Kept :
      (pid : ℕ) (s : Cpu)
      → (k.kernel s.calls (Call.task_from_pid pid)).rax ≡ 0
      → Kept k s (after_call k (Call.task_from_pid pid) s)
  unfolding acquired obtains released gives_back
  task_from_pid-Kept pid s e = record {
    table = refl;
    obtained = λ g a. ground arith;
    gave = λ g a. omega arith;
  }

  pub release_call-Gave :
      (f : CleanupFn) (b i : ℕ) (s : Cpu)
      → Gave k f b i s (after_call k (release_call f b) (freed f b i s))
  unfolding acquired obtains released gives_back entry_holds new_entry
  release_call-Gave unlock_spinlock b i s = record {
    table = refl;
    obtained = λ g a. omega arith;
    gave = λ g a. ground arith;
  }
  release_call-Gave release_task b i s = record {
    table = refl;
    obtained = λ g a. omega arith;
    gave = λ g a. ground arith;
  }

  pub Plain-Kept : (c : Call) (s : Cpu) → Plain c → Kept k s (after_call k c s)
  unfolding acquired released
  Plain-Kept c s p = record {
    table = refl;
    obtained = λ g a. omega (arith, p.obtains_none g a k s.calls);
    gave = λ g a. omega (arith, p.gives_none g a);
  }
