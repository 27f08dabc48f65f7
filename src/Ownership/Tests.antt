-- ===== src/Ownership/Tests.antt =====
-- Programs that take a lock, run on the example kernel.
use rex_with_driver.Base.{ℕ, ◌+◌, ◌<◌, ◌≡◌, refl, arith, [], ◌∷◌, zero, suc, codes, length}
use rex_with_driver.Kernel.{Cpu, Call, unlock_spinlock, release_task, landed, done, Outcome}
use rex_with_driver.Panic.{
  panic, cleanup_all, cleanup_loop, cleanup, register_cleanup, find_next_emtpy_entry, log_panic,
  new_entry, default_entry,
}
use rex_with_driver.Panic.Table.{Occupied}
use rex_with_driver.Termination.{termination_check}
use rex_with_driver.Spinlock.{SpinlockGuard}
use rex_with_driver.Spinlock
use rex_with_driver.TaskStruct
use rex_with_driver.Log
use rex_with_driver.Text
use rex_with_driver.Example.{quiet, idle, crowded}
use rex_with_driver.Ownership.{
  Balanced, Settled, acquired, released, held, entry_holds, obtains, gives_back,
}
use rex_with_driver.Ownership.Program.{guard, state, Step, here, next, panics}
use rex_with_driver.Ownership.Invariant.{Inv, owned}
use rex_with_driver.Ownership.Steps.{Step-Inv}
use rex_with_driver.Ownership.Endings.{Ends-Settled}
use rex_with_driver.Termination.{checked_call}
use rex_with_driver.TaskStruct.{OwnedTaskStruct}
use rex_with_driver.Ownership.Progress.{Runs, operations-Runs}
use rex_with_driver.Example.{late}
use rex_with_driver.Ownership.Leak.{from_pid_full_leaks}

idle-Balanced : Balanced quiet idle
unfolding acquired released held entry_holds default_entry
idle-Balanced f a = refl

idle-Inv : Inv quiet (state idle [])
unfolding held entry_holds owned default_entry
idle-Inv = record { balance = idle-Balanced; exact = λ g a. refl; tied = tt }

-- The guard and the CPU after the lock at 16 was taken.
abbrev guard_16 : SpinlockGuard
guard_16 = record { lock = 16; cleanup_idx = 0 }

abbrev locked : Cpu
locked = record idle {
  cleanup_entries = new_entry unlock_spinlock 16 ∷ default_entry ∷ [];
  calls = Call.spin_lock 16 ∷ [];
}

takes_lock : Spinlock.new quiet 16 idle ≡ done guard_16 locked
unfolding Spinlock.new Spinlock.acquire termination_check register_cleanup find_next_emtpy_entry
    default_entry
takes_lock = refl

lock_step : Step quiet (state idle []) (state locked (guard guard_16 ∷ []))
lock_step = Step.lock 16 guard_16 locked takes_lock

Step-Inv_example : Inv quiet (state locked (guard guard_16 ∷ []))
Step-Inv_example = Step-Inv lock_step idle-Inv

abbrev cpu_of : Outcome (Unit {0}) → Cpu
cpu_of (done _ t) = t
cpu_of (landed t) = t
cpu_of (Outcome.nested t) = t

-- The CPU after the program panicked with the lock taken.
abbrev unlocked : Cpu
unlocked = cpu_of (panic quiet (codes "oops") locked)

lands : panic {A = Unit {0}} quiet (codes "oops") locked ≡ landed unlocked
unfolding panic log_panic Log.new Log.reset Log.write_str Text.write_fmt Text.copy_in cleanup_all
    cleanup_loop cleanup default_entry new_entry
lands = refl

Ends-Settled_example : Settled quiet unlocked
Ends-Settled_example =
    Ends-Settled unlocked idle-Inv (next here lock_step) (panics (codes "oops") unlocked lands)

crowded-Balanced : Balanced quiet crowded
unfolding acquired released held entry_holds obtains gives_back new_entry
crowded-Balanced f a = ground arith

crowded-Occupied : (j : ℕ) → j < length crowded.cleanup_entries → Occupied crowded.cleanup_entries j
unfolding new_entry
crowded-Occupied zero h = (new_entry unlock_spinlock 16, refl, omega arith)
crowded-Occupied (suc j) h = absurd (omega arith)

from_pid_full_leaks_example :
    (t : Cpu) × (TaskStruct.from_pid quiet 7 crowded ≡ landed t)
    × (acquired release_task 4096 quiet t.calls ≡ released release_task 4096 t.calls + 1)
from_pid_full_leaks_example =
    from_pid_full_leaks quiet 7 crowded (omega arith) crowded-Balanced crowded-Occupied
      (omega arith)

abbrev task_4096 : OwnedTaskStruct
task_4096 = record { kptr = 4096; cleanup_idx = 9 }

operations-Runs_example :
    Runs crowded (Spinlock.new late 16 crowded)
    × Runs crowded (Spinlock.drop late guard_16 crowded)
    × Runs crowded (TaskStruct.from_pid late 7 crowded)
    × Runs crowded (TaskStruct.drop late task_4096 crowded)
    × Runs crowded (checked_call late Call.ktime_get_ns crowded)
operations-Runs_example =
    operations-Runs late crowded (omega arith) 16 7 guard_16 task_4096 Call.ktime_get_ns
