-- ===== src/Spinlock.antt =====
-- rex/src/spinlock.rs: the guard that holds a `bpf_spin_lock` and releases it when it is dropped.
use rex_with_driver.Base.{ℕ}
use rex_with_driver.Kernel.{Env, Call, M, pure, ffi, unlock_spinlock, ◌>>=◌, ◌>>◌}
use rex_with_driver.Panic.{register_cleanup, deregister_cleanup}
use rex_with_driver.Termination.{termination_check}

-- `rex_spinlock_guard`
pub record SpinlockGuard : Type 0 where
  pub lock : ℕ
  pub cleanup_idx : ℕ

abbrev guard_of : ℕ → ℕ → SpinlockGuard
guard_of lock idx = record { lock = lock; cleanup_idx = idx }

-- The body of `new`, inside the check: the entry is registered before the lock is taken.
unfoldable pub acquire : Env → ℕ → M SpinlockGuard
acquire k lock = do
  cleanup_idx ← register_cleanup k unlock_spinlock lock
  _ ← ffi k (Call.spin_lock lock)
  pure (guard_of lock cleanup_idx)

unfoldable pub new : Env → ℕ → M SpinlockGuard
new k lock = termination_check k (acquire k lock)

-- The body of `drop`: the entry is deregistered before the lock is released.
unfoldable pub release : Env → SpinlockGuard → M (Unit {0})
release k g = do deregister_cleanup k g.cleanup_idx; _ ← ffi k (Call.spin_unlock g.lock); pure tt

unfoldable pub drop : Env → SpinlockGuard → M (Unit {0})
drop k g = termination_check k (release k g)
