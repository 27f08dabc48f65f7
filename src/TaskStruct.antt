-- ===== src/TaskStruct.antt =====
-- rex/src/task_struct.rs, `OwnedTaskStruct`: a reference on a task that is released when it is
-- dropped.
use rex_with_driver.Base.{ℕ, Option, none, some, ◌==◌, if◌then◌else◌}
use rex_with_driver.Kernel.{Env, Call, M, pure, ffi, release_task, ◌>>=◌, ◌>>◌}
use rex_with_driver.Panic.{register_cleanup, deregister_cleanup}
use rex_with_driver.Termination.{termination_check}

-- `OwnedTaskStruct`, with the kernel pointer of its `inner`.
pub record OwnedTaskStruct : Type 0 where
  pub kptr : ℕ
  pub cleanup_idx : ℕ

abbrev task_of : ℕ → ℕ → OwnedTaskStruct
task_of kptr idx = record { kptr = kptr; cleanup_idx = idx }

-- The non-null branch of `from_pid`: the entry is registered after the task is obtained.
unfoldable pub own : Env → ℕ → M (Option OwnedTaskStruct)
own k task = do
  cleanup_idx ← register_cleanup k release_task task
  pure (some (task_of task cleanup_idx))

-- The body of `from_pid`, inside the check.
unfoldable pub acquire : Env → ℕ → M (Option OwnedTaskStruct)
acquire k pid = do
  answer ← ffi k (Call.task_from_pid pid)
  if answer.rax == 0 then pure none else own k answer.rax

unfoldable pub from_pid : Env → ℕ → M (Option OwnedTaskStruct)
from_pid k pid = termination_check k (acquire k pid)

-- The body of `drop`.
unfoldable pub release : Env → OwnedTaskStruct → M (Unit {0})
release k t = do deregister_cleanup k t.cleanup_idx; _ ← ffi k (Call.task_release t.kptr); pure tt

unfoldable pub drop : Env → OwnedTaskStruct → M (Unit {0})
drop k t = termination_check k (release k t)
