-- ===== src/Ownership/Leak.antt =====
-- rex/src/task_struct.rs, `OwnedTaskStruct::from_pid` on a full table of cleanup entries: the one
-- constructor that loses what it obtained.
use rex_with_driver.Base.{ℕ, ◌+◌, ◌<◌, ◌≡◌, ◌≢◌, ap, ◌∙◌, List, ◌∷◌, arith, length}
use rex_with_driver.Kernel.{Env, Cpu, Call, release_task, landed, after_call}
use rex_with_driver.Panic.{object_count_exceeded}
use rex_with_driver.Panic.Table.{Occupied}
use rex_with_driver.Panic.Handler.{Roomy, panic-Landing}
use rex_with_driver.Termination.Laws.{inside, termination_check-ends}
use rex_with_driver.TaskStruct
use rex_with_driver.TaskStruct.{OwnedTaskStruct}
use rex_with_driver.Ownership.{released, acquired, gives_back, obtains, Balanced}
use rex_with_driver.Ownership.Count.{released-releases, acquired-releases}
use rex_with_driver.Ownership.Operations.{acquire-full}

obtains-found :
    (k : Env) (pid : ℕ) (cs : List Call)
    → (k.kernel cs (Call.task_from_pid pid)).rax ≢ 0
    → obtains release_task (k.kernel cs (Call.task_from_pid pid)).rax k cs (Call.task_from_pid pid)
      ≡ 1
unfolding obtains
obtains-found k pid cs ne = ground arith

-- On a full table, in balance and with a log buffer that holds the fallback message, the lookup of
-- an existing task panics after the reference was obtained and before anything could release it:
-- the program lands with that task obtained once more than given back.
pub from_pid_full_leaks :
    (k : Env) (pid : ℕ) (s : Cpu)
    → Roomy s.log_buf
    → Balanced k s
    → ((j : ℕ) → j < length s.cleanup_entries → Occupied s.cleanup_entries j)
    → (k.kernel s.calls (Call.task_from_pid pid)).rax ≢ 0
    → let task = (k.kernel s.calls (Call.task_from_pid pid)).rax in
      (t : Cpu) × (TaskStruct.from_pid k pid s ≡ landed t)
      × (acquired release_task task k t.calls ≡ released release_task task t.calls + 1)
unfolding TaskStruct.from_pid acquired released obtains gives_back
from_pid_full_leaks k pid s roomy v all ne =
    let task = (k.kernel s.calls (Call.task_from_pid pid)).rax in
    let called = after_call k (Call.task_from_pid pid) (inside s) in
    let (t, e, land) = panic-Landing k object_count_exceeded called roomy in
    let body = acquire-full k pid (inside s) all ne ∙ e in
    (
      t,
      termination_check-ends k (TaskStruct.acquire k pid) s t body,
      omega (
        arith,
        v release_task task,
        ap (acquired release_task task k) land.calls,
        ap (released release_task task) land.calls,
        released-releases release_task task s.cleanup_entries (Call.task_from_pid pid ∷ s.calls),
        acquired-releases release_task task k s.cleanup_entries (Call.task_from_pid pid ∷ s.calls),
        obtains-found k pid s.calls ne,
      ),
    )
