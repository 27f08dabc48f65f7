-- ===== src/Ownership/Program.antt =====
-- Extension programs that use the spin locks and task references of rex/src/spinlock.rs and
-- rex/src/task_struct.rs, as sequences of steps on one CPU. The guards that the program still owns
-- are listed; ownership lets it drop each once, in any order.
use rex_with_driver.Base.{Bool, true, false, ℕ, ◌≡◌, ◌≢◌, List, [], ◌∷◌, ◌++◌, none, some}
use rex_with_driver.Kernel.{
  Bytes, Env, Cpu, Call, Answer, CleanupFn, unlock_spinlock, release_task, M, done, landed,
}
use rex_with_driver.Panic.{panic, find_next_emtpy_entry}
use rex_with_driver.Termination.{checked_call}
use rex_with_driver.Spinlock.{SpinlockGuard}
use rex_with_driver.Spinlock
use rex_with_driver.TaskStruct.{OwnedTaskStruct}
use rex_with_driver.TaskStruct
use rex_with_driver.Ownership.{gives_back, obtains}

-- A value whose `drop` releases something.
pub data Handle : Type 0 where
  guard : SpinlockGuard → Handle
  task : OwnedTaskStruct → Handle

abbrev pub fn_of : Handle → CleanupFn
fn_of (guard g) = unlock_spinlock
fn_of (task t) = release_task

abbrev pub arg_of : Handle → ℕ
arg_of (guard g) = g.lock
arg_of (task t) = t.kptr

abbrev pub idx_of : Handle → ℕ
idx_of (guard g) = g.cleanup_idx
idx_of (task t) = t.cleanup_idx

abbrev pub drop_handle : Env → Handle → M (Unit {0})
drop_handle k (guard g) = Spinlock.drop k g
drop_handle k (task t) = TaskStruct.drop k t

-- The calls that take or release a lock or a task.
abbrev pub on_resource : Call → Bool
on_resource (Call.spin_lock _) = true
on_resource (Call.spin_unlock _) = true
on_resource (Call.task_from_pid _) = true
on_resource (Call.task_release _) = true
on_resource _ = false

-- A call that neither obtains nor gives back a resource.
pub record Plain (c : Call) : Type 0 where
  pub obtains_none : (f : CleanupFn) (a : ℕ) (k : Env) (cs : List Call) → obtains f a k cs c ≡ 0
  pub gives_none : (f : CleanupFn) (a : ℕ) → gives_back f a c ≡ 0

pub record State : Type 0 where
  pub cpu : Cpu
  pub live : List Handle

abbrev pub state : Cpu → List Handle → State
state s l = record { cpu = s; live = l }

pub data Step (k : Env) (s : State) : State → Type 0 where
  lock :
      (addr : ℕ) (g : SpinlockGuard) (t : Cpu)
      → Spinlock.new k addr s.cpu ≡ done g t
      → Step k s (state t (guard g ∷ s.live))
  lookup :
      (pid : ℕ) (o : OwnedTaskStruct) (t : Cpu)
      → TaskStruct.from_pid k pid s.cpu ≡ done (some o) t
      → Step k s (state t (task o ∷ s.live))
  lookup_fails :
      (pid : ℕ) (t : Cpu)
      → TaskStruct.from_pid k pid s.cpu ≡ done none t
      → Step k s (state t s.live)
  drop :
      (xs ys : List Handle) (h : Handle) (t : Cpu)
      → s.live ≡ xs ++ (h ∷ ys)
      → drop_handle k h s.cpu ≡ done tt t
      → Step k s (state t (xs ++ ys))
  helper :
      (c : Call) (a : Answer) (t : Cpu)
      → on_resource c ≡ false
      → checked_call k c s.cpu ≡ done a t
      → Step k s (state t s.live)

pub data Reach (k : Env) (s : State) : State → Type 0 where
  here : Reach k s s
  next : {t u : State} → Reach k s t → Step k t u → Reach k s u

-- How a program ends: it returns with every guard dropped, it panics by itself or because the timer
-- or the stack check says so, or one of its operations does.
pub data Ends (k : Env) (s : State) : Cpu → Type 0 where
  returns : s.live ≡ [] → Ends k s s.cpu
  panics : (text : Bytes) (t : Cpu) → panic {A = Unit {0}} k text s.cpu ≡ landed t → Ends k s t
  lock_panics : (addr : ℕ) (t : Cpu) → Spinlock.new k addr s.cpu ≡ landed t → Ends k s t
  lookup_panics :
      (pid : ℕ) (t : Cpu)
      → (find_next_emtpy_entry 0 s.cpu.cleanup_entries ≢ none)
      → TaskStruct.from_pid k pid s.cpu ≡ landed t
      → Ends k s t
  drop_panics :
      (xs ys : List Handle) (h : Handle) (t : Cpu)
      → s.live ≡ xs ++ (h ∷ ys)
      → drop_handle k h s.cpu ≡ landed t
      → Ends k s t
  helper_panics :
      (c : Call) (t : Cpu) → on_resource c ≡ false → checked_call k c s.cpu ≡ landed t → Ends k s t
