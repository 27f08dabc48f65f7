-- ===== src/CurrentTask.antt =====
-- rex/src/task_struct.rs, `TaskStruct`: what a program may read of a task.
pub mod Reads
use rex_with_driver.Base.{
  ℕ, zero, suc, ◌-◌, ◌*◌, List, [], ◌∷◌, Option, none, some, ◌==◌, if◌then◌else◌,
}
use rex_with_driver.Kernel.{Bytes, Env, M, pure, peek_memory, add64, sub64, ◌>>=◌}

-- `TaskStruct`; its reference and its pointer are one address.
pub record TaskStruct : Type 0 where
  pub kptr : ℕ

abbrev page_size : ℕ
page_size = 4096

abbrev pub thread_size : ℕ
thread_size = page_size * 4

abbrev top_of_kernel_stack_padding : ℕ
top_of_kernel_stack_padding = 0

abbrev task_at : ℕ → TaskStruct
task_at p = record { kptr = p }

-- `CStr::from_bytes_until_nul`, without the NUL; `none` if there is none.
unfoldable pub from_bytes_until_nul : Bytes → Option Bytes
from_bytes_until_nul [] = none
from_bytes_until_nul (b ∷ bs) =
    let rest = from_bytes_until_nul bs in
    if b == 0 then some [] else elim rest [ none ↦ none | some text ↦ some (b ∷ text) ]

module _ (k : Env) where
  unfoldable pub get_current_task : M (Option TaskStruct)
  get_current_task = do
    current ← peek_memory k (λ m. m.current_task)
    pure (if current == 0 then none else some (task_at current))

  unfoldable pub get_pid : TaskStruct → M ℕ
  get_pid t = peek_memory k (λ m. (m.task t.kptr).pid)

  unfoldable pub get_tgid : TaskStruct → M ℕ
  get_tgid t = peek_memory k (λ m. (m.task t.kptr).tgid)

  unfoldable pub get_utime : TaskStruct → M ℕ
  get_utime t = peek_memory k (λ m. (m.task t.kptr).utime)

  unfoldable pub get_comm : TaskStruct → M (Option Bytes)
  get_comm t = peek_memory k (λ m. from_bytes_until_nul (m.task t.kptr).comm)

  -- The address of the registers; `regs_size` is the size of the kernel's `pt_regs`.
  unfoldable pub get_pt_regs : ℕ → TaskStruct → M ℕ
  get_pt_regs regs_size t =
      let addr = λ (stack : ℕ).
        sub64 (sub64 (add64 stack thread_size) top_of_kernel_stack_padding) regs_size in
      peek_memory k (λ m. addr (m.task t.kptr).stack)
