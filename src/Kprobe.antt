-- ===== src/Kprobe.antt =====
-- rex/src/pt_regs.rs and rex/src/kprobe/kprobe_impl.rs: the registers that a kprobe program sees, and
-- samples/error_injector/src/main.rs, which overrides the return value of the probed function.
pub mod Injected
pub mod Tests
use rex_with_driver.Base.{ℕ, List, Option, none, some}
use rex_with_driver.Kernel.{Bytes, Env, Call, M, done, pure, ◌>>=◌}
use rex_with_driver.Utils.{Result, ok, err}
use rex_with_driver.Words.{to_le, of_le}
use rex_with_driver.BaseHelper.{RexMapHandle, bpf_map_lookup_elem}
use rex_with_driver.CurrentTask.{TaskStruct, get_current_task, get_pid}

-- `pt_regs`, all of whose fields are u64 but `cs` and `ss`, which are shorter.
pub record PtRegs : Type 0 where
  pub r15 : ℕ
  pub r14 : ℕ
  pub r13 : ℕ
  pub r12 : ℕ
  pub r11 : ℕ
  pub r10 : ℕ
  pub r9 : ℕ
  pub r8 : ℕ
  pub bp : ℕ
  pub bx : ℕ
  pub ax : ℕ
  pub cx : ℕ
  pub dx : ℕ
  pub si : ℕ
  pub di : ℕ
  pub ip : ℕ
  pub sp : ℕ
  pub orig_ax : ℕ
  pub cs : ℕ
  pub flags : ℕ
  pub ss : ℕ

-- The accessors that are not named like their fields.
unfoldable pub rbp : PtRegs → ℕ
rbp regs = regs.bp

unfoldable pub rbx : PtRegs → ℕ
rbx regs = regs.bx

unfoldable pub rax : PtRegs → ℕ
rax regs = regs.ax

unfoldable pub rcx : PtRegs → ℕ
rcx regs = regs.cx

unfoldable pub rdx : PtRegs → ℕ
rdx regs = regs.dx

unfoldable pub rsi : PtRegs → ℕ
rsi regs = regs.si

unfoldable pub rdi : PtRegs → ℕ
rdi regs = regs.di

unfoldable pub rip : PtRegs → ℕ
rip regs = regs.ip

unfoldable pub rsp : PtRegs → ℕ
rsp regs = regs.sp

unfoldable pub orig_rax : PtRegs → ℕ
orig_rax regs = regs.orig_ax

unfoldable pub eflags : PtRegs → ℕ
eflags regs = regs.flags

-- `just_return` is the address of the kernel's `just_return_func`; the result is that of the helper.
unfoldable pub bpf_override_return : ℕ → PtRegs → ℕ → ℕ × PtRegs
bpf_override_return just_return regs rc = (0, record regs { ax = rc; ip = just_return })

-- `value_at` reads kernel memory behind a reference that a lookup gave.
module _ (k : Env) (value_at : List Call → ℕ → Bytes) (just_return : ℕ)
    (pid_to_errno : RexMapHandle) where
  -- `cloned`
  unfoldable pub cloned : Option ℕ → M (Option Bytes)
  cloned none s = done none s
  cloned (some address) s = done (some (value_at s.calls address)) s

  unfoldable pub injected : PtRegs → Option Bytes → Result × PtRegs
  injected ctx none = (err 0, ctx)
  injected ctx (some e) =
      let (rc, ctx') = bpf_override_return just_return ctx (of_le e) in (ok rc, ctx')

  unfoldable pub inject_for : PtRegs → Option TaskStruct → M (Result × PtRegs)
  inject_for ctx none = pure (err 0, ctx)
  inject_for ctx (some t) = do
    pid ← get_pid k t
    address ← bpf_map_lookup_elem k pid_to_errno (to_le 4 pid)
    e ← cloned address
    pure (injected ctx e)

  unfoldable pub err_injector : PtRegs → M (Result × PtRegs)
  err_injector ctx = get_current_task k >>= inject_for ctx
