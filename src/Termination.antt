-- ===== src/Termination.antt =====
-- rex/src/base_helper.rs, `termination_check!`: a region in which the watchdog timer asks for
-- termination through `rex_termination_state` (1 inside a helper, 2 when time is up, 0 outside).
pub mod Laws
use rex_with_driver.Base.{ℕ, ◌==◌, if◌then◌else◌}
use rex_with_driver.Kernel.{Env, Cpu, Call, Answer, Outcome, M, done, landed, nested, ffi}
use rex_with_driver.Panic.{rex_handle_timeout}

-- The flag is written to in place, so `$func` runs on the state with the flag set, and the flag is
-- read from the state that it leaves.
unfoldable pub termination_check {ℓ} : {A : Type ℓ} → Env → M A → M A
termination_check k func s = elim (func (record s { termination_state = 1 })) [
  | done res t ↦
      if t.termination_state == 2
      then rex_handle_timeout k t
      else done res (record t { termination_state = 0 })
  | landed t ↦ landed t
  | nested t ↦ nested t
]

-- The commonest region: one call of the kernel.
unfoldable pub checked_call : Env → Call → M Answer
unfolding termination_check
checked_call k c = termination_check k (ffi k c)
