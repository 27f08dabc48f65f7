-- ===== src/CurrentTask/Reads.antt =====
-- rex/src/task_struct.rs: the name of a task and the place of its registers.
use native.Mathlib.Decide.{ℕ_discrete}
use rex_with_driver.Base.{
  ◌-◌, ℕ, ◌+◌, ◌^◌, ◌≤◌, ◌<◌, ◌≡◌, ◌≢◌, refl, ap, [], ◌∷◌, ◌++◌, Option, none, some, arith,
}
use rex_with_driver.Kernel.{Bytes, Env, Cpu, done, add64, sub64}
use rex_with_driver.CurrentTask.{
  TaskStruct, thread_size, from_bytes_until_nul, get_comm, get_pt_regs,
}

-- No byte is a NUL.
abbrev pub NoNul : Bytes → Type 0
NoNul [] = Unit {0}
NoNul (b ∷ bs) = (b ≢ 0) × NoNul bs

-- What the search for a NUL finds.
pub data Until (bytes : Bytes) (r : Option Bytes) : Type 0 where
  found :
      (text rest : Bytes) → bytes ≡ text ++ (0 ∷ rest) → NoNul text → r ≡ some text → Until bytes r
  missing : NoNul bytes → r ≡ none → Until bytes r

from_bytes_until_nul-Until : (bytes : Bytes) → Until bytes (from_bytes_until_nul bytes)
unfolding from_bytes_until_nul
from_bytes_until_nul-Until [] = missing tt refl
from_bytes_until_nul-Until (b ∷ bs) = elim (ℕ_discrete b 0) [
  | yes zero_byte ↦ found [] bs (ap (λ c. c ∷ bs) zero_byte) tt (ground (arith, zero_byte))
  | no other ↦ later other (from_bytes_until_nul-Until bs)
]
  where
    later :
        b ≢ 0 → Until bs (from_bytes_until_nul bs) → Until (b ∷ bs) (from_bytes_until_nul (b ∷ bs))
    later other (found text rest e clean r) =
        found (b ∷ text) rest (ap (◌∷◌ b) e) (other, clean) (ground (arith, r))
    later other (missing clean r) = missing (other, clean) (ground (arith, r))

-- The name of a task is what its name field holds before the first NUL, with no NUL in it, and an
-- error if the field holds none. Reading it calls nothing.
get_comm-Until :
    (k : Env) (t : TaskStruct) (s : Cpu)
    → (r : Option Bytes) × (get_comm k t s ≡ done r s)
      × Until ((k.memory s.calls).task t.kptr).comm r
unfolding get_comm
get_comm-Until k t s =
    let comm = ((k.memory s.calls).task t.kptr).comm in
    (from_bytes_until_nul comm, refl, from_bytes_until_nul-Until comm)

-- The registers of a task lie inside its kernel stack, at the top end of it, if the stack does not
-- wrap around the address space and the registers fit it.
get_pt_regs_lem :
    (k : Env) (regs_size : ℕ) (t : TaskStruct) (s : Cpu)
    → ((k.memory s.calls).task t.kptr).stack + thread_size < 2 ^ 64
    → regs_size ≤ thread_size
    → (a : ℕ) × (get_pt_regs k regs_size t s ≡ done a s)
      × (((k.memory s.calls).task t.kptr).stack ≤ a)
      × (a + regs_size ≡ ((k.memory s.calls).task t.kptr).stack + thread_size)
unfolding get_pt_regs
get_pt_regs_lem k regs_size t s small fits =
    let stack : ℕ = ((k.memory s.calls).task t.kptr).stack in
    let exact : sub64 (sub64 (add64 stack thread_size) 0) regs_size
        ≡ stack + thread_size - regs_size =
      omega arith in
    (stack + thread_size - regs_size, rw exact refl, omega arith, omega arith)
