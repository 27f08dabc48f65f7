-- ===== src/Ownership/Invariant.antt =====
-- What an operation does to the table of rex/src/panic.rs and to the tally of the calls, and that
-- the two stay in balance.
use rex_with_driver.Base.{
  ℕ, ◌+◌, ◌≡◌, ◌≢◌, refl, ap, ◌∙◌, List, [], ◌∷◌, some, arith, set, get_elem?,
}
use rex_with_driver.Kernel.{Env, Cpu, CleanupFn, CleanupEntry}
use rex_with_driver.Panic.{invalidate, new_entry}
use rex_with_driver.Panic.Table.{FirstVacant}
use rex_with_driver.Ownership.{entry_holds, held, released, acquired, Balanced}
use rex_with_driver.Ownership.Count.{held-set, entry_holds-vacant, entry_holds-invalidate}
use rex_with_driver.Ownership.Program.{Handle, fn_of, arg_of, idx_of, State}

-- The weight of a resource in the count for another.
abbrev pub weight : CleanupFn → ℕ → CleanupFn → ℕ → ℕ
weight g a f b = entry_holds g a (new_entry f b)

-- The resource (f, b) was obtained, and stands at the first vacant slot.
pub record Took (k : Env) (f : CleanupFn) (b i : ℕ) (s t : Cpu) : Type 0 where
  pub vacant : FirstVacant s.cleanup_entries i
  pub table : t.cleanup_entries ≡ set s.cleanup_entries i (new_entry f b)
  pub obtained :
      (g : CleanupFn) (a : ℕ) → acquired g a k t.calls ≡ weight g a f b + acquired g a k s.calls
  pub gave : (g : CleanupFn) (a : ℕ) → released g a t.calls ≡ released g a s.calls

-- It was given back, and its slot is free.
pub record Gave (k : Env) (f : CleanupFn) (b i : ℕ) (s t : Cpu) : Type 0 where
  pub table : t.cleanup_entries ≡ set s.cleanup_entries i (invalidate (new_entry f b))
  pub obtained : (g : CleanupFn) (a : ℕ) → acquired g a k t.calls ≡ acquired g a k s.calls
  pub gave : (g : CleanupFn) (a : ℕ) → released g a t.calls ≡ weight g a f b + released g a s.calls

-- Neither happened.
pub record Kept (k : Env) (s t : Cpu) : Type 0 where
  pub table : t.cleanup_entries ≡ s.cleanup_entries
  pub obtained : (g : CleanupFn) (a : ℕ) → acquired g a k t.calls ≡ acquired g a k s.calls
  pub gave : (g : CleanupFn) (a : ℕ) → released g a t.calls ≡ released g a s.calls

pub held-Took :
    {k : Env} {f : CleanupFn} {b i : ℕ} {s t : Cpu}
    → Took k f b i s t
    → (g : CleanupFn) (a : ℕ)
    → held g a t.cleanup_entries ≡ weight g a f b + held g a s.cleanup_entries
held-Took {f} {b} {i} {s} w g a =
    let (e, at_i, free) = w.vacant.vacant in
    ap (held g a) w.table
    ∙ omega (
      arith,
      held-set g a s.cleanup_entries i e (new_entry f b) at_i,
      entry_holds-vacant g a e free,
    )

pub Took-Balanced :
    {k : Env} {f : CleanupFn} {b i : ℕ} {s t : Cpu} → Took k f b i s t → Balanced k s → Balanced k t
Took-Balanced w v g a = omega (arith, v g a, w.obtained g a, w.gave g a, held-Took w g a)

pub held-Gave :
    {k : Env} {f : CleanupFn} {b i : ℕ} {s t : Cpu}
    → Gave k f b i s t
    → get_elem? s.cleanup_entries i ≡ some (new_entry f b)
    → (g : CleanupFn) (a : ℕ)
    → weight g a f b + held g a t.cleanup_entries ≡ held g a s.cleanup_entries
held-Gave {f} {b} {i} {s} {t} w at_i g a =
    let e = new_entry f b in
    omega (
      arith,
      ap (held g a) w.table,
      held-set g a s.cleanup_entries i e (invalidate e) at_i,
      entry_holds-invalidate g a e,
    )

pub Gave-Balanced :
    {k : Env} {f : CleanupFn} {b i : ℕ} {s t : Cpu}
    → Gave k f b i s t
    → get_elem? s.cleanup_entries i ≡ some (new_entry f b)
    → Balanced k s
    → Balanced k t
Gave-Balanced w at_i v g a = omega (arith, v g a, w.obtained g a, w.gave g a, held-Gave w at_i g a)

pub Kept-Balanced : {k : Env} {s t : Cpu} → Kept k s t → Balanced k s → Balanced k t
Kept-Balanced w v g a = omega (arith, v g a, w.obtained g a, w.gave g a, ap (held g a) w.table)

-- The guards that a program owns, against the table.
abbrev pub Apart : ℕ → List Handle → Type 0
Apart i [] = Unit {0}
Apart i (h ∷ hs) = (i ≢ idx_of h) × Apart i hs

abbrev pub Tied : List CleanupEntry → Handle → Type 0
Tied es h = get_elem? es (idx_of h) ≡ some (new_entry (fn_of h) (arg_of h))

abbrev pub AllTied : List CleanupEntry → List Handle → Type 0
AllTied es [] = Unit {0}
AllTied es (h ∷ hs) = Tied es h × Apart (idx_of h) hs × AllTied es hs

unfoldable pub owned : CleanupFn → ℕ → List Handle → ℕ
owned g a [] = 0
owned g a (h ∷ hs) = weight g a (fn_of h) (arg_of h) + owned g a hs

pub owned-nil : (g : CleanupFn) (a : ℕ) → owned g a [] ≡ 0
unfolding owned
owned-nil g a = refl

pub record Inv (k : Env) (s : State) : Type 0 where
  pub balance : Balanced k s.cpu
  pub exact : (g : CleanupFn) (a : ℕ) → held g a s.cpu.cleanup_entries ≡ owned g a s.live
  pub tied : AllTied s.cpu.cleanup_entries s.live
