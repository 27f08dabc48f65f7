-- ===== src/Ownership/Steps.antt =====
-- Every step of a program keeps the tally and the table of rex/src/panic.rs in balance, and every
-- guard that it owns tied to its slot.
use rex_with_driver.Base.{
  ℕ, ◌≡◌, refl, sym, ap, ◌∙◌, subst, subst₂, List, ◌∷◌, ◌++◌, Option, some, none, arith, set,
  get_elem?-set_self, get_elem?-lt,
}
use rex_with_driver.Kernel.{
  Env, Cpu, Call, CleanupEntry, unlock_spinlock, release_task, done, ffi, after_call,
  done-injective, M, Answer,
}
use rex_with_driver.Panic.{new_entry, invalidate, object_count_exceeded}
use rex_with_driver.Panic.Table.{panic-ne-done}
use rex_with_driver.Termination.{termination_check, checked_call}
use rex_with_driver.Termination.Laws.{inside, outside, termination_check-done}
use rex_with_driver.Spinlock
use rex_with_driver.Spinlock.{SpinlockGuard}
use rex_with_driver.TaskStruct
use rex_with_driver.TaskStruct.{OwnedTaskStruct}
use rex_with_driver.Ownership.{held}
use rex_with_driver.Ownership.Plain.{on_resource-Plain}
use rex_with_driver.Ownership.Program.{
  Handle, guard, task, fn_of, arg_of, idx_of, drop_handle, State, state, Step, lock, lookup,
  lookup_fails, drop, helper, Reach, here, next, Plain,
}
use rex_with_driver.Ownership.Invariant.{
  Took, Gave, Kept, Took-Balanced, Gave-Balanced, Kept-Balanced, held-Took, held-Gave, Tied,
  AllTied, Apart, owned, Inv,
}
use rex_with_driver.Ownership.Tied.{AllTied-set, Apart-Vacant, AllTied-append, owned-append}
use rex_with_driver.Ownership.Tally.{Plain-Kept}
use rex_with_driver.Ownership.Operations.{
  Locked, Looked, holding, full, owning, absent, acquire-Locked, acquire-Looked, release_lock-Gave,
  release_owned-Gave,
}

Took-Inv :
    {k : Env} {s : State} (h : Handle) {t : Cpu}
    → Took k (fn_of h) (arg_of h) (idx_of h) s.cpu t
    → Inv k s
    → Inv k (state t (h ∷ s.live))
unfolding owned
Took-Inv {s} h {t} w v = record {
  balance = Took-Balanced w v.balance;
  exact = λ g a. omega (arith, v.exact g a, held-Took w g a);
  tied = subst (λ es. AllTied es (h ∷ s.live)) (sym w.table) (fresh, apart, others);
}
  where
    open s.cpu use {cleanup_entries as es}

    entry : CleanupEntry
    entry = new_entry (fn_of h) (arg_of h)

    fresh : Tied (set es (idx_of h) entry) h
    fresh = get_elem?-set_self es (idx_of h) entry (get_elem?-lt es (idx_of h) w.vacant.vacant.1)

    apart : Apart (idx_of h) s.live
    apart = Apart-Vacant es (idx_of h) s.live w.vacant.vacant v.tied

    others : AllTied (set es (idx_of h) entry) s.live
    others = AllTied-set es (idx_of h) entry s.live apart v.tied

Gave-Inv :
    {k : Env} {s : State} (xs ys : List Handle) (h : Handle) {t : Cpu}
    → s.live ≡ xs ++ (h ∷ ys)
    → Gave k (fn_of h) (arg_of h) (idx_of h) s.cpu t
    → Inv k s
    → Inv k (state t (xs ++ ys))
Gave-Inv {s} xs ys h {t} e w v =
    let entry = new_entry (fn_of h) (arg_of h) in
    let all = AllTied-append es xs h ys (subst (AllTied es) e v.tied) in
    record {
      balance = Gave-Balanced w all.0 v.balance;
      exact = λ g a.
          omega
            (arith, v.exact g a, held-Gave w all.0 g a, ap (owned g a) e, owned-append g a xs h ys);
      tied =
          subst (λ es'. AllTied es' (xs ++ ys)) (sym w.table)
            (AllTied-set es (idx_of h) (invalidate entry) (xs ++ ys) all.1 all.2);
    }
  where
    open s.cpu use {cleanup_entries as es}

Kept-Inv : {k : Env} {s : State} {t : Cpu} → Kept k s.cpu t → Inv k s → Inv k (state t s.live)
Kept-Inv {s} w v = record {
  balance = Kept-Balanced w v.balance;
  exact = λ g a. ap (held g a) w.table ∙ v.exact g a;
  tied = subst (λ es. AllTied es s.live) (sym w.table) v.tied;
}

-- The flag has no part in these.
inside-Inv : {k : Env} {s : State} → Inv k s → Inv k (state (inside s.cpu) s.live)
inside-Inv v = record { balance = v.balance; exact = v.exact; tied = v.tied }

outside-Inv :
    {k : Env} {t u : Cpu} {l : List Handle} → u ≡ outside t → Inv k (state t l) → Inv k (state u l)
outside-Inv {k} {l} e v =
    subst (λ c. Inv k (state c l)) (sym e)
      (record { balance = v.balance; exact = v.exact; tied = v.tied })

-- What each operation has done, when it returns.
new-Took :
    (k : Env) (addr : ℕ) (g : SpinlockGuard) (s u : Cpu)
    → Spinlock.new k addr s ≡ done g u
    → (t : Cpu) × (u ≡ outside t) × Took k unlock_spinlock g.lock g.cleanup_idx (inside s) t
unfolding Spinlock.new
new-Took k addr g s u h =
    let (t, e, reached) = termination_check-done k (Spinlock.acquire k addr) s g u h in
    (t, reached, split t e (acquire-Locked k addr (inside s)))
  where
    split :
        (t : Cpu)
        → Spinlock.acquire k addr (inside s) ≡ done g t
        → Locked k addr (inside s) (Spinlock.acquire k addr (inside s))
        → Took k unlock_spinlock g.lock g.cleanup_idx (inside s) t
    split t e (holding g' t' r same w) =
        let (value, reached) = done-injective (sym r ∙ e) in
        subst₂
          (λ (a : SpinlockGuard) (b : Cpu).
            Took k unlock_spinlock a.lock a.cleanup_idx (inside s) b)
          value reached w
    split t e (full r) = absurd (panic-ne-done k object_count_exceeded (inside s) t g (sym r ∙ e))

-- What a lookup that returned has done.
abbrev Found : Env → Cpu → Option OwnedTaskStruct → Cpu → Type 0
Found k s none t = Kept k s t
Found k s (some o) t = Took k release_task o.kptr o.cleanup_idx s t

from_pid-Found :
    (k : Env) (pid : ℕ) (o : Option OwnedTaskStruct) (s u : Cpu)
    → TaskStruct.from_pid k pid s ≡ done o u
    → (t : Cpu) × (u ≡ outside t) × Found k (inside s) o t
unfolding TaskStruct.from_pid
from_pid-Found k pid o s u h =
    let (t, e, reached) = termination_check-done k (TaskStruct.acquire k pid) s o u h in
    (t, reached, split t e (acquire-Looked k pid (inside s)))
  where
    split :
        (t : Cpu)
        → TaskStruct.acquire k pid (inside s) ≡ done o t
        → Looked k pid (inside s) (TaskStruct.acquire k pid (inside s))
        → Found k (inside s) o t
    split t e (owning o' t' r w) =
        let (value, reached) = done-injective (sym r ∙ e) in
        subst₂ (Found k (inside s)) value reached w
    split t e (absent t' r w) =
        let (value, reached) = done-injective (sym r ∙ e) in
        subst₂ (Found k (inside s)) value reached w
    split t e (Looked.full ne all r) = absurd (
        panic-ne-done k object_count_exceeded (after_call k (Call.task_from_pid pid) (inside s)) t o
          (sym r ∙ e))

-- The body of a handle's `drop`.
abbrev pub release_handle : Env → Handle → M (Unit {0})
release_handle k (guard g) = Spinlock.release k g
release_handle k (task o) = TaskStruct.release k o

pub drop_handle-eq-check :
    (k : Env) (h : Handle) → drop_handle k h ≡ termination_check k (release_handle k h)
unfolding Spinlock.drop TaskStruct.drop
drop_handle-eq-check k (guard g) = refl
drop_handle-eq-check k (task o) = refl

pub release_handle-Gave :
    (k : Env) (h : Handle) (s : Cpu)
    → Tied s.cleanup_entries h
    → (t : Cpu) × (release_handle k h s ≡ done tt t) × Gave k (fn_of h) (arg_of h) (idx_of h) s t
release_handle-Gave k (guard g) s tied = release_lock-Gave k g s tied
release_handle-Gave k (task o) s tied = release_owned-Gave k o s tied

drop_handle-Gave :
    (k : Env) (h : Handle) (s u : Cpu)
    → Tied s.cleanup_entries h
    → drop_handle k h s ≡ done tt u
    → (t : Cpu) × (u ≡ outside t) × Gave k (fn_of h) (arg_of h) (idx_of h) (inside s) t
drop_handle-Gave k h s u tied e =
    let check = subst (λ m. m s ≡ done tt u) (drop_handle-eq-check k h) e in
    let (t, body, reached) = termination_check-done k (release_handle k h) s tt u check in
    let (t', body', w) = release_handle-Gave k h (inside s) tied in
    let (_, same) = done-injective (sym body' ∙ body) in
    (t, reached, subst (Gave k (fn_of h) (arg_of h) (idx_of h) (inside s)) same w)

checked_call-Kept :
    (k : Env) (c : Call) (a : Answer) (s u : Cpu)
    → Plain c
    → checked_call k c s ≡ done a u
    → (t : Cpu) × (u ≡ outside t) × Kept k (inside s) t
unfolding checked_call
checked_call-Kept k c a s u p h =
    let (t, body, reached) = termination_check-done k (ffi k c) s a u h in
    let (_, same) = done-injective body in
    (t, reached, subst (Kept k (inside s)) same (Plain-Kept k c (inside s) p))

-- Every step keeps the balance: after it, each resource that was ever obtained has been given back
-- or stands in the table, once for each guard that the program owns, and each guard's slot holds
-- exactly its cleanup.
pub Step-Inv : {k : Env} {s t : State} → Step k s t → Inv k s → Inv k t
Step-Inv {k} {s} (lock addr g t e) v =
    let (u, reached, w) = new-Took k addr g s.cpu t e in
    outside-Inv reached (Took-Inv (guard g) w (inside-Inv v))
Step-Inv {k} {s} (lookup pid o t e) v =
    let (u, reached, w) = from_pid-Found k pid (some o) s.cpu t e in
    outside-Inv reached (Took-Inv (task o) w (inside-Inv v))
Step-Inv {k} {s} (lookup_fails pid t e) v =
    let (u, reached, w) = from_pid-Found k pid none s.cpu t e in
    outside-Inv reached (Kept-Inv w (inside-Inv v))
Step-Inv {k} {s} (drop xs ys h t e d) v =
    let all =
      AllTied-append s.cpu.cleanup_entries xs h ys
        (subst (AllTied s.cpu.cleanup_entries) e v.tied) in
    let (u, reached, w) = drop_handle-Gave k h s.cpu t all.0 d in
    outside-Inv reached (Gave-Inv xs ys h e w (inside-Inv v))
Step-Inv {k} {s} (helper c a t p e) v =
    let (u, reached, w) = checked_call-Kept k c a s.cpu t (on_resource-Plain c p) e in
    outside-Inv reached (Kept-Inv w (inside-Inv v))

pub Reach-Inv : {k : Env} {s t : State} → Inv k s → Reach k s t → Inv k t
Reach-Inv v here = v
Reach-Inv v (next r st) = Step-Inv st (Reach-Inv v r)
