-- ===== src/Ownership/Endings.antt =====
-- Every way in which a program can end leaves nothing held, over rex/src/panic.rs, spinlock.rs and
-- task_struct.rs; and the one constructor that loses a reference.
use rex_with_driver.Base.{ℕ, ◌≡◌, ◌≢◌, sym, ap, ◌∙◌, subst, Option, none, arith, inl, inr, codes}
use rex_with_driver.Kernel.{
  Bytes, Env, Cpu, Call, done, landed, ffi, done-injective, done-ne-landed, M,
}
use rex_with_driver.Panic.{panic, object_count_exceeded, rex_handle_timeout, find_next_emtpy_entry}
use rex_with_driver.Panic.Table.{find-Occupied, panic-ne-done}
use rex_with_driver.Panic.Handler.{panic-landed}
use rex_with_driver.Termination.{termination_check, checked_call}
use rex_with_driver.Termination.Laws.{inside, termination_check-landed}
use rex_with_driver.Spinlock
use rex_with_driver.Spinlock.{SpinlockGuard}
use rex_with_driver.TaskStruct
use rex_with_driver.TaskStruct.{OwnedTaskStruct}
use rex_with_driver.Ownership.{released, acquired, gives_back, obtains, Balanced, Settled}
use rex_with_driver.Ownership.Count.{released-releases, acquired-releases}
use rex_with_driver.Ownership.Plain.{on_resource-Plain}
use rex_with_driver.Ownership.Program.{
  Handle, State, Ends, returns, panics, lock_panics, lookup_panics, drop_panics, helper_panics,
  drop_handle, Plain, Reach,
}
use rex_with_driver.Ownership.Invariant.{
  Inv, Took-Balanced, Gave-Balanced, Kept-Balanced, AllTied, Tied, owned, owned-nil,
}
use rex_with_driver.Ownership.Tied.{AllTied-append}
use rex_with_driver.Ownership.Tally.{Plain-Kept}
use rex_with_driver.Ownership.Operations.{
  Locked, Looked, holding, owning, absent, acquire-Locked, acquire-Looked,
}
use rex_with_driver.Ownership.Steps.{
  Reach-Inv, release_handle, release_handle-Gave, drop_handle-eq-check,
}

-- A panic gives back whatever the table holds.
panic-Settled {ℓ} :
    {A : Type ℓ} (k : Env) (text : Bytes) (s t : Cpu)
    → panic {A = A} k text s ≡ landed t
    → Balanced k s
    → Settled k t
unfolding acquired released obtains gives_back
panic-Settled k text s t h v f a =
    let (calls, _) = panic-landed k text s t h in
    omega (
      arith,
      v f a,
      ap (acquired f a k) calls,
      ap (released f a) calls,
      released-releases f a s.cleanup_entries s.calls,
      acquired-releases f a k s.cleanup_entries s.calls,
    )

timeout-Settled {ℓ} :
    {A : Type ℓ} (k : Env) (s t : Cpu)
    → rex_handle_timeout {A = A} k s ≡ landed t
    → Balanced k s
    → Settled k t
unfolding rex_handle_timeout
timeout-Settled k s t h v = panic-Settled k (codes "Timeout in Rex program") s t h v

-- A checked region ends settled if its own panics do and it returns in balance.
termination_check-Settled {ℓ} :
    {A : Type ℓ} (k : Env) (func : M A) (s u : Cpu)
    → ((t : Cpu) → func (inside s) ≡ landed t → Settled k t)
    → ((a : A) (t : Cpu) → func (inside s) ≡ done a t → Balanced k t)
    → termination_check k func s ≡ landed u
    → Settled k u
termination_check-Settled k func s u dies returned h =
    elim (termination_check-landed k func s u h) [
      | inl e ↦ dies u e
      | inr (a, t, e, late) ↦ timeout-Settled k t u late (returned a t e)
    ]

lock-Settled :
    (k : Env) (addr : ℕ) (s u : Cpu) → Balanced k s → Spinlock.new k addr s ≡ landed u → Settled k u
unfolding Spinlock.new
lock-Settled k addr s u v =
    termination_check-Settled k (Spinlock.acquire k addr) s u
      (λ t e. dies t e (acquire-Locked k addr (inside s)))
      (λ g t e. returned g t e (acquire-Locked k addr (inside s)))
  where
    dies :
        (t : Cpu)
        → Spinlock.acquire k addr (inside s) ≡ landed t
        → Locked k addr (inside s) (Spinlock.acquire k addr (inside s))
        → Settled k t
    dies t e (holding g t' r same w) = absurd (cc)
    dies t e (Locked.full r) = panic-Settled k object_count_exceeded (inside s) t (sym r ∙ e) v

    returned :
        (g : SpinlockGuard) (t : Cpu)
        → Spinlock.acquire k addr (inside s) ≡ done g t
        → Locked k addr (inside s) (Spinlock.acquire k addr (inside s))
        → Balanced k t
    returned g t e (holding g' t' r same w) =
        let (_, reached) = done-injective (sym r ∙ e) in
        subst (Balanced k) reached (Took-Balanced w v)
    returned g t e (Locked.full r) =
        absurd (panic-ne-done k object_count_exceeded (inside s) t g (sym r ∙ e))

lookup-Settled :
    (k : Env) (pid : ℕ) (s u : Cpu)
    → Balanced k s
    → find_next_emtpy_entry 0 s.cleanup_entries ≢ none
    → TaskStruct.from_pid k pid s ≡ landed u
    → Settled k u
unfolding TaskStruct.from_pid
lookup-Settled k pid s u v vacant =
    termination_check-Settled k (TaskStruct.acquire k pid) s u
      (λ t e. dies t e (acquire-Looked k pid (inside s)))
      (λ o t e. returned o t e (acquire-Looked k pid (inside s)))
  where
    dies :
        (t : Cpu)
        → TaskStruct.acquire k pid (inside s) ≡ landed t
        → Looked k pid (inside s) (TaskStruct.acquire k pid (inside s))
        → Settled k t
    dies t e (owning o t' r w) = absurd (cc)
    dies t e (absent t' r w) = absurd (cc)
    dies t e (Looked.full ne all r) = absurd (vacant (find-Occupied 0 s.cleanup_entries all))

    returned :
        (o : Option OwnedTaskStruct) (t : Cpu)
        → TaskStruct.acquire k pid (inside s) ≡ done o t
        → Looked k pid (inside s) (TaskStruct.acquire k pid (inside s))
        → Balanced k t
    returned o t e (owning o' t' r w) =
        let (_, reached) = done-injective (sym r ∙ e) in
        subst (Balanced k) reached (Took-Balanced w v)
    returned o t e (absent t' r w) =
        let (_, reached) = done-injective (sym r ∙ e) in
        subst (Balanced k) reached (Kept-Balanced w v)
    returned o t e (Looked.full ne all r) = absurd (vacant (find-Occupied 0 s.cleanup_entries all))

drop-Settled :
    (k : Env) (h : Handle) (s u : Cpu)
    → Balanced k s
    → Tied s.cleanup_entries h
    → drop_handle k h s ≡ landed u
    → Settled k u
drop-Settled k h s u v tied e =
    let (t, body, w) = release_handle-Gave k h (inside s) tied in
    termination_check-Settled k (release_handle k h) s u
      (λ t' e'. absurd (done-ne-landed (sym body ∙ e')))
      (λ a t' e'.
        let (_, same) = done-injective (sym body ∙ e') in
        subst (Balanced k) same (Gave-Balanced w tied v))
      (subst (λ m. m s ≡ landed u) (drop_handle-eq-check k h) e)

helper-Settled :
    (k : Env) (c : Call) (s u : Cpu)
    → Balanced k s
    → Plain c
    → checked_call k c s ≡ landed u
    → Settled k u
unfolding checked_call
helper-Settled k c s u v p =
    termination_check-Settled k (ffi k c) s u (λ t e. absurd (done-ne-landed e))
      (λ a t e.
        let (_, same) = done-injective e in
        subst (Balanced k) same (Kept-Balanced (Plain-Kept k c (inside s) p) v))

-- Whichever way a program ends that started in a state with the invariant, every lock that it took
-- and every task reference that it obtained has been given back exactly as often as it was
-- obtained: by a return with every guard dropped, by a panic anywhere, by the timeout, or by a
-- panic inside an operation, the lookup of a task on a full table excepted.
pub Ends-Settled :
    {k : Env} {s t : State} (u : Cpu) → Inv k s → Reach k s t → Ends k t u → Settled k u
Ends-Settled {k} {s} {t} u v r end = finish end (Reach-Inv v r)
  where
    finish : {u : Cpu} → Ends k t u → Inv k t → Settled k u
    finish (returns none_left) w =
        λ f a. omega (arith, w.balance f a, w.exact f a, ap (owned f a) none_left, owned-nil f a)
    finish (panics text u e) w = panic-Settled k text t.cpu u e w.balance
    finish (lock_panics addr u e) w = lock-Settled k addr t.cpu u w.balance e
    finish (lookup_panics pid u vacant e) w = lookup-Settled k pid t.cpu u w.balance vacant e
    finish (drop_panics xs ys h u e d) w =
        let all =
          AllTied-append t.cpu.cleanup_entries xs h ys
            (subst (AllTied t.cpu.cleanup_entries) e w.tied) in
        drop-Settled k h t.cpu u w.balance all.0 d
    finish (helper_panics c u p e) w =
        helper-Settled k c t.cpu u w.balance (on_resource-Plain c p) e
