-- ===== src/Termination/Laws.antt =====
-- rex/src/base_helper.rs, `termination_check!`: how a checked region ends.
use rex_with_driver.Base.{
  ◌≡◌, refl, ◌≢◌, ◌⊎◌, inl, inr, arith, ◌==◌, ==_iff, Bool-cases, codes, true, false, ◌∙◌, sym, ap,
}
use rex_with_driver.Kernel.{
  Env, Call, Answer, after_call, Cpu, Outcome, M, bind, done, landed, nested,
}
use rex_with_driver.Panic.{rex_handle_timeout}
use rex_with_driver.Panic.Table.{panic-ne-done, bind-panic}
use rex_with_driver.Termination.{termination_check, checked_call}

-- The state in which the region runs.
abbrev pub inside : Cpu → Cpu
inside s = record s { termination_state = 1 }

abbrev pub outside : Cpu → Cpu
outside s = record s { termination_state = 0 }

-- How the region ended, and what the check makes of it.
pub data Checked {ℓ} {A : Type ℓ} (k : Env) (func : M A) (s : Cpu) (r : Outcome A) : Type ℓ where
  in_time :
      (a : A) (t : Cpu)
      → func (inside s) ≡ done a t
      → t.termination_state ≢ 2
      → r ≡ done a (outside t)
      → Checked k func s r
  timed_out :
      (a : A) (t : Cpu)
      → func (inside s) ≡ done a t
      → t.termination_state ≡ 2
      → r ≡ rex_handle_timeout k t
      → Checked k func s r
  ended : (t : Cpu) → func (inside s) ≡ landed t → r ≡ landed t → Checked k func s r
  double_fault : (t : Cpu) → func (inside s) ≡ nested t → r ≡ nested t → Checked k func s r

-- A checked region runs with the flag at 1. If it returns and the timer has not written 2, the
-- check returns its value with the flag at 0; if the timer has, the timeout handler runs on the
-- state that the region left; a region that ended in a panic ends the check likewise.
pub termination_check-Checked {ℓ} :
    {A : Type ℓ} (k : Env) (func : M A) (s : Cpu) → Checked k func s (termination_check k func s)
unfolding termination_check
termination_check-Checked {A} k func s = split (func (inside s)) refl
  where
    split : (o : Outcome A) → func (inside s) ≡ o → Checked k func s (termination_check k func s)
    split (done a t) e = elim (Bool-cases (t.termination_state == 2)) [
      | inl late ↦
          timed_out a t e ((==_iff t.termination_state 2).0 late)
            (rw (e, termination_check, late) refl)
      | inr soon ↦ in_time a t e (ground arith) (rw (e, termination_check, soon) refl)
    ]
    split (landed t) e = ended t e (rw (e, termination_check) refl)
    split (nested t) e = double_fault t e (rw (e, termination_check) refl)

handle_timeout-ne-done {ℓ} :
    {A : Type ℓ} (k : Env) (s t : Cpu) (a : A) → rex_handle_timeout k s ≢ done a t
unfolding rex_handle_timeout
handle_timeout-ne-done k s t a = panic-ne-done k (codes "Timeout in Rex program") s t a

-- A check that returns comes from a region that did, and clears the flag.
pub termination_check-done {ℓ} :
    {A : Type ℓ} (k : Env) (func : M A) (s : Cpu) (a : A) (u : Cpu)
    → termination_check k func s ≡ done a u
    → (t : Cpu) × (func (inside s) ≡ done a t) × (u ≡ outside t)
termination_check-done {A} k func s a u h = split (termination_check-Checked k func s)
  where
    split :
        Checked k func s (termination_check k func s)
        → (t : Cpu) × (func (inside s) ≡ done a t) × (u ≡ outside t)
    split (in_time b t e ne r) =
        let same : done b (outside t) ≡ done a u = sym r ∙ h in
        let value : b ≡ a = cc in
        let reached : outside t ≡ u = cc in (t, e ∙ ap (λ c. done c t) value, sym reached)
    split (timed_out b t e late r) = absurd (handle_timeout-ne-done k t u a (sym r ∙ h))
    split (ended t e r) = absurd (cc)
    split (double_fault t e r) = absurd (cc)

-- A check that lands comes from a region that did, or from the timeout.
pub termination_check-landed {ℓ} :
    {A : Type ℓ} (k : Env) (func : M A) (s u : Cpu)
    → termination_check k func s ≡ landed u
    → (func (inside s) ≡ landed u)
      ⊎ ((a : A) × (t : Cpu) × (func (inside s) ≡ done a t)
          × (rex_handle_timeout {A = A} k t ≡ landed u))
termination_check-landed {A} k func s u h = split (termination_check-Checked k func s)
  where
    split :
        Checked k func s (termination_check k func s)
        → (func (inside s) ≡ landed u)
          ⊎ ((a : A) × (t : Cpu) × (func (inside s) ≡ done a t)
              × (rex_handle_timeout {A = A} k t ≡ landed u))
    split (in_time b t e ne r) = absurd (cc)
    split (timed_out b t e late r) = inr (b, t, e, sym r ∙ h)
    split (ended t e r) = inl (e ∙ sym r ∙ h)
    split (double_fault t e r) = absurd (cc)

pub termination_check-ends {ℓ} :
    {A : Type ℓ} (k : Env) (func : M A) (s t : Cpu)
    → func (inside s) ≡ landed t
    → termination_check k func s ≡ landed t
unfolding termination_check
termination_check-ends k func s t e = rw (e, termination_check)

-- How one checked call ends.
pub data Called (k : Env) (c : Call) (s : Cpu) (r : Outcome Answer) : Type 0 where
  replied :
      (k.kernel s.calls c).timeout ≡ false
      → r ≡ done (k.kernel s.calls c) (outside (after_call k c s))
      → Called k c s r
  expired :
      (k.kernel s.calls c).timeout ≡ true
      → r ≡ rex_handle_timeout k (after_call k c (inside s))
      → Called k c s r

-- A checked call issues exactly that call; its answer is returned with the flag cleared, unless the
-- timer fired meanwhile, which ends in the timeout handler.
pub checked_call-Called : (k : Env) (c : Call) (s : Cpu) → Called k c s (checked_call k c s)
unfolding checked_call
checked_call-Called k c s = elim (Bool-cases (k.kernel s.calls c).timeout) [
  | inl late ↦ expired late (rw late refl)
  | inr soon ↦ replied soon (rw soon refl)
]

pub checked_call-replied :
    (k : Env) (c : Call) (s : Cpu)
    → (k.kernel s.calls c).timeout ≡ false
    → checked_call k c s ≡ done (k.kernel s.calls c) (outside (after_call k c s))
unfolding checked_call
checked_call-replied k c s soon = rw soon refl

pub checked_call-expired :
    (k : Env) (c : Call) (s : Cpu)
    → (k.kernel s.calls c).timeout ≡ true
    → checked_call k c s ≡ rex_handle_timeout k (after_call k c (inside s))
unfolding checked_call
checked_call-expired k c s late = rw late refl

pub bind-handle_timeout {ℓ κ} :
    {A : Type ℓ} {B : Type κ} (k : Env) (f : A → M B) (s : Cpu)
    → bind (rex_handle_timeout {A = A} k s) f ≡ rex_handle_timeout k s
unfolding rex_handle_timeout
bind-handle_timeout k f s = bind-panic k (codes "Timeout in Rex program") f s
