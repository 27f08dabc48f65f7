-- ===== src/Panic/Table.antt =====
-- rex/src/panic.rs, `CleanupEntries`: registration takes the first free slot and touches no other,
-- deregistration frees it again, and `cleanup_all` runs every valid entry once and empties the
-- table.
use native.Mathlib.Decide.{ℕ_discrete}
use rex_with_driver.Base.{
  ℕ, zero, suc, ◌+◌, ◌<◌, ◌≡◌, refl, sym, ap, ◌∙◌, ◌≢◌, ◌⊎◌, inl, inr, List, [], ◌∷◌, Option, some,
  none, arith, length, set, get_elem?, get_elem?-set_self, Option-cases, get_elem?-lt, set-set,
  subst,
}
use rex_with_driver.Kernel.{Bytes, Env, Cpu, CleanupFn, CleanupEntry, done, M, bind}
use rex_with_driver.Panic.{
  new_entry, invalidate, cleanup_all, find_next_emtpy_entry, register_cleanup, deregister_cleanup,
  panic, object_count_exceeded, log_panic,
}

-- A slot holds a valid entry, or one that is not.
abbrev pub Occupied : List CleanupEntry → ℕ → Type 0
Occupied es i = (e : CleanupEntry) × (get_elem? es i ≡ some e) × (e.valid ≢ 0)

abbrev pub Vacant : List CleanupEntry → ℕ → Type 0
Vacant es i = (e : CleanupEntry) × (get_elem? es i ≡ some e) × (e.valid ≡ 0)

pub record FirstVacant (es : List CleanupEntry) (i : ℕ) : Type 0 where
  pub vacant : Vacant es i
  pub before : (j : ℕ) → j < i → Occupied es j

-- What the search from index `i` finds.
data Found (i : ℕ) (es : List CleanupEntry) (r : Option ℕ) : Type 0 where
  at : (n : ℕ) → r ≡ some (i + n) → FirstVacant es n → Found i es r
  full : r ≡ none → ((j : ℕ) → j < length es → Occupied es j) → Found i es r

FirstVacant-cons :
    (e : CleanupEntry) {es : List CleanupEntry} {n : ℕ}
    → e.valid ≢ 0
    → FirstVacant es n
    → FirstVacant (e ∷ es) (suc n)
FirstVacant-cons e {es} {n} h f = record { vacant = f.vacant; before = earlier }
  where
    earlier : (j : ℕ) → j < suc n → Occupied (e ∷ es) j
    earlier zero lt = (e, refl, h)
    earlier (suc j) lt = f.before j (omega arith)

Occupied-cons :
    (e : CleanupEntry) (es : List CleanupEntry)
    → e.valid ≢ 0
    → ((j : ℕ) → j < length es → Occupied es j)
    → (j : ℕ) → j < length (e ∷ es)
    → Occupied (e ∷ es) j
Occupied-cons e es used all zero lt = (e, refl, used)
Occupied-cons e es used all (suc j) lt = all j (omega arith)

find-Found : (i : ℕ) (es : List CleanupEntry) → Found i es (find_next_emtpy_entry i es)
unfolding find_next_emtpy_entry
find-Found i [] = full refl (λ j h. absurd (omega arith))
find-Found i (e ∷ es) = elim (ℕ_discrete e.valid 0) [
  | yes free ↦
      at 0 (ground arith)
        (record { vacant = (e, refl, free); before = λ j h. absurd (omega arith) })
  | no used ↦ later used (find-Found (i + 1) es)
]
  where
    later :
        e.valid ≢ 0
        → Found (i + 1) es (find_next_emtpy_entry (i + 1) es)
        → Found i (e ∷ es) (find_next_emtpy_entry i (e ∷ es))
    later used (at n r f) = at (suc n) (ground arith) (FirstVacant-cons e used f)
    later used (full r all) = full (ground arith) (Occupied-cons e es used all)

-- Registration fills the first vacant slot with the given cleanup and changes nothing else; when
-- every slot is occupied it panics instead.
pub register_cleanup_cases :
    (k : Env) (f : CleanupFn) (arg : ℕ) (s : Cpu)
    → ((i : ℕ) × FirstVacant s.cleanup_entries i
        × (register_cleanup k f arg s
            ≡ done i (record s { cleanup_entries = set s.cleanup_entries i (new_entry f arg) })))
      ⊎ (((j : ℕ) → j < length s.cleanup_entries → Occupied s.cleanup_entries j)
          × (register_cleanup k f arg s ≡ panic k object_count_exceeded s))
unfolding register_cleanup
register_cleanup_cases k f arg s = split (find-Found 0 s.cleanup_entries)
  where
    open s use {cleanup_entries as es}

    split :
        Found 0 es (find_next_emtpy_entry 0 es)
        → ((i : ℕ) × FirstVacant es i
            × (register_cleanup k f arg s
                ≡ done i (record s { cleanup_entries = set es i (new_entry f arg) })))
          ⊎ (((j : ℕ) → j < length es → Occupied es j)
              × (register_cleanup k f arg s ≡ panic k object_count_exceeded s))
    split (at n r v) =
        let e : 0 + n ≡ n = omega arith in inl (n, v, rw (r ∙ ap some e, register_cleanup))
    split (full r all) = inr (all, rw (r, register_cleanup))

-- The search fails on a table with every slot in use.
pub find-Occupied :
    (i : ℕ) (es : List CleanupEntry)
    → ((j : ℕ) → j < length es → Occupied es j)
    → find_next_emtpy_entry i es ≡ none
unfolding find_next_emtpy_entry
find-Occupied i [] all = refl
find-Occupied i (e ∷ es) all =
    let (e', same, used) = all 0 (omega arith) in
    ground (arith, same, used, find-Occupied (i + 1) es (λ j h. all (suc j) (omega arith)))

pub register_cleanup-full :
    (k : Env) (f : CleanupFn) (arg : ℕ) (s : Cpu)
    → ((j : ℕ) → j < length s.cleanup_entries → Occupied s.cleanup_entries j)
    → register_cleanup k f arg s ≡ panic k object_count_exceeded s
unfolding register_cleanup
register_cleanup-full k f arg s all = rw (find-Occupied 0 s.cleanup_entries all, register_cleanup)

-- Deregistration of a slot in range marks it invalid and changes nothing else.
pub deregister_cleanup-in_range :
    (k : Env) (i : ℕ) (s : Cpu) {e : CleanupEntry}
    → get_elem? s.cleanup_entries i ≡ some e
    → deregister_cleanup k i s
      ≡ done tt (record s { cleanup_entries = set s.cleanup_entries i (invalidate e) })
unfolding deregister_cleanup
deregister_cleanup-in_range k i s h = rw (h, deregister_cleanup)

-- A panic returns no value.
pub panic-ne-done {ℓ} :
    {A : Type ℓ} (k : Env) (m : Bytes) (s t : Cpu) (a : A) → panic k m s ≢ done a t
unfolding panic
panic-ne-done k m s t a h =
    elim (Option-cases (log_panic (k.panic_info m) (cleanup_all k (started s)).log_buf)) [
      | inl e ↦ cc (rw (e, panic) at h)
      | inr (log, e) ↦ cc (rw (e, panic) at h)
    ]
  where
    started : Cpu → Cpu
    started c = record c { termination_state = 1 }

-- What would follow a panic does not run.
pub bind-panic {ℓ κ} :
    {A : Type ℓ} {B : Type κ} (k : Env) (m : Bytes) (f : A → M B) (s : Cpu)
    → bind (panic {A = A} k m s) f ≡ panic k m s
unfolding panic
bind-panic {A} {B} k m f s = split (log_panic (k.panic_info m) u.log_buf) refl
  where
    u : Cpu
    u = cleanup_all k (record s { termination_state = 1 })

    split :
        (o : Option Bytes)
        → log_panic (k.panic_info m) u.log_buf ≡ o
        → bind (panic {A = A} k m s) f ≡ panic k m s
    split none e = rw (e, panic, bind)
    split (some log) e = rw (e, panic, bind)

-- A registration that returns has filled the first vacant slot.
pub register_cleanup-done :
    (k : Env) (f : CleanupFn) (arg i : ℕ) (s t : Cpu)
    → register_cleanup k f arg s ≡ done i t
    → FirstVacant s.cleanup_entries i
      × (t ≡ record s { cleanup_entries = set s.cleanup_entries i (new_entry f arg) })
register_cleanup-done k f arg i s t h = elim (register_cleanup_cases k f arg s) [
  | inl (n, v, e) ↦ let same : n ≡ i = cc in (subst (FirstVacant s.cleanup_entries) same v, cc)
  | inr (all, e) ↦ absurd (panic-ne-done k object_count_exceeded s t i (sym e ∙ h))
]

-- Which slots are in use.
abbrev pub valid_at : List CleanupEntry → ℕ → Option ℕ
valid_at es j = elim (get_elem? es j) [ none ↦ none | some e ↦ some e.valid ]

set-valid_at :
    (es : List CleanupEntry) (i j : ℕ) (e : CleanupEntry)
    → valid_at es i ≡ some e.valid
    → valid_at (set es i e) j ≡ valid_at es j
set-valid_at [] i j e h = refl
set-valid_at (x ∷ es) zero zero e h = sym h
set-valid_at (x ∷ es) zero (suc j) e h = refl
set-valid_at (x ∷ es) (suc i) zero e h = refl
set-valid_at (x ∷ es) (suc i) (suc j) e h = set-valid_at es i j e h

-- A registration that returned, and the deregistration of its slot right after it, leave every slot
-- as much in use as it was and make no call of the kernel.
pub deregister_cleanup-register_cleanup :
    (k : Env) (f : CleanupFn) (arg i : ℕ) (s t : Cpu)
    → register_cleanup k f arg s ≡ done i t
    → (u : Cpu) × (deregister_cleanup k i t ≡ done tt u)
      × ((j : ℕ) → valid_at u.cleanup_entries j ≡ valid_at s.cleanup_entries j)
      × (u.calls ≡ s.calls)
unfolding deregister_cleanup invalidate
deregister_cleanup-register_cleanup k f arg i s t h =
    let (v, e) = register_cleanup-done k f arg i s t h in
    let (old, at_i, free) = v.vacant in
    let put = get_elem?-set_self es i (new_entry f arg) (get_elem?-lt es i at_i) in
    (
      record t { cleanup_entries = set t.cleanup_entries i (invalidate (new_entry f arg)) },
      deregister_cleanup-in_range k i t (ap (λ c. get_elem? c.cleanup_entries i) e ∙ put),
      λ j.
          rw (ap (λ c. c.cleanup_entries) e, set-set)
            (set-valid_at es i j (invalidate (new_entry f arg))
              (rw (at_i, valid_at) (ap some free))),
      ap (λ c. c.calls) e,
    )
  where
    open s use {cleanup_entries as es}
