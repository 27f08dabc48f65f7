-- ===== src/RingBuf/Lifecycle.antt =====
-- rex/src/map.rs: a reserved entry is settled with the kernel exactly once on every path that
-- consumes it.
use mathlib.Core.List.{reverse, reverse-append}
use rex_with_driver.Base.{
  ℕ, ◌+◌, ◌≡◌, refl, ap, ◌∙◌, List, [], ◌∷◌, ◌++◌, arith, ◌==◌, if◌then◌else◌, inl, inr,
  append_assoc, codes, ◌⊎◌, true, false,
}
use rex_with_driver.Kernel.{
  Bytes, Env, Cpu, Call, CleanupEntry, Outcome, done, landed, M, after_call, bind, Answer, pure,
}
use rex_with_driver.Panic.{panic, rex_handle_timeout}
use rex_with_driver.Panic.Cleanup.{releases, entry_releases}
use rex_with_driver.Panic.Handler.{Roomy, panic-landed, panic-Landing}
use rex_with_driver.Termination.{checked_call}
use rex_with_driver.Termination.Laws.{
  Called, replied, expired, inside, outside, checked_call-Called,
}
use rex_with_driver.RingBuf.{RexRingBufEntry, submit, discard, drop}

-- 1 for a call that gives the reservation at `addr` up.
settles : ℕ → Call → ℕ
settles addr (Call.ringbuf_submit a _ _) = if a == addr then 1 else 0
settles addr (Call.ringbuf_discard a _) = if a == addr then 1 else 0
settles addr _ = 0

pub settled : ℕ → List Call → ℕ
settled addr [] = 0
settled addr (c ∷ cs) = settles addr c + settled addr cs

-- How a program gives an entry up; Rust's ownership lets it do so once.
pub data End : Type 0 where
  submits discards : (flags : ℕ) → End
  drops : End

abbrev pub consume : Env → RexRingBufEntry → End → M (Unit {0})
consume k e (submits flags) = submit k e flags
consume k e (discards flags) = discard k e flags
consume k e drops = drop k e

settled-entry_releases :
    (addr : ℕ) (e : CleanupEntry) (cs : List Call)
    → settled addr (reverse (entry_releases e) ++ cs) ≡ settled addr cs
unfolding settled settles entry_releases
settled-entry_releases addr e cs = ground arith

settled-releases :
    (addr : ℕ) (es : List CleanupEntry) (cs : List Call)
    → settled addr (reverse (releases es) ++ cs) ≡ settled addr cs
unfolding releases
settled-releases addr [] cs = refl
settled-releases addr (e ∷ es) cs =
    rw (reverse-append, append_assoc)
      (settled-releases addr es (reverse (entry_releases e) ++ cs)
        ∙ settled-entry_releases addr e cs)

-- The table of cleanup entries holds no reservation, so a panic that lands settles none.
panic-settled {ℓ} :
    {A : Type ℓ} (k : Env) (text : Bytes) (s t : Cpu) (addr : ℕ)
    → panic {A = A} k text s ≡ landed t
    → settled addr t.calls ≡ settled addr s.calls
unfolding settled settles
panic-settled k text s t addr h =
    let (calls, _) = panic-landed k text s t h in
    omega (arith, ap (settled addr) calls, settled-releases addr s.cleanup_entries s.calls)

timeout_lands {ℓ} :
    {A : Type ℓ} (k : Env) (s : Cpu) (addr : ℕ)
    → Roomy s.log_buf
    → (t : Cpu) × (rex_handle_timeout {A = A} k s ≡ landed t)
      × (settled addr t.calls ≡ settled addr s.calls)
unfolding rex_handle_timeout
timeout_lands {A} k s addr r =
    let text = codes "Timeout in Rex program" in
    let (t, e, _) = panic-Landing {A = A} k text s r in (t, e, panic-settled k text s t addr e)

-- The kernel call by which an entry is given up.
abbrev pub given_up : RexRingBufEntry → End → Call
given_up e (submits flags) = Call.ringbuf_submit e.addr e.payload flags
given_up e (discards flags) = Call.ringbuf_discard e.addr flags
given_up e drops = Call.ringbuf_discard e.addr 0

-- Whether the timer fires during the call decides between a return and the landing pad.
abbrev pub EndedAt : Env → Call → Cpu → Outcome (Unit {0}) → Cpu → Type 0
EndedAt k c s o t =
    (((k.kernel s.calls c).timeout ≡ false) × (o ≡ done tt t))
    ⊎ (((k.kernel s.calls c).timeout ≡ true) × (o ≡ landed t))

-- A call whose answer is dropped.
call_once :
    (k : Env) (c : Call) (s : Cpu) (addr : ℕ)
    → Roomy s.log_buf
    → (t : Cpu) × EndedAt k c s (bind (checked_call k c s) (λ _. pure tt)) t
      × (settled addr t.calls ≡ settles addr c + settled addr s.calls)
unfolding settled
call_once k c s addr r = split (checked_call-Called k c s)
  where
    split :
        Called k c s (checked_call k c s)
        → (t : Cpu) × EndedAt k c s (bind (checked_call k c s) (λ _. pure tt)) t
          × (settled addr t.calls ≡ settles addr c + settled addr s.calls)
    split (replied soon e) = (outside (after_call k c s), inl (soon, rw (e, bind)), refl)
    split (expired late e) =
        let (t, land, same) = timeout_lands {A = Answer} k (after_call k c (inside s)) addr r in
        (t, inr (late, rw (e, land, bind)), same)

-- Submitting, discarding or dropping an entry always ends: it returns if the timer does not fire
-- during its kernel call, and reaches the landing pad if it does. Either way its reservation is
-- given up exactly once. The log buffer is to hold the fallback message.
pub consume_once :
    (k : Env) (e : RexRingBufEntry) (x : End) (s : Cpu)
    → Roomy s.log_buf
    → (t : Cpu) × EndedAt k (given_up e x) s (consume k e x s) t
      × (settled e.addr t.calls ≡ settled e.addr s.calls + 1)
unfolding submit discard drop settles
consume_once k e (submits flags) s r =
    let (t, end, n) = call_once k (Call.ringbuf_submit e.addr e.payload flags) s e.addr r in
    (t, end, ground (arith, n))
consume_once k e (discards flags) s r =
    let (t, end, n) = call_once k (Call.ringbuf_discard e.addr flags) s e.addr r in
    (t, end, ground (arith, n))
consume_once k e drops s r =
    let (t, end, n) = call_once k (Call.ringbuf_discard e.addr 0) s e.addr r in
    (t, end, ground (arith, n))
