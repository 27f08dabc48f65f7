-- ===== src/Panic/Handler.antt =====
-- rex/src/panic.rs, the panic handler: from any state with a log buffer that holds the fallback
-- message it reaches the landing pad, after the cleanup and with a message logged.
use mathlib.Core.List.{reverse}
use rex_with_driver.Base.{
  ℕ, ◌^◌, ◌≤◌, ◌<◌, ◌≡◌, refl, sym, ap, ◌∙◌, ◌⊎◌, inl, inr, List, [], ◌∷◌, ◌++◌, some, arith, map,
  length, take, get_elem?, subst, Option-cases,
}
use rex_with_driver.Kernel.{Bytes, Env, Cpu, Call, landed, after_call}
use rex_with_driver.Text.{refused, flatten}
use rex_with_driver.Log.{LogBuf, write_fmt, new, reset}
use rex_with_driver.Log.Write.{IsValid, Ended, whole, part, Terminated, write_fmt-Ended}
use rex_with_driver.Panic.{invalidate, cleanup_all, log_panic, unknown_panic, panic}
use rex_with_driver.Panic.Cleanup.{releases, cleanup_all_lem}

-- The kernel's buffer holds the fallback message with its NUL (`MAX_BPRINTF_BUF` is 1024).
pub record Roomy (log : Bytes) : Type 0 where
  pub holds : 18 < length log
  pub small : length log < 2 ^ 64

-- What the buffer says after the handler: the whole message, or that it was too long.
pub data Logged (info : List Bytes) (log out : Bytes) : Type 0 where
  message :
      length (flatten info) < length log
      → take (length (flatten info)) out ≡ flatten info
      → (get_elem? out (length (flatten info)) ≡ some 0) ⊎ (length (flatten info) ≡ 0)
      → Logged info log out
  fallback :
      length log ≤ length (flatten info)
      → take 18 out ≡ unknown_panic
      → get_elem? out 18 ≡ some 0
      → Logged info log out

log_panic_lem :
    (info : List Bytes) (log : Bytes)
    → Roomy log
    → (out : Bytes) × (log_panic info log ≡ some out)
      × Logged info log out
      × (length out ≡ length log)
unfolding log_panic new reset
log_panic_lem info log r = first (write_fmt-Ended (new log) info fresh)
  where
    fresh : IsValid (new log)
    fresh = omega (arith, r.holds, r.small)

    terminated : {b c : LogBuf} → Terminated b ⊎ ((◌≡◌ {A = ℕ} 18 0) × (b ≡ c)) → Terminated b
    terminated (inl end) = end
    terminated (inr (empty, _)) = absurd (omega arith)

    second :
        (b : LogBuf)
        → write_fmt (new log) info ≡ refused b
        → length b.buf ≡ length log
        → length log ≤ length (flatten info)
        → Ended (reset b) (unknown_panic ∷ []) (write_fmt (reset b) (unknown_panic ∷ []))
        → (out : Bytes) × (log_panic info log ≡ some out)
          × Logged info log out
          × (length out ≡ length log)
    second b e same long (whole b' e' a h) = (
      b'.buf,
      rw (e, log_panic, e') refl,
      fallback long (subst (λ n. take n b'.buf ≡ unknown_panic) a.moved a.text)
          (subst (λ n. get_elem? b'.buf n ≡ some 0) a.moved (terminated a.nul)),
      a.same_length ∙ same,
    )
    second b e same long (part k b' e' v text _ over) = absurd (omega (arith, r.holds, same))

    first :
        Ended (new log) info (write_fmt (new log) info)
        → (out : Bytes) × (log_panic info log ≡ some out)
          × Logged info log out
          × (length out ≡ length log)
    first (whole b e a h) = (
      b.buf,
      rw (e, log_panic) refl,
      (let moved : b.off ≡ length (flatten info) = omega (arith, a.moved) in
          message (omega (arith, h, r.holds))
            (subst (λ n. take n b.buf ≡ flatten info) moved a.text)
            (elim a.nul [
              | inl end ↦ inl (subst (λ n. get_elem? b.buf n ≡ some 0) moved end)
              | inr (empty, _) ↦ inr empty
            ])),
      a.same_length,
    )
    first (part k b e v text same over) =
        second b e same (omega (arith, r.holds))
          (write_fmt-Ended (reset b) (unknown_panic ∷ []) (omega (arith, r.holds, r.small, same)))

-- How a panic ends: all that was registered has been released, once and in the order of the table,
-- the table is empty, a message is logged, and the last call is that of the landing pad.
pub record Landing (k : Env) (text : Bytes) (s t : Cpu) : Type 0 where
  pub calls : t.calls ≡ Call.call_landingpad ∷ (reverse (releases s.cleanup_entries) ++ s.calls)
  pub table : t.cleanup_entries ≡ map invalidate s.cleanup_entries
  pub log : Logged (k.panic_info text) s.log_buf t.log_buf
  pub log_length : length t.log_buf ≡ length s.log_buf

-- The panic handler always reaches the landing pad, never a nested panic, and leaves the state that
-- `Landing` describes, if the log buffer holds the fallback message.
pub panic-Landing {ℓ} :
    {A : Type ℓ} (k : Env) (text : Bytes) (s : Cpu)
    → Roomy s.log_buf
    → (t : Cpu) × (panic {A = A} k text s ≡ landed t) × Landing k text s t
unfolding panic
panic-Landing k text s r =
    let u = cleanup_all k (record s { termination_state = 1 }) in
    let (calls, table, log) = cleanup_all_lem k (record s { termination_state = 1 }) in
    let (out, e, logged, same) = log_panic_lem (k.panic_info text) s.log_buf r in
    (
      after_call k Call.call_landingpad (record u { log_buf = out }),
      rw (log, e, panic) refl,
      record {
        calls = ap (◌∷◌ Call.call_landingpad) calls;
        table = table;
        log = logged;
        log_length = same;
      },
    )

-- What a panic that lands has done to the table and the calls, whatever the log buffer.
pub panic-landed {ℓ} :
    {A : Type ℓ} (k : Env) (text : Bytes) (s t : Cpu)
    → panic {A = A} k text s ≡ landed t
    → (t.calls ≡ Call.call_landingpad ∷ (reverse (releases s.cleanup_entries) ++ s.calls))
      × (t.cleanup_entries ≡ map invalidate s.cleanup_entries)
unfolding panic
panic-landed k text s t h =
    let u = cleanup_all k (record s { termination_state = 1 }) in
    let (calls, table, log) = cleanup_all_lem k (record s { termination_state = 1 }) in
    elim (Option-cases (log_panic (k.panic_info text) u.log_buf)) [
      | inl e ↦ absurd (cc (rw (e, panic) at h))
      | inr (out, e) ↦
          let end : Cpu = after_call k Call.call_landingpad (record u { log_buf = out }) in
          let same : landed end ≡ landed t = rw (e, panic) at h in
          let reached : end ≡ t = cc in
          (
            sym (ap (λ c. c.calls) reached) ∙ ap (◌∷◌ Call.call_landingpad) calls,
            sym (ap (λ c. c.cleanup_entries) reached) ∙ table,
          )
    ]
