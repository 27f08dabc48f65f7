-- ===== src/Printk/Printed.antt =====
-- rex/src/log.rs, `rex_trace_printk`: the message is printed whole or not at all.
use rex_with_driver.Base.{
  ◌≤◌, ◌<◌, ◌≡◌, refl, ◌⊎◌, inl, inr, List, some, arith, length, take, get_elem?, subst, ap, ◌∙◌,
  true, false, Bool-cases,
}
use rex_with_driver.Kernel.{Bytes, Env, Cpu, Call, Answer, M, Outcome, done, after_call, bind, pure}
use rex_with_driver.Panic.{rex_handle_timeout}
use rex_with_driver.Termination.Laws.{
  inside, outside, checked_call-replied, checked_call-expired, bind-handle_timeout,
}
use rex_with_driver.Text.{flatten}
use rex_with_driver.Log.{LogBuf, new, write_fmt}
use rex_with_driver.Log.Write.{IsValid, Ended, whole, part, write_fmt-Ended}
use rex_with_driver.Panic.Handler.{Roomy}
use rex_with_driver.Utils.{Result, ok, err}
use rex_with_driver.Printk.{rex_trace_printk, print_log, negated, with_log}

-- The kernel is asked once to print: the call returns `Ok(0)`, unless the timer fires during it.
pub data Asked (k : Env) (s : Cpu) (r : Outcome Result) : Type 0 where
  answered :
      (k.kernel s.calls Call.trace_printk).timeout ≡ false
      → r ≡ done (ok 0) (outside (after_call k Call.trace_printk s))
      → Asked k s r
  timed_out :
      (k.kernel s.calls Call.trace_printk).timeout ≡ true
      → r ≡ rex_handle_timeout k (after_call k Call.trace_printk (inside s))
      → Asked k s r

print_log-Asked : (k : Env) (s : Cpu) → Asked k s (print_log k s)
unfolding print_log
print_log-Asked k s = elim (Bool-cases (k.kernel s.calls Call.trace_printk).timeout) [
  | inl late ↦ timed_out late (
      ap (λ o. bind o reply) (checked_call-expired k Call.trace_printk s late)
      ∙ bind-handle_timeout k reply (after_call k Call.trace_printk (inside s)))
  | inr soon ↦
      answered soon (ap (λ o. bind o reply) (checked_call-replied k Call.trace_printk s soon))
]
  where
    reply : Answer → M Result
    reply _ = pure (ok 0)

-- How a message ends.
pub data Printed (k : Env) (args : List Bytes) (s : Cpu) (r : Outcome Result) : Type 0 where
  printed :
      (b : LogBuf)
      → length (flatten args) < length s.log_buf
      → take (length (flatten args)) b.buf ≡ flatten args
      → (get_elem? b.buf (length (flatten args)) ≡ some 0) ⊎ (length (flatten args) ≡ 0)
      → Asked k (with_log s b) r
      → Printed k args s r
  too_long :
      (b : LogBuf)
      → length s.log_buf ≤ length (flatten args)
      → r ≡ done (err (negated k.uapi.e2_big)) (with_log s b)
      → Printed k args s r

-- A message that fits the log buffer with a NUL is written to it whole, with the NUL behind it
-- (unless it is empty); then the kernel is asked once to print it, and the result is Ok(0), or the
-- timeout handler runs if the timer fires during that call. A message that does not fit is refused
-- with -E2BIG and nothing is printed. The writer never panics. The log buffer is to have room for
-- the fallback message of a panic.
pub rex_trace_printk-Printed :
    (k : Env) (args : List Bytes) (s : Cpu)
    → Roomy s.log_buf
    → Printed k args s (rex_trace_printk k args s)
unfolding rex_trace_printk new
rex_trace_printk-Printed k args s r = split (write_fmt-Ended (new s.log_buf) args fresh)
  where
    fresh : IsValid (new s.log_buf)
    fresh = omega (arith, r.holds, r.small)

    split :
        Ended (new s.log_buf) args (write_fmt (new s.log_buf) args)
        → Printed k args s (rex_trace_printk k args s)
    split (whole b e a h) =
        let moved : b.off ≡ length (flatten args) = omega (arith, a.moved) in
        printed b (omega (arith, h, r.holds))
          (subst (λ n. take n b.buf ≡ flatten args) moved a.text)
          (elim a.nul [
            | inl end ↦ inl (subst (λ n. get_elem? b.buf n ≡ some 0) moved end)
            | inr (empty, _) ↦ inr empty
          ])
          (rw (e, rex_trace_printk) (print_log-Asked k (with_log s b)))
    split (part n b e v text same over) =
        too_long b (omega (arith, r.holds)) (rw (e, rex_trace_printk) refl)
