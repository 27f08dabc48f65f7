-- ===== src/Panic/Cleanup.antt =====
-- rex/src/panic.rs, `CleanupEntries::cleanup_all`: the calls that it makes and the table it leaves.
use mathlib.Core.List.{reverse, reverse-append}
use rex_with_driver.Base.{
  ◌≡◌, refl, ap, ◌∙◌, List, [], ◌∷◌, ◌++◌, none, some, arith, append_assoc, map, ◌==◌,
  if◌then◌else◌,
}
use rex_with_driver.Kernel.{Env, Cpu, CleanupEntry, Call}
use rex_with_driver.Panic.{cleanup, invalidate, release_call, cleanup_loop, cleanup_all}

-- The releases that the valid entries of a table stand for, in the order of the table.
unfoldable pub entry_releases : CleanupEntry → List Call
entry_releases e =
    if e.valid == 0
    then []
    else elim e.cleanup_fn [ none ↦ [] | some f ↦ release_call f e.cleanup_arg ∷ [] ]

unfoldable pub releases : List CleanupEntry → List Call
releases [] = []
releases (e ∷ es) = entry_releases e ++ releases es

calls-cleanup :
    (k : Env) (e : CleanupEntry) (s : Cpu)
    → (cleanup k e s).calls ≡ reverse (entry_releases e) ++ s.calls
unfolding cleanup entry_releases
calls-cleanup k e s = ground arith

log_buf-cleanup : (k : Env) (e : CleanupEntry) (s : Cpu) → (cleanup k e s).log_buf ≡ s.log_buf
unfolding cleanup
log_buf-cleanup k e s = ground arith

-- What the loop leaves of a table and a CPU.
record Swept (es : List CleanupEntry) (s : Cpu) (out : List CleanupEntry × Cpu) : Type 0 where
  table : out.0 ≡ map invalidate es
  calls : out.1.calls ≡ reverse (releases es) ++ s.calls
  log : out.1.log_buf ≡ s.log_buf

cleanup_loop-Swept : (k : Env) (es : List CleanupEntry) (s : Cpu) → Swept es s (cleanup_loop k es s)
unfolding cleanup_loop releases
cleanup_loop-Swept k [] s = record { table = refl; calls = refl; log = refl }
cleanup_loop-Swept k (e ∷ es) s =
    let rest = cleanup_loop-Swept k es (cleanup k e s) in
    record {
      table = ap (◌∷◌ (invalidate e)) rest.table;
      calls = rest.calls ∙ rw (calls-cleanup k e s, reverse-append, append_assoc);
      log = rest.log ∙ log_buf-cleanup k e s;
    }

-- `cleanup_all` calls the release of every valid entry exactly once, in the order of the table,
-- leaves each entry invalid and otherwise as it was, and does not touch the log buffer.
pub cleanup_all_lem :
    (k : Env) (s : Cpu)
    → let t = cleanup_all k s in
      (t.calls ≡ reverse (releases s.cleanup_entries) ++ s.calls)
      × (t.cleanup_entries ≡ map invalidate s.cleanup_entries)
      × (t.log_buf ≡ s.log_buf)
unfolding cleanup_all
cleanup_all_lem k s = let w = cleanup_loop-Swept k s.cleanup_entries s in (w.calls, w.table, w.log)

releases-map-invalidate : (es : List CleanupEntry) → releases (map invalidate es) ≡ []
unfolding releases entry_releases invalidate
releases-map-invalidate [] = refl
releases-map-invalidate (e ∷ es) = releases-map-invalidate es

-- Cleaning up a second time makes no further call.
cleanup_all_twice :
    (k : Env) (s : Cpu) → (cleanup_all k (cleanup_all k s)).calls ≡ (cleanup_all k s).calls
cleanup_all_twice k s =
    let (calls, table, _) = cleanup_all_lem k s in
    let (again, _, _) = cleanup_all_lem k (cleanup_all k s) in
    again ∙ rw (table, releases-map-invalidate s.cleanup_entries)
