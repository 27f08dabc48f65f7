-- ===== src/MapTest/Hash.antt =====
-- samples/map_test_2/src/main.rs, `map_test_hash`: what the test leaves in its map.
use rex_with_driver.Base.{
  ℕ, ◌-◌, ◌^◌, ◌≡◌, ◌==◌, refl, ap, ◌∙◌, List, Option, none, some, false, if◌then◌else◌, inl, inr,
}
use rex_with_driver.Kernel.{Bytes, Env, Call, Cpu, M, Outcome, done, bind, pure, after_call}
use rex_with_driver.Termination.Laws.{outside}
use rex_with_driver.Text.{same_string}
use rex_with_driver.Utils.{Result, ok, err}
use rex_with_driver.Words.{to_le}
use rex_with_driver.BaseHelper.{RexMapHandle}
use rex_with_driver.CurrentTask.{TaskStruct, get_current_task, get_pid}
use rex_with_driver.Map.{insert, delete}
use rex_with_driver.Map.Issues.{pointer, reads_issue}
use rex_with_driver.Map.Contents.{removed, Kept}
use rex_with_driver.Map.Contents.Replays.{issue-quiet}
use rex_with_driver.MapTest.Steps.{
  and_then-ok, and_then-err, removed-written, insert-cases, delete-found,
}
use rex_with_driver.MapTest.{
  and_then, as_i64, key_zero, pid_of, current_pid, print_found, print_pid, lookup_zero,
  check_removed, check_updated, check_inserted, map_test_hash,
}

module _ (k : Env) (map : RexMapHandle) (loaded : (map.kptr == 0) ≡ false) (kept : Kept k map.kptr)
    (printk : Bytes → List ℕ → M Result)
    (printed : (fmt : Bytes) (args : List ℕ) (s : Cpu) → printk fmt args s ≡ done (ok 0) s) where
  print_found-ok : (o : Option ℕ) (s : Cpu) → print_found k kept.value_at printk o s ≡ done (ok 0) s
  unfolding print_found
  print_found-ok none s = printed _ _ s
  print_found-ok (some val) s = printed _ _ s

  -- The state after a lookup of the test's key.
  abbrev pub looked_up : Cpu → Cpu
  looked_up s = outside (after_call k (Call.map_lookup_elem map.kptr key_zero) s)

  lookup_zero-ok :
      (s : Cpu)
      → (lookup_zero k kept.value_at printk map s ≡ done (ok 0) (looked_up s))
        × (kept.contents (looked_up s).calls ≡ kept.contents s.calls)
  lookup_zero-ok s =
      let issued =
        (reads_issue k map s key_zero).0
        ∙ issue-quiet k map none (λ p. Call.map_lookup_elem p key_zero) pointer s loaded
            (kept.quiet s.calls (Call.map_lookup_elem map.kptr key_zero)) in
      (
        ap (λ o. bind o (print_found k kept.value_at printk)) issued
            ∙ print_found-ok (pointer (k.kernel s.calls (Call.map_lookup_elem map.kptr key_zero)))
                (looked_up s),
        kept.after_lookup s.calls key_zero,
      )

  pid_of-known :
      (o : Option TaskStruct) (s : Cpu)
      → (pid : ℕ) × (pid_of k kept.value_at printk o s ≡ done pid s)
  unfolding pid_of get_pid
  pid_of-known none s = (2 ^ 32 - 1, refl)
  pid_of-known (some task) s = (((k.memory s.calls).task task.kptr).pid, refl)

  current_pid-known : (s : Cpu) → (pid : ℕ) × (current_pid k kept.value_at printk s ≡ done pid s)
  unfolding current_pid get_current_task
  current_pid-known s =
      let current = (k.memory s.calls).current_task in
      pid_of-known (if current == 0 then none else some (record { kptr = current })) s

  check_removed-ok :
      (s : Cpu)
      → (t : Cpu) × (check_removed k kept.value_at printk map s ≡ done (ok 0) t)
        × (kept.contents t.calls ≡ kept.contents s.calls)
  unfolding check_removed
  check_removed-ok s =
      let t = looked_up s in
      let (looked, same) = lookup_zero-ok s in
      (
        t,
        and_then-ok (printk _ _) _ 0 s s (printed _ _ s)
            ∙ and_then-ok (lookup_zero k kept.value_at printk map) (pure (ok 0)) 0 s t looked,
        same,
      )

  check_updated-ok :
      (v : Bytes) (s : Cpu)
      → kept.contents s.calls key_zero ≡ some v
      → (t : Cpu) × (check_updated k kept.value_at printk map s ≡ done (ok 0) t)
        × (kept.contents t.calls ≡ removed key_zero (kept.contents s.calls))
  unfolding check_updated
  check_updated-ok v s there =
      let t = looked_up s in
      let (looked, same) = lookup_zero-ok s in
      let (u, deletes, gone) =
        delete-found k map loaded kept key_zero v t (ap (λ m. m key_zero) same ∙ there) in
      let (w, checked, same') = check_removed-ok u in
      (
        w,
        and_then-ok (printk _ _) _ 0 s s (printed _ _ s)
            ∙ and_then-ok (lookup_zero k kept.value_at printk map)
                (and_then (delete k map key_zero) (check_removed k kept.value_at printk map)) 0 s t
                looked
            ∙ and_then-ok (delete k map key_zero) (check_removed k kept.value_at printk map) 0 t u
                deletes
            ∙ checked,
        same' ∙ gone ∙ ap (removed key_zero) same,
      )

  -- The insertion of a value, in the state `s`, and what the test comes to by it, in the state `t`.
  pub data Tested (value : Bytes) (s t : Cpu) (o : Outcome Result) : Type 0 where
    passed :
        (u : Cpu)
        → insert k map key_zero value s ≡ done (ok 0) u
        → kept.contents u.calls key_zero ≡ some value
        → o ≡ done (ok 0) t
        → kept.contents t.calls ≡ removed key_zero (kept.contents s.calls)
        → Tested value s t o
    failed :
        (e : ℕ)
        → insert k map key_zero value s ≡ done (err e) t
        → o ≡ done (err e) t
        → kept.contents t.calls ≡ kept.contents s.calls
        → Tested value s t o

  check_inserted-Tested :
      (pid : ℕ) (s : Cpu)
      → (t : Cpu) × Tested
          (to_le 8 (as_i64 pid))
          s
          t
          (check_inserted k kept.value_at printk map pid s)
  unfolding check_inserted print_pid same_string
  check_inserted-Tested pid s =
      let value = to_le 8 (as_i64 pid) in
      let begins = and_then-ok (printk _ _) _ 0 s s (printed _ _ s) in
      let (t, inserts) = insert-cases k map loaded kept key_zero value s in
      elim inserts [
        | inl (through, now) ↦
            let there = ap (λ m. m key_zero) now in
            let (u, checked, gone) = check_updated-ok value t there in
            (
              u,
              passed t through there
                  (begins
                    ∙ and_then-ok (insert k map key_zero value)
                        (check_updated k kept.value_at printk map) 0 s t through
                    ∙ checked)
                  (gone
                    ∙ ap (removed key_zero) now
                    ∙ removed-written value (kept.contents s.calls)),
            )
        | inr (e, refused, same) ↦ (
          t,
          failed e refused
              (begins
                ∙ and_then-err (insert k map key_zero value)
                    (check_updated k kept.value_at printk map) e s t refused)
              same,
        )
      ]

  -- The hash map test looks its key up, takes the pid of the current task and inserts it (as an i64)
  -- for the key. If the insertion succeeds, the map holds the pid for the key, and the test returns
  -- Ok(0) with the key removed and every other entry as it was; if not, the test returns the
  -- insertion's error at once, and the contents are as they were. The map is to be loaded, the
  -- kernel to keep it as documented, the timer not to fire, and messages to be printed.
  pub map_test_hash-Tested :
      (s : Cpu)
      → (kept.contents (looked_up s).calls ≡ kept.contents s.calls)
        × (pid : ℕ) × (current_pid k kept.value_at printk (looked_up s) ≡ done pid (looked_up s))
        × (t : Cpu) × Tested
            (to_le 8 (as_i64 pid))
            (looked_up s)
            t
            (map_test_hash k kept.value_at printk map s)
  unfolding map_test_hash
  map_test_hash-Tested s =
      let t = looked_up s in
      let (looked, same) = lookup_zero-ok s in
      let (pid, known) = current_pid-known t in
      let (u, tested) = check_inserted-Tested pid t in
      let runs =
        and_then-ok (printk _ _) _ 0 s s (printed _ _ s)
        ∙ and_then-ok (lookup_zero k kept.value_at printk map) _ 0 s t looked
        ∙ ap (λ o. bind o (check_inserted k kept.value_at printk map)) known in
      (
        same,
        pid,
        known,
        u,
        elim tested [
          | passed v inserts there checked gone ↦ passed v inserts there (runs ∙ checked) gone
          | failed e inserts refused kept_all ↦ failed e inserts (runs ∙ refused) kept_all
        ],
      )
