-- ===== src/MapTest.antt =====
-- samples/map_test_2/src/main.rs: the tests of the typed maps. `printk` is the macro `rex_printk!`, a
-- format and its arguments, whose result may be an error; `value_at` reads kernel memory behind a
-- reference that a lookup gave.
pub mod Steps
pub mod Hash
pub mod Tests
use rex_with_driver.Base.{
  ℕ, ◌+◌, ◌-◌, ◌%◌, ◌^◌, List, [], ◌∷◌, ◌++◌, Option, none, some, leb, if◌then◌else◌, codes,
}
use rex_with_driver.Kernel.{Bytes, Env, Call, Cpu, M, done, pure, ◌>>=◌}
use rex_with_driver.Utils.{Result, ok, err}
use rex_with_driver.Words.{to_le, of_le}
use rex_with_driver.BaseHelper.{RexMapHandle}
use rex_with_driver.Map.{insert, get_mut, delete, push, pop, peek}
use rex_with_driver.CurrentTask.{TaskStruct, get_current_task, get_pid}

-- `?` on a `Result` whose value is not used.
abbrev pub and_then : M Result → M Result → M Result
and_then m rest = m >>= λ r. elim r [ ok v ↦ rest | err e ↦ pure (err e) ]

-- `as i64` of an i32, by its pattern.
abbrev pub as_i64 : ℕ → ℕ
as_i64 n = if leb (2 ^ 31) n then n + 2 ^ 64 - 2 ^ 32 else n

abbrev pub key_zero : Bytes
key_zero = 0 ∷ 0 ∷ 0 ∷ 0 ∷ []

module _ (k : Env) (value_at : List Call → ℕ → Bytes) (printk : Bytes → List ℕ → M Result) where
  -- The pid of the current task, -1 if there is none.
  unfoldable pub pid_of : Option TaskStruct → M ℕ
  pid_of none = pure (2 ^ 32 - 1)
  pid_of (some task) = get_pid k task

  unfoldable pub current_pid : M ℕ
  current_pid = get_current_task k >>= pid_of

  -- The two messages after a lookup, of which the second reads the value.
  unfoldable pub print_found : Option ℕ → M Result
  print_found none s = printk (codes "Not found." ++ (10 ∷ [])) [] s
  print_found (some val) s =
      printk (codes "Found Val={}." ++ (10 ∷ [])) (of_le (value_at s.calls val) ∷ []) s

  unfoldable pub print_peeked : Bytes → Option Bytes → M Result
  print_peeked fmt none = printk (codes "Not found." ++ (10 ∷ [])) []
  print_peeked fmt (some top) = printk fmt (of_le top ∷ [])

  unfoldable pub print_pid : ℕ → M Result
  print_pid pid = printk (codes "Rust program triggered from PID {}" ++ (10 ∷ [])) (pid ∷ [])

  abbrev pub lookup_zero : RexMapHandle → M Result
  lookup_zero map = get_mut k map key_zero >>= print_found

  -- The end of the test, from the deletion on, and from the insertion on.
  unfoldable pub check_removed : RexMapHandle → M Result
  check_removed map =
      and_then (printk (codes "Map delete key" ++ (10 ∷ [])) [])
        (and_then (lookup_zero map) (pure (ok 0)))

  unfoldable pub check_updated : RexMapHandle → M Result
  check_updated map =
      and_then (printk (codes "Map Updated" ++ (10 ∷ [])) [])
        (and_then (lookup_zero map) (and_then (delete k map key_zero) (check_removed map)))

  unfoldable pub check_inserted : RexMapHandle → ℕ → M Result
  check_inserted map pid =
      and_then (print_pid pid)
        (and_then (insert k map key_zero (to_le 8 (as_i64 pid))) (check_updated map))

  unfoldable pub map_test_hash : RexMapHandle → M Result
  map_test_hash map =
      and_then (printk (codes "Map Testing Hash Start with key {}" ++ (10 ∷ [])) (0 ∷ []))
        (and_then (lookup_zero map) (current_pid >>= check_inserted map))

  unfoldable pub map_test_array : RexMapHandle → M Result
  map_test_array map =
      and_then (printk (codes "Map Testing Array Start with key {}" ++ (10 ∷ [])) (0 ∷ [])) (
        current_pid >>= λ pid. and_then (print_pid pid) (
          and_then (insert k map key_zero (to_le 8 (as_i64 pid))) (
            and_then (printk (codes "Map Updated" ++ (10 ∷ [])) [])
              (and_then (lookup_zero map) (pure (ok 0))))))

  -- The two pushes of a test, with their message.
  abbrev push_two : RexMapHandle → Bytes → ℕ → M Result → M Result
  push_two map fmt pid rest =
      let next = (pid + 1) % 2 ^ 32 in
      and_then (push k map (to_le 8 (as_i64 pid))) (
        and_then (printk fmt (pid ∷ []))
          (and_then (push k map (to_le 8 (as_i64 next))) (and_then (printk fmt (next ∷ [])) rest)))

  unfoldable pub map_test_stack : RexMapHandle → M Result
  map_test_stack map = and_then (printk (codes "Map Testing Stack Start" ++ (10 ∷ [])) []) (
      current_pid >>= λ pid. and_then (print_pid pid) (
        push_two map (codes "Pushed {} onto stack" ++ (10 ∷ [])) pid (
          and_then (peek k map >>= print_peeked (codes "Top of stack: {}." ++ (10 ∷ []))) (
            pop k map >>= λ popped.
            and_then (printk (codes "Popped top of stack" ++ (10 ∷ [])) []) (
              and_then (peek k map >>= print_peeked (codes "Next top of stack: {}." ++ (10 ∷ [])))
                (pure (ok 0)))))))

  unfoldable pub map_test_queue : RexMapHandle → M Result
  map_test_queue map = and_then (printk (codes "Map Testing Queue Start" ++ (10 ∷ [])) []) (
      current_pid >>= λ pid. and_then (print_pid pid) (
        push_two map (codes "Pushed {} into queue" ++ (10 ∷ [])) pid (
          and_then (peek k map >>= print_peeked (codes "Front of queue: {}." ++ (10 ∷ []))) (
            pop k map >>= λ popped.
            and_then (printk (codes "Popped front of queue" ++ (10 ∷ [])) []) (
              and_then (peek k map >>= print_peeked (codes "Next front of queue: {}." ++ (10 ∷ [])))
                (pure (ok 0)))))))
