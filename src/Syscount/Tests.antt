-- ===== src/Syscount/Tests.antt =====
-- Maps of every size, and two tasks.
use rex_with_driver.Base.{
  ℕ, ◌+◌, ◌-◌, ◌%◌, ◌^◌, ◌≡◌, ◌==◌, refl, arith, List, [], ◌∷◌, Option, none, some, if◌then◌else◌,
}
use rex_with_driver.Utils.{ok}
use rex_with_driver.Syscount.{
  HashMaps, overwritten, Task, Event, sys_enter, sys_exit, start_key, SyscountMaps, trace,
  trace_syscall_enter, trace_syscall_exit,
}
use rex_with_driver.Syscount.Counts.{entered, failed, as_count, trace-as_count}
use rex_with_driver.Syscount.Latency.{concerns, value_of, trace_syscall_exit-trace_syscall_enter}

abbrev Table : Type 0
Table = ℕ → Option ℕ

abbrev store : ℕ → ℕ → Table → Table
store k v m = λ j. if k == j then overwritten (m j) v else m j

abbrev update : ℕ → ℕ → Table → Table
update k v m = λ j. if k == j then some v else m j

abbrev delete : ℕ → Table → Table
delete k m = λ j. if k == j then none else m j

abbrev tables : HashMaps
tables = record {
  Entries = Table;
  lookup = λ m k. m k;
  store = store;
  update = update;
  update_error = λ k m. none;
  delete = delete;
  delete_error = λ k m. none;
  lookup-store = λ k v j m. refl;
  lookup-update = λ k v j m e. refl;
  lookup-delete = λ k j m. refl;
  delete_found = λ k v m e. refl;
}

abbrev empty : SyscountMaps tables
empty = record { counts = λ j. none; errors = λ j. none; start = λ j. none; latency = λ j. none }

abbrev task : Task
task = record { tgid = 7; pid = 7 }

abbrev other_task : Task
other_task = record { tgid = 7; pid = 8 }

abbrev events : List Event
events =
    sys_enter 1 100 (some other_task)
    ∷ (sys_exit 1 (2 ^ 64 - 4) 130 (some other_task) ∷ (sys_enter 3 140 none ∷ []))

trace-as_count_example :
    ((trace tables events empty).counts 1 ≡ as_count (0 + entered 1 events))
    × ((trace tables events empty).errors 1 ≡ as_count (0 + failed 1 events))
unfolding entered failed
trace-as_count_example =
    trace-as_count tables (λ k m. refl) 1 0 0 events empty refl refl (omega arith) (omega arith)

trace_syscall_exit-trace_syscall_enter_example :
    let (m1, first) = trace_syscall_enter tables 1 90 (some task) empty in
    let m2 = trace tables events m1 in
    let (m3, last) = trace_syscall_exit tables 1 0 150 (some task) m2 in
    (first ≡ ok 0)
    × (last ≡ ok 0)
    × (m3.latency 1 ≡ some ((value_of (m2.latency 1) + (150 - 90)) % 2 ^ 64))
    × (m3.start (start_key 1 task) ≡ none)
unfolding concerns start_key
trace_syscall_exit-trace_syscall_enter_example =
    trace_syscall_exit-trace_syscall_enter tables (λ k m. refl) 1 0 90 150 task events empty refl
      (omega arith) (omega arith)
