-- ===== src/Panic.antt =====
-- rex/src/panic.rs: the per-CPU table of cleanup entries and the panic handler.
pub mod Table
pub mod Cleanup
pub mod Handler
pub mod Tests
use rex_with_driver.Base.{
  ℕ, ◌+◌, List, [], ◌∷◌, Option, none, some, ◌==◌, if◌then◌else◌, set, get_elem?, codes,
}
use rex_with_driver.Kernel.{
  Bytes, Env, Cpu, CleanupFn, unlock_spinlock, release_task, CleanupEntry, Call, Outcome, M, landed,
  nested, done, after_call,
}
use rex_with_driver.Text.{Written, written, refused, out_of_range}
use rex_with_driver.Log.{LogBuf}
use rex_with_driver.Log

-- `ENTRIES_SIZE`, the length of the kernel's array.
abbrev pub entries_size : ℕ
entries_size = 64

-- `CleanupEntry::new` and `CleanupEntry::default`
unfoldable pub new_entry : CleanupFn → ℕ → CleanupEntry
new_entry f arg = record { valid = 1; cleanup_fn = some f; cleanup_arg = arg }

unfoldable pub default_entry : CleanupEntry
default_entry = record { valid = 0; cleanup_fn = none; cleanup_arg = 0 }

-- The call that a cleanup function makes.
abbrev pub release_call : CleanupFn → ℕ → Call
release_call unlock_spinlock lock = Call.spin_unlock lock
release_call release_task task = Call.task_release task

-- `CleanupEntry::cleanup`
unfoldable pub cleanup : Env → CleanupEntry → Cpu → Cpu
cleanup k e s =
    if e.valid == 0
    then s
    else elim e.cleanup_fn [ none ↦ s | some f ↦ after_call k (release_call f e.cleanup_arg) s ]

unfoldable pub invalidate : CleanupEntry → CleanupEntry
invalidate e = record e { valid = 0 }

-- The loop of `cleanup_all`: the entries as it leaves them, and the calls that it made.
unfoldable pub cleanup_loop : Env → List CleanupEntry → Cpu → List CleanupEntry × Cpu
cleanup_loop k [] s = ([], s)
cleanup_loop k (e ∷ es) s =
    let (es', s') = cleanup_loop k es (cleanup k e s) in (invalidate e ∷ es', s')

unfoldable pub cleanup_all : Env → Cpu → Cpu
cleanup_all k s =
    let (es, s') = cleanup_loop k s.cleanup_entries s in record s' { cleanup_entries = es }

-- The first entry from index `i` on that is not valid.
unfoldable pub find_next_emtpy_entry : ℕ → List CleanupEntry → Option ℕ
find_next_emtpy_entry i [] = none
find_next_emtpy_entry i (e ∷ es) = if e.valid == 0 then some i else find_next_emtpy_entry (i + 1) es

abbrev pub unknown_panic : Bytes
unknown_panic = codes "unknown rust panic"

-- The log buffer that the handler leaves; `none` if writing it panics in turn.
unfoldable pub log_panic : List Bytes → Bytes → Option Bytes
log_panic info log_buf = elim (Log.write_fmt (Log.new log_buf) info) [
  | written b ↦ some b.buf
  | out_of_range ↦ none
  | refused b ↦ elim (Log.write_fmt (Log.reset b) (unknown_panic ∷ [])) [
    | written b' ↦ some b'.buf
    | refused b' ↦ some b'.buf
    | out_of_range ↦ none
  ]
]

-- The panic handler: set the flag, clean up, log, and leave through the landing pad, which does not
-- return.
unfoldable pub panic {ℓ} : {A : Type ℓ} → Env → Bytes → M A
panic k message s =
    let t = cleanup_all k (record s { termination_state = 1 }) in
    elim (log_panic (k.panic_info message) t.log_buf) [
      | none ↦ nested t
      | some log ↦ landed (after_call k Call.call_landingpad (record t { log_buf = log }))
    ]

abbrev pub object_count_exceeded : Bytes
object_count_exceeded = codes "Object count exceeded\n"

-- What `core` says of a bad index, without the numbers.
abbrev pub index_out_of_bounds : Bytes
index_out_of_bounds = codes "index out of bounds"

unfoldable pub register_cleanup : Env → CleanupFn → ℕ → M ℕ
register_cleanup k f arg s = elim (find_next_emtpy_entry 0 s.cleanup_entries) [
  | none ↦ panic k object_count_exceeded s
  | some idx ↦ done idx (record s { cleanup_entries = set s.cleanup_entries idx (new_entry f arg) })
]

unfoldable pub deregister_cleanup : Env → ℕ → M (Unit {0})
deregister_cleanup k idx s = elim (get_elem? s.cleanup_entries idx) [
  | none ↦ panic k index_out_of_bounds s
  | some e ↦ done tt (record s { cleanup_entries = set s.cleanup_entries idx (invalidate e) })
]

unfoldable pub rex_handle_timeout {ℓ} : {A : Type ℓ} → Env → M A
rex_handle_timeout k = panic k (codes "Timeout in Rex program")

unfoldable pub rex_handle_stack_overflow {ℓ} : {A : Type ℓ} → Env → M A
rex_handle_stack_overflow k = panic k (codes "Stack overflow in Rex program")
