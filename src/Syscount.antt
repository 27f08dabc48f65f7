-- ===== src/Syscount.antt =====
-- samples/syscount/src/main.rs: the counts, errors and latencies of system calls. The kernel's hash
-- maps, its clock and the current task are parameters; a u64 counter wraps, as in a build for release.
pub mod Counts
pub mod Latency
pub mod Tests
use rex_with_driver.Base.{
  ℕ, ◌+◌, ◌-◌, ◌*◌, ◌%◌, ◌^◌, ◌≡◌, ◌==◌, List, [], ◌∷◌, Option, none, some, Bool, if◌then◌else◌,
  leb, bit_or,
}
use rex_with_driver.Utils.{Result, ok, err}

-- The entry of a key after a write through the reference that a lookup gave.
abbrev pub overwritten : Option ℕ → ℕ → Option ℕ
overwritten none v = none
overwritten (some old) v = some v

-- A hash map of the kernel from integers to u64, as a program sees it: `update` with BPF_ANY and
-- `delete` give an error or none. What they promise is the kernel's documentation of the calls.
pub record HashMaps : Type 1 where
  pub Entries : Type 0
  pub lookup : Entries → ℕ → Option ℕ
  pub store : ℕ → ℕ → Entries → Entries
  pub update : ℕ → ℕ → Entries → Entries
  pub update_error : ℕ → Entries → Option ℕ
  pub delete : ℕ → Entries → Entries
  pub delete_error : ℕ → Entries → Option ℕ
  pub lookup-store :
      (k v j : ℕ) (m : Entries)
      → lookup (store k v m) j ≡ (if k == j then overwritten (lookup m j) v else lookup m j)
  pub lookup-update :
      (k v j : ℕ) (m : Entries)
      → update_error k m ≡ none
      → lookup (update k v m) j ≡ (if k == j then some v else lookup m j)
  pub lookup-delete :
      (k j : ℕ) (m : Entries) → lookup (delete k m) j ≡ (if k == j then none else lookup m j)
  pub delete_found : (k v : ℕ) (m : Entries) → lookup m k ≡ some v → delete_error k m ≡ none

-- What `bpf_get_current_task` and the accessors of its result say: ids widened to u64.
pub record Task : Type 0 where
  pub tgid : ℕ
  pub pid : ℕ

-- An event of one of the two tracepoints, with the clock and the task when it happens; `ret` is the bit
-- pattern of an i64.
pub data Event : Type 0 where
  sys_enter : ℕ → ℕ → Option Task → Event
  sys_exit : ℕ → ℕ → ℕ → Option Task → Event

-- `ctx.id as u32`
abbrev pub syscall_id : ℕ → ℕ
syscall_id id = id % 2 ^ 32

-- `(syscall_id as u64) | (pid_tgid << 32)`
unfoldable pub start_key : ℕ → Task → ℕ
start_key id t =
    let pid_tgid = bit_or (t.tgid * 2 ^ 32 % 2 ^ 64) t.pid in bit_or id (pid_tgid * 2 ^ 32 % 2 ^ 64)

module _ (h : HashMaps) where
  pub record SyscountMaps : Type 0 where
    pub counts : h.Entries
    pub errors : h.Entries
    pub start : h.Entries
    pub latency : h.Entries

  -- A lookup, then an addition through the reference or a first value; with the error of the latter.
  unfoldable pub add_to : ℕ → ℕ → h.Entries → h.Entries
  add_to key amount m = elim (h.lookup m key) [
    | none ↦ h.update key amount m
    | some n ↦ h.store key ((n + amount) % 2 ^ 64) m
  ]

  unfoldable pub add_error : ℕ → h.Entries → Option ℕ
  add_error key m = elim (h.lookup m key) [ none ↦ h.update_error key m | some n ↦ none ]

  abbrev record_start : ℕ → ℕ → Option Task → SyscountMaps → SyscountMaps × Result
  record_start id now none m = (m, ok 0)
  record_start id now (some t) m = (
    record m { start = h.update (start_key id t) now m.start },
    elim (h.update_error (start_key id t) m.start) [ none ↦ ok 0 | some e ↦ err e ],
  )

  unfoldable pub trace_syscall_enter : ℕ → ℕ → Option Task → SyscountMaps → SyscountMaps × Result
  trace_syscall_enter ctx_id now task m =
      let id = syscall_id ctx_id in
      let m' = record m { counts = add_to id 1 m.counts } in
      elim (add_error id m.counts) [ none ↦ record_start id now task m' | some e ↦ (m', err e) ]

  -- The time since the start, and the start's removal.
  abbrev end_start : ℕ → ℕ → ℕ → ℕ → SyscountMaps → SyscountMaps × Result
  end_start id key started now m =
      let delta = (now + 2 ^ 64 - started) % 2 ^ 64 in
      let m' = record m { latency = add_to id delta m.latency } in
      elim (add_error id m.latency) [
        | some e ↦ (m', err e)
        | none ↦ (
          record m' { start = h.delete key m.start },
          elim (h.delete_error key m.start) [ none ↦ ok 0 | some e ↦ err e ],
        )
      ]

  abbrev record_end : ℕ → ℕ → Option Task → SyscountMaps → SyscountMaps × Result
  record_end id now none m = (m, ok 0)
  record_end id now (some t) m = elim (h.lookup m.start (start_key id t)) [
    | none ↦ (m, ok 0)
    | some started ↦ end_start id (start_key id t) started now m
  ]

  unfoldable pub trace_syscall_exit : ℕ → ℕ → ℕ → Option Task → SyscountMaps → SyscountMaps × Result
  trace_syscall_exit ctx_id ret now task m =
      let id = syscall_id ctx_id in
      if leb (2 ^ 63) ret
      then (let m' = record m { errors = add_to id 1 m.errors } in
          elim (add_error id m.errors) [ none ↦ record_end id now task m' | some e ↦ (m', err e) ])
      else record_end id now task m

  -- A sequence of events; the kernel ignores the results.
  unfoldable pub trace : List Event → SyscountMaps → SyscountMaps
  trace [] m = m
  trace (sys_enter id now task ∷ es) m = trace es (trace_syscall_enter id now task m).0
  trace (sys_exit id ret now task ∷ es) m = trace es (trace_syscall_exit id ret now task m).0
