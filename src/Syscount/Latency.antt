-- ===== src/Syscount/Latency.antt =====
-- samples/syscount/src/main.rs: the latency of a system call, from its start to its end.
use rex_with_driver.Base.{
  ℕ, ◌+◌, ◌-◌, ◌%◌, ◌^◌, ◌≡◌, ◌<◌, ◌≤◌, ◌==◌, refl, ap, ◌∙◌, arith, List, [], ◌∷◌, Option, none,
  some, Bool, false, ◌||◌, leb, inl, inr, Bool-cases, Option-cases,
}
use rex_with_driver.Utils.{ok}
use rex_with_driver.Syscount.{
  HashMaps, Task, Event, sys_enter, sys_exit, syscall_id, start_key, SyscountMaps, add_to,
  record_end, trace_syscall_enter, trace_syscall_exit, trace,
}
use rex_with_driver.Syscount.Counts.{add_error-none}

-- Whether an event is one of the system call and the task of this key.
abbrev of_task : ℕ → ℕ → Option Task → Bool
of_task key id none = false
of_task key id (some t) = start_key (syscall_id id) t == key

unfoldable pub concerns : ℕ → List Event → Bool
concerns key [] = false
concerns key (sys_enter id now task ∷ es) = of_task key id task || concerns key es
concerns key (sys_exit id ret now task ∷ es) = of_task key id task || concerns key es

-- What a counter stands for.
abbrev pub value_of : Option ℕ → ℕ
value_of none = 0
value_of (some n) = n

module _ (h : HashMaps) (room : (key : ℕ) (m : h.Entries) → h.update_error key m ≡ none) where
  lookup-add_to_total :
      (key amount : ℕ) (m : h.Entries)
      → amount < 2 ^ 64
      → h.lookup (add_to h key amount m) key ≡ some ((value_of (h.lookup m key) + amount) % 2 ^ 64)
  unfolding add_to
  lookup-add_to_total key amount m small = elim (Option-cases (h.lookup m key)) [
    | inl e ↦ ground (arith, e, h.lookup-update key amount key m (room key m))
    | inr (n, e) ↦ ground (arith, e, h.lookup-store key ((n + amount) % 2 ^ 64) key m)
  ]

  enter-start :
      (key id now : ℕ) (task : Option Task) (m : SyscountMaps h)
      → of_task key id task ≡ false
      → h.lookup (trace_syscall_enter h id now task m).0.start key ≡ h.lookup m.start key
  unfolding trace_syscall_enter
  enter-start key id now none m other =
      ground (arith, add_error-none h room (syscall_id id) m.counts)
  enter-start key id now (some t) m other =
      let k = start_key (syscall_id id) t in
      ground (
        arith,
        add_error-none h room (syscall_id id) m.counts,
        other,
        h.lookup-update k now key m.start (room k m.start),
      )

  record_end-start :
      (key id now : ℕ) (task : Option Task) (m : SyscountMaps h)
      → of_task key id task ≡ false
      → h.lookup (record_end h (syscall_id id) now task m).0.start key ≡ h.lookup m.start key
  record_end-start key id now none m other = refl
  record_end-start key id now (some t) m other =
      let k = start_key (syscall_id id) t in
      elim (Option-cases (h.lookup m.start k)) [
        | inl e ↦ ground (arith, e)
        | inr (started, e) ↦ ground (
          arith,
          e,
          add_error-none h room (syscall_id id) m.latency,
          other,
          h.lookup-delete k key m.start,
        )
      ]

  exit-start :
      (key id ret now : ℕ) (task : Option Task) (m : SyscountMaps h)
      → of_task key id task ≡ false
      → h.lookup (trace_syscall_exit h id ret now task m).0.start key ≡ h.lookup m.start key
  unfolding trace_syscall_exit
  exit-start key id ret now task m other =
      let m' = record m { errors = add_to h (syscall_id id) 1 m.errors } in
      ground (
        arith,
        add_error-none h room (syscall_id id) m.errors,
        record_end-start key id now task m other,
        record_end-start key id now task m' other,
      )

  trace-start :
      (key : ℕ) (es : List Event) (m : SyscountMaps h)
      → concerns key es ≡ false
      → h.lookup (trace h es m).start key ≡ h.lookup m.start key
  unfolding trace concerns
  trace-start key [] m others = refl
  trace-start key (sys_enter id now task ∷ es) m others =
      trace-start key es (trace_syscall_enter h id now task m).0 (ground (arith, others))
      ∙ enter-start key id now task m (ground (arith, others))
  trace-start key (sys_exit id ret now task ∷ es) m others =
      trace-start key es (trace_syscall_exit h id ret now task m).0 (ground (arith, others))
      ∙ exit-start key id ret now task m (ground (arith, others))

  -- The start that an event records.
  enter-recorded :
      (id now : ℕ) (t : Task) (m : SyscountMaps h)
      → (h.lookup (trace_syscall_enter h id now (some t) m).0.start (start_key (syscall_id id) t)
          ≡ some now)
        × ((trace_syscall_enter h id now (some t) m).1 ≡ ok 0)
  unfolding trace_syscall_enter
  enter-recorded id now t m =
      let k = start_key (syscall_id id) t in
      ground (
        arith,
        add_error-none h room (syscall_id id) m.counts,
        room k m.start,
        h.lookup-update k now k m.start (room k m.start),
      )

  record_end-recorded :
      (id now started : ℕ) (t : Task) (m : SyscountMaps h)
      → h.lookup m.start (start_key (syscall_id id) t) ≡ some started
      → started ≤ now
      → now < 2 ^ 64
      → let (m', r) = record_end h (syscall_id id) now (some t) m in
        (r ≡ ok 0)
        × (h.lookup m'.latency (syscall_id id)
            ≡ some ((value_of (h.lookup m.latency (syscall_id id)) + (now - started)) % 2 ^ 64))
        × (h.lookup m'.start (start_key (syscall_id id) t) ≡ none)
  record_end-recorded id now started t m found order small =
      let k = start_key (syscall_id id) t in
      let delta : (now + 2 ^ 64 - started) % 2 ^ 64 ≡ now - started = omega arith in
      let gone = h.lookup-delete k k m.start in
      let total = lookup-add_to_total (syscall_id id) (now - started) m.latency (omega arith) in
      (
        ground (
          arith,
          found,
          add_error-none h room (syscall_id id) m.latency,
          h.delete_found k started m.start found,
        ),
        ground (
          arith,
          found,
          add_error-none h room (syscall_id id) m.latency,
          delta,
          total,
          ap (λ d. h.lookup (add_to h (syscall_id id) d m.latency) (syscall_id id)) delta,
        ),
        ground (arith, found, add_error-none h room (syscall_id id) m.latency, gone),
      )

  exit-recorded :
      (id ret now started : ℕ) (t : Task) (m : SyscountMaps h)
      → h.lookup m.start (start_key (syscall_id id) t) ≡ some started
      → started ≤ now
      → now < 2 ^ 64
      → let (m', r) = trace_syscall_exit h id ret now (some t) m in
        (r ≡ ok 0)
        × (h.lookup m'.latency (syscall_id id)
            ≡ some ((value_of (h.lookup m.latency (syscall_id id)) + (now - started)) % 2 ^ 64))
        × (h.lookup m'.start (start_key (syscall_id id) t) ≡ none)
  unfolding trace_syscall_exit
  exit-recorded id ret now started t m found order small =
      let m' = record m { errors = add_to h (syscall_id id) 1 m.errors } in
      let (done, total, gone) = record_end-recorded id now started t m found order small in
      let (done', total', gone') = record_end-recorded id now started t m' found order small in
      elim (Bool-cases (leb (2 ^ 63) ret)) [
        | inl negative ↦
            let fine = add_error-none h room (syscall_id id) m.errors in
            (
              ground (arith, negative, fine, done'),
              ground (arith, negative, fine, total'),
              ground (arith, negative, fine, gone'),
            )
        | inr positive ↦ (
          ground (arith, positive, done),
          ground (arith, positive, total),
          ground (arith, positive, gone),
        )
      ]

  -- A task enters a system call, other events happen, none of them of the same call and task, and the
  -- task leaves the call, with an error or not: both programs return Ok(0), the latency of the call
  -- grows by the time between the two, a total modulo 2^64 that starts from 0 if there was none, and
  -- the start is gone. The maps are to have room for every key and the clock is not to go back.
  pub trace_syscall_exit-trace_syscall_enter :
      (id ret started now : ℕ) (t : Task) (es : List Event) (m : SyscountMaps h)
      → concerns (start_key (syscall_id id) t) es ≡ false
      → started ≤ now
      → now < 2 ^ 64
      → let (m1, entered) = trace_syscall_enter h id started (some t) m in
        let m2 = trace h es m1 in
        let (m3, left) = trace_syscall_exit h id ret now (some t) m2 in
        (entered ≡ ok 0)
        × (left ≡ ok 0)
        × (h.lookup m3.latency (syscall_id id)
            ≡ some ((value_of (h.lookup m2.latency (syscall_id id)) + (now - started)) % 2 ^ 64))
        × (h.lookup m3.start (start_key (syscall_id id) t) ≡ none)
  trace_syscall_exit-trace_syscall_enter id ret started now t es m others order small =
      let m1 = (trace_syscall_enter h id started (some t) m).0 in
      let (recorded, entered) = enter-recorded id started t m in
      let kept = trace-start (start_key (syscall_id id) t) es m1 others ∙ recorded in
      let (left, total, gone) =
        exit-recorded id ret now started t (trace h es m1) kept order small in
      (entered, left, total, gone)
