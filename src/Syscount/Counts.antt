-- ===== src/Syscount/Counts.antt =====
-- samples/syscount/src/main.rs: what the maps of counts and of errors hold after any sequence of
-- events.
use rex_with_driver.Base.{
  ℕ, zero, suc, ◌+◌, ◌%◌, ◌^◌, ◌≡◌, ◌<◌, ◌==◌, refl, ap, sym, ◌∙◌, arith, List, [], ◌∷◌, Option,
  none, some, false, ◌&&◌, if◌then◌else◌, leb, inl, inr, Bool-cases, Option-cases, ==_iff,
}
use rex_with_driver.Syscount.{
  HashMaps, Task, Event, sys_enter, sys_exit, syscall_id, start_key, SyscountMaps, add_to,
  add_error, record_end, trace_syscall_enter, trace_syscall_exit, trace,
}

-- How often a system call was entered, and how often it ended in an error.
unfoldable pub entered : ℕ → List Event → ℕ
entered j [] = 0
entered j (sys_enter id now task ∷ es) = (if syscall_id id == j then 1 else 0) + entered j es
entered j (sys_exit id ret now task ∷ es) = entered j es

unfoldable pub failed : ℕ → List Event → ℕ
failed j [] = 0
failed j (sys_enter id now task ∷ es) = failed j es
failed j (sys_exit id ret now task ∷ es) =
    (if leb (2 ^ 63) ret && syscall_id id == j then 1 else 0) + failed j es

-- The entry of a counter: none for a zero.
abbrev pub as_count : ℕ → Option ℕ
as_count zero = none
as_count (suc n) = some (suc n)

module _ (h : HashMaps) (room : (key : ℕ) (m : h.Entries) → h.update_error key m ≡ none) where
  lookup-add_to_self :
      (key c : ℕ) (m : h.Entries)
      → h.lookup m key ≡ as_count c
      → c + 1 < 2 ^ 64
      → h.lookup (add_to h key 1 m) key ≡ some (c + 1)
  unfolding add_to
  lookup-add_to_self key zero m before small =
      ground (arith, before, h.lookup-update key 1 key m (room key m))
  lookup-add_to_self key (suc c) m before small =
      ground (arith, before, h.lookup-store key ((suc c + 1) % 2 ^ 64) key m)

  pub lookup-add_to_other :
      (key amount j : ℕ) (m : h.Entries)
      → (key == j) ≡ false
      → h.lookup (add_to h key amount m) j ≡ h.lookup m j
  unfolding add_to
  lookup-add_to_other key amount j m other = elim (Option-cases (h.lookup m key)) [
    | inl e ↦ ground (arith, e, other, h.lookup-update key amount j m (room key m))
    | inr (n, e) ↦ ground (arith, e, other, h.lookup-store key ((n + amount) % 2 ^ 64) j m)
  ]

  add_to-as_count :
      (key j c : ℕ) (m : h.Entries)
      → h.lookup m j ≡ as_count c
      → c + (if key == j then 1 else 0) < 2 ^ 64
      → h.lookup (add_to h key 1 m) j ≡ as_count (c + (if key == j then 1 else 0))
  add_to-as_count key j c m before small = elim (Bool-cases (key == j)) [
    | inl same ↦
        let e : key ≡ j = (==_iff key j).0 same in
        let next : c + (if key == j then 1 else 0) ≡ suc c = ground (arith, same) in
        ap (λ k. h.lookup (add_to h k 1 m) j) e
        ∙ lookup-add_to_self j c m before (omega (arith, next))
        ∙ ap some {y = suc c} (omega arith)
        ∙ ap as_count (sym next)
    | inr other ↦
        let next : c + (if key == j then 1 else 0) ≡ c = ground (arith, other) in
        lookup-add_to_other key 1 j m other ∙ before ∙ ap as_count (sym next)
  ]

  pub add_error-none : (key : ℕ) (m : h.Entries) → add_error h key m ≡ none
  unfolding add_error
  add_error-none key m = elim (Option-cases (h.lookup m key)) [
    | inl e ↦ ground (arith, e, room key m)
    | inr (n, e) ↦ ground (arith, e)
  ]

  -- The maps of counts that an event leaves.
  enter-counts :
      (id now : ℕ) (task : Option Task) (m : SyscountMaps h)
      → ((trace_syscall_enter h id now task m).0.counts ≡ add_to h (syscall_id id) 1 m.counts)
        × ((trace_syscall_enter h id now task m).0.errors ≡ m.errors)
  unfolding trace_syscall_enter
  enter-counts id now none m = ground (arith, add_error-none (syscall_id id) m.counts)
  enter-counts id now (some t) m = ground (arith, add_error-none (syscall_id id) m.counts)

  record_end-counts :
      (id now : ℕ) (task : Option Task) (m : SyscountMaps h)
      → ((record_end h id now task m).0.counts ≡ m.counts)
        × ((record_end h id now task m).0.errors ≡ m.errors)
  record_end-counts id now none m = (refl, refl)
  record_end-counts id now (some t) m = elim (Option-cases (h.lookup m.start (start_key id t))) [
    | inl e ↦ ground (arith, e)
    | inr (started, e) ↦ ground (arith, e, add_error-none id m.latency)
  ]

  exit-counts :
      (id ret now : ℕ) (task : Option Task) (m : SyscountMaps h)
      → ((trace_syscall_exit h id ret now task m).0.counts ≡ m.counts)
        × ((trace_syscall_exit h id ret now task m).0.errors
            ≡ (if leb (2 ^ 63) ret then add_to h (syscall_id id) 1 m.errors else m.errors))
  unfolding trace_syscall_exit
  exit-counts id ret now task m =
      let m' = record m { errors = add_to h (syscall_id id) 1 m.errors } in
      ground (
        arith,
        add_error-none (syscall_id id) m.errors,
        record_end-counts (syscall_id id) now task m,
        record_end-counts (syscall_id id) now task m',
      )

  exit-as_count :
      (id ret j f : ℕ) (m : h.Entries)
      → h.lookup m j ≡ as_count f
      → f + (if leb (2 ^ 63) ret && syscall_id id == j then 1 else 0) < 2 ^ 64
      → h.lookup (if leb (2 ^ 63) ret then add_to h (syscall_id id) 1 m else m) j
        ≡ as_count (f + (if leb (2 ^ 63) ret && syscall_id id == j then 1 else 0))
  exit-as_count id ret j f m before small = elim (Bool-cases (leb (2 ^ 63) ret)) [
    | inl negative ↦
        let counted =
          add_to-as_count (syscall_id id) j f m before (ground (arith, small, negative)) in
        ground (arith, negative, counted)
    | inr positive ↦
        let same : f + (if leb (2 ^ 63) ret && syscall_id id == j then 1 else 0) ≡ f =
          ground (arith, positive) in
        ground (arith, positive, before, ap as_count same)
  ]

  -- Whatever the events, in whichever order and with or without a task, the map of counts has for every
  -- system call how often it was entered since the map had `c` for it, and the map of errors how often
  -- it ended in an error since that map had `f`, where a system call with no count has no entry. The
  -- maps are to have room for every key, and the counts are to fit a u64.
  pub trace-as_count :
      (j c f : ℕ) (es : List Event) (m : SyscountMaps h)
      → h.lookup m.counts j ≡ as_count c
      → h.lookup m.errors j ≡ as_count f
      → c + entered j es < 2 ^ 64
      → f + failed j es < 2 ^ 64
      → (h.lookup (trace h es m).counts j ≡ as_count (c + entered j es))
        × (h.lookup (trace h es m).errors j ≡ as_count (f + failed j es))
  unfolding trace entered failed
  trace-as_count j c f [] m counted erred small small' =
      (counted ∙ ap as_count (omega arith), erred ∙ ap as_count (omega arith))
  trace-as_count j c f (sys_enter id now task ∷ es) m counted erred small small' =
      let one : ℕ = if syscall_id id == j then 1 else 0 in
      let (counts, errors) = enter-counts id now task m in
      let counted' =
        ap (λ n. h.lookup n j) counts
        ∙ add_to-as_count (syscall_id id) j c m.counts counted (omega arith) in
      let (all, all') =
        trace-as_count j (c + one) f es (trace_syscall_enter h id now task m).0 counted'
          (ap (λ n. h.lookup n j) errors ∙ erred) (omega arith) small' in
      (all ∙ ap as_count (omega arith), all')
  trace-as_count j c f (sys_exit id ret now task ∷ es) m counted erred small small' =
      let one : ℕ = if leb (2 ^ 63) ret && syscall_id id == j then 1 else 0 in
      let (counts, errors) = exit-counts id ret now task m in
      let erred' =
        ap (λ n. h.lookup n j) errors ∙ exit-as_count id ret j f m.errors erred (omega arith) in
      let (all, all') =
        trace-as_count j c (f + one) es (trace_syscall_exit h id ret now task m).0
          (ap (λ n. h.lookup n j) counts ∙ counted) erred' small (omega arith) in
      (all, all' ∙ ap as_count (omega arith))
