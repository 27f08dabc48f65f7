-- ===== src/Map/Contents/Replays.antt =====
-- rex/src/map.rs: sequences of operations on a hash map refine the steps of its abstract view.
use rex_with_driver.Base.{
  ℕ, ◌≡◌, ◌==◌, refl, ap, sym, subst, ◌∙◌, List, [], ◌∷◌, Option, none, some, false, if◌then◌else◌,
  inl, inr, Option-cases,
}
use rex_with_driver.Kernel.{Bytes, Env, Call, Cpu, Answer, M, Outcome, done, bind, pure, after_call}
use rex_with_driver.Termination.Laws.{outside}
use rex_with_driver.Utils.{Result, ok, err, to_result}
use rex_with_driver.BaseHelper.{RexMapHandle}
use rex_with_driver.Map.{insert, insert_new, update, delete}
use rex_with_driver.Map.Issues.{issue, int_value, pointer, writes_issue, reads_issue}
use rex_with_driver.Map.Contents.{
  Contents, written, removed, Kept, Op, insert_op, insert_new_op, update_op, delete_op, get_op,
  Reply, result, found, Step, inserted, inserted_new, updated, insert_refused, insert_new_refused,
  update_refused, deleted, not_there, got, Steps, no_steps, one_more, read_reference, run_op,
  run_ops,
}

-- On a loaded map, with the timer at rest, a call is made and its answer decoded.
pub issue-quiet :
    {A : Type 0} (k : Env) (map : RexMapHandle) (missing : A) (call : ℕ → Call)
    (decode : Answer → A) (s : Cpu)
    → (map.kptr == 0) ≡ false
    → (k.kernel s.calls (call map.kptr)).timeout ≡ false
    → issue k map missing call decode s
      ≡ done (decode (k.kernel s.calls (call map.kptr))) (outside (after_call k (call map.kptr) s))
unfolding issue
issue-quiet k map missing call decode s loaded soon = rw (loaded, soon) refl

pub to_result-zero : to_result 32 0 ≡ ok 0
unfolding to_result
to_result-zero = refl

module _ (k : Env) (map : RexMapHandle) (loaded : (map.kptr == 0) ≡ false)
    (kept : Kept k map.kptr) where
  -- One operation, as a step from the contents before to those after.
  abbrev Stepped : Cpu → Op → Type 0
  Stepped s op =
      (reply : Reply) × (t : Cpu) × (run_op k map kept.value_at op s ≡ done reply t)
      × Step (kept.contents s.calls) op reply (kept.contents t.calls)

  abbrev after : Cpu → Call → Cpu
  after s c = outside (after_call k c s)

  stepped :
      (s : Cpu) (op : Op) (c : Call) (o : M Result) (r : Result) (n : Contents)
      → run_op k map kept.value_at op s ≡ bind (o s) (λ a. pure (result a))
      → o s ≡ done (to_result 32 (k.kernel s.calls c).rax) (after s c)
      → to_result 32 (k.kernel s.calls c).rax ≡ r
      → kept.contents (c ∷ s.calls) ≡ n
      → Step (kept.contents s.calls) op (result r) n
      → Stepped s op
  stepped s op c o r n runs issued decoded contents step = (
    result r,
    after s c,
    runs ∙ ap (λ a. bind a (λ b. pure (result b))) (issued ∙ ap (λ b. done b (after s c)) decoded),
    subst (λ m. Step (kept.contents s.calls) op (result r) m) (sym contents) step,
  )

  -- An update with a flag, which goes through or is refused.
  update-Stepped :
      (s : Cpu) (op : Op) (key value : Bytes) (flags : ℕ) (o : M Result)
      → run_op k map kept.value_at op s ≡ bind (o s) (λ a. pure (result a))
      → o s
        ≡ issue k map (err k.uapi.einval) (λ p. Call.map_update_elem p key value flags) int_value s
      → ((k.kernel s.calls (Call.map_update_elem map.kptr key value flags)).rax ≡ 0
          → Step
              (kept.contents s.calls)
              op
              (result (ok 0))
              (written key value (kept.contents s.calls)))
      → ((e : ℕ) → Step (kept.contents s.calls) op (result (err e)) (kept.contents s.calls))
      → Stepped s op
  update-Stepped s op key value flags o runs issues through refused =
      let c = Call.map_update_elem map.kptr key value flags in
      let m = kept.contents s.calls in
      let issued =
        issues
        ∙ issue-quiet k map (err k.uapi.einval) (λ p. Call.map_update_elem p key value flags)
            int_value s loaded (kept.quiet s.calls c) in
      elim (kept.update_code s.calls key value flags) [
        | inl zero ↦
            stepped s op c o (ok 0) (written key value m) runs issued
              (ap (to_result 32) zero ∙ to_result-zero)
              (kept.after_update s.calls key value flags zero) (through zero)
        | inr (e, failed) ↦
            stepped s op c o (err e) m runs issued failed
              (kept.after_failed_update s.calls key value flags e failed) (refused e)
      ]

  delete-Stepped : (s : Cpu) (key : Bytes) → Stepped s (delete_op key)
  unfolding run_op
  delete-Stepped s key =
      let c = Call.map_delete_elem map.kptr key in
      let m = kept.contents s.calls in
      let issued =
        (writes_issue k map s key key).3
        ∙ issue-quiet k map (err k.uapi.einval) (λ p. Call.map_delete_elem p key) int_value s loaded
            (kept.quiet s.calls c) in
      elim (Option-cases (m key)) [
        | inl missing ↦
            let (e, failed) = kept.delete_missing s.calls key missing in
            stepped s (delete_op key) c (delete k map key) (err e) m refl issued failed
              (kept.after_failed_delete s.calls key missing) (not_there m key e missing)
        | inr (old, there) ↦
            stepped s (delete_op key) c (delete k map key) (ok 0) (removed key m) refl issued
              (ap (to_result 32) (kept.delete_found s.calls key old there) ∙ to_result-zero)
              (kept.after_delete s.calls key old there) (deleted m key old there)
      ]

  get-Stepped : (s : Cpu) (key : Bytes) → Stepped s (get_op key)
  unfolding run_op read_reference
  get-Stepped s key =
      let c = Call.map_lookup_elem map.kptr key in
      let m = kept.contents s.calls in
      let t = after s c in
      let issued =
        (reads_issue k map s key).0
        ∙ issue-quiet k map none (λ p. Call.map_lookup_elem p key) pointer s loaded
            (kept.quiet s.calls c) in
      let reads = λ (o : Outcome (Option ℕ)). bind o (read_reference k map kept.value_at) in
      let step : Step m (get_op key) (found (m key)) (kept.contents t.calls) =
        subst (λ n. Step m (get_op key) (found (m key)) n) (sym (kept.after_lookup s.calls key))
          (got m key) in
      elim (Option-cases (m key)) [
        | inl missing ↦
            let null = kept.lookup_missing s.calls key missing in
            (
              found (m key),
              t,
              ap reads (issued ∙ ap (λ n. done (if n == 0 then none else some n) t) null)
                  ∙ ap (λ o. done (found o) t) (sym missing),
              step,
            )
        | inr (v, there) ↦
            let address = (k.kernel s.calls c).rax in
            let (some_address, holds) = kept.lookup_found s.calls key v there in
            (
              found (m key),
              t,
              ap reads (issued ∙ ap (λ b. done (if b then none else some address) t) some_address)
                  ∙ ap (λ w. done (found (some w)) t) holds
                  ∙ ap (λ o. done (found o) t) (sym there),
              step,
            )
      ]

  run_op-Step : (op : Op) (s : Cpu) → Stepped s op
  unfolding run_op
  run_op-Step (insert_op key value) s =
      update-Stepped s (insert_op key value) key value k.uapi.bpf_any (insert k map key value) refl
        (writes_issue k map s key value).0 (λ zero. inserted (kept.contents s.calls) key value)
        (λ e. insert_refused (kept.contents s.calls) key value e)
  run_op-Step (insert_new_op key value) s =
      update-Stepped s (insert_new_op key value) key value k.uapi.bpf_noexist
        (insert_new k map key value) refl (writes_issue k map s key value).1
        (λ zero.
          inserted_new (kept.contents s.calls) key value (kept.noexist s.calls key value zero))
        (λ e. insert_new_refused (kept.contents s.calls) key value e)
  run_op-Step (update_op key value) s =
      update-Stepped s (update_op key value) key value k.uapi.bpf_exist (update k map key value)
        refl (writes_issue k map s key value).2
        (λ zero.
          let (old, there) = kept.exist s.calls key value zero in
          updated (kept.contents s.calls) key value old there)
        (λ e. update_refused (kept.contents s.calls) key value e)
  run_op-Step (delete_op key) s = delete-Stepped s key
  run_op-Step (get_op key) s = get-Stepped s key

  -- Every sequence of operations on a hash map returns, and its replies are those of a run of the
  -- abstract map from the contents before to the contents after: an insertion goes through or is
  -- refused with no effect, a new one only where the key is absent and an update only where it is
  -- present; a deletion tells whether the key was there; a lookup gives the value. The map is to be
  -- loaded, the kernel to keep it as documented, and the timer not to fire.
  pub run_ops-Steps :
      (ops : List Op) (s : Cpu)
      → (replies : List Reply) × (t : Cpu) × (run_ops k map kept.value_at ops s ≡ done replies t)
        × Steps (kept.contents s.calls) ops replies (kept.contents t.calls)
  unfolding run_ops
  run_ops-Steps [] s = ([], s, refl, no_steps (kept.contents s.calls))
  run_ops-Steps (op ∷ ops) s =
      let (reply, t, first, step) = run_op-Step op s in
      let (replies, u, rest, steps) = run_ops-Steps ops t in
      (
        reply ∷ replies,
        u,
        ap (λ o. bind o (λ r. λ x. bind (run_ops k map kept.value_at ops x) (λ rs. pure (r ∷ rs))))
              first
            ∙ ap (λ o. bind o (λ rs. pure (reply ∷ rs))) rest,
        one_more step steps,
      )
