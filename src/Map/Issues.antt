-- ===== src/Map/Issues.antt =====
-- rex/src/map.rs over rex/src/base_helper.rs: which kernel call each map operation makes.
use rex_with_driver.Base.{
  ℕ, ◌≡◌, refl, Option, some, none, ◌==◌, if◌then◌else◌, inl, inr, Bool-cases, ap, sym, ◌∙◌,
  if_true, if_false,
}
use rex_with_driver.Kernel.{Bytes, Env, Cpu, Call, Answer, M, Outcome, done, after_call, bind, pure}
use rex_with_driver.Panic.{rex_handle_timeout}
use rex_with_driver.Termination.{checked_call}
use rex_with_driver.Termination.Laws.{
  inside, outside, checked_call-replied, checked_call-expired, bind-handle_timeout,
}
use rex_with_driver.Utils.{Result, err, to_result, ok_or_none}
use rex_with_driver.BaseHelper.{
  RexMapHandle, with_map, bpf_map_lookup_elem, bpf_map_update_elem, bpf_map_delete_elem,
  bpf_map_push_elem, bpf_map_pop_elem, bpf_map_peek_elem,
}
use rex_with_driver.Map.{insert, insert_new, update, get_mut, delete, push, force_push, pop, peek}

-- What one kernel call on a map comes to: on a map that the kernel has not loaded no call is made
-- and the result is `missing`; on a loaded map the call is made once and its answer decoded, with
-- the flag cleared; if the timer fires meanwhile, the timeout handler runs.
unfoldable pub issue {ℓ} :
    {A : Type ℓ} → Env → RexMapHandle → A → (ℕ → Call) → (Answer → A) → Cpu → Outcome A
issue k map missing call decode s =
    if map.kptr == 0
    then done missing s
    else let c = call map.kptr in
      let answer = k.kernel s.calls c in
      if answer.timeout
      then rex_handle_timeout k (after_call k c (inside s))
      else done (decode answer) (outside (after_call k c s))

pub with_map-issue {ℓ} :
    {A : Type ℓ} (k : Env) (map : RexMapHandle) (missing : A) (call : ℕ → Call)
    (decode : Answer → A) (s : Cpu)
    → with_map k map missing (λ p t. bind (checked_call k (call p) t) (λ a. pure (decode a))) s
      ≡ issue k map missing call decode s
unfolding issue
with_map-issue {A} k map missing call decode s = elim (Bool-cases (map.kptr == 0)) [
  | inl null ↦ rw null refl
  | inr loaded ↦ elim (Bool-cases (k.kernel s.calls (call map.kptr)).timeout) [
    | inl late ↦ rw loaded (
        ap (λ o. bind o reply) (checked_call-expired k c s late)
        ∙ bind-handle_timeout k reply (after_call k c (inside s))
        ∙ sym (if_true _ _ late))
    | inr soon ↦
        rw loaded
          (ap (λ o. bind o reply) (checked_call-replied k c s soon) ∙ sym (if_false _ _ soon))
  ]
]
  where
    c : Call
    c = call map.kptr

    reply : Answer → M A
    reply a = pure (decode a)

-- The value behind an output pointer, of a call that did not fail.
abbrev pub out_value : Answer → Option Bytes
out_value a = ok_or_none (to_result 32 a.rax) a.out

abbrev pub int_value : Answer → Result
int_value a = to_result 32 a.rax

abbrev pub pointer : Answer → Option ℕ
pointer a = if a.rax == 0 then none else some a.rax

module _ (k : Env) (map : RexMapHandle) (s : Cpu) where
  abbrev issue_int : (ℕ → Call) → Outcome Result
  issue_int call = issue k map (err k.uapi.einval) call int_value s

  -- `insert`, `insert_new`, `update`, `delete`, `push` and `force_push` each make their own kernel
  -- call with their own flag, once, and decode what it returned; on a map that is not loaded they
  -- make none and return `Err(EINVAL)`. `pop` makes its call once and returns the value popped, or
  -- `None` if the call failed; on a map that is not loaded it makes none and returns `None`. If the
  -- timer fires during the call, the timeout handler runs instead.
  pub writes_issue :
      (key value : Bytes)
      → (insert k map key value s
          ≡ issue_int (λ p. Call.map_update_elem p key value k.uapi.bpf_any))
        × (insert_new k map key value s
            ≡ issue_int (λ p. Call.map_update_elem p key value k.uapi.bpf_noexist))
        × (update k map key value s
            ≡ issue_int (λ p. Call.map_update_elem p key value k.uapi.bpf_exist))
        × (delete k map key s ≡ issue_int (λ p. Call.map_delete_elem p key))
        × (push k map value s ≡ issue_int (λ p. Call.map_push_elem p value k.uapi.bpf_any))
        × (force_push k map value s ≡ issue_int (λ p. Call.map_push_elem p value k.uapi.bpf_exist))
        × (pop k map s ≡ issue k map none Call.map_pop_elem out_value s)
  unfolding insert insert_new update delete push force_push bpf_map_update_elem bpf_map_delete_elem
      bpf_map_push_elem pop bpf_map_pop_elem
  writes_issue key value =
      let all = λ (call : ℕ → Call). with_map-issue k map (err k.uapi.einval) call int_value s in
      (
        all (λ p. Call.map_update_elem p key value k.uapi.bpf_any),
        all (λ p. Call.map_update_elem p key value k.uapi.bpf_noexist),
        all (λ p. Call.map_update_elem p key value k.uapi.bpf_exist),
        all (λ p. Call.map_delete_elem p key),
        all (λ p. Call.map_push_elem p value k.uapi.bpf_any),
        all (λ p. Call.map_push_elem p value k.uapi.bpf_exist),
        with_map-issue k map none Call.map_pop_elem out_value s,
      )

  -- Each operation that reads a map makes its own kernel call once and returns what the call found,
  -- `None` for a null pointer or an error; on a map that is not loaded it makes none; if the timer
  -- fires during the call, the timeout handler runs instead.
  pub reads_issue :
      (key : Bytes)
      → (get_mut k map key s ≡ issue k map none (λ p. Call.map_lookup_elem p key) pointer s)
        × (pop k map s ≡ issue k map none Call.map_pop_elem out_value s)
        × (peek k map s ≡ issue k map none Call.map_peek_elem out_value s)
  unfolding get_mut pop peek bpf_map_lookup_elem bpf_map_pop_elem bpf_map_peek_elem
  reads_issue key = (
    with_map-issue k map none (λ p. Call.map_lookup_elem p key) pointer s,
    with_map-issue k map none Call.map_pop_elem out_value s,
    with_map-issue k map none Call.map_peek_elem out_value s,
  )
