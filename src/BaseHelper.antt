-- ===== src/BaseHelper.antt =====
-- rex/src/base_helper.rs: the helpers that every program type offers, over the map handles of
-- rex/src/map.rs. A key or a value is its bytes.
use rex_with_driver.Base.{ℕ, ◌%◌, ◌^◌, Option, none, some, ◌==◌, if◌then◌else◌}
use rex_with_driver.Kernel.{Bytes, Env, Call, M, pure, peek_memory, ◌>>=◌}
use rex_with_driver.Utils.{Result, err, to_result, ok_or_none}
use rex_with_driver.Termination.{checked_call}

-- `RexMapHandle`. The kernel writes `kptr` when it loads the program.
pub record RexMapHandle : Type 0 where
  pub map_type : ℕ
  pub key_size : ℕ
  pub val_size : ℕ
  pub max_size : ℕ
  pub map_flag : ℕ
  pub kptr : ℕ

-- `RexMapHandle::new`, at a map type and the sizes of `K` and `V`.
unfoldable pub new_handle : ℕ → ℕ → ℕ → ℕ → ℕ → RexMapHandle
new_handle mt k_size v_size ms mf = record {
  map_type = mt;
  key_size = k_size % 2 ^ 32;
  val_size = v_size % 2 ^ 32;
  max_size = ms;
  map_flag = mf;
  kptr = 0;
}

module _ (k : Env) where
  -- The reads of kernel variables.
  unfoldable pub bpf_get_smp_processor_id : M ℕ
  bpf_get_smp_processor_id = peek_memory k (λ m. m.cpu_number)

  unfoldable pub bpf_jiffies64 : M ℕ
  bpf_jiffies64 = peek_memory k (λ m. m.jiffies)

  unfoldable pub bpf_get_numa_node_id : M ℕ
  bpf_get_numa_node_id = peek_memory k (λ m. m.numa_node)

  -- The check for a null pointer that all the map helpers begin with.
  abbrev pub with_map {ℓ} : {A : Type ℓ} → RexMapHandle → A → (ℕ → M A) → M A
  with_map map missing use_map = if map.kptr == 0 then pure missing else use_map map.kptr

  unfoldable pub bpf_map_lookup_elem : RexMapHandle → Bytes → M (Option ℕ)
  bpf_map_lookup_elem map key = with_map map none λ kptr. do
    value ← checked_call k (Call.map_lookup_elem kptr key)
    pure (if value.rax == 0 then none else some value.rax)

  -- The helpers that return `to_result!` of a call's value, cast to an i32 first.
  abbrev pub int_call : RexMapHandle → (ℕ → Call) → M Result
  int_call map call =
      with_map map (err k.uapi.einval)
        λ kptr. do ret ← checked_call k (call kptr); pure (to_result 32 ret.rax)

  unfoldable pub bpf_map_update_elem : RexMapHandle → Bytes → Bytes → ℕ → M Result
  bpf_map_update_elem map key value flags =
      int_call map λ kptr. Call.map_update_elem kptr key value flags

  unfoldable pub bpf_map_delete_elem : RexMapHandle → Bytes → M Result
  bpf_map_delete_elem map key = int_call map λ kptr. Call.map_delete_elem kptr key

  unfoldable pub bpf_map_push_elem : RexMapHandle → Bytes → ℕ → M Result
  bpf_map_push_elem map value flags = int_call map λ kptr. Call.map_push_elem kptr value flags

  -- The value that the call wrote behind its pointer, if it did not fail.
  abbrev pub out_call : RexMapHandle → (ℕ → Call) → M (Option Bytes)
  out_call map call =
      with_map map none λ kptr. do
        ret ← checked_call k (call kptr)
        pure (ok_or_none (to_result 32 ret.rax) ret.out)

  unfoldable pub bpf_map_pop_elem : RexMapHandle → M (Option Bytes)
  bpf_map_pop_elem map = out_call map Call.map_pop_elem

  unfoldable pub bpf_map_peek_elem : RexMapHandle → M (Option Bytes)
  bpf_map_peek_elem map = out_call map Call.map_peek_elem

  -- `to_result!` here sees the i64.
  unfoldable pub bpf_probe_read_kernel : ℕ → ℕ → M (Result × Bytes)
  bpf_probe_read_kernel size unsafe_ptr = do
    ret ← checked_call k (Call.probe_read_kernel (size % 2 ^ 32) unsafe_ptr)
    pure (to_result 64 ret.rax, ret.out)

  unfoldable pub bpf_ktime_get_ns : M ℕ
  bpf_ktime_get_ns = do ret ← checked_call k Call.ktime_get_ns; pure (ret.rax % 2 ^ 64)

  unfoldable pub bpf_ktime_get_boot_ns : M ℕ
  bpf_ktime_get_boot_ns = do ret ← checked_call k Call.ktime_get_boot_ns; pure (ret.rax % 2 ^ 64)

  unfoldable pub bpf_ktime_get_coarse_ns : M ℕ
  bpf_ktime_get_coarse_ns = do
    ret ← checked_call k Call.ktime_get_coarse_ns
    pure (ret.rax % 2 ^ 64)

  unfoldable pub bpf_get_prandom_u32 : M ℕ
  bpf_get_prandom_u32 = do ret ← checked_call k Call.get_random_u32; pure (ret.rax % 2 ^ 32)

  unfoldable pub bpf_snprintf : ℕ → Bytes → Bytes → M (Result × Bytes)
  bpf_snprintf n fmt args = do
    ret ← checked_call k (Call.call_snprintf (n % 2 ^ 32) fmt args)
    pure (to_result 32 ret.rax, ret.out)
