-- ===== src/ProgramHelpers.antt =====
-- rex/src/base_helper.rs, `base_helper_defs!`: the methods that every program type offers.
use rex_with_driver.Base.{ℕ, Option}
use rex_with_driver.Kernel.{Bytes, Env, M}
use rex_with_driver.Utils.{Result}
use rex_with_driver.BaseHelper.{RexMapHandle}
use rex_with_driver.BaseHelper

-- The methods, by the names that a program calls.
pub record ProgramHelpers : Type 0 where
  pub bpf_get_smp_processor_id : M ℕ
  pub bpf_map_lookup_elem : RexMapHandle → Bytes → M (Option ℕ)
  pub bpf_map_update_elem : RexMapHandle → Bytes → Bytes → ℕ → M Result
  pub bpf_map_delete_elem : RexMapHandle → Bytes → M Result
  pub bpf_map_push_elem : RexMapHandle → Bytes → ℕ → M Result
  pub bpf_map_pop_elem : RexMapHandle → M (Option Bytes)
  pub bpf_map_peek_elem : RexMapHandle → M (Option Bytes)
  pub bpf_probe_read_kernel : ℕ → ℕ → M (Result × Bytes)
  pub bpf_jiffies64 : M ℕ
  pub bpf_get_numa_node_id : M ℕ
  pub bpf_ktime_get_ns : M ℕ
  pub bpf_ktime_get_boot_ns : M ℕ
  pub bpf_ktime_get_coarse_ns : M ℕ
  pub bpf_get_prandom_u32 : M ℕ
  pub bpf_snprintf : ℕ → Bytes → Bytes → M (Result × Bytes)

unfoldable pub base_helper_defs : Env → ProgramHelpers
base_helper_defs k = record {
  bpf_get_smp_processor_id = BaseHelper.bpf_get_smp_processor_id k;
  bpf_map_lookup_elem = BaseHelper.bpf_map_lookup_elem k;
  bpf_map_update_elem = BaseHelper.bpf_map_update_elem k;
  bpf_map_delete_elem = BaseHelper.bpf_map_delete_elem k;
  bpf_map_push_elem = BaseHelper.bpf_map_push_elem k;
  bpf_map_pop_elem = BaseHelper.bpf_map_pop_elem k;
  bpf_map_peek_elem = BaseHelper.bpf_map_peek_elem k;
  bpf_probe_read_kernel = BaseHelper.bpf_probe_read_kernel k;
  bpf_jiffies64 = BaseHelper.bpf_jiffies64 k;
  bpf_get_numa_node_id = BaseHelper.bpf_get_numa_node_id k;
  bpf_ktime_get_ns = BaseHelper.bpf_ktime_get_ns k;
  bpf_ktime_get_boot_ns = BaseHelper.bpf_ktime_get_boot_ns k;
  bpf_ktime_get_coarse_ns = BaseHelper.bpf_ktime_get_coarse_ns k;
  bpf_get_prandom_u32 = BaseHelper.bpf_get_prandom_u32 k;
  bpf_snprintf = BaseHelper.bpf_snprintf k;
}
