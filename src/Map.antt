-- ===== src/Map.antt =====
-- rex/src/map.rs: the typed maps, each operation by the helper and the flag that it stands for.
pub mod Issues
pub mod Contents
pub mod Tests
use rex_with_driver.Base.{ℕ, Option}
use rex_with_driver.Kernel.{Bytes, Env, M}
use rex_with_driver.Utils.{Result}
use rex_with_driver.BaseHelper.{
  RexMapHandle, bpf_map_lookup_elem, bpf_map_update_elem, bpf_map_delete_elem, bpf_map_push_elem,
  bpf_map_pop_elem, bpf_map_peek_elem,
}

module _ (k : Env) (map : RexMapHandle) where
  -- `RexHashMap` and `RexArrayMap`; a reference to a value is its address.
  unfoldable pub insert : Bytes → Bytes → M Result
  insert key value = bpf_map_update_elem k map key value k.uapi.bpf_any

  unfoldable pub insert_new : Bytes → Bytes → M Result
  insert_new key value = bpf_map_update_elem k map key value k.uapi.bpf_noexist

  unfoldable pub update : Bytes → Bytes → M Result
  update key value = bpf_map_update_elem k map key value k.uapi.bpf_exist

  unfoldable pub get_mut : Bytes → M (Option ℕ)
  get_mut key = bpf_map_lookup_elem k map key

  unfoldable pub delete : Bytes → M Result
  delete key = bpf_map_delete_elem k map key

  -- `RexStack` and `RexQueue`
  unfoldable pub push : Bytes → M Result
  push value = bpf_map_push_elem k map value k.uapi.bpf_any

  unfoldable pub force_push : Bytes → M Result
  force_push value = bpf_map_push_elem k map value k.uapi.bpf_exist

  unfoldable pub pop : M (Option Bytes)
  pop = bpf_map_pop_elem k map

  unfoldable pub peek : M (Option Bytes)
  peek = bpf_map_peek_elem k map
