-- ===== src/MapTest/Steps.antt =====
-- samples/map_test_2/src/main.rs, `map_test_hash`: the `?` operator, and the insertion and deletion of
-- the test, on a kernel that keeps the map.
use mathlib.Core.Path.{fun_ext}
use rex_with_driver.Base.{arith, ℕ, ◌≡◌, ◌==◌, ◌⊎◌, ap, ◌∙◌, Option, some, false, inl, inr}
use rex_with_driver.Kernel.{Bytes, Env, Call, Cpu, M, done, bind, pure, after_call}
use rex_with_driver.Termination.Laws.{outside}
use rex_with_driver.Utils.{Result, ok, err, to_result}
use rex_with_driver.BaseHelper.{RexMapHandle}
use rex_with_driver.Map.{insert, delete}
use rex_with_driver.Map.Issues.{int_value, writes_issue}
use rex_with_driver.Map.Contents.{written, removed, Kept}
use rex_with_driver.Map.Contents.Replays.{issue-quiet, to_result-zero}
use rex_with_driver.MapTest.{and_then, key_zero}

pub and_then-ok :
    (m rest : M Result) (v : ℕ) (s t : Cpu) → m s ≡ done (ok v) t → and_then m rest s ≡ rest t
and_then-ok m rest v s t e = ap (λ o. bind o (λ r. elim r [ ok w ↦ rest | err e ↦ pure (err e) ])) e

pub and_then-err :
    (m rest : M Result) (n : ℕ) (s t : Cpu)
    → m s ≡ done (err n) t
    → and_then m rest s ≡ done (err n) t
and_then-err m rest n s t e =
    ap (λ o. bind o (λ r. elim r [ ok w ↦ rest | err e ↦ pure (err e) ])) e

pub removed-written :
    (v : Bytes) (m : Bytes → Option Bytes)
    → removed key_zero (written key_zero v m) ≡ removed key_zero m
removed-written v m = fun_ext (λ key. ground arith)

module _ (k : Env) (map : RexMapHandle) (loaded : (map.kptr == 0) ≡ false)
    (kept : Kept k map.kptr) where
  pub insert-cases :
      (key value : Bytes) (s : Cpu)
      → (t : Cpu) × (((insert k map key value s ≡ done (ok 0) t)
            × (kept.contents t.calls ≡ written key value (kept.contents s.calls)))
          ⊎ ((e : ℕ) × (insert k map key value s ≡ done (err e) t)
              × (kept.contents t.calls ≡ kept.contents s.calls)))
  insert-cases key value s =
      let c = Call.map_update_elem map.kptr key value k.uapi.bpf_any in
      let t = outside (after_call k c s) in
      let issued =
        (writes_issue k map s key value).0
        ∙ issue-quiet k map (err k.uapi.einval)
            (λ p. Call.map_update_elem p key value k.uapi.bpf_any) int_value s loaded
            (kept.quiet s.calls c) in
      (
        t,
        elim (kept.update_code s.calls key value k.uapi.bpf_any) [
          | inl zero ↦ inl (
            issued ∙ ap (λ r. done r t) (ap (to_result 32) zero ∙ to_result-zero),
            kept.after_update s.calls key value k.uapi.bpf_any zero,
          )
          | inr (e, failed) ↦ inr (
            e,
            issued ∙ ap (λ r. done r t) failed,
            kept.after_failed_update s.calls key value k.uapi.bpf_any e failed,
          )
        ],
      )

  pub delete-found :
      (key v : Bytes) (s : Cpu)
      → kept.contents s.calls key ≡ some v
      → (t : Cpu) × (delete k map key s ≡ done (ok 0) t)
        × (kept.contents t.calls ≡ removed key (kept.contents s.calls))
  delete-found key v s there =
      let c = Call.map_delete_elem map.kptr key in
      let t = outside (after_call k c s) in
      let issued =
        (writes_issue k map s key key).3
        ∙ issue-quiet k map (err k.uapi.einval) (λ p. Call.map_delete_elem p key) int_value s loaded
            (kept.quiet s.calls c) in
      (
        t,
        issued
            ∙ ap (λ r. done r t)
                (ap (to_result 32) (kept.delete_found s.calls key v there) ∙ to_result-zero),
        kept.after_delete s.calls key v there,
      )
