-- ===== src/RexMacros.antt =====
-- rex-macros/src: the entry functions that the attribute macros generate around a program. The
-- other code of the macros parses attributes and prints tokens.
pub mod Entries
use rex_with_driver.Base.{ℕ}
use rex_with_driver.Kernel.{Env, M, pure, ◌>>=◌}
use rex_with_driver.Utils.{Result, ok, err}
use rex_with_driver.Xdp.{XdpMd}
use rex_with_driver.Xdp
use rex_with_driver.SchedCls.{SkBuffMd}
use rex_with_driver.SchedCls

-- `unwrap_or_else(|e| e) as u32`
unfoldable pub unwrap_result : Result → ℕ
unwrap_result (ok v) = v
unwrap_result (err e) = e

unfoldable pub xdp_entry : Env → (XdpMd → M Result) → ℕ → M ℕ
xdp_entry k program ctx = do
  newctx ← Xdp.convert_ctx k ctx
  res ← program newctx
  pure (unwrap_result res)

unfoldable pub tc_entry : Env → (SkBuffMd → M Result) → ℕ → M ℕ
tc_entry k program ctx = do
  newctx ← SchedCls.convert_ctx k ctx
  res ← program newctx
  pure (unwrap_result res)

-- The contexts of the other program types are the kernel's objects, by their address.
unfoldable pub event_entry : (ℕ → M Result) → ℕ → M ℕ
event_entry program ctx = do res ← program ctx; pure (unwrap_result res)
