-- ===== src/RexMacros/Entries.antt =====
-- rex-macros/src: what the generated entry functions hand to a program and return to the kernel.
use rex_with_driver.Base.{ℕ, ◌%◌, ◌^◌, ◌≡◌, ap, arith}
use rex_with_driver.Kernel.{Env, Cpu, M, bind, pure, ◌>>=◌}
use rex_with_driver.Utils.{Result, to_result}
use rex_with_driver.Xdp.{XdpMd}
use rex_with_driver.Xdp.Slices.{Ordered, Covers, convert_ctx-Covers}
use rex_with_driver.RexMacros.{unwrap_result, xdp_entry}

-- A program that passes the result of a kernel call on returns that call's 32 bits to the kernel,
-- an error as it is.
unwrap_result-to_result : (retval : ℕ) → unwrap_result (to_result 32 retval) ≡ retval % 2 ^ 32
unfolding unwrap_result to_result
unwrap_result-to_result retval = ground arith

-- The entry of an XDP program runs it once, on a context that covers the kernel's packet, and
-- returns the number of its result, a success or an error alike; a program that panics ends the
-- entry. The kernel is to keep the ends of the buffer in order.
xdp_entry_lem :
    (k : Env) (program : XdpMd → M Result) (kptr : ℕ) (s : Cpu)
    → Ordered k kptr
    → (ctx : XdpMd) × (ctx.kptr ≡ kptr)
      × Covers k s ctx
      × (xdp_entry k program kptr s ≡ bind (program ctx s) (λ res. pure (unwrap_result res)))
unfolding xdp_entry
xdp_entry_lem k program kptr s ordered =
    let (ctx, e, at, covers) = convert_ctx-Covers k kptr s ordered in
    (
      ctx,
      at,
      covers,
      ap (λ o. bind o (λ newctx. program newctx >>= λ res. pure (unwrap_result res))) e,
    )
