-- ===== src/Electrode/Messages/Types.antt =====
-- samples/electrode/src/main.rs, `compute_message_type`: it reads only bytes that are there, and knows
-- a `PrepareMessage` by its length and its name.
use rex_with_driver.Base.{
  ℕ, ◌≡◌, arith, Bool, ltb, length, take, drop, ◌&&◌, ◌||◌, if◌then◌else◌, codes, not,
}
use rex_with_driver.Kernel.{Bytes}
use rex_with_driver.Program.{World, yields, starts_with}
use rex_with_driver.Electrode.{
  FastProgXdp, failed, fast_prog_handle_prepare, fast_prog_handle_request,
  fast_prog_handle_prepareok,
}
use rex_with_driver.Electrode.Messages.{type_of_vr, compute_message_type}

-- `text` stands at `a` in the payload.
abbrev pub stands_at : Bytes → ℕ → Bytes → Bool
stands_at payload a text = starts_with (take (length text) (drop a payload)) text

-- The type of a message from its length and the names in it.
unfoldable pub named_type : Bytes → FastProgXdp
named_type payload =
    if not (stands_at payload 10 (codes "vr")) || ltb (length payload) 13
    then failed
    else if ltb 33 (length payload) && stands_at payload 19 (codes "PrepareM")
    then fast_prog_handle_prepare
    else if ltb 33 (length payload) && stands_at payload 19 (codes "RequestM")
    then fast_prog_handle_request
    else if ltb 35 (length payload) && stands_at payload 19 (codes "PrepareO")
        || ltb 24 (length payload) && stands_at payload 13 (codes "MyPr")
    then fast_prog_handle_prepareok
    else failed

-- The type is found for every payload, without an index out of range and without a change of the
-- state, and it is the one that the length and the names at their places give.
pub compute_message_type-named_type :
    {R : Type 0} (payload : Bytes) (w : World R)
    → compute_message_type payload w ≡ yields (named_type payload) w
unfolding compute_message_type named_type type_of_vr
compute_message_type-named_type payload w = ground arith
