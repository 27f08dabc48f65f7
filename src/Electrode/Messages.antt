-- ===== src/Electrode/Messages.antt =====
-- samples/electrode/src/main.rs, `compute_message_type`.
pub mod Types
use rex_with_driver.Base.{ℕ, Bool, false, not, ltb, if◌then◌else◌, length, codes}
use rex_with_driver.Kernel.{Bytes}
use rex_with_driver.Program.{Prog, ret, slice, starts_with, ◌>>=◌}
use rex_with_driver.Electrode.{
  FastProgXdp, failed, fast_prog_handle_prepare, fast_prog_handle_request,
  fast_prog_handle_prepareok, prepare_type_len, request_type_len, prepareok_type_len,
  myprepareok_type_len,
}

module _ {R : Type 0} where
  -- `payload[a..b].starts_with(text)`
  abbrev pub says : Bytes → ℕ → ℕ → Bytes → Prog R Bool
  says payload a b text = do part ← slice payload a b; ret (starts_with part text)

  -- `c && m`
  abbrev pub and_then : Bool → Prog R Bool → Prog R Bool
  and_then c m = if c then m else ret false

  -- The tests of the message type, in their order.
  unfoldable pub type_of_vr : Bytes → Prog R FastProgXdp
  type_of_vr payload = do
    prepare ←
        and_then (ltb prepare_type_len (length payload)) (says payload 19 27 (codes "PrepareM"))
    if prepare then ret fast_prog_handle_prepare else do
      request ←
          and_then (ltb request_type_len (length payload)) (says payload 19 27 (codes "RequestM"))
      if request then ret fast_prog_handle_request else do
        prepareok ←
            and_then (ltb prepareok_type_len (length payload))
              (says payload 19 27 (codes "PrepareO"))
        if prepareok then ret fast_prog_handle_prepareok else do
          mine ←
              and_then (ltb myprepareok_type_len (length payload))
                (says payload 13 17 (codes "MyPr"))
          if mine then ret fast_prog_handle_prepareok else ret failed

  unfoldable pub compute_message_type : Bytes → Prog R FastProgXdp
  compute_message_type payload = if ltb (length payload) 13 then ret failed else do
    vr ← says payload 10 12 (codes "vr")
    if not vr then ret failed else type_of_vr payload
