-- ===== src/Electrode/Receive/Short.antt =====
-- samples/electrode/src/main.rs, `handle_udp_fast_paxos`: which handler a message gets, and the length
-- for which there is none.
use rex_with_driver.Base.{
  ℕ, ◌+◌, ◌-◌, ◌≡◌, ◌<◌, ◌≤◌, ◌∙◌, arith, Bool, false, ltb, length, take, drop, inl, inr,
  Bool-cases, ◌&&◌, ◌||◌, ◌==◌, if◌then◌else◌, length-drop, codes, not,
}
use rex_with_driver.Kernel.{Bytes}
use rex_with_driver.Utils.{Result, ok}
use rex_with_driver.Words.{of_le}
use rex_with_driver.Program.{World, Host, Ran, yields, close, panics, starts_with}
use rex_with_driver.Electrode.{Maps}
use rex_with_driver.Electrode.Messages.Types.{stands_at}
use rex_with_driver.Electrode.Prepare.{handle_prepare}
use rex_with_driver.Electrode.Quorum.{handle_prepare_ok}
use rex_with_driver.Electrode.Receive.{names, dispatch, handle_udp_fast_paxos}

-- The handler of a payload after its length word.
unfoldable pub handler_of : Host → Bool → Bool → ℕ → Bytes → World Maps → Ran Maps Result
handler_of h fast_reply fast_quorum_prune payload_index payload w =
    let n = length payload in
    if not (stands_at payload 10 (codes "vr")) || ltb n 17
    then yields (ok h.xdp_pass) w
    else if fast_reply && ltb 25 n && stands_at payload 19 (codes "PrepareM")
    then handle_prepare h (payload_index + 33) w
    else if fast_quorum_prune
        && (ltb 27 n && stands_at payload 19 (codes "PrepareO")
            || stands_at payload 13 (codes "MyPr"))
    then handle_prepare_ok h payload_index w
    else yields (ok h.xdp_pass) w

-- A test of the name at `a`, on a payload that has it.
names-stands_at :
    (limit len a b : ℕ) (payload text : Bytes) (w : World Maps)
    → 12 ≤ length payload
    → a ≤ b
    → b ≤ length payload
    → names limit len payload a b text w
      ≡ yields
          (ltb limit len
            && (stands_at payload 10 (codes "vr")
                && starts_with (take (b - a) (drop a payload)) text))
          w
unfolding names
names-stands_at limit len a b payload text w start order fits = ground arith

names-below :
    (limit len a b : ℕ) (payload text : Bytes) (w : World Maps)
    → len ≤ limit
    → names limit len payload a b text w ≡ yields false w
unfolding names
names-below limit len a b payload text w short = ground arith

names-outside :
    (limit len a b : ℕ) (payload text : Bytes) (w : World Maps)
    → limit < len
    → 12 ≤ length payload
    → length payload < b
    → names limit len payload a b text w
      ≡ (if stands_at payload 10 (codes "vr") then panics w else yields false w)
unfolding names
names-outside limit len a b payload text w long start short = ground arith

-- The three tests of `dispatch`.
module _ (payload : Bytes) (w : World Maps) where
  prepare_test : names 33 (length payload + 8) payload 19 27 (codes "PrepareM") w ≡ (
      if length payload == 26 && stands_at payload 10 (codes "vr")
      then panics w
      else yields
          (ltb 25 (length payload)
            && (stands_at payload 10 (codes "vr") && stands_at payload 19 (codes "PrepareM")))
          w)
  prepare_test = elim (Bool-cases (ltb (length payload) 26)) [
    | inl below ↦
        names-below 33 (length payload + 8) 19 27 payload (codes "PrepareM") w (ground arith)
        ∙ ground arith
    | inr rest ↦ elim (Bool-cases (length payload == 26)) [
      | inl exact ↦
          names-outside 33 (length payload + 8) 19 27 payload (codes "PrepareM") w (ground arith)
            (ground arith) (ground arith)
          ∙ ground (arith, exact)
      | inr more ↦
          names-stands_at 33 (length payload + 8) 19 27 payload (codes "PrepareM") w (ground arith)
            (omega arith) (ground arith)
          ∙ ground (arith, more)
    ]
  ]

  prepareok_test :
      names 35 (length payload + 8) payload 19 27 (codes "PrepareO") w
      ≡ yields
          (ltb 27 (length payload)
            && (stands_at payload 10 (codes "vr") && stands_at payload 19 (codes "PrepareO")))
          w
  prepareok_test = elim (Bool-cases (ltb 27 (length payload))) [
    | inr below ↦
        names-below 35 (length payload + 8) 19 27 payload (codes "PrepareO") w (ground arith)
        ∙ ground arith
    | inl more ↦
        names-stands_at 35 (length payload + 8) 19 27 payload (codes "PrepareO") w (ground arith)
          (omega arith) (ground arith)
        ∙ ground (arith, more)
  ]

  mine_test :
      names 24 (length payload + 8) payload 13 17 (codes "MyPr") w
      ≡ yields
          (ltb 16 (length payload)
            && (stands_at payload 10 (codes "vr") && stands_at payload 13 (codes "MyPr")))
          w
  mine_test = elim (Bool-cases (ltb 16 (length payload))) [
    | inr below ↦
        names-below 24 (length payload + 8) 13 17 payload (codes "MyPr") w (ground arith)
        ∙ ground arith
    | inl more ↦
        names-stands_at 24 (length payload + 8) 13 17 payload (codes "MyPr") w (ground arith)
          (omega arith) (ground arith)
        ∙ ground (arith, more)
  ]

-- The dispatch, whose `len` counts eight bytes more than the payload has, finds the handler by the
-- names in the payload; but on a payload of 26 bytes of the protocol it panics, if it looks for
-- `PrepareMessage`.
pub dispatch-handler_of :
    (h : Host) (fast_reply fast_quorum_prune : Bool) (payload_index : ℕ) (payload : Bytes)
    (w : World Maps)
    → dispatch h fast_reply fast_quorum_prune payload_index (length payload + 8) payload w ≡ (
        if fast_reply && length payload == 26 && stands_at payload 10 (codes "vr")
        then panics w
        else handler_of h fast_reply fast_quorum_prune payload_index payload w)
unfolding dispatch handler_of
dispatch-handler_of h fast_reply fast_quorum_prune payload_index payload w =
    ground (arith, prepare_test payload w, prepareok_test payload w, mine_test payload w)

-- A packet whose length word is within the bounds: the message after it goes to the handler of its
-- name, but the program panics on one of 26 bytes of the protocol if it looks for `PrepareMessage`.
pub handle_udp_fast_paxos-handler_of :
    (h : Host) (fast_reply fast_quorum_prune : Bool) (w : World Maps)
    → let base = h.layout.ethhdr + h.layout.iphdr + h.layout.udphdr + 4 in
      let type_len = of_le (take 8 (drop base w.packet)) in
      let message = drop (base + 8) w.packet in
      base + 8 ≤ length w.packet
      → type_len < 1500
      → base + type_len ≤ length w.packet
      → handle_udp_fast_paxos h fast_reply fast_quorum_prune w
        ≡ close (
            if fast_reply && length message == 26 && stands_at message 10 (codes "vr")
            then panics w
            else handler_of h fast_reply fast_quorum_prune (base + 8) message w)
unfolding handle_udp_fast_paxos
handle_udp_fast_paxos-handler_of h fast_reply fast_quorum_prune w long small fits =
    let base = h.layout.ethhdr + h.layout.iphdr + h.layout.udphdr + 4 in
    let message = drop (base + 8) w.packet in
    let whole : length (drop base w.packet) ≡ length message + 8 =
      omega (arith, length-drop base w.packet, length-drop (base + 8) w.packet) in
    ground (
      arith,
      length-drop base w.packet,
      whole,
      dispatch-handler_of h fast_reply fast_quorum_prune (base + 8) message w,
    )
