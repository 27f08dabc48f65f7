-- ===== src/Electrode/Prepare/Reply.antt =====
-- samples/electrode/src/main.rs, `prepare_fast_reply`: how it ends on a message that is too short for
-- the reply.
use rex_with_driver.Base.{
  ℕ, ◌+◌, ◌-◌, ◌≡◌, ◌<◌, ◌≤◌, refl, ap, ◌∙◌, arith, true, ltb, length, inl, inr, Bool-cases, ltb→lt,
  ◌&&◌, get_elem?, some, none, Option, if◌then◌else◌, length-drop,
}
use rex_with_driver.Utils.{Result, ok}
use rex_with_driver.Program.{
  World, Host, guard, ◌>>◌, then_run, Ran, yields, returns, panics, close,
}
use rex_with_driver.Electrode.{Maps, PaxosCtrState, PaxosConfigure}
use rex_with_driver.Electrode.Prepare.Writes.{
  panicked, named, length-named, write_type-named, write_type-panicked, write_ids-numbered,
  write_ids-panicked,
}
use rex_with_driver.Electrode.Prepare.{write_type, write_ids, write_reply, prepare_fast_reply}

-- The result that code gives its caller, `none` for a panic.
unfoldable pub outcome : {R : Type 0} → Ran R Result → Option Result
outcome (yields r w) = some r
outcome (returns r w) = some r
outcome (panics w) = none

-- The three ranges of the length.
reply_pass :
    (h : Host) (p : ℕ) (w : World Maps)
    → p ≤ length w.packet
    → length w.packet ≤ p + 20
    → outcome (prepare_fast_reply h p w) ≡ some (ok h.xdp_pass)
unfolding prepare_fast_reply outcome
reply_pass h p w inside short = ground (arith, length-drop p w.packet)

outcome-panicked :
    {R A : Type 0} (r : Ran R A) (f : A → World R → Ran R Result)
    → panicked r ≡ true
    → outcome (close (then_run r f)) ≡ none
unfolding outcome panicked
outcome-panicked (yields a w) f h = absurd (cc)
outcome-panicked (returns r w) f h = absurd (cc)
outcome-panicked (panics w) f h = refl

-- The message after its head: the part of `prepare_fast_reply` past the lookups.
reply_tail : Host → ℕ → ℕ → PaxosCtrState → PaxosConfigure → World Maps → Ran Maps Result
reply_tail h p n ctr leader = do
  write_type p
  write_ids p ctr
  guard (ltb (n - 48) 28) (ok h.xdp_pass)
  write_reply h p ctr leader

prepare_fast_reply-reply_tail :
    (h : Host) (p : ℕ) (w : World Maps) (ctr : PaxosCtrState) (leader : PaxosConfigure)
    → get_elem? w.rest.ctr_state 0 ≡ some ctr
    → get_elem? w.rest.configure ctr.leader_idx ≡ some leader
    → p + 20 < length w.packet
    → prepare_fast_reply h p w ≡ close (reply_tail h p (length w.packet - p) ctr leader w)
unfolding prepare_fast_reply reply_tail
prepare_fast_reply-reply_tail h p w ctr leader found_ctr found_leader long =
    ground (arith, found_ctr, found_leader, length-drop p w.packet)

reply_tail-panics :
    (h : Host) (p : ℕ) (w : World Maps) (ctr : PaxosCtrState) (leader : PaxosConfigure)
    → p + 20 < length w.packet
    → length w.packet < p + 48
    → outcome (close (reply_tail h p (length w.packet - p) ctr leader w)) ≡ none
unfolding reply_tail
reply_tail-panics h p w ctr leader long short = elim (Bool-cases (ltb (length w.packet) (p + 36))) [
  | inl before ↦
      outcome-panicked (write_type p w) _
        (write_type-panicked p w (omega arith) (ltb→lt _ _ before))
  | inr after ↦
      let w3 = record w { packet = named p w.packet } in
      let same = length-named p w.packet (ground arith) in
      rw (write_type-named p w (ground arith)) (
        outcome-panicked (write_ids p ctr w3) _ (write_ids-panicked p ctr w3 (omega (arith, same))))
]

reply_tail-pass :
    (h : Host) (p : ℕ) (w : World Maps) (ctr : PaxosCtrState) (leader : PaxosConfigure)
    → p + 48 ≤ length w.packet
    → length w.packet < p + 76
    → outcome (close (reply_tail h p (length w.packet - p) ctr leader w)) ≡ some (ok h.xdp_pass)
unfolding reply_tail outcome
reply_tail-pass h p w ctr leader long short =
    let w3 = record w { packet = named p w.packet } in
    let same = length-named p w.packet (omega arith) in
    let (numbers, same') = write_ids-numbered p ctr w3 (omega (arith, same)) in
    rw (write_type-named p w (omega arith), numbers) (ground arith)

-- On a message of fewer than 76 bytes, with the maps filled: up to 20 bytes it is passed on; between
-- 21 and 47 the program panics, since the check of the length does not cover what is written; from 48
-- on it is passed on.
pub prepare_fast_reply_short :
    (h : Host) (p : ℕ) (w : World Maps) (ctr : PaxosCtrState) (leader : PaxosConfigure)
    → get_elem? w.rest.ctr_state 0 ≡ some ctr
    → get_elem? w.rest.configure ctr.leader_idx ≡ some leader
    → p ≤ length w.packet
    → length w.packet < p + 76
    → let n = length w.packet - p in
      outcome (prepare_fast_reply h p w)
      ≡ (if ltb 20 n && ltb n 48 then none else some (ok h.xdp_pass))
prepare_fast_reply_short h p w ctr leader found_ctr found_leader inside short =
    elim (Bool-cases (ltb (p + 20) (length w.packet))) [
      | inr little ↦ reply_pass h p w inside (ground arith) ∙ ground arith
      | inl long ↦
          ap outcome (
            prepare_fast_reply-reply_tail h p w ctr leader found_ctr found_leader (ltb→lt _ _ long))
          ∙ elim (Bool-cases (ltb (length w.packet) (p + 48))) [
            | inl middle ↦
                reply_tail-panics h p w ctr leader (ltb→lt _ _ long) (ltb→lt _ _ middle)
                ∙ ground arith
            | inr high ↦ reply_tail-pass h p w ctr leader (ground arith) short ∙ ground arith
          ]
    ]
