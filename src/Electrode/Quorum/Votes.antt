-- ===== src/Electrode/Quorum/Votes.antt =====
-- samples/electrode/src/main.rs, `handle_prepare_ok`: the bit set of an entry stands for the list of
-- the replicas that voted.
use rex_with_driver.Base.{
  ℕ, ◌-◌, ◌%◌, ◌<◌, ◌≡◌, List, [], ◌∷◌, Bool, false, ◌||◌, ◌==◌, if◌then◌else◌, Option, none, some,
  ◌^◌, arith, length, get_elem?, bit_and,
}
use rex_with_driver.Kernel.{Bytes}
use rex_with_driver.Utils.{Result, ok}
use rex_with_driver.Words.{count_ones, bit}
use rex_with_driver.Words.Bits.{bit-set_bit, count_ones-set_bit, count_ones-zero, bit-zero}
use rex_with_driver.Program.{World, Ran, yields, close, Host}
use rex_with_driver.Electrode.{Maps, PaxosQuorum, set_quorum, quorum_size, quorum_bitset_entry}
use rex_with_driver.Electrode.Quorum.{vote, is_other, pass_on, count_vote}

-- The replicas that voted, each once.
unfoldable pub has_voted : ℕ → List ℕ → Bool
has_voted r [] = false
has_voted r (v ∷ vs) = r == v || has_voted r vs

unfoldable pub add_voter : ℕ → List ℕ → List ℕ
add_voter r vs = if has_voted r vs then vs else r ∷ vs

-- A bit set that stands for them.
pub record StandsFor (vs : List ℕ) (bitset : ℕ) : Type 0 where
  pub bits : (j : ℕ) → bit j bitset ≡ (if has_voted j vs then 1 else 0)
  pub size : count_ones 32 bitset ≡ length vs

pub StandsFor-nil : StandsFor [] 0
unfolding has_voted
StandsFor-nil = record { bits = bit-zero; size = count_ones-zero 32 }

pub vote-StandsFor :
    (r : ℕ) (vs : List ℕ) (entry : PaxosQuorum)
    → r < 32
    → StandsFor vs entry.bitset
    → StandsFor (add_voter r vs) (vote r entry).bitset
unfolding vote add_voter has_voted
vote-StandsFor r vs entry small v =
    let same : r % 32 ≡ r = omega arith in
    record {
      bits = λ j. rw same (ground (arith, bit-set_bit j r entry.bitset, v.bits j, v.bits r));
      size = rw same (ground (arith, count_ones-set_bit 32 r entry.bitset small, v.bits r, v.size));
    }

-- The last part by what became of the packet when its tail was moved.
abbrev pub passed : Host → World Maps → Option Bytes → Ran Maps Result
passed h w none = yields (ok h.xdp_drop) w
passed h w (some packet) = yields (ok h.xdp_pass) (record w { packet = packet })

pass_on-passed :
    (h : Host) (payload_index : ℕ) (w : World Maps)
    → close (pass_on h payload_index w)
      ≡ passed h w (h.adjust_tail w.packet ((2 ^ 32 - payload_index % 2 ^ 32) % 2 ^ 32))
unfolding pass_on
pass_on-passed h payload_index w = ground arith

-- A vote for the view and the operation of its entry adds the replica to those that voted, once
-- however often it votes. If they are then one less than a quorum, the tail of the packet is
-- moved by `-payload_index` (an i32), and the packet goes on to user space with XDP_PASS, or is
-- dropped if its tail cannot be moved. Otherwise it is dropped. Replica numbers are to be below 32.
pub count_vote-StandsFor :
    (h : Host) (payload_index msg_view msg_opnum r : ℕ) (w : World Maps) (entry : PaxosQuorum)
    (vs : List ℕ)
    → get_elem? w.rest.quorum (bit_and msg_opnum (quorum_bitset_entry - 1)) ≡ some entry
    → entry.view ≡ msg_view
    → entry.opnum ≡ msg_opnum
    → r < 32
    → StandsFor vs entry.bitset
    → let idx = bit_and msg_opnum (quorum_bitset_entry - 1) in
      let w' = record w { rest = set_quorum idx (vote r entry) w.rest } in
      StandsFor (add_voter r vs) (vote r entry).bitset
      × (count_vote h payload_index msg_view msg_opnum r w ≡ (
          if length (add_voter r vs) == quorum_size - 1
          then passed h w' (h.adjust_tail w.packet ((2 ^ 32 - payload_index % 2 ^ 32) % 2 ^ 32))
          else yields (ok h.xdp_drop) w'))
unfolding count_vote is_other
count_vote-StandsFor h payload_index msg_view msg_opnum r w entry vs found same_view same_op small
      v =
    let stands = vote-StandsFor r vs entry small v in
    let other : is_other entry msg_view msg_opnum ≡ false = ground (arith, same_view, same_op) in
    let idx = bit_and msg_opnum (quorum_bitset_entry - 1) in
    let w' = record w { rest = set_quorum idx (vote r entry) w.rest } in
    (stands, ground (arith, found, other, stands.size, pass_on-passed h payload_index w'))
