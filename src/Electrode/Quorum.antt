-- ===== src/Electrode/Quorum.antt =====
-- samples/electrode/src/main.rs, `handle_prepare_ok`.
pub mod Votes
use rex_with_driver.Base.{
  ℕ, ◌+◌, ◌-◌, ◌%◌, ◌^◌, ◌==◌, Bool, not, ◌||◌, leb, if◌then◌else◌, length, bit_and, bit_or,
}
use rex_with_driver.Utils.{Result, ok}
use rex_with_driver.Words.{of_le, count_ones}
use rex_with_driver.Program.{
  Prog, Host, ret, exit, body, guard, slice, from, lookup, modify, adjust_tail, ◌>>=◌, ◌>>◌,
}
use rex_with_driver.Electrode.{
  Maps, PaxosQuorum, set_quorum, fast_paxos_data_len, quorum_size, quorum_bitset_entry,
}

-- `entry.bitset |= 1 << msg_replica_idx`; the shift of a u32 takes its count modulo 32 in a release
-- build.
unfoldable pub vote : ℕ → PaxosQuorum → PaxosQuorum
vote replica entry = record entry { bitset = bit_or entry.bitset (2 ^ (replica % 32)) }

-- The test that the entry stands for another view or operation.
unfoldable pub is_other : PaxosQuorum → ℕ → ℕ → Bool
is_other entry msg_view msg_opnum = not (entry.view == msg_view) || not (entry.opnum == msg_opnum)

module _ (h : Host) where
  -- The last part: the user-space process sees the message once the quorum is reached.
  unfoldable pub pass_on : ℕ → Prog Maps Result
  pass_on payload_index = do
    moved ← adjust_tail h ((2 ^ 32 - payload_index % 2 ^ 32) % 2 ^ 32)
    if moved then ret (ok h.xdp_pass) else exit (ok h.xdp_drop)

  -- The part on the quorum entry.
  unfoldable pub count_vote : ℕ → ℕ → ℕ → ℕ → Prog Maps Result
  count_vote payload_index msg_view msg_opnum msg_replica_idx = body do
    let idx = bit_and msg_opnum (quorum_bitset_entry - 1)
    entry ← lookup (λ m. m.quorum) idx 0
    guard (is_other entry msg_view msg_opnum) (ok h.xdp_pass)
    modify (set_quorum idx (vote msg_replica_idx entry))
    guard (not (count_ones 32 (vote msg_replica_idx entry).bitset == quorum_size - 1))
        (ok h.xdp_drop)
    pass_on payload_index

  unfoldable pub handle_prepare_ok : ℕ → Prog Maps Result
  handle_prepare_ok payload_index = body do
    payload ← from payload_index
    guard (leb (length payload) fast_paxos_data_len) (ok h.xdp_drop)
    msg_view ← slice payload 0 4
    msg_opnum ← slice payload 4 8
    msg_replica_idx ← slice payload 8 12
    count_vote payload_index (of_le msg_view) (of_le msg_opnum) (of_le msg_replica_idx)
