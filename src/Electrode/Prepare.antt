-- ===== src/Electrode/Prepare.antt =====
-- samples/electrode/src/main.rs, `handle_prepare`, `write_buffer` and `prepare_fast_reply`.
pub mod Writes
pub mod Reply
pub mod Log
use rex_with_driver.Base.{
  ℕ, ◌+◌, ◌-◌, ◌%◌, ◌^◌, ◌==◌, List, [], ◌∷◌, Bool, true, false, not, ltb, leb, if◌then◌else◌,
  length, take, drop, codes,
}
use rex_with_driver.Kernel.{Bytes, add64}
use rex_with_driver.Text.{splice}
use rex_with_driver.Utils.{Result, ok, err}
use rex_with_driver.Words.{to_le, of_le, to_be16}
use rex_with_driver.Checksum.{store_checksum}
use rex_with_driver.Packet.{bytes_at, eth_header, ip_header, udp_header}
use rex_with_driver.Program.{
  World, Prog, Host, ret, exit, body, guard, slice, from, write, lookup, modify, update,
  adjust_tail, ◌>>=◌, ◌>>◌,
}
use rex_with_driver.Electrode.{
  Maps, PaxosCtrState, PaxosConfigure, ReplicaStatus, status_normal, set_ctr_state, submit,
  nonfrag_magic, myprepareok_type_len, fast_paxos_data_len, max_data_len, eth_alen,
}

-- `payload = &mut payload[n..]`, by where the rest begins in the packet.
abbrev pub skip_to : ℕ → Prog Maps (Unit {0})
skip_to a = do _ ← from a; ret tt

-- The loop over the bytes of "MyPrepareOK".
unfoldable pub write_each : ℕ → Bytes → Prog Maps (Unit {0})
write_each a [] = ret tt
write_each a (b ∷ bs) = do write a (b ∷ []); write_each (a + 1) bs

-- `data_length() as u16 - payload.len() as u16`
abbrev pub new_len_of : ℕ → ℕ → ℕ
new_len_of total rest = (total % 2 ^ 16 + 2 ^ 16 - rest % 2 ^ 16) % 2 ^ 16

-- `x as i32 - y as i32` of lengths.
abbrev pub offset_of : ℕ → ℕ → ℕ
offset_of x y = (x % 2 ^ 32 + 2 ^ 32 - y % 2 ^ 32) % 2 ^ 32

abbrev is_normal : ReplicaStatus → Bool
is_normal status_normal = true
is_normal _ = false

-- The parts of `prepare_fast_reply` that write the type string, and the three words after it.
unfoldable pub write_type : ℕ → Prog Maps (Unit {0})
write_type payload_index = do
  write payload_index (to_le 4 nonfrag_magic)
  skip_to (payload_index + 4)
  write (payload_index + 4) (to_le 8 myprepareok_type_len)
  skip_to (payload_index + 12)
  write_each (payload_index + 12 + 13) (codes "MyPrepareOK")
  skip_to (payload_index + 36)

unfoldable pub write_ids : ℕ → PaxosCtrState → Prog Maps (Unit {0})
write_ids payload_index ctr = do
  write (payload_index + 36) (to_le 4 ctr.view)
  write (payload_index + 40) (to_le 4 payload_index)
  write (payload_index + 44) (to_le 4 ctr.my_idx)
  skip_to (payload_index + 48)

module _ (h : Host) where
  open h use {layout as l}

  -- The header updates.
  unfoldable pub swap_macs : Bytes → Bytes
  swap_macs hdr =
      splice (splice hdr l.eth_dest (bytes_at hdr l.eth_source eth_alen)) l.eth_source
        (bytes_at hdr l.eth_dest eth_alen)

  unfoldable pub reply_udp : ℕ → ℕ → Bytes → Bytes
  reply_udp port new_len hdr =
      let moved = splice hdr l.udp_source (bytes_at hdr l.udp_dest 2) in
      splice (splice (splice moved l.udp_dest (to_le 2 port)) l.udp_check (to_le 2 0)) l.udp_len
        (to_be16 new_len)

  unfoldable pub reply_ip : ℕ → ℕ → Bytes → Bytes
  reply_ip addr new_len hdr =
      let sized = splice hdr l.ip_tot_len (to_be16 ((new_len + l.iphdr) % 2 ^ 16)) in
      let moved = splice sized l.ip_saddr (bytes_at sized l.ip_daddr 4) in
      store_checksum l.ip_check (splice moved l.ip_daddr (to_le 4 addr))

  -- The last part of `prepare_fast_reply`: the headers and the tail.
  unfoldable pub send_reply : PaxosConfigure → ℕ → Prog Maps Result
  send_reply leader new_len = do
    update (eth_header l h.aligned) swap_macs
    update (udp_header l h.aligned) (reply_udp leader.port new_len)
    update (ip_header l h.aligned) (reply_ip leader.addr new_len)
    total ← λ w. ret (length w.packet) w
    moved ← adjust_tail h (offset_of new_len total)
    if moved then ret (ok h.xdp_tx) else exit (ok h.xdp_drop)

  -- The part of `prepare_fast_reply` after the second length check.
  unfoldable pub write_reply : ℕ → PaxosCtrState → PaxosConfigure → Prog Maps Result
  write_reply payload_index ctr leader = do
    write (payload_index + 48) (to_le 8 20)
    write (payload_index + 56) (to_le 8 ctr.view)
    write (payload_index + 64) (to_le 8 payload_index)
    write (payload_index + 72) (to_le 4 ctr.my_idx)
    skip_to (payload_index + 76)
    total ← λ w. ret (length w.packet) w
    send_reply leader (new_len_of total (total - (payload_index + 76)))

  unfoldable pub prepare_fast_reply : ℕ → Prog Maps Result
  prepare_fast_reply payload_index = body do
    payload ← from payload_index
    guard (leb (length payload) (fast_paxos_data_len + 8)) (ok h.xdp_pass)
    ctr ← lookup (λ m. m.ctr_state) 0 0
    leader ← lookup (λ m. m.configure) ctr.leader_idx 0
    write_type payload_index
    write_ids payload_index ctr
    guard (ltb (length payload - 48) 28) (ok h.xdp_pass)
    write_reply payload_index ctr leader

  -- `reserve`, the copy and `submit`.
  unfoldable pub append_entry : Bytes → Prog Maps (Unit {0})
  append_entry entry w =
      if h.has_room w.rest.prepare_buffer then modify (submit entry) w else exit (err 0) w

  unfoldable pub write_buffer : ℕ → Prog Maps Result
  write_buffer payload_index = body do
    total ← λ w. ret (length w.packet) w
    guard (ltb total (payload_index + fast_paxos_data_len)) (ok h.xdp_pass)
    payload ← from (payload_index + fast_paxos_data_len)
    guard (ltb (length payload) max_data_len) (ok h.xdp_pass)
    append_entry (take max_data_len payload)
    prepare_fast_reply payload_index

  -- The part of `handle_prepare` on the state of the replica.
  unfoldable pub prepare_op : ℕ → ℕ → ℕ → ℕ → PaxosCtrState → Prog Maps Result
  prepare_op payload_index msg_view msg_last_op msg_batch_start ctr = body do
    guard (not (is_normal ctr.state)) (ok h.xdp_drop)
    guard (ltb msg_view ctr.view) (ok h.xdp_drop)
    guard (ltb ctr.view msg_view) (ok h.xdp_pass)
    if leb msg_last_op ctr.last_op then prepare_fast_reply payload_index else do
      guard (ltb (add64 ctr.last_op 1) msg_batch_start) (ok h.xdp_pass)
      modify (set_ctr_state (record ctr { last_op = msg_last_op }))
      write_buffer payload_index

  unfoldable pub handle_prepare : ℕ → Prog Maps Result
  handle_prepare payload_index = body do
    payload ← from payload_index
    guard (ltb (length payload) fast_paxos_data_len) (ok h.xdp_pass)
    msg_view ← slice payload 0 4
    msg_last_op ← slice payload 4 8
    msg_batch_start ← slice payload 8 12
    ctr ← lookup (λ m. m.ctr_state) 0 0
    prepare_op payload_index (of_le msg_view) (of_le msg_last_op) (of_le msg_batch_start) ctr
