-- ===== src/Electrode/Broadcast.antt =====
-- samples/electrode/src/main.rs, `fast_broad_cast_main` and `handle_udp_fast_broad_cast`.
pub mod Pass
pub mod Stamp
pub mod Turns
pub mod Fields
pub mod Address
pub mod Message
pub mod Relay
use rex_with_driver.Base.{
  ℕ, ◌+◌, ◌%◌, ◌^◌, ◌-◌, ◌==◌, Bool, true, false, [], ◌∷◌, not, ◌||◌, ltb, leb, if◌then◌else◌,
  length, drop, codes, take, some, none, bit_and, bit_xor,
}
use rex_with_driver.Kernel.{Bytes}
use rex_with_driver.Text.{splice}
use rex_with_driver.Utils.{Result, ok, err}
use rex_with_driver.Words.{to_le, of_le, of_be}
use rex_with_driver.Checksum.{store_checksum}
use rex_with_driver.Packet.{eth_header, ip_header, udp_header}
use rex_with_driver.Program.{
  World, Ran, yields, panics, Prog, Host, ret, exit, body, guard, slice, from, at, write, field,
  lookup, modify, update, starts_with, ◌>>=◌, ◌>>◌,
}
use rex_with_driver.Electrode.{
  Maps, PaxosQuorum, PaxosCtrState, PaxosConfigure, FastProgXdp, fast_prog_handle_prepare,
  set_quorum, mtu, cluster_size, magic_len, magic_bits, paxos_port, fast_paxos_data_len,
  broadcast_sign_bit, quorum_bitset_entry, eth_alen,
}
use rex_with_driver.Electrode.Messages.{compute_message_type}
use rex_with_driver.Electrode.Prepare.{skip_to}

-- `nxt = id + 1`, past the leader, on u8.
unfoldable pub next_of : ℕ → ℕ → ℕ
next_of leader id = let nxt = (id + 1) % 256 in if leader == nxt then (nxt + 1) % 256 else nxt

-- The first replica, `id` of a packet that was not relayed yet.
unfoldable pub first_of : ℕ → ℕ
first_of leader = if leader == 0 then 1 else 0

abbrev pub is_prepare : FastProgXdp → Bool
is_prepare fast_prog_handle_prepare = true
is_prepare _ = false

-- A new prepare opens its entry of the quorum map.
unfoldable pub open_entry : ℕ → ℕ → PaxosQuorum → PaxosQuorum
open_entry msg_view msg_last_op entry =
    if not (entry.view == msg_view) || not (entry.opnum == msg_last_op)
    then record { view = msg_view; opnum = msg_last_op; bitset = 0 }
    else entry

unfoldable pub open_quorum : ℕ → ℕ → Prog Maps (Unit {0})
open_quorum msg_view msg_last_op = do
  let idx = bit_and msg_last_op (quorum_bitset_entry - 1)
  entry ← lookup (λ m. m.quorum) idx 0
  modify (set_quorum idx (open_entry msg_view msg_last_op entry))

module _ (h : Host) where
  open h use {layout as l}

  -- `bpf_clone_redirect(…).unwrap()`
  unfoldable pub send_clone : Prog Maps (Unit {0})
  send_clone w = elim (h.clone_redirect w.packet) [
    | none ↦ panics w
    | some p ↦
        yields tt
          (record w { packet = p; rest = record w.rest { clones = w.packet ∷ w.rest.clones } })
  ]

  unfoldable pub clone_below : ℕ → Prog Maps (Unit {0})
  clone_below nxt = if ltb nxt cluster_size then send_clone else ret tt

  -- The block that picks the replica and sends the clone on; it yields the replica.
  unfoldable pub relay : ℕ → ℕ → Prog Maps ℕ
  relay type_str_len leader = do
    type_str ← from type_str_len
    if starts_with type_str (codes "sp")
        then (do
          let id = first_of leader
          write type_str_len (next_of leader id ∷ [])
          write (type_str_len + 1) (codes "M")
          clone_below (next_of leader id)
          ret id)
        else do
          id ← at type_str 0
          write type_str_len (next_of leader id ∷ [])
          clone_below (next_of leader id)
          ret id

  unfoldable pub to_udp : ℕ → Bytes → Bytes
  to_udp port hdr = splice (splice hdr l.udp_dest (to_le 2 port)) l.udp_check (to_le 2 0)

  unfoldable pub to_ip : ℕ → Bytes → Bytes
  to_ip addr hdr = store_checksum l.ip_check (splice hdr l.ip_daddr (to_le 4 addr))

  unfoldable pub to_eth : Bytes → Bytes → Bytes
  to_eth eth hdr = splice hdr l.eth_dest (take eth_alen eth)

  -- The packet itself goes to the replica.
  unfoldable pub address : ℕ → ℕ → Prog Maps Result
  address type_str_len id = do
    skip_to type_str_len
    write type_str_len (codes "s")
    write (type_str_len + 1) (codes "p")
    replica ← lookup (λ m. m.configure) id h.tc_act_shot
    update (udp_header l h.aligned) (to_udp replica.port)
    update (ip_header l h.aligned) (to_ip replica.addr)
    update (eth_header l h.aligned) (to_eth replica.eth)
    ret (ok h.tc_act_ok)

  -- The part after the message was read.
  unfoldable pub broadcast : ℕ → ℕ → ℕ → FastProgXdp → Prog Maps Result
  broadcast type_str_len view_word msg_last_op message_type = do
    if is_prepare message_type
        then open_quorum (bit_xor view_word broadcast_sign_bit) msg_last_op
        else ret tt
    guard (bit_and view_word broadcast_sign_bit == 0) (ok h.tc_act_ok)
    ctr ← lookup (λ m. m.ctr_state) 0 0
    id ← relay type_str_len ctr.leader_idx
    address type_str_len id

  unfoldable pub handle_udp_fast_broad_cast : Prog Maps Result
  handle_udp_fast_broad_cast = body do
    let header_len = l.ethhdr + l.iphdr + l.udphdr + magic_len
    whole ← from header_len
    type_len_bytes ← slice whole 0 8
    payload ← slice whole 8 (length whole)
    let type_len = of_le type_len_bytes
    guard (leb mtu type_len || ltb (length payload) type_len || ltb (length payload) 5)
        (ok h.tc_act_shot)
    rest ← slice payload type_len (length payload)
    guard (ltb (length rest) fast_paxos_data_len) (ok h.tc_act_shot)
    view_word ← slice rest 0 4
    msg_last_op ← slice rest 4 8
    message_type ← compute_message_type rest
    broadcast (header_len + 8) (of_le view_word) (of_le msg_last_op) message_type

  -- The branch of UDP.
  unfoldable pub broadcast_udp : Prog Maps Result
  broadcast_udp = do
    port ← field h (l.ethhdr + l.iphdr) l.udp_dest 2
    payload ← from (l.iphdr + l.ethhdr + l.udphdr)
    if not (of_be port 0 == paxos_port)
          || ltb (length payload) (magic_len + 8)
          || not (starts_with payload magic_bits)
        then exit (ok h.tc_act_ok)
        else handle_udp_fast_broad_cast

  unfoldable pub fast_broad_cast_main : Prog Maps Result
  fast_broad_cast_main = body do
    total ← λ w. ret (length w.packet) w
    guard (leb total (l.iphdr + l.ethhdr + l.udphdr)) (ok h.tc_act_ok)
    protocol ← field h l.ethhdr l.ip_protocol 1
    if of_be protocol 0 == h.ipproto_udp then broadcast_udp else ret (ok h.tc_act_ok)
