-- ===== src/Electrode/Receive.antt =====
-- samples/electrode/src/main.rs, `fast_paxos_main` and `handle_udp_fast_paxos`. The two booleans are
-- the features of the build.
pub mod Short
use rex_with_driver.Base.{
  ℕ, ◌+◌, ◌==◌, Bool, true, false, not, ◌||◌, ltb, leb, if◌then◌else◌, length, codes,
}
use rex_with_driver.Kernel.{Bytes}
use rex_with_driver.Utils.{Result, ok}
use rex_with_driver.Words.{of_le, of_be}
use rex_with_driver.Program.{
  Prog, Host, ret, exit, body, guard, slice, from, field, starts_with, ◌>>=◌, ◌>>◌,
}
use rex_with_driver.Electrode.{
  Maps, mtu, magic_len, magic_bits, paxos_port, prepare_type_len, prepareok_type_len,
  myprepareok_type_len,
}
use rex_with_driver.Electrode.Messages.{says, and_then}
use rex_with_driver.Electrode.Prepare.{handle_prepare}
use rex_with_driver.Electrode.Quorum.{handle_prepare_ok}

-- `payload[10..12].starts_with(b"vr") && payload[a..b].starts_with(text)`, if `len` is past the limit.
unfoldable pub names : ℕ → ℕ → Bytes → ℕ → ℕ → Bytes → Prog Maps Bool
names limit len payload a b text =
    and_then (ltb limit len)
      do vr ← says payload 10 12 (codes "vr"); and_then vr (says payload a b text)

module _ (h : Host) (fast_reply fast_quorum_prune : Bool) where
  open h use {layout as l}

  -- The dispatch on the type string, of which `len` counts eight bytes more than `payload` has.
  unfoldable pub dispatch : ℕ → ℕ → Bytes → Prog Maps Result
  dispatch payload_index len payload = do
    prepare ← and_then fast_reply (names prepare_type_len len payload 19 27 (codes "PrepareM"))
    if prepare then handle_prepare h (payload_index + prepare_type_len) else do
      prepareok ←
          and_then fast_quorum_prune (names prepareok_type_len len payload 19 27 (codes "PrepareO"))
      if prepareok then handle_prepare_ok h payload_index else do
        mine ←
            and_then fast_quorum_prune (names myprepareok_type_len len payload 13 17 (codes "MyPr"))
        if mine then handle_prepare_ok h payload_index else ret (ok h.xdp_pass)

  unfoldable pub handle_udp_fast_paxos : Prog Maps Result
  handle_udp_fast_paxos = body do
    let header_len = l.ethhdr + l.iphdr + l.udphdr
    payload ← from (header_len + magic_len)
    type_len ← slice payload 0 8
    guard (leb mtu (of_le type_len) || ltb (length payload) (of_le type_len)) (ok h.xdp_pass)
    let payload_index = header_len + magic_len + 8
    rest ← from payload_index
    dispatch payload_index (length payload) rest

  -- The branch of UDP.
  unfoldable pub receive_udp : Prog Maps Result
  receive_udp = do
    port ← field h (l.ethhdr + l.iphdr) l.udp_dest 2
    payload ← from (l.ethhdr + l.iphdr + l.udphdr)
    if not (of_be port 0 == paxos_port)
          || ltb (length payload) (magic_len + 8)
          || not (starts_with payload magic_bits)
        then exit (ok h.xdp_pass)
        else handle_udp_fast_paxos

  unfoldable pub fast_paxos_main : Prog Maps Result
  fast_paxos_main = body do
    protocol ← field h l.ethhdr l.ip_protocol 1
    if of_be protocol 0 == h.ipproto_tcp
        then ret (ok h.xdp_pass)
        else if of_be protocol 0 == h.ipproto_udp
        then receive_udp
        else ret (ok h.xdp_pass)
