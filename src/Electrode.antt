-- ===== src/Electrode.antt =====
-- samples/electrode/src/common.rs and maps.rs: the constants, messages and maps of Electrode, which
-- answers and counts the messages of a replication protocol in the kernel.
pub mod Messages
pub mod Prepare
pub mod Quorum
pub mod Receive
pub mod Broadcast
pub mod Tests
use rex_with_driver.Base.{ℕ, ◌+◌, ◌/◌, ◌^◌, List, [], ◌∷◌, set}
use rex_with_driver.Kernel.{Bytes}

abbrev pub mtu : ℕ
mtu = 1500

abbrev pub max_data_len : ℕ
max_data_len = 64

abbrev pub cluster_size : ℕ
cluster_size = 3

abbrev pub nonfrag_magic : ℕ
nonfrag_magic = 0x20050318

abbrev pub magic_len : ℕ
magic_len = 4

abbrev pub request_type_len : ℕ
request_type_len = 33

abbrev pub prepare_type_len : ℕ
prepare_type_len = 33

abbrev pub prepareok_type_len : ℕ
prepareok_type_len = 35

abbrev pub myprepareok_type_len : ℕ
myprepareok_type_len = 24

abbrev pub fast_paxos_data_len : ℕ
fast_paxos_data_len = 12

abbrev pub broadcast_sign_bit : ℕ
broadcast_sign_bit = 2 ^ 31

abbrev pub quorum_size : ℕ
quorum_size = (cluster_size + 1) / 2

abbrev pub quorum_bitset_entry : ℕ
quorum_bitset_entry = 1024

abbrev pub paxos_port : ℕ
paxos_port = 12345

abbrev pub magic_bits : Bytes
magic_bits = 0x18 ∷ 0x03 ∷ 0x05 ∷ 0x20 ∷ []

abbrev pub eth_alen : ℕ
eth_alen = 6

-- `ReplicaStatus`
pub data ReplicaStatus : Type 0 where
  status_normal status_view_change status_recovering : ReplicaStatus

-- `FastProgXdp`
pub data FastProgXdp : Type 0 where
  failed fast_prog_handle_prepare fast_prog_handle_request fast_prog_handle_prepareok : FastProgXdp
  fast_prog_write_buffer fast_prog_prepare_reply fast_prog_max : FastProgXdp

-- `addr` and `port` are the u32 and the u16 in memory.
pub record PaxosConfigure : Type 0 where
  pub addr : ℕ
  pub port : ℕ
  pub eth : Bytes

pub record PaxosQuorum : Type 0 where
  pub view : ℕ
  pub opnum : ℕ
  pub bitset : ℕ

pub record PaxosCtrState : Type 0 where
  pub state : ReplicaStatus
  pub my_idx : ℕ
  pub leader_idx : ℕ
  pub batch_size : ℕ
  pub view : ℕ
  pub last_op : ℕ

-- The maps that the programs use, `[]` for one that is not loaded; the entries submitted to
-- `map_prepare_buffer`, and the packets sent as clones, the latest first.
pub record Maps : Type 0 where
  pub configure : List PaxosConfigure
  pub ctr_state : List PaxosCtrState
  pub quorum : List PaxosQuorum
  pub prepare_buffer : List Bytes
  pub clones : List Bytes

abbrev pub set_quorum : ℕ → PaxosQuorum → Maps → Maps
set_quorum i entry m = record m { quorum = set m.quorum i entry }

abbrev pub set_ctr_state : PaxosCtrState → Maps → Maps
set_ctr_state s m = record m { ctr_state = set m.ctr_state 0 s }

abbrev pub submit : Bytes → Maps → Maps
submit entry m = record m { prepare_buffer = entry ∷ m.prepare_buffer }
