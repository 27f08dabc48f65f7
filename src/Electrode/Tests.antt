-- ===== src/Electrode/Tests.antt =====
-- A replica of view 3 whose last operation is 7, in a cluster that replica 0 leads.
use rex_with_driver.Base.{
  ◌≡◌, refl, [], ◌∷◌, ◌++◌, true, ◌&&◌, ◌==◌, ltb, if◌then◌else◌, some, none, arith, codes,
  replicate, length, drop, ◌-◌, ◌+◌, ◌^◌, ◌<◌, ℕ, zero, suc, get_elem?, map,
}
use rex_with_driver.Kernel.{Bytes}
use rex_with_driver.Utils.{ok, err}
use rex_with_driver.Words.{to_le, of_le, of_be}
use rex_with_driver.Example.{host}
use rex_with_driver.Program.{World, yields, panics, close, final, starts_with}
use rex_with_driver.Electrode.{
  Maps, PaxosConfigure, PaxosQuorum, PaxosCtrState, status_normal, set_quorum, set_ctr_state,
  fast_prog_handle_prepare, magic_bits,
}
use rex_with_driver.Electrode.Messages.{compute_message_type}
use rex_with_driver.Electrode.Messages.Types.{
  stands_at, named_type, compute_message_type-named_type,
}
use rex_with_driver.Electrode.Prepare.{handle_prepare, prepare_fast_reply}
use rex_with_driver.Electrode.Prepare.Log.{Advanced, handle_prepare-Advanced, handle_prepare_loses}
use rex_with_driver.Electrode.Prepare.Reply.{outcome, prepare_fast_reply_short}
use rex_with_driver.Electrode.Quorum.{vote, count_vote}
use rex_with_driver.Electrode.Quorum.Votes.{
  StandsFor, StandsFor-nil, add_voter, passed, count_vote-StandsFor,
}
use rex_with_driver.Electrode.Receive.{handle_udp_fast_paxos}
use rex_with_driver.Electrode.Receive.Short.{handler_of, handle_udp_fast_paxos-handler_of}
use rex_with_driver.Electrode.Broadcast.Relay.{deliveries, deliveries-others}
use rex_with_driver.Electrode.Broadcast.Pass.{Ready}
use rex_with_driver.Electrode.Broadcast.Turns.{others}
use rex_with_driver.Electrode.Broadcast.Fields.{Apart}
use rex_with_driver.Electrode.Broadcast.Address.{location}
use rex_with_driver.Electrode.Broadcast.Message.{Message, Readable}

abbrev replica : PaxosConfigure
replica = record { addr = 1; port = 2; eth = 0 ∷ 1 ∷ 2 ∷ 3 ∷ 4 ∷ 5 ∷ [] }

abbrev ctr : PaxosCtrState
ctr = record {
  state = status_normal;
  my_idx = 1;
  leader_idx = 0;
  batch_size = 1;
  view = 3;
  last_op = 7;
}

abbrev entry : PaxosQuorum
entry = record { view = 3; opnum = 1; bitset = 0 }

-- Its ring buffer is full.
abbrev maps : Maps
maps = record {
  configure = replica ∷ replica ∷ replica ∷ [];
  ctr_state = ctr ∷ [];
  quorum = entry ∷ entry ∷ [];
  prepare_buffer = [] ∷ [];
  clones = [];
}

abbrev with_packet : Bytes → World Maps
with_packet packet = record { packet = packet; rest = maps }

-- A prepare of operation 8, with 64 bytes of data.
abbrev prepare : World Maps
prepare = with_packet (to_le 4 3 ++ (to_le 4 8 ++ (to_le 4 8 ++ replicate 64 0)))

-- A message of 26 bytes of the protocol, behind 54 bytes of headers and magic.
abbrev short : World Maps
short =
    with_packet
      (replicate 46 0 ++ (to_le 8 26 ++ (replicate 10 1 ++ (codes "vr" ++ replicate 14 1))))

abbrev named_message : Bytes
named_message =
    replicate 10 1 ++ (codes "vr" ++ (replicate 7 1 ++ (codes "PrepareM" ++ replicate 7 1)))

-- A message of 48 bytes to all replicas, of view 3 and operation 1, from a leader.
abbrev text : Bytes
text = to_le 4 (3 + 2 ^ 31) ++ (to_le 4 1 ++ replicate 4 0)

abbrev unsent : Bytes
unsent =
    replicate 14 0
    ++ ((replicate 9 0 ++ 17 ∷ replicate 10 0)
        ++ ((0 ∷ 0 ∷ 48 ∷ 57 ∷ replicate 4 0)
            ++ (magic_bits ++ (to_le 8 9 ++ (codes "specpaxos" ++ text)))))

abbrev numbered : ℕ → PaxosConfigure
numbered id = record replica { addr = 10 + id }

abbrev cluster : Maps
cluster = record maps { configure = numbered 0 ∷ numbered 1 ∷ numbered 2 ∷ [] }

cluster-configured : (id : ℕ) → id < 3 → get_elem? cluster.configure id ≡ some (numbered id)
cluster-configured zero small = refl
cluster-configured (suc zero) small = refl
cluster-configured (suc (suc zero)) small = refl
cluster-configured (suc (suc (suc id))) small = absurd (omega arith)

cluster-Ready : Ready 0 1 numbered cluster
cluster-Ready = record {
  leads = (ctr, refl, refl);
  entry = (entry, refl);
  configured = cluster-configured;
}

unsent-Message : Message host 9 text unsent
unfolding of_be of_le to_le
unsent-Message = record {
  udp = refl;
  port = refl;
  magic = refl;
  word = refl;
  named = omega arith;
  short = omega arith;
  size = omega arith;
  rest = refl;
}

host-Apart : Apart host.layout
host-Apart = omega arith

host-Readable : Readable host.layout
host-Readable = omega arith

compute_message_type-named_type_example :
    compute_message_type {R = Maps} named_message prepare
    ≡ yields (named_type named_message) prepare
compute_message_type-named_type_example = compute_message_type-named_type named_message prepare

named_message_type : named_type named_message ≡ fast_prog_handle_prepare
unfolding named_type starts_with
named_message_type = refl

handle_prepare-Advanced_example : Advanced maps (final (handle_prepare host 0 prepare)).rest
handle_prepare-Advanced_example = handle_prepare-Advanced host 0 prepare

handle_prepare_loses_example :
    let moved = record prepare { rest = set_ctr_state (record ctr { last_op = 8 }) maps } in
    (handle_prepare host 0 prepare ≡ yields (err 0) moved)
    × (handle_prepare host 0 moved ≡ prepare_fast_reply host 0 moved)
unfolding of_le to_le
handle_prepare_loses_example =
    handle_prepare_loses host 0 prepare ctr (omega arith) refl refl refl (omega arith) (omega arith)
      refl

prepare_fast_reply_short_example :
    outcome (prepare_fast_reply host 0 (with_packet (replicate 30 0)))
    ≡ (if ltb 20 30 && ltb 30 48 then none else some (ok 2))
prepare_fast_reply_short_example =
    prepare_fast_reply_short host 0 (with_packet (replicate 30 0)) ctr replica refl refl
      (omega arith) (omega arith)

count_vote-StandsFor_example :
    let w = record prepare { rest = set_quorum 1 (vote 2 entry) maps } in
    StandsFor (add_voter 2 []) (vote 2 entry).bitset
    × (count_vote host 54 3 1 2 prepare ≡ (
        if length (add_voter 2 []) == 1
        then passed host w (host.adjust_tail prepare.packet (2 ^ 32 - 54))
        else yields (ok 1) w))
count_vote-StandsFor_example =
    count_vote-StandsFor host 54 3 1 2 prepare entry [] refl refl refl (omega arith) StandsFor-nil

handle_udp_fast_paxos-handler_of_example :
    handle_udp_fast_paxos host true true short
    ≡ close (
        if true
          && length (drop 54 short.packet) == 26
          && stands_at (drop 54 short.packet) 10 (codes "vr")
        then panics short
        else handler_of host true true 54 (drop 54 short.packet) short)
unfolding of_le to_le
handle_udp_fast_paxos-handler_of_example =
    handle_udp_fast_paxos-handler_of host true true short (omega arith) (omega arith) (omega arith)

deliveries-others_example :
    deliveries 3 host cluster unsent ≡ map (λ id. location (numbered id)) (others 0 0 3)
unfolding starts_with of_le to_le
deliveries-others_example =
    deliveries-others host host-Apart host-Readable (λ packet. (packet, refl, refl)) 9 0 text
      numbered (λ id small. omega arith) refl 3 unsent cluster (omega arith) unsent-Message refl
      cluster-Ready

-- The replicas that it names.
others_of_leader : others 0 0 3 ≡ 1 ∷ 2 ∷ []
unfolding others
others_of_leader = refl
