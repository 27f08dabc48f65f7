-- ===== src/Electrode/Broadcast/Pass.antt =====
-- samples/electrode/src/main.rs, `handle_udp_fast_broad_cast`: a pass up to the relay, and the clone
-- that the relay sends.
use rex_with_driver.Base.{
  ℕ, ◌-◌, ◌≡◌, ◌<◌, refl, arith, [], ◌∷◌, false, ltb, length, some, get_elem?, get_elem?-lt,
  get_elem?-set_self, inl, inr, Bool-cases, ◌==◌, if◌then◌else◌, bit_and, bit_xor,
}
use rex_with_driver.Kernel.{Bytes}
use rex_with_driver.Program.{World, Host, yields, then_run, ret}
use rex_with_driver.Electrode.{
  Maps, PaxosConfigure, PaxosCtrState, PaxosQuorum, FastProgXdp, set_quorum, quorum_bitset_entry,
  broadcast_sign_bit,
}
use rex_with_driver.Electrode.Broadcast.{
  send_clone, clone_below, relay, address, broadcast, open_quorum, open_entry, is_prepare,
}

abbrev pub entering : Maps → Bytes → World Maps
entering m packet = record { packet = packet; rest = record m { clones = [] } }

-- The state of the maps, for a cluster with these replicas: the leader is known, the entry of the
-- operation and the replicas are there.
pub record Ready (leader op : ℕ) (replicas : ℕ → PaxosConfigure) (m : Maps) : Type 0 where
  pub leads : (c : PaxosCtrState) × (get_elem? m.ctr_state 0 ≡ some c) × (c.leader_idx ≡ leader)
  pub entry :
      (e : PaxosQuorum) × (get_elem? m.quorum (bit_and op (quorum_bitset_entry - 1)) ≡ some e)
  pub configured : (id : ℕ) → id < 3 → get_elem? m.configure id ≡ some (replicas id)

opened-Ready :
    (leader op : ℕ) (replicas : ℕ → PaxosConfigure) (e : PaxosQuorum) (m : Maps)
    → Ready leader op replicas m
    → Ready leader op replicas (set_quorum (bit_and op (quorum_bitset_entry - 1)) e m)
opened-Ready leader op replicas e m ready = record {
  leads = ready.leads;
  entry =
      let (old, found) = ready.entry in
      (
        e,
        get_elem?-set_self m.quorum (bit_and op (quorum_bitset_entry - 1)) e
            (get_elem?-lt m.quorum (bit_and op (quorum_bitset_entry - 1)) found),
      );
  configured = ready.configured;
}

module _ (h : Host) where
  pub clone_below-clones :
      (sends : (packet : Bytes)
        → (changed : Bytes) × (h.clone_redirect packet ≡ some changed)
          × (length changed ≡ length packet))
      (nxt id : ℕ) (m : Maps) (stamp : Bytes)
      → (p : Bytes) × (then_run (clone_below h nxt (entering m stamp)) (λ _. ret id)
          ≡ yields id (record {
            packet = p;
            rest = record m { clones = if ltb nxt 3 then stamp ∷ [] else [] };
          }))
        × (length p ≡ length stamp)
  unfolding clone_below send_clone
  clone_below-clones sends nxt id m stamp =
      let (changed, sent, same) = sends stamp in
      elim (Bool-cases (ltb nxt 3)) [
        | inl below ↦ (changed, ground (arith, below, sent), same)
        | inr above ↦ (stamp, ground (arith, above), refl)
      ]

  -- What comes before the relay leaves the packet alone.
  pub broadcast-relay :
      (a leader op : ℕ) (replicas : ℕ → PaxosConfigure) (m : Maps) (packet : Bytes) (view_word : ℕ)
      (t : FastProgXdp)
      → (bit_and view_word broadcast_sign_bit == 0) ≡ false
      → Ready leader op replicas m
      → (m' : Maps) × (broadcast h a view_word op t (entering m packet)
          ≡ then_run (relay h a leader (entering m' packet)) (address h a))
        × Ready leader op replicas m'
  unfolding broadcast open_quorum
  broadcast-relay a leader op replicas m packet view_word t sign ready =
      let (c, counter, same) = ready.leads in
      let (e, found) = ready.entry in
      let opened = open_entry (bit_xor view_word broadcast_sign_bit) op e in
      elim (Bool-cases (is_prepare t)) [
        | inl prepares ↦ (
          set_quorum (bit_and op (quorum_bitset_entry - 1)) opened m,
          ground (arith, prepares, sign, counter, found, same),
          opened-Ready leader op replicas opened m ready,
        )
        | inr no_prepare ↦ (m, ground (arith, no_prepare, sign, counter, same), ready)
      ]
