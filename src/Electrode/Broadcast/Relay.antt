-- ===== src/Electrode/Broadcast/Relay.antt =====
-- samples/electrode/src/main.rs, `handle_udp_fast_broad_cast`: the clones of a packet, each of which
-- passes the program again, reach every replica but the leader.
use rex_with_driver.Base.{
  ℕ, zero, suc, ◌+◌, ◌-◌, ◌≡◌, ◌≢◌, ◌<◌, ◌≤◌, refl, sym, ap, ◌∙◌, arith, List, [], ◌∷◌, ◌++◌, true,
  false, ltb, length, drop, take, some, get_elem?, inl, inr, Bool-cases, ltb→lt, ◌==◌,
  if◌then◌else◌, codes, Bool, append-nil, ap₂, bit_and, map,
}
use rex_with_driver.Kernel.{Bytes}
use rex_with_driver.Text.{splice}
use rex_with_driver.Text.Copy.{length-splice}
use rex_with_driver.Utils.{Result, ok, err}
use rex_with_driver.Words.{of_le}
use rex_with_driver.Program.{
  World, Ran, Host, yields, returns, panics, close, then_run, ret, starts_with,
}
use rex_with_driver.Electrode.{Maps, PaxosConfigure, broadcast_sign_bit, eth_alen}
use rex_with_driver.Electrode.Messages.Types.{named_type}
use rex_with_driver.Electrode.Broadcast.Fields.{Apart}
use rex_with_driver.Electrode.Broadcast.Pass.{entering, Ready, clone_below-clones, broadcast-relay}
use rex_with_driver.Electrode.Broadcast.Turns.{
  others, others-next, next_of-passes, others-first, first_of-passes,
}
use rex_with_driver.Electrode.Broadcast.Stamp.{
  stamped, get_elem?-splice, get_elem?-splice_twice, relay-first, relay-carried,
}
use rex_with_driver.Electrode.Broadcast.Address.{
  Destination, destination, location, address-location,
}
use rex_with_driver.Electrode.Broadcast.Message.{
  Message, Readable, place, Message-splice, fast_broad_cast_main-relayed,
}
use rex_with_driver.Electrode.Broadcast.{
  next_of, first_of, clone_below, relay, address, fast_broad_cast_main,
}

-- The packets that leave: the one that the program lets pass, with its destination, and what comes of
-- the clones that it sent, each of which passes the program in turn. `fuel` bounds the passes.
abbrev departs : Host → Result → Bytes → List Destination
departs h (ok v) packet = if v == h.tc_act_ok then destination h.layout packet ∷ [] else []
departs h (err e) packet = []

unfoldable pub each_clone : (Bytes → List Destination) → List Bytes → List Destination
each_clone f [] = []
each_clone f (clone ∷ clones) = f clone ++ each_clone f clones

abbrev outgoing : Host → (Maps → Bytes → List Destination) → Ran Maps Result → List Destination
outgoing h f (yields r w) = departs h r w.packet ++ each_clone (f w.rest) w.rest.clones
outgoing h f (returns r w) = []
outgoing h f (panics w) = []

unfoldable pub deliveries : ℕ → Host → Maps → Bytes → List Destination
unfolding each_clone
deliveries zero h m packet = []
deliveries (suc fuel) h m packet =
    outgoing h (deliveries fuel h) (fast_broad_cast_main h (entering m packet))

departs-ok :
    (h : Host) (packet : Bytes)
    → departs h (ok h.tc_act_ok) packet ≡ destination h.layout packet ∷ []
departs-ok h packet = ground arith

each_clone-if :
    (f : Bytes → List Destination) (b : Bool) (clone : Bytes)
    → each_clone f (if b then clone ∷ [] else []) ≡ (if b then f clone else [])
unfolding each_clone
each_clone-if f true clone = append-nil (f clone)
each_clone-if f false clone = refl

map-if :
    (f : ℕ → Destination) (b : Bool) (ids : List ℕ)
    → (if b then map f ids else []) ≡ map f (if b then ids else [])
map-if f true ids = refl
map-if f false ids = refl

module _ (h : Host) (apart : Apart h.layout) (readable : Readable h.layout)
    (sends : (packet : Bytes)
      → (changed : Bytes) × (h.clone_redirect packet ≡ some changed)
        × (length changed ≡ length packet))
    (type_len leader : ℕ) (text : Bytes) (replicas : ℕ → PaxosConfigure)
    (long : (id : ℕ) → id < 3 → eth_alen ≤ length (replicas id).eth)
    (to_all : (bit_and (of_le (take 4 text)) broadcast_sign_bit == 0) ≡ false) where
  abbrev a : ℕ
  a = place h.layout

  abbrev op : ℕ
  op = of_le (take 4 (drop 4 text))

  -- A pass of the program on a packet for which the relay picks `id` and leaves `stamp`.
  deliveries-pass :
      (fuel id : ℕ) (packet stamp : Bytes) (m : Maps)
      → id < 3
      → Message h type_len text packet
      → length stamp ≡ length packet
      → Ready leader op replicas m
      → ((m' : Maps)
          → relay h a leader (entering m' packet)
            ≡ then_run (clone_below h (next_of leader id) (entering m' stamp)) (λ _. ret id))
      → (m' : Maps) × (deliveries (suc fuel) h m packet
          ≡ location (replicas id)
            ∷ (if ltb (next_of leader id) 3 then deliveries fuel h m' stamp else []))
        × Ready leader op replicas m'
  unfolding deliveries
  deliveries-pass fuel id packet stamp m small msg same ready relays =
      let (m1, begins, ready1) =
        broadcast-relay h a leader op replicas m packet (of_le (take 4 text)) (named_type text)
          to_all ready in
      let (p, cloned, kept) = clone_below-clones h sends (next_of leader id) id m1 stamp in
      let clones = if ltb (next_of leader id) 3 then stamp ∷ [] else [] in
      let m2 : Maps = record m1 { clones = clones } in
      let w : World Maps = record { packet = p; rest = m2 } in
      let (out, sent, there) =
        address-location h apart a id w (replicas id) (omega arith)
          (omega (arith, msg.size, msg.named, same, kept)) (long id small)
          (ready1.configured id small) in
      let runs : fast_broad_cast_main h (entering m packet)
          ≡ yields (ok h.tc_act_ok) (record w { packet = out }) =
        fast_broad_cast_main-relayed h type_len text (entering m packet) msg readable
        ∙ ap close (begins ∙ ap (λ r. then_run r (address h a)) (relays m1 ∙ cloned) ∙ sent) in
      (
        m2,
        ap (outgoing h (deliveries fuel h)) runs
            ∙ ap₂ ◌++◌ (departs-ok h out ∙ ap (λ d. d ∷ []) there)
                (each_clone-if (deliveries fuel h m2) (ltb (next_of leader id) 3) stamp),
        record { leads = ready1.leads; entry = ready1.entry; configured = ready1.configured },
      )

  abbrev locations : List ℕ → List Destination
  locations ids = map (λ id. location (replicas id)) ids

  deliveries-carried :
      (fuel id : ℕ) (packet : Bytes) (m : Maps)
      → id < 3
      → 3 ≤ id + fuel
      → leader ≢ id
      → Message h type_len text packet
      → Ready leader op replicas m
      → get_elem? (drop a packet) 0 ≡ some id
      → deliveries fuel h m packet ≡ locations (others leader id (3 - id))
  deliveries-carried zero id packet m small enough other msg ready carried = absurd (omega arith)
  deliveries-carried (suc fuel) id packet m small enough other msg ready carried =
      let nxt = next_of leader id in
      let stamp = splice packet a (nxt ∷ []) in
      let inside : a < length packet = omega (arith, msg.size, msg.named) in
      let next = next_of-passes leader id small in
      let (m', passes, ready') =
        deliveries-pass fuel id packet stamp m small msg
          (length-splice packet a (nxt ∷ []) (omega arith)) ready
          (λ m'. relay-carried h a leader id (entering m' packet) carried small) in
      let again = λ (below : ltb nxt 3 ≡ true).
        deliveries-carried fuel nxt stamp m' (ltb→lt _ _ below) (ground (arith, next))
          (ground (arith, next))
          (Message-splice h readable type_len text packet (nxt ∷ []) a msg (omega arith)
            (omega arith))
          ready' (get_elem?-splice packet a nxt inside) in
      passes ∙ elim (Bool-cases (ltb nxt 3)) [
        | inl below ↦
            ap (λ l. location (replicas id) ∷ (if ltb nxt 3 then l else [])) (again below)
            ∙ ground (arith, below, others-next leader id small other)
        | inr above ↦ ground (arith, above, others-next leader id small other)
      ]

  -- A UDP packet of the protocol that asks for a broadcast and was not relayed yet (its type string
  -- begins with "sp"), with its lengths in the bounds that the program checks, passes the program,
  -- as do the clones that the program sends. The packets that leave, with TC_ACT_OK, go to the
  -- replicas of the cluster other than the leader, in their order and one to each, by MAC address,
  -- IP address and UDP port; three passes are enough. Clones are to be sent without an error and to
  -- leave the packet its length, the maps are to hold the leader, the operation's entry and the
  -- three replicas with MAC addresses of six bytes, and the header types are to have their fields
  -- in place.
  pub deliveries-others :
      (fuel : ℕ) (packet : Bytes) (m : Maps)
      → 3 ≤ fuel
      → Message h type_len text packet
      → starts_with (drop (place h.layout) packet) (codes "sp") ≡ true
      → Ready leader (of_le (take 4 (drop 4 text))) replicas m
      → deliveries fuel h m packet ≡ map (λ id. location (replicas id)) (others leader 0 3)
  deliveries-others zero packet m enough msg sp ready = absurd (omega arith)
  deliveries-others (suc fuel) packet m enough msg sp ready =
      let first = first_of leader in
      let nxt = next_of leader first in
      let stamp1 = splice packet a (nxt ∷ []) in
      let stamp = stamped a nxt packet in
      let (small, other, next, below) = first_of-passes leader in
      let (above, passes) = next_of-passes leader first small in
      let fits : a + 2 ≤ length packet = omega (arith, msg.size, msg.named) in
      let same1 = length-splice packet a (nxt ∷ []) (omega (arith, fits)) in
      let same = length-splice stamp1 (a + 1) (codes "M") (omega (arith, fits, same1)) ∙ same1 in
      let msg1 =
        Message-splice h readable type_len text packet (nxt ∷ []) a msg (omega arith)
          (omega arith) in
      let msg' =
        Message-splice h readable type_len text stamp1 (codes "M") (a + 1) msg1 (omega arith)
          (omega arith) in
      let (m', leaves, ready') =
        deliveries-pass fuel first packet stamp m small msg same ready
          (λ m'. relay-first h a leader (entering m' packet) fits sp) in
      let again =
        deliveries-carried fuel nxt stamp m' below (omega (arith, next)) passes msg' ready'
          (get_elem?-splice_twice packet a nxt 77 (omega (arith, fits))) in
      leaves
      ∙ ap (λ l. location (replicas first) ∷ (if ltb nxt 3 then l else [])) again
      ∙ ap (◌∷◌ (location (replicas first)))
          (map-if (λ id. location (replicas id)) (ltb nxt 3) (others leader nxt (3 - nxt)))
      ∙ ap locations (sym (others-next leader first small other) ∙ sym (others-first leader))
