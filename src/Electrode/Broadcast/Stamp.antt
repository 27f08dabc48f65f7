-- ===== src/Electrode/Broadcast/Stamp.antt =====
-- samples/electrode/src/main.rs, the block of `handle_udp_fast_broad_cast` that writes the next
-- replica into the packet: what it leaves there, and what it reads.
use rex_with_driver.Base.{
  ℕ, zero, suc, ◌+◌, ◌≡◌, ◌≢◌, ◌<◌, ◌≤◌, refl, subst, ◌∙◌, arith, [], ◌∷◌, ◌++◌, true, false,
  length, take, drop, some, get_elem?, get_elem?-lt, length-drop, length-take, codes,
  drop-append_length,
}
use rex_with_driver.Kernel.{Bytes}
use rex_with_driver.Text.{splice}
use rex_with_driver.Text.Copy.{length-splice}
use rex_with_driver.Program.{World, Host, then_run, ret, starts_with}
use rex_with_driver.Electrode.{Maps}
use rex_with_driver.Electrode.Broadcast.{next_of, first_of, clone_below, relay}

drop-splice :
    (buf : Bytes) (off : ℕ) (s : Bytes)
    → off ≤ length buf
    → drop off (splice buf off s) ≡ s ++ drop (off + length s) buf
drop-splice buf off s h =
    let rest = s ++ drop (off + length s) buf in
    subst (λ n. drop n (take off buf ++ rest) ≡ rest) (omega (arith, length-take off buf))
      (drop-append_length (take off buf) rest)

get_elem?-drop-take :
    (a n : ℕ) (buf rest : Bytes)
    → a < n
    → a < length buf
    → get_elem? (drop a (take n buf ++ rest)) 0 ≡ get_elem? (drop a buf) 0
get_elem?-drop-take a zero buf rest below inside = absurd (omega arith)
get_elem?-drop-take a (suc n) [] rest below inside = absurd (omega arith)
get_elem?-drop-take zero (suc n) (b ∷ buf) rest below inside = refl
get_elem?-drop-take (suc a) (suc n) (b ∷ buf) rest below inside =
    get_elem?-drop-take a n buf rest (omega arith) (omega arith)

-- The byte at `a` after the one write, and after the two.
pub get_elem?-splice :
    (buf : Bytes) (a b : ℕ) → a < length buf → get_elem? (drop a (splice buf a (b ∷ []))) 0 ≡ some b
get_elem?-splice buf a b h = rw (drop-splice buf a (b ∷ []) (omega arith)) refl

pub get_elem?-splice_twice :
    (buf : Bytes) (a b c : ℕ)
    → a < length buf
    → get_elem? (drop a (splice (splice buf a (b ∷ [])) (a + 1) (c ∷ []))) 0 ≡ some b
get_elem?-splice_twice buf a b c h =
    let same = length-splice buf a (b ∷ []) (omega arith) in
    get_elem?-drop-take a (a + 1) (splice buf a (b ∷ []))
      (c ∷ drop (a + 1 + 1) (splice buf a (b ∷ []))) (omega arith) (omega (arith, same))
    ∙ get_elem?-splice buf a b h

-- The packet after the block, of which the clone is a copy.
abbrev pub stamped : ℕ → ℕ → Bytes → Bytes
stamped a nxt packet = splice (splice packet a (nxt ∷ [])) (a + 1) (codes "M")

starts_with-other :
    (xs : Bytes) (p b : ℕ) (ps : Bytes)
    → get_elem? xs 0 ≡ some b
    → b ≢ p
    → starts_with xs (p ∷ ps) ≡ false
unfolding starts_with
starts_with-other [] p b ps found other = refl
starts_with-other (x ∷ xs) p b ps found other = ground (arith, found, other)

-- What the block does to a packet that was not relayed, and to one that carries a replica.
pub relay-first :
    (h : Host) (a leader : ℕ) (w : World Maps)
    → a + 2 ≤ length w.packet
    → starts_with (drop a w.packet) (codes "sp") ≡ true
    → let nxt = next_of leader (first_of leader) in
      relay h a leader w
      ≡ then_run
          (clone_below h nxt (record w { packet = stamped a nxt w.packet }))
          (λ _. ret (first_of leader))
unfolding relay
relay-first h a leader w long sp =
    let nxt = next_of leader (first_of leader) in
    ground (arith, sp, length-drop a w.packet, length-splice w.packet a (nxt ∷ []) (omega arith))

pub relay-carried :
    (h : Host) (a leader id : ℕ) (w : World Maps)
    → get_elem? (drop a w.packet) 0 ≡ some id
    → id < 3
    → let nxt = next_of leader id in
      relay h a leader w
      ≡ then_run
          (clone_below h nxt (record w { packet = splice w.packet a (nxt ∷ []) }))
          (λ _. ret id)
unfolding relay
relay-carried h a leader id w carried small =
    let inside : a < length w.packet =
      omega (arith, get_elem?-lt (drop a w.packet) 0 carried, length-drop a w.packet) in
    let other : starts_with (drop a w.packet) (codes "sp") ≡ false =
      starts_with-other (drop a w.packet) 115 id (codes "p") carried (omega arith) in
    ground (arith, carried, inside, other)
