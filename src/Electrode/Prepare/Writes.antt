-- ===== src/Electrode/Prepare/Writes.antt =====
-- samples/electrode/src/main.rs, `prepare_fast_reply`: its writes, where they fit into the packet and
-- where they panic.
use rex_with_driver.Base.{
  ℕ, ◌+◌, ◌≡◌, ◌<◌, ◌≤◌, refl, ◌∙◌, arith, [], ◌∷◌, Bool, true, false, ltb, length, inl, inr,
  Bool-cases, codes,
}
use rex_with_driver.Kernel.{Bytes}
use rex_with_driver.Text.{splice}
use rex_with_driver.Text.Copy.{length-splice}
use rex_with_driver.Words.{to_le, length-to_le}
use rex_with_driver.Program.{World, then_run, Ran, yields, returns, panics, write}
use rex_with_driver.Electrode.{Maps, PaxosCtrState, nonfrag_magic, myprepareok_type_len}
use rex_with_driver.Electrode.Prepare.{skip_to, write_each, write_type, write_ids}

unfoldable pub panicked : {R A : Type 0} → Ran R A → Bool
panicked (yields a w) = false
panicked (returns r w) = false
panicked (panics w) = true

-- The packet after `write_each`.
pub written : ℕ → Bytes → Bytes → Bytes
written a [] packet = packet
written a (b ∷ bs) packet = written (a + 1) bs (splice packet a (b ∷ []))

length-written :
    (a : ℕ) (bs packet : Bytes)
    → a + length bs ≤ length packet
    → length (written a bs packet) ≡ length packet
unfolding written
length-written a [] packet fits = refl
length-written a (b ∷ bs) packet fits =
    let same = length-splice packet a (b ∷ []) (omega arith) in
    length-written (a + 1) bs (splice packet a (b ∷ [])) (omega (arith, same)) ∙ same

write_each-written :
    (a : ℕ) (bs : Bytes) (w : World Maps)
    → a + length bs ≤ length w.packet
    → write_each a bs w ≡ yields tt (record w { packet = written a bs w.packet })
unfolding write_each written
write_each-written a [] w fits = refl
write_each-written a (b ∷ bs) w fits =
    let w' = record w { packet = splice w.packet a (b ∷ []) } in
    let same = length-splice w.packet a (b ∷ []) (omega arith) in
    ground (arith, fits, write_each-written (a + 1) bs w' (omega (arith, same)))

write_each-panicked :
    (a : ℕ) (bs : Bytes) (w : World Maps)
    → 0 < length bs
    → length w.packet < a + length bs
    → panicked (write_each a bs w) ≡ true
unfolding write_each panicked
write_each-panicked a [] w nonempty short = absurd (omega arith)
write_each-panicked a (b ∷ []) w nonempty short = ground arith
write_each-panicked a (b ∷ b' ∷ bs) w nonempty short =
    let w' = record w { packet = splice w.packet a (b ∷ []) } in
    elim (Bool-cases (ltb (length w.packet) (a + 1))) [
      | inl outside ↦ ground (arith, outside)
      | inr inside ↦
          let same = length-splice w.packet a (b ∷ []) (ground arith) in
          ground (
            arith,
            inside,
            write_each-panicked (a + 1) (b' ∷ bs) w' (omega arith) (omega (arith, same)),
          )
    ]

-- The packet after the first two writes, after the name, and after the three words.
abbrev pub opened : ℕ → Bytes → Bytes
opened p packet =
    splice (splice packet p (to_le 4 nonfrag_magic)) (p + 4) (to_le 8 myprepareok_type_len)

abbrev pub named : ℕ → Bytes → Bytes
named p packet = written (p + 12 + 13) (codes "MyPrepareOK") (opened p packet)

length-opened :
    (p : ℕ) (packet : Bytes) → p + 12 ≤ length packet → length (opened p packet) ≡ length packet
length-opened p packet fits =
    let first =
      length-splice packet p (to_le 4 nonfrag_magic)
        (omega (arith, length-to_le 4 nonfrag_magic)) in
    length-splice (splice packet p (to_le 4 nonfrag_magic)) (p + 4) (to_le 8 myprepareok_type_len)
      (omega (arith, first, length-to_le 8 myprepareok_type_len))
    ∙ first

pub length-named :
    (p : ℕ) (packet : Bytes) → p + 36 ≤ length packet → length (named p packet) ≡ length packet
length-named p packet fits =
    let before = length-opened p packet (omega arith) in
    length-written (p + 12 + 13) (codes "MyPrepareOK") (opened p packet) (omega (arith, before))
    ∙ before

-- A write of `n` bytes.
write-fits :
    (a n v : ℕ) (w : World Maps)
    → a + n ≤ length w.packet
    → write a (to_le n v) w ≡ yields tt (record w { packet = splice w.packet a (to_le n v) })
write-fits a n v w fits = ground (arith, length-to_le n v)

write-panics :
    (a n v : ℕ) (w : World Maps) → length w.packet < a + n → write a (to_le n v) w ≡ panics w
write-panics a n v w short = ground (arith, length-to_le n v)

skip_to-fits : (a : ℕ) (w : World Maps) → a ≤ length w.packet → skip_to a w ≡ yields tt w
skip_to-fits a w fits = ground arith

length-write :
    (a n v : ℕ) (packet : Bytes)
    → a + n ≤ length packet
    → length (splice packet a (to_le n v)) ≡ length packet
length-write a n v packet fits =
    length-splice packet a (to_le n v) (omega (arith, length-to_le n v))

-- The parts, when they fit and when they do not.
write_type-head :
    (p : ℕ) (w : World Maps)
    → p + 12 ≤ length w.packet
    → write_type p w
      ≡ then_run
          (write_each (p + 12 + 13) (codes "MyPrepareOK") (record w { packet = opened p w.packet }))
          (λ _. skip_to (p + 36))
unfolding write_type
write_type-head p w fits =
    let w1 = record w { packet = splice w.packet p (to_le 4 nonfrag_magic) } in
    let w2 = record w { packet = opened p w.packet } in
    let same = length-write p 4 nonfrag_magic w.packet (omega arith) in
    let same' = length-opened p w.packet (omega arith) in
    rw (
      write-fits p 4 nonfrag_magic w (omega arith),
      skip_to-fits (p + 4) w1 (omega (arith, same)),
      write-fits (p + 4) 8 myprepareok_type_len w1 (omega (arith, same)),
      skip_to-fits (p + 12) w2 (omega (arith, same')),
    )

pub write_type-named :
    (p : ℕ) (w : World Maps)
    → p + 36 ≤ length w.packet
    → write_type p w ≡ yields tt (record w { packet = named p w.packet })
write_type-named p w fits =
    let w2 = record w { packet = opened p w.packet } in
    let w3 = record w { packet = named p w.packet } in
    write_type-head p w (omega arith)
    ∙ rw (
      write_each-written (p + 12 + 13) (codes "MyPrepareOK") w2
          (omega (arith, length-opened p w.packet)),
      skip_to-fits (p + 36) w3 (omega (arith, length-named p w.packet)),
    )

pub write_type-panicked :
    (p : ℕ) (w : World Maps)
    → p + 12 ≤ length w.packet
    → length w.packet < p + 36
    → panicked (write_type p w) ≡ true
unfolding panicked
write_type-panicked p w fits short =
    let w2 = record w { packet = opened p w.packet } in
    rw (write_type-head p w fits) (
      ground (
        arith,
        write_each-panicked (p + 12 + 13) (codes "MyPrepareOK") w2 (omega arith)
            (omega (arith, length-opened p w.packet)),
      ))

abbrev pub numbered : ℕ → PaxosCtrState → Bytes → Bytes
numbered p c packet =
    splice (splice (splice packet (p + 36) (to_le 4 c.view)) (p + 40) (to_le 4 p)) (p + 44)
      (to_le 4 c.my_idx)

pub write_ids-numbered :
    (p : ℕ) (c : PaxosCtrState) (w : World Maps)
    → p + 48 ≤ length w.packet
    → (write_ids p c w ≡ yields tt (record w { packet = numbered p c w.packet }))
      × (length (numbered p c w.packet) ≡ length w.packet)
unfolding write_ids
write_ids-numbered p c w fits =
    let w1 = record w { packet = splice w.packet (p + 36) (to_le 4 c.view) } in
    let w2 = record w { packet = splice w1.packet (p + 40) (to_le 4 p) } in
    let w3 = record w { packet = numbered p c w.packet } in
    let same1 = length-write (p + 36) 4 c.view w.packet (omega arith) in
    let same2 = length-write (p + 40) 4 p w1.packet (omega (arith, same1)) in
    let same3 = length-write (p + 44) 4 c.my_idx w2.packet (omega (arith, same1, same2)) in
    (
      rw (
        write-fits (p + 36) 4 c.view w (omega arith),
        write-fits (p + 40) 4 p w1 (omega (arith, same1)),
        write-fits (p + 44) 4 c.my_idx w2 (omega (arith, same1, same2)),
        skip_to-fits (p + 48) w3 (omega (arith, same1, same2, same3)),
      ),
      omega (arith, same1, same2, same3),
    )

pub write_ids-panicked :
    (p : ℕ) (c : PaxosCtrState) (w : World Maps)
    → length w.packet < p + 48
    → panicked (write_ids p c w) ≡ true
unfolding write_ids panicked
write_ids-panicked p c w short =
    let w1 = record w { packet = splice w.packet (p + 36) (to_le 4 c.view) } in
    let w2 = record w { packet = splice w1.packet (p + 40) (to_le 4 p) } in
    elim (Bool-cases (ltb (length w.packet) (p + 40))) [
      | inl outside ↦ rw (write-panics (p + 36) 4 c.view w (ground arith)) refl
      | inr inside ↦
          let same1 = length-write (p + 36) 4 c.view w.packet (ground arith) in
          rw (write-fits (p + 36) 4 c.view w (ground arith))
            (elim (Bool-cases (ltb (length w.packet) (p + 44))) [
              | inl outside ↦ rw (write-panics (p + 40) 4 p w1 (ground (arith, same1))) refl
              | inr inside' ↦
                  let same2 = length-write (p + 40) 4 p w1.packet (ground (arith, same1)) in
                  rw
                    (
                      write-fits (p + 40) 4 p w1 (ground (arith, same1)),
                      write-panics (p + 44) 4 c.my_idx w2 (ground (arith, same1, same2)),
                    )
                    refl
            ])
    ]
