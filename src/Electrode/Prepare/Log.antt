-- ===== src/Electrode/Prepare/Log.antt =====
-- samples/electrode/src/main.rs, `handle_prepare` and `write_buffer`: how the replica's last operation
-- and the buffer of entries for user space move.
use rex_with_driver.Base.{
  ℕ, ◌+◌, ◌≡◌, ◌<◌, ◌≤◌, ◌⊎◌, inl, inr, refl, sym, subst, ◌∙◌, arith, [], ◌∷◌, false, Bool-cases,
  ltb, ltb→lt, length, take, drop, get_elem?, some, none, Option-cases, get_elem?-set_self,
  get_elem?-lt, length-drop,
}
use rex_with_driver.Kernel.{Bytes, add64}
use rex_with_driver.Utils.{err}
use rex_with_driver.Words.{of_le}
use rex_with_driver.Program.{World, Host, yields, final, close, close-close}
use rex_with_driver.Electrode.{
  Maps, PaxosCtrState, PaxosConfigure, status_normal, set_ctr_state, submit, max_data_len,
}
use rex_with_driver.Electrode.Prepare.{
  send_reply, write_reply, write_each, write_type, write_ids, prepare_fast_reply, append_entry,
  write_buffer, prepare_op, handle_prepare,
}

-- A reply touches no map.
send_reply-rest :
    (h : Host) (leader : PaxosConfigure) (n : ℕ) (w : World Maps)
    → (final (send_reply h leader n w)).rest ≡ w.rest
unfolding send_reply
send_reply-rest h leader n w = ground arith

write_reply-rest :
    (h : Host) (p : ℕ) (c : PaxosCtrState) (leader : PaxosConfigure) (w : World Maps)
    → (final (write_reply h p c leader w)).rest ≡ w.rest
unfolding write_reply
write_reply-rest h p c leader w = grind (arith, send_reply-rest)

write_each-rest : (a : ℕ) (bs : Bytes) (w : World Maps) → (final (write_each a bs w)).rest ≡ w.rest
unfolding write_each
write_each-rest a [] w = refl
write_each-rest a (b ∷ bs) w = grind (arith, write_each-rest (a + 1) bs)

write_type-rest : (p : ℕ) (w : World Maps) → (final (write_type p w)).rest ≡ w.rest
unfolding write_type
write_type-rest p w = grind (arith, write_each-rest)

write_ids-rest :
    (p : ℕ) (c : PaxosCtrState) (w : World Maps) → (final (write_ids p c w)).rest ≡ w.rest
unfolding write_ids
write_ids-rest p c w = ground arith

prepare_fast_reply-rest :
    (h : Host) (p : ℕ) (w : World Maps) → (final (prepare_fast_reply h p w)).rest ≡ w.rest
unfolding prepare_fast_reply
prepare_fast_reply-rest h p w = grind (arith, write_type-rest, write_ids-rest, write_reply-rest)

write_buffer-rest :
    (h : Host) (p : ℕ) (w : World Maps)
    → let m = (final (write_buffer h p w)).rest in
      (m ≡ w.rest) ⊎ (m ≡ submit (take max_data_len (drop (p + 12) w.packet)) w.rest)
unfolding write_buffer append_entry
write_buffer-rest h p w = grind (arith, prepare_fast_reply-rest)

-- How the maps move: not at all, or the last operation of the first replica state goes up, with at
-- most one entry submitted.
pub data Advanced (m m' : Maps) : Type 0 where
  kept : m' ≡ m → Advanced m m'
  advanced :
      (s : PaxosCtrState) (op : ℕ)
      → get_elem? m.ctr_state 0 ≡ some s
      → s.last_op < op
      → m' ≡ set_ctr_state (record s { last_op = op }) m
      → Advanced m m'
  appended :
      (s : PaxosCtrState) (op : ℕ) (entry : Bytes)
      → get_elem? m.ctr_state 0 ≡ some s
      → s.last_op < op
      → m' ≡ submit entry (set_ctr_state (record s { last_op = op }) m)
      → Advanced m m'

-- Either nothing moves, or the last operation does and the message is buffered.
prepare_op-rest :
    (h : Host) (p view op start : ℕ) (s : PaxosCtrState) (w : World Maps)
    → let moved = record w { rest = set_ctr_state (record s { last_op = op }) w.rest } in
      let m = (final (prepare_op h p view op start s w)).rest in
      (m ≡ w.rest) ⊎ (s.last_op < op) × (m ≡ (final (write_buffer h p moved)).rest)
unfolding prepare_op
prepare_op-rest h p view op start s w =
    let moved = record w { rest = set_ctr_state (record s { last_op = op }) w.rest } in
    ground (arith, prepare_fast_reply-rest h p w)

prepare_op-Advanced :
    (h : Host) (p view op start : ℕ) (s : PaxosCtrState) (w : World Maps)
    → get_elem? w.rest.ctr_state 0 ≡ some s
    → Advanced w.rest (final (prepare_op h p view op start s w)).rest
prepare_op-Advanced h p view op start s w found =
    let moved = record w { rest = set_ctr_state (record s { last_op = op }) w.rest } in
    elim (prepare_op-rest h p view op start s w) [
      | inl same ↦ kept same
      | inr (newer, e) ↦ elim (write_buffer-rest h p moved) [
        | inl same ↦ advanced s op found newer (e ∙ same)
        | inr put ↦ appended s op (take max_data_len (drop (p + 12) w.packet)) found newer (e ∙ put)
      ]
    ]

-- The words of the message that begins at `p`.
abbrev pub msg_word : ℕ → ℕ → World Maps → ℕ
msg_word p i w = of_le (take 4 (drop i (drop p w.packet)))

prepare_op-close :
    (h : Host) (p view op start : ℕ) (s : PaxosCtrState) (w : World Maps)
    → close (prepare_op h p view op start s w) ≡ prepare_op h p view op start s w
unfolding prepare_op
prepare_op-close h p view op start s w = ground arith

-- A message of twelve bytes or more reaches the part on the first replica state.
handle_prepare-prepare_op :
    (h : Host) (p : ℕ) (w : World Maps) (s : PaxosCtrState)
    → p + 12 ≤ length w.packet
    → get_elem? w.rest.ctr_state 0 ≡ some s
    → handle_prepare h p w ≡ prepare_op h p (msg_word p 0 w) (msg_word p 4 w) (msg_word p 8 w) s w
unfolding handle_prepare
handle_prepare-prepare_op h p w s long found = ground (
  arith,
  found,
  length-drop p w.packet,
  prepare_op-close h p (msg_word p 0 w) (msg_word p 4 w) (msg_word p 8 w) s w,
)

-- A shorter one, or one before the state is there, leaves the maps alone.
handle_prepare-rest_short :
    (h : Host) (p : ℕ) (w : World Maps)
    → length w.packet < p + 12
    → (final (handle_prepare h p w)).rest ≡ w.rest
unfolding handle_prepare
handle_prepare-rest_short h p w short = ground (arith, length-drop p w.packet)

handle_prepare-rest_missing :
    (h : Host) (p : ℕ) (w : World Maps)
    → get_elem? w.rest.ctr_state 0 ≡ none
    → (final (handle_prepare h p w)).rest ≡ w.rest
unfolding handle_prepare
handle_prepare-rest_missing h p w missing = ground (arith, missing)

-- A `Prepare` message, whatever its bytes, leaves the maps alone, or moves the last operation of the
-- replica up and submits at most one entry.
pub handle_prepare-Advanced :
    (h : Host) (p : ℕ) (w : World Maps) → Advanced w.rest (final (handle_prepare h p w)).rest
handle_prepare-Advanced h p w = elim (Option-cases (get_elem? w.rest.ctr_state 0)) [
  | inl missing ↦ kept (handle_prepare-rest_missing h p w missing)
  | inr (s, found) ↦ elim (Bool-cases (ltb (length w.packet) (p + 12))) [
    | inl short ↦ kept (handle_prepare-rest_short h p w (ltb→lt _ _ short))
    | inr long ↦
        subst (λ r. Advanced w.rest (final r).rest)
          (sym (handle_prepare-prepare_op h p w s (ground arith) found))
          (prepare_op-Advanced h p (msg_word p 0 w) (msg_word p 4 w) (msg_word p 8 w) s w found)
  ]
]

prepare_fast_reply-close :
    (h : Host) (p : ℕ) (w : World Maps)
    → close (prepare_fast_reply h p w) ≡ prepare_fast_reply h p w
unfolding prepare_fast_reply
prepare_fast_reply-close h p w = close-close _

write_buffer-full :
    (h : Host) (p : ℕ) (w : World Maps)
    → p + 76 ≤ length w.packet
    → h.has_room w.rest.prepare_buffer ≡ false
    → write_buffer h p w ≡ yields (err 0) w
unfolding write_buffer append_entry
write_buffer-full h p w long full = ground (arith, full, length-drop (p + 12) w.packet)

-- An entry is lost: on a message with a new operation that should be buffered, when the ring buffer
-- has no room, the program gives up with `Err(0)` after the last operation was moved; the same message
-- sent again is then answered as one that was buffered before.
pub handle_prepare_loses :
    (h : Host) (p : ℕ) (w : World Maps) (s : PaxosCtrState)
    → p + 76 ≤ length w.packet
    → get_elem? w.rest.ctr_state 0 ≡ some s
    → s.state ≡ status_normal
    → msg_word p 0 w ≡ s.view
    → s.last_op < msg_word p 4 w
    → msg_word p 8 w ≤ add64 s.last_op 1
    → h.has_room w.rest.prepare_buffer ≡ false
    → let moved = record w {
      rest = set_ctr_state (record s { last_op = msg_word p 4 w }) w.rest;
    } in
      (handle_prepare h p w ≡ yields (err 0) moved)
      × (handle_prepare h p moved ≡ prepare_fast_reply h p moved)
unfolding prepare_op
handle_prepare_loses h p w s long found normal same_view new batch full =
    let s' = record s { last_op = msg_word p 4 w } in
    let moved = record w { rest = set_ctr_state s' w.rest } in
    let found' : get_elem? moved.rest.ctr_state 0 ≡ some s' =
      get_elem?-set_self w.rest.ctr_state 0 s' (get_elem?-lt w.rest.ctr_state 0 found) in
    (
      handle_prepare-prepare_op h p w s (omega arith) found
          ∙ ground (arith, normal, same_view, new, batch, write_buffer-full h p moved long full),
      handle_prepare-prepare_op h p moved s' (omega arith) found'
          ∙ ground (arith, normal, same_view, prepare_fast_reply-close h p moved),
    )
