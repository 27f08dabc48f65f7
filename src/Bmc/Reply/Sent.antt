-- ===== src/Bmc/Reply/Sent.antt =====
-- samples/bmc/src/main.rs, `write_pkt_reply`: the value and the end fill the packet to its last byte.
use rex_with_driver.Base.{
  ℕ, ◌+◌, ◌-◌, ◌%◌, ◌^◌, ◌≡◌, ◌<◌, ◌≤◌, ap, sym, ◌∙◌, arith, [], ◌∷◌, ◌++◌, length, take,
  append-nil, take-all, append_assoc, length-take,
}
use rex_with_driver.Kernel.{Bytes, sub64}
use rex_with_driver.Text.{splice}
use rex_with_driver.Text.Copy.{length-splice, take-splice}
use rex_with_driver.Program.{World, yields}
use rex_with_driver.Bmc.{BmcMaps, BmcCacheEntry}
use rex_with_driver.Bmc.Reply.{padding_of, write_end, write_value, end_bytes}

-- The packet that the new padding gives has room for the value and the end, from four bytes before the
-- key on, and for no more.
pub padding_of-fits :
    (len total payload_index : ℕ)
    → 4 ≤ payload_index
    → payload_index ≤ total
    → total < 2 ^ 31
    → len < 2 ^ 30
    → (total + padding_of len total payload_index) % 2 ^ 32 ≡ (payload_index - 4) + len + 5
unfolding padding_of
padding_of-fits len total payload_index past inside small short = omega arith

-- A write up to the end of the packet, byte by byte.
write_end-append :
    (a : ℕ) (bs : Bytes) (w : World BmcMaps)
    → a + length bs ≡ length w.packet
    → write_end a bs w ≡ yields tt (record w { packet = take a w.packet ++ bs })
unfolding write_end
write_end-append a [] w full =
    ap (λ p. yields tt (record w { packet = p }))
      (sym (append-nil (take a w.packet) ∙ take-all a w.packet (omega arith)))
write_end-append a (b ∷ bs) w full =
    let w1 = record w { packet = splice w.packet a (b ∷ []) } in
    let same = length-splice w.packet a (b ∷ []) (omega arith) in
    ground (arith, full, write_end-append (a + 1) bs w1 (omega (arith, same)))
    ∙ ap (λ p. yields tt (record w { packet = p ++ bs }))
        (take-splice w.packet a (b ∷ []) (omega arith))
    ∙ ap (λ p. yields tt (record w { packet = p })) (append_assoc (take a w.packet) (b ∷ []) bs)

write_value-append :
    (a : ℕ) (entry : BmcCacheEntry) (w : World BmcMaps)
    → entry.len ≤ length entry.bytes
    → a + entry.len + 5 ≡ length w.packet
    → write_value a entry w
      ≡ yields tt
          (record w { packet = take a w.packet ++ (take entry.len entry.bytes ++ end_bytes) })
unfolding write_value
write_value-append a entry w inside full =
    let value = take entry.len entry.bytes in
    let w1 = record w { packet = splice w.packet a value } in
    let size : length value ≡ entry.len = omega (arith, length-take entry.len entry.bytes) in
    let same = length-splice w.packet a value (omega (arith, size)) in
    let starts : write_value a entry w ≡ write_end (a + entry.len) end_bytes w1 =
      ground (arith, inside, full, size) in
    starts
    ∙ write_end-append (a + entry.len) end_bytes w1 (omega (arith, same))
    ∙ ap (λ p. yields tt (record w { packet = p ++ end_bytes }))
        (ap (λ n. take (a + n) (splice w.packet a value)) (sym size)
          ∙ take-splice w.packet a value (omega (arith, size)))
    ∙ ap (λ p. yields tt (record w { packet = p })) (append_assoc (take a w.packet) value end_bytes)

-- In the packet that the tail was moved for, the reply is the cached value and the end, which begin four
-- bytes before the key and reach the last byte of the packet: no index is out of range, and nothing of
-- the request is left behind them.
pub write_value-fills :
    (total payload_index : ℕ) (entry : BmcCacheEntry) (w : World BmcMaps)
    → 4 ≤ payload_index
    → payload_index ≤ total
    → total < 2 ^ 31
    → entry.len < 2 ^ 30
    → entry.len ≤ length entry.bytes
    → length w.packet ≡ (total + padding_of entry.len total payload_index) % 2 ^ 32
    → write_value (sub64 payload_index 4) entry w
      ≡ yields tt (record w {
        packet = take (payload_index - 4) w.packet ++ (take entry.len entry.bytes ++ end_bytes);
      })
write_value-fills total payload_index entry w past inside small short stored moved =
    let fits = padding_of-fits entry.len total payload_index past inside small short in
    ap (λ a. write_value a entry w) {y = payload_index - 4} (omega arith)
    ∙ write_value-append (payload_index - 4) entry w stored (omega (arith, fits, moved))
