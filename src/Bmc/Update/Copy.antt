-- ===== src/Bmc/Update/Copy.antt =====
-- samples/bmc/src/main.rs, `bmc_update_cache`: what the copy leaves in the entry.
use rex_with_driver.Base.{
  ℕ, zero, suc, ◌+◌, ◌-◌, ◌≡◌, ◌<◌, ◌≤◌, refl, ap, sym, ◌∙◌, subst, arith, [], ◌∷◌, ◌++◌, false,
  ◌&&◌, ◌%◌, some, leb, ◌==◌, if◌then◌else◌, length, take, drop, set, inl, inr, Bool-cases,
  length-set, take-all, append_assoc, append-nil,
}
use rex_with_driver.Kernel.{Bytes}
use rex_with_driver.Utils.{ok}
use rex_with_driver.Program.{World, Host, yields}
use rex_with_driver.Bmc.{
  BmcMaps, BmcStats, BmcCacheEntry, find_entry, put_entry, count, increment, fnv_offset_basis_32,
}
use rex_with_driver.Bmc.Invalidate.Sets.{count-kcache}
use rex_with_driver.Bmc.Update.{
  Copied, copy_byte, copy_lines, filled, hash_value_key, in_range, up_to_date, bmc_update_cache,
}

-- The bytes up to and with the `n`-th newline, or all of them.
unfoldable pub lines : ℕ → Bytes → Bytes
lines n [] = []
lines zero (b ∷ bs) = []
lines (suc n) (b ∷ bs) =
    let short = lines n bs in let long = lines (suc n) bs in b ∷ (if b == 10 then short else long)

-- How many newlines it found.
unfoldable pub newlines_in : Bytes → ℕ
newlines_in [] = 0
newlines_in (b ∷ bs) = (if b == 10 then 1 else 0) + newlines_in bs

take-set :
    (bytes : Bytes) (i b : ℕ)
    → i < length bytes
    → take (suc i) (set bytes i b) ≡ take i bytes ++ (b ∷ [])
take-set [] i b h = absurd (omega arith)
take-set (x ∷ xs) zero b h = refl
take-set (x ∷ xs) (suc i) b h = ap (◌∷◌ x) (take-set xs i b (omega arith))

lines-next :
    (found b : ℕ) (bs : Bytes)
    → found < 2
    → lines (2 - found) (b ∷ bs) ≡ b ∷ lines (2 - (if b == 10 then found + 1 else found)) bs
unfolding lines
lines-next zero b bs h = ground arith
lines-next (suc zero) b bs h = ground arith
lines-next (suc (suc found)) b bs h = absurd (omega arith)

-- The copy from `i` on takes the next lines of the bytes.
pub record CopiedLines (i : ℕ) (bs : Bytes) (c r : Copied) : Type 0 where
  pub len : r.len ≡ i + length (lines (2 - c.newlines) bs)
  pub bytes : take r.len r.bytes ≡ take i c.bytes ++ lines (2 - c.newlines) bs
  pub newlines : r.newlines ≡ c.newlines + newlines_in (lines (2 - c.newlines) bs)
  pub size : length r.bytes ≡ length c.bytes

copies_nothing :
    (i : ℕ) (bs : Bytes) (c : Copied)
    → c.len ≡ i
    → lines (2 - c.newlines) bs ≡ []
    → CopiedLines i bs c c
unfolding newlines_in
copies_nothing i bs c at_i done = record {
  len = omega (arith, at_i, ap length done);
  bytes =
      ap (λ n. take n c.bytes) at_i
      ∙ sym (append-nil (take i c.bytes))
      ∙ ap (◌++◌ (take i c.bytes)) (sym done);
  newlines = omega (arith, ap newlines_in done);
  size = refl;
}

copies_byte :
    (i b : ℕ) (bs : Bytes) (c r : Copied)
    → c.newlines < 2
    → i < length c.bytes
    → CopiedLines (i + 1) bs (copy_byte i b c) r
    → CopiedLines i (b ∷ bs) c r
unfolding copy_byte newlines_in
copies_byte i b bs c r fewer inside rest =
    let step = lines-next c.newlines b bs fewer in
    let same = length-set c.bytes i b in
    record {
      len = omega (arith, rest.len, ap length step);
      bytes =
          rest.bytes
          ∙ ap (λ front. front ++ lines (2 - (if b == 10 then c.newlines + 1 else c.newlines)) bs)
              (ap (λ n. take n (set c.bytes i b)) {y = suc i} (omega arith)
                ∙ take-set c.bytes i b inside)
          ∙ append_assoc (take i c.bytes) (b ∷ [])
              (lines (2 - (if b == 10 then c.newlines + 1 else c.newlines)) bs)
          ∙ ap (◌++◌ (take i c.bytes)) (sym step);
      newlines = rest.newlines ∙ ground (arith, ap newlines_in step);
      size = rest.size ∙ same;
    }

-- Where the socket buffer is as long as the packet, the copy takes the first two lines.
copy_lines-CopiedLines :
    (header_len skb_len i : ℕ) (bs : Bytes) (c : Copied)
    → c.len ≡ i
    → c.newlines ≤ 2
    → header_len + i + length bs ≤ skb_len
    → i + length bs ≤ length c.bytes
    → CopiedLines i bs c (copy_lines header_len skb_len i bs c)
unfolding copy_lines copy_byte lines
copy_lines-CopiedLines header_len skb_len i [] c at_i two fits room =
    copies_nothing i [] c at_i (ground arith)
copy_lines-CopiedLines header_len skb_len i (b ∷ bs) c at_i two fits room =
    elim (Bool-cases (leb 2 c.newlines)) [
      | inl both ↦
          let stops : c ≡ copy_lines header_len skb_len i (b ∷ bs) c = ground (arith, both) in
          let full : c.newlines ≡ 2 = ground (arith, both) in
          subst (CopiedLines i (b ∷ bs) c) stops
            (copies_nothing i (b ∷ bs) c at_i (ap (λ n. lines (2 - n) (b ∷ bs)) full))
      | inr fewer ↦
          let next = copy_byte i b c in
          let goes_on : copy_lines header_len skb_len (i + 1) bs next
              ≡ copy_lines header_len skb_len i (b ∷ bs) c =
            ground (arith, fewer) in
          let same = length-set c.bytes i b in
          subst (CopiedLines i (b ∷ bs) c) goes_on (
            copies_byte i b bs c (copy_lines header_len skb_len (i + 1) bs next)
              (ground (arith, fewer)) (omega arith)
              (copy_lines-CopiedLines header_len skb_len (i + 1) bs next (omega (arith, at_i))
                (ground (arith, fewer)) (omega arith) (omega (arith, same))))
    ]

-- The entry holds the first two lines of a reply for the key of this hash.
pub record Holds (key_hash : ℕ) (value : Bytes) (entry : BmcCacheEntry) : Type 0 where
  pub valid : entry.valid ≡ 1
  pub hash : entry.hash ≡ key_hash
  pub len : entry.len ≡ length value
  pub bytes : take entry.len entry.bytes ≡ value

filled-Holds :
    (header_len hash : ℕ) (payload : Bytes) (entry : BmcCacheEntry)
    → length payload ≤ length entry.bytes
    → newlines_in (lines 2 payload) ≡ 2
    → let c =
        copy_lines header_len
          (header_len + length payload)
          0
          payload
          (record { bytes = entry.bytes; len = 0; newlines = 0 }) in
      (c.newlines ≡ 2) × Holds hash (lines 2 payload) (filled hash entry c)
unfolding filled
filled-Holds header_len hash payload entry room two =
    let start : Copied = record { bytes = entry.bytes; len = 0; newlines = 0 } in
    let c = copy_lines header_len (header_len + length payload) 0 payload start in
    let copied =
      copy_lines-CopiedLines header_len (header_len + length payload) 0 payload start refl
        (omega arith) (omega arith) (omega (arith, room)) in
    let both : c.newlines ≡ 2 = omega (arith, copied.newlines, two) in
    let same : filled hash entry c
        ≡ record { len = c.len; valid = 1; hash = hash; bytes = c.bytes } =
      ground (arith, both) in
    (
      both,
      record {
        valid = ap (λ e. e.valid) same;
        hash = ap (λ e. e.hash) same;
        len = ap (λ e. e.len) same ∙ omega (arith, copied.len);
        bytes = ap (λ e. take e.len e.bytes) same ∙ copied.bytes;
      },
    )

-- A reply of memcached of two lines that fits fills the entry of its key, unless the entry holds one
-- for the hash already: the program ends with TC_ACT_OK and the entry, now valid, holds the two lines.
pub bmc_update_cache-Holds :
    (h : Host) (header_len hash : ℕ) (payload : Bytes) (entry : BmcCacheEntry) (w : World BmcMaps)
    → hash_value_key header_len (header_len + length payload) 6 fnv_offset_basis_32 (drop 6 payload)
      ≡ some hash
    → w.rest.kcache (hash % 3250000) ≡ some entry
    → (entry.valid == 1 && entry.hash == hash) ≡ false
    → length payload ≤ 1283
    → length entry.bytes ≡ 1500
    → newlines_in (lines 2 payload) ≡ 2
    → (w' : World BmcMaps) × (entry' : BmcCacheEntry) × (bmc_update_cache h
          (header_len + length payload)
          header_len
          payload
          w
        ≡ yields (ok h.tc_act_ok) w')
      × (w'.rest.kcache (hash % 3250000) ≡ some entry')
      × Holds hash (lines 2 payload) entry'
unfolding bmc_update_cache in_range find_entry up_to_date put_entry
bmc_update_cache-Holds h header_len hash payload entry w hashed found stale fits room two =
    let start : Copied = record { bytes = entry.bytes; len = 0; newlines = 0 } in
    let c = copy_lines header_len (header_len + length payload) 0 payload start in
    let (both, holds) = filled-Holds header_len hash payload entry (omega (arith, room)) two in
    let stored = put_entry (hash % 3250000) (filled hash entry c) w.rest in
    let updated = λ (s : BmcStats). record s { update_count = increment s.update_count } in
    (
      record w { rest = count updated stored },
      filled hash entry c,
      ground (arith, hashed, found, stale, take-all 1283 payload fits, both),
      count-kcache updated stored (hash % 3250000) ∙ ground arith,
      holds,
    )
