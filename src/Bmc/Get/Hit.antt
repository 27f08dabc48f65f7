-- ===== src/Bmc/Get/Hit.antt =====
-- samples/bmc/src/main.rs, `hash_key`: a request whose key is in the cache is answered.
use rex_with_driver.Base.{
  ℕ, zero, suc, ◌+◌, ◌-◌, ◌%◌, ◌^◌, ◌≡◌, ◌<◌, ◌≤◌, refl, ap, ap₂, sym, subst, ◌∙◌, arith, [], ◌∷◌,
  ◌++◌, true, some, length, take, drop, length-drop, length-append, get_elem?, get_elem?-lt,
  get_elem?-set_self, set, length-set, min, codes, append_assoc, take-append_length,
}
use rex_with_driver.Kernel.{Bytes, sub64}
use rex_with_driver.Text.{splice}
use rex_with_driver.Utils.{ok}
use rex_with_driver.Program.{World, Host, yields}
use rex_with_driver.Program.Updates.{Fitting}
use rex_with_driver.Bmc.{
  BmcMaps, BmcCacheEntry, BmcStats, MemcachedKey, hash_bytes, put_key, fnv_offset_basis_32,
}
use rex_with_driver.Bmc.Reply.{zip_equal, padding_of, end_bytes}
use rex_with_driver.Bmc.Reply.Answer.{Moves, Answered, write_pkt_reply-answers}
use rex_with_driver.Bmc.Update.Copy.{Holds}
use rex_with_driver.Bmc.Get.{key_bytes, with_key, one_key, hash_keys, hash_key, close_some}
use rex_with_driver.Bmc.Get.Keys.{one_key-head, from-fits}
use rex_with_driver.Bmc.Get.Served.{turn_round-yields, check_key-hit, key_at-part, part-key}

zip_equal-append : (key rest : Bytes) → zip_equal (key ++ rest) key ≡ true
unfolding zip_equal
zip_equal-append [] [] = refl
zip_equal-append [] (x ∷ rest) = refl
zip_equal-append (x ∷ key) rest = ground (arith, zip_equal-append key rest)

take-append-drop : (n : ℕ) (bs : Bytes) → take n bs ++ drop n bs ≡ bs
take-append-drop zero bs = refl
take-append-drop (suc n) [] = refl
take-append-drop (suc n) (b ∷ bs) = ap (◌∷◌ b) (take-append-drop n bs)

-- The name of the key in a line of a value.
line-key :
    (n : ℕ) (bytes key more : Bytes)
    → take n bytes ≡ codes "VALUE " ++ (key ++ more)
    → take (length key) (drop 6 bytes) ≡ key
line-key n bytes key more line =
    ap (λ bs. take (length key) (drop 6 bs))
      (sym (take-append-drop n bytes) ∙ ap (λ bs. bs ++ drop n bytes) line)
    ∙ ap (take (length key)) (append_assoc key more (drop n bytes))
    ∙ take-append_length key (more ++ drop n bytes)

-- The pass on the key.
one_key-hit :
    (h : Host) (key rest : Bytes) (offset : ℕ) (k : MemcachedKey) (entry : BmcCacheEntry)
    (w : World BmcMaps)
    → offset + length key < length w.packet
    → length w.packet < 2 ^ 31
    → length (key ++ (13 ∷ rest)) ≡ length w.packet - offset
    → key_bytes key ≡ key
    → 0 < length key
    → length key < 230
    → get_elem? w.rest.keys 0 ≡ some k
    → w.rest.kcache (hash_bytes fnv_offset_basis_32 key % 3250000) ≡ some entry
    → entry.valid ≡ 1
    → entry.hash ≡ hash_bytes fnv_offset_basis_32 key
    → let with_hash = record k { hash = hash_bytes fnv_offset_basis_32 key } in
      let m = put_key 0 (record k { hash = fnv_offset_basis_32 }) w.rest in
      one_key h (key ++ (13 ∷ rest)) 0 offset w
      ≡ yields
          (true, (1, length key))
          (record w { rest = put_key 0 (with_key key with_hash) (put_key 0 with_hash m) })
one_key-hit h key rest offset k entry w inside small size plain some_key short kept found valid
      same =
    let n = min 231 (length w.packet - offset) in
    let (is_key, stop) = part-key n key rest (omega (arith, size)) plain in
    let limit : min 231 (sub64 (length w.packet) offset) ≡ n = omega arith in
    one_key-head h (key ++ (13 ∷ rest)) offset k w kept
    ∙ key_at-part h (key ++ (13 ∷ rest)) offset n k w limit (omega (arith, size))
    ∙ check_key-hit h (take n (key ++ (13 ∷ rest))) key k entry
        (record w { rest = put_key 0 (record k { hash = fnv_offset_basis_32 }) w.rest }) is_key
        some_key (omega arith) stop found valid same

-- What the map of keys has for the reply.
found-key :
    (key : Bytes) (k : MemcachedKey) (m : BmcMaps) (k1 k2 : MemcachedKey)
    → get_elem? m.keys 0 ≡ some k
    → get_elem? (put_key 0 k2 (put_key 0 k1 m)).keys 0 ≡ some k2
found-key key k m k1 k2 kept =
    get_elem?-set_self (set m.keys 0 k1) 0 k2
      (omega (arith, length-set m.keys 0 k1, get_elem?-lt m.keys 0 kept))

Answered-key :
    (key more value : Bytes) (k : MemcachedKey) (entry : BmcCacheEntry) (w : World BmcMaps)
    → let k' = with_key key (record k { hash = hash_bytes fnv_offset_basis_32 key }) in
      length key < 230
      → get_elem? w.rest.keys 0 ≡ some k'
      → w.rest.kcache (hash_bytes fnv_offset_basis_32 key % 3250000) ≡ some entry
      → Holds (hash_bytes fnv_offset_basis_32 key) value entry
      → value ≡ codes "VALUE " ++ (key ++ more)
      → length value ≤ length entry.bytes
      → Answered k' entry w
unfolding with_key
Answered-key key more value k entry w short kept found holds line room = record {
  key_found = kept;
  found = found;
  valid = holds.valid;
  hash = holds.hash;
  short = short;
  room = omega (arith, ap length line, length-append key more, room);
  same =
      ap (zip_equal (splice k.bytes 0 key))
        (line-key entry.len entry.bytes key more (holds.bytes ∙ line))
      ∙ zip_equal-append key (drop (0 + length key) k.bytes);
}

-- A request of one key whose value is in the cache is answered with it: where the payload at
-- `payload_index`, below 256 and past the headers, is a key of 1 to 229 bytes with neither a space nor
-- a return, then a return, where the entry of the key's hash holds a value that begins with `VALUE `
-- and the key, and where the kernel moves the tail of a packet of this length as its documentation
-- says, the program ends with XDP_TX after one pass, and the packet's bytes from 4 before the key on,
-- where `get ` was, are the value and `END`.
pub hash_key-answers :
    (h : Host) (fuel payload_index : ℕ) (key rest more value : Bytes) (k : MemcachedKey)
    (entry : BmcCacheEntry) (s : BmcStats) (w : World BmcMaps)
    → Fitting h.layout
    → ((packet : Bytes)
        → length packet ≡ length w.packet
        → Moves h packet (padding_of (length value) (length w.packet) payload_index))
    → h.layout.ethhdr + h.layout.iphdr + h.layout.udphdr + 4 ≤ payload_index
    → payload_index < 256
    → length w.packet < 2 ^ 31
    → payload_index ≤ length w.packet
    → drop payload_index w.packet ≡ key ++ (13 ∷ rest)
    → key_bytes key ≡ key
    → 0 < length key
    → length key < 230
    → get_elem? w.rest.keys 0 ≡ some k
    → get_elem? w.rest.stats 0 ≡ some s
    → w.rest.kcache (hash_bytes fnv_offset_basis_32 key % 3250000) ≡ some entry
    → Holds (hash_bytes fnv_offset_basis_32 key) value entry
    → value ≡ codes "VALUE " ++ (key ++ more)
    → length value ≤ length entry.bytes
    → length value < 2 ^ 30
    → (w' : World BmcMaps) × (hash_key h (suc fuel) payload_index payload_index w
        ≡ yields (some (ok h.xdp_tx)) w')
      × (drop (payload_index - 4) w'.packet ≡ value ++ end_bytes)
unfolding hash_key hash_keys close_some
hash_key-answers h fuel payload_index key rest more value k entry s w fitting moves headers low
      small inside request plain some_key short kept counted found holds line room brief =
    let hash = hash_bytes fnv_offset_basis_32 key in
    let k1 = record k { hash = fnv_offset_basis_32 } in
    let k2 = record k { hash = hash } in
    let k3 = with_key key k2 in
    let m1 = put_key 0 k2 (put_key 0 k1 w.rest) in
    let w1 = record w { rest = put_key 0 k3 m1 } in
    let size : length (key ++ (13 ∷ rest)) ≡ length w.packet - payload_index =
      ap length (sym request) ∙ length-drop payload_index w.packet in
    let kept1 = found-key key k w.rest k1 k2 kept in
    let kept2 = get_elem?-set_self m1.keys 0 k3 (get_elem?-lt m1.keys 0 kept1) in
    let pass =
      one_key-hit h key rest payload_index k entry w
        (omega (arith, size, length-append key (13 ∷ rest))) small size plain some_key short kept
        found holds.valid holds.hash in
    let (p2, turned, same) = turn_round-yields h w1 fitting (omega arith) in
    let w2 = record w1 { packet = p2 } in
    let answered = Answered-key key more value k entry w2 short kept2 found holds line room in
    let (w', replies, reply) =
      write_pkt_reply-answers h payload_index k3 entry w2 s fitting headers (omega (arith, same))
        (omega (arith, same)) (omega (arith, holds.len)) (omega (arith, holds.len)) counted
        (subst (Moves h p2) (sym (ap₂ (λ n t. padding_of n t payload_index) holds.len same))
          (moves p2 same))
        answered in
    (
      w',
      ground (arith, from-fits payload_index w inside, request, pass, turned, replies),
      reply ∙ ap (λ bs. bs ++ end_bytes) holds.bytes,
    )
