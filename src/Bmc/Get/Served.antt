-- ===== src/Bmc/Get/Served.antt =====
-- samples/bmc/src/main.rs, `hash_key`: a request of one key that is in the cache, from the parsing to
-- the reply.
use rex_with_driver.Base.{
  ℕ, zero, suc, ◌+◌, ◌-◌, ◌%◌, ◌≡◌, ◌<◌, ◌≤◌, refl, ap, ◌∙◌, arith, [], ◌∷◌, ◌++◌, Bool, true, some,
  ◌||◌, ◌==◌, length, take, get_elem?, min, Bool-cases, inl, inr,
}
use rex_with_driver.Kernel.{Bytes, sub64}
use rex_with_driver.Text.{splice}
use rex_with_driver.Text.Copy.{length-splice}
use rex_with_driver.Packet.{bytes_at}
use rex_with_driver.Program.{World, Host, yields, then_run, slice}
use rex_with_driver.Program.Updates.{
  Fitting, length-bytes_at, update-eth_header, update-ip_header, update-udp_header,
}
use rex_with_driver.Bmc.{
  BmcMaps, BmcCacheEntry, MemcachedKey, hash_bytes, take_until, find_entry, put_key,
  fnv_offset_basis_32,
}
use rex_with_driver.Bmc.Get.{key_bytes, with_key, swap_field, turn_round, check_key, key_at}
use rex_with_driver.Bmc.Get.Keys.{slice-head}

length-swap_field :
    (a b size : ℕ) (hdr : Bytes)
    → a + size ≤ length hdr
    → b + size ≤ length hdr
    → length (swap_field a b size hdr) ≡ length hdr
length-swap_field a b size hdr fits fits' =
    let here : length (bytes_at hdr a size) ≡ size = length-bytes_at hdr a size fits in
    let there : length (bytes_at hdr b size) ≡ size = length-bytes_at hdr b size fits' in
    let same : length (splice hdr a (bytes_at hdr b size)) ≡ length hdr =
      length-splice hdr a (bytes_at hdr b size) (omega (arith, there)) in
    length-splice (splice hdr a (bytes_at hdr b size)) b (bytes_at hdr a size)
      (omega (arith, here, same))
    ∙ same

pub turn_round-yields :
    (h : Host) (w : World BmcMaps)
    → Fitting h.layout
    → h.layout.ethhdr + h.layout.iphdr + h.layout.udphdr ≤ length w.packet
    → (packet : Bytes) × (turn_round h w ≡ yields tt (record w { packet = packet }))
      × (length packet ≡ length w.packet)
unfolding turn_round
turn_round-yields h w fitting fits =
    let l = h.layout in
    let eth = bytes_at w.packet 0 l.ethhdr in
    let eth_size : length eth ≡ l.ethhdr = length-bytes_at w.packet 0 l.ethhdr (omega arith) in
    let swap_eth = swap_field l.eth_dest l.eth_source 6 in
    let (p1, first, same1) = update-eth_header l h.aligned swap_eth w (omega arith) (
      length-swap_field l.eth_dest l.eth_source 6 eth (omega (arith, eth_size, fitting.eth_dest))
        (omega (arith, eth_size, fitting.eth_source))
      ∙ eth_size) in
    let ip = bytes_at p1 l.ethhdr l.iphdr in
    let ip_size : length ip ≡ l.iphdr =
      length-bytes_at p1 l.ethhdr l.iphdr (omega (arith, same1)) in
    let swap_ip = swap_field l.ip_saddr l.ip_daddr 4 in
    let (p2, second, same2) =
      update-ip_header l h.aligned swap_ip (record w { packet = p1 }) (omega (arith, same1))
        (length-swap_field l.ip_saddr l.ip_daddr 4 ip (omega (arith, ip_size, fitting.ip_saddr))
            (omega (arith, ip_size, fitting.ip_daddr))
          ∙ ip_size) in
    let udp = bytes_at p2 (l.ethhdr + l.iphdr) l.udphdr in
    let udp_size : length udp ≡ l.udphdr =
      length-bytes_at p2 (l.ethhdr + l.iphdr) l.udphdr (omega (arith, same1, same2)) in
    let swap_udp = swap_field l.udp_source l.udp_dest 2 in
    let (p3, third, same3) =
      update-udp_header l h.aligned swap_udp (record w { packet = p2 })
        (omega (arith, same1, same2))
        (length-swap_field l.udp_source l.udp_dest 2 udp
            (omega (arith, udp_size, fitting.udp_source))
            (omega (arith, udp_size, fitting.udp_dest))
          ∙ udp_size) in
    (p3, ground (arith, first, second, third), omega (arith, same1, same2, same3))

-- The bytes of a key end where the request's line does.
take_until-append :
    (stops : ℕ → Bool) (key : Bytes) (c : ℕ) (rest : Bytes)
    → take_until stops key ≡ key
    → stops c ≡ true
    → take_until stops (key ++ (c ∷ rest)) ≡ key
unfolding take_until
take_until-append stops [] c rest plain stop = ground (arith, stop)
take_until-append stops (b ∷ key) c rest plain stop = elim (Bool-cases (stops b)) [
  | inl here ↦ absurd (ground (arith, here, plain))
  | inr on ↦ ground (arith, on, take_until-append stops key c rest (ground (arith, on, plain)) stop)
]

take-append :
    (n : ℕ) (xs ys : Bytes) → length xs ≤ n → take n (xs ++ ys) ≡ xs ++ take (n - length xs) ys
take-append n [] ys long = ap (λ m. take m ys) (omega arith)
take-append zero (x ∷ xs) ys long = absurd (omega arith)
take-append (suc n) (x ∷ xs) ys long =
    ap (◌∷◌ x) (take-append n xs ys (omega arith) ∙ ap (λ m. xs ++ take m ys) (omega arith))

get_elem?-append :
    (xs : Bytes) (c : ℕ) (ys : Bytes) → get_elem? (xs ++ (c ∷ ys)) (length xs) ≡ some c
get_elem?-append [] c ys = refl
get_elem?-append (x ∷ xs) c ys = get_elem?-append xs c ys

pub check_key-hit :
    (h : Host) (part key : Bytes) (k : MemcachedKey) (entry : BmcCacheEntry) (w : World BmcMaps)
    → key_bytes part ≡ key
    → 0 < length key
    → length key < 231
    → get_elem? part (length key) ≡ some 13
    → w.rest.kcache (hash_bytes fnv_offset_basis_32 key % 3250000) ≡ some entry
    → entry.valid ≡ 1
    → entry.hash ≡ hash_bytes fnv_offset_basis_32 key
    → let with_hash = record k { hash = hash_bytes fnv_offset_basis_32 key } in
      check_key h 0 k part w
      ≡ yields
          (true, (1, length key))
          (record w { rest = put_key 0 (with_key key with_hash) (put_key 0 with_hash w.rest) })
unfolding check_key find_entry
check_key-hit h part key k entry w is_key some_key short stop found valid same =
    ground (arith, is_key, ap (λ bs. get_elem? part (length bs)) is_key, stop, found, valid, same)

pub key_at-part :
    (h : Host) (payload : Bytes) (offset n : ℕ) (k : MemcachedKey) (w : World BmcMaps)
    → min 231 (sub64 (length w.packet) offset) ≡ n
    → n ≤ length payload
    → key_at h payload 0 offset k w
      ≡ check_key h 0 k
          (take n payload)
          (record w { rest = put_key 0 (record k { hash = fnv_offset_basis_32 }) w.rest })
unfolding key_at
key_at-part h payload offset n k w limit enough =
    let w1 = record w { rest = put_key 0 (record k { hash = fnv_offset_basis_32 }) w.rest } in
    ap (λ m. then_run (slice payload 0 m w1) (check_key h 0 k)) limit
    ∙ ap (λ r. then_run r (check_key h 0 k)) (slice-head payload n w1 enough)

-- The bytes that a pass looks at, where they begin with a key and the end of the line.
pub part-key :
    (n : ℕ) (key rest : Bytes)
    → length key < n
    → key_bytes key ≡ key
    → (key_bytes (take n (key ++ (13 ∷ rest))) ≡ key)
      × (get_elem? (take n (key ++ (13 ∷ rest))) (length key) ≡ some 13)
unfolding key_bytes
part-key n key rest long plain =
    let more = take (n - length key - 1) rest in
    let front : take n (key ++ (13 ∷ rest)) ≡ key ++ (13 ∷ more) =
      take-append n key (13 ∷ rest) (omega arith)
      ∙ ap (λ m. key ++ take m (13 ∷ rest)) {y = suc (n - length key - 1)} (omega arith) in
    (
      ap key_bytes front ∙ take_until-append (λ b. b == 13 || b == 32) key 13 more plain refl,
      ap (λ bs. get_elem? bs (length key)) front ∙ get_elem?-append key 13 more,
    )
