-- ===== src/Packet/Splices.antt =====
-- Which bytes of a packet a program reads after a part of it was overwritten.
use rex_with_driver.Base.{
  ℕ, zero, suc, ◌+◌, ◌-◌, ◌*◌, ◌≤◌, ◌≡◌, refl, ap, ◌∙◌, sym, arith, [], ◌∷◌, ◌++◌, length, take,
  drop, length-take, length-drop,
}
use rex_with_driver.Kernel.{Bytes}
use rex_with_driver.Text.{splice}
use rex_with_driver.Checksum.{set_u16, compute_ip_checksum, store_checksum}
use rex_with_driver.Packet.{bytes_at}
use rex_with_driver.Packet.Views.{take-append_of_le}

drop-append_of_le : (n : ℕ) (xs ys : Bytes) → n ≤ length xs → drop n (xs ++ ys) ≡ drop n xs ++ ys
drop-append_of_le zero xs ys h = refl
drop-append_of_le (suc n) [] ys h = absurd (omega arith)
drop-append_of_le (suc n) (x ∷ xs) ys h = drop-append_of_le n xs ys (omega arith)

drop-append_past : (m k : ℕ) (xs ys : Bytes) → length xs + m ≡ k → drop k (xs ++ ys) ≡ drop m ys
drop-append_past m k [] ys h = ap (λ n. drop n ys) {x = k} {y = m} (omega arith)
drop-append_past m zero (x ∷ xs) ys h = absurd (omega arith)
drop-append_past m (suc k) (x ∷ xs) ys h = drop-append_past m k xs ys (omega arith)

take-append-drop : (n : ℕ) (bs : Bytes) → take n bs ++ drop n bs ≡ bs
take-append-drop zero bs = refl
take-append-drop (suc n) [] = refl
take-append-drop (suc n) (b ∷ bs) = ap (◌∷◌ b) (take-append-drop n bs)

pub drop-drop : (a b c : ℕ) (bs : Bytes) → a + b ≡ c → drop b (drop a bs) ≡ drop c bs
drop-drop zero b c bs h = ap (λ n. drop n bs) {x = b} {y = c} (omega arith)
drop-drop (suc a) b zero bs h = absurd (omega arith)
drop-drop (suc a) zero (suc c) [] h = refl
drop-drop (suc a) (suc b) (suc c) [] h = refl
drop-drop (suc a) b (suc c) (x ∷ bs) h = drop-drop a b c bs (omega arith)

bytes_at-append :
    (xs ys : Bytes) (start size : ℕ)
    → start + size ≤ length xs
    → bytes_at (xs ++ ys) start size ≡ bytes_at xs start size
bytes_at-append xs ys start size fits =
    ap (take size) (drop-append_of_le start xs ys (omega arith))
    ∙ take-append_of_le size (drop start xs) ys (omega (arith, length-drop start xs))

-- Bytes of the part that was written, before it, and behind it.
pub bytes_at-splice :
    (buf : Bytes) (off : ℕ) (s : Bytes) (i size : ℕ)
    → off ≤ length buf
    → i + size ≤ length s
    → bytes_at (splice buf off s) (off + i) size ≡ bytes_at s i size
bytes_at-splice buf off s i size fits inside =
    ap (take size) (
      drop-append_past i (off + i) (take off buf) (s ++ drop (off + length s) buf)
        (omega (arith, length-take off buf)))
    ∙ bytes_at-append s (drop (off + length s) buf) i size inside

pub bytes_at-splice_before :
    (buf : Bytes) (off : ℕ) (s : Bytes) (start size : ℕ)
    → off ≤ length buf
    → start + size ≤ off
    → bytes_at (splice buf off s) start size ≡ bytes_at buf start size
bytes_at-splice_before buf off s start size fits before =
    let reach : start + size ≤ length (take off buf) = omega (arith, length-take off buf) in
    bytes_at-append (take off buf) (s ++ drop (off + length s) buf) start size reach
    ∙ sym (bytes_at-append (take off buf) (drop off buf) start size reach)
    ∙ ap (λ b. bytes_at b start size) (take-append-drop off buf)

pub drop-splice_behind :
    (buf : Bytes) (off : ℕ) (s : Bytes) (start : ℕ)
    → off ≤ length buf
    → off + length s ≤ start
    → drop start (splice buf off s) ≡ drop start buf
drop-splice_behind buf off s start fits behind =
    let m = start - (off + length s) in
    drop-append_past (length s + m) start (take off buf) (s ++ drop (off + length s) buf)
      (omega (arith, length-take off buf))
    ∙ drop-append_past m (length s + m) s (drop (off + length s) buf) refl
    ∙ drop-drop (off + length s) m start buf (omega arith)

pub bytes_at-splice_behind :
    (buf : Bytes) (off : ℕ) (s : Bytes) (start size : ℕ)
    → off ≤ length buf
    → off + length s ≤ start
    → bytes_at (splice buf off s) start size ≡ bytes_at buf start size
bytes_at-splice_behind buf off s start size fits behind =
    ap (take size) (drop-splice_behind buf off s start fits behind)

drop-set_u16 :
    (n v start : ℕ) (hdr : Bytes)
    → 2 * n + 2 ≤ start
    → drop start (set_u16 n v hdr) ≡ drop start hdr
unfolding set_u16
drop-set_u16 n v start [] h = refl
drop-set_u16 n v start (a ∷ []) h = refl
drop-set_u16 n v zero (a ∷ b ∷ rest) h = absurd (omega arith)
drop-set_u16 n v (suc zero) (a ∷ b ∷ rest) h = absurd (omega arith)
drop-set_u16 zero v (suc (suc start)) (a ∷ b ∷ rest) h = refl
drop-set_u16 (suc n) v (suc (suc start)) (a ∷ b ∷ rest) h =
    drop-set_u16 n v start rest (omega arith)

pub bytes_at-store_checksum :
    (check start size : ℕ) (hdr : Bytes)
    → 2 * check + 2 ≤ start
    → bytes_at (store_checksum check hdr) start size ≡ bytes_at hdr start size
unfolding store_checksum compute_ip_checksum
bytes_at-store_checksum check start size hdr h =
    ap (take size)
      (drop-set_u16 check _ start (set_u16 check 0 hdr) h ∙ drop-set_u16 check 0 start hdr h)
