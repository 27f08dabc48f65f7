-- ===== src/MemcachedBenchmark/Replies.antt =====
-- tools/memcached_benchmark/src/get_values.rs, `socket_task`: the value in a reply.
pub mod Checked
use rex_with_driver.Base.{
  ℕ, zero, suc, ◌+◌, ◌-◌, ◌%◌, ◌^◌, ◌==◌, ◌≡◌, ◌<◌, ◌≤◌, refl, ap, sym, ◌∙◌, arith, List, [], ◌∷◌,
  ◌++◌, Option, none, some, Bool, true, false, ◌||◌, ◌&&◌, not, ltb, leb, if◌then◌else◌, length,
  take, drop, get_elem?, length-append, take-append_length, take-all, Bool-cases, inl, inr, codes,
  append_assoc,
}
use rex_with_driver.Kernel.{Bytes}
use rex_with_driver.Program.{starts_with}
use rex_with_driver.MemcachedBenchmark.{
  pattern, up_to_pattern, behind_pattern, unwrap_or_default, is_char_boundary, slice_string,
  received_of, TaskData,
}

-- Text of ASCII, and text with no V.
unfoldable pub is_ascii : Bytes → Bool
is_ascii [] = true
is_ascii (b ∷ bs) = ltb b 128 && is_ascii bs

unfoldable pub has_no_v : Bytes → Bool
has_no_v [] = true
has_no_v (b ∷ bs) = not (b == 86) && has_no_v bs

behind_pattern-append :
    (front rest : Bytes)
    → has_no_v front ≡ true
    → behind_pattern (front ++ (pattern ++ rest)) ≡ some (up_to_pattern rest)
unfolding behind_pattern starts_with has_no_v
behind_pattern-append [] rest no_v = refl
behind_pattern-append (b ∷ front) rest no_v =
    let rest_no_v : has_no_v front ≡ true = ground (arith, no_v) in
    ground (arith, no_v, behind_pattern-append front rest rest_no_v)

up_to_pattern-whole : (rest : Bytes) → behind_pattern rest ≡ none → up_to_pattern rest ≡ rest
unfolding behind_pattern up_to_pattern
up_to_pattern-whole [] once = refl
up_to_pattern-whole (b ∷ rest) once = elim (Bool-cases (starts_with (b ∷ rest) pattern)) [
  | inl here ↦ absurd (ground (arith, here, once))
  | inr there ↦ ground (arith, there, up_to_pattern-whole rest (ground (arith, there, once)))
]

is_char_boundary-ascii :
    (s : Bytes) (i : ℕ) → is_ascii s ≡ true → i ≤ length s → is_char_boundary s i ≡ true
unfolding is_char_boundary is_ascii
is_char_boundary-ascii [] zero ascii h = refl
is_char_boundary-ascii [] (suc i) ascii h = absurd (omega arith)
is_char_boundary-ascii (b ∷ bs) zero ascii h = ground (arith, ascii)
is_char_boundary-ascii (b ∷ bs) (suc i) ascii h =
    ground (arith, is_char_boundary-ascii bs i (ground (arith, ascii)) (omega arith))

slice_string-ascii :
    (s : Bytes) (a b : ℕ)
    → is_ascii s ≡ true
    → a ≤ b
    → b ≤ length s
    → slice_string s a b ≡ some (take (b - a) (drop a s))
unfolding slice_string
slice_string-ascii s a b ascii h h' =
    ground
      (arith, is_char_boundary-ascii s a ascii (omega arith), is_char_boundary-ascii s b ascii h')

drop-length-append : (xs ys : Bytes) (n : ℕ) → drop (length xs + n) (xs ++ ys) ≡ drop n ys
drop-length-append [] ys n = ap (λ m. drop m ys) {x = 0 + n} (omega arith)
drop-length-append (x ∷ xs) ys n =
    ap (λ m. drop m (x ∷ (xs ++ ys))) {x = suc (length xs) + n} {y = suc (length xs + n)}
      (omega arith)
    ∙ drop-length-append xs ys n

-- The text of a reply of memcached behind `VALUE `, for a value with the flags 0.
abbrev pub reply_text : Bytes → Bytes → Bytes → Bytes
reply_text key digits value =
    key
    ++ (codes " 0 " ++ (digits ++ (13 ∷ 10 ∷ (value ++ (13 ∷ 10 ∷ codes "END" ++ (13 ∷ 10 ∷ []))))))

-- A reply to a task's request: a header, then a value. A decoder of UTF-8 leaves ASCII at the end as it is.
pub record Reply (from_utf8_lossy : Bytes → Bytes) (t : TaskData) (value digits reply : Bytes)
    : Type 0 where
  pub header : Bytes
  pub is_reply : reply ≡ header ++ (pattern ++ reply_text t.key digits value)
  pub short : length reply ≤ 1500
  pub decoded :
      from_utf8_lossy reply ≡ from_utf8_lossy header ++ (pattern ++ reply_text t.key digits value)
  pub no_v : has_no_v (from_utf8_lossy header) ≡ true
  pub ascii : is_ascii (reply_text t.key digits value) ≡ true
  pub once : behind_pattern (reply_text t.key digits value) ≡ none
  pub key_size : length t.key ≡ t.key_size
  pub value_size : length value ≡ t.value_size

length-reply_text :
    (key digits value : Bytes)
    → length (reply_text key digits value) ≡ length key + length digits + length value + 12
length-reply_text key digits value =
    let end = 13 ∷ 10 ∷ codes "END" ++ (13 ∷ 10 ∷ []) in
    omega (
      arith,
      length-append key (codes " 0 " ++ (digits ++ (13 ∷ 10 ∷ (value ++ end)))),
      length-append digits (13 ∷ 10 ∷ (value ++ end)),
      length-append value end,
    )

-- What the benchmark takes for the value: the bytes from the fourth on behind the flags.
pub received_of_lem :
    (from_utf8_lossy : Bytes → Bytes) (t : TaskData) (value digits reply : Bytes)
    → Reply from_utf8_lossy t value digits reply
    → 1 ≤ length digits
    → received_of from_utf8_lossy reply t.key_size t.value_size
      ≡ some (
          take t.value_size
            (drop 4 (digits ++ (13 ∷ 10 ∷ (value ++ (13 ∷ 10 ∷ codes "END" ++ (13 ∷ 10 ∷ [])))))))
unfolding received_of
received_of_lem lossy t value digits reply r some_digit =
    let text = reply_text t.key digits value in
    let ks = t.key_size in
    let whole : lossy (take 1500 reply) ≡ lossy r.header ++ (pattern ++ text) =
      ap lossy (take-all 1500 reply r.short) ∙ r.decoded in
    let behind : unwrap_or_default (behind_pattern (lossy (take 1500 reply))) ≡ text =
      ap (λ bs. unwrap_or_default (behind_pattern bs)) whole
      ∙ ap unwrap_or_default (behind_pattern-append (lossy r.header) text r.no_v)
      ∙ up_to_pattern-whole text r.once in
    let rest =
      codes " 0 " ++ (digits ++ (13 ∷ 10 ∷ (value ++ (13 ∷ 10 ∷ codes "END" ++ (13 ∷ 10 ∷ []))))) in
    ap (λ s. slice_string s (6 + ks + 1) (6 + ks + t.value_size + 1)) behind
    ∙ slice_string-ascii text (6 + ks + 1) (6 + ks + t.value_size + 1) r.ascii (omega arith)
        (omega (arith, length-reply_text t.key digits value, r.key_size, r.value_size))
    ∙ ap (λ n. some (take n (drop (6 + ks + 1) text))) {y = t.value_size} (omega arith)
    ∙ ap (λ m. some (take t.value_size (drop m text))) {y = length t.key + 7}
        (omega (arith, r.key_size))
    ∙ ap (λ s. some (take t.value_size s)) (drop-length-append t.key rest 7)
