-- ===== src/MemcachedBenchmark/Replies/Checked.antt =====
-- tools/memcached_benchmark/src/get_values.rs, `socket_task`: which replies pass the validation.
use rex_with_driver.Base.{
  ℕ, suc, ◌==◌, ◌≡◌, ◌<◌, ◌≤◌, ap, ◌∙◌, arith, [], ◌∷◌, ◌++◌, Option, some, Bool, true, false, ◌||◌,
  ◌&&◌, not, if◌then◌else◌, length, take, drop, subst, ◌⊎◌, take-append_length, Bool-cases, inl,
  inr, codes,
}
use rex_with_driver.Kernel.{Bytes}
use rex_with_driver.Text.{same_string}
use rex_with_driver.MemcachedBenchmark.{
  find_value, TaskData, matched, mismatched, check_value, check_reply, run_task,
}
use rex_with_driver.MemcachedBenchmark.Entries.Mix.{same_string_refl}
use rex_with_driver.MemcachedBenchmark.Replies.{Reply, received_of_lem}

abbrev end_of_reply : Bytes
end_of_reply = 13 ∷ 10 ∷ codes "END" ++ (13 ∷ 10 ∷ [])

-- No byte is a return or a newline.
unfoldable pub is_one_line : Bytes → Bool
is_one_line [] = true
is_one_line (b ∷ bs) = not (b == 13 || b == 10) && is_one_line bs

take-of_length : (n : ℕ) (xs ys : Bytes) → length xs ≡ n → take n (xs ++ ys) ≡ xs
take-of_length n xs ys e = subst (λ m. take m (xs ++ ys) ≡ xs) e (take-append_length xs ys)

two_digits :
    (n : ℕ) (digits value : Bytes)
    → length digits ≡ 2
    → length value ≡ n
    → take n (drop 4 (digits ++ (13 ∷ 10 ∷ (value ++ end_of_reply)))) ≡ value
two_digits n [] value two size = absurd (omega arith)
two_digits n (a ∷ []) value two size = absurd (omega arith)
two_digits n (a ∷ b ∷ []) value two size = take-of_length n value end_of_reply size
two_digits n (a ∷ b ∷ c ∷ digits) value two size = absurd (omega arith)

-- Without the first byte, and with a return at the end.
shifted-differs :
    (b : ℕ) (bs rest : Bytes)
    → is_one_line (b ∷ bs) ≡ true
    → same_string (take (suc (length bs)) (bs ++ (13 ∷ rest))) (b ∷ bs) ≡ false
unfolding same_string is_one_line
shifted-differs b [] rest one = ground (arith, one)
shifted-differs b (c ∷ bs) rest one =
    ground (arith, shifted-differs c bs rest (ground (arith, one)))

newline-differs :
    (b : ℕ) (bs rest : Bytes)
    → is_one_line (b ∷ bs) ≡ true
    → same_string (10 ∷ rest) (b ∷ bs) ≡ false
unfolding same_string is_one_line
newline-differs b bs rest one = ground (arith, one)

other_digits :
    (n : ℕ) (digits value : Bytes)
    → (length digits ≡ 1) ⊎ (length digits ≡ 3)
    → 0 < length value
    → length value ≡ n
    → is_one_line value ≡ true
    → same_string (take n (drop 4 (digits ++ (13 ∷ 10 ∷ (value ++ end_of_reply))))) value ≡ false
other_digits n digits [] others some_byte size one = absurd (omega arith)
other_digits n [] (v ∷ vs) (inl e) some_byte size one = absurd (omega arith)
other_digits n [] (v ∷ vs) (inr e) some_byte size one = absurd (omega arith)
other_digits n (a ∷ []) (v ∷ vs) others some_byte size one =
    subst (λ m. same_string (take m (vs ++ end_of_reply)) (v ∷ vs) ≡ false) size
      (shifted-differs v vs (drop 1 end_of_reply) one)
other_digits n (a ∷ b ∷ []) (v ∷ vs) (inl e) some_byte size one = absurd (omega arith)
other_digits n (a ∷ b ∷ []) (v ∷ vs) (inr e) some_byte size one = absurd (omega arith)
other_digits n (a ∷ b ∷ c ∷ []) (v ∷ vs) others some_byte size one =
    subst (λ m. same_string (take m (10 ∷ ((v ∷ vs) ++ end_of_reply))) (v ∷ vs) ≡ false) size
      (newline-differs v vs (take (length vs) ((v ∷ vs) ++ end_of_reply)) one)
other_digits n (a ∷ b ∷ c ∷ d ∷ digits) (v ∷ vs) (inl e) some_byte size one = absurd (omega arith)
other_digits n (a ∷ b ∷ c ∷ d ∷ digits) (v ∷ vs) (inr e) some_byte size one = absurd (omega arith)

module _ (from_utf8_lossy : Bytes → Bytes) (send_late : TaskData → Bool)
    (answer : TaskData → Option Bytes) (t : TaskData) (value digits reply : Bytes) where
  -- A validating task whose request is answered with its key's value passes exactly if the decimals of
  -- the value's length are two digits: for one or three digits the task reports a mismatch, although
  -- the value is the right one. The reply is one datagram of ASCII behind its header with no other
  -- `VALUE `, the sizes are those of the settings, and the value has a byte and is one line.
  pub run_task-digits :
      send_late t ≡ false
      → answer t ≡ some reply
      → t.validate ≡ true
      → find_value t.test_dict t.key ≡ some value
      → Reply from_utf8_lossy t value digits reply
      → 1 ≤ length digits
      → length digits ≤ 3
      → 0 < length value
      → is_one_line value ≡ true
      → run_task from_utf8_lossy send_late answer t
        ≡ (if length digits == 2 then matched else mismatched)
  unfolding run_task check_reply check_value
  run_task-digits sent answered validates found r some_digit few some_byte one =
      let received = received_of_lem from_utf8_lossy t value digits reply r some_digit in
      elim (Bool-cases (length digits == 2)) [
        | inl two ↦
            let same = two_digits t.value_size digits value (ground (arith, two)) r.value_size in
            ground (
              arith,
              two,
              sent,
              answered,
              validates,
              found,
              received ∙ ap some same,
              same_string_refl value,
            )
        | inr other ↦
            let differs =
              other_digits t.value_size digits value (ground (arith, other, some_digit, few))
                some_byte r.value_size one in
            ground (arith, other, sent, answered, validates, found, received, differs)
      ]
