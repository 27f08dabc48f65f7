-- ===== src/Log/Write.antt =====
-- rex/src/log.rs, `impl Write for LogBuf`: the writer stays inside the buffer, keeps it
-- NUL-terminated and holds exactly the text written.
use rex_with_driver.Base.{
  ℕ, suc, ◌+◌, ◌-◌, ◌^◌, ◌≤◌, ◌<◌, ◌≡◌, refl, sym, subst, ◌∙◌, ◌⊎◌, inl, inr, List, [], ◌∷◌, ◌++◌,
  some, arith, length, length-append, append_assoc, append-nil, suc, take, get_elem?,
}
use rex_with_driver.Kernel.{Bytes, add64, sub64}
use rex_with_driver.Text.{Written, written, refused, out_of_range, copy_in, flatten}
use rex_with_driver.Text.Copy.{copy_in_lem}
use rex_with_driver.Text
use native.Mathlib.Decide.{dec_le}
use rex_with_driver.Log.{LogBuf, write_str, write_fmt}

-- The offset stands before the last byte of a buffer of addressable size.
pub record IsValid (b : LogBuf) : Type 0 where
  pub inside : b.off < length b.buf
  pub small : length b.buf < 2 ^ 64

-- The text written so far.
abbrev pub contents : LogBuf → Bytes
contents b = take b.off b.buf

-- The bytes that still fit before the NUL.
abbrev pub room : LogBuf → ℕ
room b = length b.buf - b.off - 1

abbrev pub Terminated : LogBuf → Type 0
Terminated b = get_elem? b.buf b.off ≡ some 0

-- What a successful write of `s` leaves: a NUL stands behind the text, unless nothing was done.
pub record Appended (b : LogBuf) (s : Bytes) (b' : LogBuf) : Type 0 where
  pub valid : IsValid b'
  pub text : contents b' ≡ contents b ++ s
  pub nul : Terminated b' ⊎ ((length s ≡ 0) × (b' ≡ b))
  pub same_length : length b'.buf ≡ length b.buf
  pub moved : b'.off ≡ b.off + length s

pub room_lem : (b : LogBuf) → IsValid b → sub64 (sub64 (length b.buf) b.off) 1 ≡ room b
room_lem b v = omega arith

pub write_str-fits :
    (b : LogBuf) (s : Bytes)
    → IsValid b
    → length s ≤ room b
    → (b' : LogBuf) × (write_str b s ≡ written b') × Appended b s b'
unfolding write_str
write_str-fits b s v h =
    let (out, e, c) = copy_in_lem b.buf b.off s (omega arith) in
    let no_wrap : add64 b.off (length s) ≡ b.off + length s = omega arith in
    (
      record { buf = out; off = b.off + length s },
      ground (arith, e, no_wrap, room_lem b v),
      record {
        valid = omega (arith, c.same_length);
        text = c.text;
        nul = inl c.nul;
        same_length = c.same_length;
        moved = refl;
      },
    )

pub write_str-refused :
    (b : LogBuf) (s : Bytes) → IsValid b → room b < length s → write_str b s ≡ refused b
unfolding write_str
write_str-refused b s v h = ground (arith, room_lem b v)

Appended-trans :
    {b c d : LogBuf} (s t : Bytes) → Appended b s c → Appended c t d → Appended b (s ++ t) d
Appended-trans {b} {c} {d} s t p q = record {
  valid = q.valid;
  text = q.text ∙ rw (p.text) (append_assoc (contents b) s t);
  nul = later q.nul p.nul;
  same_length = q.same_length ∙ p.same_length;
  moved = omega (arith, q.moved, p.moved, length-append s t);
}
  where
    later :
        Terminated d ⊎ ((length t ≡ 0) × (d ≡ c))
        → Terminated c ⊎ ((length s ≡ 0) × (c ≡ b))
        → Terminated d ⊎ ((length (s ++ t) ≡ 0) × (d ≡ b))
    later (inl end) _ = inl end
    later (inr (none_left, same)) (inl end) = inl (subst Terminated (sym same) end)
    later (inr (none_left, same)) (inr (empty, same')) =
        inr (omega (arith, length-append s t), same ∙ same')

-- How a formatted write ends: with the whole text, or refused after the first `k` pieces.
pub data Ended (b : LogBuf) (ps : List Bytes) (r : Written LogBuf) : Type 0 where
  whole :
      (b' : LogBuf)
      → r ≡ written b'
      → Appended b (flatten ps) b'
      → length (flatten ps) ≤ room b
      → Ended b ps r
  part :
      (k : ℕ) (b' : LogBuf)
      → r ≡ refused b'
      → IsValid b'
      → contents b' ≡ contents b ++ flatten (take k ps)
      → length b'.buf ≡ length b.buf
      → room b < length (flatten ps)
      → Ended b ps r

Ended-cons :
    {b c : LogBuf} (s : Bytes) (ps : List Bytes) {r : Written LogBuf}
    → Appended b s c
    → IsValid b
    → length s ≤ room b
    → Ended c ps r
    → Ended b (s ∷ ps) r
Ended-cons {b} {c} s ps p v h (whole b' e q fits) =
    whole b' e (Appended-trans s (flatten ps) p q)
      (omega (arith, length-append s (flatten ps), p.moved, p.same_length))
Ended-cons {b} {c} s ps p v h (part k b' e w text same over) =
    part (suc k) b' e w (text ∙ rw (p.text) (append_assoc (contents b) s (flatten (take k ps))))
      (same ∙ p.same_length) (omega (arith, length-append s (flatten ps), p.moved, p.same_length))

-- A formatted write to a valid buffer ends in one of two ways, and never out of range: the whole
-- text fitted, was appended and has a NUL behind it (unless no piece was written); or it did not
-- fit, the writer refused, and the buffer is valid and holds the pieces before the refused one.
pub write_fmt-Ended : (b : LogBuf) (ps : List Bytes) → IsValid b → Ended b ps (write_fmt b ps)
unfolding Text.write_fmt
write_fmt-Ended b [] v =
    whole b refl
      (record {
        valid = v;
        text = sym (append-nil (contents b));
        nul = inr (refl, refl);
        same_length = refl;
        moved = omega arith;
      })
      (omega arith)
write_fmt-Ended b (s ∷ ps) v = elim (dec_le (length s) (room b)) [
  | yes h ↦
      let (c, e, p) = write_str-fits b s v h in
      rw (e, Text.write_fmt) (Ended-cons s ps p v h (write_fmt-Ended c ps p.valid))
  | no h ↦
      rw (write_str-refused b s v (omega arith), Text.write_fmt)
        (part 0 b refl v (sym (append-nil (contents b))) refl
          (omega (arith, length-append s (flatten ps))))
]
