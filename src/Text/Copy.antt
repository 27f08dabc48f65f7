-- ===== src/Text/Copy.antt =====
-- A copy inside the buffer keeps its length, appends to the text before it, and ends in a NUL.
use rex_with_driver.Base.{
  ℕ, zero, suc, ◌+◌, ◌≤◌, ◌<◌, ◌≡◌, refl, sym, ap, ◌∙◌, [], ◌∷◌, ◌++◌, some, arith, length, take,
  drop, set, get_elem?, length-append, length-set, length-take, length-drop, append_assoc,
  take-append_length, get_elem?-set_self,
}
use rex_with_driver.Kernel.{Bytes}
use rex_with_driver.Text.{splice, copy_in}

pub length-splice :
    (buf : Bytes) (off : ℕ) (s : Bytes)
    → off + length s ≤ length buf
    → length (splice buf off s) ≡ length buf
length-splice buf off s h = omega (
  arith,
  length-append (take off buf) (s ++ drop (off + length s) buf),
  length-append s (drop (off + length s) buf),
  length-take off buf,
  length-drop (off + length s) buf,
)

pub take-splice :
    (buf : Bytes) (off : ℕ) (s : Bytes)
    → off ≤ length buf
    → take (off + length s) (splice buf off s) ≡ take off buf ++ s
take-splice buf off s h =
    ap (take (off + length s)) (sym (append_assoc (take off buf) s rest))
    ∙ ap (λ n. take n ((take off buf ++ s) ++ rest)) reach
    ∙ take-append_length (take off buf ++ s) rest
  where
    rest : Bytes
    rest = drop (off + length s) buf

    reach : off + length s ≡ length (take off buf ++ s)
    reach = omega (arith, length-append (take off buf) s, length-take off buf)

take-set_of_le : (xs : Bytes) (n i v : ℕ) → n ≤ i → take n (set xs i v) ≡ take n xs
take-set_of_le xs zero i v h = refl
take-set_of_le [] (suc n) i v h = refl
take-set_of_le (x ∷ xs) (suc n) zero v h = absurd (omega arith)
take-set_of_le (x ∷ xs) (suc n) (suc i) v h = ap (◌∷◌ x) (take-set_of_le xs n i v (omega arith))

-- What a copy leaves in the buffer.
pub record Copied (buf : Bytes) (off : ℕ) (s out : Bytes) : Type 0 where
  pub same_length : length out ≡ length buf
  pub text : take (off + length s) out ≡ take off buf ++ s
  pub nul : get_elem? out (off + length s) ≡ some 0

pub copy_in_lem :
    (buf : Bytes) (off : ℕ) (s : Bytes)
    → off + length s < length buf
    → (out : Bytes) × (copy_in buf off s (off + length s) ≡ some out) × Copied buf off s out
unfolding copy_in
copy_in_lem buf off s h = (
  set (splice buf off s) (off + length s) 0,
  ground arith,
  record {
    same_length =
        omega (arith, length-set (splice buf off s) (off + length s) 0, length-splice buf off s);
    text =
        take-set_of_le (splice buf off s) (off + length s) (off + length s) 0 (omega arith)
        ∙ take-splice buf off s (omega arith);
    nul =
        get_elem?-set_self (splice buf off s) (off + length s) 0
          (omega (arith, length-splice buf off s));
  },
)
