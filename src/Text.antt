-- ===== src/Text.antt =====
-- What `LogBuf` of rex/src/log.rs and `RexRingBufEntry` of rex/src/map.rs share: the results of
-- `fmt::Write`, and the copy of a piece of text into a byte buffer with a NUL behind it. The
-- comparison of strings serves the benchmark and the view of a map.
pub mod Copy
use rex_with_driver.Base.{
  ℕ, ◌+◌, List, [], ◌∷◌, ◌++◌, Option, none, some, Bool, true, false, ◌==◌, ◌&&◌, ◌||◌, ltb, leb,
  if◌then◌else◌, length, set, take, drop,
}
use rex_with_driver.Kernel.{Bytes}

-- The result of a write: `Ok(())`, `Err(fmt::Error)`, or a panic by an index out of range.
pub data Written {ℓ} (B : Type ℓ) : Type ℓ where
  written : B → Written B
  refused : B → Written B
  out_of_range : Written B

abbrev pub splice : Bytes → ℕ → Bytes → Bytes
splice buf off s = take off buf ++ (s ++ drop (off + length s) buf)

-- `self.buf[off..end].copy_from_slice(s)` and `self.buf[end] = 0`, with their range checks.
unfoldable pub copy_in : Bytes → ℕ → Bytes → ℕ → Option Bytes
copy_in buf off s end =
    if ltb end off || leb (length buf) end then none else some (set (splice buf off s) end 0)

-- `write!` hands the formatted text over in pieces and stops at the first that is refused.
unfoldable pub write_fmt {ℓ} : {B : Type ℓ} → (B → Bytes → Written B) → B → List Bytes → Written B
write_fmt write_str b [] = written b
write_fmt write_str b (s ∷ rest) = elim (write_str b s) [
  | written b' ↦ write_fmt write_str b' rest
  | refused b' ↦ refused b'
  | out_of_range ↦ out_of_range
]

abbrev pub flatten : List Bytes → Bytes
flatten [] = []
flatten (s ∷ rest) = s ++ flatten rest

-- `==` on strings and on slices of bytes.
unfoldable pub same_string : Bytes → Bytes → Bool
same_string [] [] = true
same_string [] (y ∷ ys) = false
same_string (x ∷ xs) [] = false
same_string (x ∷ xs) (y ∷ ys) = x == y && same_string xs ys
