-- ===== src/Utils/Results.antt =====
-- rex/src/utils.rs, `to_result!`: the decoding of a kernel return value.
use rex_with_driver.Base.{ℕ, ◌-◌, ◌^◌, ◌≤◌, ◌<◌, ◌≡◌, arith}
use rex_with_driver.Utils.{Result, ok, err, to_result}

-- A call that returns `-e`, as an i64 in its register and not below the least i32, gives the error
-- `-e` as an i32, and a call that returns a number that an i32 can hold gives that number, whether
-- or not the value was first cast to an i32.
to_result_lem :
    (e n : ℕ)
    → 0 < e
    → e ≤ 2 ^ 31
    → n < 2 ^ 31
    → (to_result 32 (2 ^ 64 - e) ≡ err (2 ^ 32 - e))
      × (to_result 64 (2 ^ 64 - e) ≡ err (2 ^ 32 - e))
      × (to_result 32 n ≡ ok n)
      × (to_result 64 n ≡ ok n)
unfolding to_result
to_result_lem e n pos small fits = (ground arith, ground arith, ground arith, ground arith)

-- The i32 patterns of a success and of an error.
abbrev pub Signed : Result → Type 0
Signed (ok v) = v < 2 ^ 31
Signed (err v) = (2 ^ 31 ≤ v) × (v < 2 ^ 32)

-- Decoding a cast value, an error holds a negative i32 and a success a non-negative one.
to_result-Signed : (retval : ℕ) → Signed (to_result 32 retval)
unfolding to_result
to_result-Signed retval = ground arith
