-- ===== src/Log/Tests.antt =====
-- A formatted write to a buffer of eight bytes.
use rex_with_driver.Base.{arith, List, [], ◌∷◌, codes, replicate}
use rex_with_driver.Kernel.{Bytes}
use rex_with_driver.Log.{LogBuf, write_fmt}
use rex_with_driver.Log.Write.{Ended, write_fmt-Ended}

abbrev small_buf : LogBuf
small_buf = record { buf = replicate 8 7; off = 1 }

-- The second piece does not fit.
abbrev two_pieces : List Bytes
two_pieces = codes "abc" ∷ codes "defgh" ∷ []

write_fmt-Ended_example : Ended small_buf two_pieces (write_fmt small_buf two_pieces)
write_fmt-Ended_example = write_fmt-Ended small_buf two_pieces (omega arith)
