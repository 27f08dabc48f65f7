-- ===== src/MapTest/Tests.antt =====
-- The hash map test on a kernel with a map that has an entry for the key already.
use rex_with_driver.Base.{ℕ, ◌≡◌, refl, [], ◌∷◌, List}
use rex_with_driver.Kernel.{Bytes, Call, Cpu, M, done}
use rex_with_driver.Utils.{Result, ok}
use rex_with_driver.Words.{to_le}
use rex_with_driver.Example.{idle}
use rex_with_driver.Map.Tests.{loaded}
use rex_with_driver.Map.Contents.Tests.{keeper, keeper-Kept, value_at}
use rex_with_driver.MapTest.{key_zero, as_i64, current_pid, map_test_hash}
use rex_with_driver.MapTest.Hash.{Tested, looked_up, map_test_hash-Tested}

abbrev silent : Bytes → List ℕ → M Result
silent fmt args s = done (ok 0) s

abbrev cpu : Cpu
cpu = record idle { calls = Call.map_update_elem 256 key_zero (9 ∷ []) 0 ∷ [] }

map_test_hash-Tested_example :
    let t = looked_up keeper loaded refl keeper-Kept silent (λ fmt args s. refl) cpu in
    (keeper-Kept.contents t.calls ≡ keeper-Kept.contents cpu.calls)
    × (pid : ℕ) × (current_pid keeper value_at silent t ≡ done pid t)
    × (u : Cpu) × Tested keeper loaded refl keeper-Kept silent
        (λ fmt args s. refl)
        (to_le 8 (as_i64 pid))
        t
        u
        (map_test_hash keeper value_at silent loaded cpu)
unfolding keeper-Kept
map_test_hash-Tested_example =
    map_test_hash-Tested keeper loaded refl keeper-Kept silent (λ fmt args s. refl) cpu
