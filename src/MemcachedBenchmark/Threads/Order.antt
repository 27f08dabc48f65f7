-- ===== src/MemcachedBenchmark/Threads/Order.antt =====
-- tools/memcached_benchmark/src/get_values.rs, `get_command_benchmark`: the order of a thread's
-- requests.
use Prim.Native.Nat.{digits, bit_and-bitwise}
use rex_with_driver.Base.{
  ℕ, zero, suc, ◌+◌, ◌/◌, ◌%◌, ◌^◌, ◌≡◌, ◌<◌, ◌≤◌, refl, ap, arith, List, [], ◌∷◌, ◌++◌, some, true,
  length, map, min, ◌⊎◌, inl, inr,
}
use rex_with_driver.Kernel.{Bytes}
use rex_with_driver.MemcachedBenchmark.{Protocol, udp, tcp, TaskData}
use rex_with_driver.MemcachedBenchmark.Threads.{
  Command, Request, set_request, get_request, Settings, task_of, issue, get_command_benchmark,
  socket_of,
}

-- The requests for TCP, and the commands for UDP.
unfoldable pub sets_of : List Command → List Request
sets_of [] = []
sets_of (c ∷ cs) =
    let rest = sets_of cs in elim c.protocol [ tcp ↦ set_request c.key c.value ∷ rest | udp ↦ rest ]

unfoldable pub gets_of : List Command → List Command
gets_of [] = []
gets_of (c ∷ cs) = let rest = gets_of cs in elim c.protocol [ tcp ↦ rest | udp ↦ c ∷ rest ]

-- The tasks of commands, counted on from `counter`.
unfoldable pub counted_tasks : Settings → ℕ → List Command → List TaskData
counted_tasks s counter [] = []
counted_tasks s counter (c ∷ cs) = task_of s c (counter + 1) ∷ counted_tasks s (counter + 1) cs

Protocol-cases : (p : Protocol) → (p ≡ tcp) ⊎ (p ≡ udp)
Protocol-cases tcp = inl refl
Protocol-cases udp = inr refl

issue_lem :
    (s : Settings) (cs : List Command) (counter : ℕ)
    → ((key value : Bytes) → s.takes key value ≡ true)
    → counter + length cs < 2 ^ 64
    → issue s cs counter ≡ some (sets_of cs, counted_tasks s counter (gets_of cs))
unfolding issue sets_of gets_of counted_tasks
issue_lem s [] counter taken few = refl
issue_lem s (c ∷ cs) counter taken few = elim (Protocol-cases c.protocol) [
  | inl t ↦ ground (arith, t, taken c.key c.value, issue_lem s cs counter taken (omega arith))
  | inr u ↦
      let next : (counter + 1) % 2 ^ 64 ≡ counter + 1 = omega arith in
      ground
        (arith, u, ap (issue s cs) next, next, issue_lem s cs (counter + 1) taken (omega arith))
]

masked_le : (n x y : ℕ) → digits (λ b. zero) min n x y ≤ y
masked_le zero x y = omega arith
masked_le (suc n) zero y = omega arith
masked_le (suc n) (suc x) y = omega (arith, masked_le n (suc x / 2) (y / 2))

socket_of-in_pool : (t : TaskData) → socket_of t < 32
unfolding socket_of
socket_of-in_pool t = omega (arith, bit_and-bitwise t.counter 31, masked_le t.counter t.counter 31)

-- A thread sets all values of its TCP commands before it sends its first UDP request, however the
-- commands alternate, where the server takes every value: first the sets, in the order of the
-- commands, then the UDP requests in theirs, which are counted from 1 on; each uses one of the 32
-- sockets of the pool.
pub get_command_benchmark_lem :
    (s : Settings) (cs : List Command)
    → ((key value : Bytes) → s.takes key value ≡ true)
    → length cs < 2 ^ 64
    → (get_command_benchmark s cs
        ≡ some (sets_of cs ++ map get_request (counted_tasks s 0 (gets_of cs))))
      × ((t : TaskData) → socket_of t < 32)
unfolding get_command_benchmark
get_command_benchmark_lem s cs taken few =
    (ground (arith, issue_lem s cs 0 taken (omega arith)), socket_of-in_pool)
