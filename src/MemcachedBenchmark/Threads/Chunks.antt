-- ===== src/MemcachedBenchmark/Threads/Chunks.antt =====
-- tools/memcached_benchmark/src/main.rs, `run_bench`: how the entries are split among the threads.
use rex_with_driver.Base.{
  ℕ, zero, suc, ◌+◌, ◌*◌, ◌/◌, ◌%◌, ◌^◌, ◌≡◌, ◌<◌, ◌≤◌, refl, ap, ◌∙◌, arith, List, [], ◌∷◌, some,
  length, get_elem?, subst,
}
use native.Mathlib.Nat.{
  mod-eq_of_lt, le-div_iff_mul-le, div-mul-le_self, add-mul, mul-div_cancel, div-add-mod,
  mul-le-mul_right, mul_comm,
}
use rex_with_driver.MemcachedBenchmark.Entries.{Entry}
use rex_with_driver.MemcachedBenchmark.Threads.{
  Command, command_of, commands_from, send_commands, commands_of_threads, send_commands_vec,
}

-- The commands are those of the entries from `at` on, numbered on from `seq`.
pub data Numbered (entries : List Entry) : ℕ → ℕ → List Command → Type 0 where
  no_more : {at seq : ℕ} → Numbered entries at seq []
  numbered :
      {at seq : ℕ} {e : Entry} {cs : List Command}
      → get_elem? entries at ≡ some e
      → Numbered entries (at + 1) ((seq + 1) % 2 ^ 16) cs
      → Numbered entries at seq (command_of e ((seq + 1) % 2 ^ 16) ∷ cs)

get_elem?-some :
    (entries : List Entry) (i : ℕ)
    → i < length entries
    → (e : Entry) × (get_elem? entries i ≡ some e)
get_elem?-some [] i h = absurd (omega arith)
get_elem?-some (e ∷ es) zero h = (e, refl)
get_elem?-some (e ∷ es) (suc i) h = get_elem?-some es i (omega arith)

commands_from-Numbered :
    (entries : List Entry) (start index seq left : ℕ)
    → start + index + left ≤ length entries
    → (cs : List Command) × (commands_from entries start index seq left ≡ some cs)
      × (length cs ≡ left)
      × Numbered entries (start + index) seq cs
unfolding commands_from
commands_from-Numbered entries start index seq zero inside = ([], refl, refl, no_more)
commands_from-Numbered entries start index seq (suc left) inside =
    let seq' = (seq + 1) % 2 ^ 16 in
    let (e, at) = get_elem?-some entries (start + index) (omega arith) in
    let (cs, rest, size, nums) =
      commands_from-Numbered entries start (index + 1) seq' left (omega arith) in
    let next : start + (index + 1) ≡ start + index + 1 = omega arith in
    (
      command_of e seq' ∷ cs,
      ground (arith, at, rest),
      ap suc size,
      numbered at (subst (λ n. Numbered entries n seq' cs) next nums),
    )

-- A thread's part begins where the one before has ended, or later.
part-next :
    (t nums threads : ℕ)
    → 0 < threads
    → t * nums / threads + nums / threads ≤ (t + 1) * nums / threads
part-next t nums threads some_thread = (le-div_iff_mul-le some_thread).1 (
    omega (
      arith,
      add-mul (t * nums / threads) (nums / threads) threads,
      div-mul-le_self (t * nums) threads,
      div-mul-le_self nums threads,
      add-mul t 1 nums,
    ))

part-ends : (t nums threads : ℕ) → t < threads → t * nums / threads + nums / threads ≤ nums
part-ends t nums threads h =
    let some_thread : 0 < threads = omega arith in
    let start = t * nums / threads in
    subst (λ n. start + nums / threads ≤ n) (mul-div_cancel nums some_thread)
      ((le-div_iff_mul-le some_thread).1 (
        omega (
          arith,
          add-mul start (nums / threads) threads,
          div-mul-le_self (t * nums) threads,
          div-mul-le_self nums threads,
          add-mul t 1 nums,
          mul-le-mul_right nums h,
          mul_comm nums threads,
        )))

-- The lists of the threads from `t` on: each has the entries of its part of the list, from the place
-- where it starts, and the next part begins behind it.
pub data Parts (entries : List Entry) (nums threads : ℕ) : ℕ → List (List Command) → Type 0 where
  no_parts : {t : ℕ} → Parts entries nums threads t []
  part :
      {t : ℕ} {cs : List Command} {css : List (List Command)}
      → Numbered entries (t * nums / threads) 0 cs
      → length cs ≡ nums / threads
      → t * nums / threads + nums / threads ≤ (t + 1) * nums / threads
      → Parts entries nums threads (t + 1) css
      → Parts entries nums threads t (cs ∷ css)

-- How many requests the threads have.
abbrev pub total_of : List (List Command) → ℕ
total_of [] = 0
total_of (cs ∷ css) = length cs + total_of css

commands_of_threads-Parts :
    (entries : List Entry) (nums threads t left : ℕ)
    → length entries ≡ nums
    → threads * nums < 2 ^ 64
    → t + left ≤ threads
    → (css : List (List Command)) × (commands_of_threads entries nums threads t left ≡ some css)
      × (length css ≡ left)
      × (total_of css ≡ left * (nums / threads))
      × Parts entries nums threads t css
unfolding commands_of_threads send_commands
commands_of_threads-Parts entries nums threads t zero size small inside =
    ([], refl, refl, omega arith, no_parts)
commands_of_threads-Parts entries nums threads t (suc left) size small inside =
    let this : t < threads = omega arith in
    let fits = part-ends t nums threads this in
    let at_most : t * nums ≤ threads * nums = mul-le-mul_right nums (omega arith) in
    let exact : t * nums % 2 ^ 64 ≡ t * nums = mod-eq_of_lt (omega (arith, at_most)) in
    let start : t * nums % 2 ^ 64 / threads ≡ t * nums / threads = ap (λ n. n / threads) exact in
    let (cs, first, each, nums_cs) =
      commands_from-Numbered entries (t * nums / threads) 0 0 (nums / threads)
        (omega (arith, fits, size)) in
    let (css, rest, many, total, parts) =
      commands_of_threads-Parts entries nums threads (t + 1) left size small (omega arith) in
    let at : t * nums / threads + 0 ≡ t * nums / threads = omega arith in
    (
      cs ∷ css,
      ground (arith, ap (λ n. commands_from entries n 0 0 (nums / threads)) start ∙ first, rest),
      ap suc many,
      omega (arith, each, total),
      part (subst (λ n. Numbered entries n 0 cs) at nums_cs) each
          (part-next t nums threads (omega arith)) parts,
    )

-- With as many entries as requests, `run_bench` gives every thread `nums / threads` of them: those of
-- its part of the list, in their order and numbered from 1 on modulo 2^16. The parts do not overlap,
-- and all threads together lack `nums % threads` of the requests. Here `threads * nums` is a usize.
pub send_commands_vec-Parts :
    (entries : List Entry) (nums threads : ℕ)
    → length entries ≡ nums
    → threads * nums < 2 ^ 64
    → (css : List (List Command)) × (send_commands_vec entries nums threads ≡ some css)
      × (length css ≡ threads)
      × Parts entries nums threads 0 css
      × (total_of css + nums % threads ≡ nums)
unfolding send_commands_vec
send_commands_vec-Parts entries nums threads size small =
    let (css, made, many, total, parts) =
      commands_of_threads-Parts entries nums threads 0 threads size small (omega arith) in
    (css, made, many, parts, omega (arith, total, div-add-mod nums threads))
