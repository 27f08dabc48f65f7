-- ===== src/Utils.antt =====
-- rex/src/utils.rs: the result of a helper, its decoding from a kernel return value, and the CPU
-- selector of a perf event.
pub mod Results
use rex_with_driver.Base.{ℕ, ◌-◌, ◌%◌, ◌^◌, Option, none, some, leb, if◌then◌else◌, bit_and}
use rex_with_driver.Kernel.{Env, Uapi}

-- `Result`, a `Result<c_int, c_int>`; an i32 is given by its bit pattern, below 2 ^ 32.
pub data Result : Type 0 where
  ok : ℕ → Result
  err : ℕ → Result

-- `to_result!` on a value of `w` bits: negative is an error, and both are cut to an i32.
unfoldable pub to_result : ℕ → ℕ → Result
to_result w retval =
    let val = retval % 2 ^ w in
    if leb (2 ^ (w - 1)) val then err (val % 2 ^ 32) else ok (val % 2 ^ 32)

-- `Result::ok` after `map`.
abbrev pub ok_or_none {ℓ} : {A : Type ℓ} → Result → A → Option A
ok_or_none (ok _) a = some a
ok_or_none (err _) a = none

-- `PerfEventMaskedCPU`
pub record PerfEventMaskedCpu : Type 0 where
  pub masked_cpu : ℕ

unfoldable pub current_cpu : Uapi → PerfEventMaskedCpu
current_cpu u = record { masked_cpu = u.bpf_f_current_cpu }

unfoldable pub any_cpu : Uapi → ℕ → PerfEventMaskedCpu
any_cpu u cpu = record { masked_cpu = bit_and cpu u.bpf_f_index_mask }
