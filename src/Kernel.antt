-- ===== src/Kernel.antt =====
-- What the runtime crate sees of the kernel: rex/src/ffi.rs (the symbols it calls and the per-CPU
-- variables it owns), rex/src/per_cpu.rs (one CPU, no nesting), and the outcome of running code.
-- The kernel itself is not in the repository: it is a parameter, which answers each call from the
-- history of the calls before it.
use rex_with_driver.Base.{◌≡◌, ◌≢◌, ℕ, ◌+◌, ◌-◌, ◌%◌, ◌^◌, List, ◌∷◌, Option, Bool, if◌then◌else◌}

-- A byte string, an address and a machine word are kept apart by name only.
abbrev pub Bytes : Type 0
Bytes = List ℕ

-- The calls of the `extern "C"` block, with the arguments that the crate passes. A pointer to a
-- key, a value or a buffer is given by the bytes behind it.
pub data Call : Type 0 where
  map_lookup_elem : (map : ℕ) (key : Bytes) → Call
  map_update_elem : (map : ℕ) (key value : Bytes) (flags : ℕ) → Call
  map_delete_elem : (map : ℕ) (key : Bytes) → Call
  map_push_elem : (map : ℕ) (value : Bytes) (flags : ℕ) → Call
  map_pop_elem : (map : ℕ) → Call
  map_peek_elem : (map : ℕ) → Call
  probe_read_kernel : (size unsafe_ptr : ℕ) → Call
  ktime_get_ns ktime_get_boot_ns ktime_get_coarse_ns get_random_u32 : Call
  call_snprintf : (str_size : ℕ) (fmt args : Bytes) → Call
  call_landingpad : Call
  spin_lock spin_unlock : (lock : ℕ) → Call
  get_stackid_pe : (ctx map flags : ℕ) → Call
  perf_prog_read_value : (ctx size : ℕ) → Call
  perf_event_output_tp : (ctx map flags : ℕ) (value : Bytes) → Call
  xdp_adjust_tail : (xdp offset : ℕ) → Call
  clone_redirect : (skb ifindex flags : ℕ) → Call
  ringbuf_reserve : (map size flags : ℕ) → Call
  ringbuf_output : (map : ℕ) (bytes : Bytes) (flags : ℕ) → Call
  ringbuf_submit : (addr : ℕ) (bytes : Bytes) (flags : ℕ) → Call
  ringbuf_discard : (addr flags : ℕ) → Call
  ringbuf_query : (map flags : ℕ) → Call
  trace_printk : Call
  task_from_pid : (pid : ℕ) → Call
  task_release : (task : ℕ) → Call

-- The return register, the bytes written behind an output pointer, and whether the watchdog timer
-- wrote 2 to `rex_termination_state` before the call returned.
pub record Answer : Type 0 where
  pub rax : ℕ
  pub out : Bytes
  pub timeout : Bool

-- The constants of the kernel's uapi headers, for which the build generates bindings.
pub record Uapi : Type 0 where
  pub einval : ℕ
  pub e2_big : ℕ
  pub bpf_any : ℕ
  pub bpf_noexist : ℕ
  pub bpf_exist : ℕ
  pub bpf_rb_avail_data : ℕ
  pub bpf_rb_ring_size : ℕ
  pub bpf_rb_cons_pos : ℕ
  pub bpf_rb_prod_pos : ℕ
  pub bpf_f_current_cpu : ℕ
  pub bpf_f_index_mask : ℕ

-- The fields of kernel objects that the crate reads.
pub record TaskFields : Type 0 where
  pub pid : ℕ
  pub tgid : ℕ
  pub utime : ℕ
  pub comm : Bytes
  pub stack : ℕ

pub record SkBuff : Type 0 where
  pub data_ptr : ℕ
  pub len : ℕ
  pub data_len : ℕ

pub record XdpBuff : Type 0 where
  pub data_ptr : ℕ
  pub data_end : ℕ

-- Kernel memory: the variables that the crate only reads, and the objects by their addresses.
pub record Memory : Type 0 where
  pub cpu_number : ℕ
  pub jiffies : ℕ
  pub numa_node : ℕ
  pub current_task : ℕ
  pub task : ℕ → TaskFields
  pub skb : ℕ → SkBuff
  pub xdp : ℕ → XdpBuff

-- The kernel, its memory after the calls so far, and how `core` displays a `PanicInfo` with a
-- given message: the text in the pieces that it hands to the writer.
pub record Env : Type 0 where
  pub kernel : List Call → Call → Answer
  pub memory : List Call → Memory
  pub panic_info : Bytes → List Bytes
  pub uapi : Uapi

-- `CleanupFn`: the two functions that are ever registered, `rex_spinlock_guard::panic_cleanup` and
-- `OwnedTaskStruct::panic_cleanup`.
pub data CleanupFn : Type 0 where
  unlock_spinlock release_task : CleanupFn

pub record CleanupEntry : Type 0 where
  pub valid : ℕ
  pub cleanup_fn : Option CleanupFn
  pub cleanup_arg : ℕ

-- The per-CPU variables, and the calls made so far on this CPU, the latest first.
pub record Cpu : Type 0 where
  pub cleanup_entries : List CleanupEntry
  pub termination_state : ℕ
  pub log_buf : Bytes
  pub calls : List Call

-- Code returns a value, or ends in the kernel's landing pad, or panics inside the panic handler.
pub data Outcome {ℓ} (A : Type ℓ) : Type ℓ where
  done : A → Cpu → Outcome A
  landed : Cpu → Outcome A
  nested : Cpu → Outcome A

abbrev pub M {ℓ} : Type ℓ → Type ℓ
M A = Cpu → Outcome A

abbrev pub pure {ℓ} : {A : Type ℓ} → A → M A
pure a s = done a s

pub done-injective {ℓ} :
    {A : Type ℓ} {a b : A} {s t : Cpu} → done a s ≡ done b t → (a ≡ b) × (s ≡ t)
done-injective h = (cc, cc)

pub done-ne-landed {ℓ} : {A : Type ℓ} {a : A} {s t : Cpu} → done a s ≢ landed t
done-ne-landed h = cc

-- Nothing runs after the landing pad.
abbrev pub bind {ℓ κ} : {A : Type ℓ} {B : Type κ} → Outcome A → (A → M B) → Outcome B
bind (done a t) f = f a t
bind (landed t) f = landed t
bind (nested t) f = nested t

infixl 5 ◌>>=◌ ◌>>◌
abbrev pub ◌>>=◌ {ℓ κ} : {A : Type ℓ} {B : Type κ} → M A → (A → M B) → M B
◌>>=◌ m f s = bind (m s) f

abbrev pub ◌>>◌ {ℓ} : {B : Type ℓ} → M (Unit {0}) → M B → M B
m >> k = m >>= λ _. k

-- A call of a kernel symbol. The timer writes the flag while the call runs.
abbrev pub after_call : Env → Call → Cpu → Cpu
after_call k c s = record s {
  termination_state = if (k.kernel s.calls c).timeout then 2 else s.termination_state;
  calls = c ∷ s.calls;
}

abbrev pub ffi : Env → Call → M Answer
ffi k c s = done (k.kernel s.calls c) (after_call k c s)

-- A read of kernel memory.
abbrev pub peek_memory {ℓ} : {A : Type ℓ} → Env → (Memory → A) → M A
peek_memory k f s = done (f (k.memory s.calls)) s

-- A slice over kernel memory.
pub record Slice : Type 0 where
  pub start : ℕ
  pub len : ℕ

-- `usize` and `u64` arithmetic, which wraps in a release build.
abbrev pub add64 : ℕ → ℕ → ℕ
add64 a b = (a + b) % 2 ^ 64

abbrev pub sub64 : ℕ → ℕ → ℕ
sub64 a b = (a + 2 ^ 64 - b) % 2 ^ 64
