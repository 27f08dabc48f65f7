-- ===== src/MemcachedBenchmark/Threads.antt =====
-- tools/memcached_benchmark/src/main.rs, `run_bench`, and get_values.rs, `get_command_benchmark`: the
-- requests of every thread, and what a thread does with them.
pub mod Chunks
pub mod Order
use rex_with_driver.Base.{
  ℕ, zero, suc, ◌+◌, ◌-◌, ◌*◌, ◌/◌, ◌%◌, ◌^◌, List, [], ◌∷◌, ◌++◌, Option, none, some, Bool,
  if◌then◌else◌, length, get_elem?, map, bit_and,
}
use rex_with_driver.Kernel.{Bytes}
use rex_with_driver.MemcachedBenchmark.{Protocol, udp, tcp, Dict, TaskData}
use rex_with_driver.MemcachedBenchmark.Entries.{Entry}

pub record Command : Type 0 where
  pub key : Bytes
  pub seq : ℕ
  pub protocol : Protocol
  pub value : Bytes

abbrev pub command_of : Entry → ℕ → Command
command_of e seq = record { key = e.key; seq = seq; protocol = e.protocol; value = e.value }

-- The loop over `index`, `left` of which are to come.
unfoldable pub commands_from : List Entry → ℕ → ℕ → ℕ → ℕ → Option (List Command)
commands_from entries start index seq zero = some []
commands_from entries start index seq (suc left) =
    let seq' = (seq + 1) % 2 ^ 16 in
    let rest = commands_from entries start (index + 1) seq' left in
    elim (get_elem? entries (start + index)) [
      | none ↦ none
      | some e ↦ elim rest [ none ↦ none | some cs ↦ some (command_of e seq' ∷ cs) ]
    ]

unfoldable pub send_commands : List Entry → ℕ → ℕ → ℕ → Option (List Command)
send_commands entries nums threads thread_num =
    commands_from entries (thread_num * nums % 2 ^ 64 / threads) 0 0 (nums / threads)

-- The loop over the threads, `left` of which are to come.
unfoldable pub commands_of_threads : List Entry → ℕ → ℕ → ℕ → ℕ → Option (List (List Command))
commands_of_threads entries nums threads thread_num zero = some []
commands_of_threads entries nums threads thread_num (suc left) =
    let rest = commands_of_threads entries nums threads (thread_num + 1) left in
    elim (send_commands entries nums threads thread_num) [
      | none ↦ none
      | some cs ↦ elim rest [ none ↦ none | some css ↦ some (cs ∷ css) ]
    ]

unfoldable pub send_commands_vec : List Entry → ℕ → ℕ → Option (List (List Command))
send_commands_vec entries nums threads = commands_of_threads entries nums threads 0 threads

-- What a thread asks of the server, in the order of time.
pub data Request : Type 0 where
  set_request : Bytes → Bytes → Request
  get_request : TaskData → Request

-- A thread's settings, and whether the server takes a value.
pub record Settings : Type 0 where
  pub addr : Bytes
  pub test_dict : Dict
  pub validate : Bool
  pub key_size : ℕ
  pub value_size : ℕ
  pub takes : Bytes → Bytes → Bool

abbrev pub task_of : Settings → Command → ℕ → TaskData
task_of s c counter = record {
  seq = c.seq;
  addr = s.addr;
  key = c.key;
  test_dict = s.test_dict;
  validate = s.validate;
  key_size = s.key_size;
  value_size = s.value_size;
  counter = counter;
}

abbrev pub Issued : Type 0
Issued = Option (List Request × List TaskData)

abbrev set_first : Bytes → Bytes → Issued → Issued
set_first key value none = none
set_first key value (some (done, handles)) = some (set_request key value ∷ done, handles)

abbrev keep_handle : TaskData → Issued → Issued
keep_handle t none = none
keep_handle t (some (done, handles)) = some (done, t ∷ handles)

-- The loop: a value is set at once, while a send to the channel is a future that `handles` keeps and
-- that does nothing until it is awaited.
unfoldable pub issue : Settings → List Command → ℕ → Issued
issue s [] counter = some ([], [])
issue s (c ∷ cs) counter =
    let after_set = issue s cs counter in
    let counter' = (counter + 1) % 2 ^ 64 in
    let after_get = issue s cs counter' in
    elim c.protocol [
      | tcp ↦ if s.takes c.key c.value then set_first c.key c.value after_set else none
      | udp ↦ keep_handle (task_of s c counter') after_get
    ]

-- The loop, then the handles.
unfoldable pub get_command_benchmark : Settings → List Command → Option (List Request)
get_command_benchmark s commands = elim (issue s commands 0) [
  | none ↦ none
  | some (done, handles) ↦ some (done ++ map get_request handles)
]

-- The socket of the pool that a task uses.
unfoldable pub socket_of : TaskData → ℕ
socket_of t = bit_and t.counter 31

-- What `run_bench` divides by the time.
unfoldable pub answered_count : ℕ → ℕ → ℕ
answered_count nums timeouts = (nums + 2 ^ 64 - timeouts) % 2 ^ 64
