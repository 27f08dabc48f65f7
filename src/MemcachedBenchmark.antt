-- ===== src/MemcachedBenchmark.antt =====
-- tools/memcached_benchmark/src/get_values.rs and dict.rs: the test dictionary, a request and its
-- reply. A String is its bytes, a HashMap the list of its pairs in the order of its iteration, and
-- `none` is a panic. What a socket gives is a parameter.
pub mod Entries
pub mod Threads
pub mod Replies
pub mod Requests
pub mod Tests
use rex_with_driver.Base.{
  ℕ, zero, suc, ◌+◌, ◌-◌, ◌%◌, ◌^◌, ◌==◌, List, [], ◌∷◌, ◌++◌, Option, none, some, Bool, true,
  false, ◌||◌, ◌&&◌, not, ltb, leb, if◌then◌else◌, length, take, drop, get_elem?, map, codes,
}
use rex_with_driver.Kernel.{Bytes}
use rex_with_driver.Text.{same_string}
use rex_with_driver.Words.{to_be16}
use rex_with_driver.Program.{starts_with}

pub data Protocol : Type 0 where
  udp : Protocol
  tcp : Protocol

abbrev pub Dict : Type 0
Dict = List (Bytes × Bytes)

-- `HashMap::get` and `HashMap::insert`.
unfoldable pub find_value : Dict → Bytes → Option Bytes
find_value [] key = none
find_value ((k, v) ∷ rest) key =
    let found = find_value rest key in if same_string k key then some v else found

unfoldable pub insert_pair : Bytes → Bytes → Dict → Dict
insert_pair key value [] = (key, value) ∷ []
insert_pair key value ((k, v) ∷ rest) =
    let rest' = insert_pair key value rest in
    if same_string k key then (k, value) ∷ rest else (k, v) ∷ rest'

-- What a task needs for one request.
pub record TaskData : Type 0 where
  pub seq : ℕ
  pub addr : Bytes
  pub key : Bytes
  pub test_dict : Dict
  pub validate : Bool
  pub key_size : ℕ
  pub value_size : ℕ
  pub counter : ℕ

-- The header of memcached's UDP frames, then the command.
unfoldable pub wrap_get_command : Bytes → ℕ → Bytes
wrap_get_command key seq =
    to_be16 seq ++ ((0 ∷ 0 ∷ 0 ∷ 1 ∷ 0 ∷ 0 ∷ []) ++ (codes "get " ++ (key ++ (13 ∷ 10 ∷ []))))

abbrev pub pattern : Bytes
pattern = codes "VALUE "

-- `split("VALUE ").nth(1)`: the text behind the first occurrence, up to the second.
unfoldable pub up_to_pattern : Bytes → Bytes
up_to_pattern [] = []
up_to_pattern (b ∷ bs) =
    let rest = up_to_pattern bs in if starts_with (b ∷ bs) pattern then [] else b ∷ rest

unfoldable pub behind_pattern : Bytes → Option Bytes
behind_pattern [] = none
behind_pattern (b ∷ bs) =
    let rest = behind_pattern bs in
    if starts_with (b ∷ bs) pattern then some (up_to_pattern (drop 6 (b ∷ bs))) else rest

abbrev pub unwrap_or_default : Option Bytes → Bytes
unwrap_or_default none = []
unwrap_or_default (some s) = s

-- `is_char_boundary`, and `[a..b]` on a string.
unfoldable pub is_char_boundary : Bytes → ℕ → Bool
is_char_boundary s i = elim (get_elem? s i) [
  | none ↦ i == length s
  | some b ↦ not (leb 128 b && ltb b 192)
]

unfoldable pub slice_string : Bytes → ℕ → ℕ → Option Bytes
slice_string s a b =
    if ltb b a || not (is_char_boundary s a) || not (is_char_boundary s b)
    then none
    else some (take (b - a) (drop a s))

-- How a task ends. A panic ends the task alone.
pub data Outcome : Type 0 where
  send_timeout : Outcome
  receive_timeout : Outcome
  unchecked : Outcome
  unknown_key : Outcome
  matched : Outcome
  mismatched : Outcome
  panicked : Outcome

-- `TIMEOUT_COUNTER.fetch_add(1)` where a task times out.
abbrev pub count_timeout : Outcome → ℕ → ℕ
count_timeout send_timeout n = (n + 1) % 2 ^ 64
count_timeout receive_timeout n = (n + 1) % 2 ^ 64
count_timeout _ n = n

-- The value in a reply, as the text behind `VALUE ` has it.
unfoldable pub received_of : (Bytes → Bytes) → Bytes → ℕ → ℕ → Option Bytes
received_of from_utf8_lossy reply key_size value_size =
    slice_string (unwrap_or_default (behind_pattern (from_utf8_lossy (take 1500 reply))))
      (6 + key_size + 1) (6 + key_size + value_size + 1)

unfoldable pub check_value : Bytes → Option Bytes → Outcome
check_value value none = panicked
check_value value (some received) = if same_string received value then matched else mismatched

-- The network: whether the send to a socket of the pool times out, and what is received then: `none`
-- for an error or no answer in time. `from_utf8_lossy` decodes a text.
module _ (from_utf8_lossy : Bytes → Bytes) (send_late : TaskData → Bool)
    (answer : TaskData → Option Bytes) where
  unfoldable pub check_reply : TaskData → Bytes → Outcome
  check_reply t reply = if not t.validate then unchecked else elim (find_value t.test_dict t.key) [
    | none ↦ unknown_key
    | some value ↦ check_value value (received_of from_utf8_lossy reply t.key_size t.value_size)
  ]

  -- The body of a spawned task.
  unfoldable pub run_task : TaskData → Outcome
  run_task t =
      if send_late t
      then send_timeout
      else elim (answer t) [ none ↦ receive_timeout | some reply ↦ check_reply t reply ]

  -- The tasks of a channel, and the counter of timeouts after them.
  unfoldable pub socket_task : List TaskData → ℕ → List Outcome × ℕ
  socket_task [] timeouts = ([], timeouts)
  socket_task (t ∷ ts) timeouts =
      let outcome = run_task t in
      let (outcomes, total) = socket_task ts (count_timeout outcome timeouts) in
      (outcome ∷ outcomes, total)
