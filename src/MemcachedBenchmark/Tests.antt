-- ===== src/MemcachedBenchmark/Tests.antt =====
-- A dictionary of two pairs, four requests of two threads, and replies for the key `k`.
use rex_with_driver.Base.{
  ℕ, ◌+◌, ◌-◌, ◌%◌, ◌/◌, ◌≡◌, ◌<◌, refl, arith, List, [], ◌∷◌, ◌++◌, Option, some, true, false,
  if◌then◌else◌, ◌==◌, length, drop, map, codes, replicate,
}
use rex_with_driver.Kernel.{Bytes}
use rex_with_driver.Words.{to_be16, of_be}
use rex_with_driver.Utils.{ok}
use rex_with_driver.Program.{World, yields, starts_with}
use rex_with_driver.Bmc.{BmcMaps, hash_func, hash_bytes, take_until}
use rex_with_driver.Bmc.Get.{key_bytes, xdp_rx_filter}
use rex_with_driver.Bmc.Get.Tests.{
  growing, growing-Moves, linux_layout-Fitting, maps, entry, key, stats, value,
}
use rex_with_driver.Text.{same_string}
use rex_with_driver.MemcachedBenchmark.{
  udp, tcp, Dict, TaskData, wrap_get_command, pattern, find_value, behind_pattern, run_task,
  matched, mismatched,
}
use rex_with_driver.MemcachedBenchmark.Replies.{reply_text, has_no_v, is_ascii}
use rex_with_driver.MemcachedBenchmark.Replies.Checked.{run_task-digits, is_one_line}
use rex_with_driver.MemcachedBenchmark.Requests.{wrap_get_command-xdp_rx_filter}
use rex_with_driver.MemcachedBenchmark.Entries.{
  Entry, generate_test_entries, test_entries_statistics,
}
use rex_with_driver.MemcachedBenchmark.Entries.Mix.{
  Drawn, generate_test_entries-test_entries_statistics,
}
use rex_with_driver.MemcachedBenchmark.Threads.{
  Command, Settings, get_request, get_command_benchmark, send_commands_vec, socket_of,
}
use rex_with_driver.MemcachedBenchmark.Threads.Chunks.{Parts, total_of, send_commands_vec-Parts}
use rex_with_driver.MemcachedBenchmark.Threads.Order.{
  sets_of, gets_of, counted_tasks, get_command_benchmark_lem,
}

abbrev dict : Dict
dict = (codes "k", codes "0123456789") ∷ ((codes "l", codes "abc") ∷ [])

-- A distribution that always gives 1.
abbrev zipf : ℕ → Option (ℕ → ℕ)
zipf n = some (λ idx. 1)

generate_test_entries-test_entries_statistics_example :
    (es : List Entry) × (generate_test_entries zipf dict 62 ≡ some es)
    × (length es ≡ 62)
    × Drawn dict (λ idx. 1) 0 es
    × ((test_entries_statistics es).tcp_count ≡ 62 / 31)
    × ((test_entries_statistics es).udp_count ≡ 62 - 62 / 31)
generate_test_entries-test_entries_statistics_example =
    generate_test_entries-test_entries_statistics zipf dict 62
      (record {
        sample = λ idx. 1;
        made = refl;
        low = λ idx. omega arith;
        high = λ idx. omega arith;
      })
      (omega arith) (omega arith)

abbrev entries : List Entry
entries =
    record { key = codes "k"; value = codes "1"; protocol = udp }
    ∷ (record { key = codes "l"; value = codes "2"; protocol = tcp }
        ∷ (record { key = codes "m"; value = codes "3"; protocol = udp } ∷ []))

send_commands_vec-Parts_example :
    (css : List (List Command)) × (send_commands_vec entries 3 2 ≡ some css)
    × (length css ≡ 2)
    × Parts entries 3 2 0 css
    × (total_of css + 3 % 2 ≡ 3)
send_commands_vec-Parts_example = send_commands_vec-Parts entries 3 2 refl (omega arith)

abbrev settings : Settings
settings = record {
  addr = codes "127.0.0.1:11211";
  test_dict = dict;
  validate = true;
  key_size = 1;
  value_size = 10;
  takes = λ key value. true;
}

abbrev commands : List Command
commands =
    record { key = codes "k"; seq = 1; protocol = udp; value = codes "1" }
    ∷ (record { key = codes "l"; seq = 2; protocol = tcp; value = codes "2" } ∷ [])

get_command_benchmark_lem_example :
    (get_command_benchmark settings commands
      ≡ some (sets_of commands ++ map get_request (counted_tasks settings 0 (gets_of commands))))
    × ((t : TaskData) → socket_of t < 32)
get_command_benchmark_lem_example =
    get_command_benchmark_lem settings commands (λ key value. refl) (omega arith)

abbrev header : Bytes
header = 0 ∷ 1 ∷ 0 ∷ 0 ∷ 0 ∷ 1 ∷ 0 ∷ 0 ∷ []

abbrev task : TaskData
task = record {
  seq = 1;
  addr = codes "127.0.0.1:11211";
  key = codes "k";
  test_dict = dict;
  validate = true;
  key_size = 1;
  value_size = 10;
  counter = 1;
}

abbrev short_task : TaskData
short_task = record task { key = codes "l"; value_size = 3 }

abbrev three_bytes : Bytes
three_bytes = header ++ (pattern ++ reply_text (codes "l") (codes "3") (codes "abc"))

run_task-digits_example :
    run_task (λ s. s) (λ t. false) (λ t. some three_bytes) short_task
    ≡ (if length (codes "3") == 2 then matched else mismatched)
unfolding has_no_v is_ascii behind_pattern starts_with find_value same_string is_one_line
run_task-digits_example =
    run_task-digits (λ s. s) (λ t. false) (λ t. some three_bytes) short_task (codes "abc")
      (codes "3") three_bytes refl refl refl refl
      (record {
        header = header;
        is_reply = refl;
        short = omega arith;
        decoded = refl;
        no_v = refl;
        ascii = refl;
        once = refl;
        key_size = refl;
        value_size = refl;
      })
      (omega arith) (omega arith) (omega arith) refl

-- The benchmark's first request for `k`, as a packet.
abbrev datagram : World BmcMaps
datagram = record {
  packet =
      replicate 23 0
      ++ (17
          ∷ (replicate 12 0
              ++ (43 ∷ 203 ∷ (replicate 4 0 ++ (header ++ (codes "get k" ++ (13 ∷ 10 ∷ [])))))));
  rest = maps;
}

wrap_get_command-xdp_rx_filter_example :
    (w : World BmcMaps) × (xdp_rx_filter growing 1 datagram ≡ yields (some (ok 3)) w)
    × (drop 50 w.packet ≡ pattern ++ reply_text (codes "k") (codes "1") (codes "A"))
unfolding hash_bytes hash_func key_bytes take_until of_be wrap_get_command to_be16
wrap_get_command-xdp_rx_filter_example =
    wrap_get_command-xdp_rx_filter growing 0 (codes "k") (codes "1") (codes "A") 1 datagram
      linux_layout-Fitting refl (λ packet same. growing-Moves packet _) (omega arith) (omega arith)
      (record { protocol = refl; port = refl; payload = refl }) refl (omega arith) (omega arith)
      (record {
        scratch = key;
        kept = refl;
        stats = stats;
        counted = refl;
        entry = entry;
        found = refl;
        holds = record { valid = refl; hash = refl; len = refl; bytes = refl };
        more = drop 7 value;
        line = refl;
        room = omega arith;
        brief = omega arith;
      })
