-- ===== src/Map/Tests.antt =====
-- Map operations, run on the example kernels.
use rex_with_driver.Base.{◌≡◌, [], ◌∷◌, none}
use rex_with_driver.Kernel.{Bytes, Call}
use rex_with_driver.Utils.{err}
use rex_with_driver.BaseHelper.{RexMapHandle}
use rex_with_driver.Map.{insert, insert_new, update, delete, push, force_push, pop}
use rex_with_driver.Map.Issues.{issue, int_value, out_value, writes_issue}
use rex_with_driver.Example.{quiet, idle}

abbrev pub loaded : RexMapHandle
loaded = record { map_type = 1; key_size = 1; val_size = 1; max_size = 8; map_flag = 0; kptr = 256 }

abbrev pub key_1 : Bytes
key_1 = 1 ∷ []

abbrev pub value_9 : Bytes
value_9 = 9 ∷ []

writes_issue_example :
    (insert quiet loaded key_1 value_9 idle
      ≡ issue quiet loaded (err 22) (λ p. Call.map_update_elem p key_1 value_9 0) int_value idle)
    × (insert_new quiet loaded key_1 value_9 idle
        ≡ issue quiet loaded (err 22) (λ p. Call.map_update_elem p key_1 value_9 1) int_value idle)
    × (update quiet loaded key_1 value_9 idle
        ≡ issue quiet loaded (err 22) (λ p. Call.map_update_elem p key_1 value_9 2) int_value idle)
    × (delete quiet loaded key_1 idle
        ≡ issue quiet loaded (err 22) (λ p. Call.map_delete_elem p key_1) int_value idle)
    × (push quiet loaded value_9 idle
        ≡ issue quiet loaded (err 22) (λ p. Call.map_push_elem p value_9 0) int_value idle)
    × (force_push quiet loaded value_9 idle
        ≡ issue quiet loaded (err 22) (λ p. Call.map_push_elem p value_9 2) int_value idle)
    × (pop quiet loaded idle ≡ issue quiet loaded none Call.map_pop_elem out_value idle)
writes_issue_example = writes_issue quiet loaded idle key_1 value_9
