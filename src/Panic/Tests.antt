-- ===== src/Panic/Tests.antt =====
-- The table and the handler, run on the example CPUs.
use mathlib.Core.List.{reverse}
use rex_with_driver.Base.{ℕ, ◌<◌, ◌≡◌, refl, arith, ◌⊎◌, [], ◌∷◌, ◌++◌, map, codes, length, set}
use rex_with_driver.Kernel.{Cpu, unlock_spinlock, release_task, done, landed}
use rex_with_driver.Panic.{
  panic, cleanup_all, register_cleanup, deregister_cleanup, find_next_emtpy_entry, invalidate,
  new_entry, default_entry, object_count_exceeded,
}
use rex_with_driver.Panic.Table.{
  FirstVacant, Occupied, valid_at, register_cleanup_cases, deregister_cleanup-register_cleanup,
}
use rex_with_driver.Panic.Cleanup.{releases, cleanup_all_lem}
use rex_with_driver.Panic.Handler.{Landing, panic-Landing}
use rex_with_driver.Example.{quiet, idle, crowded}

-- The idle CPU after a task at 32 was registered.
abbrev busy : Cpu
busy = record idle { cleanup_entries = new_entry release_task 32 ∷ default_entry ∷ [] }

register_cleanup_cases_example :
    ((i : ℕ) × FirstVacant busy.cleanup_entries i
      × (register_cleanup quiet unlock_spinlock 16 busy
          ≡ done i (record busy {
            cleanup_entries = set busy.cleanup_entries i (new_entry unlock_spinlock 16);
          })))
    ⊎ (((j : ℕ) → j < length busy.cleanup_entries → Occupied busy.cleanup_entries j)
        × (register_cleanup quiet unlock_spinlock 16 busy ≡ panic quiet object_count_exceeded busy))
register_cleanup_cases_example = register_cleanup_cases quiet unlock_spinlock 16 busy

registers : register_cleanup quiet release_task 32 idle ≡ done 0 busy
unfolding register_cleanup find_next_emtpy_entry default_entry
registers = refl

deregister_cleanup-register_cleanup_example :
    (u : Cpu) × (deregister_cleanup quiet 0 busy ≡ done tt u)
    × ((j : ℕ) → valid_at u.cleanup_entries j ≡ valid_at idle.cleanup_entries j)
    × (u.calls ≡ [])
deregister_cleanup-register_cleanup_example =
    deregister_cleanup-register_cleanup quiet release_task 32 0 idle busy registers

cleanup_all_lem_example :
    ((cleanup_all quiet crowded).calls
      ≡ reverse (releases crowded.cleanup_entries) ++ crowded.calls)
    × ((cleanup_all quiet crowded).cleanup_entries ≡ map invalidate crowded.cleanup_entries)
    × ((cleanup_all quiet crowded).log_buf ≡ crowded.log_buf)
cleanup_all_lem_example = cleanup_all_lem quiet crowded

panic-Landing_example :
    (t : Cpu) × (panic {A = ℕ} quiet (codes "oops") crowded ≡ landed t)
    × Landing quiet (codes "oops") crowded t
panic-Landing_example = panic-Landing quiet (codes "oops") crowded (omega arith)
