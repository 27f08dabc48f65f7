-- ===== src/Map/Contents/Tests.antt =====
-- A kernel that keeps a hash map of any size and has nothing else to say.
use rex_with_driver.Base.{
  ℕ, ◌-◌, ◌^◌, ◌≡◌, ◌==◌, refl, ap, List, [], ◌∷◌, Option, none, some, Bool, true, false,
  if◌then◌else◌, arith, inl, inr, if_true, if_false, ◌⊎◌,
}
use rex_with_driver.Kernel.{Bytes, Env, Call, Cpu, done}
use rex_with_driver.Utils.{err, to_result}
use rex_with_driver.Example.{idle, uapi_values, memory_values}
use rex_with_driver.Map.Tests.{loaded, key_1, value_9}
use rex_with_driver.Map.Contents.{
  Contents, written, removed, Kept, insert_op, delete_op, get_op, Reply, Steps, run_ops,
}
use rex_with_driver.Map.Contents.Replays.{run_ops-Steps}

-- Whether an update with these flags goes through on an entry.
abbrev pub admits : ℕ → Option Bytes → Bool
admits flags none = if flags == 2 then false else true
admits flags (some old) = if flags == 1 then false else true

abbrev pub cleared : Bytes → Option Bytes → Contents → Contents
cleared key none m = m
cleared key (some old) m = removed key m

unfoldable pub contents : List Call → Contents
contents [] = λ j. none
contents (Call.map_update_elem p key value flags ∷ cs) =
    let m = contents cs in if admits flags (m key) then written key value m else m
contents (Call.map_delete_elem p key ∷ cs) = let m = contents cs in cleared key (m key) m
contents (_ ∷ cs) = contents cs

abbrev pub or_empty : Option Bytes → Bytes
or_empty none = []
or_empty (some v) = v

-- The value that the last lookup found, at whatever address.
unfoldable pub value_at : List Call → ℕ → Bytes
value_at (Call.map_lookup_elem p key ∷ cs) address = or_empty (contents cs key)
value_at _ address = []

abbrev pub refusal : Bool → ℕ
refusal true = 0
refusal false = 2 ^ 64 - 17

abbrev pub is_some : Option Bytes → Bool
is_some none = false
is_some (some v) = true

unfoldable pub answer_of : List Call → Call → ℕ
answer_of cs (Call.map_update_elem p key value flags) = refusal (admits flags (contents cs key))
answer_of cs (Call.map_delete_elem p key) = refusal (is_some (contents cs key))
answer_of cs (Call.map_lookup_elem p key) = if is_some (contents cs key) then 4096 else 0
answer_of cs _ = 0

abbrev pub keeper : Env
keeper = record {
  kernel = λ cs c. record { rax = answer_of cs c; out = []; timeout = false };
  memory = λ cs. memory_values;
  panic_info = λ message. [];
  uapi = uapi_values;
}

pub refusal-cases : (b : Bool) → (refusal b ≡ 0) ⊎ ((e : ℕ) × (to_result 32 (refusal b) ≡ err e))
unfolding to_result
refusal-cases true = inl refl
refusal-cases false = inr (2 ^ 32 - 17, refl)

pub admitted : (b : Bool) → refusal b ≡ 0 → b ≡ true
admitted true e = refl
admitted false e = absurd (omega (arith, e))

pub refused : (b : Bool) (e : ℕ) → to_result 32 (refusal b) ≡ err e → b ≡ false
unfolding to_result
refused true e r = absurd (cc)
refused false e r = refl

pub admits_new : (o : Option Bytes) → refusal (admits 1 o) ≡ 0 → o ≡ none
admits_new none e = refl
admits_new (some v) e = absurd (omega (arith, e))

pub admits_old : (o : Option Bytes) → refusal (admits 2 o) ≡ 0 → (old : Bytes) × (o ≡ some old)
admits_old none e = absurd (omega (arith, e))
admits_old (some v) e = (v, refl)

unfoldable pub keeper-Kept : Kept keeper 256
unfolding contents value_at answer_of to_result
keeper-Kept = record {
  contents = contents;
  value_at = value_at;
  quiet = λ cs c. refl;
  update_code = λ cs key value flags. refusal-cases (admits flags (contents cs key));
  after_update = λ cs key value flags zero.
      if_true (written key value (contents cs)) (contents cs)
        (admitted (admits flags (contents cs key)) zero);
  after_failed_update = λ cs key value flags e failed.
      if_false (written key value (contents cs)) (contents cs)
        (refused (admits flags (contents cs key)) e failed);
  noexist = λ cs key value zero. admits_new (contents cs key) zero;
  exist = λ cs key value zero. admits_old (contents cs key) zero;
  delete_missing =
      λ cs key missing. (2 ^ 32 - 17, ap (λ o. to_result 32 (refusal (is_some o))) missing);
  delete_found = λ cs key v there. ap (λ o. refusal (is_some o)) there;
  after_delete = λ cs key v there. ap (λ o. cleared key o (contents cs)) there;
  after_failed_delete = λ cs key missing. ap (λ o. cleared key o (contents cs)) missing;
  lookup_missing = λ cs key missing. ap (λ o. if is_some o then 4096 else 0) missing;
  lookup_found =
      λ cs key v there. (ap (λ o. (if is_some o then 4096 else 0) == 0) there, ap or_empty there);
  after_lookup = λ cs key. refl;
}

run_ops-Steps_example :
    let ops =
      insert_op key_1 value_9 ∷ (get_op key_1 ∷ (delete_op key_1 ∷ (delete_op key_1 ∷ []))) in
    (replies : List Reply) × (t : Cpu) × (run_ops keeper loaded value_at ops idle ≡ done replies t)
    × Steps (contents []) ops replies (contents t.calls)
unfolding keeper-Kept
run_ops-Steps_example =
    run_ops-Steps keeper loaded refl keeper-Kept
      (insert_op key_1 value_9 ∷ (get_op key_1 ∷ (delete_op key_1 ∷ (delete_op key_1 ∷ [])))) idle
