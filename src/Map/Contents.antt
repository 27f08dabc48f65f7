-- ===== src/Map/Contents.antt =====
-- rex/src/map.rs: a hash map as its clients see it. The kernel that keeps it is described by what its
-- documentation says of the calls; programs over it are sequences of operations.
pub mod Replays
pub mod Tests
use rex_with_driver.Base.{
  ℕ, ◌-◌, ◌%◌, ◌^◌, ◌≡◌, ◌≢◌, ◌==◌, ◌⊎◌, List, [], ◌∷◌, Option, none, some, Bool, false,
  if◌then◌else◌,
}
use rex_with_driver.Kernel.{Bytes, Env, Call, Cpu, M, Outcome, done, bind, pure, ◌>>=◌}
use rex_with_driver.Text.{same_string}
use rex_with_driver.Utils.{Result, ok, err, to_result}
use rex_with_driver.BaseHelper.{RexMapHandle}
use rex_with_driver.Map.{insert, insert_new, update, get_mut, delete}

abbrev pub Contents : Type 0
Contents = Bytes → Option Bytes

abbrev pub written : Bytes → Bytes → Contents → Contents
written key value m = λ j. if same_string key j then some value else m j

abbrev pub removed : Bytes → Contents → Contents
removed key m = λ j. if same_string key j then none else m j

-- The kernel keeps a hash map behind this pointer: its contents after the calls so far, the bytes
-- at an address, and what the calls answer. The timer does not fire meanwhile.
pub record Kept (k : Env) (p : ℕ) : Type 0 where
  pub contents : List Call → Contents
  pub value_at : List Call → ℕ → Bytes
  pub quiet : (cs : List Call) (c : Call) → (k.kernel cs c).timeout ≡ false
  pub update_code :
      (cs : List Call) (key value : Bytes) (flags : ℕ)
      → ((k.kernel cs (Call.map_update_elem p key value flags)).rax ≡ 0)
        ⊎ ((e : ℕ) × (to_result 32 (k.kernel cs (Call.map_update_elem p key value flags)).rax
              ≡ err e))
  pub after_update :
      (cs : List Call) (key value : Bytes) (flags : ℕ)
      → (k.kernel cs (Call.map_update_elem p key value flags)).rax ≡ 0
      → contents (Call.map_update_elem p key value flags ∷ cs) ≡ written key value (contents cs)
  pub after_failed_update :
      (cs : List Call) (key value : Bytes) (flags e : ℕ)
      → to_result 32 (k.kernel cs (Call.map_update_elem p key value flags)).rax ≡ err e
      → contents (Call.map_update_elem p key value flags ∷ cs) ≡ contents cs
  pub noexist :
      (cs : List Call) (key value : Bytes)
      → (k.kernel cs (Call.map_update_elem p key value k.uapi.bpf_noexist)).rax ≡ 0
      → contents cs key ≡ none
  pub exist :
      (cs : List Call) (key value : Bytes)
      → (k.kernel cs (Call.map_update_elem p key value k.uapi.bpf_exist)).rax ≡ 0
      → (old : Bytes) × (contents cs key ≡ some old)
  pub delete_missing :
      (cs : List Call) (key : Bytes)
      → contents cs key ≡ none
      → (e : ℕ) × (to_result 32 (k.kernel cs (Call.map_delete_elem p key)).rax ≡ err e)
  pub delete_found :
      (cs : List Call) (key v : Bytes)
      → contents cs key ≡ some v
      → (k.kernel cs (Call.map_delete_elem p key)).rax ≡ 0
  pub after_delete :
      (cs : List Call) (key v : Bytes)
      → contents cs key ≡ some v
      → contents (Call.map_delete_elem p key ∷ cs) ≡ removed key (contents cs)
  pub after_failed_delete :
      (cs : List Call) (key : Bytes)
      → contents cs key ≡ none
      → contents (Call.map_delete_elem p key ∷ cs) ≡ contents cs
  pub lookup_missing :
      (cs : List Call) (key : Bytes)
      → contents cs key ≡ none
      → (k.kernel cs (Call.map_lookup_elem p key)).rax ≡ 0
  pub lookup_found :
      (cs : List Call) (key v : Bytes)
      → contents cs key ≡ some v
      → let address = (k.kernel cs (Call.map_lookup_elem p key)).rax in
        ((address == 0) ≡ false) × (value_at (Call.map_lookup_elem p key ∷ cs) address ≡ v)
  pub after_lookup :
      (cs : List Call) (key : Bytes) → contents (Call.map_lookup_elem p key ∷ cs) ≡ contents cs

-- An operation of `RexHashMap`, and its reply; a reference is read at once.
pub data Op : Type 0 where
  insert_op insert_new_op update_op : (key value : Bytes) → Op
  delete_op get_op : (key : Bytes) → Op

pub data Reply : Type 0 where
  result : Result → Reply
  found : Option Bytes → Reply

-- The steps of the abstract map: an insertion may fail, where the map is full.
pub data Step : Contents → Op → Reply → Contents → Type 0 where
  inserted :
      (m : Contents) (key value : Bytes)
      → Step m (insert_op key value) (result (ok 0)) (written key value m)
  inserted_new :
      (m : Contents) (key value : Bytes)
      → m key ≡ none
      → Step m (insert_new_op key value) (result (ok 0)) (written key value m)
  updated :
      (m : Contents) (key value old : Bytes)
      → m key ≡ some old
      → Step m (update_op key value) (result (ok 0)) (written key value m)
  insert_refused :
      (m : Contents) (key value : Bytes) (e : ℕ) → Step m (insert_op key value) (result (err e)) m
  insert_new_refused :
      (m : Contents) (key value : Bytes) (e : ℕ)
      → Step m (insert_new_op key value) (result (err e)) m
  update_refused :
      (m : Contents) (key value : Bytes) (e : ℕ) → Step m (update_op key value) (result (err e)) m
  deleted :
      (m : Contents) (key old : Bytes)
      → m key ≡ some old
      → Step m (delete_op key) (result (ok 0)) (removed key m)
  not_there :
      (m : Contents) (key : Bytes) (e : ℕ)
      → m key ≡ none
      → Step m (delete_op key) (result (err e)) m
  got : (m : Contents) (key : Bytes) → Step m (get_op key) (found (m key)) m

pub data Steps : Contents → List Op → List Reply → Contents → Type 0 where
  no_steps : (m : Contents) → Steps m [] [] m
  one_more :
      {m n r : Contents} {op : Op} {reply : Reply} {ops : List Op} {replies : List Reply}
      → Step m op reply n
      → Steps n ops replies r
      → Steps m (op ∷ ops) (reply ∷ replies) r

module _ (k : Env) (map : RexMapHandle) (value_at : List Call → ℕ → Bytes) where
  read_reference : Option ℕ → M Reply
  read_reference none s = done (found none) s
  read_reference (some address) s = done (found (some (value_at s.calls address))) s

  unfoldable pub run_op : Op → M Reply
  unfolding read_reference
  run_op (insert_op key value) = do r ← insert k map key value; pure (result r)
  run_op (insert_new_op key value) = do r ← insert_new k map key value; pure (result r)
  run_op (update_op key value) = do r ← update k map key value; pure (result r)
  run_op (delete_op key) = do r ← delete k map key; pure (result r)
  run_op (get_op key) = get_mut k map key >>= read_reference

  unfoldable pub run_ops : List Op → M (List Reply)
  run_ops [] = pure []
  run_ops (op ∷ ops) = do reply ← run_op op; replies ← run_ops ops; pure (reply ∷ replies)
