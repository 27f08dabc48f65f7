-- ===== src/Electrode/Broadcast/Turns.antt =====
-- samples/electrode/src/main.rs, `handle_udp_fast_broad_cast`: the order in which the replicas are
-- picked.
use rex_with_driver.Base.{
  ℕ, zero, suc, ◌-◌, ◌≡◌, ◌≢◌, ◌<◌, ◌≤◌, arith, List, [], ◌∷◌, ltb, ◌==◌, if◌then◌else◌,
}
use rex_with_driver.Electrode.Broadcast.{next_of, first_of}

-- The replicas below `n` other than the leader, from `id` on.
unfoldable pub others : ℕ → ℕ → ℕ → List ℕ
others leader id zero = []
others leader id (suc n) =
    let rest = others leader (suc id) n in if leader == id then rest else id ∷ rest

pub others-next :
    (leader id : ℕ)
    → id < 3
    → leader ≢ id
    → let nxt = next_of leader id in
      others leader id (3 - id) ≡ id ∷ (if ltb nxt 3 then others leader nxt (3 - nxt) else [])
unfolding others next_of
others-next leader zero small other = ground arith
others-next leader (suc zero) small other = ground arith
others-next leader (suc (suc id)) small other = ground arith

pub next_of-passes :
    (leader id : ℕ) → id < 3 → (id < next_of leader id) × (leader ≢ next_of leader id)
unfolding next_of
next_of-passes leader id small = ground arith

pub others-first :
    (leader : ℕ) → others leader 0 3 ≡ others leader (first_of leader) (3 - first_of leader)
unfolding others first_of
others-first leader = ground arith

pub first_of-passes :
    (leader : ℕ)
    → let nxt = next_of leader (first_of leader) in
      (first_of leader < 3) × (leader ≢ first_of leader) × (1 ≤ nxt) × (nxt < 3)
unfolding first_of next_of
first_of-passes leader = ground arith
