-- ===== src/Api/Lane.antt =====
-- The interface by which a relay uses a structure as a lane from one side to the other.
use bpf_arena_data_structure.Base.{Bool, true, false, [], ◌∷◌, ◌≡◌, ◌≢◌, ◌⊎◌}
use bpf_arena_data_structure.Api.{DsResult, success, Kv}
use bpf_arena_data_structure.Api.Queue.{Queue, fifo}

-- `init`, `insert` and `pop` on a state, `present` for the test that a lane was initialised, and the
-- laws by which a lane is a queue that may refuse a pair.
pub record Lane : Type 1 where
  pub State : Type 0
  pub IsValid : State → Type 0
  pub contents : State → Queue
  pub present : State → Bool
  pub init : State → DsResult × State
  pub insert : State → Kv → DsResult × State
  pub pop : State → Kv → DsResult × State × Kv
  pub init_law :
      (s : State)
      → present s ≡ false
      → let (e, s') = init s in
        ((e ≡ success) × (present s' ≡ true) × IsValid s' × (contents s' ≡ []))
        ⊎ ((e ≢ success) × (present s' ≡ false))
  pub insert_law :
      (s : State) (x : Kv)
      → IsValid s
      → present s ≡ true
      → let (e, s') = insert s x in
        IsValid s'
        × (present s' ≡ true)
        × (((e ≡ success) × (contents s' ≡ fifo (contents s) x))
            ⊎ ((e ≢ success) × (contents s' ≡ contents s)))
  pub pop_law :
      (s : State) (old : Kv)
      → IsValid s
      → present s ≡ true
      → let (e, s', x) = pop s old in
        IsValid s'
        × (present s' ≡ true)
        × (((e ≡ success) × (contents s ≡ x ∷ contents s'))
            ⊎ ((e ≢ success) × (contents s ≡ []) × (contents s' ≡ [])))

-- A lane with the check of its structure, which accepts every valid one.
pub record CheckedLane : Type 1 where
  pub lane : Lane
  pub verify : lane.State → DsResult
  pub verify_law : (s : lane.State) → lane.IsValid s → lane.present s ≡ true → verify s ≡ success
