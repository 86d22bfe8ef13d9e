-- ===== src/Relay/Rings.antt =====
-- A structure of fixed capacity as a lane.
use bpf_arena_data_structure.Base.{Bool, true, false, ◌≡◌, ◌≢◌, ◌⊎◌, some, [], ap, ◌∙◌}
use bpf_arena_data_structure.Api.{DsResult, success, Kv, Out}
use bpf_arena_data_structure.Api.Queue
use bpf_arena_data_structure.Api.Queue.{Queue, fifo}
use bpf_arena_data_structure.Api.Bounded.{Bounded}
use bpf_arena_data_structure.Api.Lane.{Lane}
use bpf_arena_data_structure.Relay.Cases.{buffer, pop_cases, insert_cases}

-- `Memory` is the state of the allocator, and `present` the test that the structure was initialised.
module _ (b : Bounded) (Memory : Type 0) (present : b.State → Bool)
    (init : Memory → b.State → DsResult × b.State × Memory) where
  open b use {State, IsValid, contents, capacity, full_error, place, insert, pop}

  pub record IsLane : Type 0 where
    pub is_fifo : place ≡ fifo
    pub refuses : full_error ≢ success
    pub present-insert : (s : State) (x : Kv) → present (insert s x).1 ≡ present s
    pub present-pop : (s : State) (out : Out) → present (pop s out).1 ≡ present s
    pub init_cases :
        (m : Memory) (s : State)
        → present s ≡ false
        → let (e, s', _) = init m s in
          ((e ≡ success) × (present s' ≡ true) × IsValid s' × (contents s' ≡ []))
          ⊎ ((e ≢ success) × (present s' ≡ false))

  abbrev pub ring_lane : IsLane → Lane
  ring_lane is = record {
    State = State × Memory;
    IsValid = λ s. IsValid s.0;
    contents = λ s. contents s.0;
    present = λ s. present s.0;
    init = λ s. let (e, s', m) = init s.1 s.0 in (e, (s', m));
    insert = λ s x. let (e, s') = insert s.0 x in (e, (s', s.1));
    pop = λ s old. let (e, s', out) = pop s.0 (some old) in (e, (s', s.1), buffer out old);
    init_law = λ s absent. is.init_cases s.1 s.0 absent;
    insert_law = λ s x v p. (
      b.insert-IsValid s.0 x v,
      is.present-insert s.0 x ∙ p,
      insert_cases (contents s.0) ((insert s.0 x).0, contents (insert s.0 x).1) (capacity s.0)
          full_error x is.refuses
          (b.insert_refines s.0 x v
            ∙ ap (λ f. Queue.insert f (capacity s.0) full_error (contents s.0) x) is.is_fifo),
    );
    pop_law = λ s old v p. (
      b.pop-IsValid s.0 (some old) v,
      is.present-pop s.0 (some old) ∙ p,
      pop_cases (contents s.0)
          ((pop s.0 (some old)).0, contents (pop s.0 (some old)).1, (pop s.0 (some old)).2) old
          (b.pop_refines s.0 (some old) v),
    );
  }
