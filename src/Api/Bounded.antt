-- ===== src/Api/Bounded.antt =====
-- The interface that the structures of fixed capacity implement, and what follows from it for whole runs of calls.
pub mod Roundtrip
use bpf_arena_data_structure.Base.{ℕ, List, [], ◌∷◌, none, ◌≡◌, refl}
use bpf_arena_data_structure.Api.{DsResult, Kv, Out}
use bpf_arena_data_structure.Api.Queue
use bpf_arena_data_structure.Api.Queue.{Queue, Op, put, get, Reply}

-- Operations on a state, and the laws by which they implement a bounded queue (`place` is `fifo`) or stack (`lifo`).
pub record Bounded : Type 1 where
  pub State : Type 0
  pub IsValid : State → Type 0
  pub contents : State → Queue
  pub capacity : State → ℕ
  pub full_error : DsResult
  pub place : Queue → Kv → Queue
  pub insert : State → Kv → DsResult × State
  pub pop : State → Out → DsResult × State × Out
  pub insert-IsValid : (s : State) (x : Kv) → IsValid s → IsValid (insert s x).1
  pub pop-IsValid : (s : State) (out : Out) → IsValid s → IsValid (pop s out).1
  pub capacity-insert : (s : State) (x : Kv) → capacity (insert s x).1 ≡ capacity s
  pub capacity-pop : (s : State) (out : Out) → capacity (pop s out).1 ≡ capacity s
  pub insert_refines :
      (s : State) (x : Kv)
      → IsValid s
      → let (e, s') = insert s x in
        (e, contents s') ≡ Queue.insert place (capacity s) full_error (contents s) x
  pub pop_refines :
      (s : State) (out : Out)
      → IsValid s
      → let (e, s', out') = pop s out in (e, contents s', out') ≡ Queue.pop (contents s) out

module _ (b : Bounded) where
  open b use {State, IsValid, contents, capacity, full_error, place, insert, pop}

  unfoldable pub run : State → List Op → List Reply
  run s [] = []
  run s (put x ∷ ops) = let (e, s') = insert s x in (e, none) ∷ run s' ops
  run s (get out ∷ ops) = let (e, s', out') = pop s out in (e, out') ∷ run s' ops

  -- No sequence of calls tells a valid state from the bounded queue of its contents.
  pub run_refines :
      (ops : List Op) (s : State)
      → IsValid s
      → run s ops ≡ Queue.run place (capacity s) full_error (contents s) ops
  unfolding run Queue.run
  run_refines [] s v = refl
  run_refines (put x ∷ ops) s v = rw (
    run_refines ops (insert s x).1 (b.insert-IsValid s x v),
    ← b.insert_refines s x v,
    b.capacity-insert,
  )
  run_refines (get out ∷ ops) s v = rw (
    run_refines ops (pop s out).1 (b.pop-IsValid s out v),
    ← b.pop_refines s out v,
    b.capacity-pop,
  )
