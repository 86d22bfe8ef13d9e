-- ===== src/Api/Queue.antt =====
-- What a bounded queue, or a bounded stack, promises its client: the abstract side of the structures of
-- include/ that have a fixed capacity.
use bpf_arena_data_structure.Base.{ℕ, List, [], ◌∷◌, ◌++◌, none, length, ◌==◌, if◌then◌else◌}
use bpf_arena_data_structure.Api.{DsResult, success, not_found, Kv, Out, store}

-- The pairs that wait, the next one to be taken first.
abbrev pub Queue : Type 0
Queue = List Kv

-- One call of a client.
pub data Op : Type 0 where
  put : Kv → Op
  get : Out → Op

-- The result code, and what is left in the buffer of a pop.
abbrev pub Reply : Type 0
Reply = DsResult × Out

unfoldable pub pop : Queue → Out → DsResult × Queue × Out
pop [] out = (not_found, [], out)
pop (x ∷ q) out = (success, q, store out x)

-- Whether some pair has the key.
unfoldable pub find : Queue → ℕ → DsResult
find [] key = not_found
find (x ∷ q) key = if x.key == key then success else find q key

-- Where a new pair goes: behind the others, or before them.
abbrev pub fifo : Queue → Kv → Queue
fifo q x = q ++ x ∷ []

abbrev pub lifo : Queue → Kv → Queue
lifo q x = x ∷ q

module _ (place : Queue → Kv → Queue) (capacity : ℕ) (full_error : DsResult) where
  -- A full queue answers `full_error` and stays as it is.
  unfoldable pub insert : Queue → Kv → DsResult × Queue
  insert q x = if length q == capacity then (full_error, q) else (success, place q x)

  unfoldable pub run : Queue → List Op → List Reply
  run q [] = []
  run q (put x ∷ ops) = let (e, q') = insert q x in (e, none) ∷ run q' ops
  run q (get out ∷ ops) = let (e, q', out') = pop q out in (e, out') ∷ run q' ops
