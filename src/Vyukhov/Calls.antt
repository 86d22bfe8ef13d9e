-- ===== src/Vyukhov/Calls.antt =====
-- A valid Vyukhov queue behaves, one call at a time, as the bounded queue of the pairs that it holds.
use bpf_arena_data_structure.Base.{
  ℕ, suc, ◌+◌, ◌-◌, ◌<◌, ◌≡◌, [], some, arith, ℕ_discrete, dec_le, min, ap, ◌∙◌, eq_nil_of_length,
}
use bpf_arena_data_structure.Api.{success, not_found, nomem, Kv, u64}
use bpf_arena_data_structure.Api.Queue
use bpf_arena_data_structure.Api.Queue.{Queue, fifo}
use bpf_arena_data_structure.Vyukhov.{
  node, Head, slot, empty_cell, insert_loop, insert, pop_loop, pop, max_retries,
}
use bpf_arena_data_structure.Vyukhov.Inv.{IsValid, capacity, used, contents, length-contents}
use bpf_arena_data_structure.Vyukhov.Refine.{dequeue_slot, insert_loop-room, insert_loop-full}
use bpf_arena_data_structure.Vyukhov.Insert.{fill-IsValid, contents-fill}
use bpf_arena_data_structure.Vyukhov.Remove.{empty_cell-IsValid, contents-empty_cell}

module _ {h : Head} (v : IsValid h) where
  -- The cell of the next removal: with a pair it carries the position's successor, else the position.
  used_number :
      0 < used h → (node h.cells (slot h h.dequeue_pos)).sequence ≡ u64 (h.dequeue_pos + 1)
  used_number some_pair =
      ap (λ i. (node h.cells i).sequence) (dequeue_slot v)
      ∙ v.full_cells 0 some_pair
      ∙ ap u64 (omega arith)

  empty_number : used h ≡ 0 → (node h.cells (slot h h.dequeue_pos)).sequence ≡ h.dequeue_pos
  empty_number empty =
      let d = v.dequeue_u64 in
      ap (λ i. (node h.cells i).sequence) (dequeue_slot v)
      ∙ v.free_cells 0 (omega arith) (omega arith)
      ∙ omega arith

  pop_loop-some :
      (rounds : ℕ) (old : Kv)
      → 0 < used h
      → pop_loop (suc rounds) h h.dequeue_pos old
        ≡ (success, empty_cell h h.dequeue_pos, (node h.cells (slot h h.dequeue_pos)).pair)
  unfolding pop_loop
  pop_loop-some rounds old some_pair = let number = used_number some_pair in ground arith

  pop_loop-empty :
      (rounds : ℕ) (old : Kv)
      → used h ≡ 0
      → pop_loop (suc rounds) h h.dequeue_pos old ≡ (not_found, h, old)
  unfolding pop_loop
  pop_loop-empty rounds old empty =
      let d = v.dequeue_u64 in let number = empty_number empty in ground arith

  insert_loop_refines :
      (rounds : ℕ) (x : Kv)
      → let (e, h') = insert_loop (suc rounds) h h.enqueue_pos x.key x.value in
        IsValid h' × ((e, contents h') ≡ Queue.insert fifo (capacity h) nomem (contents h) x)
  unfolding Queue.insert
  insert_loop_refines rounds x =
      let w = v.within in
      let n = length-contents h in
      elim (dec_le (used h) h.buffer_mask) [
        | yes room ↦
            rw (insert_loop-room v rounds x room)
              (fill-IsValid v x room, rw (contents-fill v x room) (ground arith))
        | no over ↦ rw (insert_loop-full v rounds x (omega arith)) (v, ground arith)
      ]

  pop_loop_refines :
      (rounds : ℕ) (old : Kv)
      → let (e, h', x) = pop_loop (suc rounds) h h.dequeue_pos old in
        IsValid h' × ((e, contents h', some x) ≡ Queue.pop (contents h) (some old))
  unfolding Queue.pop
  pop_loop_refines rounds old = elim (ℕ_discrete (used h) 0) [
    | yes empty ↦
        let n : contents h ≡ [] = eq_nil_of_length (contents h) (length-contents h ∙ empty) in
        rw (pop_loop-empty rounds old empty) (v, ground arith)
    | no ne ↦
        let some_pair : 0 < used h = omega arith in
        rw (pop_loop-some rounds old some_pair)
          (empty_cell-IsValid v some_pair, rw (contents-empty_cell v some_pair) (ground arith))
  ]

-- A loop that may go round at all is tried once more than `rounds_left`.
rounds_left : (rounds : ℕ) → 0 < rounds → min rounds max_retries ≡ suc (min (rounds - 1) 99)
rounds_left rounds lt = omega arith

-- When the loop may go round at all, a valid queue takes the pair and puts it behind the others, or
-- answers DS_ERROR_NOMEM and stays as it is when it holds `buffer_mask + 1` pairs; it stays valid.
pub vyukhov_insert :
    (rounds : ℕ) (h : Head) (x : Kv)
    → 0 < rounds
    → IsValid h
    → let (e, h') = insert rounds h x.key x.value in
      IsValid h' × ((e, contents h') ≡ Queue.insert fifo (h.buffer_mask + 1) nomem (contents h) x)
unfolding insert
vyukhov_insert rounds h x lt v =
    let a = v.allocated in
    rw (rounds_left rounds lt) (ground (arith, insert_loop_refines v (min (rounds - 1) 99) x))

-- When the loop may go round at all, a pop into a buffer takes the oldest pair of a valid queue, or
-- answers DS_ERROR_NOT_FOUND and leaves queue and buffer as they are when there is none; the queue
-- stays valid.
pub vyukhov_pop :
    (rounds : ℕ) (h : Head) (old : Kv)
    → 0 < rounds
    → IsValid h
    → let (e, h', out) = pop rounds h (some old) in
      IsValid h' × ((e, contents h', out) ≡ Queue.pop (contents h) (some old))
unfolding pop
vyukhov_pop rounds h old lt v =
    let a = v.allocated in
    rw (rounds_left rounds lt) (ground (arith, pop_loop_refines v (min (rounds - 1) 99) old))
