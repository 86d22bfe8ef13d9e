-- ===== src/Vyukhov/Refine.antt =====
-- A valid Vyukhov queue behaves, one call at a time, as the bounded queue of the pairs that it holds.
use bpf_arena_data_structure.Base.{ℕ, suc, ◌+◌, ◌%◌, ◌≤◌, ◌<◌, ◌≡◌, arith, ap, ◌∙◌, mod-eq-sub-mod}
use bpf_arena_data_structure.Api.{success, nomem, Kv, u64}
use bpf_arena_data_structure.Vyukhov.{node, Head, slot, fill, empty_cell, insert_loop}
use bpf_arena_data_structure.Vyukhov.Inv.{IsValid, capacity, used, slot-eq-mod, enqueue-mod}

module _ {h : Head} (v : IsValid h) where
  -- The cell of the next insertion.
  pub enqueue_slot : slot h h.enqueue_pos ≡ (h.dequeue_pos + used h) % capacity h
  enqueue_slot = slot-eq-mod v h.enqueue_pos ∙ enqueue-mod v

  pub dequeue_slot : slot h h.dequeue_pos ≡ (h.dequeue_pos + 0) % capacity h
  dequeue_slot = slot-eq-mod v h.dequeue_pos ∙ ap (λ i. i % capacity h) (omega arith)

  pub used-fill : (x : Kv) → used h ≤ h.buffer_mask → used (fill h h.enqueue_pos x) ≡ suc (used h)
  unfolding used
  used-fill x room =
      let e = v.enqueue_u64 in let d = v.dequeue_u64 in let s = v.small in omega arith

  pub used-empty_cell : 0 < used h → suc (used (empty_cell h h.dequeue_pos)) ≡ used h
  unfolding used
  used-empty_cell some_pair =
      let e = v.enqueue_u64 in
      let d = v.dequeue_u64 in let s = v.small in let w = v.within in omega arith

  pub u64-enqueue : u64 (h.dequeue_pos + used h) ≡ h.enqueue_pos
  unfolding used
  u64-enqueue = let e = v.enqueue_u64 in let d = v.dequeue_u64 in omega arith

  -- With room the cell carries the position; without, a number of the last lap.
  pub free_number :
      used h ≤ h.buffer_mask → (node h.cells (slot h h.enqueue_pos)).sequence ≡ h.enqueue_pos
  free_number room =
      ap (λ i. (node h.cells i).sequence) enqueue_slot
      ∙ v.free_cells (used h) (omega arith) room
      ∙ u64-enqueue

  pub full_number :
      used h ≡ capacity h → (node h.cells (slot h h.enqueue_pos)).sequence ≡ u64 (h.dequeue_pos + 1)
  full_number full =
      ap (λ i. (node h.cells i).sequence)
        (enqueue_slot ∙ mod-eq-sub-mod (omega arith) ∙ ap (λ i. i % capacity h) (omega arith))
      ∙ v.full_cells 0 (omega arith)
      ∙ ap u64 (omega arith)

  pub insert_loop-room :
      (rounds : ℕ) (x : Kv)
      → used h ≤ h.buffer_mask
      → insert_loop (suc rounds) h h.enqueue_pos x.key x.value ≡ (success, fill h h.enqueue_pos x)
  unfolding insert_loop
  insert_loop-room rounds x room =
      let e = v.enqueue_u64 in let number = free_number room in ground arith

  pub insert_loop-full :
      (rounds : ℕ) (x : Kv)
      → used h ≡ capacity h
      → insert_loop (suc rounds) h h.enqueue_pos x.key x.value ≡ (nomem, h)
  unfolding insert_loop used
  insert_loop-full rounds x full =
      let e = v.enqueue_u64 in
      let d = v.dequeue_u64 in let s = v.small in let number = full_number full in ground arith
