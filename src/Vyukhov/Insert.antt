-- ===== src/Vyukhov/Insert.antt =====
-- An insertion keeps a Vyukhov queue valid and puts its pair behind the others.
use bpf_arena_data_structure.Base.{
  ℕ, ◌+◌, ◌%◌, ◌≤◌, ◌<◌, ◌≡◌, ◌≢◌, [], ◌∷◌, ◌++◌, length-set, arith, ℕ_discrete, ap, ap₂, sym, ◌∙◌,
}
use bpf_arena_data_structure.Api.{Kv, u64}
use bpf_arena_data_structure.Api.Queue.{fifo}
use bpf_arena_data_structure.Vyukhov.{node, Node, Head, slot, fill}
use bpf_arena_data_structure.Vyukhov.Inv.{
  slot_stored, IsValid, capacity, used, cell, pairs, contents, place_ne, set_cell_self, set_cell_ne,
  pairs-set_cell, pairs-snoc,
}
use bpf_arena_data_structure.Vyukhov.Refine.{enqueue_slot, used-fill}

module _ {h : Head} (v : IsValid h) (x : Kv) (room : used h ≤ h.buffer_mask) where
  abbrev after : Head
  after = fill h h.enqueue_pos x

  fill_last : cell after (used h) ≡ record { sequence = u64 (h.enqueue_pos + 1); pair = x }
  fill_last =
      ap (node after.cells) (sym (enqueue_slot v))
      ∙ set_cell_self h.cells (slot h h.enqueue_pos) _ (slot_stored v h.enqueue_pos)

  fill_other : (i : ℕ) → i ≤ h.buffer_mask → i ≢ used h → cell after i ≡ cell h i
  fill_other i le ne =
      set_cell_ne h.cells (slot h h.enqueue_pos) ((h.dequeue_pos + i) % capacity h) _ (λ e.
        place_ne h.dequeue_pos i (used h) (capacity h) (omega arith) (omega arith) ne
          (e ∙ enqueue_slot v))

  fill_number : u64 (h.enqueue_pos + 1) ≡ u64 (h.dequeue_pos + used h + 1)
  unfolding used
  fill_number = let e = v.enqueue_u64 in let d = v.dequeue_u64 in omega arith

  fill_counted : after.count ≡ used after
  fill_counted = let c = v.counted in let s = v.small in let u = used-fill v x room in omega arith

  fill_full : (i : ℕ) → i < used after → (cell after i).sequence ≡ u64 (h.dequeue_pos + i + 1)
  fill_full i lt =
      let u = used-fill v x room in
      elim (ℕ_discrete i (used h)) [
        | yes e ↦
            ap (λ j. (cell after j).sequence) e
            ∙ ap (λ (n : Node). n.sequence) fill_last
            ∙ fill_number
            ∙ ap (λ j. u64 (h.dequeue_pos + j + 1)) (sym e)
        | no ne ↦
            ap (λ (n : Node). n.sequence) (fill_other i (omega arith) ne)
            ∙ v.full_cells i (omega arith)
      ]

  fill_free :
      (i : ℕ)
      → used after ≤ i
      → i ≤ h.buffer_mask
      → (cell after i).sequence ≡ u64 (h.dequeue_pos + i)
  fill_free i ge le =
      let u = used-fill v x room in
      ap (λ (n : Node). n.sequence) (fill_other i le (omega arith))
      ∙ v.free_cells i (omega arith) le

  pub fill-IsValid : IsValid after
  fill-IsValid = record {
    pow2 = v.pow2;
    two = v.two;
    small = v.small;
    allocated = v.allocated;
    storage =
        let n = v.storage in
        omega (
          arith,
          length-set h.cells (slot h h.enqueue_pos)
              (record { sequence = u64 (h.enqueue_pos + 1); pair = x }),
        );
    enqueue_u64 = omega arith;
    dequeue_u64 = v.dequeue_u64;
    counted = fill_counted;
    within = let u = used-fill v x room in omega arith;
    full_cells = fill_full;
    free_cells = fill_free;
  }

  pub contents-fill : contents after ≡ fifo (contents h) x
  unfolding contents
  contents-fill =
      ap (pairs after.cells (capacity h) h.dequeue_pos) (used-fill v x room)
      ∙ pairs-snoc after.cells (capacity h) h.dequeue_pos (used h)
      ∙ ap₂ (λ q (n : Node). q ++ n.pair ∷ [])
          (pairs-set_cell h.cells (capacity h) h.dequeue_pos (used h) (slot h h.enqueue_pos) _
            (λ i lt e.
              place_ne h.dequeue_pos i (used h) (capacity h) (omega arith) (omega arith)
                (omega arith) (e ∙ enqueue_slot v)))
          fill_last
