-- ===== src/Vyukhov/Remove.antt =====
-- A removal keeps a Vyukhov queue valid and takes the first of its pairs.
use bpf_arena_data_structure.Base.{
  ℕ, suc, ◌+◌, ◌%◌, ◌≤◌, ◌<◌, ◌≡◌, ◌∷◌, length-set, arith, ℕ_discrete, ap, ap₂, sym, ◌∙◌,
  mod-eq-sub-mod,
}
use bpf_arena_data_structure.Api.{u64}
use bpf_arena_data_structure.Vyukhov.{node, Node, Head, slot, empty_cell}
use bpf_arena_data_structure.Vyukhov.Inv.{
  slot_stored, IsValid, capacity, used, cell, pairs, contents, slot-eq-mod, u64-mod, u64-add-mod,
  place_ne, set_cell_self, set_cell_ne, pairs-mod, pairs-set_cell,
}
use bpf_arena_data_structure.Vyukhov.Refine.{dequeue_slot, used-empty_cell}

module _ {h : Head} (v : IsValid h) (some_pair : 0 < used h) where
  abbrev after : Head
  after = empty_cell h h.dequeue_pos

  -- The places behind the first one move up.
  shift : (i : ℕ) → (after.dequeue_pos + i) % capacity h ≡ (h.dequeue_pos + suc i) % capacity h
  shift i = u64-add-mod v (h.dequeue_pos + 1) i ∙ ap (λ t. t % capacity h) (omega arith)

  lap : (h.dequeue_pos + capacity h) % capacity h ≡ slot h h.dequeue_pos
  lap = mod-eq-sub-mod (omega arith) ∙ ap (λ i. i % capacity h) (omega arith) ∙ sym (dequeue_slot v)

  empty_cell_last : (cell after h.buffer_mask).sequence ≡ u64 (h.dequeue_pos + h.buffer_mask + 1)
  empty_cell_last =
      ap (λ i. (node after.cells i).sequence)
        (shift h.buffer_mask ∙ ap (λ i. i % capacity h) (omega arith) ∙ lap)
      ∙ ap (λ (n : Node). n.sequence)
          (set_cell_self h.cells (slot h h.dequeue_pos) _ (slot_stored v h.dequeue_pos))

  empty_cell_other : (i : ℕ) → i < h.buffer_mask → cell after i ≡ cell h (suc i)
  empty_cell_other i lt =
      ap (node after.cells) (shift i)
      ∙ set_cell_ne h.cells (slot h h.dequeue_pos) ((h.dequeue_pos + suc i) % capacity h) _ (λ e.
        place_ne h.dequeue_pos (suc i) 0 (capacity h) (omega arith) (omega arith) (omega arith)
          (e ∙ dequeue_slot v))

  empty_cell_counted : after.count ≡ used after
  empty_cell_counted =
      let c = v.counted in
      let s = v.small in let w = v.within in let u = used-empty_cell v some_pair in omega arith

  empty_cell_full :
      (i : ℕ) → i < used after → (cell after i).sequence ≡ u64 (after.dequeue_pos + i + 1)
  empty_cell_full i lt =
      let u = used-empty_cell v some_pair in
      let w = v.within in
      ap (λ (n : Node). n.sequence) (empty_cell_other i (omega arith))
      ∙ v.full_cells (suc i) (omega arith)
      ∙ omega arith

  empty_cell_free :
      (i : ℕ)
      → used after ≤ i
      → i ≤ h.buffer_mask
      → (cell after i).sequence ≡ u64 (after.dequeue_pos + i)
  empty_cell_free i ge le =
      let u = used-empty_cell v some_pair in
      elim (ℕ_discrete i h.buffer_mask) [
        | yes e ↦ ap (λ j. (cell after j).sequence) e ∙ empty_cell_last ∙ omega arith
        | no ne ↦
            ap (λ (n : Node). n.sequence) (empty_cell_other i (omega arith))
            ∙ v.free_cells (suc i) (omega arith) (omega arith)
            ∙ omega arith
      ]

  pub empty_cell-IsValid : IsValid after
  empty_cell-IsValid = record {
    pow2 = v.pow2;
    two = v.two;
    small = v.small;
    allocated = v.allocated;
    storage =
        let n = v.storage in
        omega (
          arith,
          length-set h.cells (slot h h.dequeue_pos) (record {
            sequence = u64 (h.dequeue_pos + h.buffer_mask + 1);
            pair = (node h.cells (slot h h.dequeue_pos)).pair;
          }),
        );
    enqueue_u64 = v.enqueue_u64;
    dequeue_u64 = omega arith;
    counted = empty_cell_counted;
    within = let u = used-empty_cell v some_pair in let w = v.within in omega arith;
    full_cells = empty_cell_full;
    free_cells = empty_cell_free;
  }

  pub contents-empty_cell : contents h ≡ (node h.cells (slot h h.dequeue_pos)).pair ∷ contents after
  unfolding contents pairs
  contents-empty_cell =
      ap (pairs h.cells (capacity h) h.dequeue_pos) (sym (used-empty_cell v some_pair))
      ∙ ap₂ (λ i q. (node h.cells i).pair ∷ q) (sym (slot-eq-mod v h.dequeue_pos))
          (pairs-mod h.cells (capacity h) (suc h.dequeue_pos) after.dequeue_pos (used after)
              (sym (u64-mod v (h.dequeue_pos + 1) ∙ ap (λ i. i % capacity h) (omega arith)))
            ∙ sym (
                pairs-set_cell h.cells (capacity h) after.dequeue_pos (used after)
                  (slot h h.dequeue_pos) _
                  (λ i lt e.
                    let u = used-empty_cell v some_pair in
                    let w = v.within in
                    place_ne h.dequeue_pos (suc i) 0 (capacity h) (omega arith) (omega arith)
                      (omega arith) (sym (shift i) ∙ e ∙ dequeue_slot v))))
