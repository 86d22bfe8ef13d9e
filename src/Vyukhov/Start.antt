-- ===== src/Vyukhov/Start.antt =====
-- `ds_vyukhov_init`, `ds_vyukhov_search` and `ds_vyukhov_verify` on queues that no other call uses.
use bpf_arena_data_structure.Base.{
  ℕ, zero, suc, ◌+◌, ◌-◌, ◌*◌, ◌%◌, ◌^◌, ◌≤◌, ◌<◌, ◌≡◌, refl, ◌≢◌, false, List, [], ◌==◌, arith,
  ltb, ◌/◌, mod-eq_of_lt, subst, length, ap, ap₂, sym, ◌∙◌, bit_and,
}
use bpf_arena_data_structure.Bits.{IsPow2, IsPow2-iff}
use bpf_arena_data_structure.Api.{success, sub_u32, Allocator}
use bpf_arena_data_structure.Api.Queue.{find}
use bpf_arena_data_structure.Vyukhov.{
  Node, Head, node, to_nodes, number_cells, init, search_loop, search, verify,
}
use bpf_arena_data_structure.Vyukhov.Cells.{
  length-to_nodes, to_nodes_few, length-number_cells, number_cells_at,
}
use bpf_arena_data_structure.Vyukhov.Inv.{
  IsValid, used, pairs, contents, slot-eq-mod, length-contents,
}

-- A head after the initialisation.
abbrev fresh : Head → (mask buffer : ℕ) → List Node → Head
fresh h mask buffer cells = record h {
  buffer_mask = mask;
  enqueue_pos = 0;
  dequeue_pos = 0;
  count = 0;
  buffer = buffer;
  cells = cells;
}

fresh-IsValid :
    (h : Head) (rounds capacity buffer : ℕ) (cells : List Node)
    → capacity ≤ length cells
    → capacity < 2 ^ 32
    → 2 ≤ capacity
    → IsPow2 capacity
    → capacity ≤ rounds
    → buffer ≢ 0
    → IsValid (fresh h (capacity - 1) buffer (number_cells rounds 0 capacity cells))
unfolding used
fresh-IsValid h rounds capacity buffer cells stored small two p2 enough got =
    let same : capacity - 1 + 1 ≡ capacity = omega arith in
    let place : (i : ℕ) → i < capacity → (0 + i) % (capacity - 1 + 1) ≡ i =
      λ i lt. mod-eq_of_lt (omega arith) ∙ omega arith in
    record {
      pow2 = subst IsPow2 (sym same) p2;
      two = omega arith;
      small = omega arith;
      allocated = got;
      storage = omega (arith, length-number_cells rounds 0 capacity cells);
      enqueue_u64 = omega arith;
      dequeue_u64 = omega arith;
      counted = refl;
      within = omega arith;
      full_cells = λ i lt. absurd (omega arith);
      free_cells = λ i ge le.
          ap (λ j. (node (number_cells rounds 0 capacity cells) j).sequence) (place i (omega arith))
          ∙ number_cells_at rounds 0 capacity cells i (omega arith) (omega arith) (omega arith)
              stored
          ∙ omega arith;
    }

module _ (a : Allocator) (rounds : ℕ) (s : a.State) (h : Head) (capacity : ℕ)
    (small : capacity < 2 ^ 32) (two : 2 ≤ capacity) (p2 : IsPow2 capacity) where
  -- The memory that `ds_vyukhov_init` requests, and the nodes in it.
  abbrev granted : ℕ × a.State
  granted = a.alloc s ((capacity * 24) % 2 ^ 32)

  abbrev memory : List Node
  memory = to_nodes (a.words granted.1 granted.0 ((capacity * 24) % 2 ^ 32 / 8))

  init-fresh :
      granted.0 ≢ 0
      → init a rounds s h capacity ≡ (
        success,
        fresh h (capacity - 1) granted.0 (number_cells rounds 0 capacity memory),
        granted.1,
      )
  unfolding init
  init-fresh got =
      let guard : bit_and capacity (capacity - 1) ≡ 0 = (IsPow2-iff capacity (omega arith)).1 p2 in
      let mask : sub_u32 capacity 1 ≡ capacity - 1 = omega arith in
      let found : (granted.0 == 0) ≡ false = ground arith in
      let enough : ltb capacity 2 ≡ false = ground arith in rw (enough, mask, guard, found) refl

  -- `ds_vyukhov_init` accepts a capacity that is a power of two from 2 on, whose byte count fits 32 bits,
  -- if it gets its memory, and then leaves a valid, empty queue for that many pairs, all of whose cells
  -- lie in that memory, if `can_loop` lets it number every cell.
  pub vyukhov_init-IsValid :
      capacity ≤ rounds
      → capacity * 24 < 2 ^ 32
      → granted.0 ≢ 0
      → let (e, h', _) = init a rounds s h capacity in
        (e ≡ success)
        × IsValid h'
        × (contents h' ≡ [])
        × (h'.buffer_mask + 1 ≡ capacity)
        × (length h'.cells ≡ capacity)
  unfolding contents used pairs
  vyukhov_init-IsValid enough fits got =
      let sized : (capacity * 24) % 2 ^ 32 / 8 ≡ capacity * 3 = omega arith in
      let stored : length memory ≡ capacity =
        length-to_nodes capacity _ (a.length-words granted.1 granted.0 _ ∙ sized) in
      rw (init-fresh got) (
        refl,
        fresh-IsValid h rounds capacity granted.0 memory (omega arith) small two p2 enough got,
        refl,
        omega arith,
        length-number_cells rounds 0 capacity memory ∙ stored,
      )

  -- From a capacity of 2^28 on the byte count is cut to 32 bits: `ds_vyukhov_init` accepts the memory
  -- that it gets, which has room for fewer cells than the capacity, and leaves no valid queue.
  vyukhov_init_overrun :
      2 ^ 28 ≤ capacity
      → granted.0 ≢ 0
      → let (e, h', _) = init a rounds s h capacity in
        (e ≡ success) × (length h'.cells < capacity) × ¬ (IsValid h')
  vyukhov_init_overrun large got =
      let few = to_nodes_few (a.words granted.1 granted.0 ((capacity * 24) % 2 ^ 32 / 8)) in
      let n = a.length-words granted.1 granted.0 ((capacity * 24) % 2 ^ 32 / 8) in
      let m = length-number_cells rounds 0 capacity memory in
      rw (init-fresh got) (refl, omega arith, λ v. let stored = v.storage in omega arith)

-- The loop of `ds_vyukhov_search` over `n` positions.
search_loop-find :
    (rounds : ℕ) {h : Head} (v : IsValid h) (i n key : ℕ)
    → n ≤ rounds
    → search_loop rounds h i (i + n) key ≡ find (pairs h.cells (h.buffer_mask + 1) i n) key
unfolding search_loop pairs find
search_loop-find zero v i zero key le = refl
search_loop-find zero v i (suc n) key le = absurd (omega arith)
search_loop-find (suc rounds) v i zero key le = ground arith
search_loop-find (suc rounds) {h = h} v i (suc n) key le =
    let ih : search_loop rounds h (i + 1) (i + suc n) key
        ≡ find (pairs h.cells (h.buffer_mask + 1) (suc i) n) key =
      ap₂ (λ j e. search_loop rounds h j e key) (omega arith) (omega arith)
      ∙ search_loop-find rounds v (suc i) n key (omega arith) in
    let at = slot-eq-mod v i in rw at (ground arith)

used_of_order :
    {h : Head} (v : IsValid h)
    → h.dequeue_pos ≤ h.enqueue_pos
    → h.enqueue_pos ≡ h.dequeue_pos + used h
unfolding used
used_of_order v le = let e = v.enqueue_u64 in omega arith

-- In a valid queue whose positions have not wrapped, `ds_vyukhov_search` finds exactly the keys held, if
-- `can_loop` allows a round for each pair, and `ds_vyukhov_verify` accepts.
pub vyukhov_observers :
    (rounds : ℕ) (h : Head) (key : ℕ)
    → IsValid h
    → h.dequeue_pos ≤ h.enqueue_pos
    → length (contents h) ≤ rounds
    → (search rounds h key ≡ find (contents h) key) × (verify h ≡ success)
unfolding search verify contents
vyukhov_observers rounds h key v le enough =
    let end : h.enqueue_pos ≡ h.dequeue_pos + used h = used_of_order v le in
    let loop : search_loop rounds h h.dequeue_pos h.enqueue_pos key ≡ find (contents h) key =
      ap (λ e. search_loop rounds h h.dequeue_pos e key) end
      ∙ search_loop-find rounds v h.dequeue_pos (used h) key (omega (arith, length-contents h)) in
    (ground arith, ground arith)
