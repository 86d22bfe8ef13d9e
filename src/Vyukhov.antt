-- ===== src/Vyukhov.antt =====
-- include/ds_vyukhov.h: a bounded queue for many producers and consumers, whose cells carry sequence
-- numbers. Each function stands for its `_lkmm` and `_c` variants and the router between them, which
-- differ in memory orders only. Here a call runs by itself; `Threads.antt` has the interleavings. The
-- head is never NULL. `rounds` is how often `can_loop` lets a loop go round. All numbers are `__u64`;
-- a difference of two is an `__s64` as its bit pattern.
pub mod Inv
pub mod Refine
pub mod Insert
pub mod Remove
pub mod Calls
pub mod Cells
pub mod Start
pub mod Threads
mod Tests
use bpf_arena_data_structure.Base.{
  ℕ, zero, suc, ◌+◌, ◌-◌, ◌*◌, ◌/◌, ◌%◌, ◌^◌, Bool, not, ◌||◌, Option, none, some, List, [], ◌∷◌,
  get_or, set, min, bit_and, ltb, leb, ◌==◌, if◌then◌else◌,
}
use bpf_arena_data_structure.Api.{
  DsResult, success, not_found, nomem, invalid, corrupt, busy, Kv, kv, zero_kv, u32, u64, sub_u32,
  sub_u64, Out, Allocator,
}

-- `struct ds_vyukhov_node` (its `data` is `pair`)
pub record Node : Type 0 where
  pub sequence : ℕ
  pub pair : Kv

-- `struct ds_vyukhov_head`, with the nodes that lie wholly in the memory at `buffer` in `cells`.
pub record Head : Type 0 where
  pub enqueue_pos : ℕ
  pub dequeue_pos : ℕ
  pub buffer_mask : ℕ
  pub buffer : ℕ
  pub cells : List Node
  pub count : ℕ

-- `DS_VYUKHOV_MAX_RETRIES`
abbrev pub max_retries : ℕ
max_retries = 100

abbrev pub zero_node : Node
zero_node = record { sequence = 0; pair = zero_kv }

-- An access outside the memory, which `Inv.antt` excludes, reads zeros or changes nothing.
abbrev pub node : List Node → ℕ → Node
node cells i = get_or cells i zero_node

abbrev pub set_cell : List Node → ℕ → Node → List Node
set_cell cells i n = set cells i n

-- Memory read as an array of nodes, of three words of 8 bytes each.
unfoldable pub to_nodes : List ℕ → List Node
to_nodes (s ∷ k ∷ x ∷ words) = record { sequence = s; pair = kv k x } ∷ to_nodes words
to_nodes (s ∷ k ∷ []) = []
to_nodes (s ∷ []) = []
to_nodes [] = []

abbrev pub slot : Head → ℕ → ℕ
slot h pos = bit_and pos h.buffer_mask

-- `(__s64)a - (__s64)b`, and whether it is negative.
abbrev pub negative : ℕ → Bool
negative d = leb (2 ^ 63) d

-- `for (i = ...; i < capacity && can_loop; i++) buffer[i].sequence = i;`
unfoldable pub number_cells : (rounds i capacity : ℕ) → List Node → List Node
number_cells zero i capacity cells = cells
number_cells (suc rounds) i capacity cells =
    let cells' = set_cell cells i (record { sequence = i; pair = (node cells i).pair }) in
    let more = number_cells rounds (i + 1) capacity cells' in if ltb i capacity then more else cells

module _ (a : Allocator) where
  -- `sizeof(struct ds_vyukhov_node)` is 24, and the argument of `bpf_arena_alloc` an `unsigned int`.
  abbrev pub bytes : ℕ → ℕ
  bytes capacity = u32 (capacity * 24)

  unfoldable pub init : ℕ → a.State → Head → ℕ → DsResult × Head × a.State
  init rounds s h capacity =
      if ltb capacity 2 || not (bit_and capacity (sub_u32 capacity 1) == 0)
      then (invalid, h, s)
      else let (buffer, s') = a.alloc s (bytes capacity) in
        let reset = record h {
          buffer_mask = sub_u32 capacity 1;
          enqueue_pos = 0;
          dequeue_pos = 0;
          count = 0;
          buffer = buffer;
          cells = [];
        } in
        if buffer == 0 then (nomem, reset, s') else (
          success,
          record reset {
            cells =
                number_cells rounds 0 capacity (to_nodes (a.words s' buffer (bytes capacity / 8)));
          },
          s',
        )

-- What an insertion that claims `pos` does.
abbrev pub fill : Head → (pos : ℕ) → Kv → Head
fill h pos x = record h {
  enqueue_pos = u64 (pos + 1);
  cells = set_cell h.cells (slot h pos) (record { sequence = u64 (pos + 1); pair = x });
  count = u64 (h.count + 1);
}

unfoldable pub insert_loop : (rounds : ℕ) → Head → (pos key value : ℕ) → DsResult × Head
insert_loop zero h pos key value = (busy, h)
insert_loop (suc rounds) h pos key value =
    let again = insert_loop rounds h h.enqueue_pos key value in
    let dif = sub_u64 (node h.cells (slot h pos)).sequence pos in
    let claim = if h.enqueue_pos == pos then (success, fill h pos (kv key value)) else again in
    if dif == 0 then claim else if negative dif then (nomem, h) else again

unfoldable pub insert : (rounds : ℕ) → Head → (key value : ℕ) → DsResult × Head
insert rounds h key value =
    if h.buffer == 0
    then (invalid, h)
    else insert_loop (min rounds max_retries) h h.enqueue_pos key value

-- What a removal that claims `pos` does to the head.
abbrev pub empty_cell : Head → (pos : ℕ) → Head
empty_cell h pos = record h {
  dequeue_pos = u64 (pos + 1);
  cells = set_cell h.cells (slot h pos) (record {
    sequence = u64 (pos + h.buffer_mask + 1);
    pair = (node h.cells (slot h pos)).pair;
  });
  count = sub_u64 h.count 1;
}

unfoldable pub pop_loop : (rounds : ℕ) → Head → (pos : ℕ) → Kv → DsResult × Head × Kv
pop_loop zero h pos old = (busy, h, old)
pop_loop (suc rounds) h pos old =
    let again = pop_loop rounds h h.dequeue_pos old in
    let cell = node h.cells (slot h pos) in
    let dif = sub_u64 cell.sequence (u64 (pos + 1)) in
    let claim = if h.dequeue_pos == pos then (success, empty_cell h pos, cell.pair) else again in
    if dif == 0 then claim else if negative dif then (not_found, h, old) else again

-- `data` may not be NULL.
unfoldable pub pop : (rounds : ℕ) → Head → Out → DsResult × Head × Out
pop rounds h none = (invalid, h, none)
pop rounds h (some old) =
    let (e, h', x) = pop_loop (min rounds max_retries) h h.dequeue_pos old in
    if h.buffer == 0 then (invalid, h, some old) else (e, h', some x)

unfoldable pub search_loop : (rounds : ℕ) → Head → (i end key : ℕ) → DsResult
search_loop zero h i end key = not_found
search_loop (suc rounds) h i end key =
    let rest = search_loop rounds h (i + 1) end key in
    let found = if (node h.cells (slot h i)).pair.key == key then success else rest in
    if ltb i end then found else not_found

unfoldable pub search : (rounds : ℕ) → Head → (key : ℕ) → DsResult
search rounds h key =
    if h.buffer == 0 then invalid else search_loop rounds h h.dequeue_pos h.enqueue_pos key

unfoldable pub verify : Head → DsResult
verify h =
    let capacity = u64 (h.buffer_mask + 1) in
    if h.buffer == 0
    then corrupt
    else if ltb h.enqueue_pos h.dequeue_pos
    then corrupt
    else if ltb capacity (h.enqueue_pos - h.dequeue_pos)
    then corrupt
    else if ltb capacity h.count
    then corrupt
    else success

-- `fn` is the callback, with the state that `ctx` points to.
module _ {S : Type 0} (fn : ℕ → ℕ → S → ℕ × S) where
  unfoldable pub iterate_loop : (rounds : ℕ) → Head → (i end : ℕ) → S → ℕ × S
  iterate_loop zero h i end s = (0, s)
  iterate_loop (suc rounds) h i end s =
      let x = (node h.cells (slot h i)).pair in
      let (ret, s') = fn x.key x.value s in
      let (n, s'') = iterate_loop rounds h (i + 1) end s' in
      if ltb i end then (if ret == 0 then (n + 1, s'') else (0, s')) else (0, s)

  unfoldable pub iterate : (rounds : ℕ) → Head → S → ℕ × S
  iterate rounds h s =
      if h.buffer == 0 then (0, s) else iterate_loop rounds h h.dequeue_pos h.enqueue_pos s
