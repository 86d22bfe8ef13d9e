-- ===== src/MsQueue.antt =====
-- include/ds_msqueue.h: a linked queue whose first element is a dummy and whose tail may lag behind. Each
-- function stands for its `_lkmm` and `_c` variants and the router between them, which differ in memory
-- orders, and in the test of `pop` for NULL pointers that only userspace makes (`user`). The queue is
-- never NULL. A call runs by itself; `can_loop` lets a loop go round `rounds` times. An element is known
-- by its address, which is also that of its `node`; casts between address spaces do nothing.
pub mod Inv
pub mod Insert
pub mod Failure
pub mod Remove
pub mod Observe
mod Tests
use bpf_arena_data_structure.Base.{
  ℕ, zero, suc, ◌+◌, ◌-◌, ◌%◌, ◌^◌, Bool, true, false, not, ◌&&◌, ◌||◌, none, some, ltb, leb, ◌==◌,
  if◌then◌else◌,
}
use bpf_arena_data_structure.Api.{
  DsResult, success, not_found, nomem, invalid, corrupt, Kv, kv, u64, sub_u64, Out, Allocator,
}

-- `struct ds_msqueue_elem`: `node.next` is `next`, `data` is `pair`.
pub record Elem : Type 0 where
  pub next : ℕ
  pub pair : Kv

-- `struct ds_msqueue`, with the elements of the arena by their addresses.
pub record Msqueue : Type 0 where
  pub head : ℕ
  pub tail : ℕ
  pub count : ℕ
  pub elems : ℕ → Elem

abbrev pub store_elem : (ℕ → Elem) → ℕ → Elem → ℕ → Elem
store_elem m a e = λ x. if x == a then e else m x

-- The exchange of `queue->tail`.
abbrev pub swing : Msqueue → (tail new : ℕ) → Msqueue
swing q tail new = if q.tail == tail then record q { tail = new } else q

-- A write to `next` of an element.
abbrev pub link : Msqueue → (tail new : ℕ) → Msqueue
link q tail new = record q {
  elems = store_elem q.elems tail (record { next = new; pair = (q.elems tail).pair });
}

-- `max_retries` of the insertion and of the removal
abbrev pub max_retries : ℕ
max_retries = 10

-- The `while` loop: `retry_count` and `tail` when it ends, and the queue.
unfoldable pub add_loop : (rounds retry_count tail : ℕ) → Msqueue → (new_node : ℕ) → ℕ × ℕ × Msqueue
add_loop zero retry_count tail q new_node = (retry_count, tail, q)
add_loop (suc rounds) retry_count old q new_node =
    let tail = q.tail in
    let next = (q.elems tail).next in
    let helped = add_loop rounds (retry_count + 1) tail (swing q tail next) new_node in
    let again = add_loop rounds (retry_count + 1) tail q new_node in
    if ltb retry_count max_retries
    then if not (next == 0)
      then helped
      else if (q.elems tail).next == next
      then (retry_count, tail, link q tail new_node)
      else again
    else (retry_count, old, q)

-- `stray` is what the uninitialised `tail` holds.
unfoldable pub add_node : (rounds stray : ℕ) → Msqueue → (new_node : ℕ) → DsResult × Msqueue
add_node rounds stray q new_node =
    let (retry_count, tail, q') = add_loop rounds 0 stray q new_node in
    if leb max_retries retry_count
    then (invalid, q')
    else (success, swing (record q' { count = u64 (q'.count + 1) }) tail new_node)

abbrev succeeded : DsResult → Bool
succeeded success = true
succeeded _ = false

-- `free` is `bpf_arena_free`.
module _ (a : Allocator) (free : a.State → ℕ → a.State) where
  -- `sizeof(struct ds_msqueue_elem)` is 24.
  unfoldable pub init : a.State → Msqueue → DsResult × Msqueue × a.State
  init s q =
      let (dummy, s') = a.alloc s 24 in
      if dummy == 0 then (nomem, q, s') else (
        success,
        record {
          head = dummy;
          tail = dummy;
          count = 0;
          elems = store_elem q.elems dummy (record { next = 0; pair = kv 420 69 });
        },
        s',
      )

  unfoldable pub insert :
      (rounds stray : ℕ) → a.State → Msqueue → (key value : ℕ) → DsResult × Msqueue × a.State
  insert rounds stray s q key value =
      let (new_node, s') = a.alloc s 24 in
      let q' = record q {
        elems = store_elem q.elems new_node (record { next = 0; pair = kv key value });
      } in
      let (e, q'') = add_node rounds stray q' new_node in
      if new_node == 0
      then (nomem, q, s')
      else if succeeded e
      then (success, q'', s')
      else (invalid, q'', free s' new_node)

  unfoldable pub pop_loop :
      (user : Bool) (rounds retry_count : ℕ)
      → a.State
      → Msqueue
      → Kv
      → DsResult × Msqueue × Kv × a.State
  pop_loop user zero retry_count s q old = (invalid, q, old, s)
  pop_loop user (suc rounds) retry_count s q old =
      let head = q.head in
      let tail = q.tail in
      let next = (q.elems head).next in
      let again = pop_loop user rounds (retry_count + 1) s q old in
      let helped = pop_loop user rounds (retry_count + 1) s (swing q tail next) old in
      let x = (q.elems next).pair in
      let lost = pop_loop user rounds (retry_count + 1) s q x in
      if not (ltb retry_count max_retries) || user && (head == 0 || tail == 0)
      then (invalid, q, old, s)
      else if not (q.head == head)
      then again
      else if next == 0
      then (not_found, q, old, s)
      else if head == tail
      then helped
      else if q.head == head
      then (success, record q { head = next; count = sub_u64 q.count 1 }, x, free s head)
      else lost

  -- `data` may not be NULL.
  unfoldable pub pop :
      (user : Bool) (rounds : ℕ) → a.State → Msqueue → Out → DsResult × Msqueue × Out × a.State
  pop user rounds s q none = (invalid, q, none, s)
  pop user rounds s q (some old) =
      let (e, q', x, s') = pop_loop user rounds 0 s q old in (e, q', some x, s')

unfoldable pub search_loop : (rounds : ℕ) → Msqueue → (next count key : ℕ) → DsResult
search_loop zero q next count key = not_found
search_loop (suc rounds) q next count key =
    let rest = search_loop rounds q (q.elems next).next (count + 1) key in
    if next == 0 || not (ltb count 100000)
    then not_found
    else if (q.elems next).pair.key == key
    then success
    else rest

unfoldable pub search : (rounds : ℕ) → Msqueue → (key : ℕ) → DsResult
search rounds q key = search_loop rounds q (q.elems q.head).next 0 key

-- `count` when the walk ends, and whether the tail was met.
unfoldable pub verify_loop :
    (rounds : ℕ) → Msqueue → (node count : ℕ) (found_tail : Bool) → ℕ × Bool
verify_loop zero q node count found_tail = (count, found_tail)
verify_loop (suc rounds) q node count found_tail =
    let next = (q.elems node).next in
    let counted = if ltb 0 count || not (next == 0) then count + 1 else count in
    let rest = verify_loop rounds q next counted (found_tail || node == q.tail) in
    if node == 0 || not (ltb count 100000) then (count, found_tail) else rest

-- The answer is DS_SUCCESS, or a multiple of DS_ERROR_CORRUPT by the number given.
unfoldable pub verify : (rounds : ℕ) → Msqueue → DsResult × ℕ
verify rounds q =
    let first = (q.elems q.head).next in
    let (walked, found_tail) = verify_loop rounds q first 0 false in
    let count = walked - 1 in
    if q.head == 0 || q.tail == 0
    then (corrupt, 5)
    else if q.head == q.tail && first == 0
    then (success, 0)
    else if not found_tail
    then (corrupt, 2)
    else if ltb (u64 (q.count + 100)) count || ltb (count + 100) q.count
    then (corrupt, 3)
    else if leb 100000 count
    then (corrupt, 4)
    else (success, 0)

-- `fn` is the callback, with the state that `ctx` points to.
module _ {S : Type 0} (fn : ℕ → ℕ → S → ℕ × S) where
  unfoldable pub iterate_loop : (rounds : ℕ) → Msqueue → (node visited : ℕ) → S → ℕ × S
  iterate_loop zero q node visited s = (visited, s)
  iterate_loop (suc rounds) q node visited s =
      let x = (q.elems node).pair in
      let (result, s') = fn x.key x.value s in
      let rest = iterate_loop rounds q (q.elems node).next (visited + 1) s' in
      if node == 0 || not (ltb visited 10)
      then (visited, s)
      else if result == 0
      then rest
      else (visited, s')

  unfoldable pub iterate : (rounds : ℕ) → Msqueue → S → ℕ × S
  iterate rounds q s = iterate_loop rounds q (q.elems q.head).next 0 s
