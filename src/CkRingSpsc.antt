-- ===== src/CkRingSpsc.antt =====
-- include/ds_ck_ring_spsc.h: a ring of a power of two slots with masked indices, one slot empty.
-- Each function stands for its `_lkmm` and `_c` variants and the router between them, which differ
-- in memory orders only. A function takes `none` for a NULL head; the ones named `_at` are the rest
-- of the body, after that test. Indices are `__u32`; a write out of the array's range, which
-- `Inv.antt` excludes, changes nothing here.
pub mod Inv
pub mod Refine
mod Tests
use bpf_arena_data_structure.Base.{
  ℕ, ◌+◌, ◌-◌, ◌*◌, ◌/◌, ◌%◌, ◌^◌, Bool, not, ◌&&◌, List, Option, none, some, get_or, set, bit_and,
  leb, ltb, ◌==◌, if◌then◌else◌,
}
use bpf_arena_data_structure.Api.{
  DsResult, success, not_found, nomem, invalid, corrupt, full, Kv, kv, zero_kv, sizeof_kv, u32,
  sub_u32, Out, store, Allocator,
}

-- `struct ds_ck_ring_spsc_head`, with the memory that `slots` points to in `cells`.
pub record Head : Type 0 where
  pub capacity : ℕ
  pub mask : ℕ
  pub c_head : ℕ
  pub p_tail : ℕ
  pub slots : ℕ
  pub cells : List Kv

unfoldable pub is_power_of_two : ℕ → Bool
is_power_of_two value = leb 2 value && (bit_and value (sub_u32 value 1) == 0)

-- `(index + 1) & head->mask`
unfoldable pub next_index : Head → ℕ → ℕ
next_index head index = bit_and (u32 (index + 1)) head.mask

module _ (a : Allocator) where
  -- The argument of `bpf_arena_alloc` is an `unsigned int`.
  abbrev pub bytes : ℕ → ℕ
  bytes capacity = u32 (capacity * sizeof_kv)

  unfoldable pub init_at : a.State → Head → ℕ → DsResult × Head × a.State
  init_at s head capacity =
      if not (is_power_of_two capacity)
      then (invalid, head, s)
      else let (slots, s') = a.alloc s (bytes capacity) in
        if slots == 0 then (nomem, head, s') else (
          success,
          record {
            capacity = capacity;
            mask = sub_u32 capacity 1;
            c_head = 0;
            p_tail = 0;
            slots = slots;
            cells = a.block s' slots (bytes capacity / sizeof_kv);
          },
          s',
        )

  unfoldable pub init : a.State → Option Head → ℕ → DsResult × Option Head × a.State
  init s none capacity = (invalid, none, s)
  init s (some head) capacity = let (e, head', s') = init_at s head capacity in (e, some head', s')

unfoldable pub insert_at : Head → ℕ → ℕ → DsResult × Head
insert_at head key value =
    if head.slots == 0
    then (invalid, head)
    else let next = next_index head head.p_tail in
      if next == head.c_head then (full, head) else (
        success,
        record head { cells = set head.cells head.p_tail (kv key value); p_tail = next },
      )

unfoldable pub insert : Option Head → ℕ → ℕ → DsResult × Option Head
insert none key value = (invalid, none)
insert (some head) key value = let (e, head') = insert_at head key value in (e, some head')

unfoldable pub delete_at : Head → Out → DsResult × Head × Out
delete_at head out =
    if head.slots == 0
    then (invalid, head, out)
    else if head.c_head == head.p_tail
    then (not_found, head, out)
    else (
      success,
      record head { c_head = next_index head head.c_head },
      store out (get_or head.cells head.c_head zero_kv),
    )

unfoldable pub delete : Option Head → Out → DsResult × Option Head × Out
delete none out = (invalid, none, out)
delete (some head) out = let (e, head', out') = delete_at head out in (e, some head', out')

-- `ds_ck_ring_spsc_pop` is `ds_ck_ring_spsc_delete`.
unfoldable pub pop : Option Head → Out → DsResult × Option Head × Out
unfolding delete
pop head out = delete head out

unfoldable pub search : Option Head → ℕ → DsResult
search head key = invalid

-- The observers below do not test for NULL.
unfoldable pub size : Head → ℕ
size head = bit_and (sub_u32 head.p_tail head.c_head) head.mask

unfoldable pub is_empty : Head → Bool
is_empty head = head.c_head == head.p_tail

unfoldable pub is_full : Head → Bool
is_full head = next_index head head.p_tail == head.c_head

unfoldable pub verify_at : Head → DsResult
verify_at head =
    if head.slots == 0
    then corrupt
    else if not (is_power_of_two head.capacity)
    then corrupt
    else if not (head.mask == sub_u32 head.capacity 1)
    then corrupt
    else if not (bit_and head.c_head head.mask == head.c_head)
    then corrupt
    else if not (bit_and head.p_tail head.mask == head.p_tail)
    then corrupt
    else if ltb head.mask (size head)
    then corrupt
    else success

unfoldable pub verify : Option Head → DsResult
verify none = invalid
verify (some head) = verify_at head
