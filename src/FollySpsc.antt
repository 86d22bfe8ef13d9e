-- ===== src/FollySpsc.antt =====
-- include/ds_folly_spsc.h: a ring of `size` slots whose indices wrap by comparison, with one slot
-- left empty. Each function stands for its `_lkmm` and `_c` variants and the router between them,
-- which differ in memory orders only. Indices are `__u32`; a write out of the array's range, which
-- `Inv.antt` excludes, changes nothing here. `int` values are kept as bit patterns, with wrap.
pub mod Inv
pub mod Refine
pub mod Threads
pub mod Fifo
mod Tests
use bpf_arena_data_structure.Base.{
  ℕ, ◌+◌, ◌-◌, ◌*◌, ◌/◌, ◌%◌, ◌^◌, Bool, not, ◌||◌, List, get_or, set, ltb, leb, ◌==◌,
  if◌then◌else◌,
}
use bpf_arena_data_structure.Api.{
  DsResult, success, not_found, nomem, invalid, corrupt, full, Kv, kv, zero_kv, sizeof_kv, u32,
  sub_u32, lt_s32, Out, store, Allocator,
}

-- `struct ds_spsc_queue_head`, with the memory that `records` points to in `cells`.
pub record Head : Type 0 where
  pub write_idx : ℕ
  pub read_idx : ℕ
  pub size : ℕ
  pub records : ℕ
  pub cells : List Kv

-- `if (next_record >= head->size) next_record = 0;` after `next_record = index + 1`
unfoldable pub next_record : (size index : ℕ) → ℕ
next_record size index = if leb size (u32 (index + 1)) then 0 else u32 (index + 1)

module _ (a : Allocator) where
  -- The argument of `bpf_arena_alloc` is an `unsigned int`.
  abbrev pub bytes : ℕ → ℕ
  bytes size = u32 (size * sizeof_kv)

  unfoldable pub init : a.State → Head → ℕ → DsResult × Head × a.State
  init s head size =
      if ltb size 2
      then (invalid, head, s)
      else let (records, s') = a.alloc s (bytes size) in
        if records == 0 then (nomem, head, s') else (
          success,
          record {
            write_idx = 0;
            read_idx = 0;
            size = size;
            records = records;
            cells = a.block s' records (bytes size / sizeof_kv);
          },
          s',
        )

unfoldable pub insert : Head → ℕ → ℕ → DsResult × Head
insert head key value =
    let next = next_record head.size head.write_idx in
    if not (next == head.read_idx)
    then (
      success,
      record head { cells = set head.cells head.write_idx (kv key value); write_idx = next },
    )
    else (full, head)

unfoldable pub delete : Head → Out → DsResult × Head × Out
delete head out = if head.read_idx == head.write_idx then (not_found, head, out) else (
  success,
  record head { read_idx = next_record head.size head.read_idx },
  store out (get_or head.cells head.read_idx zero_kv),
)

-- `ds_spsc_pop` is `ds_spsc_delete`.
unfoldable pub pop : Head → Out → DsResult × Head × Out
unfolding delete
pop head out = delete head out

unfoldable pub search : Head → ℕ → DsResult
search head key = invalid

-- `int size = (int)w - (int)r; if (size < 0) size += s;`
unfoldable pub wrapped_size : (r w s : ℕ) → ℕ
wrapped_size r w s = let size = sub_u32 w r in if lt_s32 size 0 then u32 (size + s) else size

unfoldable pub verify : Head → DsResult
unfolding wrapped_size
verify head =
    if leb head.size head.read_idx || leb head.size head.write_idx
    then corrupt
    else if lt_s32 (sub_u32 head.size 1) (wrapped_size head.read_idx head.write_idx head.size)
    then corrupt
    else success

unfoldable pub size : Head → ℕ
unfolding wrapped_size
size head = wrapped_size head.read_idx head.write_idx head.size

unfoldable pub is_empty : Head → Bool
is_empty head = head.read_idx == head.write_idx

unfoldable pub is_full : Head → Bool
unfolding next_record
is_full head = next_record head.size head.write_idx == head.read_idx
