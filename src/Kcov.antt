-- ===== src/Kcov.antt =====
-- include/ds_kcov.h: a flat append buffer. `area[0]` counts the entries, and entry `n` (from 1)
-- lies in the words `2 * n - 1` and `2 * n`. Each function stands for its `_lkmm` and `_c` variants
-- and the router between them, which differ in memory orders only. The head is never tested for
-- NULL. All words are `__u64`; a write out of range, which `Inv.antt` excludes, changes nothing.
pub mod Inv
pub mod Refine
pub mod Writes
pub mod Nested
mod Tests
use bpf_arena_data_structure.Base.{
  ℕ, ◌+◌, ◌-◌, ◌*◌, ◌/◌, ◌%◌, ◌^◌, List, get_or, set, ltb, ◌==◌, if◌then◌else◌,
}
use bpf_arena_data_structure.Api.{
  DsResult, success, not_found, nomem, invalid, corrupt, full, kv, u32, u64, sub_u64, Out, store,
  Allocator,
}

-- `struct ds_kcov_buf`, with the memory that `area` points to in `words`.
pub record Buf : Type 0 where
  pub size : ℕ
  pub area : ℕ
  pub words : List ℕ

-- `KCOV_WORDS_PER_ENTRY`
abbrev pub words_per_entry : ℕ
words_per_entry = 2

-- `area[i]`, read and written
abbrev pub word : Buf → ℕ → ℕ
word b i = get_or b.words i 0

abbrev pub write : Buf → ℕ → ℕ → Buf
write b i w = record b { words = set b.words i w }

-- `1 + (count - 1) * KCOV_WORDS_PER_ENTRY`
unfoldable pub start_index : ℕ → ℕ
start_index count = u64 (1 + sub_u64 count 1 * words_per_entry)

module _ (a : Allocator) where
  -- `(__u32)(size * sizeof(__u64))`
  abbrev pub bytes : ℕ → ℕ
  bytes size = u32 (u64 (size * 8))

  unfoldable pub init : a.State → Buf → ℕ → DsResult × Buf × a.State
  init s b size =
      if ltb size (1 + words_per_entry)
      then (invalid, b, s)
      else let (area, s') = a.alloc s (bytes size) in
        if area == 0 then (nomem, b, s') else (
          success,
          record { size = size; area = area; words = set (a.words s' area (bytes size / 8)) 0 0 },
          s',
        )

-- The count of entries once one more is there, from a read of `area[0]`.
abbrev pub next_count : Buf → ℕ
next_count b = u64 (word b 0 + 1)

unfoldable pub insert : Buf → ℕ → ℕ → DsResult × Buf
insert b key value =
    if b.area == 0
    then (invalid, b)
    else let count = next_count b in
      let start = start_index count in
      if ltb b.size (u64 (start + words_per_entry))
      then (full, b)
      else (success, write (write (write b 0 count) start key) (u64 (start + 1)) value)

unfoldable pub pop : Buf → Out → DsResult × Buf × Out
pop b out =
    if b.area == 0
    then (invalid, b, out)
    else let count = word b 0 in
      let start = start_index count in
      if count == 0 then (not_found, b, out) else (
        success,
        write b 0 (count - 1),
        store out (kv (word b start) (word b (u64 (start + 1)))),
      )

unfoldable pub search : Buf → ℕ → DsResult
search b key = invalid

unfoldable pub verify : Buf → DsResult
verify b =
    if b.area == 0
    then invalid
    else if ltb b.size 1
    then corrupt
    else if ltb ((b.size - 1) / words_per_entry) (word b 0)
    then corrupt
    else success
