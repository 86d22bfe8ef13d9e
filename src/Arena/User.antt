-- ===== src/Arena/User.antt =====
-- include/libarena_ds.h, userspace: a range of pages, of which the last one that was opened is the
-- current one. The spin lock around an allocation makes it one step, and is left out.
pub mod Inv
pub mod Blocks
pub mod Range
pub mod Free
use bpf_arena_data_structure.Base.{ℕ, ◌+◌, ◌-◌, ◌%◌, ◌^◌, ◌||◌, ltb, leb, ◌==◌, if◌then◌else◌}
use bpf_arena_data_structure.Api.{u64, sub_u64}
use bpf_arena_data_structure.Arena.{Counters, put, round_up_8, page_of}

-- The static variables `bpf_arena_userspace_*`, and the counters in the pages.
pub record Heap : Type 0 where
  pub base : ℕ
  pub size : ℕ
  pub page_size : ℕ
  pub next_page_off : ℕ
  pub cur_page : ℕ
  pub cur_offset : ℕ
  pub counters : Counters

-- `page_sz` is what `sysconf(_SC_PAGESIZE)` answers, a `long` as its bit pattern.
unfoldable pub page_size_or_default : ℕ → ℕ
page_size_or_default page_sz = if page_sz == 0 || leb (2 ^ 63) page_sz then 4096 else page_sz

unfoldable pub set_range : (page_sz : ℕ) → Heap → (base size : ℕ) → Heap
set_range page_sz h base size =
    let page_size = page_size_or_default page_sz in
    let aligned_start = page_of page_size (sub_u64 (u64 (base + page_size)) 1) in
    if base == 0 || size == 0 || leb (u64 (base + size)) aligned_start
    then record h {
      page_size = page_size;
      base = 0;
      size = 0;
      next_page_off = 0;
      cur_page = 0;
      cur_offset = 0;
    }
    else record h {
      page_size = page_size;
      base = aligned_start;
      size = page_of page_size (sub_u64 size (sub_u64 aligned_start base));
      next_page_off = 0;
      cur_page = 0;
      cur_offset = 0;
    }

-- The address of the counter of a page.
abbrev pub counter : Heap → ℕ → ℕ
counter h page = sub_u64 (u64 (page + h.page_size)) 8

-- The part of an allocation after the current page was found to have room.
unfoldable pub take : Heap → (aligned : ℕ) → ℕ × Heap
take h aligned =
    let offset = sub_u64 h.cur_offset aligned in
    let at = counter h h.cur_page in
    (
      u64 (h.cur_page + offset),
      record h { cur_offset = offset; counters = put h.counters at (u64 (h.counters at + 1)) },
    )

-- The part that opens the next page.
unfoldable pub open_page : Heap → Heap
open_page h =
    let page = u64 (h.base + h.next_page_off) in
    record h {
      next_page_off = u64 (h.next_page_off + h.page_size);
      cur_page = page;
      cur_offset = sub_u64 h.page_size 8;
      counters = put h.counters (counter h page) 0;
    }

unfoldable pub alloc : Heap → ℕ → ℕ × Heap
alloc h size =
    if h.base == 0 || h.size == 0 || h.page_size == 0
    then (0, h)
    else let aligned = round_up_8 size in
      if aligned == 0 || leb (sub_u64 h.page_size 8) aligned
      then (0, h)
      else if h.cur_page == 0 || ltb h.cur_offset aligned
      then if ltb h.size h.next_page_off || ltb (sub_u64 h.size h.next_page_off) h.page_size
        then (0, h)
        else take (open_page h) aligned
      else take h aligned

unfoldable pub free : Heap → ℕ → Heap
free h address =
    if address == 0 || h.page_size == 0
    then h
    else let at = counter h (page_of h.page_size address) in
      if ltb 0 (h.counters at)
      then record h { counters = put h.counters at (h.counters at - 1) }
      else h
