-- ===== src/Arena/Kernel.antt =====
-- include/libarena_ds.h, BPF side: each CPU cuts objects from its own page. `bpf_arena_alloc_pages`
-- is a kernel function, and `cpu` is what `bpf_get_smp_processor_id` answers.
pub mod Blocks
use bpf_arena_data_structure.Base.{
  ℕ, ◌+◌, ◌-◌, ◌*◌, ◌/◌, ◌%◌, ◌^◌, ◌≤◌, ◌<◌, ◌≡◌, ◌≢◌, arith, bit_or, ltb, leb, ◌||◌, ◌==◌,
  if◌then◌else◌, ap, ◌∙◌,
}
use bpf_arena_data_structure.Api.{u32, u64, sub_u32, sub_u64}
use bpf_arena_data_structure.Arena.{Counters, put, page_of}

-- `__PAGE_SIZE`
abbrev pub page_size : ℕ
page_size = 4096

-- The pages of the kernel: one that it gives (0 if there is none), and one that it takes back.
pub record Pages : Type 1 where
  pub State : Type 0
  pub alloc_page : State → ℕ × State
  pub free_page : State → ℕ → State

-- `page_frag_cur_page` and `page_frag_cur_offset` (an `int` as its bit pattern), and the counters.
pub record Frags : Type 0 where
  pub cur_page : ℕ → ℕ
  pub cur_offset : ℕ → ℕ
  pub counters : Counters

-- `round_up(size, 8)` on `unsigned int`
unfoldable pub round_up : ℕ → ℕ
round_up n = u32 (bit_or (sub_u32 n 1) 7 + 1)

-- An `int` converted to 64 bits.
abbrev pub sign_extend : ℕ → ℕ
sign_extend n = if ltb n (2 ^ 31) then n else n + (2 ^ 64 - 2 ^ 32)

-- The address of the counter of a page.
abbrev pub counter : ℕ → ℕ
counter page = sub_u64 (u64 (page + page_size)) 8

-- The last part of `bpf_arena_alloc`.
unfoldable pub cut : Frags → (cpu page size : ℕ) → ℕ × Frags
cut f cpu page size =
    let offset = sub_u32 (f.cur_offset cpu) size in
    let at = counter page in
    (
      u64 (page + sign_extend offset),
      record f {
        cur_offset = put f.cur_offset cpu offset;
        counters = put f.counters at (u64 (f.counters at + 1));
      },
    )

module _ (p : Pages) where
  unfoldable pub refill_page : p.State → Frags → (cpu : ℕ) → ℕ × Frags × p.State
  refill_page s f cpu =
      let (page, s') = p.alloc_page s in
      if page == 0 then (0, f, s') else (
        page,
        record {
          cur_page = put f.cur_page cpu page;
          cur_offset = put f.cur_offset cpu (page_size - 8);
          counters = put f.counters (counter page) 0;
        },
        s',
      )

  -- `*cur_offset - size < 0` compares an `unsigned int`, to which the `int` is converted.
  unfoldable pub alloc : p.State → Frags → (cpu size : ℕ) → ℕ × Frags × p.State
  alloc s f cpu size =
      let rounded = round_up size in
      let page = f.cur_page cpu in
      if leb (page_size - 8) rounded
      then (0, f, s)
      else if page == 0 || ltb (sub_u32 (f.cur_offset cpu) rounded) 0
      then (let (fresh, f', s') = refill_page s f cpu in
          if fresh == 0
          then (0, f', s')
          else let (a, f'') = cut f' cpu fresh rounded in (a, f'', s'))
      else let (a, f') = cut f cpu page rounded in (a, f', s)

  unfoldable pub free : p.State → Frags → (address : ℕ) → Frags × p.State
  free s f address =
      let page = page_of page_size address in
      let at = counter page in
      let left = sub_u64 (f.counters at) 1 in
      (record f { counters = put f.counters at left }, if left == 0 then p.free_page s page else s)
