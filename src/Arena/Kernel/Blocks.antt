-- ===== src/Arena/Kernel/Blocks.antt =====
-- Where the blocks of the BPF allocator lie, and what becomes of a page whose blocks are freed.
use bpf_arena_data_structure.Base.{
  ℕ, ◌+◌, ◌-◌, ◌*◌, ◌/◌, ◌%◌, ◌^◌, ◌≤◌, ◌<◌, ◌≡◌, refl, arith, ap, ◌∙◌,
}
use bpf_arena_data_structure.Bits.Align.{bit_or-seven}
use bpf_arena_data_structure.Arena.{put, page_of}
use bpf_arena_data_structure.Arena.User.Inv.{page_of-eq}
use bpf_arena_data_structure.Arena.Kernel.{
  page_size, Pages, Frags, round_up, counter, cut, refill_page, alloc, free,
}

pub round_up-eq : (n : ℕ) → 0 < n → n < 2 ^ 31 → round_up n ≡ (n + 7) / 8 * 8
unfolding round_up
round_up-eq n pos small = rw bit_or-seven (omega arith)

-- A page that the kernel gave, made the page of the CPU.
abbrev with_page : Frags → (cpu page : ℕ) → Frags
with_page f cpu page = record {
  cur_page = put f.cur_page cpu page;
  cur_offset = put f.cur_offset cpu (page_size - 8);
  counters = put f.counters (counter page) 0;
}

page_of_in :
    (page a : ℕ)
    → page % 4096 ≡ 0
    → page ≤ a
    → a < page + 4096
    → page + 4096 < 2 ^ 64
    → page_of page_size a ≡ page
page_of_in page a aligned above below high =
    page_of-eq page_size a (12, refl) (omega arith) (omega arith) (omega arith) ∙ omega arith

free-last :
    (p : Pages) (s : p.State) (f : Frags) (a page : ℕ)
    → page_of page_size a ≡ page
    → f.counters (counter page) ≡ 1
    → ((free p s f a).1 ≡ p.free_page s page) × ((free p s f a).0.cur_page ≡ f.cur_page)
unfolding free
free-last p s f a page same one = rw same (ground arith, refl)

module _ (p : Pages) (s : p.State) (f : Frags) (cpu n : ℕ) where
  -- With room in the page of the CPU, for a page and an offset that are multiples of 8, the block of
  -- the BPF allocator is a multiple of 8 and lies in the free part of the page, before its counter.
  pub kernel_alloc_room :
      0 < n
      → n < 2 ^ 31
      → 0 < f.cur_page cpu
      → f.cur_page cpu + 4096 < 2 ^ 64
      → f.cur_page cpu % 8 ≡ 0
      → f.cur_offset cpu % 8 ≡ 0
      → f.cur_offset cpu + 8 ≤ page_size
      → n ≤ f.cur_offset cpu
      → n < page_size - 15
      → let (a, f', s') = alloc p s f cpu n in
        (a % 8 ≡ 0)
        × (f.cur_page cpu ≤ a)
        × (a + n ≤ f.cur_page cpu + f.cur_offset cpu)
        × (a ≡ f.cur_page cpu + f'.cur_offset cpu)
  unfolding alloc cut put
  kernel_alloc_room pos small page high words offset room le fits =
      let r = (n + 7) / 8 * 8 in rw (round_up-eq n pos small) (ground arith)

  -- With too little room in the page of the CPU there is no refill: the block of the BPF allocator
  -- begins below the page, and no page is asked for.
  pub kernel_alloc_overrun :
      0 < n
      → n < page_size - 15
      → f.cur_offset cpu < (n + 7) / 8 * 8
      → 4096 ≤ f.cur_page cpu
      → f.cur_page cpu + 4096 < 2 ^ 64
      → let (a, f', s') = alloc p s f cpu n in
        (a + (n + 7) / 8 * 8 ≡ f.cur_page cpu + f.cur_offset cpu)
        × (a < f.cur_page cpu)
        × (f'.cur_page cpu ≡ f.cur_page cpu)
        × (s' ≡ s)
  unfolding alloc cut
  kernel_alloc_overrun pos fits short page high =
      rw (round_up-eq n pos (omega arith)) (ground arith)

  -- The first block of a page that the kernel gave, and what it leaves.
  alloc-first :
      0 < n
      → n < page_size - 15
      → f.cur_page cpu ≡ 0
      → let (page, s') = p.alloc_page s in
        0 < page
        → let (a, f') = cut (with_page f cpu page) cpu page ((n + 7) / 8 * 8) in
          alloc p s f cpu n ≡ (a, f', s')
  unfolding alloc refill_page
  alloc-first pos fits none got = rw (round_up-eq n pos (omega arith)) (ground arith)

  cut-first :
      (page r : ℕ)
      → page + 4096 < 2 ^ 64
      → 0 < r
      → r ≤ page_size - 8
      → let (a, f') = cut (with_page f cpu page) cpu page r in
        (page ≤ a) × (a < page + 4096) × (f'.counters (counter page) ≡ 1) × (f'.cur_page cpu ≡ page)
  unfolding cut put
  cut-first page r high pos le = ground arith

  -- A CPU without a page is given one for its first block. Freeing that block hands the page back to
  -- the kernel, and yet it stays the page of the CPU.
  pub kernel_free_current :
      0 < n
      → n < page_size - 15
      → f.cur_page cpu ≡ 0
      → let page = (p.alloc_page s).0 in
        0 < page
        → page % 4096 ≡ 0
        → page + 4096 < 2 ^ 64
        → let (a, f', s') = alloc p s f cpu n in
          let (f'', s'') = free p s' f' a in (s'' ≡ p.free_page s' page) × (f''.cur_page cpu ≡ page)
  kernel_free_current pos fits none got aligned high =
      let (page, s') = p.alloc_page s in
      let r = (n + 7) / 8 * 8 in
      let (a, f') = cut (with_page f cpu page) cpu page r in
      let (above, below, one, own) = cut-first page r high (omega arith) (omega arith) in
      let (freed, kept) =
        free-last p s' f' a page (page_of_in page a aligned above below high) one in
      rw (alloc-first pos fits none got) (freed, ap (λ c. c cpu) kept ∙ own)
