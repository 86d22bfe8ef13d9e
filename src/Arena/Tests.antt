-- ===== src/Arena/Tests.antt =====
-- Runs of the allocators on small inputs, and their theorems at such inputs.
use bpf_arena_data_structure.Base.{ℕ, ◌+◌, ◌%◌, ◌≤◌, ◌<◌, ◌≡◌, refl, ◌≢◌, ◌⊎◌, inr, [], ◌∷◌, arith}
use bpf_arena_data_structure.Arena.{round_up_8, page_of}
use bpf_arena_data_structure.Arena.User
use bpf_arena_data_structure.Arena.User.{
  Heap, counter, set_range, take, open_page, page_size_or_default,
}
use bpf_arena_data_structure.Arena.User.Inv.{IsValid}
use bpf_arena_data_structure.Arena.User.Blocks.{
  blocks, AllDisjoint, user_alloc_block, user_blocks_disjoint,
}
use bpf_arena_data_structure.Arena.User.Range.{user_set_range-IsValid}
use bpf_arena_data_structure.Arena.User.Free.{user_free_own_page}
use bpf_arena_data_structure.Arena.Kernel
use bpf_arena_data_structure.Arena.Kernel.{Pages, Frags}
use bpf_arena_data_structure.Arena.Kernel.Blocks.{
  kernel_alloc_room, kernel_alloc_overrun, kernel_free_current,
}

-- Two pages, the first one open, with 16 bytes free in it.
abbrev heap : Heap
heap = record {
  base = 65536;
  size = 8192;
  page_size = 4096;
  next_page_off = 4096;
  cur_page = 65536;
  cur_offset = 16;
  counters = λ _. 3;
}

heap-IsValid : IsValid heap
heap-IsValid = record {
  pow2 = (12, refl);
  at_least = omega arith;
  small = omega arith;
  page_words = refl;
  based = omega arith;
  base_page = refl;
  base_words = refl;
  within = omega arith;
  next_page = refl;
  next_words = refl;
  next_in = omega arith;
  room = omega arith;
  room_words = refl;
  current = inr (refl, omega arith);
}

-- 20 bytes do not fit the open page; 8 then come from the second page; 5000 are refused.
blocks-heap : blocks heap (20 ∷ 8 ∷ 5000 ∷ []) ≡ (73696, 20) ∷ (73688, 8) ∷ []
unfolding blocks User.alloc take open_page round_up_8
blocks-heap = refl

alloc-heap : (User.alloc heap 20).0 ≡ 73696
unfolding User.alloc take open_page round_up_8
alloc-heap = refl

alloc-heap-ne : (User.alloc heap 20).0 ≢ 0
alloc-heap-ne e = omega (arith, alloc-heap, e)

user_alloc_block_example :
    let (p, h') = User.alloc heap 20 in
    (p % 8 ≡ 0)
    × (h'.cur_page ≤ p)
    × (p + 20 + 8 ≤ h'.cur_page + h'.page_size)
    × (heap.base ≤ h'.cur_page)
    × (h'.cur_page + h'.page_size ≤ heap.base + heap.size)
    × IsValid h'
user_alloc_block_example = user_alloc_block heap 20 heap-IsValid (omega arith) alloc-heap-ne

user_blocks_disjoint_example : AllDisjoint (blocks heap (20 ∷ 8 ∷ 5000 ∷ []))
user_blocks_disjoint_example = user_blocks_disjoint heap (20 ∷ 8 ∷ 5000 ∷ []) heap-IsValid

set_range-heap : (set_range 4096 heap 65000 20000).size ≡ 16384
unfolding set_range page_size_or_default page_of
set_range-heap = refl

user_set_range-IsValid_example :
    let h' = set_range 4096 heap 65000 20000 in
    ((h'.base ≡ 0) × (h'.size ≡ 0)) ⊎ (IsValid h' × (65000 ≤ h'.base) × (h'.base + h'.size ≤ 85000))
user_set_range-IsValid_example =
    user_set_range-IsValid 4096 heap 65000 20000 (12, refl) (omega arith) (omega arith)
      (omega arith) (omega arith)

user_free_own_page_example :
    let (p, h') = User.alloc heap 20 in
    let at = counter h' h'.cur_page in (User.free h' p).counters at + 1 ≡ h'.counters at
user_free_own_page_example =
    user_free_own_page heap 20 heap-IsValid (omega arith) alloc-heap-ne (λ _. omega arith)

-- A kernel that hands out one page after another.
abbrev pages : Pages
pages = record { State = ℕ; alloc_page = λ s. (s, s + 4096); free_page = λ s a. s }

-- Each CPU has 16 bytes free in a page at 65536.
abbrev frags : Frags
frags = record { cur_page = λ _. 65536; cur_offset = λ _. 16; counters = λ _. 3 }

kernel_alloc_room_example :
    let (a, f', s') = Kernel.alloc pages 131072 frags 0 10 in
    (a % 8 ≡ 0) × (65536 ≤ a) × (a + 10 ≤ 65536 + 16) × (a ≡ 65536 + f'.cur_offset 0)
kernel_alloc_room_example =
    kernel_alloc_room pages 131072 frags 0 10 (omega arith) (omega arith) (omega arith)
      (omega arith) refl refl (omega arith) (omega arith) (omega arith)

kernel_alloc_overrun_example :
    let (a, f', s') = Kernel.alloc pages 131072 frags 0 20 in
    (a + 24 ≡ 65536 + 16) × (a < 65536) × (f'.cur_page 0 ≡ 65536) × (s' ≡ 131072)
kernel_alloc_overrun_example =
    kernel_alloc_overrun pages 131072 frags 0 20 (omega arith) (omega arith) (omega arith)
      (omega arith) (omega arith)

-- CPU 0 has no page.
abbrev no_page : Frags
no_page = record { cur_page = λ _. 0; cur_offset = λ _. 0; counters = λ _. 3 }

kernel_free_current_example :
    let (a, f', s') = Kernel.alloc pages 131072 no_page 0 20 in
    let (f'', s'') = Kernel.free pages s' f' a in (s'' ≡ s') × (f''.cur_page 0 ≡ 131072)
kernel_free_current_example =
    kernel_free_current pages 131072 no_page 0 20 (omega arith) (omega arith) refl (omega arith)
      refl (omega arith)
