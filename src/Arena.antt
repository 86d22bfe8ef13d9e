-- ===== src/Arena.antt =====
-- include/libarena_ds.h: the two allocators of the arena. Both cut objects from the end of a page
-- towards its start and count the live objects of a page in its last 8 bytes. Addresses and
-- `size_t` are numbers below 2^64, with wrap.
pub mod User
pub mod Kernel
mod Tests
use bpf_arena_data_structure.Base.{ℕ, ◌+◌, ◌-◌, ◌%◌, ◌^◌, bit_or, bit_and, ◌==◌, if◌then◌else◌}
use bpf_arena_data_structure.Api.{u64, sub_u64}

-- The counters of live objects, by their addresses.
abbrev pub Counters : Type 0
Counters = ℕ → ℕ

unfoldable pub put : Counters → ℕ → ℕ → Counters
put c a n = λ x. if x == a then n else c x

-- `round_up((size_t)size, 8)`
unfoldable pub round_up_8 : ℕ → ℕ
round_up_8 n = u64 (bit_or (sub_u64 n 1) 7 + 1)

-- `address & ~(page_size - 1)`
unfoldable pub page_of : (page_size address : ℕ) → ℕ
page_of page_size address = bit_and address (sub_u64 0 page_size)
