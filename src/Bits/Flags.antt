-- ===== src/Bits/Flags.antt =====
-- Setting and clearing the lowest bit of a `__u32`.
use bpf_arena_data_structure.Base.{ℕ, ◌+◌, ◌-◌, ◌*◌, ◌/◌, ◌^◌, ◌<◌, bit_and, bit_or, ◌≡◌, arith}
use bpf_arena_data_structure.Bits.Step.{bit_and_step, bit_or_step, units}
use bpf_arena_data_structure.Bits.{bit_and-mask}

-- `flags | 1`
pub bit_or-one : (a : ℕ) → bit_or a 1 ≡ a / 2 * 2 + 1
bit_or-one a = omega (arith, bit_or_step a 1, (units (a / 2)).1)

-- `flags & ~1`
pub bit_and-not_one : (a : ℕ) → a < 2 ^ 32 → bit_and a (2 ^ 32 - 2) ≡ a / 2 * 2
bit_and-not_one a lt = omega (arith, bit_and_step a (2 ^ 32 - 2), bit_and-mask 31 (a / 2))
