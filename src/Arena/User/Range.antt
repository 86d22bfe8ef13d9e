-- ===== src/Arena/User/Range.antt =====
-- The range that `bpf_arena_userspace_set_range` takes over, and `bpf_arena_free`.
use native.Mathlib.Nat.{lt-div-mul-add, div-mul-le_self, zero-mod, mul-mod_left, mul-mod_right}
use bpf_arena_data_structure.Base.{
  ℕ, ◌+◌, ◌-◌, ◌*◌, ◌/◌, ◌%◌, ◌^◌, ◌≤◌, ◌<◌, ◌≡◌, refl, ◌⊎◌, inl, inr, arith, dec_le, ℕ_discrete,
}
use bpf_arena_data_structure.Bits.{IsPow2, pow2_split}
use bpf_arena_data_structure.Api.{u64, sub_u64}
use bpf_arena_data_structure.Arena.{page_of}
use bpf_arena_data_structure.Arena.User.{Heap, page_size_or_default, set_range}
use bpf_arena_data_structure.Arena.User.Inv.{IsValid, page_of-eq}

-- Multiples of a large power of two are multiples of 8.
pow2-words : (c : ℕ) → IsPow2 c → 16 ≤ c → (q : ℕ) → q * c % 8 ≡ 0
pow2-words c (k, e) le q =
    let split : 2 ^ k ≡ 8 * 2 ^ (k - 3) = pow2_split k 3 (omega (arith, e)) in
    let m = 2 ^ (k - 3) in
    let whole : q * c ≡ 8 * (q * m) = rw (e, split) (omega arith) in
    rw whole (mul-mod_right 8 (q * m))

page_of-bounds :
    (c x : ℕ)
    → IsPow2 c
    → 16 ≤ c
    → c ≤ 2 ^ 32
    → x < 2 ^ 64
    → (page_of c x % c ≡ 0) × (page_of c x % 8 ≡ 0) × (page_of c x ≤ x) × (x < page_of c x + c)
page_of-bounds c x s le small lt = rw (page_of-eq c x s (omega arith) small lt) (
  mul-mod_left (x / c) c,
  pow2-words c s le (x / c),
  div-mul-le_self x c,
  lt-div-mul-add (omega arith),
)

abbrev ranged : Heap → (page_size base size : ℕ) → Heap
ranged h page_size base size = record h {
  page_size = page_size;
  base = base;
  size = size;
  next_page_off = 0;
  cur_page = 0;
  cur_offset = 0;
}

ranged-IsValid :
    (h : Heap) (c base size : ℕ)
    → IsPow2 c
    → 16 ≤ c
    → c ≤ 2 ^ 32
    → 0 < base
    → base % c ≡ 0
    → base % 8 ≡ 0
    → base + size < 2 ^ 64
    → IsValid (ranged h c base size)
ranged-IsValid h c base size s le small pos page words within =
    ground (arith, pow2-words c s le 1, zero-mod c)

set_range_cases :
    (c : ℕ) (h : Heap) (base size : ℕ)
    → 16 ≤ c
    → c ≤ 2 ^ 32
    → base + c < 2 ^ 64
    → base + size < 2 ^ 64
    → let start = page_of c (base + c - 1) in
      (set_range c h base size ≡ ranged h c 0 0)
      ⊎ ((0 < base)
          × (start < base + size)
          × (set_range c h base size
              ≡ ranged h c start (page_of c (sub_u64 size (sub_u64 start base)))))
unfolding set_range page_size_or_default
set_range_cases c h base size le small fits whole =
    let start = page_of c (base + c - 1) in
    let first : sub_u64 (u64 (base + c)) 1 ≡ base + c - 1 = omega arith in
    let page : page_size_or_default c ≡ c = ground arith in
    rw (page, first)
      (elim (dec_le (base + size) start) [
        | yes beyond ↦ inl (ground arith)
        | no inside ↦ elim (ℕ_discrete base 0) [
          | yes null ↦ inl (ground arith)
          | no some_base ↦ elim (ℕ_discrete size 0) [
            | yes nothing ↦ inl (ground arith)
            | no some_size ↦ inr (omega arith, omega arith, ground arith)
          ]
        ]
      ])

-- For a page size that is a power of two from 16 to 2^32 and a range that does not wrap, either the
-- range is refused, base and size being 0 then, or the heap is valid and its pages lie in the range.
pub user_set_range-IsValid :
    (page_sz : ℕ) (h : Heap) (base size : ℕ)
    → IsPow2 page_sz
    → 16 ≤ page_sz
    → page_sz ≤ 2 ^ 32
    → base + page_sz < 2 ^ 64
    → base + size < 2 ^ 64
    → let h' = set_range page_sz h base size in
      ((h'.base ≡ 0) × (h'.size ≡ 0))
      ⊎ (IsValid h' × (base ≤ h'.base) × (h'.base + h'.size ≤ base + size))
user_set_range-IsValid c h base size s le small fits whole =
    let (page, words, below, above) = page_of-bounds c (base + c - 1) s le small (omega arith) in
    elim (set_range_cases c h base size le small fits whole) [
      | inl e ↦ inl (rw e (refl, refl))
      | inr (pos, inside, e) ↦
          let start = page_of c (base + c - 1) in
          let rest = sub_u64 size (sub_u64 start base) in
          let (_, _, shorter, _) = page_of-bounds c rest s le small (omega arith) in
          inr (
            rw e (
              ranged-IsValid h c start (page_of c rest) s le small (omega arith) page words
                  (omega arith),
              omega arith,
              omega arith,
            ))
    ]
