-- ===== src/Bits/Align.antt =====
-- Rounding to a multiple of a power of two by masks.
use bpf_arena_data_structure.Base.{
  ℕ, zero, suc, ◌+◌, ◌-◌, ◌*◌, ◌/◌, ◌%◌, ◌^◌, ◌≤◌, ◌<◌, bit_and, bit_or, ◌≡◌, arith, ap, ◌∙◌, sym,
  refl, pow-suc,
}
use native.Mathlib.Nat.{
  mul_comm, mul-sub, div-one, div-lt_iff_lt-mul, one-le-pow, mod-eq_of_lt, div-div-eq-div-mul,
}
use bpf_arena_data_structure.Bits.Step.{bit_and_step, bit_or_step, units}
use bpf_arena_data_structure.Bits.{bit_and-mask, IsPow2, pow2_split}

-- `a | 7`
pub bit_or-seven : (a : ℕ) → bit_or a 7 ≡ a / 8 * 8 + 7
bit_or-seven a = omega (
  arith,
  bit_or_step a 7,
  bit_or_step (a / 2) 3,
  bit_or_step (a / 2 / 2) 1,
  (units (a / 2 / 2 / 2)).1,
)

-- The mask of `w` ones above `k` zeros keeps those digits.
bit_and-high : (k w x : ℕ) → bit_and x (2 ^ k * (2 ^ w - 1)) ≡ x / 2 ^ k % 2 ^ w * 2 ^ k
bit_and-high zero w x =
    let one : 2 ^ 0 * (2 ^ w - 1) ≡ 2 ^ w - 1 = omega arith in
    let whole : x / 2 ^ 0 ≡ x = div-one x in rw (one, whole, bit_and-mask w x) (omega arith)
bit_and-high (suc k) w x =
    let p = 2 ^ k in
    let m = p * (2 ^ w - 1) in
    let double : 2 ^ suc k ≡ 2 * p = pow-suc 2 k ∙ mul_comm p 2 in
    let mask : 2 ^ suc k * (2 ^ w - 1) ≡ 2 * m = ap (λ t. t * (2 ^ w - 1)) double ∙ omega arith in
    let half : x / 2 ^ suc k ≡ x / 2 / p =
      ap (λ t. x / t) double ∙ sym (div-div-eq-div-mul x 2 p) in
    let even : 2 * m / 2 ≡ m = omega arith in
    let step : bit_and x (2 * m) ≡ bit_and (x / 2) m * 2 =
      bit_and_step x (2 * m) ∙ rw even (ground arith) in
    rw (mask, half, double, step, bit_and-high k w (x / 2)) (omega arith)

-- `x & -c`, for a power of two `c`, is the multiple of `c` below `x`.
pub bit_and-neg : (w c x : ℕ) → IsPow2 c → c ≤ 2 ^ w → x < 2 ^ w → bit_and x (2 ^ w - c) ≡ x / c * c
bit_and-neg w c x (k, e) le lt =
    let d = w - k in
    let split : 2 ^ w ≡ 2 ^ k * 2 ^ d = pow2_split w k (omega (arith, e)) in
    let mask : 2 ^ w - 2 ^ k ≡ 2 ^ k * (2 ^ d - 1) =
      omega (arith, split, mul-sub (2 ^ k) (2 ^ d) 1) in
    let small : x / 2 ^ k < 2 ^ d =
      (div-lt_iff_lt-mul (one-le-pow k 2 (omega arith))).1 (omega (arith, split)) in
    rw (e, mask, bit_and-high k d x, mod-eq_of_lt small) refl
