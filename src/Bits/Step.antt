-- ===== src/Bits/Step.antt =====
-- The lowest binary digit of `&` and `|`. Both are one recursion over the digits of the first
-- number, so the law is proved once, for any operation on digits.
use Prim.Native.Nat.{max, bitwise, digits, bit_and-bitwise, bit_or-bitwise}
use bpf_arena_data_structure.Base.{
  ℕ, zero, suc, ◌+◌, ◌*◌, ◌/◌, ◌%◌, ◌≤◌, ◌<◌, ◌≡◌, refl, ap, arith, min, bit_and, bit_or,
}

-- `rest` is the result once the first number has no digits left.
module _ (rest : ℕ → ℕ) (op : ℕ → ℕ → ℕ) where
  -- Any count of digits that is no smaller than the number gives the same result.
  enough :
      (x y fuel more : ℕ) → x ≤ fuel → x ≤ more → digits rest op fuel x y ≡ digits rest op more x y
  enough zero y zero zero p q = refl
  enough zero y zero (suc more) p q = refl
  enough zero y (suc fuel) zero p q = refl
  enough zero y (suc fuel) (suc more) p q = refl
  enough (suc x) y zero more p q = absurd (omega arith)
  enough (suc x) y (suc fuel) zero p q = absurd (omega arith)
  enough (suc x) y (suc fuel) (suc more) p q =
      ap (λ d. d * 2 + op (suc x % 2) (y % 2))
        (enough (suc x / 2) (y / 2) fuel more (omega arith) (omega arith))

  bitwise-suc :
      (x y : ℕ)
      → bitwise rest op (suc x) y ≡ bitwise rest op (suc x / 2) (y / 2) * 2 + op (suc x % 2) (y % 2)
  bitwise-suc x y =
      ap (λ d. d * 2 + op (suc x % 2) (y % 2))
        (enough (suc x / 2) (y / 2) x (suc x / 2) (omega arith) (omega arith))

pub bit_and_step : (a b : ℕ) → bit_and a b ≡ bit_and (a / 2) (b / 2) * 2 + min (a % 2) (b % 2)
bit_and_step zero b = omega (arith, bit_and-bitwise 0 b, bit_and-bitwise 0 (b / 2))
bit_and_step (suc a) b = omega (
  arith,
  bit_and-bitwise (suc a) b,
  bit_and-bitwise (suc a / 2) (b / 2),
  bitwise-suc (λ _. 0) min a b,
)

pub bit_or_step : (a b : ℕ) → bit_or a b ≡ bit_or (a / 2) (b / 2) * 2 + max (a % 2) (b % 2)
bit_or_step zero b = omega (arith, bit_or-bitwise 0 b, bit_or-bitwise 0 (b / 2))
bit_or_step (suc a) b = omega (
  arith,
  bit_or-bitwise (suc a) b,
  bit_or-bitwise (suc a / 2) (b / 2),
  bitwise-suc (λ y. y) max a b,
)

-- What 0 and the number itself do, by digits.
units_below : (n a : ℕ) → a < n → (bit_and a 0 ≡ 0) × (bit_or a 0 ≡ a) × (bit_and a a ≡ a)
units_below zero a lt = elim lt [ ]
units_below (suc n) zero lt = (refl, refl, refl)
units_below (suc n) (suc a) lt =
    let (and_zero, or_zero, and_self) = units_below n (suc a / 2) (omega arith) in
    (
      omega (arith, bit_and_step (suc a) 0),
      omega (arith, bit_or_step (suc a) 0),
      omega (arith, bit_and_step (suc a) (suc a)),
    )

pub units : (a : ℕ) → (bit_and a 0 ≡ 0) × (bit_or a 0 ≡ a) × (bit_and a a ≡ a)
units a = units_below (suc a) a (omega arith)
