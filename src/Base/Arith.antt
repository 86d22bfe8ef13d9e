-- ===== src/Base/Arith.antt =====
-- Remainders by an unknown modulus: what `omega` does not find by itself.
use Prim.Native.Nat.{ℕ, ◌+◌, ◌*◌, ◌/◌, ◌%◌, ◌<◌}
use mathlib.Core.Path.{◌≡◌, sym, ap, ◌∙◌}
use mathlib.Core.Logic.{◌≢◌}
use native.Mathlib.Nat.{mul-add-mod_self_left, mod-eq_of_lt, mod-lt, div-add-mod}
use native.Mathlib.Omega.{arith}

-- The remainder is the only number below the modulus that differs from `a` by a multiple of it.
pub mod-eq_of_eq : (a m q : ℕ) {c : ℕ} → a ≡ m * q + c → c < m → a % m ≡ c
mod-eq_of_eq a m q {c} e h = ap (λ t. t % m) e ∙ mul-add-mod_self_left m q c ∙ mod-eq_of_lt h

pub mod-double : (a p : ℕ) → 0 < p → a % (2 * p) ≡ 2 * (a / 2 % p) + a % 2
mod-double a p h =
    mod-eq_of_eq a (2 * p) (a / 2 / p) (omega (arith, div-add-mod (a / 2) p))
      (omega (arith, mod-lt (a / 2) h))

-- Two numbers that differ by less than the modulus have different remainders.
pub mod-add-ne : (h k m : ℕ) → 0 < k → k < m → (h + k) % m ≢ h % m
mod-add-ne h k m p q = grind arith

pub mod-mod_of_mul : (a m q : ℕ) → a % (m * q) % m ≡ a % m
mod-mod_of_mul a m q =
    sym (mul-add-mod_self_left m (q * (a / (m * q))) (a % (m * q)))
    ∙ ap (λ t. t % m) (omega (arith, div-add-mod a (m * q)))
