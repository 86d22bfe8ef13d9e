-- ===== src/Bits.antt =====
-- `&` with a mask of low bits, and the test `(v & (v - 1)) == 0`, at every width.
mod Step
pub mod Flags
pub mod Align
use Step.{bit_and_step, units}
use mathlib.Core.WellFounded
use native.Mathlib.Nat.{one-le-pow, mod_self, mul-add-mod_self_left, pow-le-pow_right}
use bpf_arena_data_structure.Base.{
  ℕ, zero, suc, ◌+◌, ◌-◌, ◌*◌, ◌/◌, ◌%◌, ◌^◌, ◌≤◌, ◌<◌, bit_and, ◌≡◌, refl, ap, ◌↔◌, arith, lt_wf,
  pow-suc, ℕ_discrete, mod-double, mod-mod_of_mul, ◌∙◌, add-zero, dec_le, mod-lt, mod-eq_of_lt,
}

-- `a & (2^k - 1)` is the remainder of `a` by `2^k`.
pub bit_and-mask : (k a : ℕ) → bit_and a (2 ^ k - 1) ≡ a % 2 ^ k
bit_and-mask zero a = omega (arith, (units a).0)
bit_and-mask (suc k) a = ground (
  arith,
  bit_and_step a (2 ^ suc k - 1),
  pow-suc 2 k,
  one-le-pow k 2,
  mod-double a (2 ^ k),
  bit_and-mask k (a / 2),
)

-- `v & (v - 1)` clears the lowest set bit: it is 0 exactly at the powers of two.
pub pow_of_bit_and : (v : ℕ) → 0 < v → bit_and v (v - 1) ≡ 0 → (k : ℕ) × (v ≡ 2 ^ k)
pow_of_bit_and v =
    WellFounded.induction lt_wf {C = λ v. 0 < v → bit_and v (v - 1) ≡ 0 → (k : ℕ) × (v ≡ 2 ^ k)} v
      step
  where
    step :
        (v : ℕ)
        → ((m : ℕ) → m < v → 0 < m → bit_and m (m - 1) ≡ 0 → (k : ℕ) × (m ≡ 2 ^ k))
        → 0 < v
        → bit_and v (v - 1) ≡ 0
        → (k : ℕ) × (v ≡ 2 ^ k)
    step v ih p h = elim (ℕ_discrete (v % 2) 0) [
      | yes even ↦
          let (k, e) =
            ih (v / 2) (omega arith) (omega arith) (ground (arith, bit_and_step v (v - 1))) in
          (suc k, ground (arith, pow-suc 2 k))
      | no odd ↦ (0, ground (arith, bit_and_step v (v - 1), (units (v / 2)).2))
    ]

-- 2^k for some k
abbrev pub IsPow2 : ℕ → Type 0
IsPow2 n = (k : ℕ) × (n ≡ 2 ^ k)

pub bit_and_pow2 : (c a : ℕ) → IsPow2 c → bit_and a (c - 1) ≡ a % c
bit_and_pow2 c a (k, e) = rw e (bit_and-mask k a)

-- An index is in range exactly when the mask leaves it.
pub masked_iff : (c x : ℕ) → IsPow2 c → 0 < c → (bit_and x (c - 1) ≡ x) ↔ (x < c)
masked_iff c x s p = (
  λ e. omega (arith, e, bit_and_pow2 c x s, mod-lt x p),
  λ lt. bit_and_pow2 c x s ∙ mod-eq_of_lt lt,
)

pub IsPow2-iff : (v : ℕ) → 0 < v → (bit_and v (v - 1) ≡ 0) ↔ IsPow2 v
IsPow2-iff v p = (pow_of_bit_and v p, λ s. bit_and_pow2 v v s ∙ mod_self v)

pow-add : (a b : ℕ) → 2 ^ (a + b) ≡ 2 ^ a * 2 ^ b
pow-add a zero = rw add-zero (omega arith)
pow-add a (suc b) =
    ap (λ n. 2 ^ n) (omega arith)
    ∙ pow-suc 2 (a + b)
    ∙ omega (arith, pow-add a b, ap (λ (t : ℕ). 2 ^ a * t) (pow-suc 2 b))

pub pow2_split : (w k : ℕ) → 2 ^ k ≤ 2 ^ w → 2 ^ w ≡ 2 ^ k * 2 ^ (w - k)
pow2_split w k h = elim (dec_le k w) [
  | yes le ↦ ap (λ n. 2 ^ n) (omega arith) ∙ pow-add k (w - k)
  | no gt ↦ absurd (
      omega (
        arith,
        pow-le-pow_right {n = 2} (omega arith) {i = suc w} {j = k} (omega arith),
        pow-suc 2 w,
        one-le-pow w 2,
      ))
]

-- A power of two up to 2^w divides 2^w.
pub pow2-dvd : (w c : ℕ) → IsPow2 c → c ≤ 2 ^ w → (q : ℕ) × (2 ^ w ≡ c * q)
pow2-dvd w c (k, e) h = (2 ^ (w - k), rw e (pow2_split w k (omega (arith, e))))

-- Wrapping at 2^w before taking the remainder by a smaller power of two changes nothing.
pub mod_pow2 : (w c a : ℕ) → IsPow2 c → c ≤ 2 ^ w → a % 2 ^ w % c ≡ a % c
mod_pow2 w c a s h = let (q, e) = pow2-dvd w c s h in ap (λ m. a % m % c) e ∙ mod-mod_of_mul a c q

-- A power of two below 2^(w + 1) is at most 2^w.
pub pow2-le : (w c : ℕ) → IsPow2 c → c < 2 ^ suc w → c ≤ 2 ^ w
pow2-le w c (k, e) h = elim (dec_le k w) [
  | yes le ↦ omega (arith, e, pow-le-pow_right {n = 2} (omega arith) {i = k} {j = w} le)
  | no gt ↦
      absurd
        (omega (arith, e, pow-le-pow_right {n = 2} (omega arith) {i = suc w} {j = k} (omega arith)))
]

-- A w-bit difference, masked, is the difference modulo the power of two.
pub sub-mod_pow2 :
    (w c a b : ℕ) → IsPow2 c → c ≤ 2 ^ w → b ≤ c → (a + 2 ^ w - b) % 2 ^ w % c ≡ (a + c - b) % c
sub-mod_pow2 w c a b s h le = mod_pow2 w c (a + 2 ^ w - b) s h ∙ whole (pow2-dvd w c s h)
  where
    whole : (q : ℕ) × (2 ^ w ≡ c * q) → (a + 2 ^ w - b) % c ≡ (a + c - b) % c
    whole (zero, e) = absurd (omega (arith, e, one-le-pow w 2))
    whole (suc q, e) = ap (λ n. n % c) (omega (arith, e)) ∙ mul-add-mod_self_left c q (a + c - b)
