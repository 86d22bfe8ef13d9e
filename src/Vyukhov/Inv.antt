-- ===== src/Vyukhov/Inv.antt =====
-- The invariant of a Vyukhov queue between calls, and the pairs that it holds.
use native.Mathlib.Nat.{suc-mod}
use bpf_arena_data_structure.Base.{
  get_or-set_self, get_or-set_ne, mod-lt, List, ℕ, zero, suc, ◌+◌, ◌-◌, ◌%◌, ◌^◌, ◌≤◌, ◌<◌, ◌≡◌,
  refl, ◌≢◌, [], ◌∷◌, ◌++◌, arith, length, bit_and, dec_lt, mod-add-mod, ap, ap₂, sym, ◌∙◌,
  mod-add-ne,
}
use bpf_arena_data_structure.Bits.{IsPow2, bit_and_pow2, mod_pow2}
use bpf_arena_data_structure.Api.{u64, sub_u64}
use bpf_arena_data_structure.Api.Queue.{Queue}
use bpf_arena_data_structure.Vyukhov.{node, zero_node, Node, Head, set_cell, slot}

abbrev pub capacity : Head → ℕ
capacity h = h.buffer_mask + 1

unfoldable pub used : Head → ℕ
used h = sub_u64 h.enqueue_pos h.dequeue_pos

-- The cell of the position `i` places behind the first one.
abbrev pub cell : Head → ℕ → Node
cell h i = node h.cells ((h.dequeue_pos + i) % capacity h)

pub record IsValid (h : Head) : Type 0 where
  pub pow2 : IsPow2 (h.buffer_mask + 1)
  pub two : 1 ≤ h.buffer_mask
  pub small : h.buffer_mask < 2 ^ 32
  pub allocated : h.buffer ≢ 0
  pub storage : h.buffer_mask + 1 ≤ length h.cells
  pub enqueue_u64 : h.enqueue_pos < 2 ^ 64
  pub dequeue_u64 : h.dequeue_pos < 2 ^ 64
  pub counted : h.count ≡ used h
  pub within : used h ≤ h.buffer_mask + 1
  pub full_cells : (i : ℕ) → i < used h → (cell h i).sequence ≡ u64 (h.dequeue_pos + i + 1)
  pub free_cells :
      (i : ℕ) → used h ≤ i → i ≤ h.buffer_mask → (cell h i).sequence ≡ u64 (h.dequeue_pos + i)

module _ {h : Head} (v : IsValid h) where
  pub slot-eq-mod : (i : ℕ) → slot h i ≡ i % capacity h
  slot-eq-mod i =
      let mask : h.buffer_mask ≡ capacity h - 1 = omega arith in
      ap (bit_and i) mask ∙ bit_and_pow2 (capacity h) i v.pow2

  pub slot_stored : (i : ℕ) → slot h i < length h.cells
  slot_stored i =
      let stored = v.storage in
      let lt : i % capacity h < capacity h = mod-lt i (omega arith) in omega (arith, slot-eq-mod i)

  pub u64-mod : (i : ℕ) → u64 i % capacity h ≡ i % capacity h
  u64-mod i = mod_pow2 64 (capacity h) i v.pow2 (omega (arith, v.small))

  -- A position may be wrapped before others are counted from it.
  pub u64-add-mod : (i j : ℕ) → (u64 i + j) % capacity h ≡ (i + j) % capacity h
  u64-add-mod i j =
      sym (mod-add-mod (u64 i) (capacity h) j)
      ∙ ap (λ t. (t + j) % capacity h) (u64-mod i)
      ∙ mod-add-mod i (capacity h) j

  pub enqueue-mod : h.enqueue_pos % capacity h ≡ (h.dequeue_pos + used h) % capacity h
  unfolding used
  enqueue-mod =
      let e = v.enqueue_u64 in
      let d = v.dequeue_u64 in
      ap (λ i. i % capacity h) (omega arith) ∙ u64-mod (h.dequeue_pos + used h)

-- Two places in one window have two cells.
pub place_ne : (p i j m : ℕ) → i < m → j < m → i ≢ j → (p + i) % m ≢ (p + j) % m
place_ne p i j m li lj ne e = elim (dec_lt i j) [
  | yes lt ↦
      mod-add-ne (p + i) (j - i) m (omega arith) (omega arith)
        (ap (λ t. t % m) (omega arith) ∙ sym e)
  | no ge ↦
      mod-add-ne (p + j) (i - j) m (omega arith) (omega arith) (ap (λ t. t % m) (omega arith) ∙ e)
]

pub set_cell_self :
    (cells : List Node) (i : ℕ) (x : Node) → i < length cells → node (set_cell cells i x) i ≡ x
set_cell_self cells i x lt = get_or-set_self cells i x zero_node lt

pub set_cell_ne :
    (cells : List Node) (i j : ℕ) (x : Node) → j ≢ i → node (set_cell cells i x) j ≡ node cells j
set_cell_ne cells i j x ne = get_or-set_ne cells i j x zero_node (λ e. ne (sym e))

-- `n` pairs from position `p` on.
unfoldable pub pairs : List Node → (cap p n : ℕ) → Queue
pairs cells cap p zero = []
pairs cells cap p (suc n) = (node cells (p % cap)).pair ∷ pairs cells cap (suc p) n

unfoldable pub contents : Head → Queue
contents h = pairs h.cells (capacity h) h.dequeue_pos (used h)

pub length-pairs : (cells : List Node) (cap p n : ℕ) → length (pairs cells cap p n) ≡ n
unfolding pairs
length-pairs cells cap p zero = refl
length-pairs cells cap p (suc n) = ap suc (length-pairs cells cap (suc p) n)

pub length-contents : (h : Head) → length (contents h) ≡ used h
unfolding contents
length-contents h = length-pairs h.cells (capacity h) h.dequeue_pos (used h)

-- Only the remainder of the first position matters.
pub pairs-mod :
    (cells : List Node) (cap p q n : ℕ)
    → p % cap ≡ q % cap
    → pairs cells cap p n ≡ pairs cells cap q n
unfolding pairs
pairs-mod cells cap p q zero e = refl
pairs-mod cells cap p q (suc n) e = ap₂ ◌∷◌ (ap (λ i. (node cells i).pair) e) (
    pairs-mod cells cap (suc p) (suc q) n
      (suc-mod p cap ∙ ap (λ i. suc i % cap) e ∙ sym (suc-mod q cap)))

-- A write to a cell outside the window leaves the pairs.
pub pairs-set_cell :
    (cells : List Node) (cap p n c : ℕ) (x : Node)
    → ((i : ℕ) → i < n → (p + i) % cap ≢ c)
    → pairs (set_cell cells c x) cap p n ≡ pairs cells cap p n
unfolding pairs
pairs-set_cell cells cap p zero c x out = refl
pairs-set_cell cells cap p (suc n) c x out =
    ap₂ ◌∷◌
      (ap (λ (y : Node). y.pair)
        (set_cell_ne cells c (p % cap) x
          (λ e. out 0 (omega arith) (ap (λ t. t % cap) (omega arith) ∙ e))))
      (pairs-set_cell cells cap (suc p) n c x
        (λ i lt e. out (suc i) (omega arith) (ap (λ t. t % cap) (omega arith) ∙ e)))

pub pairs-snoc :
    (cells : List Node) (cap p n : ℕ)
    → pairs cells cap p (suc n) ≡ pairs cells cap p n ++ (node cells ((p + n) % cap)).pair ∷ []
unfolding pairs
pairs-snoc cells cap p zero = ap (λ i. (node cells (i % cap)).pair ∷ []) (omega arith)
pairs-snoc cells cap p (suc n) =
    ap (λ l. (node cells (p % cap)).pair ∷ l)
      (pairs-snoc cells cap (suc p) n
        ∙ ap (λ i. pairs cells cap (suc p) n ++ (node cells (i % cap)).pair ∷ []) (omega arith))
