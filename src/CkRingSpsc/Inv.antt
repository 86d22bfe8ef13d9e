-- ===== src/CkRingSpsc/Inv.antt =====
-- The representation invariant of `struct ds_ck_ring_spsc_head` and the pairs that it holds.
use bpf_arena_data_structure.Base.{
  ℕ, ◌+◌, ◌-◌, ◌%◌, ◌^◌, ◌≤◌, ◌<◌, ◌≡◌, ◌≢◌, ◌↔◌, true, [], sym, ap, ◌∙◌, arith, length, length-set,
  eq_nil_of_length, mod-eq_of_eq, mod-lt,
}
use bpf_arena_data_structure.Bits.{
  IsPow2, bit_and_pow2, IsPow2-iff, mod_pow2, masked_iff, sub-mod_pow2,
}
use bpf_arena_data_structure.Api.{success, Out, zero_kv, kv, u32, sub_u32, Allocator}
use bpf_arena_data_structure.Api.Queue.{Queue}
use bpf_arena_data_structure.Window.Slots.{
  used, slots, length-slots, slots-nil, used-eq-mod, used-eq-zero_iff, used-eq-pred_iff,
}
use bpf_arena_data_structure.CkRingSpsc.{
  Head, is_power_of_two, next_index, bytes, init_at, insert_at, delete_at, size, is_empty, is_full,
  verify_at,
}

pub record IsValid (h : Head) : Type 0 where
  pub allocated : h.slots ≢ 0
  pub pow2 : IsPow2 h.capacity
  pub at_least : 2 ≤ h.capacity
  pub small : h.capacity ≤ 2 ^ 31
  pub masked : h.mask ≡ h.capacity - 1
  pub storage : h.capacity ≤ length h.cells
  pub read_in : h.c_head < h.capacity
  pub write_in : h.p_tail < h.capacity

unfoldable pub contents : Head → Queue
contents h = slots zero_kv h.cells h.capacity h.c_head h.p_tail

pub length-contents : (h : Head) → length (contents h) ≡ used h.capacity h.c_head h.p_tail
unfolding contents
length-contents h = length-slots zero_kv h.cells h.capacity h.c_head h.p_tail

-- The test accepts the powers of two from 2 on.
pub is_power_of_two_iff : (v : ℕ) → v < 2 ^ 32 → (is_power_of_two v ≡ true) ↔ ((2 ≤ v) × IsPow2 v)
unfolding is_power_of_two
is_power_of_two_iff v lt = (
  λ h. (
    ground arith,
    (IsPow2-iff v (ground arith)).0
        (ground (arith, mod-eq_of_eq (v + 2 ^ 32 - 1) (2 ^ 32) 1 {c = v - 1})),
  ),
  λ (le, s). ground (arith, (IsPow2-iff v (omega arith)).1 s),
)

-- On an index of the ring, the masked step is the step modulo the capacity.
pub next_index-eq-mod : {h : Head} (i : ℕ) → IsValid h → next_index h i ≡ (i + 1) % h.capacity
unfolding next_index
next_index-eq-mod {h} i v = rw v.masked (
    bit_and_pow2 h.capacity (u32 (i + 1)) v.pow2
    ∙ mod_pow2 32 h.capacity (i + 1) v.pow2 (omega arith))

pub insert-IsValid : {h : Head} (k x : ℕ) → IsValid h → IsValid (insert_at h k x).1
unfolding insert_at
insert-IsValid {h} k x v = ground (
  arith,
  length-set h.cells h.p_tail (kv k x),
  next_index-eq-mod h.p_tail v,
  mod-lt (h.p_tail + 1) {m = h.capacity},
)

pub delete-IsValid : {h : Head} (out : Out) → IsValid h → IsValid (delete_at h out).1
unfolding delete_at
delete-IsValid {h} out v =
    ground (arith, next_index-eq-mod h.c_head v, mod-lt (h.c_head + 1) {m = h.capacity})

pub size-eq-used : {h : Head} → IsValid h → size h ≡ used h.capacity h.c_head h.p_tail
unfolding size
size-eq-used {h} v =
    rw v.masked (bit_and_pow2 h.capacity (sub_u32 h.p_tail h.c_head) v.pow2)
    ∙ sub-mod_pow2 32 h.capacity h.p_tail h.c_head v.pow2 (omega arith) (omega arith)
    ∙ sym (used-eq-mod v.read_in v.write_in)

-- An accepted `ds_ck_ring_spsc_init` leaves a valid, empty ring of the given capacity, if the byte
-- count `16 * capacity` fits the allocator's `unsigned int`.
pub ck_ring_init-IsValid :
    (a : Allocator) (s : a.State) (h : Head) (n : ℕ)
    → n < 2 ^ 28
    → (init_at a s h n).0 ≡ success
    → let h' = (init_at a s h n).1 in IsValid h' × (contents h' ≡ []) × (h'.capacity ≡ n)
unfolding init_at contents
ck_ring_init-IsValid a s h n lt e = ground (
  arith,
  is_power_of_two_iff n,
  a.length-block (a.alloc s (bytes a n)).1 (a.alloc s (bytes a n)).0 n,
  slots-nil zero_kv (a.block (a.alloc s (bytes a n)).1 (a.alloc s (bytes a n)).0 n) n 0,
)

-- On a valid ring the three observers agree with the pairs held.
ck_ring_observers :
    (h : Head)
    → IsValid h
    → (size h ≡ length (contents h))
      × ((is_empty h ≡ true) ↔ (contents h ≡ []))
      × ((is_full h ≡ true) ↔ (length (contents h) ≡ h.capacity - 1))
unfolding is_empty is_full
ck_ring_observers h v = (
  size-eq-used v ∙ sym (length-contents h),
  (
    λ e.
        eq_nil_of_length _
          (ground (arith, length-contents h, used-eq-zero_iff v.read_in v.write_in)),
    λ e. ground (arith, length-contents h, used-eq-zero_iff v.read_in v.write_in, ap length e),
  ),
  ground (
    arith,
    length-contents h,
    used-eq-pred_iff v.read_in v.write_in,
    next_index-eq-mod h.p_tail v,
  ),
)

size-le-mask :
    (h : Head) → 0 < h.capacity → IsPow2 h.capacity → h.mask ≡ h.capacity - 1 → size h ≤ h.mask
unfolding size
size-le-mask h p s e = ground (
  arith,
  bit_and_pow2 h.capacity (sub_u32 h.p_tail h.c_head) s,
  mod-lt (sub_u32 h.p_tail h.c_head) p,
)

sub_u32-one : (c : ℕ) → 0 < c → c < 2 ^ 32 → sub_u32 c 1 ≡ c - 1
sub_u32-one c p lt = omega arith

-- `ds_ck_ring_spsc_verify` accepts exactly the heads whose fields agree as in a valid ring.
pub ck_ring_verify_iff :
    (h : Head)
    → h.capacity < 2 ^ 32
    → (verify_at h ≡ success) ↔ (
        (h.slots ≢ 0)
        × (2 ≤ h.capacity)
        × IsPow2 h.capacity
        × (h.mask ≡ h.capacity - 1)
        × (h.c_head < h.capacity)
        × (h.p_tail < h.capacity))
unfolding verify_at
ck_ring_verify_iff h small = (
  λ ok.
      let (two, pow2) = (is_power_of_two_iff h.capacity small).0 (ground arith) in
      let masked : h.mask ≡ h.capacity - 1 = ground (arith, sub_u32-one h.capacity) in
      (
        ground arith,
        two,
        pow2,
        masked,
        (masked_iff h.capacity h.c_head pow2 (omega arith)).0 (ground arith),
        (masked_iff h.capacity h.p_tail pow2 (omega arith)).0 (ground arith),
      ),
  λ (slots, two, pow2, masked, read_in, write_in). ground (
    arith,
    sub_u32-one h.capacity,
    (is_power_of_two_iff h.capacity small).1 (two, pow2),
    (masked_iff h.capacity h.c_head pow2 (omega arith)).1 read_in,
    (masked_iff h.capacity h.p_tail pow2 (omega arith)).1 write_in,
    size-le-mask h (omega arith) pow2 masked,
  ),
)
