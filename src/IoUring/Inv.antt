-- ===== src/IoUring/Inv.antt =====
-- The representation invariant of `struct ds_io_uring_ring_head` and the pairs that it holds.
use bpf_arena_data_structure.Base.{
  ℕ, ◌+◌, ◌-◌, ◌*◌, ◌/◌, ◌^◌, ◌≤◌, ◌<◌, ◌≡◌, ◌↔◌, false, [], ◌⊎◌, arith, length, length-set,
  bit_and,
}
use bpf_arena_data_structure.Bits.{IsPow2, IsPow2-iff}
use bpf_arena_data_structure.Bits.Flags.{bit_or-one, bit_and-not_one}
use bpf_arena_data_structure.Api.{success, full, kv, Out, zero_kv, sub_u32, Allocator}
use bpf_arena_data_structure.Api.Queue.{Queue}
use bpf_arena_data_structure.Window.{window, length-window}
use bpf_arena_data_structure.IoUring.{Ring, not_pow2, bytes, init, insert, pop, verify}

pub record IsValid (r : Ring) : Type 0 where
  pub pow2 : IsPow2 r.ring_entries
  pub some_room : 0 < r.ring_entries
  pub small : r.ring_entries ≤ 2 ^ 31
  pub masked : r.ring_mask ≡ r.ring_entries - 1
  pub storage : r.ring_entries ≤ length r.cells
  pub tail_u32 : r.tail < 2 ^ 32
  pub head_u32 : r.head < 2 ^ 32
  pub within : sub_u32 r.tail r.head ≤ r.ring_entries

-- `tail - head` pairs from position `head` on.
unfoldable pub contents : Ring → Queue
contents r = window zero_kv r.cells r.ring_entries r.head (sub_u32 r.tail r.head)

pub length-contents : (r : Ring) → length (contents r) ≡ sub_u32 r.tail r.head
unfolding contents
length-contents r = length-window zero_kv r.cells r.ring_entries r.head (sub_u32 r.tail r.head)

not_pow2_iff : (v : ℕ) → v < 2 ^ 32 → (not_pow2 v ≡ false) ↔ ((0 < v) × IsPow2 v)
unfolding not_pow2
not_pow2_iff v lt = (
  λ h. (ground arith, (IsPow2-iff v (ground arith)).0 (ground arith)),
  λ (p, s). ground (arith, (IsPow2-iff v p).1 s),
)

pub insert-IsValid : {r : Ring} (k x : ℕ) → IsValid r → IsValid (insert r k x).1
unfolding insert
insert-IsValid {r} k x v = ground (arith, length-set r.cells (bit_and r.tail r.ring_mask) (kv k x))

pub pop-IsValid : {r : Ring} (out : Out) → IsValid r → IsValid (pop r out).1
unfolding pop
pop-IsValid {r} out v = ground arith

-- An accepted `ds_io_uring_init` leaves a valid, empty ring of the given number of entries, if the
-- byte count `16 * ring_entries` fits the allocator's `unsigned int`.
pub io_uring_init-IsValid :
    (a : Allocator) (s : a.State) (r : Ring) (n : ℕ)
    → n < 2 ^ 28
    → (init a s r n).0 ≡ success
    → let r' = (init a s r n).1 in IsValid r' × (contents r' ≡ []) × (r'.ring_entries ≡ n)
unfolding init contents window
io_uring_init-IsValid a s r n lt e =
    ground
      (arith, not_pow2_iff n, a.length-block (a.alloc s (bytes a n)).1 (a.alloc s (bytes a n)).0 n)

-- `ds_io_uring_insert` leaves the lowest bit of `sq_flags` set exactly when it answers
-- `DS_ERROR_FULL`, and the other bits as they are.
io_uring_insert_flags :
    (r : Ring) (k x : ℕ)
    → r.sq_flags < 2 ^ 32
    → let (e, r') = insert r k x in
      ((e ≡ full) × (r'.sq_flags ≡ r.sq_flags / 2 * 2 + 1))
      ⊎ ((e ≡ success) × (r'.sq_flags ≡ r.sq_flags / 2 * 2))
unfolding insert
io_uring_insert_flags r k x lt = ground (arith, bit_or-one r.sq_flags, bit_and-not_one r.sq_flags)

-- `ds_io_uring_verify` accepts exactly the rings of a power of two entries, with the mask to match
-- and no more pairs than entries.
pub io_uring_verify_iff :
    (r : Ring)
    → r.ring_entries < 2 ^ 32
    → (verify r ≡ success) ↔ (
        (0 < r.ring_entries)
        × IsPow2 r.ring_entries
        × (r.ring_mask ≡ r.ring_entries - 1)
        × (sub_u32 r.tail r.head ≤ r.ring_entries))
unfolding verify
io_uring_verify_iff r small = (
  λ ok.
      let (p, s) = (not_pow2_iff r.ring_entries small).0 (ground arith) in
      (p, s, ground arith, ground arith),
  λ (p, s, masked, within). ground (arith, (not_pow2_iff r.ring_entries small).1 (p, s)),
)
