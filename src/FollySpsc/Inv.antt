-- ===== src/FollySpsc/Inv.antt =====
-- The representation invariant of `struct ds_spsc_queue_head` and the pairs that it holds.
use bpf_arena_data_structure.Base.{
  ℕ, ◌+◌, ◌-◌, ◌%◌, ◌^◌, ◌≤◌, ◌<◌, ◌≡◌, ◌↔◌, true, [], sym, ap, ◌∙◌, eq_nil_of_length, arith,
  length, length-set, leb, if◌then◌else◌, mod-eq_of_lt, mod-eq_of_eq, dec_lt, dec_le,
}
use bpf_arena_data_structure.Api.{success, Out, zero_kv, Allocator}
use bpf_arena_data_structure.Api.Queue.{Queue}
use bpf_arena_data_structure.Window.{window, length-window}
use bpf_arena_data_structure.FollySpsc.{
  Head, next_record, bytes, init, insert, delete, pop, wrapped_size, verify, size, is_empty,
  is_full,
}

-- At most 2^31 slots, so that the sizes fit an `int`.
pub record IsValid (h : Head) : Type 0 where
  pub at_least : 2 ≤ h.size
  pub small : h.size ≤ 2 ^ 31
  pub storage : h.size ≤ length h.cells
  pub read_in : h.read_idx < h.size
  pub write_in : h.write_idx < h.size

-- Slots from `read_idx` up to `write_idx`, going round at `size`.
unfoldable pub used : Head → ℕ
used h =
    if leb h.read_idx h.write_idx
    then h.write_idx - h.read_idx
    else h.write_idx + h.size - h.read_idx

unfoldable pub contents : Head → Queue
unfolding window
contents h = window zero_kv h.cells h.size h.read_idx (used h)

pub length-contents : (h : Head) → length (contents h) ≡ used h
unfolding contents
length-contents h = length-window zero_kv h.cells h.size h.read_idx (used h)

-- On an index of the ring, the step by comparison is the step modulo `size`.
pub next_record-eq-mod : (s i : ℕ) → 2 ≤ s → s ≤ 2 ^ 31 → i < s → next_record s i ≡ (i + 1) % s
unfolding next_record
next_record-eq-mod s i p q lt = elim (dec_lt (i + 1) s) [
  | yes below ↦ ground (arith, mod-eq_of_lt below)
  | no last ↦ ground (arith, mod-eq_of_eq (i + 1) s 1 {c = 0} (omega arith) (omega arith))
]

pub write_idx-eq-mod : {h : Head} → IsValid h → h.write_idx ≡ (h.read_idx + used h) % h.size
unfolding used
write_idx-eq-mod {h} v = elim (dec_le h.read_idx h.write_idx) [
  | yes up ↦ ground (arith, mod-eq_of_lt v.write_in)
  | no round ↦ ground (
    arith,
    mod-eq_of_eq (h.write_idx + h.size) h.size 1 {c = h.write_idx} (omega arith) (omega arith),
  )
]

pub insert-IsValid : {h : Head} (k x : ℕ) → IsValid h → IsValid (insert h k x).1
unfolding insert next_record
insert-IsValid {h} k x v =
    ground (arith, length-set h.cells h.write_idx (record { key = k; value = x }))

pub delete-IsValid : {h : Head} (out : Out) → IsValid h → IsValid (delete h out).1
unfolding delete next_record
delete-IsValid {h} out v = ground arith

pub pop-IsValid : {h : Head} (out : Out) → IsValid h → IsValid (pop h out).1
unfolding pop
pop-IsValid out v = delete-IsValid out v

-- `wrapped_size` of two indices of the ring is the number of slots between them.
pub wrapped_size-eq-used :
    {h : Head} → IsValid h → wrapped_size h.read_idx h.write_idx h.size ≡ used h
unfolding wrapped_size used
wrapped_size-eq-used v = ground arith

pub used-lt-size : {h : Head} → IsValid h → used h < h.size
unfolding used
used-lt-size v = ground arith

-- An accepted `ds_spsc_init` leaves a valid, empty queue with room for `size - 1` pairs, if the byte
-- count `16 * size` fits the allocator's `unsigned int`.
pub spsc_init-IsValid :
    (a : Allocator) (s : a.State) (h : Head) (n : ℕ)
    → n < 2 ^ 28
    → (init a s h n).0 ≡ success
    → let h' = (init a s h n).1 in IsValid h' × (contents h' ≡ []) × (h'.size ≡ n)
unfolding init contents used window
spsc_init-IsValid a s h n lt e =
    ground (arith, a.length-block (a.alloc s (bytes a n)).1 (a.alloc s (bytes a n)).0 n)

-- On a valid queue the three observers agree with the pairs held, and `ds_spsc_verify` accepts.
pub spsc_observers :
    (h : Head)
    → IsValid h
    → (size h ≡ length (contents h))
      × ((is_empty h ≡ true) ↔ (contents h ≡ []))
      × ((is_full h ≡ true) ↔ (length (contents h) ≡ h.size - 1))
      × (verify h ≡ success)
unfolding size is_empty is_full verify used wrapped_size next_record
spsc_observers h v = (
  wrapped_size-eq-used v ∙ sym (length-contents h),
  (
    λ e. eq_nil_of_length _ (ground (arith, length-contents h)),
    λ e. ground (arith, length-contents h, ap length e),
  ),
  ground (arith, length-contents h),
  ground arith,
)

-- For a size of at most 2^31, `ds_spsc_verify` accepts exactly when both indices lie in the ring: its
-- last test never fails.
spsc_verify_iff :
    (h : Head)
    → h.size ≤ 2 ^ 31
    → (verify h ≡ success) ↔ ((h.read_idx < h.size) × (h.write_idx < h.size))
unfolding verify
spsc_verify_iff h small = ground arith
