-- ===== src/IoUring/Refine.antt =====
-- A valid io_uring ring behaves as the bounded queue of the pairs that it holds.
use bpf_arena_data_structure.Base.{
  ℕ, suc, ◌+◌, ◌-◌, ◌%◌, ◌^◌, ◌<◌, ◌≡◌, refl, ◌≢◌, List, [], ◌∷◌, ◌++◌, arith, set, get_or, bit_and,
  bit_or, ℕ_discrete, ◌∙◌, ap, ap₂, sym, eq_nil_of_length, dec_le,
}
use bpf_arena_data_structure.Bits.{bit_and_pow2, mod_pow2}
use bpf_arena_data_structure.Api.{full, Kv, zero_kv, Out, u32, sub_u32}
use bpf_arena_data_structure.Api.Queue
use bpf_arena_data_structure.Api.Queue.{fifo, Op}
use bpf_arena_data_structure.Api.Bounded
use bpf_arena_data_structure.Api.Bounded.{Bounded}
use bpf_arena_data_structure.Window.{window, window-set, window-mod}
use bpf_arena_data_structure.IoUring.{Ring, flag_full, insert, pop}
use bpf_arena_data_structure.IoUring.Inv.{
  IsValid, contents, length-contents, insert-IsValid, pop-IsValid,
}

module _ {r : Ring} (v : IsValid r) where
  slot-eq-mod : (i : ℕ) → bit_and i r.ring_mask ≡ i % r.ring_entries
  slot-eq-mod i = rw v.masked (bit_and_pow2 r.ring_entries i v.pow2)

  u32-mod : (i : ℕ) → u32 i % r.ring_entries ≡ i % r.ring_entries
  u32-mod i = mod_pow2 32 r.ring_entries i v.pow2 (omega arith)

  -- The producer's slot is the one behind the pairs that wait, also when `tail` has wrapped.
  tail-eq-mod : r.tail % r.ring_entries ≡ (r.head + sub_u32 r.tail r.head) % r.ring_entries
  tail-eq-mod =
      ap (λ i. i % r.ring_entries) (omega arith) ∙ u32-mod (r.head + sub_u32 r.tail r.head)

  contents-push :
      (x : Kv) (flags : ℕ)
      → sub_u32 r.tail r.head < r.ring_entries
      → contents (record r {
        cells = set r.cells (bit_and r.tail r.ring_mask) x;
        tail = u32 (r.tail + 1);
        sq_flags = flags;
      })
        ≡ contents r ++ x ∷ []
  unfolding contents
  contents-push x flags free =
      ap (window zero_kv (set r.cells (bit_and r.tail r.ring_mask) x) r.ring_entries r.head)
        (omega arith)
      ∙ window-set zero_kv r.cells r.ring_entries r.head (sub_u32 r.tail r.head)
          (bit_and r.tail r.ring_mask) x free v.storage (slot-eq-mod r.tail ∙ tail-eq-mod)

  contents-pop :
      r.head ≢ r.tail
      → contents r
        ≡ get_or r.cells (bit_and r.head r.ring_mask) zero_kv
          ∷ contents (record r { head = u32 (r.head + 1) })
  unfolding contents window
  contents-pop ne =
      ap (window zero_kv r.cells r.ring_entries r.head)
        (◌∙◌ {b = suc (sub_u32 r.tail (u32 (r.head + 1)))} (omega arith) refl)
      ∙ ap₂ ◌∷◌ (ap (λ i. get_or r.cells i zero_kv) (sym (slot-eq-mod r.head))) (
          window-mod zero_kv r.cells r.ring_entries (suc r.head) (u32 (r.head + 1))
            (sub_u32 r.tail (u32 (r.head + 1)))
            (ap (λ i. i % r.ring_entries) (omega arith) ∙ sym (u32-mod (r.head + 1))))

contents-flags : (r : Ring) (flags : ℕ) → contents (record r { sq_flags = flags }) ≡ contents r
unfolding contents
contents-flags r flags = refl

contents_of_empty : (r : Ring) → r.tail < 2 ^ 32 → r.head ≡ r.tail → contents r ≡ []
contents_of_empty r lt e = eq_nil_of_length (contents r) (omega (arith, length-contents r))

-- `ds_io_uring_insert` answers as the queue of `ring_entries` pairs does, and leaves the queue it
-- would: no slot is kept free.
pub insert_refines :
    (r : Ring) (x : Kv)
    → IsValid r
    → let (e, r') = insert r x.key x.value in
      (e, contents r') ≡ Queue.insert fifo r.ring_entries full (contents r) x
unfolding insert Queue.insert
insert_refines r x v = elim (dec_le r.ring_entries (sub_u32 r.tail r.head)) [
  | yes stop ↦ ground (arith, length-contents r, contents-flags r (bit_or r.sq_flags flag_full))
  | no free ↦
      ground
        (arith, length-contents r, contents-push v x (bit_and r.sq_flags (2 ^ 32 - 1 - flag_full)))
]

-- `ds_io_uring_pop` takes the oldest pair into the buffer, and leaves the rest.
pub pop_refines :
    (r : Ring) (out : Out)
    → IsValid r
    → let (e, r', out') = pop r out in (e, contents r', out') ≡ Queue.pop (contents r) out
unfolding pop Queue.pop
pop_refines r out v = elim (ℕ_discrete r.head r.tail) [
  | yes e ↦ ground (arith, contents_of_empty r v.tail_u32 e)
  | no ne ↦ rw (contents-pop v ne) (ground arith)
]

pub entries-insert : (r : Ring) (x : Kv) → (insert r x.key x.value).1.ring_entries ≡ r.ring_entries
unfolding insert
entries-insert r x = ground arith

pub entries-pop : (r : Ring) (out : Out) → (pop r out).1.ring_entries ≡ r.ring_entries
unfolding pop
entries-pop r out = ground arith

-- The io_uring ring as an implementation of the bounded queue.
abbrev pub io_uring : Bounded
io_uring = record {
  State = Ring;
  IsValid = IsValid;
  contents = contents;
  capacity = λ r. r.ring_entries;
  full_error = full;
  place = fifo;
  insert = λ r x. insert r x.key x.value;
  pop = pop;
  insert-IsValid = λ r x v. insert-IsValid x.key x.value v;
  pop-IsValid = λ r out v. pop-IsValid out v;
  capacity-insert = entries-insert;
  capacity-pop = entries-pop;
  insert_refines = insert_refines;
  pop_refines = pop_refines;
}

-- Any run of `ds_io_uring_insert` and `ds_io_uring_pop` from a valid ring, across the wrap of the
-- indices at 2^32 too, returns, call by call, what a queue of at most `ring_entries` pairs returns
-- that starts with the pairs held.
pub io_uring-run_refines :
    (ops : List Op) (r : Ring)
    → IsValid r
    → Bounded.run io_uring r ops ≡ Queue.run fifo r.ring_entries full (contents r) ops
io_uring-run_refines ops r v = Bounded.run_refines io_uring ops r v
