-- ===== src/CkRingSpsc/Refine.antt =====
-- A valid CK ring behaves as the bounded queue of the pairs that it holds.
use bpf_arena_data_structure.Base.{
  ℕ, ◌-◌, ◌≡◌, refl, ◌≢◌, Option, none, some, List, [], ◌∷◌, ◌++◌, arith, set, get_or, ℕ_discrete,
}
use bpf_arena_data_structure.Api.{full, Kv, zero_kv, Out}
use bpf_arena_data_structure.Api.Queue
use bpf_arena_data_structure.Api.Queue.{fifo, Queue, Op}
use bpf_arena_data_structure.Api.Bounded
use bpf_arena_data_structure.Api.Bounded.{Bounded}
use bpf_arena_data_structure.Window.Slots.{slots-nil, slots-push, slots-pop, used-eq-pred_iff}
use bpf_arena_data_structure.CkRingSpsc.{
  Head, next_index, insert_at, delete_at, insert, delete, pop,
}
use bpf_arena_data_structure.CkRingSpsc.Inv.{
  IsValid, contents, length-contents, next_index-eq-mod, insert-IsValid, delete-IsValid,
}

module _ {h : Head} (v : IsValid h) where
  contents-push :
      (x : Kv)
      → next_index h h.p_tail ≢ h.c_head
      → contents (record h { cells = set h.cells h.p_tail x; p_tail = next_index h h.p_tail })
        ≡ contents h ++ x ∷ []
  unfolding contents
  contents-push x free = rw (next_index-eq-mod h.p_tail v) (
      slots-push zero_kv h.cells h.capacity h.c_head h.p_tail x v.read_in v.write_in v.storage
        (rw (← next_index-eq-mod h.p_tail v) free))

  contents-pop :
      h.c_head ≢ h.p_tail
      → contents h
        ≡ get_or h.cells h.c_head zero_kv ∷ contents (record h { c_head = next_index h h.c_head })
  unfolding contents
  contents-pop ne =
      rw (next_index-eq-mod h.c_head v)
        (slots-pop zero_kv h.cells h.capacity h.c_head h.p_tail v.read_in v.write_in ne)

contents_of_empty : (h : Head) → h.c_head ≡ h.p_tail → contents h ≡ []
unfolding contents
contents_of_empty h e = rw (← e) (slots-nil zero_kv h.cells h.capacity h.c_head)

insert_at_refines :
    (h : Head) (x : Kv)
    → IsValid h
    → let (e, h') = insert_at h x.key x.value in
      (e, contents h') ≡ Queue.insert fifo (h.capacity - 1) full (contents h) x
unfolding insert_at Queue.insert
insert_at_refines h x v = elim (ℕ_discrete (next_index h h.p_tail) h.c_head) [
  | yes stop ↦ ground (
    arith,
    length-contents h,
    next_index-eq-mod h.p_tail v,
    used-eq-pred_iff v.read_in v.write_in,
  )
  | no free ↦ ground (
    arith,
    length-contents h,
    next_index-eq-mod h.p_tail v,
    used-eq-pred_iff v.read_in v.write_in,
    contents-push v x free,
  )
]

delete_at_refines :
    (h : Head) (out : Out)
    → IsValid h
    → let (e, h', out') = delete_at h out in (e, contents h', out') ≡ Queue.pop (contents h) out
unfolding delete_at Queue.pop
delete_at_refines h out v = elim (ℕ_discrete h.c_head h.p_tail) [
  | yes e ↦ ground (arith, contents_of_empty h e)
  | no ne ↦ rw (contents-pop v ne) (ground arith)
]

-- The same through a pointer to the head.
abbrev pub IsValidPtr : Option Head → Type 0
IsValidPtr none = ⊥
IsValidPtr (some h) = IsValid h

abbrev pub contents_ptr : Option Head → Queue
contents_ptr none = []
contents_ptr (some h) = contents h

abbrev pub capacity : Option Head → ℕ
capacity none = 0
capacity (some h) = h.capacity - 1

-- `ds_ck_ring_spsc_insert` answers as the queue of `capacity - 1` pairs does, and leaves the queue
-- it would.
pub insert_refines :
    (p : Option Head) (x : Kv)
    → IsValidPtr p
    → let (e, p') = insert p x.key x.value in
      (e, contents_ptr p') ≡ Queue.insert fifo (capacity p) full (contents_ptr p) x
unfolding insert
insert_refines none x v = absurd v
insert_refines (some h) x v = insert_at_refines h x v

-- `ds_ck_ring_spsc_delete` and `ds_ck_ring_spsc_pop` take the oldest pair into the buffer, and leave
-- the rest.
pub pop_refines :
    (p : Option Head) (out : Out)
    → IsValidPtr p
    → let (e, p', out') = pop p out in (e, contents_ptr p', out') ≡ Queue.pop (contents_ptr p) out
unfolding pop delete
pop_refines none out v = absurd v
pop_refines (some h) out v = delete_at_refines h out v

pub insert-IsValidPtr :
    (p : Option Head) (x : Kv) → IsValidPtr p → IsValidPtr (insert p x.key x.value).1
unfolding insert
insert-IsValidPtr none x v = absurd v
insert-IsValidPtr (some h) x v = insert-IsValid x.key x.value v

pub pop-IsValidPtr : (p : Option Head) (out : Out) → IsValidPtr p → IsValidPtr (pop p out).1
unfolding pop delete
pop-IsValidPtr none out v = absurd v
pop-IsValidPtr (some h) out v = delete-IsValid out v

pub capacity-insert : (p : Option Head) (x : Kv) → capacity (insert p x.key x.value).1 ≡ capacity p
unfolding insert insert_at
capacity-insert none x = refl
capacity-insert (some h) x = ground arith

pub capacity-pop : (p : Option Head) (out : Out) → capacity (pop p out).1 ≡ capacity p
unfolding pop delete delete_at
capacity-pop none out = refl
capacity-pop (some h) out = ground arith

-- The CK ring as an implementation of the bounded queue.
abbrev pub ck_ring : Bounded
ck_ring = record {
  State = Option Head;
  IsValid = IsValidPtr;
  contents = contents_ptr;
  capacity = capacity;
  full_error = full;
  place = fifo;
  insert = λ p x. insert p x.key x.value;
  pop = pop;
  insert-IsValid = insert-IsValidPtr;
  pop-IsValid = pop-IsValidPtr;
  capacity-insert = capacity-insert;
  capacity-pop = capacity-pop;
  insert_refines = insert_refines;
  pop_refines = pop_refines;
}

-- Any run of `ds_ck_ring_spsc_insert` and `ds_ck_ring_spsc_pop` from a valid ring returns, call by
-- call, what a queue of at most `capacity - 1` pairs returns that starts with the pairs held.
pub ck_ring-run_refines :
    (ops : List Op) (p : Option Head)
    → IsValidPtr p
    → Bounded.run ck_ring p ops ≡ Queue.run fifo (capacity p) full (contents_ptr p) ops
ck_ring-run_refines ops p v = Bounded.run_refines ck_ring ops p v
