-- ===== src/FollySpsc/Refine.antt =====
-- A valid Folly ring behaves as the bounded queue of the pairs that it holds.
use native.Mathlib.Nat.{mod-mod}
use bpf_arena_data_structure.Base.{
  ℕ, suc, ◌+◌, ◌-◌, ◌%◌, ◌≡◌, ◌≢◌, List, [], ◌∷◌, ◌++◌, arith, set, get_or, mod-eq_of_lt,
  ℕ_discrete, ◌∙◌, ap, ap₂, sym, eq_nil_of_length,
}
use bpf_arena_data_structure.Api.{full, Kv, zero_kv, Out}
use bpf_arena_data_structure.Api.Queue
use bpf_arena_data_structure.Api.Queue.{fifo, Op}
use bpf_arena_data_structure.Api.Bounded
use bpf_arena_data_structure.Api.Bounded.{Bounded}
use bpf_arena_data_structure.Window.{window, window-set, window-mod}
use bpf_arena_data_structure.FollySpsc.{Head, next_record, insert, delete, pop}
use bpf_arena_data_structure.FollySpsc.Inv.{
  IsValid, used, contents, length-contents, next_record-eq-mod, write_idx-eq-mod, insert-IsValid,
  pop-IsValid, used-lt-size,
}

-- The heads after a successful insert and a successful delete.
abbrev pub pushed : Head → Kv → Head
pushed h x = record h {
  cells = set h.cells h.write_idx x;
  write_idx = next_record h.size h.write_idx;
}

abbrev pub popped : Head → Head
popped h = record h { read_idx = next_record h.size h.read_idx }

pub used-pushed :
    {h : Head} (x : Kv)
    → IsValid h
    → next_record h.size h.write_idx ≢ h.read_idx
    → used (pushed h x) ≡ suc (used h)
unfolding used next_record
used-pushed x v free = ground arith

used_of_full :
    {h : Head} → IsValid h → next_record h.size h.write_idx ≡ h.read_idx → used h ≡ h.size - 1
unfolding used next_record
used_of_full v e = ground arith

used-popped : {h : Head} → IsValid h → h.read_idx ≢ h.write_idx → used h ≡ suc (used (popped h))
unfolding used next_record
used-popped v ne = ground arith

contents-pushed :
    {h : Head} (x : Kv)
    → IsValid h
    → next_record h.size h.write_idx ≢ h.read_idx
    → contents (pushed h x) ≡ contents h ++ x ∷ []
unfolding contents
contents-pushed {h} x v free =
    ap (window zero_kv (pushed h x).cells h.size h.read_idx) (used-pushed x v free)
    ∙ window-set zero_kv h.cells h.size h.read_idx (used h) h.write_idx x (used-lt-size v) v.storage
        (write_idx-eq-mod v)

pub contents-popped :
    {h : Head}
    → IsValid h
    → h.read_idx ≢ h.write_idx
    → contents h ≡ get_or h.cells h.read_idx zero_kv ∷ contents (popped h)
unfolding contents window
contents-popped {h} v ne =
    ap (window zero_kv h.cells h.size h.read_idx) (used-popped v ne)
    ∙ ap₂ ◌∷◌ (ap (λ i. get_or h.cells i zero_kv) (mod-eq_of_lt v.read_in)) (
        window-mod zero_kv h.cells h.size (suc h.read_idx) (next_record h.size h.read_idx)
          (used (popped h))
          (ap (λ i. i % h.size) (omega arith)
            ∙ sym (mod-mod (h.read_idx + 1) h.size)
            ∙ ap (λ i. i % h.size)
                (sym (next_record-eq-mod h.size h.read_idx v.at_least v.small v.read_in))))

contents_of_empty : (h : Head) → h.read_idx ≡ h.write_idx → contents h ≡ []
unfolding used
contents_of_empty h e = eq_nil_of_length (contents h) (ground (arith, length-contents h))

-- `ds_spsc_insert` answers as the queue of `size - 1` pairs does, and leaves the queue it would.
pub insert_refines :
    (h : Head) (x : Kv)
    → IsValid h
    → let (e, h') = insert h x.key x.value in
      (e, contents h') ≡ Queue.insert fifo (h.size - 1) full (contents h) x
unfolding insert Queue.insert
insert_refines h x v = elim (ℕ_discrete (next_record h.size h.write_idx) h.read_idx) [
  | yes stop ↦ ground (arith, length-contents h, used_of_full v stop)
  | no free ↦ ground (
    arith,
    length-contents h,
    used-pushed x v free,
    contents-pushed x v free,
    used-lt-size {h = pushed h x},
    insert-IsValid x.key x.value v,
  )
]

-- `ds_spsc_delete` and `ds_spsc_pop` take the oldest pair into the buffer, and leave the rest.
pub pop_refines :
    (h : Head) (out : Out)
    → IsValid h
    → let (e, h', out') = pop h out in (e, contents h', out') ≡ Queue.pop (contents h) out
unfolding pop delete Queue.pop
pop_refines h out v = elim (ℕ_discrete h.read_idx h.write_idx) [
  | yes e ↦ ground (arith, contents_of_empty h e)
  | no ne ↦ rw (contents-popped v ne) (ground arith)
]

pub size-pop : (h : Head) (out : Out) → (pop h out).1.size ≡ h.size
unfolding pop delete
size-pop h out = ground arith

pub size-insert : (h : Head) (k x : ℕ) → (insert h k x).1.size ≡ h.size
unfolding insert
size-insert h k x = ground arith

-- The Folly ring as an implementation of the bounded queue.
abbrev pub folly : Bounded
folly = record {
  State = Head;
  IsValid = IsValid;
  contents = contents;
  capacity = λ h. h.size - 1;
  full_error = full;
  place = fifo;
  insert = λ h x. insert h x.key x.value;
  pop = pop;
  insert-IsValid = λ h x v. insert-IsValid x.key x.value v;
  pop-IsValid = λ h out v. pop-IsValid out v;
  capacity-insert = λ h x. ap (λ n. n - 1) (size-insert h x.key x.value);
  capacity-pop = λ h out. ap (λ n. n - 1) (size-pop h out);
  insert_refines = insert_refines;
  pop_refines = pop_refines;
}

-- Any run of `ds_spsc_insert` and `ds_spsc_pop` from a valid ring returns, call by call, what a
-- queue of at most `size - 1` pairs returns that starts with the pairs held.
pub spsc_run_refines :
    (ops : List Op) (h : Head)
    → IsValid h
    → Bounded.run folly h ops ≡ Queue.run fifo (h.size - 1) full (contents h) ops
spsc_run_refines ops h v = Bounded.run_refines folly ops h v
