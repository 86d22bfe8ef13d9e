-- ===== src/Kcov/Refine.antt =====
-- A valid kcov buffer behaves as the bounded stack of the entries that it holds.
use bpf_arena_data_structure.Base.{
  ℕ, suc, ◌+◌, ◌-◌, ◌*◌, ◌/◌, ◌≤◌, ◌≡◌, refl, inl, inr, List, [], ◌∷◌, arith, set, get_or,
  get_or-set_self, get_or-set_ne, length-set, ℕ_discrete, ◌∙◌, ap, ap₂, sym,
}
use bpf_arena_data_structure.Api.{full, success, not_found, Kv, kv, Out, store, u64}
use bpf_arena_data_structure.Api.Queue
use bpf_arena_data_structure.Api.Queue.{lifo, Op}
use bpf_arena_data_structure.Api.Bounded
use bpf_arena_data_structure.Api.Bounded.{Bounded}
use bpf_arena_data_structure.Kcov.{Buf, word, write, start_index, insert, pop}
use bpf_arena_data_structure.Kcov.Inv.{
  IsValid, entries, contents, append, entries-set, entries_zero, start_index-eq, length-contents,
  insert_cases, insert-IsValid, pop-IsValid,
}

-- `(size - 1) / KCOV_WORDS_PER_ENTRY`
abbrev pub capacity : Buf → ℕ
capacity b = (b.size - 1) / 2

contents-append :
    {b : Buf} (x : Kv)
    → IsValid b
    → 2 * word b 0 + 3 ≤ b.size
    → contents (append b x) ≡ x ∷ contents b
unfolding contents entries
contents-append {b} x v room =
    let n = word b 0 in
    let one = set b.words 0 (n + 1) in
    let two = set one (2 * n + 1) x.key in
    let three = set two (2 * n + 2) x.value in
    let count : get_or three 0 0 ≡ suc n =
      get_or-set_ne two (2 * n + 2) 0 x.value 0 (omega arith)
      ∙ get_or-set_ne one (2 * n + 1) 0 x.key 0 (omega arith)
      ∙ get_or-set_self b.words 0 (n + 1) 0 (omega arith)
      ∙ omega arith in
    let key : get_or three (2 * n + 1) 0 ≡ x.key =
      get_or-set_ne two (2 * n + 2) (2 * n + 1) x.value 0 (omega arith)
      ∙ get_or-set_self one (2 * n + 1) x.key 0 (omega (arith, length-set b.words 0 (n + 1))) in
    let value : get_or three (2 * n + 2) 0 ≡ x.value =
      get_or-set_self two (2 * n + 2) x.value 0
        (omega (arith, length-set one (2 * n + 1) x.key, length-set b.words 0 (n + 1))) in
    ap (entries three) count
    ∙ ap₂ ◌∷◌ (ap₂ kv key value) (
        entries-set two n (2 * n + 2) x.value (omega arith)
        ∙ entries-set one n (2 * n + 1) x.key (omega arith)
        ∙ entries-set b.words n 0 (n + 1) (inl refl))

-- `ds_kcov_insert` pushes a pair, or refuses it when the buffer is full.
pub insert_refines :
    (b : Buf) (x : Kv)
    → IsValid b
    → let (e, b') = insert b x.key x.value in
      (e, contents b') ≡ Queue.insert lifo (capacity b) full (contents b) x
unfolding Queue.insert
insert_refines b x v = elim (insert_cases x.key x.value v) [
  | inl (few, e) ↦ rw e (ground (arith, length-contents b))
  | inr (room, e) ↦ rw (e, contents-append x v room) (ground (arith, length-contents b))
]

contents_suc :
    {b : Buf} (n : ℕ)
    → IsValid b
    → word b 0 ≡ suc n
    → contents b ≡ kv (word b (2 * n + 1)) (word b (2 * n + 2)) ∷ contents (write b 0 n)
unfolding contents entries
contents_suc {b} n v e =
    ap (entries b.words) e
    ∙ ap (◌∷◌ (kv (word b (2 * n + 1)) (word b (2 * n + 2)))) (
        sym (entries-set b.words n 0 n (inl refl))
        ∙ ap (entries (set b.words 0 n)) (sym (get_or-set_self b.words 0 n 0 (omega arith))))

pop_suc :
    {b : Buf} (out : Out) (n : ℕ)
    → IsValid b
    → word b 0 ≡ suc n
    → pop b out ≡ (success, write b 0 n, store out (kv (word b (2 * n + 1)) (word b (2 * n + 2))))
unfolding pop
pop_suc {b} out n v e =
    let start : start_index (suc n) ≡ 2 * n + 1 =
      ap start_index (omega arith) ∙ start_index-eq n (omega arith) in
    let second : u64 (2 * n + 1 + 1) ≡ 2 * n + 2 = omega arith in
    rw (e, start, second) (ground arith)

pop_zero : {b : Buf} (out : Out) → IsValid b → word b 0 ≡ 0 → pop b out ≡ (not_found, b, out)
unfolding pop
pop_zero {b} out v e = ground arith

contents_zero : (b : Buf) → word b 0 ≡ 0 → contents b ≡ []
unfolding contents
contents_zero b e = entries_zero b.words (word b 0) e

-- `ds_kcov_pop` takes the newest pair into the buffer, and leaves the rest.
pub pop_refines :
    (b : Buf) (out : Out)
    → IsValid b
    → let (e, b', out') = pop b out in (e, contents b', out') ≡ Queue.pop (contents b) out
unfolding Queue.pop
pop_refines b out v = elim (ℕ_discrete (word b 0) 0) [
  | yes e ↦ rw (pop_zero out v e, contents_zero b e) refl
  | no ne ↦
      let n = word b 0 - 1 in
      rw (pop_suc out n v (omega arith), contents_suc n v (omega arith)) refl
]

pub size-insert : (b : Buf) (x : Kv) → (insert b x.key x.value).1.size ≡ b.size
unfolding insert
size-insert b x = ground arith

pub size-pop : (b : Buf) (out : Out) → (pop b out).1.size ≡ b.size
unfolding pop
size-pop b out = ground arith

-- The kcov buffer as an implementation of the bounded stack.
abbrev pub kcov : Bounded
kcov = record {
  State = Buf;
  IsValid = IsValid;
  contents = contents;
  capacity = capacity;
  full_error = full;
  place = lifo;
  insert = λ b x. insert b x.key x.value;
  pop = pop;
  insert-IsValid = λ b x v. insert-IsValid x.key x.value v;
  pop-IsValid = λ b out v. pop-IsValid out v;
  capacity-insert = λ b x. ap (λ n. (n - 1) / 2) (size-insert b x);
  capacity-pop = λ b out. ap (λ n. (n - 1) / 2) (size-pop b out);
  insert_refines = insert_refines;
  pop_refines = pop_refines;
}

-- Any run of `ds_kcov_insert` and `ds_kcov_pop` from a valid buffer returns, call by call, what a
-- stack of at most `(size - 1) / 2` pairs returns that starts with the pairs held.
pub kcov-run_refines :
    (ops : List Op) (b : Buf)
    → IsValid b
    → Bounded.run kcov b ops ≡ Queue.run lifo (capacity b) full (contents b) ops
kcov-run_refines ops b v = Bounded.run_refines kcov ops b v
