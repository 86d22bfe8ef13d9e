-- ===== src/CkStack/Refine.antt =====
-- The operations of the CK stack on the pairs that it holds.
use bpf_arena_data_structure.Base.{
  ℕ, zero, suc, ◌≤◌, ◌<◌, ◌≡◌, refl, ◌≢◌, ◌⊎◌, inl, inr, List, [], ◌∷◌, some, ap, ap₂, ◌∙◌, arith,
  length, min, ℕ_discrete,
}
use bpf_arena_data_structure.Api.{success, nomem, Kv, kv, Allocator, u64, sub_u64}
use bpf_arena_data_structure.Api.Queue
use bpf_arena_data_structure.Api.Queue.{find, Queue}
use bpf_arena_data_structure.CkStack.{
  Entry, Stack, store_entry, linked, pushed, push_loop, push_upmc, pop_loop, pop_upmc, insert, pop,
  search_loop, search,
}
use bpf_arena_data_structure.CkStack.Chain.{
  Chain, NotIn, pairs, pairs-cons, count-store_entry, store_entry_self, Chain-store_entry,
  pairs-store_entry,
}

-- Run by itself, the loop of `push_upmc` ends in its first round.
push_loop-head :
    (fuel : ℕ) (s : Stack) (entry : ℕ)
    → push_loop fuel s entry s.head ≡ pushed (linked s entry s.head) entry
unfolding push_loop store_entry
push_loop-head zero s entry = ground arith
push_loop-head (suc fuel) s entry = ground arith

-- The invariant: the entries `es` are the ones reached, and the count is theirs.
pub record IsValid (s : Stack) (es : List ℕ) : Type 0 where
  pub chain : Chain s.entries s.head es
  pub counted : s.count ≡ u64 (length es)

push_upmc-eq :
    (fuel : ℕ) (s : Stack) (entry k x : ℕ)
    → 0 < entry
    → let s' = store_entry s entry (record { next = (s.entries entry).next; pair = kv k x }) in
      push_upmc fuel s entry k x ≡ pushed (linked s' entry s.head) entry
unfolding push_upmc store_entry
push_upmc-eq fuel s entry k x pos =
    let s' = store_entry s entry (record { next = (s.entries entry).next; pair = kv k x }) in
    ground (arith, push_loop-head fuel s' entry)

pop_upmc-head :
    (fuel : ℕ) (s : Stack)
    → 0 < s.head
    → pop_upmc (suc fuel) s
      ≡ (s.head, record s { head = (s.entries s.head).next; count = sub_u64 s.count 1 })
unfolding pop_upmc pop_loop
pop_upmc-head fuel s pos = ground arith

pop_upmc-nil : (fuel : ℕ) (s : Stack) → s.head ≡ 0 → pop_upmc (suc fuel) s ≡ (0, s)
unfolding pop_upmc pop_loop
pop_upmc-nil fuel s e = ground arith

-- Pushing an entry that is not in the stack puts it in front of the others, with its pair.
ck_stack_push :
    (fuel : ℕ) (s : Stack) (es : List ℕ) (entry : ℕ) (x : Kv)
    → IsValid s es
    → 0 < entry
    → NotIn entry es
    → let s' = push_upmc fuel s entry x.key x.value in
      IsValid s' (entry ∷ es) × (pairs s'.entries (entry ∷ es) ≡ x ∷ pairs s.entries es)
ck_stack_push fuel s es entry x v pos out =
    let filled : Entry = record { next = (s.entries entry).next; pair = kv x.key x.value } in
    let s1 = store_entry s entry filled in
    let placed : Entry = record { next = s.head; pair = (s1.entries entry).pair } in
    let self = store_entry_self s1 entry placed in
    rw (push_upmc-eq fuel s entry x.key x.value pos) (
      record {
        chain = (
          refl,
          pos,
          rw (ap (λ e. e.next) self) (
              Chain-store_entry s1 entry placed s.head es out
                (Chain-store_entry s entry filled s.head es out v.chain)),
        );
        counted =
            omega (
              arith,
              v.counted,
              count-store_entry s1 entry placed,
              count-store_entry s entry filled,
            );
      },
      pairs-cons (store_entry s1 entry placed).entries entry es
          ∙ ap₂ ◌∷◌ (ap (λ e. e.pair) self ∙ ap (λ e. e.pair) (store_entry_self s entry filled))
              (pairs-store_entry s1 entry placed es out ∙ pairs-store_entry s entry filled es out),
    )

insert_some :
    (a : Allocator) (fuel : ℕ) (m : a.State) (s : Stack) (k x : ℕ)
    → let entry = (a.alloc m 24).0 in
      entry ≢ 0 → insert a fuel m s k x ≡ (success, push_upmc fuel s entry k x, (a.alloc m 24).1)
unfolding insert
insert_some a fuel m s k x ne = ground arith

insert_none :
    (a : Allocator) (fuel : ℕ) (m : a.State) (s : Stack) (k x : ℕ)
    → (a.alloc m 24).0 ≡ 0
    → insert a fuel m s k x ≡ (nomem, s, (a.alloc m 24).1)
unfolding insert
insert_none a fuel m s k x e = ground arith

-- `ds_ck_stack_upmc_insert`, given an entry that is not in the stack, puts the pair in front of the
-- others; given none, it answers `DS_ERROR_NOMEM` and leaves the stack.
pub ck_stack_insert :
    (a : Allocator) (fuel : ℕ) (m : a.State) (s : Stack) (es : List ℕ) (x : Kv)
    → IsValid s es
    → NotIn (a.alloc m 24).0 es
    → let (r, s', m') = insert a fuel m s x.key x.value in
      let entry = (a.alloc m 24).0 in
      ((entry ≡ 0) × (r ≡ nomem) × (s' ≡ s))
      ⊎ ((r ≡ success)
          × IsValid s' (entry ∷ es)
          × (pairs s'.entries (entry ∷ es) ≡ x ∷ pairs s.entries es))
ck_stack_insert a fuel m s es x v out = elim (ℕ_discrete (a.alloc m 24).0 0) [
  | yes e ↦ rw (insert_none a fuel m s x.key x.value e) (inl (e, refl, refl))
  | no ne ↦
      let (v', held) = ck_stack_push fuel s es (a.alloc m 24).0 x v (omega arith) out in
      rw (insert_some a fuel m s x.key x.value ne) (inr (refl, v', held))
]

abbrev pub rest : List ℕ → List ℕ
rest [] = []
rest (e ∷ es) = es

pop_some :
    (fuel : ℕ) (s : Stack) (old : Kv)
    → 0 < s.head
    → pop (suc fuel) s (some old) ≡ (
      success,
      record s { head = (s.entries s.head).next; count = sub_u64 s.count 1 },
      some (s.entries s.head).pair,
    )
unfolding pop
pop_some fuel s old pos = rw (pop_upmc-head fuel s pos) (ground arith)

-- `ds_ck_stack_upmc_pop` takes the pair of the first entry and leaves the others, or finds the stack
-- empty, if `can_loop` lets its loop go round once.
pub ck_stack_pop :
    (fuel : ℕ) (s : Stack) (es : List ℕ) (old : Kv)
    → IsValid s es
    → let (r, s', out) = pop (suc fuel) s (some old) in
      IsValid s' (rest es)
      × ((r, pairs s'.entries (rest es), out) ≡ Queue.pop (pairs s.entries es) (some old))
unfolding pop pairs Queue.pop
ck_stack_pop fuel s [] old v = rw (pop_upmc-nil fuel s v.chain) (v, refl)
ck_stack_pop fuel s (e ∷ es) old v =
    let (at, pos, chain) = v.chain in
    rw (pop_some fuel s old (omega (arith, at)))
      (record { chain = rw at chain; counted = omega (arith, v.counted) }, rw at refl)

search_loop-find :
    (fuel : ℕ) (s : Stack) (cursor : ℕ) (es : List ℕ) (key : ℕ)
    → Chain s.entries cursor es
    → length es ≤ fuel
    → search_loop fuel s cursor key ≡ find (pairs s.entries es) key
unfolding search_loop find pairs
search_loop-find zero s cursor [] key c le = refl
search_loop-find zero s cursor (e ∷ es) key c le = absurd (omega arith)
search_loop-find (suc fuel) s cursor [] key c le = rw c refl
search_loop-find (suc fuel) s cursor (e ∷ es) key (at, pos, c) le =
    rw (at, search_loop-find fuel s (s.entries e).next es key c (omega arith)) (ground arith)

-- `ds_ck_stack_upmc_search`: in a stack of at most 100000 entries, and rounds enough, the search finds exactly the keys held.
ck_stack_search :
    (fuel : ℕ) (s : Stack) (es : List ℕ) (key : ℕ)
    → IsValid s es
    → length es ≤ fuel
    → length es ≤ 100000
    → search fuel s key ≡ find (pairs s.entries es) key
unfolding search
ck_stack_search fuel s es key v enough few =
    search_loop-find (min fuel 100000) s s.head es key v.chain (omega arith)
