-- ===== src/MsQueue/Remove.antt =====
-- `ds_msqueue_pop` on a valid queue, whose tail may lag behind.
use bpf_arena_data_structure.Base.{
  ℕ, zero, suc, ◌+◌, ◌≤◌, ◌<◌, ◌≡◌, refl, List, [], ◌∷◌, ◌++◌, some, length, arith, ap, subst, sym,
  ◌∙◌, Bool, ltb, not, ◌&&◌, ◌||◌, ◌==◌, true, false,
}
use bpf_arena_data_structure.Api.{success, not_found, Kv, sub_u64, Allocator}
use bpf_arena_data_structure.Api.Queue
use bpf_arena_data_structure.Api.Queue.{Queue}
use bpf_arena_data_structure.MsQueue.{Msqueue, pop_loop, pop}
use bpf_arena_data_structure.Linked.{Chain, pairs, rest, NotIn-right, Chain-pos}
use bpf_arena_data_structure.MsQueue.Inv.{
  links, nodes, contents, IsValid, contents-elems, contents_dummy,
}

-- The tests before the first exchange pass.
guards :
    (user : Bool) (r head tail : ℕ)
    → r < 10
    → 0 < head
    → 0 < tail
    → (not (ltb r 10) || user && (head == 0 || tail == 0)) ≡ false
guards user r head tail few h t = ground arith

module _ (a : Allocator) (free : a.State → ℕ → a.State) (user : Bool) where
  -- The dummy is the tail, and nothing is linked behind it.
  pop_loop-empty :
      (rounds retry_count : ℕ) (s : a.State) {q : Msqueue} {t : ℕ} (old : Kv)
      → IsValid q [] t []
      → retry_count < 10
      → pop_loop a free user (suc rounds) retry_count s q old ≡ (not_found, q, old, s)
  unfolding pop_loop
  pop_loop-empty rounds r s {q} old v few =
      let tail = v.at_tail in
      let (at, pos, end) = v.chain in
      let guard = guards user r q.head q.tail few (omega arith) (omega arith) in
      let self : (q.head == q.head) ≡ true = ground arith in
      let nothing : (q.elems q.head).next ≡ 0 = ap (λ x. (q.elems x).next) at ∙ end in
      rw (guard, self, nothing) refl

  -- The dummy is the tail, but it lags behind.
  pop_loop-help :
      (rounds retry_count : ℕ) (s : a.State) {q : Msqueue} {t f : ℕ} {lag : List ℕ} (old : Kv)
      → IsValid q [] t (f ∷ lag)
      → retry_count < 10
      → pop_loop a free user (suc rounds) retry_count s q old
        ≡ pop_loop a free user rounds (retry_count + 1) s (record q { tail = f }) old
  unfolding pop_loop
  pop_loop-help rounds r s {q} {t} {f} old v few =
      let tail = v.at_tail in
      let (at, pos, (to, fpos, c)) = v.chain in
      let guard = guards user r q.head q.tail few (omega arith) (omega arith) in
      let self : (q.head == q.head) ≡ true = ground arith in
      let next : (q.elems q.head).next ≡ f = ap (λ x. (q.elems x).next) at ∙ to in
      let more : (f == 0) ≡ false = ground arith in
      let same : (q.head == q.tail) ≡ true = ground arith in
      let own : (q.tail == q.tail) ≡ true = ground arith in
      rw (guard, self, next, more, same, own) refl

  -- The dummy goes, and the next element, `e`, takes its place.
  pop_loop-take :
      (rounds retry_count : ℕ) (s : a.State) {q : Msqueue} {d e t : ℕ} {front lag es : List ℕ}
      (old : Kv)
      → IsValid q (d ∷ front) t lag
      → nodes front t lag ≡ e ∷ es
      → retry_count < 10
      → pop_loop a free user (suc rounds) retry_count s q old ≡ (
        success,
        record q { head = e; count = sub_u64 q.count 1 },
        (q.elems e).pair,
        free s q.head,
      )
  unfolding pop_loop
  pop_loop-take rounds r s {q} {d} {e} {t} {front} {lag} old v split few =
      let (at, pos, behind) = v.chain in
      let (to, e_pos, c) = subst (Chain (links q.elems) (links q.elems d)) split behind in
      let t_pos = Chain-pos (links q.elems) (links q.elems d) t front lag behind in
      let tail = v.at_tail in
      let d_ne = (NotIn-right d front (t ∷ lag) v.distinct.0).0 in
      let guard = guards user r q.head q.tail few (omega arith) (omega arith) in
      let self : (q.head == q.head) ≡ true = ground arith in
      let next : (q.elems q.head).next ≡ e = ap (λ x. (q.elems x).next) at ∙ to in
      let more : (e == 0) ≡ false = ground arith in
      let apart : (q.head == q.tail) ≡ false = ground arith in
      rw (guard, self, next, more, apart) refl

-- A queue that lost its dummy.
abbrev popped : Msqueue → ℕ → Msqueue
popped q e = record q { head = e; count = sub_u64 q.count 1 }

popped-IsValid :
    {q : Msqueue} {d e t : ℕ} {front lag es : List ℕ}
    → IsValid q (d ∷ front) t lag
    → nodes front t lag ≡ e ∷ es
    → IsValid (popped q e) front t lag
popped-IsValid {q} {d} {e} {t} {front} {lag} {es} v split =
    let (at, pos, behind) = v.chain in
    let (to, e_pos, c) = subst (Chain (links q.elems) (links q.elems d)) split behind in
    let n = v.counted in
    record {
      chain = subst (λ x. Chain (links q.elems) x (nodes front t lag)) to behind;
      distinct = v.distinct.1;
      at_tail = v.at_tail;
      counted = omega (arith, ap length split, ap (λ l. length (rest l)) split);
    }

contents-popped :
    (q : Msqueue) (d e t : ℕ) (front lag es : List ℕ)
    → nodes front t lag ≡ e ∷ es
    → contents q (nodes (d ∷ front) t lag)
      ≡ (q.elems e).pair ∷ contents (popped q e) (nodes front t lag)
unfolding contents pairs
contents-popped q d e t front lag es split =
    ap (pairs (λ a. (q.elems a).pair)) split
    ∙ ap (λ l. (q.elems e).pair ∷ pairs (λ a. (q.elems a).pair) (rest l)) (sym split)

-- `ds_msqueue_pop` into a buffer takes the oldest pair of a valid queue, wherever the tail is, or
-- answers DS_ERROR_NOT_FOUND and leaves the queue and the buffer when there is none, if `can_loop`
-- allows two rounds; the queue stays valid.
pub msqueue_pop :
    (a : Allocator) (free : a.State → ℕ → a.State) (user : Bool) (rounds : ℕ) (s : a.State)
    (q : Msqueue) (front : List ℕ) (t : ℕ) (lag : List ℕ) (old : Kv)
    → IsValid q front t lag
    → 2 ≤ rounds
    → let (e, q', out, _) = pop a free user rounds s q (some old) in
      (front' : List ℕ) × (t' : ℕ) × (lag' : List ℕ) × IsValid q' front' t' lag'
      × ((e, contents q' (nodes front' t' lag'), out)
          ≡ Queue.pop (contents q (nodes front t lag)) (some old))
unfolding pop Queue.pop
msqueue_pop a free user zero s q front t lag old v two = absurd (omega arith)
msqueue_pop a free user (suc zero) s q front t lag old v two = absurd (omega arith)
msqueue_pop a free user (suc (suc rounds)) s q [] t [] old v two =
    rw (pop_loop-empty a free user (suc rounds) 0 s old v (omega arith))
      ([], t, [], v, rw (contents_dummy q t) refl)
msqueue_pop a free user (suc (suc rounds)) s q [] t (f ∷ lag) old v two =
    let helped : IsValid (record q { tail = f }) (t ∷ []) f lag = record {
      chain = v.chain;
      distinct = v.distinct;
      at_tail = refl;
      counted = v.counted;
    } in
    rw
      (
        pop_loop-help a free user (suc rounds) 0 s old v (omega arith),
        pop_loop-take a free user rounds 1 s {es = lag} old helped refl (omega arith),
      )
      (
        [],
        f,
        lag,
        popped-IsValid {es = lag} helped refl,
        rw (contents-popped q t f f [] lag lag refl) (
            ap (λ c. (success, c, some (q.elems f).pair))
              (contents-elems (popped q f) (popped (record q { tail = f }) f) (f ∷ lag) refl)),
      )
msqueue_pop a free user (suc (suc rounds)) s q (d ∷ []) t lag old v two =
    rw (pop_loop-take a free user (suc rounds) 0 s {es = lag} old v refl (omega arith)) (
      [],
      t,
      lag,
      popped-IsValid {es = lag} v refl,
      rw (contents-popped q d t t [] lag lag refl) refl,
    )
msqueue_pop a free user (suc (suc rounds)) s q (d ∷ e ∷ front) t lag old v two =
    rw (pop_loop-take a free user (suc rounds) 0 s {es = front ++ t ∷ lag} old v refl (omega arith))
      (
        e ∷ front,
        t,
        lag,
        popped-IsValid {es = front ++ t ∷ lag} v refl,
        rw (contents-popped q d e t (e ∷ front) lag (front ++ t ∷ lag) refl) refl,
      )
