-- ===== src/MsQueue/Failure.antt =====
-- `ds_msqueue_insert` when its loop ends before the new element is linked.
use bpf_arena_data_structure.Base.{
  ℕ, zero, suc, ◌+◌, ◌≤◌, ◌<◌, ◌≡◌, refl, List, [], ◌∷◌, length, arith, ap, ◌∙◌, ltb, leb, ◌==◌,
  true, false, dec_lt, ℕ_discrete,
}
use bpf_arena_data_structure.Api.{success, invalid, Kv, u64, Allocator}
use bpf_arena_data_structure.MsQueue.{Msqueue, swing, add_loop, add_node, insert}
use bpf_arena_data_structure.Linked.{
  Chain, NotIn, pairs, rest, pairs_same, Chain-behind, NotIn-rest,
}
use bpf_arena_data_structure.MsQueue.Inv.{links, nodes, contents, IsValid}
use bpf_arena_data_structure.MsQueue.Insert.{add_loop_help, initialized, Chain-initialized}

-- With a lag that uses up the retries the tail moves on, and nothing is linked.
add_loop_far :
    (rounds retry_count stray : ℕ) (q : Msqueue) (new_node t : ℕ) (lag : List ℕ)
    → q.tail ≡ t
    → Chain (links q.elems) (q.elems t).next lag
    → 10 ≤ rounds + retry_count
    → 10 ≤ retry_count + length lag
    → retry_count ≤ 10
    → let (r, tail, q') = add_loop rounds retry_count stray q new_node in
      (r ≡ 10) × (q'.elems ≡ q.elems) × (q'.head ≡ q.head) × (q'.count ≡ q.count)
unfolding add_loop
add_loop_far zero r stray q new t lag at c enough far le = (omega arith, refl, refl, refl)
add_loop_far (suc rounds) r stray q new t [] at c enough far le =
    let e : ltb r 10 ≡ false = ground arith in rw e (omega arith, refl, refl, refl)
add_loop_far (suc rounds) r stray q new t (f ∷ lag) at (to, pos, c) enough far le =
    elim (dec_lt r 10) [
      | yes lt ↦
          rw (add_loop_help rounds r stray q new f (ap (λ x. (q.elems x).next) at ∙ to) pos lt) (
            add_loop_far rounds (r + 1) q.tail (record q { tail = f }) new f lag refl c
              (omega arith) (omega arith) (omega arith))
      | no ge ↦ let e : ltb r 10 ≡ false = ground arith in rw e (omega arith, refl, refl, refl)
    ]

-- When `can_loop` stops the loop before that, too, but fewer retries were counted.
add_loop_short :
    (rounds retry_count stray : ℕ) (q : Msqueue) (new_node t : ℕ) (lag : List ℕ)
    → q.tail ≡ t
    → Chain (links q.elems) (q.elems t).next lag
    → rounds ≤ length lag
    → retry_count + rounds < 10
    → let (r, tail, q') = add_loop rounds retry_count stray q new_node in
      (r < 10) × (q'.elems ≡ q.elems) × (q'.head ≡ q.head) × (q'.count ≡ q.count)
unfolding add_loop
add_loop_short zero r stray q new t lag at c short few = (omega arith, refl, refl, refl)
add_loop_short (suc rounds) r stray q new t [] at c short few = absurd (omega arith)
add_loop_short (suc rounds) r stray q new t (f ∷ lag) at (to, pos, c) short few =
    rw (add_loop_help rounds r stray q new f (ap (λ x. (q.elems x).next) at ∙ to) pos (omega arith))
      (add_loop_short rounds (r + 1) q.tail (record q { tail = f }) new f lag refl c (omega arith)
        (omega arith))

-- The exchange of the tail touches nothing else.
swing_same :
    (q : Msqueue) (t new : ℕ)
    → ((swing q t new).elems ≡ q.elems)
      × ((swing q t new).head ≡ q.head)
      × ((swing q t new).count ≡ q.count)
swing_same q t new = elim (ℕ_discrete q.tail t) [
  | yes e ↦ let same : (q.tail == t) ≡ true = ground arith in rw same (refl, refl, refl)
  | no ne ↦ let other : (q.tail == t) ≡ false = ground arith in rw other (refl, refl, refl)
]

-- The element that was not linked holds none of the pairs.
contents-initialized :
    {q : Msqueue} {front : List ℕ} {t : ℕ} {lag : List ℕ} (v : IsValid q front t lag) (new : ℕ)
    (x : Kv) (pos : 0 < new) (fresh : NotIn new (nodes front t lag)) (q' : Msqueue)
    → q'.elems ≡ (initialized v new x pos fresh).elems
    → contents q' (nodes front t lag) ≡ contents q (nodes front t lag)
unfolding contents
contents-initialized {q} {front} {t} {lag} v new x pos fresh q' e =
    ap (λ m. pairs (λ a. (m a).pair) (rest (nodes front t lag))) e
    ∙ pairs_same (λ a. (q.elems a).pair) (λ a. ((initialized v new x pos fresh).elems a).pair) new
        (rest (nodes front t lag)) (λ b ne. ground arith) (NotIn-rest new (nodes front t lag) fresh)

-- When the tail lags by ten elements or more, `ds_msqueue_insert` answers DS_ERROR_INVALID after ten
-- rounds: the pairs held stay as they are, and the new element is given back.
pub msqueue_insert_far :
    (a : Allocator) (free : a.State → ℕ → a.State) (rounds stray : ℕ) (s : a.State) {q : Msqueue}
    {front : List ℕ} {t : ℕ} {lag : List ℕ} (x : Kv)
    → IsValid q front t lag
    → 0 < (a.alloc s 24).0
    → NotIn (a.alloc s 24).0 (nodes front t lag)
    → 10 ≤ rounds
    → 10 ≤ length lag
    → let (e, q', s') = insert a free rounds stray s q x.key x.value in
      (e ≡ invalid)
      × (contents q' (nodes front t lag) ≡ contents q (nodes front t lag))
      × (q'.head ≡ q.head)
      × (s' ≡ free (a.alloc s 24).1 (a.alloc s 24).0)
unfolding insert add_node
msqueue_insert_far a free rounds stray s {q} {front} {t} {lag} x v pos fresh enough far =
    let new = (a.alloc s 24).0 in
    let got : (new == 0) ≡ false = ground arith in
    let q1 = initialized v new x pos fresh in
    let (r, el, hd, ct) =
      add_loop_far rounds 0 stray q1 new t lag v.at_tail
        (Chain-behind (links q1.elems) q.head t front lag (Chain-initialized v new x pos fresh))
        (omega arith) (omega arith) (omega arith) in
    rw (got, r) (refl, contents-initialized v new x pos fresh _ el, hd, refl)

-- When `can_loop` stops the loop earlier, before the tail was brought to the last element,
-- `ds_msqueue_insert` answers DS_SUCCESS and counts the pair, but the pairs held stay as they are.
pub msqueue_insert_lost :
    (a : Allocator) (free : a.State → ℕ → a.State) (rounds stray : ℕ) (s : a.State) {q : Msqueue}
    {front : List ℕ} {t : ℕ} {lag : List ℕ} (x : Kv)
    → IsValid q front t lag
    → 0 < (a.alloc s 24).0
    → NotIn (a.alloc s 24).0 (nodes front t lag)
    → rounds < 10
    → rounds ≤ length lag
    → let (e, q', _) = insert a free rounds stray s q x.key x.value in
      (e ≡ success)
      × (contents q' (nodes front t lag) ≡ contents q (nodes front t lag))
      × (q'.head ≡ q.head)
      × (q'.count ≡ u64 (q.count + 1))
unfolding insert add_node
msqueue_insert_lost a free rounds stray s {q} {front} {t} {lag} x v pos fresh few short =
    let new = (a.alloc s 24).0 in
    let got : (new == 0) ≡ false = ground arith in
    let q1 = initialized v new x pos fresh in
    let (r, el, hd, ct) =
      add_loop_short rounds 0 stray q1 new t lag v.at_tail
        (Chain-behind (links q1.elems) q.head t front lag (Chain-initialized v new x pos fresh))
        short (omega arith) in
    let less : leb 10 (add_loop rounds 0 stray q1 new).0 ≡ false = ground arith in
    let q2 = (add_loop rounds 0 stray q1 new).2 in
    let (els, hds, cts) =
      swing_same (record q2 { count = u64 (q2.count + 1) }) (add_loop rounds 0 stray q1 new).1
        new in
    rw (got, less)
      (
        refl,
        contents-initialized v new x pos fresh _ (els ∙ el),
        hds ∙ hd,
        cts ∙ ap (λ c. u64 (c + 1)) ct,
      )
