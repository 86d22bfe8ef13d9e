-- ===== src/MsQueue/Observe.antt =====
-- `ds_msqueue_search` and `ds_msqueue_verify` on valid queues that no other call uses.
use bpf_arena_data_structure.Base.{
  ℕ, zero, suc, ◌+◌, ◌-◌, ◌≤◌, ◌<◌, ◌≡◌, refl, List, [], ◌∷◌, ◌++◌, length, arith, ap, ap₂, subst,
  sym, ◌∙◌, Bool, ltb, leb, ◌||◌, ◌==◌, if◌then◌else◌, true, false,
}
use bpf_arena_data_structure.Api.{DsResult, success, corrupt, u64}
use bpf_arena_data_structure.Api.Queue.{find}
use bpf_arena_data_structure.MsQueue.{Msqueue, search_loop, search, verify_loop, verify}
use bpf_arena_data_structure.Linked.{Chain, pairs, NotIn, rest, Chain-pos}
use bpf_arena_data_structure.MsQueue.Inv.{links, nodes, contents, IsValid}

search_loop-find :
    (rounds : ℕ) (q : Msqueue) (a count key : ℕ) (es : List ℕ)
    → Chain (links q.elems) a es
    → length es ≤ rounds
    → count + length es ≤ 100000
    → search_loop rounds q a count key ≡ find (pairs (λ b. (q.elems b).pair) es) key
unfolding search_loop pairs find
search_loop-find zero q a count key [] c enough few = refl
search_loop-find zero q a count key (e ∷ es) c enough few = absurd (omega arith)
search_loop-find (suc rounds) q a count key [] c enough few = rw c refl
search_loop-find (suc rounds) q a count key (e ∷ es) (at, pos, c) enough few =
    rw
      (
        at,
        search_loop-find rounds q (q.elems e).next (count + 1) key es c (omega arith) (omega arith),
      )
      (ground arith)

has : ℕ → List ℕ → Bool
has t [] = false
has t (e ∷ es) = e == t || has t es

has_self : (t : ℕ) (front lag : List ℕ) → has t (front ++ t ∷ lag) ≡ true
unfolding has
has_self t [] lag = ground arith
has_self t (e ∷ front) lag = let ih = has_self t front lag in ground arith

-- The walk from an element on, once it counts.
verify_loop_counting :
    (rounds : ℕ) (q : Msqueue) (a count : ℕ) (found : Bool) (es : List ℕ)
    → Chain (links q.elems) a es
    → length es ≤ rounds
    → 0 < count
    → count + length es ≤ 100000
    → verify_loop rounds q a count found ≡ (count + length es, found || has q.tail es)
unfolding verify_loop has
verify_loop_counting zero q a count found [] c enough pos few = ground arith
verify_loop_counting zero q a count found (e ∷ es) c enough pos few = absurd (omega arith)
verify_loop_counting (suc rounds) q a count found [] c enough pos few = rw c (ground arith)
verify_loop_counting (suc rounds) q a count found (e ∷ es) (at, e_pos, c) enough pos few =
    let counting : ltb 0 count ≡ true = ground arith in
    let more : (e == 0) ≡ false = ground arith in
    let below : ltb count 100000 ≡ true = ground arith in
    rw (at, counting, more, below)
      (verify_loop_counting rounds q (q.elems e).next (count + 1) (found || e == q.tail) es c
          (omega arith) (omega arith) (omega arith)
        ∙ ap₂ (λ n b. (n, b)) (omega arith) (ground arith))

-- The whole walk: the only element of a queue is not counted.
verify_loop_walk :
    (rounds : ℕ) (q : Msqueue) (a e : ℕ) (es : List ℕ)
    → Chain (links q.elems) a (e ∷ es)
    → suc (length es) ≤ rounds
    → suc (length es) ≤ 100000
    → let (walked, found) = verify_loop rounds q a 0 false in
      (walked - 1 ≡ length es) × (found ≡ has q.tail (e ∷ es))
unfolding verify_loop has
verify_loop_walk zero q a e es c enough few = absurd (omega arith)
verify_loop_walk (suc zero) q a e [] (at, pos, c) enough few =
    rw (at, c) (ground arith, ground arith)
verify_loop_walk (suc (suc rounds)) q a e [] (at, pos, c) enough few =
    rw (at, c) (ground arith, ground arith)
verify_loop_walk (suc rounds) q a e (f ∷ es) (at, pos, (to, f_pos, c)) enough few =
    let more : (e == 0) ≡ false = ground arith in
    let after : (f == 0) ≡ false = ground arith in
    rw
      (
        at,
        to,
        more,
        after,
        verify_loop_counting rounds q f 1 (e == q.tail) (f ∷ es) (refl, f_pos, c) (omega arith)
            (omega arith) (omega arith),
      )
      (omega arith, refl)

has_not : (t : ℕ) (es : List ℕ) → NotIn t es → has t es ≡ false
unfolding has
has_not t [] n = refl
has_not t (e ∷ es) (ne, n) = let ih = has_not t es n in ground arith

-- What follows the dummy.
behind_dummy :
    {q : Msqueue} {front : List ℕ} {t : ℕ} {lag : List ℕ}
    → IsValid q front t lag
    → Chain (links q.elems) (q.elems q.head).next (rest (nodes front t lag))
behind_dummy {q} {front = []} {t} {lag} v =
    let (at, pos, c) = v.chain in
    subst (λ h. Chain (links q.elems) (links q.elems h) lag) (sym at) c
behind_dummy {q} {front = d ∷ front} {t} {lag} v =
    let (at, pos, c) = v.chain in
    subst (λ h. Chain (links q.elems) (links q.elems h) (nodes front t lag)) (sym at) c

head_pos :
    {q : Msqueue} {front : List ℕ} {t : ℕ} {lag : List ℕ} → IsValid q front t lag → 0 < q.head
head_pos {front = []} v = let c = v.chain in omega arith
head_pos {front = d ∷ front} v = let (at, pos, c) = v.chain in omega arith

-- What `ds_msqueue_verify` says of a valid queue: it takes a tail that is still at the dummy, with
-- elements behind it, for corruption.
unfoldable pub verdict : (front lag : List ℕ) → DsResult × ℕ
verdict [] [] = (success, 0)
verdict [] (f ∷ lag) = (corrupt, 2)
verdict (d ∷ front) lag = (success, 0)

verify-walk :
    (rounds : ℕ) {q : Msqueue} {front : List ℕ} {t : ℕ} {lag : List ℕ} (e : ℕ) (es : List ℕ)
    → IsValid q front t lag
    → rest (nodes front t lag) ≡ e ∷ es
    → suc (length es) ≤ rounds
    → suc (length es) ≤ 100000
    → verify rounds q ≡ (if has q.tail (e ∷ es) then (success, 0) else (corrupt, 2))
unfolding verify
verify-walk rounds {q} {front} {t} {lag} e es v split enough few =
    let c = subst (Chain (links q.elems) (q.elems q.head).next) split (behind_dummy v) in
    let (walked, found) = verify_loop_walk rounds q (q.elems q.head).next e es c enough few in
    let n = v.counted in
    let l : length (rest (nodes front t lag)) ≡ suc (length es) = ap length split in
    let first : (q.elems q.head).next ≡ e = c.0 in
    let e_pos : 0 < e = c.1 in
    let h_pos : 0 < q.head = head_pos v in
    let t_pos : 0 < q.tail =
      let at = v.at_tail in
      let p = Chain-pos (links q.elems) q.head t front lag v.chain in omega arith in
    let head_set : (q.head == 0) ≡ false = ground arith in
    let tail_set : (q.tail == 0) ≡ false = ground arith in
    let linked : (e == 0) ≡ false = ground arith in
    let over : ltb (u64 (q.count + 100)) (length es) ≡ false = ground arith in
    let under : ltb (length es + 100) q.count ≡ false = ground arith in
    let finite : leb 100000 (length es) ≡ false = ground arith in
    rw (walked, found, first, head_set, tail_set, linked, over, under, finite) (ground arith)

verify-empty :
    (rounds : ℕ) {q : Msqueue} {t : ℕ} → IsValid q [] t [] → verify rounds q ≡ (success, 0)
unfolding verify
verify-empty rounds {q} {t} v =
    let (at, pos, end) = v.chain in
    let tail = v.at_tail in
    let first : (q.elems q.head).next ≡ 0 = ap (links q.elems) at ∙ end in
    let head_set : (q.head == 0) ≡ false = ground arith in
    let tail_set : (q.tail == 0) ≡ false = ground arith in
    let same : (q.head == q.tail) ≡ true = ground arith in rw (first, head_set, tail_set, same) refl

search_lem :
    (rounds : ℕ) (q : Msqueue) (front : List ℕ) (t : ℕ) (lag : List ℕ) (key : ℕ)
    → IsValid q front t lag
    → length (rest (nodes front t lag)) ≤ rounds
    → length (rest (nodes front t lag)) ≤ 100000
    → search rounds q key ≡ find (contents q (nodes front t lag)) key
unfolding search contents
search_lem rounds q front t lag key v enough few =
    search_loop-find rounds q (q.elems q.head).next 0 key (rest (nodes front t lag))
      (behind_dummy v) enough (omega arith)

verify_lem :
    (rounds : ℕ) (q : Msqueue) (front : List ℕ) (t : ℕ) (lag : List ℕ)
    → IsValid q front t lag
    → length (rest (nodes front t lag)) ≤ rounds
    → length (rest (nodes front t lag)) ≤ 100000
    → verify rounds q ≡ verdict front lag
unfolding verdict
verify_lem rounds q [] t [] v enough few = verify-empty rounds v
verify_lem rounds q [] t (f ∷ lag) v enough few =
    let at = v.at_tail in
    verify-walk rounds f lag v refl enough few ∙ rw (at, has_not t (f ∷ lag) v.distinct.0) refl
verify_lem rounds q (d ∷ []) t lag v enough few =
    let at = v.at_tail in
    verify-walk rounds t lag v refl enough few ∙ rw (at, has_self t [] lag) refl
verify_lem rounds q (d ∷ e ∷ front) t lag v enough few =
    let at = v.at_tail in
    verify-walk rounds e (front ++ t ∷ lag) v refl enough few
    ∙ rw (at, has_self t (e ∷ front) lag) refl

-- In a valid queue of at most 100000 pairs, if `can_loop` allows a round for each, `ds_msqueue_search`
-- finds exactly the keys held, and `ds_msqueue_verify` accepts, unless the tail is still at the dummy
-- with elements behind it: then it answers twice DS_ERROR_CORRUPT.
pub msqueue_observers :
    (rounds : ℕ) (q : Msqueue) (front : List ℕ) (t : ℕ) (lag : List ℕ) (key : ℕ)
    → IsValid q front t lag
    → length (rest (nodes front t lag)) ≤ rounds
    → length (rest (nodes front t lag)) ≤ 100000
    → (search rounds q key ≡ find (contents q (nodes front t lag)) key)
      × (verify rounds q ≡ verdict front lag)
msqueue_observers rounds q front t lag key v enough few =
    (search_lem rounds q front t lag key v enough few, verify_lem rounds q front t lag v enough few)
