-- ===== src/MsQueue/Insert.antt =====
-- `ds_msqueue_insert` on a valid queue, whose tail may lag behind.
use bpf_arena_data_structure.Base.{
  ℕ, zero, suc, ◌+◌, ◌<◌, ◌≡◌, refl, ◌≢◌, List, [], ◌∷◌, ◌++◌, length, length-append, arith, ap,
  ap₂, ◌∙◌, ltb, leb, ◌==◌, true, false,
}
use bpf_arena_data_structure.Api.{success, Kv, u64, Allocator}
use bpf_arena_data_structure.Api.Queue.{fifo}
use bpf_arena_data_structure.MsQueue.{Elem, Msqueue, store_elem, link, add_loop, add_node, insert}
use bpf_arena_data_structure.Linked.{
  Chain, NotIn, pairs, rest, last, NotIn-right, NotIn-last, Chain-same, pairs_same, pairs-append,
  Chain-behind, Chain-link, Distinct-snoc, rest-append, NotIn-rest,
}
use bpf_arena_data_structure.MsQueue.Inv.{links, nodes, contents, IsValid}

-- A round that finds the tail behind moves it on.
pub add_loop_help :
    (rounds retry_count stray : ℕ) (q : Msqueue) (new_node f : ℕ)
    → (q.elems q.tail).next ≡ f
    → 0 < f
    → retry_count < 10
    → add_loop (suc rounds) retry_count stray q new_node
      ≡ add_loop rounds (retry_count + 1) q.tail (record q { tail = f }) new_node
unfolding add_loop
add_loop_help rounds r stray q new f to pos few =
    let less : ltb r 10 ≡ true = ground arith in
    let linked : ((q.elems q.tail).next == 0) ≡ false = ground arith in
    let same : (q.tail == q.tail) ≡ true = ground arith in rw (less, linked, same, to) refl

-- The loop first brings the tail to the last element, a round for each that it lags behind.
add_loop-last :
    (rounds retry_count stray : ℕ) (q : Msqueue) (new_node t : ℕ) (lag : List ℕ)
    → q.tail ≡ t
    → Chain (links q.elems) (q.elems t).next lag
    → length lag < rounds
    → retry_count + length lag < 10
    → add_loop rounds retry_count stray q new_node ≡ (
      retry_count + length lag,
      last t lag,
      link (record q { tail = last t lag }) (last t lag) new_node,
    )
unfolding add_loop
add_loop-last zero r stray q new t lag at c enough few = absurd (omega arith)
add_loop-last (suc rounds) r stray q new t [] at c enough few = rw at (ground arith)
add_loop-last (suc rounds) r stray q new t (f ∷ lag) at (to, pos, c) enough few =
    add_loop_help rounds r stray q new f (ap (λ x. (q.elems x).next) at ∙ to) pos (omega arith)
    ∙ add_loop-last rounds (r + 1) q.tail (record q { tail = f }) new f lag refl c (omega arith)
        (omega arith)
    ∙ ap (λ k. (k, last f lag, link (record q { tail = last f lag }) (last f lag) new))
        (omega arith)

module _ {q : Msqueue} {front : List ℕ} {t : ℕ} {lag : List ℕ} (v : IsValid q front t lag) (new : ℕ)
    (x : Kv) (pos : 0 < new) (fresh : NotIn new (nodes front t lag)) where
  abbrev pub initialized : Msqueue
  initialized = record q { elems = store_elem q.elems new (record { next = 0; pair = x }) }

  -- The queue with the new element behind the last one.
  abbrev appended : Msqueue
  appended = record q {
    tail = new;
    count = u64 (q.count + 1);
    elems =
        store_elem initialized.elems (last t lag)
          (record { next = new; pair = (initialized.elems (last t lag)).pair });
  }

  end_ne : last t lag ≢ new
  end_ne = NotIn-last new t lag (NotIn-right new front (t ∷ lag) fresh)

  pub Chain-initialized : Chain (links initialized.elems) q.head (nodes front t lag)
  Chain-initialized =
      Chain-same (links q.elems) (links initialized.elems) new q.head (nodes front t lag)
        (λ b ne. ground arith) fresh v.chain

  appended_new : appended.elems new ≡ record { next = 0; pair = x }
  appended_new = let ne = end_ne in ground arith

  pub appended-IsValid : IsValid appended (nodes front t lag) new []
  appended-IsValid = record {
    chain =
        Chain-link (links initialized.elems) (links appended.elems) q.head new t front lag
          (λ b ne. ground arith) (ground arith) (ap (λ (e : Elem). e.next) appended_new) pos
          v.distinct Chain-initialized;
    distinct = Distinct-snoc (nodes front t lag) new fresh v.distinct;
    at_tail = refl;
    counted =
        let c = v.counted in
        omega (
          arith,
          ap length (rest-append t front lag (new ∷ [])),
          length-append (rest (nodes front t lag)) (new ∷ []),
        );
  }

  pub contents-appended :
      contents appended (nodes front t lag ++ new ∷ []) ≡ fifo (contents q (nodes front t lag)) x
  unfolding contents pairs
  contents-appended =
      let pair : ℕ → Kv = λ a. (q.elems a).pair in
      let pair' : ℕ → Kv = λ a. (appended.elems a).pair in
      ap (pairs pair') (rest-append t front lag (new ∷ []))
      ∙ pairs-append pair' (rest (nodes front t lag)) (new ∷ [])
      ∙ ap₂ ◌++◌
          (pairs_same pair pair' new (rest (nodes front t lag)) (λ b ne. ground arith)
            (NotIn-rest new (nodes front t lag) fresh))
          (ap (λ (e : Elem). e.pair ∷ []) appended_new)

  add_node-appended :
      (rounds stray : ℕ)
      → length lag < rounds
      → length lag < 10
      → add_node rounds stray initialized new ≡ (success, appended)
  unfolding add_node
  add_node-appended rounds stray enough few =
      let loop =
        add_loop-last rounds 0 stray initialized new t lag v.at_tail
          (Chain-behind (links initialized.elems) q.head t front lag Chain-initialized) enough
          (omega arith) in
      let done : leb 10 (0 + length lag) ≡ false = ground arith in
      let same : (last t lag == last t lag) ≡ true = ground arith in rw (loop, done, same) refl

-- `ds_msqueue_insert` on a valid queue, with memory for a fresh element: while the tail lags by fewer
-- than ten elements, and `can_loop` allows a round for each of them and one more, the pair is put
-- behind the others and the tail brought to it.
pub msqueue_insert :
    (a : Allocator) (free : a.State → ℕ → a.State) (rounds stray : ℕ) (s : a.State) {q : Msqueue}
    {front : List ℕ} {t : ℕ} {lag : List ℕ} (x : Kv)
    → IsValid q front t lag
    → 0 < (a.alloc s 24).0
    → NotIn (a.alloc s 24).0 (nodes front t lag)
    → length lag < rounds
    → length lag < 10
    → let new = (a.alloc s 24).0 in
      let (e, q', _) = insert a free rounds stray s q x.key x.value in
      (e ≡ success)
      × IsValid q' (nodes front t lag) new []
      × (contents q' (nodes front t lag ++ new ∷ []) ≡ fifo (contents q (nodes front t lag)) x)
unfolding insert
msqueue_insert a free rounds stray s x v pos fresh enough few =
    let got : ((a.alloc s 24).0 == 0) ≡ false = ground arith in
    rw (got, add_node-appended v (a.alloc s 24).0 x pos fresh rounds stray enough few)
      (
        refl,
        appended-IsValid v (a.alloc s 24).0 x pos fresh,
        contents-appended v (a.alloc s 24).0 x pos fresh,
      )
