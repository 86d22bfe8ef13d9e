-- ===== src/CkFifoSpsc/Order/Produce.antt =====
-- A step of `ds_ck_fifo_spsc_insert` beside a consumer that stands anywhere.
use bpf_arena_data_structure.Base.{
  ℕ, ◌+◌, ◌≡◌, ◌≢◌, sym, ap, ap₂, subst, ◌∙◌, List, [], ◌∷◌, ◌++◌, append-nil, append_assoc, arith,
}
use bpf_arena_data_structure.Api.{Kv, kv}
use bpf_arena_data_structure.Linked.{NotIn, NotIn-append, NotIn-left, NotIn-right}
use bpf_arena_data_structure.CkFifoSpsc.{Entry, Fifo, kv_offset, set_value, set_next, set_pair}
use bpf_arena_data_structure.CkFifoSpsc.Inv.{
  nodes, contents, IsValid, published-IsValid, contents-published, renewed-IsValid, taken-IsValid,
}
use bpf_arena_data_structure.CkFifoSpsc.Threads.{
  Producer, Consumer, Produce, see_snapshot, see_garbage, load_same, load_moved, take_back,
  no_memory, allocate, store_key, store_value, store_pointer, clear_next, publish,
}
use bpf_arena_data_structure.CkFifoSpsc.Order.Defs.{
  Covers, Owned, Complete, Apart, ProducerInv, hand, waiting, Kept,
}
use bpf_arena_data_structure.CkFifoSpsc.Order.Frame.{
  eq_nil_of_snapshot, HasSome-snapshot, HasSome-head, same-ConsumerInv, hand_same, outside-Kept,
  waiting-outside, append-ConsumerInv, Outcome,
}

-- The snapshot is renewed: what the consumer has left since is garbage.
load-Kept :
    {f : Fifo} {granted : List ℕ} {x : Kv} {c : Consumer} (gs ss : List ℕ) {d : ℕ} {qs : List ℕ}
    (p' : Producer)
    → Kept f granted (Producer.asked x) c gs ss d qs
    → (IsValid f [] ss d qs
        → ProducerInv (record f { head_snapshot = f.head }) granted ss (nodes ss [] d qs) p')
    → Outcome f (record f { head_snapshot = f.head }) granted p' c gs d qs []
unfolding contents
load-Kept (g ∷ gs) ss p' k i = absurd (let e = k.producer in cc)
load-Kept {f} {c} [] ss {d} {qs} p' k i =
    let same : ss ++ d ∷ qs ≡ nodes ss [] d qs = ap (λ l. l ++ d ∷ qs) (sym (append-nil ss)) in
    (
      ss,
      [],
      qs,
      record {
        valid = renewed-IsValid k.valid;
        covers = λ a n. subst (NotIn a) same (k.covers a n);
        complete = λ a n h. k.complete a (subst (NotIn a) (sym same) n) tt;
        producer = i k.valid;
        consumer = k.consumer;
      },
      sym (append-nil (waiting f d qs c)),
    )

-- The first entry of the garbage is the producer's.
take_back-Kept :
    {f : Fifo} {granted : List ℕ} {x : Kv} {c : Consumer} (gs : List ℕ) {ss : List ℕ} {d : ℕ}
    {qs : List ℕ}
    → Kept f granted (Producer.reuses x) c gs ss d qs
    → Outcome f
        (record f { garbage = (f.entries f.garbage).next })
        granted
        (Producer.got x f.garbage)
        c
        gs
        d
        qs
        []
unfolding contents
take_back-Kept [] k = absurd k.producer
take_back-Kept {f} {granted} {c} (g ∷ gs) {ss} {d} {qs} k =
    let (at, pos, _) = k.valid.chain in
    (
      gs,
      ss,
      qs,
      record {
        valid = taken-IsValid k.valid;
        covers = λ a n. (k.covers a n).1;
        complete = λ a n h. k.complete a (λ e. h (at ∙ e), n) tt;
        producer = record {
          pos = omega arith;
          out = subst (λ h. NotIn h (nodes gs ss d qs)) (sym at) k.valid.distinct.0;
          given = λ a n e. (k.covers a n).0 (sym at ∙ e);
        };
        consumer = k.consumer;
      },
      sym (append-nil (waiting f d qs c)),
    )

publish-Kept :
    {f : Fifo} {granted : List ℕ} {x : Kv} {e : ℕ} {c : Consumer} {gs ss : List ℕ} {d : ℕ}
    {qs : List ℕ}
    → Kept f granted (Producer.closed x e) c gs ss d qs
    → Outcome f
        (record f { tail = e; entries = set_next f.entries f.tail e })
        granted
        Producer.ready
        c
        gs
        d
        qs
        (x ∷ [])
publish-Kept {f} {granted} {x} {e} {c} {gs} {ss} {d} {qs} k =
    let (own, pair, value, next) = k.producer in
    let m = set_next f.entries f.tail e in
    let stub : (m d).pair ≡ (f.entries d).pair = ground arith in
    let whole : nodes gs ss d qs ++ e ∷ [] ≡ nodes gs ss d (qs ++ e ∷ []) =
      append_assoc (gs ++ ss) (d ∷ qs) (e ∷ []) in
    (
      gs,
      ss,
      qs ++ e ∷ [],
      record {
        valid = published-IsValid k.valid e own.pos own.out value next;
        covers = λ a n.
            subst (NotIn a) whole
              (NotIn-append a (nodes gs ss d qs) (e ∷ []) (k.covers a n) (own.given a n, tt));
        complete = λ a n h.
            let both = subst (NotIn a) (sym whole) n in
            k.complete a (NotIn-left a (nodes gs ss d qs) (e ∷ []) both)
              (NotIn-right a (nodes gs ss d qs) (e ∷ []) both).0;
        producer = tt;
        consumer =
            append-ConsumerInv (record f { entries = m }) d qs (e ∷ []) c
              (same-ConsumerInv f m d stub qs c k.consumer);
      },
      ap₂ ◌++◌ (hand_same f m d stub c) (contents-published k.valid e own.pos own.out value next)
          ∙ sym (append_assoc (hand f d c) (contents f qs) ((f.entries e).pair ∷ []))
          ∙ ap (λ y. waiting f d qs c ++ y ∷ []) pair,
    )

-- What a write to the producer's entry leaves.
write-Kept :
    {f : Fifo} {granted : List ℕ} {p : Producer} {c : Consumer} {gs ss : List ℕ} {d : ℕ}
    {qs : List ℕ} (m : ℕ → Entry) (e : ℕ) (p' : Producer)
    → Kept f granted p c gs ss d qs
    → Owned granted (nodes gs ss d qs) e
    → ((b : ℕ) → b ≢ e → m b ≡ f.entries b)
    → ((a : ℕ) → Apart p' a → Apart p a)
    → ProducerInv (record f { entries = m }) granted gs (nodes gs ss d qs) p'
    → Outcome f (record f { entries = m }) granted p' c gs d qs []
write-Kept {f} {c} {gs} {ss} {d} {qs} m e p' k own same holds i = (
  gs,
  ss,
  qs,
  outside-Kept k m e same own p' holds i,
  sym (waiting-outside k m e same own) ∙ sym (append-nil (waiting f d qs c)),
)

-- A step that leaves the queue as it is.
quiet-Kept :
    {f : Fifo} {granted : List ℕ} {p : Producer} {c : Consumer} {gs ss : List ℕ} {d : ℕ}
    {qs : List ℕ} (granted' : List ℕ) (p' : Producer)
    → Kept f granted p c gs ss d qs
    → Covers granted' (nodes gs ss d qs)
    → Complete granted' (nodes gs ss d qs) p'
    → ProducerInv f granted' gs (nodes gs ss d qs) p'
    → Outcome f f granted' p' c gs d qs []
quiet-Kept {f} {c} {gs} {ss} {d} {qs} granted' p' k covers complete i = (
  gs,
  ss,
  qs,
  record {
    valid = k.valid;
    covers = covers;
    complete = complete;
    producer = i;
    consumer = k.consumer;
  },
  sym (append-nil (waiting f d qs c)),
)

pub Produce-Kept :
    {f f' : Fifo} {granted granted' : List ℕ} {p p' : Producer} {c : Consumer} {out : List Kv}
    {gs ss : List ℕ} {d : ℕ} {qs : List ℕ}
    → Produce f granted p f' granted' p' out
    → Kept f granted p c gs ss d qs
    → Outcome f f' granted' p' c gs d qs out
Produce-Kept {granted} {gs} (see_snapshot x e) k =
    quiet-Kept granted (Producer.asked x) k k.covers k.complete (eq_nil_of_snapshot gs k.valid e)
Produce-Kept {granted} {gs} {ss} (see_garbage x ne) k =
    quiet-Kept granted (Producer.reuses x) k k.covers k.complete (HasSome-snapshot gs ss k.valid ne)
Produce-Kept {gs} {ss} (load_same {x} e) k = load-Kept gs ss (Producer.none_left x) k (λ v. tt)
Produce-Kept {gs} {ss} (load_moved {x} ne) k =
    load-Kept gs ss (Producer.reuses x) k (λ v. HasSome-head ss v ne)
Produce-Kept {gs} take_back k = take_back-Kept gs k
Produce-Kept {granted} no_memory k = quiet-Kept granted Producer.ready k k.covers k.complete tt
Produce-Kept {granted} (allocate {x} e pos fresh) k =
    quiet-Kept (e ∷ granted) (Producer.got x e) k (λ a n. k.covers a n.1)
      (λ a n h. (h, k.complete a n tt))
      (record { pos = pos; out = k.covers e fresh; given = λ a n. n.0 })
Produce-Kept {f} (store_key {x} {e}) k =
    write-Kept (set_pair f.entries e (kv x.key (f.entries e).pair.value)) e (Producer.keyed x e) k
      k.producer (λ b ne. ground arith) (λ a h. h) (k.producer, ground arith)
Produce-Kept {f} (store_value {x} {e}) k =
    let (own, key) = k.producer in
    write-Kept (set_pair f.entries e (kv (f.entries e).pair.key x.value)) e (Producer.filled x e) k
      own (λ b ne. ground arith) (λ a h. h) (own, ground arith)
Produce-Kept {f} (store_pointer {x} {e}) k =
    let (own, pair) = k.producer in
    write-Kept (set_value f.entries e (e + kv_offset)) e (Producer.pointed x e) k own
      (λ b ne. ground arith) (λ a h. h) (own, ground arith, ground arith)
Produce-Kept {f} (clear_next {x} {e}) k =
    let (own, pair, value) = k.producer in
    write-Kept (set_next f.entries e 0) e (Producer.closed x e) k own (λ b ne. ground arith)
      (λ a h. h) (own, ground arith, ground arith, ground arith)
Produce-Kept publish k = publish-Kept k
