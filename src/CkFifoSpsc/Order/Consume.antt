-- ===== src/CkFifoSpsc/Order/Consume.antt =====
-- A step of `ds_ck_fifo_spsc_delete` beside a producer that stands anywhere.
use bpf_arena_data_structure.Base.{
  ℕ, ◌+◌, ◌-◌, ◌≡◌, refl, ◌≢◌, sym, ap, ap₂, subst, ◌∙◌, List, [], ◌∷◌, ◌++◌, append_assoc, arith,
}
use bpf_arena_data_structure.Api.{Kv, kv}
use bpf_arena_data_structure.Linked.{pairs, NotIn}
use bpf_arena_data_structure.CkFifoSpsc.{Fifo}
use bpf_arena_data_structure.CkFifoSpsc.Inv.{
  nodes, contents, IsValid, behind_head, advanced-IsValid,
}
use bpf_arena_data_structure.CkFifoSpsc.Threads.{
  Producer, Consumer, Consume, see_empty, see_entry, load_pointer, advance, see_null, load_key,
  load_value,
}
use bpf_arena_data_structure.CkFifoSpsc.Order.Defs.{ProducerInv, StartsWith, waiting, Kept}

StartsWith-behind :
    {f : Fifo} {gs ss : List ℕ} {d : ℕ} {qs : List ℕ}
    → IsValid f gs ss d qs
    → (f.entries f.head).next ≢ 0
    → StartsWith (f.entries f.head).next qs
StartsWith-behind {qs = []} v ne = ne (behind_head v)
StartsWith-behind {qs = e ∷ qs} v ne = (behind_head v).0

-- The head is nothing to the producer's entry.
head-ProducerInv :
    (f : Fifo) (granted gs ns : List ℕ) (e : ℕ) (p : Producer)
    → ProducerInv f granted gs ns p
    → ProducerInv (record f { head = e }) granted gs ns p
head-ProducerInv f granted gs ns e Producer.ready i = i
head-ProducerInv f granted gs ns e p i = i

back : (d v : ℕ) → v ≡ d + 16 → v - 16 ≡ d
back d v at = omega arith

-- The head moves on: the entry stays in the chain, and its pair is in the consumer's hands.
advance-Kept :
    {f : Fifo} {granted : List ℕ} {p : Producer} {gs ss : List ℕ} {d : ℕ} (qs : List ℕ) {e v : ℕ}
    → Kept f granted p (Consumer.pointed e v) gs ss d qs
    → (ss' : List ℕ) × (d' : ℕ) × (qs' : List ℕ) × Kept
        (record f { head = e })
        granted
        p
        (Consumer.moved v)
        gs
        ss'
        d'
        qs'
      × (waiting f d qs (Consumer.pointed e v)
          ≡ waiting (record f { head = e }) d' qs' (Consumer.moved v))
unfolding contents pairs
advance-Kept [] k = absurd k.consumer.0
advance-Kept {f} {granted} {p} {gs} {ss} {d} (b ∷ qs) {e} {v} k =
    let same : nodes gs ss d (b ∷ qs) ≡ nodes gs (ss ++ d ∷ []) b qs = simp append_assoc in
    let at = k.consumer.0 in
    (
      ss ++ d ∷ [],
      b,
      qs,
      record {
        valid =
            subst (λ h. IsValid (record f { head = h }) gs (ss ++ d ∷ []) b qs) (sym at)
              (advanced-IsValid k.valid);
        covers = λ a n. subst (NotIn a) same (k.covers a n);
        complete = λ a n. k.complete a (subst (NotIn a) (sym same) n);
        producer =
            subst (λ ns. ProducerInv (record f { head = e }) granted gs ns p) same
              (head-ProducerInv f granted gs (nodes gs ss d (b ∷ qs)) e p k.producer);
        consumer = k.consumer.1 ∙ ap (λ a. a + 16) at;
      },
      refl,
    )

pub Consume-Kept :
    {f f' : Fifo} {granted : List ℕ} {p : Producer} {c c' : Consumer} {out : List Kv}
    {gs ss : List ℕ} {d : ℕ} {qs : List ℕ}
    → Consume f c f' c' out
    → Kept f granted p c gs ss d qs
    → (ss' : List ℕ) × (d' : ℕ) × (qs' : List ℕ) × Kept f' granted p c' gs ss' d' qs'
      × (waiting f d qs c ≡ out ++ waiting f' d' qs' c')
Consume-Kept {ss} {d} {qs} (see_empty e) k = (ss, d, qs, k, refl)
Consume-Kept {ss} {d} {qs} (see_entry ne) k = (
  ss,
  d,
  qs,
  record {
    valid = k.valid;
    covers = k.covers;
    complete = k.complete;
    producer = k.producer;
    consumer = StartsWith-behind k.valid ne;
  },
  refl,
)
Consume-Kept {f} {ss} {d} {qs = []} (load_pointer {e}) k = absurd k.consumer
Consume-Kept {f} {ss} {d} {qs = b ∷ qs} (load_pointer {e}) k = (
  ss,
  d,
  b ∷ qs,
  record {
    valid = k.valid;
    covers = k.covers;
    complete = k.complete;
    producer = k.producer;
    consumer = (k.consumer, let at = k.consumer in let points = k.valid.points.0 in ground arith);
  },
  refl,
)
Consume-Kept {qs} advance k = advance-Kept qs k
Consume-Kept (see_null e) k = absurd (let at = k.consumer in omega arith)
Consume-Kept {f} {ss} {d} {qs} (load_key {v} ne) k = (
  ss,
  d,
  qs,
  record {
    valid = k.valid;
    covers = k.covers;
    complete = k.complete;
    producer = k.producer;
    consumer = (k.consumer, ap (λ a. (f.entries a).pair.key) (back d v k.consumer));
  },
  refl,
)
Consume-Kept {f} {ss} {d} {qs} (load_value {v} {k = key}) k = (
  ss,
  d,
  qs,
  record {
    valid = k.valid;
    covers = k.covers;
    complete = k.complete;
    producer = k.producer;
    consumer = tt;
  },
  sym (
      ap₂ (λ a b. kv a b ∷ contents f qs) k.consumer.1
        (ap (λ a. (f.entries a).pair.value) (back d v k.consumer.0))),
)
