-- ===== src/CkFifoSpsc/Order.antt =====
-- What holds of the CK FIFO under every interleaving of its producer and its consumer.
mod Defs
mod Frame
mod Produce
mod Consume
pub use Defs.{Apart, waiting}
use Defs.{Apart, Owned, ProducerInv, ConsumerInv, StartsWith, waiting, Kept}
use Produce.{Produce-Kept}
use Consume.{Consume-Kept}
use bpf_arena_data_structure.Base.{
  ℕ, ◌-◌, ◌≡◌, refl, ap, sym, ◌∙◌, ◌≢◌, ◌↔◌, Option, none, some, List, [], ◌∷◌, ◌++◌, append_assoc,
  arith, subst,
}
use bpf_arena_data_structure.Linked.{NotIn, NotIn-right, pairs}
use bpf_arena_data_structure.CkFifoSpsc.{Fifo, kv_offset}
use bpf_arena_data_structure.CkFifoSpsc.Inv.{nodes, contents, IsValid, NotIn-waiting}
use bpf_arena_data_structure.CkFifoSpsc.Threads.{
  Producer, Consumer, System, Step, produce, consume, Reach, here, next,
}

pub record Inv (s : System) : Type 0 where
  pub gs : List ℕ
  pub ss : List ℕ
  pub d : ℕ
  pub qs : List ℕ
  pub kept : Kept s.fifo s.granted s.producer s.consumer gs ss d qs
  pub history : s.received ++ waiting s.fifo d qs s.consumer ≡ s.sent

Step-Inv : {s t : System} → Step s t → Inv s → Inv t
Step-Inv {s} (produce {out} mv) inv =
    let (gs, ss, qs, kept, w) = Produce-Kept mv inv.kept in
    record {
      gs = gs;
      ss = ss;
      d = inv.d;
      qs = qs;
      kept = kept;
      history =
          ap (λ q. s.received ++ q) w
          ∙ sym (append_assoc s.received (waiting s.fifo inv.d inv.qs s.consumer) out)
          ∙ ap (λ l. l ++ out) inv.history;
    }
Step-Inv {s} (consume {f} {c} {out} mv) inv =
    let (ss, d, qs, kept, w) = Consume-Kept mv inv.kept in
    record {
      gs = inv.gs;
      ss = ss;
      d = d;
      qs = qs;
      kept = kept;
      history =
          append_assoc s.received out (waiting f d qs c)
          ∙ ap (λ q. s.received ++ q) (sym w)
          ∙ inv.history;
    }

Reach-Inv : {f : Fifo} {d : ℕ} {s : System} → IsValid f [] [] d [] → Reach f d s → Inv s
unfolding contents pairs
Reach-Inv {f} {d} v here = record {
  gs = [];
  ss = [];
  d = d;
  qs = [];
  kept = record {
    valid = v;
    covers = λ a n. n;
    complete = λ a n h. n;
    producer = tt;
    consumer = tt;
  };
  history = refl;
}
Reach-Inv v (next r st) = Step-Inv st (Reach-Inv v r)

-- From a valid empty queue, under every interleaving, also while entries are taken back: the pairs
-- taken, followed by the one that the consumer has in hand and those waiting, are the pairs published,
-- in order. None is lost, repeated, reordered or torn. The queue stays valid.
pub ck_fifo_order :
    {f : Fifo} {d : ℕ} {s : System}
    → IsValid f [] [] d []
    → Reach f d s
    → (gs : List ℕ) × (ss : List ℕ) × (d' : ℕ) × (qs : List ℕ) × IsValid s.fifo gs ss d' qs
      × (s.received ++ waiting s.fifo d' qs s.consumer ≡ s.sent)
ck_fifo_order v r =
    let inv = Reach-Inv v r in (inv.gs, inv.ss, inv.d, inv.qs, inv.kept.valid, inv.history)

Apart-granted :
    (f : Fifo) (granted gs ns : List ℕ) (a : ℕ) (p : Producer)
    → ProducerInv f granted gs ns p
    → NotIn a granted
    → Apart p a
Apart-granted f granted gs ns a (Producer.got x e) own n = own.given a n
Apart-granted f granted gs ns a (Producer.keyed x e) i n = i.0.given a n
Apart-granted f granted gs ns a (Producer.filled x e) i n = i.0.given a n
Apart-granted f granted gs ns a (Producer.pointed x e) i n = i.0.given a n
Apart-granted f granted gs ns a (Producer.closed x e) i n = i.0.given a n
Apart-granted f granted gs ns a Producer.ready i n = tt
Apart-granted f granted gs ns a (Producer.asked x) i n = tt
Apart-granted f granted gs ns a (Producer.none_left x) i n = tt
Apart-granted f granted gs ns a (Producer.reuses x) i n = tt

-- From a valid empty queue, under every interleaving, every entry that the arena gave out is in the
-- chain or with the producer, and nothing else is: no entry is leaked, also when the arena has no
-- memory.
pub ck_fifo_no_leak :
    {f : Fifo} {d : ℕ} {s : System}
    → IsValid f [] [] d []
    → Reach f d s
    → (gs : List ℕ) × (ss : List ℕ) × (d' : ℕ) × (qs : List ℕ) × IsValid s.fifo gs ss d' qs
      × ((a : ℕ) → NotIn a s.granted ↔ (NotIn a (nodes gs ss d' qs) × Apart s.producer a))
ck_fifo_no_leak {s} v r =
    let inv = Reach-Inv v r in
    let k = inv.kept in
    (
      inv.gs,
      inv.ss,
      inv.d,
      inv.qs,
      k.valid,
      λ a. (
        λ n. (
          k.covers a n,
          Apart-granted s.fifo s.granted inv.gs (nodes inv.gs inv.ss inv.d inv.qs) a s.producer
              k.producer n,
        ),
        λ (n, h). k.complete a n h,
      ),
    )

-- The entry of which a thread is about to access a field; the store that publishes an entry, and the
-- load that may see it, meet in `next` by design.
unfoldable pub writes : Producer → Option ℕ
writes (Producer.got x e) = some e
writes (Producer.keyed x e) = some e
writes (Producer.filled x e) = some e
writes (Producer.pointed x e) = some e
writes _ = none

unfoldable pub reads : Fifo → Consumer → Option ℕ
reads f Consumer.ready = some f.head
reads f (Consumer.found e) = some e
reads f (Consumer.moved v) = some (v - kv_offset)
reads f (Consumer.keyed v k) = some (v - kv_offset)
reads f _ = none

some_inj : {a b : ℕ} → some a ≡ some b → a ≡ b
some_inj e = ground arith

none-ne-some : {a : ℕ} → ◌≢◌ {A = Option ℕ} none (some a)
none-ne-some e = cc

-- The entry to be written is out of the chain.
writes-Owned :
    (f : Fifo) (granted gs ns : List ℕ) (p : Producer) {w : ℕ}
    → ProducerInv f granted gs ns p
    → writes p ≡ some w
    → NotIn w ns
unfolding writes
writes-Owned f granted gs ns (Producer.got x e) i h = subst (λ a. NotIn a ns) (some_inj h) i.out
writes-Owned f granted gs ns (Producer.keyed x e) i h = subst (λ a. NotIn a ns) (some_inj h) i.0.out
writes-Owned f granted gs ns (Producer.filled x e) i h =
    subst (λ a. NotIn a ns) (some_inj h) i.0.out
writes-Owned f granted gs ns (Producer.pointed x e) i h =
    subst (λ a. NotIn a ns) (some_inj h) i.0.out
writes-Owned f granted gs ns Producer.ready i h = absurd (none-ne-some h)
writes-Owned f granted gs ns (Producer.asked x) i h = absurd (none-ne-some h)
writes-Owned f granted gs ns (Producer.none_left x) i h = absurd (none-ne-some h)
writes-Owned f granted gs ns (Producer.reuses x) i h = absurd (none-ne-some h)
writes-Owned f granted gs ns (Producer.closed x e) i h = absurd (none-ne-some h)

-- The entry to be read is the stub or the one behind it.
reads-ne :
    (f : Fifo) (d : ℕ) (qs : List ℕ) (c : Consumer) {w r : ℕ}
    → f.head ≡ d
    → ConsumerInv f d qs c
    → reads f c ≡ some r
    → NotIn w (d ∷ qs)
    → w ≢ r
unfolding reads
reads-ne f d qs Consumer.ready head i h (ne, n) = ground arith
reads-ne f d [] (Consumer.found e) head i h (ne, n) = absurd i
reads-ne f d (q ∷ qs) (Consumer.found e) head i h (ne, n) = ground arith
reads-ne f d qs (Consumer.pointed e v) head i h (ne, n) = absurd (none-ne-some h)
reads-ne f d qs (Consumer.moved v) head i h (ne, n) = ground arith
reads-ne f d qs (Consumer.keyed v k) head i h (ne, n) = ground arith

-- From a valid empty queue, under every interleaving: the entry that the producer is about to write, new
-- or taken back, is not the one that the consumer is about to read.
pub ck_fifo_no_race :
    {f : Fifo} {d : ℕ} {s : System} {w r : ℕ}
    → IsValid f [] [] d []
    → Reach f d s
    → writes s.producer ≡ some w
    → reads s.fifo s.consumer ≡ some r
    → w ≢ r
ck_fifo_no_race {s} {w} v run a b =
    let inv = Reach-Inv v run in
    let k = inv.kept in
    reads-ne s.fifo inv.d inv.qs s.consumer k.valid.at_head k.consumer b (
      NotIn-waiting w inv.gs inv.ss inv.d inv.qs (
        writes-Owned s.fifo s.granted inv.gs (nodes inv.gs inv.ss inv.d inv.qs) s.producer
          k.producer a))
