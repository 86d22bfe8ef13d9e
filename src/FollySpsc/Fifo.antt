-- ===== src/FollySpsc/Fifo.antt =====
-- What holds of the Folly ring under every interleaving of its producer and its consumer.
mod Defs
mod Produce
mod Consume
use Defs.{ProducerInv, ConsumerInv, Kept}
use Produce.{Produce-Kept, Produce-contents}
use Consume.{Consume-Kept, Consume-contents}
use bpf_arena_data_structure.Base.{
  ℕ, ◌≡◌, refl, ap, sym, ◌∙◌, ◌≢◌, Option, none, some, List, [], ◌++◌, append_assoc, arith,
}
use bpf_arena_data_structure.FollySpsc.{Head}
use bpf_arena_data_structure.FollySpsc.Inv.{IsValid, contents}
use bpf_arena_data_structure.FollySpsc.Threads.{
  Producer, Consumer, System, Step, produce, consume, Reach, here, next,
}

pub record Inv (s : System) : Type 0 where
  pub kept : Kept s.head s.producer s.consumer
  pub history : s.received ++ contents s.head ≡ s.sent

Step-Inv : {s t : System} → Step s t → Inv s → Inv t
Step-Inv {s} (produce {out} mv) inv = record {
  kept = Produce-Kept mv inv.kept;
  history =
      ap (λ q. s.received ++ q) (Produce-contents mv inv.kept.valid inv.kept.producer)
      ∙ sym (append_assoc s.received (contents s.head) out)
      ∙ ap (λ l. l ++ out) inv.history;
}
Step-Inv {s} (consume {h} {out} mv) inv = record {
  kept = Consume-Kept mv inv.kept;
  history =
      append_assoc s.received out (contents h)
      ∙ ap (λ q. s.received ++ q) (sym (Consume-contents mv inv.kept.valid inv.kept.consumer))
      ∙ inv.history;
}

Reach-Inv : {h : Head} {s : System} → IsValid h → contents h ≡ [] → Reach h s → Inv s
Reach-Inv v e here = record {
  kept = record { valid = v; producer = tt; consumer = tt };
  history = e;
}
Reach-Inv v e (next r st) = Step-Inv st (Reach-Inv v e r)

-- From a valid empty ring, under every interleaving: the pairs taken, followed by those waiting,
-- are the pairs published, in order. None is lost, repeated, reordered or torn. The head stays
-- valid.
pub spsc_fifo :
    {h : Head} {s : System}
    → IsValid h
    → contents h ≡ []
    → Reach h s
    → (s.received ++ contents s.head ≡ s.sent) × IsValid s.head
spsc_fifo v e r = let inv = Reach-Inv v e r in (inv.history, inv.kept.valid)

-- The slot that a thread is about to access.
unfoldable pub writes : Producer → Option ℕ
writes (Producer.claimed x w n) = some w
writes (Producer.keyed x w n) = some w
writes _ = none

unfoldable pub reads : Consumer → Option ℕ
reads (Consumer.found r) = some r
reads (Consumer.keyed r k) = some r
reads _ = none

writes-ne-reads :
    (h : Head) (p : Producer) (c : Consumer) {w r : ℕ}
    → ProducerInv h p
    → ConsumerInv h c
    → writes p ≡ some w
    → reads c ≡ some r
    → w ≢ r
unfolding writes reads
writes-ne-reads h (Producer.claimed x w n) (Consumer.found r) i j e f = ground arith
writes-ne-reads h (Producer.claimed x w n) (Consumer.keyed r k) i j e f = ground arith
writes-ne-reads h p c i j e f = ground arith

-- From a valid empty ring, under every interleaving: a slot that the producer is about to write is
-- not the slot that the consumer is about to read.
pub spsc_no_race :
    {h : Head} {s : System} {w r : ℕ}
    → IsValid h
    → contents h ≡ []
    → Reach h s
    → writes s.producer ≡ some w
    → reads s.consumer ≡ some r
    → w ≢ r
spsc_no_race {s} v e r a b =
    let inv = (Reach-Inv v e r).kept in
    writes-ne-reads s.head s.producer s.consumer inv.producer inv.consumer a b
