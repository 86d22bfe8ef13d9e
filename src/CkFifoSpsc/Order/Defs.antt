-- ===== src/CkFifoSpsc/Order/Defs.antt =====
-- What the local variables of the two threads of the CK FIFO say about the queue.
use bpf_arena_data_structure.Base.{ℕ, ◌+◌, ◌<◌, ◌≡◌, ◌≢◌, List, [], ◌∷◌, ◌++◌}
use bpf_arena_data_structure.Api.{Kv}
use bpf_arena_data_structure.Linked.{NotIn}
use bpf_arena_data_structure.CkFifoSpsc.{Fifo, kv_offset}
use bpf_arena_data_structure.CkFifoSpsc.Inv.{nodes, contents, IsValid}
use bpf_arena_data_structure.CkFifoSpsc.Threads.{Producer, Consumer}

-- Whatever was not given out is not among the addresses.
abbrev pub Covers : (granted es : List ℕ) → Type 0
Covers granted es = (a : ℕ) → NotIn a granted → NotIn a es

-- An entry that was given out and is not in the chain.
pub record Owned (granted ns : List ℕ) (e : ℕ) : Type 0 where
  pub pos : 0 < e
  pub out : NotIn e ns
  pub given : (a : ℕ) → NotIn a granted → e ≢ a

-- The producer's entry, if it has one, is another one.
abbrev pub Apart : Producer → ℕ → Type 0
Apart (Producer.got x e) a = e ≢ a
Apart (Producer.keyed x e) a = e ≢ a
Apart (Producer.filled x e) a = e ≢ a
Apart (Producer.pointed x e) a = e ≢ a
Apart (Producer.closed x e) a = e ≢ a
Apart p a = Unit

-- What is neither in the chain nor with the producer was not given out.
abbrev pub Complete : (granted es : List ℕ) → Producer → Type 0
Complete granted es p = (a : ℕ) → NotIn a es → Apart p a → NotIn a granted

abbrev pub HasSome : List ℕ → Type 0
HasSome [] = ⊥
HasSome (g ∷ gs) = Unit

-- `ns` is the chain, and `gs` the garbage at its front.
abbrev pub ProducerInv : Fifo → (granted gs ns : List ℕ) → Producer → Type 0
ProducerInv f granted gs ns Producer.ready = Unit
ProducerInv f granted gs ns (Producer.asked x) = gs ≡ []
ProducerInv f granted gs ns (Producer.none_left x) = Unit
ProducerInv f granted gs ns (Producer.reuses x) = HasSome gs
ProducerInv f granted gs ns (Producer.got x e) = Owned granted ns e
ProducerInv f granted gs ns (Producer.keyed x e) =
    Owned granted ns e × ((f.entries e).pair.key ≡ x.key)
ProducerInv f granted gs ns (Producer.filled x e) = Owned granted ns e × ((f.entries e).pair ≡ x)
ProducerInv f granted gs ns (Producer.pointed x e) =
    Owned granted ns e × ((f.entries e).pair ≡ x) × ((f.entries e).value ≡ e + kv_offset)
ProducerInv f granted gs ns (Producer.closed x e) =
    Owned granted ns e
    × ((f.entries e).pair ≡ x)
    × ((f.entries e).value ≡ e + kv_offset)
    × ((f.entries e).next ≡ 0)

abbrev pub StartsWith : ℕ → List ℕ → Type 0
StartsWith e [] = ⊥
StartsWith e (a ∷ es) = e ≡ a

abbrev pub ConsumerInv : Fifo → (d : ℕ) (qs : List ℕ) → Consumer → Type 0
ConsumerInv f d qs Consumer.ready = Unit
ConsumerInv f d qs (Consumer.found e) = StartsWith e qs
ConsumerInv f d qs (Consumer.pointed e v) = StartsWith e qs × (v ≡ e + kv_offset)
ConsumerInv f d qs (Consumer.moved v) = v ≡ d + kv_offset
ConsumerInv f d qs (Consumer.keyed v k) = (v ≡ d + kv_offset) × (k ≡ (f.entries d).pair.key)

-- The pair that the consumer has moved past and not yet read: that of the stub.
abbrev pub hand : Fifo → (d : ℕ) → Consumer → List Kv
hand f d (Consumer.moved v) = (f.entries d).pair ∷ []
hand f d (Consumer.keyed v k) = (f.entries d).pair ∷ []
hand f d _ = []

-- The pairs that were published and not yet delivered.
abbrev pub waiting : Fifo → (d : ℕ) (qs : List ℕ) → Consumer → List Kv
waiting f d qs c = hand f d c ++ contents f qs

pub record Kept (f : Fifo) (granted : List ℕ) (p : Producer) (c : Consumer) (gs ss : List ℕ) (d : ℕ)
    (qs : List ℕ) : Type 0 where
  pub valid : IsValid f gs ss d qs
  pub covers : Covers granted (nodes gs ss d qs)
  pub complete : Complete granted (nodes gs ss d qs) p
  pub producer : ProducerInv f granted gs (nodes gs ss d qs) p
  pub consumer : ConsumerInv f d qs c
