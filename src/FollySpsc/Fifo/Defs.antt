-- ===== src/FollySpsc/Fifo/Defs.antt =====
-- What the local variables of the two threads of the Folly ring say about the head.
use bpf_arena_data_structure.Base.{ℕ, ◌≡◌, ◌≢◌, get_or}
use bpf_arena_data_structure.Api.{zero_kv}
use bpf_arena_data_structure.FollySpsc.{Head, next_record}
use bpf_arena_data_structure.FollySpsc.Inv.{IsValid}
use bpf_arena_data_structure.FollySpsc.Threads.{Producer, Consumer}

-- The producer owns the slot at `write_idx` while there is space behind it.
abbrev pub Claims : Head → ℕ → ℕ → Type 0
Claims h w n = (w ≡ h.write_idx) × (n ≡ next_record h.size w) × (n ≢ h.read_idx)

abbrev pub ProducerInv : Head → Producer → Type 0
ProducerInv h Producer.ready = Unit
ProducerInv h (Producer.loaded x w) = w ≡ h.write_idx
ProducerInv h (Producer.claimed x w n) = Claims h w n
ProducerInv h (Producer.keyed x w n) = Claims h w n × ((get_or h.cells w zero_kv).key ≡ x.key)
ProducerInv h (Producer.filled x w n) = Claims h w n × (get_or h.cells w zero_kv ≡ x)

-- The consumer owns the slot at `read_idx` while the ring is not empty.
abbrev pub Holds : Head → ℕ → Type 0
Holds h r = (r ≡ h.read_idx) × (r ≢ h.write_idx)

abbrev pub ConsumerInv : Head → Consumer → Type 0
ConsumerInv h Consumer.ready = Unit
ConsumerInv h (Consumer.loaded r) = r ≡ h.read_idx
ConsumerInv h (Consumer.found r) = Holds h r
ConsumerInv h (Consumer.keyed r k) = Holds h r × (k ≡ (get_or h.cells r zero_kv).key)
ConsumerInv h (Consumer.copied r x) = Holds h r × (x ≡ get_or h.cells r zero_kv)

-- What the locals of both threads say about the head.
pub record Kept (h : Head) (p : Producer) (c : Consumer) : Type 0 where
  pub valid : IsValid h
  pub producer : ProducerInv h p
  pub consumer : ConsumerInv h c
