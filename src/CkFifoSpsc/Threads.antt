-- ===== src/CkFifoSpsc/Threads.antt =====
-- One producer in `ds_ck_fifo_spsc_insert` and one consumer in `ds_ck_fifo_spsc_delete` over the same
-- queue, in any order (sequential consistency). A step makes one access to `head` or to an entry, and
-- with it those to the fields that only its own thread uses: `tail`, `head_snapshot` and `garbage` are
-- the producer's, and only the consumer writes `head`. Both call again and again; the consumer passes a
-- buffer. `sent` and `received` record the pairs that were published and taken.
use bpf_arena_data_structure.Base.{ℕ, ◌+◌, ◌<◌, ◌≡◌, ◌≢◌, List, [], ◌∷◌, ◌++◌}
use bpf_arena_data_structure.Api.{Kv, kv}
use bpf_arena_data_structure.Linked.{NotIn}
use bpf_arena_data_structure.CkFifoSpsc.{Fifo, kv_offset, pair_at, set_value, set_next, set_pair}

-- Where the producer stands, with its argument and the entry that it has.
pub data Producer : Type 0 where
  ready : Producer
  asked : (x : Kv) → Producer
  none_left : (x : Kv) → Producer
  reuses : (x : Kv) → Producer
  got : (x : Kv) (entry : ℕ) → Producer
  keyed : (x : Kv) (entry : ℕ) → Producer
  filled : (x : Kv) (entry : ℕ) → Producer
  pointed : (x : Kv) (entry : ℕ) → Producer
  closed : (x : Kv) (entry : ℕ) → Producer

pub data Consumer : Type 0 where
  ready : Consumer
  found : (entry : ℕ) → Consumer
  pointed : (entry value : ℕ) → Consumer
  moved : (payload : ℕ) → Consumer
  keyed : (payload key : ℕ) → Consumer

-- A step of `ds_ck_fifo_spsc_insert`, with the pairs that it publishes. `granted` are the entries that
-- the arena has given out: `bpf_arena_alloc` returns NULL or another one.
pub data Produce (f : Fifo) (granted : List ℕ)
    : Producer → Fifo → List ℕ → Producer → List Kv → Type 0 where
  see_snapshot :
      (x : Kv)
      → f.head_snapshot ≡ f.garbage
      → Produce f granted Producer.ready f granted (Producer.asked x) []
  see_garbage :
      (x : Kv)
      → f.head_snapshot ≢ f.garbage
      → Produce f granted Producer.ready f granted (Producer.reuses x) []
  load_same :
      {x : Kv}
      → f.head ≡ f.garbage
      → Produce f granted
          (Producer.asked x)
          (record f { head_snapshot = f.head })
          granted
          (Producer.none_left x)
          []
  load_moved :
      {x : Kv}
      → f.head ≢ f.garbage
      → Produce f granted
          (Producer.asked x)
          (record f { head_snapshot = f.head })
          granted
          (Producer.reuses x)
          []
  take_back :
      {x : Kv}
      → Produce f granted
          (Producer.reuses x)
          (record f { garbage = (f.entries f.garbage).next })
          granted
          (Producer.got x f.garbage)
          []
  no_memory : {x : Kv} → Produce f granted (Producer.none_left x) f granted Producer.ready []
  allocate :
      {x : Kv} (entry : ℕ)
      → 0 < entry
      → NotIn entry granted
      → Produce f granted (Producer.none_left x) f (entry ∷ granted) (Producer.got x entry) []
  store_key :
      {x : Kv} {e : ℕ}
      → Produce f granted
          (Producer.got x e)
          (record f { entries = set_pair f.entries e (kv x.key (f.entries e).pair.value) })
          granted
          (Producer.keyed x e)
          []
  store_value :
      {x : Kv} {e : ℕ}
      → Produce f granted
          (Producer.keyed x e)
          (record f { entries = set_pair f.entries e (kv (f.entries e).pair.key x.value) })
          granted
          (Producer.filled x e)
          []
  store_pointer :
      {x : Kv} {e : ℕ}
      → Produce f granted
          (Producer.filled x e)
          (record f { entries = set_value f.entries e (e + kv_offset) })
          granted
          (Producer.pointed x e)
          []
  clear_next :
      {x : Kv} {e : ℕ}
      → Produce f granted
          (Producer.pointed x e)
          (record f { entries = set_next f.entries e 0 })
          granted
          (Producer.closed x e)
          []
  publish :
      {x : Kv} {e : ℕ}
      → Produce f granted
          (Producer.closed x e)
          (record f { tail = e; entries = set_next f.entries f.tail e })
          granted
          Producer.ready
          (x ∷ [])

-- A step of `ds_ck_fifo_spsc_delete`, with the pairs that it takes.
pub data Consume (f : Fifo) : Consumer → Fifo → Consumer → List Kv → Type 0 where
  see_empty : (f.entries f.head).next ≡ 0 → Consume f Consumer.ready f Consumer.ready []
  see_entry :
      (f.entries f.head).next ≢ 0
      → Consume f Consumer.ready f (Consumer.found (f.entries f.head).next) []
  load_pointer :
      {e : ℕ} → Consume f (Consumer.found e) f (Consumer.pointed e (f.entries e).value) []
  advance :
      {e v : ℕ} → Consume f (Consumer.pointed e v) (record f { head = e }) (Consumer.moved v) []
  see_null : {v : ℕ} → v ≡ 0 → Consume f (Consumer.moved v) f Consumer.ready []
  load_key :
      {v : ℕ}
      → v ≢ 0
      → Consume f (Consumer.moved v) f (Consumer.keyed v (pair_at f.entries v).key) []
  load_value :
      {v k : ℕ}
      → Consume f (Consumer.keyed v k) f Consumer.ready (kv k (pair_at f.entries v).value ∷ [])

pub record System : Type 0 where
  pub fifo : Fifo
  pub granted : List ℕ
  pub producer : Producer
  pub consumer : Consumer
  pub sent : List Kv
  pub received : List Kv

pub data Step (s : System) : System → Type 0 where
  produce :
      {f : Fifo} {granted : List ℕ} {p : Producer} {out : List Kv}
      → Produce s.fifo s.granted s.producer f granted p out
      → Step s (record s { fifo = f; granted = granted; producer = p; sent = s.sent ++ out })
  consume :
      {f : Fifo} {c : Consumer} {out : List Kv}
      → Consume s.fifo s.consumer f c out
      → Step s (record s { fifo = f; consumer = c; received = s.received ++ out })

-- Both threads outside their calls, nothing sent yet, and only the stub given out.
abbrev pub start : Fifo → (stub : ℕ) → System
start f stub = record {
  fifo = f;
  granted = stub ∷ [];
  producer = Producer.ready;
  consumer = Consumer.ready;
  sent = [];
  received = [];
}

pub data Reach (f : Fifo) (stub : ℕ) : System → Type 0 where
  here : Reach f stub (start f stub)
  next : {s t : System} → Reach f stub s → Step s t → Reach f stub t
