-- ===== src/FollySpsc/Threads.antt =====
-- One producer in `ds_spsc_insert` and one consumer in `ds_spsc_delete` over the same head, one
-- shared access at a time, in any order (sequential consistency). Both call again and again; the
-- consumer passes a buffer. `sent` and `received` record the pairs that were published and taken.
use bpf_arena_data_structure.Base.{ℕ, ◌≡◌, ◌≢◌, List, [], ◌∷◌, ◌++◌, get_or, set}
use bpf_arena_data_structure.Api.{Kv, kv, zero_kv}
use bpf_arena_data_structure.FollySpsc.{Head, next_record}

-- Where the producer stands, with its argument and its local variables.
pub data Producer : Type 0 where
  ready : Producer
  loaded : (x : Kv) (current_write : ℕ) → Producer
  claimed : (x : Kv) (current_write next : ℕ) → Producer
  keyed : (x : Kv) (current_write next : ℕ) → Producer
  filled : (x : Kv) (current_write next : ℕ) → Producer

pub data Consumer : Type 0 where
  ready : Consumer
  loaded : (current_read : ℕ) → Consumer
  found : (current_read : ℕ) → Consumer
  keyed : (current_read key : ℕ) → Consumer
  copied : (current_read : ℕ) (x : Kv) → Consumer

abbrev pub set_key : List Kv → ℕ → ℕ → List Kv
set_key cells i k = set cells i (kv k (get_or cells i zero_kv).value)

abbrev pub set_value : List Kv → ℕ → ℕ → List Kv
set_value cells i v = set cells i (kv (get_or cells i zero_kv).key v)

-- A step of `ds_spsc_insert`, with the pairs that it publishes.
pub data Produce (h : Head) : Producer → Head → Producer → List Kv → Type 0 where
  load_write : (x : Kv) → Produce h Producer.ready h (Producer.loaded x h.write_idx) []
  see_full :
      {x : Kv} {w : ℕ}
      → next_record h.size w ≡ h.read_idx
      → Produce h (Producer.loaded x w) h Producer.ready []
  see_space :
      {x : Kv} {w : ℕ}
      → next_record h.size w ≢ h.read_idx
      → Produce h (Producer.loaded x w) h (Producer.claimed x w (next_record h.size w)) []
  store_key :
      {x : Kv} {w n : ℕ}
      → Produce h
          (Producer.claimed x w n)
          (record h { cells = set_key h.cells w x.key })
          (Producer.keyed x w n)
          []
  store_value :
      {x : Kv} {w n : ℕ}
      → Produce h
          (Producer.keyed x w n)
          (record h { cells = set_value h.cells w x.value })
          (Producer.filled x w n)
          []
  publish :
      {x : Kv} {w n : ℕ}
      → Produce h (Producer.filled x w n) (record h { write_idx = n }) Producer.ready (x ∷ [])

-- A step of `ds_spsc_delete`, with the pairs that it takes.
pub data Consume (h : Head) : Consumer → Head → Consumer → List Kv → Type 0 where
  load_read : Consume h Consumer.ready h (Consumer.loaded h.read_idx) []
  see_empty : {r : ℕ} → r ≡ h.write_idx → Consume h (Consumer.loaded r) h Consumer.ready []
  see_pair : {r : ℕ} → r ≢ h.write_idx → Consume h (Consumer.loaded r) h (Consumer.found r) []
  load_key :
      {r : ℕ} → Consume h (Consumer.found r) h (Consumer.keyed r (get_or h.cells r zero_kv).key) []
  load_value :
      {r k : ℕ}
      → Consume h
          (Consumer.keyed r k)
          h
          (Consumer.copied r (kv k (get_or h.cells r zero_kv).value))
          []
  release :
      {r : ℕ} {x : Kv}
      → Consume h
          (Consumer.copied r x)
          (record h { read_idx = next_record h.size r })
          Consumer.ready
          (x ∷ [])

pub record System : Type 0 where
  pub head : Head
  pub producer : Producer
  pub consumer : Consumer
  pub sent : List Kv
  pub received : List Kv

pub data Step (s : System) : System → Type 0 where
  produce :
      {h : Head} {p : Producer} {out : List Kv}
      → Produce s.head s.producer h p out
      → Step s (record s { head = h; producer = p; sent = s.sent ++ out })
  consume :
      {h : Head} {c : Consumer} {out : List Kv}
      → Consume s.head s.consumer h c out
      → Step s (record s { head = h; consumer = c; received = s.received ++ out })

-- Both threads outside their calls, nothing sent yet.
abbrev pub start : Head → System
start h = record {
  head = h;
  producer = Producer.ready;
  consumer = Consumer.ready;
  sent = [];
  received = [];
}

pub data Reach (h : Head) : System → Type 0 where
  here : Reach h (start h)
  next : {s t : System} → Reach h s → Step s t → Reach h t
