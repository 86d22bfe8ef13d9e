-- ===== src/Vyukhov/Threads.antt =====
-- Any number of producers in `ds_vyukhov_insert` and of consumers in `ds_vyukhov_pop` over one head, one
-- shared access at a time, in any order (sequential consistency). Each calls again and again; a consumer
-- passes a buffer. `claims` records the pairs in the order in which enqueue_pos was moved for them,
-- `received` what was taken, with the positions, the latest first.
pub mod Inv
pub mod Place
pub mod Shared
pub mod Others
pub mod Owners
pub mod Family
pub mod Account
pub mod Producing
pub mod Consuming
pub mod Deliver
use bpf_arena_data_structure.Base.{
  ℕ, suc, ◌+◌, ◌-◌, ◌%◌, ◌^◌, ◌≤◌, ◌<◌, ◌≡◌, ◌≢◌, List, [], ◌∷◌, ◌++◌, ◌==◌, if◌then◌else◌,
}
use bpf_arena_data_structure.Api.{Kv, kv, u64, sub_u64}
use bpf_arena_data_structure.Vyukhov.{node, Node, Head, max_retries, set_cell, slot}

-- Where a producer stands, with its argument and its local variables; `retries` counts the rounds.
pub data Producer : Type 0 where
  ready : Producer
  loaded : (x : Kv) (pos retries : ℕ) → Producer
  matched : (x : Kv) (pos retries : ℕ) → Producer
  failed : (x : Kv) (retries : ℕ) → Producer
  claimed : (x : Kv) (pos : ℕ) → Producer
  keyed : (x : Kv) (pos : ℕ) → Producer
  filled : (x : Kv) (pos : ℕ) → Producer
  published : Producer

pub data Consumer : Type 0 where
  ready : Consumer
  loaded : (pos retries : ℕ) → Consumer
  matched : (pos retries : ℕ) → Consumer
  failed : (retries : ℕ) → Consumer
  claimed : (pos : ℕ) → Consumer
  keyed : (pos key : ℕ) → Consumer
  copied : (pos : ℕ) (x : Kv) → Consumer
  released : Consumer

abbrev pub at : Head → (pos : ℕ) → Node
at h pos = node h.cells (slot h pos)

abbrev pub put : Head → (pos : ℕ) → Node → Head
put h pos n = record h { cells = set_cell h.cells (slot h pos) n }

-- A step of `ds_vyukhov_insert`, with the pairs for which it moves enqueue_pos.
pub data Produce (h : Head) : Producer → Head → Producer → List Kv → Type 0 where
  load_pos : (x : Kv) → Produce h Producer.ready h (Producer.loaded x h.enqueue_pos 0) []
  see_ready :
      {x : Kv} {pos r : ℕ}
      → r < max_retries
      → sub_u64 (at h pos).sequence pos ≡ 0
      → Produce h (Producer.loaded x pos r) h (Producer.matched x pos r) []
  see_full :
      {x : Kv} {pos r : ℕ}
      → r < max_retries
      → 2 ^ 63 ≤ sub_u64 (at h pos).sequence pos
      → Produce h (Producer.loaded x pos r) h Producer.ready []
  see_late :
      {x : Kv} {pos r : ℕ}
      → r < max_retries
      → sub_u64 (at h pos).sequence pos ≢ 0
      → sub_u64 (at h pos).sequence pos < 2 ^ 63
      → Produce h (Producer.loaded x pos r) h (Producer.failed x (suc r)) []
  -- The loop ends after DS_VYUKHOV_MAX_RETRIES rounds, and whenever `can_loop` says so.
  give_up : {x : Kv} {pos r : ℕ} → Produce h (Producer.loaded x pos r) h Producer.ready []
  exchange :
      {x : Kv} {pos r : ℕ}
      → h.enqueue_pos ≡ pos
      → Produce h
          (Producer.matched x pos r)
          (record h { enqueue_pos = u64 (pos + 1) })
          (Producer.claimed x pos)
          (x ∷ [])
  lose :
      {x : Kv} {pos r : ℕ}
      → h.enqueue_pos ≢ pos
      → Produce h (Producer.matched x pos r) h (Producer.failed x (suc r)) []
  reload :
      {x : Kv} {r : ℕ} → Produce h (Producer.failed x r) h (Producer.loaded x h.enqueue_pos r) []
  store_key :
      {x : Kv} {pos : ℕ}
      → Produce h
          (Producer.claimed x pos)
          (put h pos
            (record { sequence = (at h pos).sequence; pair = kv x.key (at h pos).pair.value }))
          (Producer.keyed x pos)
          []
  store_value :
      {x : Kv} {pos : ℕ}
      → Produce h
          (Producer.keyed x pos)
          (put h pos
            (record { sequence = (at h pos).sequence; pair = kv (at h pos).pair.key x.value }))
          (Producer.filled x pos)
          []
  publish :
      {x : Kv} {pos : ℕ}
      → Produce h
          (Producer.filled x pos)
          (put h pos (record { sequence = u64 (pos + 1); pair = (at h pos).pair }))
          Producer.published
          []
  count_up : Produce h Producer.published (record h { count = u64 (h.count + 1) }) Producer.ready []

-- A step of `ds_vyukhov_pop`, with what it takes.
pub data Consume (h : Head) : Consumer → Head → Consumer → List (ℕ × Kv) → Type 0 where
  load_pos : Consume h Consumer.ready h (Consumer.loaded h.dequeue_pos 0) []
  see_ready :
      {pos r : ℕ}
      → r < max_retries
      → sub_u64 (at h pos).sequence (u64 (pos + 1)) ≡ 0
      → Consume h (Consumer.loaded pos r) h (Consumer.matched pos r) []
  see_empty :
      {pos r : ℕ}
      → r < max_retries
      → 2 ^ 63 ≤ sub_u64 (at h pos).sequence (u64 (pos + 1))
      → Consume h (Consumer.loaded pos r) h Consumer.ready []
  see_late :
      {pos r : ℕ}
      → r < max_retries
      → sub_u64 (at h pos).sequence (u64 (pos + 1)) ≢ 0
      → sub_u64 (at h pos).sequence (u64 (pos + 1)) < 2 ^ 63
      → Consume h (Consumer.loaded pos r) h (Consumer.failed (suc r)) []
  give_up : {pos r : ℕ} → Consume h (Consumer.loaded pos r) h Consumer.ready []
  exchange :
      {pos r : ℕ}
      → h.dequeue_pos ≡ pos
      → Consume h
          (Consumer.matched pos r)
          (record h { dequeue_pos = u64 (pos + 1) })
          (Consumer.claimed pos)
          []
  lose :
      {pos r : ℕ}
      → h.dequeue_pos ≢ pos
      → Consume h (Consumer.matched pos r) h (Consumer.failed (suc r)) []
  reload : {r : ℕ} → Consume h (Consumer.failed r) h (Consumer.loaded h.dequeue_pos r) []
  load_key :
      {pos : ℕ} → Consume h (Consumer.claimed pos) h (Consumer.keyed pos (at h pos).pair.key) []
  load_value :
      {pos k : ℕ}
      → Consume h (Consumer.keyed pos k) h (Consumer.copied pos (kv k (at h pos).pair.value)) []
  release :
      {pos : ℕ} {x : Kv}
      → Consume h
          (Consumer.copied pos x)
          (put h pos (record { sequence = u64 (pos + h.buffer_mask + 1); pair = (at h pos).pair }))
          Consumer.released
          ((pos, x) ∷ [])
  count_down :
      Consume h Consumer.released (record h { count = sub_u64 h.count 1 }) Consumer.ready []

pub record System : Type 0 where
  pub head : Head
  pub producers : ℕ → Producer
  pub consumers : ℕ → Consumer
  pub claims : List Kv
  pub received : List (ℕ × Kv)

-- The states of all threads, with that of thread `i` replaced.
abbrev pub move : {A : Type 0} → (ℕ → A) → ℕ → A → ℕ → A
move f i a = λ j. if j == i then a else f j

pub data Step (s : System) : System → Type 0 where
  produce :
      (i : ℕ) {h : Head} {p : Producer} {out : List Kv}
      → Produce s.head (s.producers i) h p out
      → Step s (record s { head = h; producers = move s.producers i p; claims = s.claims ++ out })
  consume :
      (i : ℕ) {h : Head} {c : Consumer} {out : List (ℕ × Kv)}
      → Consume s.head (s.consumers i) h c out
      → Step s
          (record s { head = h; consumers = move s.consumers i c; received = out ++ s.received })

-- All threads outside their calls, nothing claimed yet.
abbrev pub start : Head → System
start h = record {
  head = h;
  producers = λ i. Producer.ready;
  consumers = λ i. Consumer.ready;
  claims = [];
  received = [];
}

pub data Reach (h : Head) : System → Type 0 where
  here : Reach h (start h)
  next : {s t : System} → Reach h s → Step s t → Reach h t
