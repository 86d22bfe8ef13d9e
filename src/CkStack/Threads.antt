-- ===== src/CkStack/Threads.antt =====
-- Any number of threads in `ds_ck_stack_upmc_insert` and `ds_ck_stack_upmc_pop` over the same stack, one
-- shared access at a time, in any order (sequential consistency). Entries are not given back, as in the
-- applications. `can_loop` may stop a loop at any time. The trace records what the exchanges did.
use bpf_arena_data_structure.Base.{ℕ, ◌+◌, ◌<◌, ◌≡◌, ◌≢◌, List, [], ◌∷◌, ◌++◌, ◌==◌, if◌then◌else◌}
use bpf_arena_data_structure.Api.{Kv, kv, u64, sub_u64}
use bpf_arena_data_structure.CkStack.{Entry, Stack}
use bpf_arena_data_structure.CkStack.Chain.{NotIn}

-- Where a thread stands. A thread that pushes has its pair `x` and its entry; one that pops has the head
-- that it read, and what it read of it. `x` of a removal is the pair that the trace recorded.
pub data Thread : Type 0 where
  ready : Thread
  got : (x : Kv) (entry : ℕ) → Thread
  keyed : (x : Kv) (entry : ℕ) → Thread
  filled : (x : Kv) (entry : ℕ) → Thread
  loaded : (x : Kv) (entry head : ℕ) → Thread
  linked : (x : Kv) (entry head : ℕ) → Thread
  pushed : Thread
  seen : (head : ℕ) → Thread
  followed : (head next : ℕ) → Thread
  popped : (x : Kv) (entry : ℕ) → Thread
  counted : (x : Kv) (entry : ℕ) → Thread
  half : (x : Kv) (entry key : ℕ) → Thread

-- A pair was put in front, or the first one was taken, or no entry was found.
pub data Event : Type 0 where
  put : Kv → Event
  took : Kv → Event
  saw_none : Event

abbrev pub set_pair : Stack → ℕ → Kv → Stack
set_pair s a x = record s {
  entries = λ b. if b == a then record { next = (s.entries a).next; pair = x } else s.entries b;
}

abbrev pub set_next : Stack → ℕ → ℕ → Stack
set_next s a n = record s {
  entries = λ b. if b == a then record { next = n; pair = (s.entries a).pair } else s.entries b;
}

-- A step of an insertion, with all entries granted so far and the event of its exchange; it delivers
-- nothing.
pub data Insert (s : Stack) (granted : List ℕ)
    : Thread → Stack → List ℕ → Thread → List Event → List (Kv × Kv) → Type 0 where
  allocate :
      (x : Kv) (entry : ℕ)
      → 0 < entry
      → NotIn entry granted
      → Insert s granted Thread.ready s (entry ∷ granted) (Thread.got x entry) [] []
  store_key :
      {x : Kv} {e : ℕ}
      → Insert s granted
          (Thread.got x e)
          (set_pair s e (kv x.key (s.entries e).pair.value))
          granted
          (Thread.keyed x e)
          []
          []
  store_value :
      {x : Kv} {e : ℕ}
      → Insert s granted
          (Thread.keyed x e)
          (set_pair s e (kv (s.entries e).pair.key x.value))
          granted
          (Thread.filled x e)
          []
          []
  load_head :
      {x : Kv} {e : ℕ}
      → Insert s granted (Thread.filled x e) s granted (Thread.loaded x e s.head) [] []
  store_next :
      {x : Kv} {e h : ℕ}
      → Insert s granted (Thread.loaded x e h) (set_next s e h) granted (Thread.linked x e h) [] []
  push :
      {x : Kv} {e h : ℕ}
      → s.head ≡ h
      → Insert s granted
          (Thread.linked x e h)
          (record s { head = e })
          granted
          Thread.pushed
          (put x ∷ [])
          []
  push_again :
      {x : Kv} {e h : ℕ}
      → s.head ≢ h
      → Insert s granted (Thread.linked x e h) s granted (Thread.loaded x e s.head) [] []
  push_stop :
      {x : Kv} {e h : ℕ}
      → s.head ≢ h
      → Insert s granted (Thread.linked x e h) s granted Thread.ready [] []
  count_up :
      Insert s granted Thread.pushed
        (record s { count = u64 (s.count + 1) })
        granted
        Thread.ready
        []
        []

-- A step of a removal. At its end it delivers what it read of the entry, beside what the trace recorded.
pub data Remove (s : Stack) (granted : List ℕ)
    : Thread → Stack → List ℕ → Thread → List Event → List (Kv × Kv) → Type 0 where
  see_none : s.head ≡ 0 → Remove s granted Thread.ready s granted Thread.ready (saw_none ∷ []) []
  see_head : s.head ≢ 0 → Remove s granted Thread.ready s granted (Thread.seen s.head) [] []
  follow :
      {h : ℕ}
      → Remove s granted (Thread.seen h) s granted (Thread.followed h (s.entries h).next) [] []
  pop_stop : {h : ℕ} → Remove s granted (Thread.seen h) s granted Thread.ready [] []
  pop :
      {h n : ℕ}
      → s.head ≡ h
      → Remove s granted
          (Thread.followed h n)
          (record s { head = n })
          granted
          (Thread.popped (s.entries h).pair h)
          (took (s.entries h).pair ∷ [])
          []
  pop_again :
      {h n : ℕ}
      → s.head ≢ h
      → s.head ≢ 0
      → Remove s granted (Thread.followed h n) s granted (Thread.seen s.head) [] []
  pop_none :
      {h n : ℕ}
      → s.head ≢ h
      → s.head ≡ 0
      → Remove s granted (Thread.followed h n) s granted Thread.ready (saw_none ∷ []) []
  count_down :
      {x : Kv} {e : ℕ}
      → Remove s granted
          (Thread.popped x e)
          (record s { count = sub_u64 s.count 1 })
          granted
          (Thread.counted x e)
          []
          []
  load_key :
      {x : Kv} {e : ℕ}
      → Remove s granted
          (Thread.counted x e)
          s
          granted
          (Thread.half x e (s.entries e).pair.key)
          []
          []
  load_value :
      {x : Kv} {e k : ℕ}
      → Remove s granted
          (Thread.half x e k)
          s
          granted
          Thread.ready
          []
          ((x, kv k (s.entries e).pair.value) ∷ [])

-- The threads by number; the trace and the deliveries, the latest first.
pub record System : Type 0 where
  pub stack : Stack
  pub granted : List ℕ
  pub threads : ℕ → Thread
  pub trace : List Event
  pub delivered : List (Kv × Kv)

abbrev pub update : (ℕ → Thread) → ℕ → Thread → ℕ → Thread
update ts i t = λ j. if j == i then t else ts j

pub data Step (y : System) : System → Type 0 where
  insert :
      (i : ℕ) {s : Stack} {granted : List ℕ} {t : Thread} {out : List Event} {got : List (Kv × Kv)}
      → Insert y.stack y.granted (y.threads i) s granted t out got
      → Step y (record {
        stack = s;
        granted = granted;
        threads = update y.threads i t;
        trace = out ++ y.trace;
        delivered = got ++ y.delivered;
      })
  remove :
      (i : ℕ) {s : Stack} {granted : List ℕ} {t : Thread} {out : List Event} {got : List (Kv × Kv)}
      → Remove y.stack y.granted (y.threads i) s granted t out got
      → Step y (record {
        stack = s;
        granted = granted;
        threads = update y.threads i t;
        trace = out ++ y.trace;
        delivered = got ++ y.delivered;
      })

-- An empty stack, and every thread outside its calls.
abbrev pub start : (entries : ℕ → Entry) → System
start entries = record {
  stack = record { head = 0; count = 0; entries = entries };
  granted = [];
  threads = λ i. Thread.ready;
  trace = [];
  delivered = [];
}

pub data Reach (entries : ℕ → Entry) : System → Type 0 where
  here : Reach entries (start entries)
  next : {y z : System} → Reach entries y → Step y z → Reach entries z
