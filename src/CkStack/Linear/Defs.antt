-- ===== src/CkStack/Linear/Defs.antt =====
-- What the threads of the CK stack know of its entries.
use bpf_arena_data_structure.Base.{ℕ, ◌<◌, ◌≡◌, ◌≢◌, List, [], ◌∷◌}
use bpf_arena_data_structure.Api.{Kv}
use bpf_arena_data_structure.Api.Queue.{Queue}
use bpf_arena_data_structure.CkStack.{Entry}
use bpf_arena_data_structure.CkStack.Chain.{Chain, NotIn, pairs}
use bpf_arena_data_structure.CkStack.Threads.{Thread, Event, put, took, saw_none, System}

-- The entry that a thread fills, or 0.
abbrev pub owned : Thread → ℕ
owned (Thread.got x e) = e
owned (Thread.keyed x e) = e
owned (Thread.filled x e) = e
owned (Thread.loaded x e h) = e
owned (Thread.linked x e h) = e
owned t = 0

-- The entry that a thread may access, or 0.
abbrev pub named : Thread → ℕ
named (Thread.got x e) = e
named (Thread.keyed x e) = e
named (Thread.filled x e) = e
named (Thread.loaded x e h) = e
named (Thread.linked x e h) = e
named (Thread.seen h) = h
named (Thread.followed h n) = h
named (Thread.popped x e) = e
named (Thread.counted x e) = e
named (Thread.half x e k) = e
named t = 0

-- `m` are the entries, and `es` those in the stack.
abbrev pub ThreadInv : (ℕ → Entry) → List ℕ → Thread → Type 0
ThreadInv m es (Thread.got x e) = (0 < e) × NotIn e es
ThreadInv m es (Thread.keyed x e) = (0 < e) × NotIn e es × ((m e).pair.key ≡ x.key)
ThreadInv m es (Thread.filled x e) = (0 < e) × NotIn e es × ((m e).pair ≡ x)
ThreadInv m es (Thread.loaded x e h) = (0 < e) × NotIn e es × ((m e).pair ≡ x)
ThreadInv m es (Thread.linked x e h) = (0 < e) × NotIn e es × ((m e).pair ≡ x) × ((m e).next ≡ h)
ThreadInv m es (Thread.seen h) = 0 < h
ThreadInv m es (Thread.followed h n) = (0 < h) × (n ≡ (m h).next)
ThreadInv m es (Thread.popped x e) = (m e).pair ≡ x
ThreadInv m es (Thread.counted x e) = (m e).pair ≡ x
ThreadInv m es (Thread.half x e k) = ((m e).pair ≡ x) × (k ≡ x.key)
ThreadInv m es t = Unit

-- The entry was given out, if there is one.
abbrev pub Given : List ℕ → ℕ → Type 0
Given granted e = (a : ℕ) → 0 < a → NotIn a granted → e ≢ a

-- A sequential stack, empty at first, that does what the trace says holds these pairs at the end.
pub data Replays : List Event → Queue → Type 0 where
  none_yet : Replays [] []
  puts : {t : List Event} {q : Queue} (x : Kv) → Replays t q → Replays (put x ∷ t) (x ∷ q)
  takes : {t : List Event} {q : Queue} {x : Kv} → Replays t (x ∷ q) → Replays (took x ∷ t) q
  sees_none : {t : List Event} → Replays t [] → Replays (saw_none ∷ t) []

abbrev pub AllSame : List (Kv × Kv) → Type 0
AllSame [] = Unit
AllSame (d ∷ ds) = (d.0 ≡ d.1) × AllSame ds

pub record Inv (y : System) (es : List ℕ) : Type 0 where
  pub chain : Chain y.stack.entries y.stack.head es
  pub covers : (a : ℕ) → NotIn a y.granted → NotIn a es
  pub local : (i : ℕ) → ThreadInv y.stack.entries es (y.threads i)
  pub given : (i : ℕ) → Given y.granted (named (y.threads i))
  pub apart :
      (i j : ℕ) → i ≢ j → 0 < owned (y.threads i) → named (y.threads j) ≢ owned (y.threads i)
  pub linear : Replays y.trace (pairs y.stack.entries es)
  pub faithful : AllSame y.delivered
