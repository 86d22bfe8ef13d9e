-- ===== src/Vyukhov/Threads/Owners.antt =====
-- What a thread that owns a position knows of its cell.
use bpf_arena_data_structure.Base.{
  ℕ, ◌≤◌, ◌<◌, ◌≡◌, Option, some, List, arith, subst, ap, ap₂, sym, ◌∙◌,
}
use bpf_arena_data_structure.Api.{Kv}
use bpf_arena_data_structure.Vyukhov.{Head}
use bpf_arena_data_structure.Vyukhov.Threads.{Producer, Consumer, at}
use bpf_arena_data_structure.Vyukhov.Threads.Inv.{
  claim, Shared, Writes, Reads, ProducerInv, ConsumerInv, writer, filling, reader,
}

pub owned_read :
    (h : Head) (claims : List Kv) (c : Consumer) (r : ℕ)
    → reader c ≡ some r
    → ConsumerInv h claims c
    → Reads h claims r
unfolding reader
owned_read h claims Consumer.ready r e inv = absurd (ground arith)
owned_read h claims (Consumer.loaded pos n) r e inv = absurd (ground arith)
owned_read h claims (Consumer.matched pos n) r e inv = absurd (ground arith)
owned_read h claims (Consumer.failed n) r e inv = absurd (ground arith)
owned_read h claims (Consumer.claimed pos) r e inv = subst (Reads h claims) (ground arith) inv
owned_read h claims (Consumer.keyed pos k) r e inv = subst (Reads h claims) (ground arith) inv.0
owned_read h claims (Consumer.copied pos x) r e inv = subst (Reads h claims) (ground arith) inv.0
owned_read h claims Consumer.released r e inv = absurd (ground arith)

-- The counter matters to no thread.
pub Producer-count :
    (h : Head) (claims : List Kv) (n : ℕ) (p : Producer)
    → ProducerInv h claims p
    → ProducerInv (record h { count = n }) claims p
Producer-count h claims n Producer.ready inv = tt
Producer-count h claims n (Producer.loaded x pos r) inv = inv
Producer-count h claims n (Producer.matched x pos r) inv = inv
Producer-count h claims n (Producer.failed x r) inv = tt
Producer-count h claims n (Producer.claimed x pos) inv = inv
Producer-count h claims n (Producer.keyed x pos) inv = inv
Producer-count h claims n (Producer.filled x pos) inv = inv
Producer-count h claims n Producer.published inv = tt

pub Consumer-count :
    (h : Head) (claims : List Kv) (n : ℕ) (c : Consumer)
    → ConsumerInv h claims c
    → ConsumerInv (record h { count = n }) claims c
Consumer-count h claims n Consumer.ready inv = tt
Consumer-count h claims n (Consumer.loaded pos r) inv = inv
Consumer-count h claims n (Consumer.matched pos r) inv = inv
Consumer-count h claims n (Consumer.failed r) inv = tt
Consumer-count h claims n (Consumer.claimed pos) inv = inv
Consumer-count h claims n (Consumer.keyed pos k) inv = inv
Consumer-count h claims n (Consumer.copied pos x) inv = inv
Consumer-count h claims n Consumer.released inv = tt

pub Shared-count :
    {h : Head} {claims : List Kv} (n : ℕ) → Shared h claims → Shared (record h { count = n }) claims
Shared-count n s = record {
  pow2 = s.pow2;
  two = s.two;
  small = s.small;
  storage = s.storage;
  order = s.order;
  room = s.room;
  counted = s.counted;
  words = s.words;
  slots = s.slots;
}

abbrev Owns : Head → ℕ → Type 0
Owns h w = (h.dequeue_pos ≤ w) × (w < h.enqueue_pos) × ((at h w).sequence ≡ w)

pub owned_write :
    (h : Head) (claims : List Kv) (p : Producer) (w : ℕ)
    → writer p ≡ some w
    → ProducerInv h claims p
    → (h.dequeue_pos ≤ w) × (w < h.enqueue_pos) × ((at h w).sequence ≡ w)
unfolding writer
owned_write h claims Producer.ready w e inv = absurd (ground arith)
owned_write h claims (Producer.loaded x pos n) w e inv = absurd (ground arith)
owned_write h claims (Producer.matched x pos n) w e inv = absurd (ground arith)
owned_write h claims (Producer.failed x n) w e inv = absurd (ground arith)
owned_write h claims (Producer.claimed x pos) w e (d, lt, n, c) =
    subst (Owns h) (ground arith) (d, lt, n)
owned_write h claims (Producer.keyed x pos) w e ((d, lt, n, c), k) =
    subst (Owns h) (ground arith) (d, lt, n)
owned_write h claims (Producer.filled x pos) w e ((d, lt, n, c), k) =
    subst (Owns h) (ground arith) (d, lt, n)
owned_write h claims Producer.published w e inv = absurd (ground arith)

Writes-filling :
    (h : Head) (claims : List Kv) (pos w : ℕ) (x : Kv)
    → Writes h claims pos x
    → some pos ≡ some w
    → ◌≡◌ {A = Option (ℕ × Kv)} (some (pos, x)) (some (w, claim claims w))
Writes-filling h claims pos w x (d, lt, n, c) e =
    let same : pos ≡ w = ground arith in
    ap₂ (λ p y. some (p, y)) same (sym c ∙ ap (claim claims) same)

-- The pair of a producer that owns a position is the one claimed for it.
pub owned_filling :
    (h : Head) (claims : List Kv) (p : Producer) (w : ℕ)
    → writer p ≡ some w
    → ProducerInv h claims p
    → filling p ≡ some (w, claim claims w)
unfolding writer filling
owned_filling h claims Producer.ready w e inv = absurd (ground arith)
owned_filling h claims (Producer.loaded x pos n) w e inv = absurd (ground arith)
owned_filling h claims (Producer.matched x pos n) w e inv = absurd (ground arith)
owned_filling h claims (Producer.failed x n) w e inv = absurd (ground arith)
owned_filling h claims (Producer.claimed x pos) w e inv = Writes-filling h claims pos w x inv e
owned_filling h claims (Producer.keyed x pos) w e (inv, k) = Writes-filling h claims pos w x inv e
owned_filling h claims (Producer.filled x pos) w e (inv, k) = Writes-filling h claims pos w x inv e
owned_filling h claims Producer.published w e inv = absurd (ground arith)
