-- ===== src/Vyukhov/Threads/Inv.antt =====
-- What holds of a Vyukhov queue at every moment, and what each thread's local variables say about it.
-- Positions have not wrapped yet: fewer than 2^63 insertions were made.
use bpf_arena_data_structure.Base.{
  ℕ, ◌+◌, ◌^◌, ◌≤◌, ◌<◌, ◌≡◌, ◌≢◌, ◌⊎◌, Option, none, some, List, [], ◌∷◌, length, get_or,
}
use bpf_arena_data_structure.Bits.{IsPow2}
use bpf_arena_data_structure.Api.{Kv, zero_kv}
use bpf_arena_data_structure.Vyukhov.{Head}
use bpf_arena_data_structure.Vyukhov.Threads.{Producer, Consumer, at}

-- The pair for which enqueue_pos was moved past `p`.
abbrev pub claim : List Kv → (p : ℕ) → Kv
claim claims p = get_or claims p zero_kv

-- The cell of a position of the current lap is free, or holds its pair, or is still with a consumer.
abbrev pub Slot : Head → List Kv → (p : ℕ) → Type 0
Slot h claims p =
    ((at h p).sequence ≡ p)
    ⊎ (((at h p).sequence ≡ p + 1) × (p < h.enqueue_pos) × ((at h p).pair ≡ claim claims p))
    ⊎ (((at h p).sequence + h.buffer_mask ≡ p) × (h.enqueue_pos ≤ p))

pub record Shared (h : Head) (claims : List Kv) : Type 0 where
  pub pow2 : IsPow2 (h.buffer_mask + 1)
  pub two : 1 ≤ h.buffer_mask
  pub small : h.buffer_mask < 2 ^ 32
  pub storage : h.buffer_mask + 1 ≤ length h.cells
  pub order : h.dequeue_pos ≤ h.enqueue_pos
  pub room : h.enqueue_pos ≤ h.dequeue_pos + h.buffer_mask + 1
  pub counted : length claims ≡ h.enqueue_pos
  pub words : (p : ℕ) → (at h p).sequence < 2 ^ 64
  pub slots : (p : ℕ) → h.dequeue_pos ≤ p → p ≤ h.dequeue_pos + h.buffer_mask → Slot h claims p

-- A producer that owns position `w`, and a consumer that owns position `r`.
abbrev pub Writes : Head → List Kv → (w : ℕ) → Kv → Type 0
Writes h claims w x =
    (h.dequeue_pos ≤ w) × (w < h.enqueue_pos) × ((at h w).sequence ≡ w) × (claim claims w ≡ x)

abbrev pub Reads : Head → List Kv → (r : ℕ) → Type 0
Reads h claims r =
    (r < h.dequeue_pos)
    × (h.dequeue_pos ≤ r + h.buffer_mask + 1)
    × ((at h r).sequence ≡ r + 1)
    × ((at h r).pair ≡ claim claims r)

abbrev pub ProducerInv : Head → List Kv → Producer → Type 0
ProducerInv h claims Producer.ready = Unit
ProducerInv h claims (Producer.loaded x pos r) = pos ≤ h.enqueue_pos
ProducerInv h claims (Producer.matched x pos r) =
    (pos ≤ h.enqueue_pos) × (h.enqueue_pos ≡ pos → (at h pos).sequence ≡ pos)
ProducerInv h claims (Producer.failed x r) = Unit
ProducerInv h claims (Producer.claimed x pos) = Writes h claims pos x
ProducerInv h claims (Producer.keyed x pos) = Writes h claims pos x × ((at h pos).pair.key ≡ x.key)
ProducerInv h claims (Producer.filled x pos) = Writes h claims pos x × ((at h pos).pair ≡ x)
ProducerInv h claims Producer.published = Unit

abbrev pub ConsumerInv : Head → List Kv → Consumer → Type 0
ConsumerInv h claims Consumer.ready = Unit
ConsumerInv h claims (Consumer.loaded pos r) = pos ≤ h.dequeue_pos
ConsumerInv h claims (Consumer.matched pos r) =
    (pos ≤ h.dequeue_pos) × (h.dequeue_pos ≡ pos → (at h pos).sequence ≡ pos + 1)
ConsumerInv h claims (Consumer.failed r) = Unit
ConsumerInv h claims (Consumer.claimed pos) = Reads h claims pos
ConsumerInv h claims (Consumer.keyed pos k) = Reads h claims pos × (k ≡ (at h pos).pair.key)
ConsumerInv h claims (Consumer.copied pos x) = Reads h claims pos × (x ≡ (at h pos).pair)
ConsumerInv h claims Consumer.released = Unit

-- The position that a thread owns.
unfoldable pub writer : Producer → Option ℕ
writer (Producer.claimed x pos) = some pos
writer (Producer.keyed x pos) = some pos
writer (Producer.filled x pos) = some pos
writer _ = none

-- The position that a producer claimed and has not published yet, with its pair.
unfoldable pub filling : Producer → Option (ℕ × Kv)
filling (Producer.claimed x pos) = some (pos, x)
filling (Producer.keyed x pos) = some (pos, x)
filling (Producer.filled x pos) = some (pos, x)
filling _ = none

unfoldable pub reader : Consumer → Option ℕ
reader (Consumer.claimed pos) = some pos
reader (Consumer.keyed pos k) = some pos
reader (Consumer.copied pos x) = some pos
reader _ = none

-- The position is none of those taken.
abbrev pub NotIn : ℕ → List (ℕ × Kv) → Type 0
NotIn p [] = Unit
NotIn p ((q, x) ∷ l) = (p ≢ q) × NotIn p l

unfoldable pub TakenIn : ℕ → List (ℕ × Kv) → Type 0
TakenIn p [] = ⊥
TakenIn p ((q, x) ∷ l) = (p ≡ q) ⊎ TakenIn p l

-- Every position was taken once, with the pair claimed for it.
unfoldable pub Delivered : List Kv → List (ℕ × Kv) → Type 0
Delivered claims [] = Unit
Delivered claims ((p, x) ∷ l) =
    (p < length claims) × (claim claims p ≡ x) × NotIn p l × Delivered claims l
