-- ===== src/Vyukhov/Threads/Others.antt =====
-- What the local variables of a thread say stays true when another thread changes the queue.
use bpf_arena_data_structure.Base.{
  ℕ, ◌+◌, ◌^◌, ◌≤◌, ◌<◌, ◌≡◌, ◌≢◌, refl, some, List, ◌++◌, arith, ap, sym, ◌∙◌, ℕ_discrete,
}
use bpf_arena_data_structure.Api.{Kv, u64}
use bpf_arena_data_structure.Vyukhov.{Node, Head}
use bpf_arena_data_structure.Vyukhov.Threads.{Producer, Consumer, at, put}
use bpf_arena_data_structure.Vyukhov.Threads.Inv.{
  claim, Shared, Writes, Reads, ProducerInv, ConsumerInv, writer, reader,
}
use bpf_arena_data_structure.Vyukhov.Threads.Place.{slot_lap, at_lap, slot_ne, put_ne, claim-append}
use bpf_arena_data_structure.Vyukhov.Threads.Shared.{ready_room}

module _ {h : Head} {claims : List Kv} (s : Shared h claims) where
  -- enqueue_pos moves on.
  module _ (new : List Kv) (small : h.enqueue_pos + 1 < 2 ^ 63) where
    abbrev longer : Head
    longer = record h { enqueue_pos = u64 (h.enqueue_pos + 1) }

    earlier : (p : ℕ) → p < h.enqueue_pos → claim (claims ++ new) p ≡ claim claims p
    earlier p lt = let n = s.counted in claim-append claims new p (omega arith)

    pub Producer-enqueue :
        (p : Producer) → ProducerInv h claims p → ProducerInv longer (claims ++ new) p
    Producer-enqueue Producer.ready inv = tt
    Producer-enqueue (Producer.loaded x pos r) inv = omega arith
    Producer-enqueue (Producer.matched x pos r) (le, e) = (omega arith, λ eq. absurd (omega arith))
    Producer-enqueue (Producer.failed x r) inv = tt
    Producer-enqueue (Producer.claimed x pos) (d, lt, e, c) =
        (d, omega arith, e, earlier pos lt ∙ c)
    Producer-enqueue (Producer.keyed x pos) ((d, lt, e, c), k) =
        ((d, omega arith, e, earlier pos lt ∙ c), k)
    Producer-enqueue (Producer.filled x pos) ((d, lt, e, c), k) =
        ((d, omega arith, e, earlier pos lt ∙ c), k)
    Producer-enqueue Producer.published inv = tt

    Reads-enqueue : (r : ℕ) → Reads h claims r → Reads longer (claims ++ new) r
    Reads-enqueue r (lt, le, e, c) =
        let order = s.order in (lt, le, e, c ∙ sym (earlier r (omega arith)))

    pub Consumer-enqueue :
        (c : Consumer) → ConsumerInv h claims c → ConsumerInv longer (claims ++ new) c
    Consumer-enqueue Consumer.ready inv = tt
    Consumer-enqueue (Consumer.loaded pos r) inv = inv
    Consumer-enqueue (Consumer.matched pos r) inv = inv
    Consumer-enqueue (Consumer.failed r) inv = tt
    Consumer-enqueue (Consumer.claimed pos) inv = Reads-enqueue pos inv
    Consumer-enqueue (Consumer.keyed pos k) (inv, e) = (Reads-enqueue pos inv, e)
    Consumer-enqueue (Consumer.copied pos x) (inv, e) = (Reads-enqueue pos inv, e)
    Consumer-enqueue Consumer.released inv = tt

  -- dequeue_pos moves on.
  module _ (small : h.dequeue_pos + 1 < 2 ^ 64)
      (first : (at h h.dequeue_pos).sequence ≡ h.dequeue_pos + 1) where
    abbrev shorter : Head
    shorter = record h { dequeue_pos = u64 (h.dequeue_pos + 1) }

    Writes-dequeue : (w : ℕ) (x : Kv) → Writes h claims w x → Writes shorter claims w x
    Writes-dequeue w x (d, lt, e, c) = elim (ℕ_discrete h.dequeue_pos w) [
      | yes eq ↦
          let same : (at h h.dequeue_pos).sequence ≡ w = ap (λ q. (at h q).sequence) eq ∙ e in
          absurd (omega arith)
      | no ne ↦ (omega arith, lt, e, c)
    ]

    pub Producer-dequeue : (p : Producer) → ProducerInv h claims p → ProducerInv shorter claims p
    Producer-dequeue Producer.ready inv = tt
    Producer-dequeue (Producer.loaded x pos r) inv = inv
    Producer-dequeue (Producer.matched x pos r) inv = inv
    Producer-dequeue (Producer.failed x r) inv = tt
    Producer-dequeue (Producer.claimed x pos) inv = Writes-dequeue pos x inv
    Producer-dequeue (Producer.keyed x pos) (inv, k) = (Writes-dequeue pos x inv, k)
    Producer-dequeue (Producer.filled x pos) (inv, k) = (Writes-dequeue pos x inv, k)
    Producer-dequeue Producer.published inv = tt

    Reads-dequeue : (r : ℕ) → Reads h claims r → Reads shorter claims r
    Reads-dequeue r (lt, le, e, c) = elim (ℕ_discrete h.dequeue_pos (r + h.buffer_mask + 1)) [
      | yes eq ↦
          let two = s.two in
          let same : (at h h.dequeue_pos).sequence ≡ r + 1 =
            ap (λ (n : Node). n.sequence) (ap (at h) eq ∙ at_lap h s.pow2 r) ∙ e in
          absurd (omega arith)
      | no ne ↦ (omega arith, omega arith, e, c)
    ]

    pub Consumer-dequeue : (c : Consumer) → ConsumerInv h claims c → ConsumerInv shorter claims c
    Consumer-dequeue Consumer.ready inv = tt
    Consumer-dequeue (Consumer.loaded pos r) inv = omega arith
    Consumer-dequeue (Consumer.matched pos r) (le, e) = (omega arith, λ eq. absurd (omega arith))
    Consumer-dequeue (Consumer.failed r) inv = tt
    Consumer-dequeue (Consumer.claimed pos) inv = Reads-dequeue pos inv
    Consumer-dequeue (Consumer.keyed pos k) (inv, e) = (Reads-dequeue pos inv, e)
    Consumer-dequeue (Consumer.copied pos x) (inv, e) = (Reads-dequeue pos inv, e)
    Consumer-dequeue Consumer.released inv = tt

  -- The cell of a position `q` of this lap is written, by its owner.
  module _ (q : ℕ) (n : Node) (dq : h.dequeue_pos ≤ q) (qd : q ≤ h.dequeue_pos + h.buffer_mask)
      (not_full : (at h q).sequence ≢ q + 1)
      (not_ready : h.enqueue_pos ≡ q → (at h q).sequence ≢ q) where
    kept :
        (p : ℕ)
        → h.dequeue_pos ≤ p
        → p ≤ h.dequeue_pos + h.buffer_mask
        → p ≢ q
        → at (put h q n) p ≡ at h p
    kept p dp pd ne = put_ne h q p n (slot_ne h s.pow2 h.dequeue_pos p q dp pd dq qd ne)

    kept_writer : (x : Kv) (w : ℕ) → Writes h claims w x → w ≢ q → at (put h q n) w ≡ at h w
    kept_writer x w (d, lt, e, c) ne = let room = s.room in kept w d (omega arith) ne

    kept_reader : (r : ℕ) → Reads h claims r → r + h.buffer_mask + 1 ≢ q → at (put h q n) r ≡ at h r
    kept_reader r (lt, le, e, c) ne = put_ne h q r n (λ eq.
        slot_ne h s.pow2 h.dequeue_pos (r + h.buffer_mask + 1) q (omega arith) (omega arith) dq qd
          ne (slot_lap h s.pow2 r ∙ eq))

    kept_ready :
        (pos : ℕ)
        → (h.enqueue_pos ≡ pos → (at h pos).sequence ≡ pos)
        → h.enqueue_pos ≡ pos
        → (at (put h q n) pos).sequence ≡ pos
    kept_ready pos e eq =
        let room = ready_room s (ap (λ p. (at h p).sequence) eq ∙ e eq ∙ sym eq) in
        let order = s.order in
        ap (λ (m : Node). m.sequence)
          (kept pos (omega arith) (omega arith)
            (λ pq. not_ready (eq ∙ pq) (ap (λ p. (at h p).sequence) (sym pq) ∙ e eq ∙ pq)))
        ∙ e eq

    kept_full :
        (pos : ℕ)
        → (h.dequeue_pos ≡ pos → (at h pos).sequence ≡ pos + 1)
        → h.dequeue_pos ≡ pos
        → (at (put h q n) pos).sequence ≡ pos + 1
    kept_full pos e eq =
        ap (λ (m : Node). m.sequence)
          (kept pos (omega arith) (omega arith)
            (λ pq. not_full (ap (λ p. (at h p).sequence) (sym pq) ∙ e eq ∙ ap (λ p. p + 1) pq)))
        ∙ e eq

    pub Producer-put :
        (p : Producer)
        → writer p ≢ some q
        → ProducerInv h claims p
        → ProducerInv (put h q n) claims p
    unfolding writer
    Producer-put Producer.ready ne inv = tt
    Producer-put (Producer.loaded x pos r) ne inv = inv
    Producer-put (Producer.matched x pos r) ne (le, e) = (le, kept_ready pos e)
    Producer-put (Producer.failed x r) ne inv = tt
    Producer-put (Producer.claimed x pos) ne inv =
        rw (kept_writer x pos inv (λ e. ne (ap some e))) inv
    Producer-put (Producer.keyed x pos) ne inv =
        rw (kept_writer x pos inv.0 (λ e. ne (ap some e))) inv
    Producer-put (Producer.filled x pos) ne inv =
        rw (kept_writer x pos inv.0 (λ e. ne (ap some e))) inv
    Producer-put Producer.published ne inv = tt

    pub Consumer-put :
        (c : Consumer)
        → ((r : ℕ) → reader c ≡ some r → r + h.buffer_mask + 1 ≢ q)
        → ConsumerInv h claims c
        → ConsumerInv (put h q n) claims c
    unfolding reader
    Consumer-put Consumer.ready ne inv = tt
    Consumer-put (Consumer.loaded pos r) ne inv = inv
    Consumer-put (Consumer.matched pos r) ne (le, e) = (le, kept_full pos e)
    Consumer-put (Consumer.failed r) ne inv = tt
    Consumer-put (Consumer.claimed pos) ne inv = rw (kept_reader pos inv (ne pos refl)) inv
    Consumer-put (Consumer.keyed pos k) ne inv = rw (kept_reader pos inv.0 (ne pos refl)) inv
    Consumer-put (Consumer.copied pos x) ne inv = rw (kept_reader pos inv.0 (ne pos refl)) inv
    Consumer-put Consumer.released ne inv = tt
