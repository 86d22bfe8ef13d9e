-- ===== src/Vyukhov/Threads/Deliver.antt =====
-- What every interleaving of producers and consumers of a Vyukhov queue guarantees.
use bpf_arena_data_structure.Base.{
  ℕ, ◌+◌, ◌%◌, ◌^◌, ◌≤◌, ◌<◌, ◌≡◌, ◌≢◌, ◌⊎◌, inl, inr, refl, some, List, [], ◌∷◌, ◌++◌, length,
  length-append, arith, ap, sym, ◌∙◌, dec_lt, mod-lt, mod-eq_of_lt,
}
use bpf_arena_data_structure.Api.{Kv}
use bpf_arena_data_structure.Vyukhov.{node, Head}
use bpf_arena_data_structure.Vyukhov.Inv.{IsValid, used, slot-eq-mod}
use bpf_arena_data_structure.Vyukhov.Threads.{
  Producer, Consumer, Produce, Consume, System, move, produce, consume, start, Reach, here, next,
  at,
}
use bpf_arena_data_structure.Vyukhov.Threads.Inv.{
  claim, ProducerInv, ConsumerInv, writer, filling, reader, TakenIn, Delivered,
}
use bpf_arena_data_structure.Vyukhov.Threads.Place.{claim-append}
use bpf_arena_data_structure.Vyukhov.Threads.Owners.{owned_read, owned_write, owned_filling}
use bpf_arena_data_structure.Vyukhov.Threads.Family.{move_all, move_distinct}
use bpf_arena_data_structure.Vyukhov.Threads.Producing.{Produce-Outcome}
use bpf_arena_data_structure.Vyukhov.Threads.Consuming.{Consume-Outcome}
use bpf_arena_data_structure.Vyukhov.Threads.Account.{
  Inv, Gone, Gone-keep, Gone-took, accounted-consume, unpublished-produce,
}

Produce-Inv :
    (s : System) (i : ℕ) {h : Head} {p : Producer} {out : List Kv}
    → Produce s.head (s.producers i) h p out
    → length (s.claims ++ out) < 2 ^ 63
    → Inv s
    → Inv (record s { head = h; producers = move s.producers i p; claims = s.claims ++ out })
Produce-Inv s i {h} {p} {out} mv small inv =
    let o = Produce-Outcome s.claims mv inv.shared small (inv.producers i) in
    let order = inv.shared.order in
    let counted = inv.shared.counted in
    let front = o.front in
    record {
      shared = o.shared;
      producers = move_all (ProducerInv h (s.claims ++ out)) s.producers i p o.own (λ j ne.
          o.producers (s.producers j) (λ w e. inv.one_writer i j w (λ ij. ne (sym ij)) e)
            (inv.producers j));
      consumers = λ j. o.consumers (s.consumers j) (inv.consumers j);
      one_writer = move_distinct writer s.producers i p inv.one_writer (λ w e j ne f.
          elim (o.owner w e) [
            | inl before ↦ inv.one_writer i j w (λ ij. ne (sym ij)) before f
            | inr ge ↦
                let owns = owned_write s.head s.claims (s.producers j) w f (inv.producers j) in
                omega arith
          ]);
      one_reader = inv.one_reader;
      gone =
          Gone-keep s.head h s.claims (s.claims ++ out) s.consumers s.consumers s.received
            (omega arith) (λ q lt. claim-append s.claims out q (omega arith))
            (λ q k lt free. free k) inv.gone;
      accounted = λ q lt. inv.accounted q (omega arith);
      unpublished = unpublished-produce s i inv o;
    }

Consume-Inv :
    (s : System) (i : ℕ) {h : Head} {c : Consumer} {out : List (ℕ × Kv)}
    → Consume s.head (s.consumers i) h c out
    → length s.claims < 2 ^ 63
    → Inv s
    → Inv (record s { head = h; consumers = move s.consumers i c; received = out ++ s.received })
Consume-Inv s i {h} {c} {out} mv small inv =
    let o = Consume-Outcome s.claims mv inv.shared small (inv.consumers i) in
    let later_owner : (w : ℕ)
        → reader c ≡ some w
        → (reader (s.consumers i) ≡ some w) ⊎ (s.head.dequeue_pos ≤ w) =
      o.owner in
    record {
      shared = o.shared;
      producers = λ j. o.producers (s.producers j) (inv.producers j);
      consumers = move_all (ConsumerInv h s.claims) s.consumers i c o.own (λ j ne.
          o.consumers (s.consumers j) (λ w e. inv.one_reader i j w (λ ij. ne (sym ij)) e)
            (inv.consumers j));
      one_writer = inv.one_writer;
      one_reader = move_distinct reader s.consumers i c inv.one_reader (λ w e j ne f.
          elim (later_owner w e) [
            | inl before ↦ inv.one_reader i j w (λ ij. ne (sym ij)) before f
            | inr ge ↦
                let owns = owned_read s.head s.claims (s.consumers j) w f (inv.consumers j) in
                omega arith
          ]);
      gone = Gone-took s i inv o o.took (
          Gone-keep s.head h s.claims s.claims s.consumers (move s.consumers i c) s.received o.front
            (λ q lt. refl)
            (λ q k lt free.
              move_all (λ a. reader a ≢ some q) s.consumers i c
                (λ e. elim (later_owner q e) [ inl before ↦ free i before | inr ge ↦ omega arith ])
                (λ j ne. free j) k)
            inv.gone);
      accounted = accounted-consume s i inv o;
      unpublished = λ q le lt e.
          let front = o.front in
          let (less, free) = o.unfilled q le lt e in inv.unpublished q (omega arith) less free;
    }

-- The initial state.
start-Inv : {h : Head} → IsValid h → h.enqueue_pos ≡ 0 → h.dequeue_pos ≡ 0 → Inv (start h)
unfolding reader writer used
start-Inv {h} v enq deq =
    let small = v.small in
    let number : (p : ℕ) → p ≤ h.buffer_mask → (at h p).sequence ≡ p = λ p le.
      ap (λ i. (node h.cells i).sequence)
        (slot-eq-mod v p ∙ ap (λ i. i % (h.buffer_mask + 1)) (omega arith))
      ∙ v.free_cells p (omega arith) le
      ∙ omega arith in
    let word : (p : ℕ) → (at h p).sequence < 2 ^ 64 = λ p.
      let q_lt : p % (h.buffer_mask + 1) < h.buffer_mask + 1 = mod-lt p (omega arith) in
      let same : (at h p).sequence ≡ p % (h.buffer_mask + 1) =
        ap (λ i. (node h.cells i).sequence)
          (slot-eq-mod v p ∙ sym (slot-eq-mod v (p % (h.buffer_mask + 1)) ∙ mod-eq_of_lt q_lt))
        ∙ number (p % (h.buffer_mask + 1)) (omega arith) in
      omega arith in
    record {
      shared = record {
        pow2 = v.pow2;
        two = v.two;
        small = v.small;
        storage = v.storage;
        order = omega arith;
        room = omega arith;
        counted = sym enq;
        words = λ p. word p;
        slots = λ p dp pd. inl (number p (omega arith));
      };
      producers = λ i. tt;
      consumers = λ i. tt;
      one_writer = λ i j w ne e. absurd (ground arith);
      one_reader = λ i j r ne e. absurd (ground arith);
      gone = tt;
      accounted = λ p lt. absurd (omega arith);
      unpublished = λ p le lt e. absurd (omega arith);
    }

Reach-Inv :
    {h : Head} {s : System}
    → IsValid h
    → h.enqueue_pos ≡ 0
    → h.dequeue_pos ≡ 0
    → Reach h s
    → length s.claims < 2 ^ 63
    → Inv s
Reach-Inv v enq deq here small = start-Inv v enq deq
Reach-Inv v enq deq (next {s} r (produce i {out} mv)) small =
    Produce-Inv s i mv small (Reach-Inv v enq deq r (omega (arith, length-append s.claims out)))
Reach-Inv v enq deq (next {s} r (consume i mv)) small =
    Consume-Inv s i mv small (Reach-Inv v enq deq r small)

Gone-Delivered :
    (h : Head) (claims : List Kv) (cs : ℕ → Consumer) (l : List (ℕ × Kv))
    → h.dequeue_pos ≤ length claims
    → Gone h claims cs l
    → Delivered claims l
unfolding Delivered
Gone-Delivered h claims cs [] le g = tt
Gone-Delivered h claims cs ((p, x) ∷ l) le (lt, e, free, fresh, g) =
    (omega arith, e, fresh, Gone-Delivered h claims cs l le g)

-- From a valid queue as `ds_vyukhov_init` leaves it, under every interleaving of any number of
-- producers and consumers, while fewer than 2^63 insertions claimed a position: each position is taken
-- at most once, and what is taken for it is the pair of the insertion that claimed it.
pub vyukhov_delivers_once :
    {h : Head} {s : System}
    → IsValid h
    → h.enqueue_pos ≡ 0
    → h.dequeue_pos ≡ 0
    → Reach h s
    → length s.claims < 2 ^ 63
    → Delivered s.claims s.received
vyukhov_delivers_once {s} v enq deq r small =
    let inv = Reach-Inv v enq deq r small in
    let order = inv.shared.order in
    let counted = inv.shared.counted in
    Gone-Delivered s.head s.claims s.consumers s.received (omega arith) inv.gone

-- In the same runs no pair is lost: each claimed position was taken, or is with a consumer that claimed
-- it, or its cell carries its pair and the number for consumers, or some producer that claimed it for this
-- very pair has not published it yet, and the cell still carries the number for producers.
pub vyukhov_no_loss :
    {h : Head} {s : System} (p : ℕ)
    → IsValid h
    → h.enqueue_pos ≡ 0
    → h.dequeue_pos ≡ 0
    → Reach h s
    → length s.claims < 2 ^ 63
    → p < length s.claims
    → TakenIn p s.received
      ⊎ ((i : ℕ) × (reader (s.consumers i) ≡ some p))
      ⊎ (((at s.head p).sequence ≡ p + 1) × ((at s.head p).pair ≡ claim s.claims p))
      ⊎ (((at s.head p).sequence ≡ p)
          × ((i : ℕ) × (filling (s.producers i) ≡ some (p, claim s.claims p))))
vyukhov_no_loss {s} p v enq deq r small lt =
    let inv = Reach-Inv v enq deq r small in
    let counted = inv.shared.counted in
    let room = inv.shared.room in
    elim (dec_lt p s.head.dequeue_pos) [
      | yes before ↦ elim (inv.accounted p before) [
        | inl taken ↦ inl taken
        | inr held ↦ inr (inl held)
      ]
      | no ge ↦ elim (inv.shared.slots p (omega arith) (omega arith)) [
        | inl free ↦
            let (i, owns) = inv.unpublished p (omega arith) (omega arith) free in
            inr (
              inr (
                inr (
                  free,
                  (i, owned_filling s.head s.claims (s.producers i) p owns (inv.producers i)),
                )))
        | inr (inl (full, less, pair)) ↦ inr (inr (inl (full, pair)))
        | inr (inr (held, le)) ↦ absurd (omega arith)
      ]
    ]
