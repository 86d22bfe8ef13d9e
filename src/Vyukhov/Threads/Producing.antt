-- ===== src/Vyukhov/Threads/Producing.antt =====
-- A step of `ds_vyukhov_insert` keeps what holds of the queue and of every thread.
use bpf_arena_data_structure.Base.{
  ℕ, suc, ◌+◌, ◌^◌, ◌≤◌, ◌<◌, ◌≡◌, ◌≢◌, ◌⊎◌, inl, inr, refl, some, List, [], ◌∷◌, ◌++◌, length,
  length-append, append-nil, arith, ap, sym, subst, ◌∙◌, ℕ_discrete,
}
use bpf_arena_data_structure.Api.{Kv, kv, u64}
use bpf_arena_data_structure.Vyukhov.{Node, Head}
use bpf_arena_data_structure.Vyukhov.Threads.{
  Producer, Consumer, Produce, load_pos, see_ready, see_full, see_late, give_up, exchange, lose,
  reload, store_key, store_value, publish, count_up, at, put,
}
use bpf_arena_data_structure.Vyukhov.Threads.Inv.{
  claim, Slot, Shared, Writes, ProducerInv, ConsumerInv, writer,
}
use bpf_arena_data_structure.Vyukhov.Threads.Place.{at_lap, slot_ne, put_ne, put_self, claim_last}
use bpf_arena_data_structure.Vyukhov.Threads.Shared.{Shared-enqueue, Shared-put}
use bpf_arena_data_structure.Vyukhov.Threads.Others.{
  Producer-enqueue, Consumer-enqueue, Producer-put, Consumer-put,
}
use bpf_arena_data_structure.Vyukhov.Threads.Owners.{
  owned_read, Producer-count, Consumer-count, Shared-count,
}

-- What a producer's step leaves true.
pub record Outcome (h : Head) (claims : List Kv) (p : Producer) (h' : Head) (claims' : List Kv)
    (p' : Producer) : Type 0 where
  pub shared : Shared h' claims'
  pub own : ProducerInv h' claims' p'
  pub producers :
      (other : Producer)
      → ((w : ℕ) → writer p ≡ some w → writer other ≢ some w)
      → ProducerInv h claims other
      → ProducerInv h' claims' other
  pub consumers : (c : Consumer) → ConsumerInv h claims c → ConsumerInv h' claims' c
  pub owner : (w : ℕ) → writer p' ≡ some w → (writer p ≡ some w) ⊎ (h.enqueue_pos ≤ w)
  pub front : h'.dequeue_pos ≡ h.dequeue_pos
  -- A cell that is to be filled is with this producer now, or it was with another one before.
  pub filler :
      (w : ℕ)
      → h'.dequeue_pos ≤ w
      → w < h'.enqueue_pos
      → (at h' w).sequence ≡ w
      → (writer p' ≡ some w) ⊎ ((writer p ≢ some w) × (w < h.enqueue_pos) × ((at h w).sequence ≡ w))

module _ {h : Head} {claims : List Kv} (s : Shared h claims) where
  -- Only the producer's own locals change.
  stay :
      (p p' : Producer)
      → ProducerInv h claims p'
      → ((w : ℕ) → writer p ≢ some w)
      → ((w : ℕ) → writer p' ≢ some w)
      → Outcome h claims p h (claims ++ []) p'
  stay p p' own owned free =
      subst (λ l. Outcome h claims p h l p') (sym (append-nil claims))
        (record {
          shared = s;
          own = own;
          producers = λ other ne inv. inv;
          consumers = λ c inv. inv;
          owner = λ w e. absurd (free w e);
          front = refl;
          filler = λ w d lt e. inr (owned w, lt, e);
        })

  -- The producer writes the cell that it owns.
  write :
      (p p' : Producer) (pos : ℕ) (x : Kv) (n : Node)
      → Writes h claims pos x
      → writer p ≡ some pos
      → n.sequence < 2 ^ 64
      → Slot (put h pos n) claims pos
      → ProducerInv (put h pos n) claims p'
      → ((w : ℕ) → writer p' ≡ some w → writer p ≡ some w)
      → (n.sequence ≡ pos → writer p' ≡ some pos)
      → Outcome h claims p (put h pos n) (claims ++ []) p'
  write p p' pos x n (d, lt, e, c) owned word slot own same still =
      let room = s.room in
      let two = s.two in
      let in_lap : pos ≤ h.dequeue_pos + h.buffer_mask = omega arith in
      let not_full : (at h pos).sequence ≢ pos + 1 = λ f. omega arith in
      let not_ready : h.enqueue_pos ≡ pos → (at h pos).sequence ≢ pos = λ f g. omega arith in
      subst (λ l. Outcome h claims p (put h pos n) l p') (sym (append-nil claims))
        (record {
          shared = Shared-put s pos n d in_lap word slot;
          own = own;
          producers = λ other ne inv.
              Producer-put s pos n d in_lap not_full not_ready other (ne pos owned) inv;
          consumers = λ other inv.
              Consumer-put s pos n d in_lap not_full not_ready other
                (λ r f g.
                  let (rd, le, num, pair) = owned_read h claims other r f inv in
                  let again : (at h pos).sequence ≡ r + 1 =
                    ap (λ (m : Node). m.sequence) (ap (at h) (sym g) ∙ at_lap h s.pow2 r) ∙ num in
                  omega arith)
                inv;
          owner = λ w f. inl (same w f);
          front = refl;
          filler = λ w dw less f. elim (ℕ_discrete w pos) [
            | yes wp ↦
                let written : (at (put h pos n) pos).sequence ≡ pos =
                  subst (λ q. (at (put h pos n) q).sequence ≡ q) wp f in
                let number : n.sequence ≡ pos =
                  ap (λ (m : Node). m.sequence) (sym (put_self s pos n)) ∙ written in
                inl (still number ∙ ap some (sym wp))
            | no ne ↦
                let other : at (put h pos n) w ≡ at h w =
                  put_ne h pos w n
                    (slot_ne h s.pow2 h.dequeue_pos w pos dw (omega arith) d in_lap ne) in
                inr (
                  (λ g. ne (ground (arith, sym g ∙ owned))),
                  less,
                  ap (λ (m : Node). m.sequence) (sym other) ∙ f,
                )
          ];
        })

-- The exchange of enqueue_pos.
claim_next :
    {h : Head} {claims : List Kv} (s : Shared h claims) (x : Kv) (pos r : ℕ)
    → length (claims ++ x ∷ []) < 2 ^ 63
    → h.enqueue_pos ≡ pos
    → (at h pos).sequence ≡ pos
    → Outcome h claims
        (Producer.matched x pos r)
        (record h { enqueue_pos = u64 (pos + 1) })
        (claims ++ x ∷ [])
        (Producer.claimed x pos)
unfolding writer
claim_next {h} {claims} s x pos r small eq ready =
    let order = s.order in
    let counted = s.counted in
    let fits : h.enqueue_pos + 1 < 2 ^ 63 = omega (arith, length-append claims (x ∷ [])) in
    let numbered : (at h h.enqueue_pos).sequence ≡ h.enqueue_pos =
      ap (λ p. (at h p).sequence) eq ∙ ready ∙ sym eq in
    subst
      (λ p.
        Outcome h claims (Producer.matched x pos r) (record h { enqueue_pos = u64 (p + 1) })
          (claims ++ x ∷ []) (Producer.claimed x pos))
      eq
      (record {
        shared = Shared-enqueue s x fits numbered;
        own = (
          omega arith,
          omega arith,
          ready,
          ap (claim (claims ++ x ∷ [])) (sym (counted ∙ eq)) ∙ claim_last claims x,
        );
        producers = λ other ne inv. Producer-enqueue s (x ∷ []) fits other inv;
        consumers = λ c inv. Consumer-enqueue s (x ∷ []) fits c inv;
        owner = λ w e. inr (ground arith);
        front = refl;
        filler = λ w d lt f. elim (ℕ_discrete w h.enqueue_pos) [
          | yes last ↦ inl (ap some (sym (last ∙ eq)))
          | no ne ↦ inr ((λ g. absurd (ground arith)), omega arith, f)
        ];
      })

pub Produce-Outcome :
    {h h' : Head} {p p' : Producer} {out : List Kv} (claims : List Kv)
    → Produce h p h' p' out
    → Shared h claims
    → length (claims ++ out) < 2 ^ 63
    → ProducerInv h claims p
    → Outcome h claims p h' (claims ++ out) p'
unfolding writer
Produce-Outcome claims (load_pos x) s small inv =
    stay s _ _ (omega arith) (λ w e. ground arith) (λ w e. ground arith)
Produce-Outcome {h} claims (see_ready {x} {pos} {r} lt e) s small inv =
    let word = s.words pos in
    let counted = s.counted in
    let n : length claims < 2 ^ 63 = omega (arith, length-append claims []) in
    stay s _ (Producer.matched x pos r) (inv, λ eq. omega arith) (λ w e. ground arith)
      (λ w e. ground arith)
Produce-Outcome claims (see_full lt e) s small inv =
    stay s _ Producer.ready tt (λ w e. ground arith) (λ w e. ground arith)
Produce-Outcome claims (see_late {x} {pos} {r} lt ne e) s small inv =
    stay s _ (Producer.failed x (suc r)) tt (λ w e. ground arith) (λ w e. ground arith)
Produce-Outcome claims give_up s small inv =
    stay s _ Producer.ready tt (λ w e. ground arith) (λ w e. ground arith)
Produce-Outcome claims (exchange {x} {pos} {r} eq) s small (le, e) =
    claim_next s x pos r small eq (e eq)
Produce-Outcome claims (lose {x} {pos} {r} ne) s small inv =
    stay s _ (Producer.failed x (suc r)) tt (λ w e. ground arith) (λ w e. ground arith)
Produce-Outcome {h} claims (reload {x} {r}) s small inv =
    stay s _ (Producer.loaded x h.enqueue_pos r) (omega arith) (λ w e. ground arith)
      (λ w e. ground arith)
Produce-Outcome {h} claims (store_key {x} {pos}) s small inv =
    let (d, lt, e, c) = inv in
    let n : Node = record {
      sequence = (at h pos).sequence;
      pair = kv x.key (at h pos).pair.value;
    } in
    write s (Producer.claimed x pos) (Producer.keyed x pos) pos x n inv refl (s.words pos)
      (rw (put_self s pos n) (inl e)) (rw (put_self s pos n) (inv, refl)) (λ w f. f) (λ f. refl)
Produce-Outcome {h} claims (store_value {x} {pos}) s small inv =
    let ((d, lt, e, c), k) = inv in
    let n : Node = record {
      sequence = (at h pos).sequence;
      pair = kv (at h pos).pair.key x.value;
    } in
    write s (Producer.keyed x pos) (Producer.filled x pos) pos x n inv.0 refl (s.words pos)
      (rw (put_self s pos n) (inl e)) (rw (put_self s pos n) (inv.0, ap (λ i. kv i x.value) k))
      (λ w f. f) (λ f. refl)
Produce-Outcome {h} claims (publish {x} {pos}) s small ((d, lt, e, c), k) =
    let counted = s.counted in
    let n : Node = record { sequence = u64 (pos + 1); pair = (at h pos).pair } in
    let fits : u64 (pos + 1) ≡ pos + 1 = omega (arith, length-append claims []) in
    write s (Producer.filled x pos) Producer.published pos x n (d, lt, e, c) refl (omega arith)
      (rw (put_self s pos n) (inr (inl (fits, lt, k ∙ sym c)))) tt (λ w f. absurd (ground arith))
      (λ f. absurd (omega arith))
Produce-Outcome {h} claims count_up s small inv =
    subst
      (λ l.
        Outcome h claims Producer.published (record h { count = u64 (h.count + 1) }) l
          Producer.ready)
      (sym (append-nil claims))
      (record {
        shared = Shared-count (u64 (h.count + 1)) s;
        own = tt;
        producers = λ other ne i. Producer-count h claims (u64 (h.count + 1)) other i;
        consumers = λ c i. Consumer-count h claims (u64 (h.count + 1)) c i;
        owner = λ w e. absurd (ground arith);
        front = refl;
        filler = λ w d lt f. inr ((λ g. absurd (ground arith)), lt, f);
      })
