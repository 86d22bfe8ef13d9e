-- ===== src/Vyukhov/Threads/Consuming.antt =====
-- A step of `ds_vyukhov_pop` keeps what holds of the queue and of every thread.
use bpf_arena_data_structure.Base.{
  ℕ, suc, ◌+◌, ◌^◌, ◌≤◌, ◌<◌, ◌≡◌, ◌≢◌, ◌⊎◌, ◌↔◌, inl, inr, refl, some, List, [], ◌∷◌, length,
  arith, ap, sym, subst, ◌∙◌, ℕ_discrete,
}
use bpf_arena_data_structure.Api.{Kv, kv, u64, sub_u64}
use bpf_arena_data_structure.Vyukhov.{Node, Head, set_cell}
use bpf_arena_data_structure.Vyukhov.Threads.{
  Producer, Consumer, Consume, load_pos, see_ready, see_empty, see_late, give_up, exchange, lose,
  reload, load_key, load_value, release, count_down, at, put,
}
use bpf_arena_data_structure.Vyukhov.Threads.Inv.{
  claim, Shared, Reads, ProducerInv, ConsumerInv, reader, TakenIn,
}
use bpf_arena_data_structure.Vyukhov.Threads.Place.{at_lap, slot_lap, slot_ne, put_ne, put_self}
use bpf_arena_data_structure.Vyukhov.Threads.Shared.{Shared-dequeue, Shared-put, ready_some}
use bpf_arena_data_structure.Vyukhov.Threads.Others.{
  Producer-dequeue, Consumer-dequeue, Producer-put, Consumer-put,
}
use bpf_arena_data_structure.Vyukhov.Threads.Owners.{
  owned_write, Producer-count, Consumer-count, Shared-count,
}

-- What a consumer's step adds to the pairs taken.
pub data Took (h' : Head) (claims : List Kv) (c c' : Consumer) : List (ℕ × Kv) → Type 0 where
  nothing : Took h' claims c c' []
  one :
      {p : ℕ} {x : Kv}
      → reader c ≡ some p
      → ((r : ℕ) → reader c' ≢ some r)
      → p < h'.dequeue_pos
      → claim claims p ≡ x
      → Took h' claims c c' ((p, x) ∷ [])

-- What a consumer's step leaves true.
pub record Outcome (h : Head) (claims : List Kv) (c : Consumer) (h' : Head) (c' : Consumer)
    (out : List (ℕ × Kv)) : Type 0 where
  pub shared : Shared h' claims
  pub own : ConsumerInv h' claims c'
  pub producers : (p : Producer) → ProducerInv h claims p → ProducerInv h' claims p
  pub consumers :
      (other : Consumer)
      → ((r : ℕ) → reader c ≡ some r → reader other ≢ some r)
      → ConsumerInv h claims other
      → ConsumerInv h' claims other
  pub owner : (r : ℕ) → reader c' ≡ some r → (reader c ≡ some r) ⊎ (h.dequeue_pos ≤ r)
  pub front : h.dequeue_pos ≤ h'.dequeue_pos
  pub took : Took h' claims c c' out
  pub keeps : (r : ℕ) → reader c ≡ some r → (reader c' ≡ some r) ⊎ TakenIn r out
  -- No cell is to be filled that was not before.
  pub unfilled :
      (w : ℕ)
      → h'.dequeue_pos ≤ w
      → w < h'.enqueue_pos
      → (at h' w).sequence ≡ w
      → (w < h.enqueue_pos) × ((at h w).sequence ≡ w)
  pub gains : (r : ℕ) → h.dequeue_pos ≤ r → r < h'.dequeue_pos → reader c' ≡ some r

module _ {h : Head} {claims : List Kv} (s : Shared h claims) where
  -- Only the consumer's own locals change.
  stay :
      (c c' : Consumer)
      → ConsumerInv h claims c'
      → ((r : ℕ) → (reader c' ≡ some r) ↔ (reader c ≡ some r))
      → Outcome h claims c h c' []
  stay c c' own same = record {
    shared = s;
    own = own;
    producers = λ p inv. inv;
    consumers = λ other ne inv. inv;
    owner = λ r e. inl ((same r).0 e);
    front = omega arith;
    took = nothing;
    keeps = λ r e. inl ((same r).1 e);
    unfilled = λ w d less f. (less, f);
    gains = λ r le lt. absurd (omega arith);
  }

  -- The exchange of dequeue_pos.
  claim_first :
      (pos n : ℕ)
      → length claims < 2 ^ 63
      → h.dequeue_pos ≡ pos
      → (at h pos).sequence ≡ pos + 1
      → Outcome h claims
          (Consumer.matched pos n)
          (record h { dequeue_pos = u64 (pos + 1) })
          (Consumer.claimed pos)
          []
  unfolding reader
  claim_first pos n small eq full =
      let counted = s.counted in
      let numbered : (at h h.dequeue_pos).sequence ≡ h.dequeue_pos + 1 =
        ap (λ p. (at h p).sequence) eq ∙ full ∙ ap (λ p. p + 1) (sym eq) in
      let waiting = ready_some s numbered in
      let fits : h.dequeue_pos + 1 < 2 ^ 64 = omega arith in
      let first = s.slots h.dequeue_pos (omega arith) (omega arith) in
      let pair : (at h h.dequeue_pos).pair ≡ claim claims h.dequeue_pos = elim first [
        | inl free ↦ absurd (omega arith)
        | inr (inl (f, lt, same)) ↦ same
        | inr (inr (held, le)) ↦ absurd (omega arith)
      ] in
      subst
        (λ p.
          Outcome h claims (Consumer.matched pos n) (record h { dequeue_pos = u64 (p + 1) })
            (Consumer.claimed pos) [])
        eq
        (record {
          shared = Shared-dequeue s (omega arith) numbered;
          own = (
            omega arith,
            omega arith,
            full,
            ap (λ p. (at h p).pair) (sym eq) ∙ pair ∙ ap (claim claims) eq,
          );
          producers = λ p inv. Producer-dequeue s fits numbered p inv;
          consumers = λ other ne inv. Consumer-dequeue s fits numbered other inv;
          owner = λ r e. inr (ground arith);
          front = omega arith;
          took = nothing;
          keeps = λ r e. absurd (ground arith);
          unfilled = λ w d less f. (less, f);
          gains = λ r le lt. ap some (omega arith);
        })

  -- The cell of a position that was read is that of the next lap.
  put_lap : (pos : ℕ) (m : Node) → put h (pos + h.buffer_mask + 1) m ≡ put h pos m
  put_lap pos m = ap (λ i. record h { cells = set_cell h.cells i m }) (slot_lap h s.pow2 pos)

  give_back :
      (pos : ℕ) (x : Kv)
      → length claims < 2 ^ 63
      → Reads h claims pos
      → x ≡ (at h pos).pair
      → Outcome h claims
          (Consumer.copied pos x)
          (put h pos (record { sequence = u64 (pos + h.buffer_mask + 1); pair = (at h pos).pair }))
          Consumer.released
          ((pos, x) ∷ [])
  unfolding reader TakenIn
  give_back pos x bound (lt, le, e, c) got =
      let two = s.two in
      let small = s.small in
      let counted = s.counted in
      let order = s.order in
      let q : ℕ = pos + h.buffer_mask + 1 in
      let m : Node = record { sequence = u64 (pos + h.buffer_mask + 1); pair = (at h pos).pair } in
      let in_lap : q ≤ h.dequeue_pos + h.buffer_mask = omega arith in
      let number : (at h q).sequence ≡ pos + 1 =
        ap (λ (k : Node). k.sequence) (at_lap h s.pow2 pos) ∙ e in
      let not_full : (at h q).sequence ≢ q + 1 = λ f. omega arith in
      let not_ready : h.enqueue_pos ≡ q → (at h q).sequence ≢ q = λ f g. omega arith in
      subst (λ h'. Outcome h claims (Consumer.copied pos x) h' Consumer.released ((pos, x) ∷ []))
        (put_lap pos m)
        (record {
          shared =
              Shared-put s q m le in_lap (omega arith) (rw (put_self s q m) (inl (omega arith)));
          own = tt;
          producers = λ p inv.
              Producer-put s q m le in_lap not_full not_ready p
                (λ f. let (d, w_lt, n) = owned_write h claims p q f inv in omega arith) inv;
          consumers = λ other ne inv.
              Consumer-put s q m le in_lap not_full not_ready other
                (λ r f g. ne r (ap some (omega arith)) f) inv;
          owner = λ r f. absurd (ground arith);
          front = omega arith;
          took = one refl (λ r f. absurd (ground arith)) lt (sym (got ∙ c));
          keeps = λ r f. inr (inl (ground arith));
          unfilled = λ w d less f. elim (ℕ_discrete w q) [
            | yes wq ↦ let first = s.slots q le in_lap in absurd (omega arith)
            | no ne ↦
                let room = s.room in
                let other : at (put h q m) w ≡ at h w =
                  put_ne h q w m
                    (slot_ne h s.pow2 h.dequeue_pos w q d (omega arith) le in_lap ne) in
                (less, ap (λ (k : Node). k.sequence) (sym other) ∙ f)
          ];
          gains = λ r ge less. absurd (omega arith);
        })

pub Consume-Outcome :
    {h h' : Head} {c c' : Consumer} {out : List (ℕ × Kv)} (claims : List Kv)
    → Consume h c h' c' out
    → Shared h claims
    → length claims < 2 ^ 63
    → ConsumerInv h claims c
    → Outcome h claims c h' c' out
unfolding reader
Consume-Outcome {h} claims load_pos s small inv =
    stay s Consumer.ready (Consumer.loaded h.dequeue_pos 0) (omega arith)
      (λ r. (λ e. absurd (ground arith), λ e. absurd (ground arith)))
Consume-Outcome {h} claims (see_ready {pos} {r} lt e) s small inv =
    let word = s.words pos in
    let order = s.order in
    let counted = s.counted in
    stay s (Consumer.loaded pos r) (Consumer.matched pos r) (inv, λ eq. omega arith)
      (λ r. (λ e. absurd (ground arith), λ e. absurd (ground arith)))
Consume-Outcome claims (see_empty {pos} {r} lt e) s small inv =
    stay s (Consumer.loaded pos r) Consumer.ready tt
      (λ r. (λ e. absurd (ground arith), λ e. absurd (ground arith)))
Consume-Outcome claims (see_late {pos} {r} lt ne e) s small inv =
    stay s (Consumer.loaded pos r) (Consumer.failed (suc r)) tt
      (λ r. (λ e. absurd (ground arith), λ e. absurd (ground arith)))
Consume-Outcome claims (give_up {pos} {r}) s small inv =
    stay s (Consumer.loaded pos r) Consumer.ready tt
      (λ r. (λ e. absurd (ground arith), λ e. absurd (ground arith)))
Consume-Outcome claims (exchange {pos} {r} eq) s small (le, e) = claim_first s pos r small eq (e eq)
Consume-Outcome claims (lose {pos} {r} ne) s small inv =
    stay s (Consumer.matched pos r) (Consumer.failed (suc r)) tt
      (λ r. (λ e. absurd (ground arith), λ e. absurd (ground arith)))
Consume-Outcome {h} claims (reload {r}) s small inv =
    stay s (Consumer.failed r) (Consumer.loaded h.dequeue_pos r) (omega arith)
      (λ r. (λ e. absurd (ground arith), λ e. absurd (ground arith)))
Consume-Outcome {h} claims (load_key {pos}) s small inv =
    stay s (Consumer.claimed pos) (Consumer.keyed pos (at h pos).pair.key) (inv, refl)
      (λ r. (λ e. e, λ e. e))
Consume-Outcome {h} claims (load_value {pos} {k}) s small (inv, e) =
    stay s (Consumer.keyed pos k) (Consumer.copied pos (kv k (at h pos).pair.value))
      (inv, ap (λ i. kv i (at h pos).pair.value) e) (λ r. (λ e. e, λ e. e))
Consume-Outcome claims (release {pos} {x}) s small (inv, e) = give_back s pos x small inv e
Consume-Outcome {h} claims count_down s small inv = record {
  shared = Shared-count (sub_u64 h.count 1) s;
  own = tt;
  producers = λ p i. Producer-count h claims (sub_u64 h.count 1) p i;
  consumers = λ other ne i. Consumer-count h claims (sub_u64 h.count 1) other i;
  owner = λ r e. absurd (ground arith);
  front = omega arith;
  took = nothing;
  keeps = λ r e. absurd (ground arith);
  unfilled = λ w d less f. (less, f);
  gains = λ r le lt. absurd (omega arith);
}
