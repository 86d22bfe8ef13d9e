-- ===== src/Vyukhov/Threads/Shared.antt =====
-- The three changes of a Vyukhov queue that threads make keep what holds of it: a producer moves
-- enqueue_pos, a consumer moves dequeue_pos, and a cell is written.
use bpf_arena_data_structure.Base.{
  ℕ, ◌+◌, ◌^◌, ◌≤◌, ◌<◌, ◌≡◌, ◌⊎◌, inl, inr, List, [], ◌∷◌, ◌++◌, length-append, length-set, arith,
  ap, sym, ◌∙◌, subst, dec_le, ℕ_discrete,
}
use bpf_arena_data_structure.Api.{Kv, u64}
use bpf_arena_data_structure.Vyukhov.{node, Node, Head, slot}
use bpf_arena_data_structure.Vyukhov.Threads.{at, put}
use bpf_arena_data_structure.Vyukhov.Threads.Inv.{claim, Slot, Shared}
use bpf_arena_data_structure.Vyukhov.Threads.Place.{at_lap, slot_ne, put_self, put_ne, claim-append}

module _ {h : Head} {claims : List Kv} (s : Shared h claims) where
  -- A cell that carries the next position to fill is not one of a full lap.
  pub ready_room :
      (at h h.enqueue_pos).sequence ≡ h.enqueue_pos → h.enqueue_pos ≤ h.dequeue_pos + h.buffer_mask
  ready_room e = elim (dec_le h.enqueue_pos (h.dequeue_pos + h.buffer_mask)) [
    | yes le ↦ le
    | no gt ↦
        let two = s.two in
        let room = s.room in
        let same : (at h h.dequeue_pos).sequence ≡ h.enqueue_pos =
          ap (λ (n : Node). n.sequence)
            (sym (at_lap h s.pow2 h.dequeue_pos) ∙ ap (at h) (omega arith))
          ∙ e in
        let first = s.slots h.dequeue_pos (omega arith) (omega arith) in absurd (omega arith)
  ]

  -- A cell that carries the successor of the next position to empty holds a pair.
  pub ready_some : (at h h.dequeue_pos).sequence ≡ h.dequeue_pos + 1 → h.dequeue_pos < h.enqueue_pos
  ready_some e =
      let two = s.two in
      let first = s.slots h.dequeue_pos (omega arith) (omega arith) in omega arith

  -- A cell that is still with a consumer is not the next one to fill.
  later :
      (at h h.enqueue_pos).sequence ≡ h.enqueue_pos
      → (p : ℕ) → ((at h p).sequence + h.buffer_mask ≡ p) × (h.enqueue_pos ≤ p)
      → h.enqueue_pos < p
  later e p (held, le) = elim (ℕ_discrete p h.enqueue_pos) [
    | yes at_end ↦
        let two = s.two in
        let same : (at h p).sequence ≡ h.enqueue_pos = ap (λ q. (at h q).sequence) at_end ∙ e in
        absurd (omega arith)
    | no ne ↦ omega arith
  ]

  pub Shared-enqueue :
      (x : Kv)
      → h.enqueue_pos + 1 < 2 ^ 63
      → (at h h.enqueue_pos).sequence ≡ h.enqueue_pos
      → Shared (record h { enqueue_pos = u64 (h.enqueue_pos + 1) }) (claims ++ x ∷ [])
  Shared-enqueue x small e =
      let two = s.two in
      let counted = s.counted in
      let order = s.order in
      let room = ready_room e in
      record {
        pow2 = s.pow2;
        two = s.two;
        small = s.small;
        storage = s.storage;
        order = omega arith;
        room = omega arith;
        counted = omega (arith, length-append claims (x ∷ []));
        words = s.words;
        slots = λ p dp pd.
            let n : u64 (h.enqueue_pos + 1) ≡ h.enqueue_pos + 1 = omega arith in
            elim (s.slots p dp pd) [
              | inl free ↦ inl free
              | inr (inl (full, lt, pair)) ↦ inr (
                  inl
                    (full, omega arith, pair ∙ sym (claim-append claims (x ∷ []) p (omega arith))))
              | inr (inr (held, le)) ↦ inr (inr (held, omega (arith, later e p (held, le))))
            ];
      }

  pub Shared-dequeue :
      h.enqueue_pos < 2 ^ 63
      → (at h h.dequeue_pos).sequence ≡ h.dequeue_pos + 1
      → Shared (record h { dequeue_pos = u64 (h.dequeue_pos + 1) }) claims
  Shared-dequeue small e =
      let two = s.two in
      let order = ready_some e in
      let room = s.room in
      record {
        pow2 = s.pow2;
        two = s.two;
        small = s.small;
        storage = s.storage;
        order = omega arith;
        room = omega arith;
        counted = s.counted;
        words = s.words;
        slots = λ p dp pd. elim (dec_le p (h.dequeue_pos + h.buffer_mask)) [
          | yes le ↦ s.slots p (omega arith) le
          | no gt ↦
              let same : (at h p).sequence ≡ h.dequeue_pos + 1 =
                ap (λ q. (at h q).sequence) (omega arith)
                ∙ ap (λ (n : Node). n.sequence) (at_lap h s.pow2 h.dequeue_pos)
                ∙ e in
              inr (inr (omega arith, omega arith))
        ];
      }

  -- The cell of position `q` is written.
  pub Shared-put :
      (q : ℕ) (n : Node)
      → h.dequeue_pos ≤ q
      → q ≤ h.dequeue_pos + h.buffer_mask
      → n.sequence < 2 ^ 64
      → Slot (put h q n) claims q
      → Shared (put h q n) claims
  Shared-put q n dq qd word new = record {
    pow2 = s.pow2;
    two = s.two;
    small = s.small;
    storage = let stored = s.storage in omega (arith, length-set h.cells (slot h q) n);
    order = s.order;
    room = s.room;
    counted = s.counted;
    words = λ p. elim (ℕ_discrete (slot h p) (slot h q)) [
      | yes e ↦
          subst (λ (m : Node). m.sequence < 2 ^ 64)
            (sym (ap (node (put h q n).cells) e ∙ put_self s q n)) word
      | no ne ↦ subst (λ (m : Node). m.sequence < 2 ^ 64) (sym (put_ne h q p n ne)) (s.words p)
    ];
    slots = λ p dp pd. elim (ℕ_discrete p q) [
      | yes e ↦ subst (Slot (put h q n) claims) (sym e) new
      | no ne ↦
          subst
            (λ m.
              (m.sequence ≡ p)
              ⊎ ((m.sequence ≡ p + 1) × (p < h.enqueue_pos) × (m.pair ≡ claim claims p))
              ⊎ ((m.sequence + h.buffer_mask ≡ p) × (h.enqueue_pos ≤ p)))
            (sym (put_ne h q p n (slot_ne h s.pow2 h.dequeue_pos p q dp pd dq qd ne)))
            (s.slots p dp pd)
    ];
  }
