-- ===== src/Relay/Lanes.antt =====
-- The pairs that went through a lane.
use bpf_arena_data_structure.Base.{
  ◌≡◌, refl, inl, inr, true, false, List, [], ◌∷◌, ◌++◌, append_assoc, ap, sym, ◌∙◌, if◌then◌else◌,
}
use bpf_arena_data_structure.Api.{Kv}
use bpf_arena_data_structure.Api.Queue.{Queue}
use bpf_arena_data_structure.Api.Lane.{Lane}
use bpf_arena_data_structure.Metrics.{succeeded}
use bpf_arena_data_structure.Relay.Log.{note, failed_of_ne, true_ne_false}

module _ (l : Lane) where
  open l use {State, IsValid, contents, present}

  -- What a lane holds, if it was initialised.
  unfoldable pub held : State → Queue
  held s = if present s then contents s else []

  pub held_present : (s : State) → present s ≡ true → held s ≡ contents s
  unfolding held
  held_present s p = rw p refl

  pub held_absent : (s : State) → present s ≡ false → held s ≡ []
  unfolding held
  held_absent s p = rw p refl

  -- What entered a lane is what left it, followed by what it holds.
  pub record LaneInv (s : State) (entered left : List Kv) : Type 0 where
    pub valid : present s ≡ true → IsValid s
    pub order : entered ≡ left ++ held s

  pub LaneInv-init :
      (s : State) (entered left : List Kv)
      → LaneInv s entered left
      → present s ≡ false
      → LaneInv (l.init s).1 entered left × (present (l.init s).1 ≡ succeeded (l.init s).0)
  LaneInv-init s entered left v p = elim (l.init_law s p) [
    | inl (e, p', v', c) ↦ (
      record {
        valid = λ q. v';
        order = v.order ∙ ap (λ q. left ++ q) (held_absent s p ∙ sym c ∙ sym (held_present _ p'));
      },
      p' ∙ sym (ap succeeded e),
    )
    | inr (ne, p') ↦ (
      record {
        valid = λ q. absurd (true_ne_false (sym q ∙ p'));
        order = v.order ∙ ap (λ q. left ++ q) (held_absent s p ∙ sym (held_absent _ p'));
      },
      p' ∙ sym (failed_of_ne _ ne),
    )
  ]

  pub LaneInv-insert :
      (s : State) (entered left : List Kv) (x : Kv)
      → LaneInv s entered left
      → present s ≡ true
      → LaneInv (l.insert s x).1 (note (l.insert s x).0 x entered) left
        × (present (l.insert s x).1 ≡ true)
  LaneInv-insert s entered left x v p =
      let (v', p', step) = l.insert_law s x (v.valid p) p in
      elim step [
        | inl (e, c) ↦ rw (ap succeeded e) (
          record {
            valid = λ q. v';
            order =
                ap (λ q. q ++ x ∷ []) v.order
                ∙ append_assoc left (held s) (x ∷ [])
                ∙ ap (λ q. left ++ q)
                    (ap (λ q. q ++ x ∷ []) (held_present s p) ∙ sym c ∙ sym (held_present _ p'));
          },
          p',
        )
        | inr (ne, c) ↦ rw (failed_of_ne _ ne) (
          record {
            valid = λ q. v';
            order =
                v.order ∙ ap (λ q. left ++ q) (held_present s p ∙ sym c ∙ sym (held_present _ p'));
          },
          p',
        )
      ]

  pub LaneInv-pop :
      (s : State) (entered left : List Kv) (old : Kv)
      → LaneInv s entered left
      → present s ≡ true
      → let (e, s', x) = l.pop s old in LaneInv s' entered (note e x left) × (present s' ≡ true)
  LaneInv-pop s entered left old v p =
      let (v', p', step) = l.pop_law s old (v.valid p) p in
      elim step [
        | inl (e, c) ↦ rw (ap succeeded e) (
          record {
            valid = λ q. v';
            order =
                v.order
                ∙ ap (λ q. left ++ q)
                    (held_present s p ∙ c ∙ ap (λ q. (l.pop s old).2 ∷ q) (sym (held_present _ p')))
                ∙ sym (append_assoc left ((l.pop s old).2 ∷ []) (held (l.pop s old).1));
          },
          p',
        )
        | inr (ne, none_left, c) ↦ rw (failed_of_ne _ ne) (
          record {
            valid = λ q. v';
            order =
                v.order
                ∙ ap (λ q. left ++ q)
                    (held_present s p ∙ none_left ∙ sym c ∙ sym (held_present _ p'));
          },
          p',
        )
      ]
