-- ===== src/Relay/Steps.antt =====
-- The hook that produces pairs keeps their order.
use bpf_arena_data_structure.Base.{ℕ, ◌≡◌, inl, inr, true, length, sym, subst, ◌∙◌}
use bpf_arena_data_structure.Api.{DsResult, kv, u64}
use bpf_arena_data_structure.Api.Lane.{Lane}
use bpf_arena_data_structure.Metrics.{succeeded}
use bpf_arena_data_structure.Relay.{App, produce, inode_create}
use bpf_arena_data_structure.Relay.Log.{
  Log, note, Thinned, bool_cases, if_true, if_false, true_ne_false,
}
use bpf_arena_data_structure.Relay.Lanes.{LaneInv, LaneInv-init, LaneInv-insert}

module _ (l : Lane) where
  open l use {State, IsValid, contents, present}

  pub record Inv (s : App l) (g : Log) : Type 0 where
    pub ku : LaneInv l s.ku g.produced g.taken
    pub uk : LaneInv l s.uk g.forwarded g.consumed
    pub ku_ready : s.initialized_ku ≡ present s.ku
    pub uk_ready : s.uk_initialized ≡ true → present s.uk ≡ true
    pub started : s.started ≡ true → present s.ku ≡ true
    pub thinned : Thinned g.forwarded g.taken
    pub dequeued : s.ku_dequeued_count ≡ u64 (length g.taken)
    pub enqueued : s.uk_enqueued_count ≡ u64 (length g.forwarded)
    pub consumption : s.total_kernel_consumed ≡ u64 (length g.consumed)

  abbrev pub after_produce : DsResult → (pid ts : ℕ) → Log → Log
  after_produce e pid ts g = record g { produced = note e (kv pid ts) g.produced }

  produce-Inv :
      (s : App l) (g : Log) (pid ts elapsed : ℕ)
      → Inv s g
      → present s.ku ≡ true
      → let (e, s') = produce l s pid ts elapsed in Inv s' (after_produce e pid ts g)
  unfolding produce
  produce-Inv s g pid ts elapsed v p =
      let (lane, p') = LaneInv-insert l s.ku g.produced g.taken (kv pid ts) v.ku p in
      record {
        ku = lane;
        uk = v.uk;
        ku_ready = v.ku_ready ∙ p ∙ sym p';
        uk_ready = v.uk_ready;
        started = λ q. p';
        thinned = v.thinned;
        dequeued = v.dequeued;
        enqueued = v.enqueued;
        consumption = v.consumption;
      }

  abbrev pub Created : (pid ts : ℕ) → Log → DsResult × App l → Type 0
  Created pid ts g r = Inv r.1 (after_produce r.0 pid ts g)

  pub inode_create-Inv :
      (s : App l) (g : Log) (pid ts elapsed : ℕ)
      → Inv s g
      → Created pid ts g (inode_create l s pid ts elapsed)
  unfolding inode_create
  inode_create-Inv s g pid ts elapsed v = elim (bool_cases s.initialized_ku) [
    | inl ready ↦
        subst (Created pid ts g) (sym (if_true s.initialized_ku _ _ ready))
          (produce-Inv s g pid ts elapsed v (sym v.ku_ready ∙ ready))
    | inr unready ↦
        let (lane, same) = LaneInv-init l s.ku g.produced g.taken v.ku (sym v.ku_ready ∙ unready) in
        let idle : s.started ≡ true → present (l.init s.ku).1 ≡ true =
          λ q. absurd (true_ne_false (sym (v.started q) ∙ sym v.ku_ready ∙ unready)) in
        elim (bool_cases (succeeded (l.init s.ku).0)) [
          | inl ok ↦
              subst (Created pid ts g)
                (sym (
                  if_false s.initialized_ku _ _ unready
                  ∙ if_true (succeeded (l.init s.ku).0) _ _ ok))
                (produce-Inv (record s { ku = (l.init s.ku).1; initialized_ku = true }) g pid ts
                  elapsed
                  (record {
                    ku = lane;
                    uk = v.uk;
                    ku_ready = sym (same ∙ ok);
                    uk_ready = v.uk_ready;
                    started = idle;
                    thinned = v.thinned;
                    dequeued = v.dequeued;
                    enqueued = v.enqueued;
                    consumption = v.consumption;
                  })
                  (same ∙ ok))
          | inr no_memory ↦
              subst (Created pid ts g)
                (sym (
                  if_false s.initialized_ku _ _ unready
                  ∙ if_false (succeeded (l.init s.ku).0) _ _ no_memory))
                (record {
                  ku =
                      subst (λ p. LaneInv l (l.init s.ku).1 p g.taken)
                        (sym (if_false (succeeded (l.init s.ku).0) _ _ no_memory)) lane;
                  uk = v.uk;
                  ku_ready = unready ∙ sym (same ∙ no_memory);
                  uk_ready = v.uk_ready;
                  started = idle;
                  thinned = v.thinned;
                  dequeued = v.dequeued;
                  enqueued = v.enqueued;
                  consumption = v.consumption;
                })
        ]
  ]
