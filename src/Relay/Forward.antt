-- ===== src/Relay/Forward.antt =====
-- The relay thread and the probe keep the order of the pairs.
use bpf_arena_data_structure.Base.{
  ℕ, ◌≡◌, inl, inr, true, List, [], ◌∷◌, ◌++◌, length, ap, sym, subst, ◌∙◌, if◌then◌else◌,
}
use bpf_arena_data_structure.Api.{DsResult, invalid, Kv, zero_kv, u64}
use bpf_arena_data_structure.Api.Lane.{Lane}
use bpf_arena_data_structure.Metrics.{succeeded}
use bpf_arena_data_structure.Relay.{App, forward, relay_round, relay_worker, consume}
use bpf_arena_data_structure.Relay.Log.{
  Log, note, bool_cases, if_true, if_false, true_ne_false, note_count, thin_step,
}
use bpf_arena_data_structure.Relay.Lanes.{LaneInv, LaneInv-init, LaneInv-insert, LaneInv-pop}
use bpf_arena_data_structure.Relay.Steps.{Inv}

module _ (l : Lane) where
  open l use {State, IsValid, contents, present}

  abbrev pub after_forward : DsResult × DsResult × App l → Log → Log
  after_forward (e, e', s') g = record g {
    taken = note e s'.pair g.taken;
    forwarded = if succeeded e then note e' s'.pair g.forwarded else g.forwarded;
  }

  abbrev pub Forwarded : Log → DsResult × DsResult × App l → Type 0
  Forwarded g r = Inv l r.2 (after_forward r g)

  forward-Inv :
      (s : App l) (g : Log) (elapsed elapsed' : ℕ)
      → Inv l s g
      → present s.ku ≡ true
      → present s.uk ≡ true
      → Forwarded g (forward l s elapsed elapsed')
  unfolding forward
  forward-Inv s g elapsed elapsed' v p q =
      let x = (l.pop s.ku s.pair).2 in
      let e = (l.pop s.ku s.pair).0 in
      let e' = (l.insert s.uk x).0 in
      let (lane, p') = LaneInv-pop l s.ku g.produced g.taken s.pair v.ku p in
      let (lane', q') = LaneInv-insert l s.uk g.forwarded g.consumed x v.uk q in
      elim (bool_cases (succeeded e)) [
        | inl ok ↦ subst (Forwarded g) (sym (if_true (succeeded e) _ _ ok)) (record {
          ku = lane;
          uk =
              subst (λ f. LaneInv l (l.insert s.uk x).1 f g.consumed)
                (sym (if_true (succeeded e) _ _ ok)) lane';
          ku_ready = v.ku_ready ∙ p ∙ sym p';
          uk_ready = λ t. q';
          started = λ t. p';
          thinned = thin_step e e' x v.thinned;
          dequeued =
              sym (if_true (succeeded e) _ _ ok)
              ∙ note_count e x g.taken s.ku_dequeued_count v.dequeued;
          enqueued =
              note_count e' x g.forwarded s.uk_enqueued_count v.enqueued
              ∙ ap (λ (m : List Kv). u64 (length m))
                  (sym (if_true (succeeded e) (note e' x g.forwarded) g.forwarded ok));
          consumption = v.consumption;
        })
        | inr empty ↦ subst (Forwarded g) (sym (if_false (succeeded e) _ _ empty)) (record {
          ku = lane;
          uk =
              subst (λ f. LaneInv l s.uk f g.consumed) (sym (if_false (succeeded e) _ _ empty))
                v.uk;
          ku_ready = v.ku_ready ∙ p ∙ sym p';
          uk_ready = v.uk_ready;
          started = λ t. p';
          thinned = thin_step e invalid x v.thinned;
          dequeued =
              v.dequeued
              ∙ ap (λ (m : List Kv). u64 (length m))
                  (sym (if_false (succeeded e) (g.taken ++ x ∷ []) g.taken empty));
          enqueued =
              v.enqueued
              ∙ ap (λ (m : List Kv). u64 (length m))
                  (sym (if_false (succeeded e) g.forwarded g.forwarded empty));
          consumption = v.consumption;
        })
      ]

  relay_round-Inv :
      (s : App l) (g : Log) (elapsed elapsed' : ℕ)
      → Inv l s g
      → present s.ku ≡ true
      → Forwarded g (relay_round l s elapsed elapsed')
  unfolding relay_round
  relay_round-Inv s g elapsed elapsed' v p = elim (bool_cases s.uk_initialized) [
    | inl ready ↦
        subst (Forwarded g) (sym (if_true s.uk_initialized _ _ ready))
          (forward-Inv s g elapsed elapsed' v p (v.uk_ready ready))
    | inr unready ↦ elim (bool_cases (present s.uk)) [
      | inl q ↦
          subst (Forwarded g)
            (sym (if_false s.uk_initialized _ _ unready ∙ if_true (present s.uk) _ _ q))
            (forward-Inv (record s { uk_initialized = true }) g elapsed elapsed'
              (record {
                ku = v.ku;
                uk = v.uk;
                ku_ready = v.ku_ready;
                uk_ready = λ t. q;
                started = v.started;
                thinned = v.thinned;
                dequeued = v.dequeued;
                enqueued = v.enqueued;
                consumption = v.consumption;
              })
              p q)
      | inr absent ↦
          let (lane, same) = LaneInv-init l s.uk g.forwarded g.consumed v.uk absent in
          elim (bool_cases (succeeded (l.init s.uk).0)) [
            | inl ok ↦
                subst (Forwarded g)
                  (sym (
                    if_false s.uk_initialized _ _ unready
                    ∙ if_false (present s.uk) _ _ absent
                    ∙ if_true (succeeded (l.init s.uk).0) _ _ ok))
                  (forward-Inv (record s { uk = (l.init s.uk).1; uk_initialized = true }) g elapsed
                    elapsed'
                    (record {
                      ku = v.ku;
                      uk = lane;
                      ku_ready = v.ku_ready;
                      uk_ready = λ t. same ∙ ok;
                      started = v.started;
                      thinned = v.thinned;
                      dequeued = v.dequeued;
                      enqueued = v.enqueued;
                      consumption = v.consumption;
                    })
                    p (same ∙ ok))
            | inr no_memory ↦
                subst (Forwarded g)
                  (sym (
                    if_false s.uk_initialized _ _ unready
                    ∙ if_false (present s.uk) _ _ absent
                    ∙ if_false (succeeded (l.init s.uk).0) _ _ no_memory))
                  (record {
                    ku = v.ku;
                    uk = lane;
                    ku_ready = v.ku_ready;
                    uk_ready = λ t. absurd (true_ne_false (sym t ∙ unready));
                    started = v.started;
                    thinned = v.thinned;
                    dequeued = v.dequeued;
                    enqueued = v.enqueued;
                    consumption = v.consumption;
                  })
          ]
    ]
  ]

  pub relay_worker-Inv :
      (s : App l) (g : Log) (elapsed elapsed' : ℕ)
      → Inv l s g
      → Forwarded g (relay_worker l s elapsed elapsed')
  unfolding relay_worker
  relay_worker-Inv s g elapsed elapsed' v = elim (bool_cases s.started) [
    | inl on ↦
        subst (Forwarded g) (sym (if_true s.started _ _ on))
          (relay_round-Inv s g elapsed elapsed' v (v.started on))
    | inr off ↦ subst (Forwarded g) (sym (if_false s.started _ _ off)) (record {
      ku = v.ku;
      uk = v.uk;
      ku_ready = v.ku_ready;
      uk_ready = v.uk_ready;
      started = λ t. t;
      thinned = v.thinned;
      dequeued = v.dequeued;
      enqueued = v.enqueued;
      consumption = v.consumption;
    })
  ]

  abbrev pub after_consume : DsResult × Kv × App l → Log → Log
  after_consume (e, x, s') g = record g { consumed = note e x g.consumed }

  pub consume-Inv :
      (s : App l) (g : Log) (elapsed : ℕ)
      → Inv l s g
      → let r = consume l s elapsed in Inv l r.2 (after_consume r g)
  unfolding consume
  consume-Inv s g elapsed v = elim (bool_cases (present s.uk)) [
    | inl q ↦
        let (lane, q') = LaneInv-pop l s.uk g.forwarded g.consumed zero_kv v.uk q in
        subst (λ (r : DsResult × Kv × App l). Inv l r.2 (after_consume r g))
          (sym (if_true (present s.uk) _ _ q))
          (record {
            ku = v.ku;
            uk = lane;
            ku_ready = v.ku_ready;
            uk_ready = λ t. q';
            started = v.started;
            thinned = v.thinned;
            dequeued = v.dequeued;
            enqueued = v.enqueued;
            consumption =
                note_count (l.pop s.uk zero_kv).0 (l.pop s.uk zero_kv).2 g.consumed
                  s.total_kernel_consumed v.consumption;
          })
    | inr absent ↦
        subst (λ (r : DsResult × Kv × App l). Inv l r.2 (after_consume r g))
          (sym (if_false (present s.uk) _ _ absent))
          (record {
            ku = v.ku;
            uk = v.uk;
            ku_ready = v.ku_ready;
            uk_ready = v.uk_ready;
            started = v.started;
            thinned = v.thinned;
            dequeued = v.dequeued;
            enqueued = v.enqueued;
            consumption = v.consumption;
          })
  ]
