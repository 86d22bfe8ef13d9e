-- ===== src/Relay/Drain.antt =====
-- `trigger_kernel_consumer_on_exit`: the probe is triggered until UK is empty.
use bpf_arena_data_structure.Base.{
  ℕ, zero, suc, ◌+◌, ◌*◌, ◌^◌, ◌≤◌, ◌<◌, ◌≡◌, refl, ◌⊎◌, inl, inr, ltb, ◌==◌, List, [], ◌∷◌, length,
  length-append, eq_nil_of_length, ap, ◌∙◌, arith,
}
use bpf_arena_data_structure.Api.{zero_kv, u64}
use bpf_arena_data_structure.Api.Lane.{Lane}
use bpf_arena_data_structure.Metrics.{succeeded}
use bpf_arena_data_structure.Relay.{
  App, consume, drain_loop, trigger_kernel_consumer_on_exit, Event,
}
use bpf_arena_data_structure.Relay.Log.{Log, no_log, bool_cases, failed_of_ne}
use bpf_arena_data_structure.Relay.Lanes.{held, held_present, held_absent}
use bpf_arena_data_structure.Relay.Steps.{Inv}
use bpf_arena_data_structure.Relay.Forward.{after_consume, consume-Inv}
use bpf_arena_data_structure.Relay.Order.{run, run-Inv, IsFresh, fresh-Inv}

module _ (l : Lane) where
  open l use {State, IsValid, contents, present}

  -- A trigger takes a pair, unless UK holds none.
  consume_progress :
      (s : App l) (g : Log) (elapsed : ℕ)
      → Inv l s g
      → let r = consume l s elapsed in
        (length (after_consume l r g).consumed ≡ suc (length g.consumed))
        ⊎ ((held l s.uk ≡ []) × (length (after_consume l r g).consumed ≡ length g.consumed))
  unfolding consume
  consume_progress s g elapsed v = elim (bool_cases (present s.uk)) [
    | inl q ↦
        let (v', p', step) = l.pop_law s.uk zero_kv (v.uk.valid q) q in
        elim step [
          | inl (e, c) ↦
              rw (q, ap succeeded e)
                (inl (omega (arith, length-append g.consumed ((l.pop s.uk zero_kv).2 ∷ []))))
          | inr (ne, none_left, c) ↦
              rw (q, failed_of_ne _ ne) (inr (held_present l s.uk q ∙ none_left, refl))
        ]
    | inr absent ↦ rw absent (inr (held_absent l s.uk absent, refl))
  ]

  -- UK holds what was forwarded and not consumed.
  length-held :
      (s : App l) (g : Log)
      → Inv l s g
      → length g.forwarded ≡ length g.consumed + length (held l s.uk)
  length-held s g v = ap length v.uk.order ∙ length-append g.consumed (held l s.uk)

  -- Nothing is left in UK.
  abbrev Drained : (total : ℕ) → App l → Type 0
  Drained total s = (held l s.uk ≡ []) × (s.total_kernel_consumed ≡ total)

  Drained-consumed :
      (s : App l) (g : Log)
      → Inv l s g
      → length g.forwarded ≤ length g.consumed
      → length g.forwarded < 2 ^ 64
      → Drained (length g.forwarded) s
  Drained-consumed s g v all small =
      let n = length-held s g v in
      let c = v.consumption in (eq_nil_of_length (held l s.uk) (omega arith), omega arith)

  drain_loop-Drained :
      (clock : ℕ → ℕ) (left attempts target : ℕ) (s : App l) (g : Log)
      → Inv l s g
      → length (held l s.uk) ≤ left
      → length g.forwarded ≤ target
      → length g.forwarded < 2 ^ 64
      → let (n, s') = drain_loop l clock left attempts target s in
        Drained (length g.forwarded) s' × (n ≤ attempts + left)
  unfolding drain_loop
  drain_loop-Drained clock zero attempts target s g v enough far small =
      let n = length-held s g v in (Drained-consumed s g v (omega arith) small, omega arith)
  drain_loop-Drained clock (suc left) attempts target s g v enough far small =
      elim (bool_cases (ltb s.total_kernel_consumed target)) [
        | inl more ↦
            let r = consume l s (clock attempts) in
            let v' = consume-Inv l s g (clock attempts) v in
            let n = length-held s g v in
            let n' = length-held r.2 (after_consume l r g) v' in
            let fewer : length (held l r.2.uk) ≤ left =
              elim (consume_progress s g (clock attempts) v) [
                | inl took ↦ omega arith
                | inr (none_left, same) ↦ let e = ap length none_left in omega arith
              ] in
            let (d, bound) =
              drain_loop-Drained clock left (attempts + 1) target r.2 (after_consume l r g) v' fewer
                far small in
            rw more (d, omega arith)
        | inr done ↦
            let n = length-held s g v in
            let c = v.consumption in
            let reached : target ≤ s.total_kernel_consumed = ground arith in
            rw done (Drained-consumed s g v (omega (arith, reached)) small, omega arith)
      ]

  -- What `trigger_kernel_consumer_on_exit` does after the relay thread has stopped: it triggers the
  -- probe at most 1024 times more often than UK accepted pairs, and at the end UK is empty and as many
  -- pairs were consumed as UK accepted, provided that no counter overflows.
  pub relay_drain :
      (clock : ℕ → ℕ) (events : List Event) (s : App l)
      → IsFresh l s
      → 2 * length (run l events s no_log).1.forwarded + 1024 < 2 ^ 64
      → let (s', g) = run l events s no_log in
        let (n, s'') = trigger_kernel_consumer_on_exit l clock s' in
        (held l s''.uk ≡ [])
        × (s''.total_kernel_consumed ≡ length g.forwarded)
        × (n ≤ length g.forwarded + 1024)
  unfolding trigger_kernel_consumer_on_exit
  relay_drain clock events s f small =
      let s' = (run l events s no_log).0 in
      let g = (run l events s no_log).1 in
      let v = run-Inv l events s no_log (fresh-Inv l s f) in
      let n = length-held s' g v in
      let c = v.consumption in
      let q = v.enqueued in
      elim (bool_cases (s'.uk_enqueued_count == 0)) [
        | inl none_forwarded ↦
            let zero_length : length g.forwarded ≡ 0 = ground arith in
            let v' = consume-Inv l s' g (clock 0) v in
            let (e, t) =
              Drained-consumed (consume l s' (clock 0)).2
                (after_consume l (consume l s' (clock 0)) g) v' (omega arith) (omega arith) in
            rw none_forwarded (e, t, omega arith)
        | inr some_forwarded ↦
            let ((e, t), bound) =
              drain_loop-Drained clock (u64 (s'.uk_enqueued_count + 1024)) 0
                (u64 (s'.total_kernel_consumed + s'.uk_enqueued_count)) s' g v (omega arith)
                (omega arith) (omega arith) in
            rw some_forwarded (e, t, omega arith)
      ]
