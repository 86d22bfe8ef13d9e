-- ===== src/Relay/Exit.antt =====
-- `verify_data_structure` at the end of an application.
use bpf_arena_data_structure.Base.{
  ℕ, zero, suc, ◌+◌, ◌≡◌, refl, true, inl, inr, ltb, ◌==◌, List, if◌then◌else◌,
}
use bpf_arena_data_structure.Api.{success}
use bpf_arena_data_structure.Api.Lane.{Lane, CheckedLane}
use bpf_arena_data_structure.Relay.{
  App, consume, drain_loop, trigger_kernel_consumer_on_exit, verify_data_structure, Event,
}
use bpf_arena_data_structure.Relay.Log.{Log, no_log, bool_cases}
use bpf_arena_data_structure.Relay.Steps.{Inv}
use bpf_arena_data_structure.Relay.Forward.{after_consume, consume-Inv}
use bpf_arena_data_structure.Relay.Order.{run, run-Inv, IsFresh, fresh-Inv}

-- The drain keeps the order of the pairs, whatever the counters.
module _ (l : Lane) where
  drain_loop-Inv :
      (clock : ℕ → ℕ) (left attempts target : ℕ) (s : App l) (g : Log)
      → Inv l s g
      → (g' : Log) × Inv l (drain_loop l clock left attempts target s).1 g'
  unfolding drain_loop
  drain_loop-Inv clock zero attempts target s g v = (g, v)
  drain_loop-Inv clock (suc left) attempts target s g v =
      elim (bool_cases (ltb s.total_kernel_consumed target)) [
        | inl more ↦ rw more (
            drain_loop-Inv clock left (attempts + 1) target (consume l s (clock attempts)).2
              (after_consume l (consume l s (clock attempts)) g)
              (consume-Inv l s g (clock attempts) v))
        | inr done ↦ rw done (g, v)
      ]

  trigger-Inv :
      (clock : ℕ → ℕ) (s : App l) (g : Log)
      → Inv l s g
      → (g' : Log) × Inv l (trigger_kernel_consumer_on_exit l clock s).1 g'
  unfolding trigger_kernel_consumer_on_exit
  trigger-Inv clock s g v = elim (bool_cases (s.uk_enqueued_count == 0)) [
    | inl none_forwarded ↦ rw none_forwarded (_, consume-Inv l s g (clock 0) v)
    | inr some_forwarded ↦ rw some_forwarded (drain_loop-Inv clock _ 0 _ s g v)
  ]

module _ (c : CheckedLane) where
  verify_lane :
      (s : c.lane.State)
      → (c.lane.present s ≡ true → c.lane.IsValid s)
      → (if c.lane.present s then c.verify s else success) ≡ success
  verify_lane s valid = elim (bool_cases (c.lane.present s)) [
    | inl p ↦ rw p (c.verify_law s (valid p) p)
    | inr absent ↦ rw absent refl
  ]

  verify-Inv :
      (s : App c.lane) (g : Log)
      → Inv c.lane s g
      → verify_data_structure c.lane c.verify s ≡ success
  unfolding verify_data_structure
  verify-Inv s g v = rw (verify_lane s.ku v.ku.valid, verify_lane s.uk v.uk.valid) refl

  -- From the start of a relay over lanes whose check accepts every valid structure, whatever file
  -- creations, relay rounds and probes follow in whatever order, `verify_data_structure` accepts
  -- both lanes, before the drain on exit and after it.
  pub relay_verifies :
      (clock : ℕ → ℕ) (events : List Event) (s : App c.lane)
      → IsFresh c.lane s
      → let s' = (run c.lane events s no_log).0 in
        (verify_data_structure c.lane c.verify s' ≡ success)
        × (verify_data_structure c.lane c.verify (trigger_kernel_consumer_on_exit c.lane clock s').1
            ≡ success)
  relay_verifies clock events s f =
      let (s', g) = run c.lane events s no_log in
      let v = run-Inv c.lane events s no_log (fresh-Inv c.lane s f) in
      let (g', v') = trigger-Inv c.lane clock _ _ v in (verify-Inv _ _ v, verify-Inv _ g' v')
