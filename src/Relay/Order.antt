-- ===== src/Relay/Order.antt =====
-- What a relay does with the pairs, whatever the structure and the order of the events.
use bpf_arena_data_structure.Base.{◌≡◌, false, List, [], ◌∷◌, ◌++◌, length, sym, ◌∙◌}
use bpf_arena_data_structure.Api.{u64}
use bpf_arena_data_structure.Api.Lane.{Lane}
use bpf_arena_data_structure.Relay.{
  App, inode_create, relay_worker, consume, Event, created, relayed, probed,
}
use bpf_arena_data_structure.Relay.Log.{Log, no_log, Thinned, nothing, true_ne_false}
use bpf_arena_data_structure.Relay.Lanes.{held, held_absent}
use bpf_arena_data_structure.Relay.Steps.{Inv, after_produce, inode_create-Inv}
use bpf_arena_data_structure.Relay.Forward.{
  after_forward, after_consume, relay_worker-Inv, consume-Inv,
}

module _ (l : Lane) where
  open l use {State, IsValid, contents, present}

  -- A run of the application, with the log of what it did.
  unfoldable pub run : List Event → App l → Log → App l × Log
  run [] s g = (s, g)
  run (created pid ts elapsed ∷ events) s g =
      let (e, s') = inode_create l s pid ts elapsed in run events s' (after_produce l e pid ts g)
  run (relayed elapsed elapsed' ∷ events) s g =
      let r = relay_worker l s elapsed elapsed' in run events r.2 (after_forward l r g)
  run (probed elapsed ∷ events) s g =
      let r = consume l s elapsed in run events r.2 (after_consume l r g)

  pub run-Inv :
      (events : List Event) (s : App l) (g : Log)
      → Inv l s g
      → let (s', g') = run events s g in Inv l s' g'
  unfolding run
  run-Inv [] s g v = v
  run-Inv (created pid ts elapsed ∷ events) s g v =
      run-Inv events _ _ (inode_create-Inv l s g pid ts elapsed v)
  run-Inv (relayed elapsed elapsed' ∷ events) s g v =
      run-Inv events _ _ (relay_worker-Inv l s g elapsed elapsed' v)
  run-Inv (probed elapsed ∷ events) s g v = run-Inv events _ _ (consume-Inv l s g elapsed v)

  -- A relay whose lanes were not initialised, and which has counted nothing.
  pub record IsFresh (s : App l) : Type 0 where
    pub ku_absent : present s.ku ≡ false
    pub uk_absent : present s.uk ≡ false
    pub initialized_ku : s.initialized_ku ≡ false
    pub started : s.started ≡ false
    pub uk_initialized : s.uk_initialized ≡ false
    pub dequeued : s.ku_dequeued_count ≡ 0
    pub enqueued : s.uk_enqueued_count ≡ 0
    pub consumption : s.total_kernel_consumed ≡ 0

  pub fresh-Inv : (s : App l) → IsFresh s → Inv l s no_log
  fresh-Inv s f = record {
    ku = record {
      valid = λ q. absurd (true_ne_false (sym q ∙ f.ku_absent));
      order = sym (held_absent l s.ku f.ku_absent);
    };
    uk = record {
      valid = λ q. absurd (true_ne_false (sym q ∙ f.uk_absent));
      order = sym (held_absent l s.uk f.uk_absent);
    };
    ku_ready = f.initialized_ku ∙ sym f.ku_absent;
    uk_ready = λ q. absurd (true_ne_false (sym q ∙ f.uk_initialized));
    started = λ q. absurd (true_ne_false (sym q ∙ f.started));
    thinned = nothing;
    dequeued = f.dequeued;
    enqueued = f.enqueued;
    consumption = f.consumption;
  }

  -- From the start of a relay, whatever file creations, relay rounds and probes follow in whatever
  -- order: the pairs that KU accepted are those that the relay took, in order, followed by those that
  -- KU holds; those that UK accepted are those taken, less the ones that UK refused; these are those
  -- that the probe took, in order, followed by those that UK holds; and the counters of the pairs
  -- taken, accepted by UK and consumed are their numbers, as words of 64 bits.
  pub relay_order :
      (events : List Event) (s : App l)
      → IsFresh s
      → let (s', g) = run events s no_log in
        (g.produced ≡ g.taken ++ held l s'.ku)
        × Thinned g.forwarded g.taken
        × (g.forwarded ≡ g.consumed ++ held l s'.uk)
        × (s'.ku_dequeued_count ≡ u64 (length g.taken))
        × (s'.uk_enqueued_count ≡ u64 (length g.forwarded))
        × (s'.total_kernel_consumed ≡ u64 (length g.consumed))
  relay_order events s f =
      let v = run-Inv events s no_log (fresh-Inv s f) in
      (v.ku.order, v.thinned, v.uk.order, v.dequeued, v.enqueued, v.consumption)
