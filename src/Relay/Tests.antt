-- ===== src/Relay/Tests.antt =====
-- A run of the relay over Folly rings, and the theorem at that run.
use bpf_arena_data_structure.Base.{◌+◌, ◌≤◌, arith, ◌≡◌, refl, false, List, [], ◌∷◌, ◌++◌, length}
use bpf_arena_data_structure.Api.{zero_kv, u64, success}
use bpf_arena_data_structure.Api.Zeroed.{zeroed}
use bpf_arena_data_structure.FollySpsc.{Head, init, insert, next_record, delete, verify}
use bpf_arena_data_structure.Metrics.{Store}
use bpf_arena_data_structure.Relay.{
  App, inode_create, produce, relay_worker, relay_round, forward, trigger_kernel_consumer_on_exit,
  verify_data_structure, Event, created, relayed, probed,
}
use bpf_arena_data_structure.Relay.Log.{no_log, Thinned}
use bpf_arena_data_structure.Relay.Lanes.{held}
use bpf_arena_data_structure.Relay.Order.{run, IsFresh, relay_order}
use bpf_arena_data_structure.Relay.Drain.{relay_drain}
use bpf_arena_data_structure.Relay.Exit.{relay_verifies}
use bpf_arena_data_structure.Relay.Folly.{folly_lane, folly_checked}

abbrev unset : Head
unset = record { write_idx = 0; read_idx = 0; size = 0; records = 0; cells = [] }

abbrev no_samples : Store
no_samples = λ c. record {
  write_idx = 0;
  count = 0;
  success_count = 0;
  total_latency_ns = 0;
  success_latency_ns = 0;
  samples = λ i. record { latency_ns = 0; ok = false };
}

abbrev fresh : App (folly_lane zeroed)
fresh = record {
  ku = (unset, 0);
  uk = (unset, 0);
  initialized_ku = false;
  started = false;
  uk_initialized = false;
  pair = zero_kv;
  metrics = no_samples;
  total_kernel_prod_ops = 0;
  total_kernel_prod_failures = 0;
  total_kernel_consume_ops = 0;
  total_kernel_consume_failures = 0;
  total_kernel_consumed = 0;
  ku_dequeued_count = 0;
  uk_enqueued_count = 0;
}

fresh-IsFresh : IsFresh (folly_lane zeroed) fresh
fresh-IsFresh = record {
  ku_absent = refl;
  uk_absent = refl;
  initialized_ku = refl;
  started = refl;
  uk_initialized = refl;
  dequeued = refl;
  enqueued = refl;
  consumption = refl;
}

abbrev script : List Event
script = created 7 70 5 ∷ relayed 1 1 ∷ created 8 80 5 ∷ relayed 3 4 ∷ probed 9 ∷ []

relay_order_example :
    let (s, g) = run (folly_lane zeroed) script fresh no_log in
    (g.produced ≡ g.taken ++ held (folly_lane zeroed) s.ku)
    × Thinned g.forwarded g.taken
    × (g.forwarded ≡ g.consumed ++ held (folly_lane zeroed) s.uk)
    × (s.ku_dequeued_count ≡ u64 (length g.taken))
    × (s.uk_enqueued_count ≡ u64 (length g.forwarded))
    × (s.total_kernel_consumed ≡ u64 (length g.consumed))
relay_order_example = relay_order (folly_lane zeroed) script fresh fresh-IsFresh

-- Three creations; the relay sees KU, then forwards two pairs.
abbrev two_forwarded : List Event
two_forwarded =
    created 7 70 5 ∷ created 8 80 5 ∷ created 9 90 5 ∷ relayed 1 1 ∷ relayed 2 2 ∷ relayed 3 3 ∷ []

length-forwarded : length (run (folly_lane zeroed) two_forwarded fresh no_log).1.forwarded ≡ 2
unfolding run inode_create produce relay_worker relay_round forward init insert next_record delete
length-forwarded = refl

relay_drain_example :
    let (s, g) = run (folly_lane zeroed) two_forwarded fresh no_log in
    let (n, s') = trigger_kernel_consumer_on_exit (folly_lane zeroed) (λ i. 5) s in
    (held (folly_lane zeroed) s'.uk ≡ [])
    × (s'.total_kernel_consumed ≡ length g.forwarded)
    × (n ≤ length g.forwarded + 1024)
relay_drain_example =
    relay_drain (folly_lane zeroed) (λ i. 5) two_forwarded fresh fresh-IsFresh
      (omega (arith, length-forwarded))

relay_verifies_example :
    let (s, g) = run (folly_lane zeroed) two_forwarded fresh no_log in
    let s' = (trigger_kernel_consumer_on_exit (folly_lane zeroed) (λ i. 5) s).1 in
    (verify_data_structure (folly_lane zeroed) (λ p. verify p.0) s ≡ success)
    × (verify_data_structure (folly_lane zeroed) (λ p. verify p.0) s' ≡ success)
relay_verifies_example =
    relay_verifies (folly_checked zeroed) (λ i. 5) two_forwarded fresh fresh-IsFresh
