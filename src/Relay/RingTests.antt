-- ===== src/Relay/RingTests.antt =====
-- One pair through the relays over the other rings, from the kernel to the probe on exit.
use bpf_arena_data_structure.Base.{ℕ, ◌≤◌, arith, ◌≡◌, refl, false, some, List, []}
use bpf_arena_data_structure.Api.{Kv, zero_kv, success}
use bpf_arena_data_structure.Api.Lane.{Lane}
use bpf_arena_data_structure.Api.Zeroed.{zeroed}
use bpf_arena_data_structure.Relay.{App, Event}
use bpf_arena_data_structure.Relay.Log.{no_log}
use bpf_arena_data_structure.Relay.Order.{run, IsFresh}
use bpf_arena_data_structure.Relay.Exit.{relay_verifies}
use bpf_arena_data_structure.Relay.CkRing
use bpf_arena_data_structure.Relay.IoUring
use bpf_arena_data_structure.Relay.Vyukhov
use bpf_arena_data_structure.Relay.CkRing.{ck_ring_lane, ck_ring_checked}
use bpf_arena_data_structure.Relay.IoUring.{io_uring_lane, io_uring_checked}
use bpf_arena_data_structure.Relay.Vyukhov.{vyukhov_lane}

abbrev blank : (l : Lane) → l.State → App l
blank l s = record {
  ku = s;
  uk = s;
  initialized_ku = false;
  started = false;
  uk_initialized = false;
  pair = zero_kv;
  metrics = λ c. record {
    write_idx = 0;
    count = 0;
    success_count = 0;
    total_latency_ns = 0;
    success_latency_ns = 0;
    samples = λ i. record { latency_ns = 0; ok = false };
  };
  total_kernel_prod_ops = 0;
  total_kernel_prod_failures = 0;
  total_kernel_consume_ops = 0;
  total_kernel_consume_failures = 0;
  total_kernel_consumed = 0;
  ku_dequeued_count = 0;
  uk_enqueued_count = 0;
}

ck_ring_once :
    let start = blank (ck_ring_lane zeroed) (
      some (record { capacity = 0; mask = 0; c_head = 0; p_tail = 0; slots = 0; cells = [] }),
      0,
    ) in
    let created = (CkRing.inode_create zeroed start 7 70 5).1 in
    let seen = (CkRing.relay_worker zeroed created 1 1).2 in
    let relayed = (CkRing.relay_worker zeroed seen 2 2).2 in
    let (triggers, end) = CkRing.trigger_kernel_consumer_on_exit zeroed (λ i. 5) relayed in
    ◌≡◌ {A = ℕ × ℕ × Kv}
      (triggers, end.total_kernel_consumed, (CkRing.consume zeroed end 5).1)
      (1, 1, zero_kv)
unfolding CkRing.inode_create CkRing.consume CkRing.relay_worker
    CkRing.trigger_kernel_consumer_on_exit bpf_arena_data_structure.Relay.inode_create
    bpf_arena_data_structure.Relay.produce bpf_arena_data_structure.Relay.relay_worker
    bpf_arena_data_structure.Relay.relay_round bpf_arena_data_structure.Relay.forward
    bpf_arena_data_structure.Relay.consume
    bpf_arena_data_structure.Relay.trigger_kernel_consumer_on_exit
    bpf_arena_data_structure.Relay.drain_loop bpf_arena_data_structure.CkRingSpsc.init
    bpf_arena_data_structure.CkRingSpsc.init_at bpf_arena_data_structure.CkRingSpsc.is_power_of_two
    bpf_arena_data_structure.CkRingSpsc.insert bpf_arena_data_structure.CkRingSpsc.insert_at
    bpf_arena_data_structure.CkRingSpsc.next_index bpf_arena_data_structure.CkRingSpsc.pop
    bpf_arena_data_structure.CkRingSpsc.delete bpf_arena_data_structure.CkRingSpsc.delete_at
ck_ring_once = refl

io_uring_once :
    let start = blank (io_uring_lane zeroed) (
      record {
        tail = 0;
        head = 0;
        ring_entries = 0;
        ring_mask = 0;
        sq_flags = 0;
        entries = 0;
        cells = [];
      },
      0,
    ) in
    let created = (IoUring.inode_create zeroed start 7 70 5).1 in
    let seen = (IoUring.relay_worker zeroed created 1 1).2 in
    let relayed = (IoUring.relay_worker zeroed seen 2 2).2 in
    let (triggers, end) = IoUring.trigger_kernel_consumer_on_exit zeroed (λ i. 5) relayed in
    ◌≡◌ {A = ℕ × ℕ × Kv}
      (triggers, end.total_kernel_consumed, (IoUring.consume zeroed end 5).1)
      (1, 1, zero_kv)
unfolding IoUring.inode_create IoUring.consume IoUring.relay_worker
    IoUring.trigger_kernel_consumer_on_exit bpf_arena_data_structure.Relay.inode_create
    bpf_arena_data_structure.Relay.produce bpf_arena_data_structure.Relay.relay_worker
    bpf_arena_data_structure.Relay.relay_round bpf_arena_data_structure.Relay.forward
    bpf_arena_data_structure.Relay.consume
    bpf_arena_data_structure.Relay.trigger_kernel_consumer_on_exit
    bpf_arena_data_structure.Relay.drain_loop bpf_arena_data_structure.IoUring.init
    bpf_arena_data_structure.IoUring.not_pow2 bpf_arena_data_structure.IoUring.insert
    bpf_arena_data_structure.IoUring.pop
io_uring_once = refl

enough : 128 ≤ 128
enough = omega arith

vyukhov_once :
    let start = blank (vyukhov_lane zeroed 128 enough) (
      record {
        enqueue_pos = 0;
        dequeue_pos = 0;
        buffer_mask = 0;
        buffer = 0;
        cells = [];
        count = 0;
      },
      0,
    ) in
    let created = (Vyukhov.inode_create zeroed 128 enough start 7 70 5).1 in
    let seen = (Vyukhov.relay_worker zeroed 128 enough created 1 1).2 in
    let relayed = (Vyukhov.relay_worker zeroed 128 enough seen 2 2).2 in
    let (triggers, end) =
      Vyukhov.trigger_kernel_consumer_on_exit zeroed 128 enough (λ i. 5) relayed in
    (◌≡◌ {A = ℕ × ℕ × Kv}
      (triggers, end.total_kernel_consumed, (Vyukhov.consume zeroed 128 enough end 5).1)
      (1, 1, zero_kv))
    × (Vyukhov.verify_data_structure zeroed 128 enough end ≡ success)
unfolding Vyukhov.inode_create Vyukhov.consume Vyukhov.relay_worker
    Vyukhov.trigger_kernel_consumer_on_exit bpf_arena_data_structure.Relay.inode_create
    bpf_arena_data_structure.Relay.produce bpf_arena_data_structure.Relay.relay_worker
    bpf_arena_data_structure.Relay.relay_round bpf_arena_data_structure.Relay.forward
    bpf_arena_data_structure.Relay.consume
    bpf_arena_data_structure.Relay.trigger_kernel_consumer_on_exit
    bpf_arena_data_structure.Relay.drain_loop bpf_arena_data_structure.Vyukhov.init
    bpf_arena_data_structure.Vyukhov.to_nodes bpf_arena_data_structure.Vyukhov.number_cells
    bpf_arena_data_structure.Vyukhov.insert bpf_arena_data_structure.Vyukhov.insert_loop
    bpf_arena_data_structure.Vyukhov.pop bpf_arena_data_structure.Vyukhov.pop_loop
    Vyukhov.verify_data_structure bpf_arena_data_structure.Relay.verify_data_structure
    bpf_arena_data_structure.Vyukhov.verify
vyukhov_once = (refl, refl)

blank-IsFresh : (l : Lane) (s : l.State) → l.present s ≡ false → IsFresh l (blank l s)
blank-IsFresh l s absent = record {
  ku_absent = absent;
  uk_absent = absent;
  initialized_ku = refl;
  started = refl;
  uk_initialized = refl;
  dequeued = refl;
  enqueued = refl;
  consumption = refl;
}

ck_ring_verifies :
    (events : List Event) (s : (ck_ring_lane zeroed).State)
    → (ck_ring_lane zeroed).present s ≡ false
    → let (s', g) = run (ck_ring_lane zeroed) events (blank (ck_ring_lane zeroed) s) no_log in
      CkRing.verify_data_structure zeroed s' ≡ success
unfolding CkRing.verify_data_structure
ck_ring_verifies events s absent =
    (relay_verifies (ck_ring_checked zeroed) (λ i. 5) events (blank (ck_ring_lane zeroed) s)
      (blank-IsFresh (ck_ring_lane zeroed) s absent)).0

io_uring_verifies :
    (events : List Event) (s : (io_uring_lane zeroed).State)
    → (io_uring_lane zeroed).present s ≡ false
    → let (s', g) = run (io_uring_lane zeroed) events (blank (io_uring_lane zeroed) s) no_log in
      IoUring.verify_data_structure zeroed s' ≡ success
unfolding IoUring.verify_data_structure
io_uring_verifies events s absent =
    (relay_verifies (io_uring_checked zeroed) (λ i. 5) events (blank (io_uring_lane zeroed) s)
      (blank-IsFresh (io_uring_lane zeroed) s absent)).0
