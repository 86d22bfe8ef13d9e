-- ===== src/Relay.antt =====
-- src/skeleton_*.c and src/skeleton_*.bpf.c: the applications that carry pairs from a kernel hook over one
-- structure (KU) to a userspace thread, and over another (UK) back to a kernel probe. They differ in the
-- structure only, which is a `Lane` here. A handler is one step; `elapsed` is what the clock says a timed
-- call took. The relay thread's loop is given round by round. Loading, options and printing are not
-- modelled.
pub mod Log
pub mod Lanes
pub mod Steps
pub mod Forward
pub mod Order
pub mod Cases
pub mod Folly
pub mod Rings
pub mod CkRing
pub mod IoUring
pub mod Vyukhov
pub mod Drain
pub mod Exit
mod Tests
mod RingTests
use bpf_arena_data_structure.Base.{
  ℕ, zero, suc, ◌+◌, ◌%◌, ◌^◌, ltb, ◌==◌, ◌&&◌, Bool, true, false, not, List, [], ◌∷◌, ◌++◌,
  if◌then◌else◌,
}
use bpf_arena_data_structure.Api.{DsResult, success, invalid, Kv, kv, zero_kv, u64}
use bpf_arena_data_structure.Api.Queue.{Queue}
use bpf_arena_data_structure.Api.Lane.{Lane}
use bpf_arena_data_structure.Metrics.{
  Store, lkmm_producer, user_consumer, user_producer, lkmm_consumer, metrics_record, succeeded,
}

module _ (l : Lane) where
  open l use {State, contents, present, init, insert, pop}

  -- The globals of the two programs, and the locals of the relay thread; `started` says that it has
  -- seen KU initialised.
  pub record App : Type 0 where
    pub ku : State
    pub uk : State
    pub initialized_ku : Bool
    pub started : Bool
    pub uk_initialized : Bool
    pub pair : Kv
    pub metrics : Store
    pub total_kernel_prod_ops : ℕ
    pub total_kernel_prod_failures : ℕ
    pub total_kernel_consume_ops : ℕ
    pub total_kernel_consume_failures : ℕ
    pub total_kernel_consumed : ℕ
    pub ku_dequeued_count : ℕ
    pub uk_enqueued_count : ℕ

  -- `lsm_inode_create` from the insertion on, with the answer of the insertion.
  unfoldable pub produce : App → (pid ts elapsed : ℕ) → DsResult × App
  produce s pid ts elapsed =
      let (e, ku') = insert s.ku (kv pid ts) in
      (
        e,
        record s {
          ku = ku';
          metrics = metrics_record s.metrics lkmm_producer elapsed e;
          total_kernel_prod_ops = u64 (s.total_kernel_prod_ops + 1);
          total_kernel_prod_failures =
              if succeeded e
              then s.total_kernel_prod_failures
              else u64 (s.total_kernel_prod_failures + 1);
        },
      )

  unfoldable pub inode_create : App → (pid ts elapsed : ℕ) → DsResult × App
  inode_create s pid ts elapsed =
      let (e, ku') = init s.ku in
      let tried = record s { ku = ku' } in
      if s.initialized_ku
      then produce s pid ts elapsed
      else if succeeded e
      then produce (record tried { initialized_ku = true }) pid ts elapsed
      else (e, record tried { total_kernel_prod_failures = u64 (s.total_kernel_prod_failures + 1) })

  -- A round of the relay from the removal on, with the answers of the removal and the insertion.
  unfoldable pub forward : App → (elapsed elapsed' : ℕ) → DsResult × DsResult × App
  forward s elapsed elapsed' =
      let (e, ku', x) = pop s.ku s.pair in
      let taken = record s {
        ku = ku';
        pair = x;
        metrics = metrics_record s.metrics user_consumer elapsed e;
      } in
      let (e', uk') = insert s.uk x in
      let offered = record taken {
        ku_dequeued_count = u64 (s.ku_dequeued_count + 1);
        uk = uk';
        metrics = metrics_record taken.metrics user_producer elapsed' e';
        uk_enqueued_count =
            if succeeded e' then u64 (s.uk_enqueued_count + 1) else s.uk_enqueued_count;
      } in
      if succeeded e then (e, e', offered) else (e, invalid, taken)

  unfoldable pub relay_round : App → (elapsed elapsed' : ℕ) → DsResult × DsResult × App
  relay_round s elapsed elapsed' =
      let (e, uk') = init s.uk in
      if s.uk_initialized
      then forward s elapsed elapsed'
      else if present s.uk
      then forward (record s { uk_initialized = true }) elapsed elapsed'
      else if succeeded e
      then forward (record s { uk = uk'; uk_initialized = true }) elapsed elapsed'
      else (invalid, invalid, record s { uk = uk' })

  -- A round of either loop of `relay_worker`.
  unfoldable pub relay_worker : App → (elapsed elapsed' : ℕ) → DsResult × DsResult × App
  relay_worker s elapsed elapsed' =
      if s.started
      then relay_round s elapsed elapsed'
      else (invalid, invalid, record s { started = present s.ku })

  -- The probe that consumes from UK, with the pair that it prints when it answers DS_SUCCESS.
  unfoldable pub consume : App → (elapsed : ℕ) → DsResult × Kv × App
  consume s elapsed =
      let (e, uk', x) = pop s.uk zero_kv in
      let failed = u64 (s.total_kernel_consume_failures + 1) in
      if present s.uk
      then (
        e,
        x,
        record s {
          uk = uk';
          metrics = metrics_record s.metrics lkmm_consumer elapsed e;
          total_kernel_consume_ops = u64 (s.total_kernel_consume_ops + 1);
          total_kernel_consumed =
              if succeeded e then u64 (s.total_kernel_consumed + 1) else s.total_kernel_consumed;
          total_kernel_consume_failures =
              if succeeded e then s.total_kernel_consume_failures else failed;
        },
      )
      else (
        invalid,
        zero_kv,
        record s {
          total_kernel_consume_ops = u64 (s.total_kernel_consume_ops + 1);
          total_kernel_consume_failures = failed;
        },
      )

  -- The loop that triggers the probe on exit: how often it did, and the state; `left` is
  -- `max_attempts - attempts`, and `clock` says what the timed call of each attempt took.
  unfoldable pub drain_loop : (clock : ℕ → ℕ) (left attempts target_consumed : ℕ) → App → ℕ × App
  drain_loop clock zero attempts target_consumed s = (attempts, s)
  drain_loop clock (suc left) attempts target_consumed s =
      let (_, _, s') = consume s (clock attempts) in
      let rest = drain_loop clock left (attempts + 1) target_consumed s' in
      if ltb s.total_kernel_consumed target_consumed then rest else (attempts, s)

  unfoldable pub trigger_kernel_consumer_on_exit : (clock : ℕ → ℕ) → App → ℕ × App
  trigger_kernel_consumer_on_exit clock s =
      let target_consumed = u64 (s.total_kernel_consumed + s.uk_enqueued_count) in
      let max_attempts = u64 (s.uk_enqueued_count + 1024) in
      let (_, _, s') = consume s (clock 0) in
      let drained = drain_loop clock max_attempts 0 target_consumed s in
      if s.uk_enqueued_count == 0 then (1, s') else drained

  -- `verify` is the check of the structure.
  unfoldable pub verify_data_structure : (verify : l.State → DsResult) → App → DsResult
  verify_data_structure verify s =
      let ku_result = if l.present s.ku then verify s.ku else success in
      let uk_result = if l.present s.uk then verify s.uk else success in
      if succeeded ku_result && succeeded uk_result then success else invalid

-- What happens: a file is created, the relay thread goes round, or the probe fires.
pub data Event : Type 0 where
  created : (pid ts elapsed : ℕ) → Event
  relayed : (elapsed elapsed' : ℕ) → Event
  probed : (elapsed : ℕ) → Event
