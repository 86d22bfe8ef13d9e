-- ===== src/Relay/IoUring.antt =====
-- src/skeleton_io_uring.c and src/skeleton_io_uring.bpf.c: the relay over io_uring rings.
use bpf_arena_data_structure.Base.{
  ℕ, ◌≡◌, ◌≢◌, refl, ◌⊎◌, inl, inr, Bool, true, false, not, [], arith, ◌==◌, ℕ_discrete,
}
use bpf_arena_data_structure.Api.{DsResult, success, Kv, Out, Allocator}
use bpf_arena_data_structure.Api.Lane.{Lane, CheckedLane}
use bpf_arena_data_structure.IoUring.{Ring, bytes, init, insert, pop, verify, not_pow2}
use bpf_arena_data_structure.IoUring.Inv.{
  IsValid, contents, io_uring_init-IsValid, io_uring_verify_iff,
}
use bpf_arena_data_structure.IoUring.Refine.{io_uring}
use bpf_arena_data_structure.Relay
use bpf_arena_data_structure.Relay.{App}
use bpf_arena_data_structure.Relay.Cases.{full-ne-success}
use bpf_arena_data_structure.Relay.Rings.{IsLane, ring_lane}

-- `config_ring_entries`, and what the relay thread passes
abbrev pub ring_entries : ℕ
ring_entries = 128

-- `if (head->entries)`
abbrev pub has_entries : Ring → Bool
has_entries r = not (r.entries == 0)

insert-has_entries : (r : Ring) (x : Kv) → has_entries (insert r x.key x.value).1 ≡ has_entries r
unfolding insert
insert-has_entries r x = ground arith

pop-has_entries : (r : Ring) (out : Out) → has_entries (pop r out).1 ≡ has_entries r
unfolding pop
pop-has_entries r out = ground arith

module _ (a : Allocator) where
  init_cases :
      (m : a.State) (r : Ring)
      → has_entries r ≡ false
      → let (e, r', _) = init a m r ring_entries in
        ((e ≡ success) × (has_entries r' ≡ true) × IsValid r' × (contents r' ≡ []))
        ⊎ ((e ≢ success) × (has_entries r' ≡ false))
  unfolding init not_pow2
  init_cases m r absent = elim (ℕ_discrete (a.alloc m (bytes a ring_entries)).0 0) [
    | yes e ↦
        let none_left : ((a.alloc m (bytes a ring_entries)).0 == 0) ≡ true = ground arith in
        rw none_left (inr (ground arith, absent))
    | no ne ↦
        let got : ((a.alloc m (bytes a ring_entries)).0 == 0) ≡ false = ground arith in
        let (valid, empty, sized) =
          io_uring_init-IsValid a m r ring_entries (omega arith) (rw got refl) in
        inl (rw got refl, rw got (rw got refl), valid, empty)
  ]

  pub io_uring-IsLane : IsLane io_uring a.State has_entries (λ m r. init a m r ring_entries)
  io_uring-IsLane = record {
    is_fifo = refl;
    refuses = full-ne-success;
    present-insert = insert-has_entries;
    present-pop = pop-has_entries;
    init_cases = init_cases;
  }

  abbrev pub io_uring_lane : Lane
  io_uring_lane =
      ring_lane io_uring a.State has_entries (λ m r. init a m r ring_entries) io_uring-IsLane

  unfoldable pub inode_create :
      App io_uring_lane → (pid ts elapsed : ℕ) → DsResult × App io_uring_lane
  inode_create s pid ts elapsed = Relay.inode_create io_uring_lane s pid ts elapsed

  unfoldable pub consume : App io_uring_lane → (elapsed : ℕ) → DsResult × Kv × App io_uring_lane
  consume s elapsed = Relay.consume io_uring_lane s elapsed

  unfoldable pub relay_worker :
      App io_uring_lane → (elapsed elapsed' : ℕ) → DsResult × DsResult × App io_uring_lane
  relay_worker s elapsed elapsed' = Relay.relay_worker io_uring_lane s elapsed elapsed'

  unfoldable pub trigger_kernel_consumer_on_exit :
      (clock : ℕ → ℕ) → App io_uring_lane → ℕ × App io_uring_lane
  trigger_kernel_consumer_on_exit clock s =
      Relay.trigger_kernel_consumer_on_exit io_uring_lane clock s

  unfoldable pub verify_data_structure : App io_uring_lane → DsResult
  verify_data_structure s = Relay.verify_data_structure io_uring_lane (λ p. verify p.0) s

  pub verify_valid : (r : Ring) → IsValid r → verify r ≡ success
  verify_valid r v =
      let small = v.small in
      (io_uring_verify_iff r (omega arith)).1 (v.some_room, v.pow2, v.masked, v.within)

  abbrev pub io_uring_checked : CheckedLane
  io_uring_checked = record {
    lane = io_uring_lane;
    verify = λ s. verify s.0;
    verify_law = λ s v p. verify_valid s.0 v;
  }
