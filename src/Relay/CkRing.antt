-- ===== src/Relay/CkRing.antt =====
-- src/skeleton_ck_ring_spsc.c and src/skeleton_ck_ring_spsc.bpf.c: the relay over CK rings.
use bpf_arena_data_structure.Base.{
  ℕ, ◌≡◌, ◌≢◌, refl, ◌⊎◌, inl, inr, Bool, true, false, not, Option, some, none, [], arith, ◌==◌,
  ℕ_discrete,
}
use bpf_arena_data_structure.Api.{DsResult, success, Kv, Out, Allocator}
use bpf_arena_data_structure.Api.Lane.{Lane, CheckedLane}
use bpf_arena_data_structure.CkRingSpsc.{
  Head, bytes, init_at, init, insert_at, insert, delete_at, delete, pop, verify, is_power_of_two,
}
use bpf_arena_data_structure.CkRingSpsc.Inv.{ck_ring_init-IsValid, ck_ring_verify_iff}
use bpf_arena_data_structure.CkRingSpsc.Refine.{ck_ring, IsValidPtr, contents_ptr}
use bpf_arena_data_structure.Relay
use bpf_arena_data_structure.Relay.{App}
use bpf_arena_data_structure.Relay.Cases.{full-ne-success}
use bpf_arena_data_structure.Relay.Rings.{IsLane, ring_lane}

-- `CK_RING_SPSC_QUEUE_CAPACITY`, and `config_queue_capacity`
abbrev pub queue_capacity : ℕ
queue_capacity = 128

-- `if (head->slots)`
abbrev pub has_slots : Option Head → Bool
has_slots none = false
has_slots (some h) = not (h.slots == 0)

insert-has_slots : (p : Option Head) (x : Kv) → has_slots (insert p x.key x.value).1 ≡ has_slots p
unfolding insert insert_at
insert-has_slots none x = refl
insert-has_slots (some h) x = ground arith

pop-has_slots : (p : Option Head) (out : Out) → has_slots (pop p out).1 ≡ has_slots p
unfolding pop delete delete_at
pop-has_slots none out = refl
pop-has_slots (some h) out = ground arith

module _ (a : Allocator) where
  init_cases :
      (m : a.State) (p : Option Head)
      → has_slots p ≡ false
      → let (e, p', _) = init a m p queue_capacity in
        ((e ≡ success) × (has_slots p' ≡ true) × IsValidPtr p' × (contents_ptr p' ≡ []))
        ⊎ ((e ≢ success) × (has_slots p' ≡ false))
  unfolding init init_at is_power_of_two
  init_cases m none absent = inr ((λ e. cc), refl)
  init_cases m (some h) absent = elim (ℕ_discrete (a.alloc m (bytes a queue_capacity)).0 0) [
    | yes e ↦
        let none_left : ((a.alloc m (bytes a queue_capacity)).0 == 0) ≡ true = ground arith in
        rw none_left (inr (ground arith, absent))
    | no ne ↦
        let got : ((a.alloc m (bytes a queue_capacity)).0 == 0) ≡ false = ground arith in
        let (valid, empty, sized) =
          ck_ring_init-IsValid a m h queue_capacity (omega arith) (rw got refl) in
        inl (rw got refl, rw got (rw got refl), valid, empty)
  ]

  pub ck_ring-IsLane : IsLane ck_ring a.State has_slots (λ m p. init a m p queue_capacity)
  ck_ring-IsLane = record {
    is_fifo = refl;
    refuses = full-ne-success;
    present-insert = insert-has_slots;
    present-pop = pop-has_slots;
    init_cases = init_cases;
  }

  abbrev pub ck_ring_lane : Lane
  ck_ring_lane =
      ring_lane ck_ring a.State has_slots (λ m p. init a m p queue_capacity) ck_ring-IsLane

  unfoldable pub inode_create :
      App ck_ring_lane → (pid ts elapsed : ℕ) → DsResult × App ck_ring_lane
  inode_create s pid ts elapsed = Relay.inode_create ck_ring_lane s pid ts elapsed

  unfoldable pub consume : App ck_ring_lane → (elapsed : ℕ) → DsResult × Kv × App ck_ring_lane
  consume s elapsed = Relay.consume ck_ring_lane s elapsed

  unfoldable pub relay_worker :
      App ck_ring_lane → (elapsed elapsed' : ℕ) → DsResult × DsResult × App ck_ring_lane
  relay_worker s elapsed elapsed' = Relay.relay_worker ck_ring_lane s elapsed elapsed'

  unfoldable pub trigger_kernel_consumer_on_exit :
      (clock : ℕ → ℕ) → App ck_ring_lane → ℕ × App ck_ring_lane
  trigger_kernel_consumer_on_exit clock s =
      Relay.trigger_kernel_consumer_on_exit ck_ring_lane clock s

  unfoldable pub verify_data_structure : App ck_ring_lane → DsResult
  verify_data_structure s = Relay.verify_data_structure ck_ring_lane (λ p. verify p.0) s

  pub verify_valid : (p : Option Head) → IsValidPtr p → verify p ≡ success
  unfolding verify
  verify_valid none v = absurd v
  verify_valid (some h) v =
      let small = v.small in
      (ck_ring_verify_iff h (omega arith)).1
        (v.allocated, v.at_least, v.pow2, v.masked, v.read_in, v.write_in)

  abbrev pub ck_ring_checked : CheckedLane
  ck_ring_checked = record {
    lane = ck_ring_lane;
    verify = λ s. verify s.0;
    verify_law = λ s v p. verify_valid s.0 v;
  }
