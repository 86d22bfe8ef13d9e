-- ===== src/Relay/Vyukhov.antt =====
-- src/skeleton_vyukhov.c and src/skeleton_vyukhov.bpf.c: the relay over Vyukhov queues.
use bpf_arena_data_structure.Base.{
  ℕ, ◌+◌, ◌≤◌, ◌<◌, ◌≡◌, ◌≢◌, refl, ◌⊎◌, inl, inr, Bool, true, false, not, some, [], arith, ◌==◌,
  ℕ_discrete,
}
use bpf_arena_data_structure.Bits.{IsPow2}
use bpf_arena_data_structure.Api.{DsResult, success, nomem, Kv, Allocator}
use bpf_arena_data_structure.Api.Lane.{Lane}
use bpf_arena_data_structure.Vyukhov.{Head, bytes, init, insert, pop, verify}
use bpf_arena_data_structure.Vyukhov.Inv.{IsValid, contents}
use bpf_arena_data_structure.Vyukhov.Start.{vyukhov_init-IsValid}
use bpf_arena_data_structure.Vyukhov.Calls.{vyukhov_insert, vyukhov_pop}
use bpf_arena_data_structure.Relay
use bpf_arena_data_structure.Relay.{App}
use bpf_arena_data_structure.Relay.Cases.{buffer, pop_cases, insert_cases}

-- `VYUKHOV_QUEUE_CAPACITY`, and `config_queue_capacity`
abbrev pub queue_capacity : ℕ
queue_capacity = 128

-- `if (head->buffer)`
abbrev pub has_buffer : Head → Bool
has_buffer h = not (h.buffer == 0)

pub has_buffer-IsValid : {h : Head} → IsValid h → has_buffer h ≡ true
has_buffer-IsValid v = let got = v.allocated in ground arith

pub nomem-ne-success : nomem ≢ success
nomem-ne-success e = cc

capacity-IsPow2 : IsPow2 queue_capacity
capacity-IsPow2 = (7, refl)

-- `rounds` is how often `can_loop` lets each loop go round.
module _ (a : Allocator) (rounds : ℕ) (enough : 128 ≤ rounds) where
  pub init_cases :
      (m : a.State) (h : Head)
      → has_buffer h ≡ false
      → let (e, h', _) = init a rounds m h queue_capacity in
        ((e ≡ success) × (has_buffer h' ≡ true) × IsValid h' × (contents h' ≡ []))
        ⊎ ((e ≢ success) × (has_buffer h' ≡ false))
  unfolding init
  init_cases m h absent = elim (ℕ_discrete (a.alloc m (bytes a queue_capacity)).0 0) [
    | yes e ↦
        let none_left : ((a.alloc m (bytes a queue_capacity)).0 == 0) ≡ true = ground arith in
        rw none_left (inr (nomem-ne-success, ground arith))
    | no ne ↦
        let (ok, valid, empty, sized, stored) =
          vyukhov_init-IsValid a rounds m h queue_capacity (omega arith) (omega arith)
            capacity-IsPow2 enough (omega arith) ne in
        inl (ok, has_buffer-IsValid valid, valid, empty)
  ]

  pub some_round : 0 < rounds
  some_round = omega arith

  abbrev pub vyukhov_lane : Lane
  vyukhov_lane = record {
    State = Head × a.State;
    IsValid = λ s. IsValid s.0;
    contents = λ s. contents s.0;
    present = λ s. has_buffer s.0;
    init = λ s. let (e, h, m) = init a rounds s.1 s.0 queue_capacity in (e, (h, m));
    insert = λ s x. let (e, h) = insert rounds s.0 x.key x.value in (e, (h, s.1));
    pop = λ s old. let (e, h, out) = pop rounds s.0 (some old) in (e, (h, s.1), buffer out old);
    init_law = λ s absent. init_cases s.1 s.0 absent;
    insert_law = λ s x v p.
        let (v', refines) = vyukhov_insert rounds s.0 x some_round v in
        (
          v',
          has_buffer-IsValid v',
          insert_cases (contents s.0)
              ((insert rounds s.0 x.key x.value).0, contents (insert rounds s.0 x.key x.value).1)
              (s.0.buffer_mask + 1) nomem x nomem-ne-success refines,
        );
    pop_law = λ s old v p.
        let (v', refines) = vyukhov_pop rounds s.0 old some_round v in
        (
          v',
          has_buffer-IsValid v',
          pop_cases (contents s.0)
              (
                (pop rounds s.0 (some old)).0,
                contents (pop rounds s.0 (some old)).1,
                (pop rounds s.0 (some old)).2,
              )
              old refines,
        );
  }

  unfoldable pub inode_create :
      App vyukhov_lane → (pid ts elapsed : ℕ) → DsResult × App vyukhov_lane
  inode_create s pid ts elapsed = Relay.inode_create vyukhov_lane s pid ts elapsed

  unfoldable pub consume : App vyukhov_lane → (elapsed : ℕ) → DsResult × Kv × App vyukhov_lane
  consume s elapsed = Relay.consume vyukhov_lane s elapsed

  unfoldable pub relay_worker :
      App vyukhov_lane → (elapsed elapsed' : ℕ) → DsResult × DsResult × App vyukhov_lane
  relay_worker s elapsed elapsed' = Relay.relay_worker vyukhov_lane s elapsed elapsed'

  unfoldable pub trigger_kernel_consumer_on_exit :
      (clock : ℕ → ℕ) → App vyukhov_lane → ℕ × App vyukhov_lane
  trigger_kernel_consumer_on_exit clock s =
      Relay.trigger_kernel_consumer_on_exit vyukhov_lane clock s

  unfoldable pub verify_data_structure : App vyukhov_lane → DsResult
  verify_data_structure s = Relay.verify_data_structure vyukhov_lane (λ p. verify p.0) s
