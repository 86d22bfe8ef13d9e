-- ===== src/Relay/Folly.antt =====
-- The Folly ring as the lane of src/skeleton_folly_spsc.c and src/skeleton_folly_spsc.bpf.c.
use bpf_arena_data_structure.Base.{
  ℕ, ◌-◌, ◌≡◌, ◌≢◌, refl, ◌⊎◌, inl, inr, Bool, true, false, not, some, [], arith, ap, ◌∙◌,
  ℕ_discrete, ◌==◌,
}
use bpf_arena_data_structure.Api.{success, full, Out, Allocator}
use bpf_arena_data_structure.Api.Queue
use bpf_arena_data_structure.Api.Queue.{Queue, fifo}
use bpf_arena_data_structure.Api.Lane.{Lane, CheckedLane}
use bpf_arena_data_structure.Relay.Cases.{full-ne-success, buffer, pop_cases, insert_cases}
use bpf_arena_data_structure.FollySpsc.{verify, Head, bytes, init, insert, delete, pop}
use bpf_arena_data_structure.FollySpsc.Inv.{spsc_observers, IsValid, contents, spsc_init-IsValid}
use bpf_arena_data_structure.FollySpsc.Inv
use bpf_arena_data_structure.FollySpsc.Refine.{insert_refines, pop_refines}

pub records-insert : (h : Head) (key value : ℕ) → (insert h key value).1.records ≡ h.records
unfolding insert
records-insert h key value = ground arith

pub records-delete : (h : Head) (out : Out) → (delete h out).1.records ≡ h.records
unfolding delete
records-delete h out = ground arith

pub delete_refines :
    (h : Head) (out : Out)
    → IsValid h
    → let (e, h', out') = delete h out in (e, contents h', out') ≡ Queue.pop (contents h) out
unfolding pop
delete_refines h out v = pop_refines h out v

-- `FOLLY_SPSC_QUEUE_SIZE`, and `config_queue_size`
abbrev pub queue_size : ℕ
queue_size = 128

-- `if (head->records)`
abbrev pub has_records : Head → Bool
has_records h = not (h.records == 0)

module _ (a : Allocator) where
  pub init_cases :
      (s : a.State) (h : Head)
      → has_records h ≡ false
      → let (e, h', _) = init a s h queue_size in
        ((e ≡ success) × (has_records h' ≡ true) × IsValid h' × (contents h' ≡ []))
        ⊎ ((e ≢ success) × (has_records h' ≡ false))
  unfolding init
  init_cases s h absent = elim (ℕ_discrete (a.alloc s (bytes a queue_size)).0 0) [
    | yes e ↦
        let none_left : ((a.alloc s (bytes a queue_size)).0 == 0) ≡ true = ground arith in
        rw none_left (inr (ground arith, absent))
    | no ne ↦
        let got : ((a.alloc s (bytes a queue_size)).0 == 0) ≡ false = ground arith in
        let (valid, empty, sized) =
          spsc_init-IsValid a s h queue_size (omega arith) (rw got refl) in
        inl (rw got refl, rw got (rw got refl), valid, empty)
  ]

  -- The state of a lane is the head and that of the allocator.
  abbrev pub folly_lane : Lane
  folly_lane = record {
    State = Head × a.State;
    IsValid = λ s. IsValid s.0;
    contents = λ s. contents s.0;
    present = λ s. has_records s.0;
    init = λ s. let (e, h, m) = init a s.1 s.0 queue_size in (e, (h, m));
    insert = λ s x. let (e, h) = insert s.0 x.key x.value in (e, (h, s.1));
    pop = λ s old. let (e, h, out) = delete s.0 (some old) in (e, (h, s.1), buffer out old);
    init_law = λ s absent. init_cases s.1 s.0 absent;
    insert_law = λ s x v p. (
      Inv.insert-IsValid x.key x.value v,
      ap (λ b. not (b == 0)) (records-insert s.0 x.key x.value) ∙ p,
      insert_cases (contents s.0)
          ((insert s.0 x.key x.value).0, contents (insert s.0 x.key x.value).1) (s.0.size - 1) full
          x full-ne-success (insert_refines s.0 x v),
    );
    pop_law = λ s old v p. (
      Inv.delete-IsValid (some old) v,
      ap (λ b. not (b == 0)) (records-delete s.0 (some old)) ∙ p,
      pop_cases (contents s.0)
          ((delete s.0 (some old)).0, contents (delete s.0 (some old)).1, (delete s.0 (some old)).2)
          old (delete_refines s.0 (some old) v),
    );
  }

  abbrev pub folly_checked : CheckedLane
  folly_checked = record {
    lane = folly_lane;
    verify = λ s. verify s.0;
    verify_law = λ s v p. let (_, _, _, ok) = spsc_observers s.0 v in ok;
  }
