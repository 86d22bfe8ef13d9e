-- ===== src/CkStack/Tests.antt =====
-- Runs of the CK stack on small inputs, and its theorems at such inputs.
use bpf_arena_data_structure.Base.{
  zero, suc, ◌+◌, ◌<◌, ◌≢◌, ℕ, ◌≡◌, refl, ◌⊎◌, List, [], ◌∷◌, some, arith, ◌==◌, if◌then◌else◌,
}
use bpf_arena_data_structure.Api.{success, nomem, corrupt, kv, zero_kv}
use bpf_arena_data_structure.Api.Queue
use bpf_arena_data_structure.Api.Queue.{find}
use bpf_arena_data_structure.Api.Zeroed.{zeroed}
use bpf_arena_data_structure.CkStack.{
  Stack, Entry, store_entry, push_upmc, push_loop, pop_upmc, pop_loop, insert, pop, verify_loop,
  verify,
}
use bpf_arena_data_structure.CkStack.Chain.{Chain, NotIn, pairs}
use bpf_arena_data_structure.CkStack.Cycle.{walk, ck_stack_verify_cycle}
use bpf_arena_data_structure.CkStack.Threads.{
  System, Reach, here, next, allocate, store_key, store_value, load_head, store_next, push,
  push_again, count_up, see_head, follow, count_down, load_key, load_value,
}
use bpf_arena_data_structure.CkStack.Threads
use bpf_arena_data_structure.CkStack.Linear.{Replays, AllSame, ck_stack_linearizable}
use bpf_arena_data_structure.CkStack.Refine.{IsValid, ck_stack_insert, ck_stack_pop}

-- Two entries, at 64 and 32.
abbrev two : Stack
two = record {
  head = 64;
  count = 2;
  entries = λ a.
      if a == 64 then record { next = 32; pair = kv 2 20 } else record { next = 0; pair = kv 1 10 };
}

two-IsValid : IsValid two (64 ∷ 32 ∷ [])
two-IsValid = record { chain = (refl, omega arith, (refl, omega arith, refl)); counted = refl }

pop-two : (pop 1 two (some zero_kv)).2 ≡ some (kv 2 20)
unfolding pop pop_upmc pop_loop
pop-two = refl

push-pop : (pop 1 (push_upmc 0 two 96 3 30) (some zero_kv)).2 ≡ some (kv 3 30)
unfolding pop pop_upmc pop_loop push_upmc push_loop store_entry
push-pop = refl

apart : NotIn 4096 (64 ∷ 32 ∷ [])
apart = (λ e. absurd (omega (arith, e)), (λ e. absurd (omega (arith, e)), tt))

-- The address that the allocator gives.
abbrev entry : ℕ
entry = 4096

ck_stack_insert_example :
    let (r, s', m') = insert zeroed 0 7 two 3 30 in
    ((entry ≡ 0) × (r ≡ nomem) × (s' ≡ two))
    ⊎ ((r ≡ success)
        × IsValid s' (4096 ∷ 64 ∷ 32 ∷ [])
        × (pairs s'.entries (4096 ∷ 64 ∷ 32 ∷ []) ≡ kv 3 30 ∷ pairs two.entries (64 ∷ 32 ∷ [])))
ck_stack_insert_example = ck_stack_insert zeroed 0 7 two (64 ∷ 32 ∷ []) (kv 3 30) two-IsValid apart

ck_stack_pop_example :
    let (r, s', out) = pop 1 two (some zero_kv) in
    IsValid s' (32 ∷ [])
    × ((r, pairs s'.entries (32 ∷ []), out)
        ≡ Queue.pop (pairs two.entries (64 ∷ 32 ∷ [])) (some zero_kv))
ck_stack_pop_example = ck_stack_pop 0 two (64 ∷ 32 ∷ []) zero_kv two-IsValid

-- Two entries that lead to each other.
abbrev looped : Stack
looped = record {
  head = 64;
  count = 2;
  entries = λ a. record { next = if a == 64 then 32 else 64; pair = kv 1 10 };
}

looped-endless : (j : ℕ) → walk looped.entries 64 j ≢ 0
unfolding walk
looped-endless zero = omega arith
looped-endless (suc j) = ground arith

looped-back : walk looped.entries 64 (0 + 2) ≡ walk looped.entries 64 0
unfolding walk
looped-back = refl

ck_stack_verify_cycle_example :
    (verify_loop 2 looped.entries 64 64 ≡ some corrupt) × (verify 2 looped ≡ corrupt)
ck_stack_verify_cycle_example =
    ck_stack_verify_cycle 2 looped 0 2 looped-endless (omega arith) looped-back (omega arith)

abbrev zeroed_entries : ℕ → Entry
zeroed_entries a = record { next = 0; pair = zero_kv }

abbrev lower : ℕ
lower = 32

abbrev upper : ℕ
upper = 64

lower_pos : 0 < lower
lower_pos = omega arith

upper_pos : 0 < upper
upper_pos = omega arith

lower_ne : lower ≢ upper
lower_ne = omega arith

lower_some : lower ≢ 0
lower_some = omega arith

upper_some : upper ≢ 0
upper_some = omega arith

-- Threads 0 and 1 read the same head; 0 publishes first, and 1 tries again.
abbrev race : (y : System) × Reach zeroed_entries y
race = (
  _,
  next
      (next
        (next
          (next
            (next
              (next
                (next
                  (next
                    (next
                      (next
                        (next
                          (next
                            (next here (Threads.insert 0 (allocate (kv 1 10) lower lower_pos tt)))
                            (Threads.insert 0 store_key))
                          (Threads.insert 0 store_value))
                        (Threads.insert 1 (allocate (kv 2 20) upper upper_pos (lower_ne, tt))))
                      (Threads.insert 1 store_key))
                    (Threads.insert 1 store_value))
                  (Threads.insert 0 load_head))
                (Threads.insert 1 load_head))
              (Threads.insert 0 store_next))
            (Threads.insert 1 store_next))
          (Threads.insert 0 (push refl)))
        (Threads.insert 1 (push_again lower_some)))
      (Threads.insert 1 store_next),
)

-- Thread 1 publishes, and thread 2 takes its pair.
abbrev race_end : (y : System) × Reach zeroed_entries y
race_end = (
  _,
  next
      (next
        (next
          (next
            (next
              (next
                (next (next race.1 (Threads.insert 1 (push refl)))
                  (Threads.remove 2 (see_head upper_some)))
                (Threads.remove 2 follow))
              (Threads.remove 2 (Threads.pop refl)))
            (Threads.remove 2 count_down))
          (Threads.insert 0 count_up))
        (Threads.remove 2 load_key))
      (Threads.remove 2 load_value),
)

ck_stack_linearizable_example :
    (es : List ℕ) × Chain race_end.0.stack.entries race_end.0.stack.head es
    × Replays race_end.0.trace (pairs race_end.0.stack.entries es)
    × AllSame race_end.0.delivered
ck_stack_linearizable_example = ck_stack_linearizable race_end.1

race_delivers : race_end.0.delivered ≡ (kv 2 20, kv 2 20) ∷ []
race_delivers = refl
