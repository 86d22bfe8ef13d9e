-- ===== src/CkRingSpsc/Tests.antt =====
-- Runs of the CK ring on small inputs, and its theorems at such inputs.
use bpf_arena_data_structure.Base.{◌≡◌, refl, List, [], ◌∷◌, none, some, arith}
use bpf_arena_data_structure.Api.{success, invalid, corrupt, full, kv, zero_kv}
use bpf_arena_data_structure.Api.Queue
use bpf_arena_data_structure.Api.Queue.{fifo, Op, put, get}
use bpf_arena_data_structure.Api.Bounded
use bpf_arena_data_structure.Api.Zeroed.{zeroed}
use bpf_arena_data_structure.Window.{window}
use bpf_arena_data_structure.Window.Slots.{used, slots}
use bpf_arena_data_structure.CkRingSpsc.{
  Head, next_index, is_power_of_two, init_at, init, insert_at, insert, delete_at, pop, size,
  verify_at, verify,
}
use bpf_arena_data_structure.CkRingSpsc.Inv.{IsValid, contents}
use bpf_arena_data_structure.CkRingSpsc.Refine.{ck_ring, ck_ring-run_refines}

abbrev unset : Head
unset = record { capacity = 0; mask = 0; c_head = 7; p_tail = 9; slots = 0; cells = [] }

-- Four slots that hold (8, 80) and then, round the end, (9, 90).
abbrev wrapped : Head
wrapped = record {
  capacity = 4;
  mask = 3;
  c_head = 3;
  p_tail = 1;
  slots = 4096;
  cells = kv 9 90 ∷ kv 7 70 ∷ kv 6 60 ∷ kv 8 80 ∷ [];
}

wrapped-IsValid : IsValid wrapped
wrapped-IsValid = record {
  allocated = omega arith;
  pow2 = (2, refl);
  at_least = omega arith;
  small = omega arith;
  masked = refl;
  storage = omega arith;
  read_in = omega arith;
  write_in = omega arith;
}

contents-wrapped : contents wrapped ≡ kv 8 80 ∷ kv 9 90 ∷ []
unfolding contents slots used window
contents-wrapped = refl

null_head :
    ((insert none 1 2).0 ≡ invalid) × ((pop none none).0 ≡ invalid) × (verify none ≡ invalid)
unfolding insert pop verify
null_head = (refl, refl, refl)

verify_at-wrapped : (verify_at wrapped ≡ success) × (verify_at unset ≡ corrupt)
unfolding verify_at is_power_of_two size
verify_at-wrapped = (refl, refl)

init-three : (init zeroed 0 (some unset) 3).0 ≡ invalid
unfolding init init_at is_power_of_two
init-three = refl

abbrev script : List Op
script = put (kv 1 10) ∷ put (kv 5 50) ∷ get (some zero_kv) ∷ get none ∷ get (some zero_kv) ∷ []

run-wrapped :
    Bounded.run ck_ring (some wrapped) script
    ≡ (success, none)
      ∷ (full, none)
      ∷ (success, some (kv 8 80))
      ∷ (success, none)
      ∷ (success, some (kv 1 10))
      ∷ []
unfolding Bounded.run insert insert_at pop delete_at next_index
run-wrapped = refl

ck_ring-run_refines_example :
    Bounded.run ck_ring (some wrapped) script ≡ Queue.run fifo 3 full (contents wrapped) script
ck_ring-run_refines_example = ck_ring-run_refines script (some wrapped) wrapped-IsValid
