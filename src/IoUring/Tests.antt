-- ===== src/IoUring/Tests.antt =====
-- Runs of the io_uring ring on small inputs, and its theorems at such inputs.
use bpf_arena_data_structure.Base.{◌-◌, ◌^◌, ◌≡◌, refl, List, [], ◌∷◌, none, some, arith}
use bpf_arena_data_structure.Api.{success, invalid, corrupt, full, Kv, kv, zero_kv}
use bpf_arena_data_structure.Api.Queue
use bpf_arena_data_structure.Api.Queue.{fifo, Op, put, get}
use bpf_arena_data_structure.Api.Bounded
use bpf_arena_data_structure.Api.Bounded.Roundtrip.{puts, gets, accepted, delivered}
use bpf_arena_data_structure.Api.Zeroed.{zeroed}
use bpf_arena_data_structure.Window.{window}
use bpf_arena_data_structure.IoUring.{Ring, not_pow2, init, insert, pop, verify}
use bpf_arena_data_structure.IoUring.Inv.{IsValid, contents}
use bpf_arena_data_structure.IoUring.Refine.{io_uring, io_uring-run_refines}
use bpf_arena_data_structure.IoUring.Roundtrip.{io_uring_roundtrip}

abbrev unset : Ring
unset = record {
  tail = 3;
  head = 1;
  ring_entries = 0;
  ring_mask = 0;
  sq_flags = 5;
  entries = 0;
  cells = [];
}

-- Two slots, both in use, at positions 2^32 - 1 and 0 (= 2^32): `tail` has wrapped.
abbrev wrapped : Ring
wrapped = record {
  tail = 1;
  head = 2 ^ 32 - 1;
  ring_entries = 2;
  ring_mask = 1;
  sq_flags = 0;
  entries = 4096;
  cells = kv 9 90 ∷ kv 8 80 ∷ [];
}

wrapped-IsValid : IsValid wrapped
wrapped-IsValid = record {
  pow2 = (1, refl);
  some_room = omega arith;
  small = omega arith;
  masked = refl;
  storage = omega arith;
  tail_u32 = omega arith;
  head_u32 = omega arith;
  within = omega arith;
}

contents-wrapped : contents wrapped ≡ kv 8 80 ∷ kv 9 90 ∷ []
unfolding contents window
contents-wrapped = refl

init-six : (init zeroed 0 unset 6).0 ≡ invalid
unfolding init not_pow2
init-six = refl

verify-wrapped : (verify wrapped ≡ success) × (verify unset ≡ corrupt)
unfolding verify not_pow2
verify-wrapped = (refl, refl)

abbrev script : List Op
script =
    put (kv 1 10)
    ∷ get (some zero_kv)
    ∷ put (kv 5 50)
    ∷ get (some zero_kv)
    ∷ get (some zero_kv)
    ∷ []

run-wrapped :
    Bounded.run io_uring wrapped script
    ≡ (full, none)
      ∷ (success, some (kv 8 80))
      ∷ (success, none)
      ∷ (success, some (kv 9 90))
      ∷ (success, some (kv 5 50))
      ∷ []
unfolding Bounded.run insert pop
run-wrapped = refl

io_uring-run_refines_example :
    Bounded.run io_uring wrapped script ≡ Queue.run fifo 2 full (contents wrapped) script
io_uring-run_refines_example = io_uring-run_refines script wrapped wrapped-IsValid

abbrev two_pairs : List Kv
two_pairs = kv 1 10 ∷ kv 2 20 ∷ []

init-unset : (init zeroed 0 unset 2).0 ≡ success
unfolding init not_pow2
init-unset = refl

io_uring_roundtrip_example :
    Bounded.run io_uring (init zeroed 0 unset 2).1 (puts two_pairs (gets two_pairs))
    ≡ accepted two_pairs (delivered two_pairs)
io_uring_roundtrip_example =
    io_uring_roundtrip zeroed 0 unset 2 two_pairs (omega arith) init-unset (omega arith)
