-- ===== src/Kcov/Tests.antt =====
-- Runs of the kcov buffer on small inputs, and its theorems at such inputs.
use bpf_arena_data_structure.Base.{◌≡◌, refl, ◌≢◌, List, [], ◌∷◌, none, some, arith}
use bpf_arena_data_structure.Api.{success, not_found, invalid, full, kv, zero_kv}
use bpf_arena_data_structure.Api.Queue
use bpf_arena_data_structure.Api.Queue.{lifo, Op, put, get}
use bpf_arena_data_structure.Api.Bounded
use bpf_arena_data_structure.Api.Zeroed.{zeroed}
use bpf_arena_data_structure.Kcov.{Buf, init, insert, pop, start_index}
use bpf_arena_data_structure.Kcov.Inv.{IsValid, contents}
use bpf_arena_data_structure.Kcov.Refine.{kcov, kcov-run_refines}
use bpf_arena_data_structure.Kcov.Writes.{nested}
use bpf_arena_data_structure.Kcov.Nested.{
  after_load, after_count, insert_interrupted, kcov_nested_after_count, kcov_nested_after_load,
}

abbrev unset : Buf
unset = record { size = 0; area = 0; words = [] }

-- Room for two entries, one there.
abbrev one_entry : Buf
one_entry = record { size = 5; area = 4096; words = 1 ∷ 7 ∷ 70 ∷ 9 ∷ 90 ∷ [] }

one_entry-IsValid : IsValid one_entry
one_entry-IsValid = record {
  allocated = omega arith;
  at_least = omega arith;
  small = omega arith;
  storage = omega arith;
  fits = omega arith;
}

-- Room for two entries, none there.
abbrev no_entry : Buf
no_entry = record { size = 5; area = 4096; words = 0 ∷ 7 ∷ 70 ∷ 9 ∷ 90 ∷ [] }

no_entry-IsValid : IsValid no_entry
no_entry-IsValid = record {
  allocated = omega arith;
  at_least = omega arith;
  small = omega arith;
  storage = omega arith;
  fits = omega arith;
}

init-two : (init zeroed 0 unset 2).0 ≡ invalid
unfolding init
init-two = refl

insert-unset : insert unset 1 10 ≡ (invalid, unset)
unfolding insert
insert-unset = refl

abbrev script : List Op
script =
    put (kv 1 10)
    ∷ put (kv 2 20)
    ∷ get (some zero_kv)
    ∷ get (some zero_kv)
    ∷ get (some zero_kv)
    ∷ []

run-one_entry :
    Bounded.run kcov one_entry script
    ≡ (success, none)
      ∷ (full, none)
      ∷ (success, some (kv 1 10))
      ∷ (success, some (kv 7 70))
      ∷ (not_found, some zero_kv)
      ∷ []
unfolding Bounded.run insert pop start_index
run-one_entry = refl

kcov-run_refines_example :
    Bounded.run kcov one_entry script ≡ Queue.run lifo 2 full (contents one_entry) script
kcov-run_refines_example = kcov-run_refines script one_entry one_entry-IsValid

after_count-ne : after_count ≢ after_load
after_count-ne = cc

kcov_nested_after_count_example :
    insert_interrupted (nested (kv 2 20)) after_count no_entry 1 10
    ≡ (success, (insert (insert no_entry 1 10).1 2 20).1)
kcov_nested_after_count_example =
    kcov_nested_after_count no_entry (kv 1 10) (kv 2 20) after_count no_entry-IsValid (omega arith)
      after_count-ne

kcov_nested_after_load_example :
    ((insert no_entry 2 20).0 ≡ success)
    × (insert_interrupted (nested (kv 2 20)) after_load no_entry 1 10 ≡ insert no_entry 1 10)
kcov_nested_after_load_example =
    kcov_nested_after_load no_entry (kv 1 10) (kv 2 20) no_entry-IsValid (omega arith)
