-- ===== src/FollySpsc/Tests.antt =====
-- Runs of the Folly ring on small inputs, and its theorems at such inputs.
use bpf_arena_data_structure.Base.{
  ◌≡◌, ◌≢◌, ◌++◌, refl, List, [], ◌∷◌, none, some, arith, replicate,
}
use bpf_arena_data_structure.Api.{success, invalid, corrupt, full, kv, zero_kv}
use bpf_arena_data_structure.Api.Queue
use bpf_arena_data_structure.Api.Queue.{fifo, Op, put, get}
use bpf_arena_data_structure.Api.Bounded
use bpf_arena_data_structure.Api.Zeroed.{zeroed}
use bpf_arena_data_structure.Window.{window}
use bpf_arena_data_structure.FollySpsc.{Head, next_record, init, insert, pop, verify}
use bpf_arena_data_structure.FollySpsc.Inv.{IsValid, used, contents}
use bpf_arena_data_structure.FollySpsc.Threads.{
  load_write, see_space, store_key, store_value, publish, load_read, see_pair, System, produce,
  consume, Reach, here, next,
}
use bpf_arena_data_structure.FollySpsc.Fifo.{writes, reads, spsc_fifo, spsc_no_race}
use bpf_arena_data_structure.FollySpsc.Refine.{folly, spsc_run_refines}

abbrev unset : Head
unset = record { write_idx = 7; read_idx = 9; size = 0; records = 0; cells = [] }

-- Three slots that hold (8, 80) and then, round the end, (9, 90).
abbrev wrapped : Head
wrapped = record {
  write_idx = 1;
  read_idx = 2;
  size = 3;
  records = 4096;
  cells = kv 9 90 ∷ kv 7 70 ∷ kv 8 80 ∷ [];
}

wrapped-IsValid : IsValid wrapped
wrapped-IsValid = omega arith

contents-wrapped : contents wrapped ≡ kv 8 80 ∷ kv 9 90 ∷ []
unfolding contents used
contents-wrapped = refl

insert-wrapped : insert wrapped 1 10 ≡ (full, wrapped)
unfolding insert next_record
insert-wrapped = refl

pop-wrapped : (pop wrapped (some zero_kv)).2 ≡ some (kv 8 80)
unfolding pop
pop-wrapped = refl

init_small : (init zeroed 0 unset 1).0 ≡ invalid
unfolding init
init_small = refl

verify-unset : verify unset ≡ corrupt
unfolding verify
verify-unset = refl

abbrev script : List Op
script = put (kv 1 10) ∷ get (some zero_kv) ∷ put (kv 2 20) ∷ get none ∷ get (some zero_kv) ∷ []

run-wrapped :
    Bounded.run folly wrapped script
    ≡ (full, none)
      ∷ (success, some (kv 8 80))
      ∷ (success, none)
      ∷ (success, none)
      ∷ (success, some (kv 2 20))
      ∷ []
unfolding Bounded.run insert pop next_record
run-wrapped = refl

spsc_run_refines_example :
    Bounded.run folly wrapped script ≡ Queue.run fifo 2 full (contents wrapped) script
spsc_run_refines_example = spsc_run_refines script wrapped wrapped-IsValid

abbrev fresh : Head
fresh = record {
  write_idx = 0;
  read_idx = 0;
  size = 3;
  records = 4096;
  cells = replicate 3 zero_kv;
}

fresh-IsValid : IsValid fresh
fresh-IsValid = omega arith

contents-fresh : contents fresh ≡ []
unfolding contents used window
contents-fresh = refl

first_free : next_record 3 0 ≢ 0
unfolding next_record
first_free = ground arith

second_free : next_record 3 (next_record 3 0) ≢ 0
unfolding next_record
second_free = ground arith

first_found : 0 ≢ next_record 3 0
unfolding next_record
first_found = ground arith

-- One pair is published, the next has its slot, and the consumer is about to read the first.
abbrev meeting : (s : System) × Reach fresh s
meeting = (
  _,
  next
      (next
        (next
          (next
            (next
              (next
                (next
                  (next (next here (produce (load_write (kv 1 10))))
                    (produce (see_space first_free)))
                  (produce store_key))
                (produce store_value))
              (produce publish))
            (produce (load_write (kv 2 20))))
          (produce (see_space second_free)))
        (consume load_read))
      (consume (see_pair first_found)),
)

spsc_fifo_example :
    (meeting.0.received ++ contents meeting.0.head ≡ kv 1 10 ∷ []) × IsValid meeting.0.head
spsc_fifo_example = spsc_fifo fresh-IsValid contents-fresh meeting.1

spsc_no_race_example : next_record 3 0 ≢ 0
unfolding writes reads
spsc_no_race_example = spsc_no_race fresh-IsValid contents-fresh meeting.1 refl refl
