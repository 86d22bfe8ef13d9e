-- ===== src/CkFifoSpsc/Tests.antt =====
-- Runs of the CK FIFO on small inputs, and its theorems at such inputs.
use bpf_arena_data_structure.Base.{
  ℕ, ◌≡◌, refl, ◌≢◌, ◌⊎◌, ◌↔◌, List, [], ◌∷◌, ◌++◌, some, arith, ◌==◌, if◌then◌else◌, true, ltb,
  min,
}
use bpf_arena_data_structure.Api.{success, corrupt, nomem, kv, zero_kv}
use bpf_arena_data_structure.Api.Queue
use bpf_arena_data_structure.Api.Queue.{fifo}
use bpf_arena_data_structure.Api.Zeroed.{zeroed}
use bpf_arena_data_structure.Linked.{NotIn}
use bpf_arena_data_structure.CkFifoSpsc.{
  Fifo, recycle, fill, enqueue, insert, dequeue, delete, pop, isempty, verify,
}
use bpf_arena_data_structure.CkFifoSpsc.Inv.{nodes, contents, IsValid}
use bpf_arena_data_structure.CkFifoSpsc.Insert.{ck_fifo_insert}
use bpf_arena_data_structure.CkFifoSpsc.Remove.{ck_fifo_pop}
use bpf_arena_data_structure.CkFifoSpsc.Verify.{ck_fifo_verify}
use bpf_arena_data_structure.CkFifoSpsc.Threads.{
  System, Reach, here, next, produce, consume, see_snapshot, load_same, allocate, store_key,
  store_value, store_pointer, clear_next, publish, see_entry, load_pointer, advance, load_moved,
  take_back,
}
use bpf_arena_data_structure.CkFifoSpsc.Order.{
  waiting, ck_fifo_order, ck_fifo_no_leak, ck_fifo_no_race, writes, reads,
}

-- The entry at 32 was left by the consumer, the stub is at 64, and one pair waits at 96.
abbrev one : Fifo
one = record {
  head = 64;
  tail = 96;
  head_snapshot = 32;
  garbage = 32;
  entries = λ a.
      if a == 32
      then record { value = 48; next = 64; pair = kv 7 70 }
      else if a == 64
      then record { value = 80; next = 96; pair = kv 8 80 }
      else record { value = 112; next = 0; pair = kv 1 10 };
}

one-IsValid : IsValid one [] (32 ∷ []) 64 (96 ∷ [])
one-IsValid = record {
  chain = (refl, omega arith, (refl, omega arith, (refl, omega arith, refl)));
  distinct = ((omega arith, (omega arith, tt)), ((omega arith, tt), (tt, tt)));
  at_head = refl;
  at_snapshot = refl;
  at_tail = refl;
  points = (refl, tt);
}

abbrev left : ℕ
left = 32

-- The address that the arena gives out.
abbrev granted : ℕ
granted = 4096

insert-reuses : (insert zeroed 5 one 2 20).1.tail ≡ 32
unfolding insert recycle fill enqueue
insert-reuses = refl

pop-one : (pop 0 one (some zero_kv)).2 ≡ some (kv 1 10)
unfolding pop delete dequeue
pop-one = refl

ck_fifo_insert_example :
    let (r, f', s') = insert zeroed 5 one 2 20 in
    (gs' : List ℕ) × (ss' : List ℕ) × (((left ∷ [] ≡ [])
        × (granted ≡ 0)
        × (r ≡ nomem)
        × IsValid f' gs' ss' 64 (96 ∷ [])
        × (gs' ++ ss' ≡ [])
        × (contents f' (96 ∷ []) ≡ contents one (96 ∷ [])))
      ⊎ ((e : ℕ) × (r ≡ success)
          × IsValid f' gs' ss' 64 (96 ∷ e ∷ [])
          × (contents f' (96 ∷ e ∷ []) ≡ fifo (contents one (96 ∷ [])) (kv 2 20))
          × (((left ∷ [] ≡ e ∷ (gs' ++ ss')) × (s' ≡ 5))
              ⊎ ((left ∷ [] ≡ []) × (gs' ++ ss' ≡ []) × (e ≡ 4096)))))
ck_fifo_insert_example =
    ck_fifo_insert zeroed 5 [] (32 ∷ []) (kv 2 20) one-IsValid
      (omega arith, (omega arith, (omega arith, tt)))

ck_fifo_pop_example :
    let (r, f', out') = pop 0 one (some zero_kv) in
    IsValid f' [] (32 ∷ 64 ∷ []) 96 []
    × ((r, contents f' [], out') ≡ Queue.pop (contents one (96 ∷ [])) (some zero_kv))
    × (f'.entries ≡ one.entries)
    × ((isempty one ≡ true) ↔ (contents one (96 ∷ []) ≡ []))
ck_fifo_pop_example = ck_fifo_pop 0 (96 ∷ []) (some zero_kv) one-IsValid

ck_fifo_verify_example : verify 7 one ≡ (if ltb 1 (min 7 100000) then success else corrupt)
ck_fifo_verify_example = ck_fifo_verify 7 one-IsValid

-- As `ds_ck_fifo_spsc_init` leaves it, with the stub at 64.
abbrev fresh : Fifo
fresh = record {
  head = 64;
  tail = 64;
  head_snapshot = 64;
  garbage = 64;
  entries = λ a. record { value = 0; next = 0; pair = zero_kv };
}

fresh-IsValid : IsValid fresh [] [] 64 []
fresh-IsValid = record {
  chain = (refl, omega arith, refl);
  distinct = (tt, tt);
  at_head = refl;
  at_snapshot = refl;
  at_tail = refl;
  points = tt;
}

moved_on : ◌≢◌ {A = ℕ} 96 64
moved_on = omega arith

linked : ◌≢◌ {A = ℕ} 96 0
linked = omega arith

-- One pair was published in an entry at 96, the consumer has moved past the stub and is about to read
-- the pair, and the producer has taken the stub back for the next pair.
abbrev meeting : (s : System) × Reach fresh 64 s
meeting = (
  _,
  next
      (next
        (next
          (next
            (next
              (next
                (next
                  (next
                    (next
                      (next
                        (next
                          (next
                            (next (next here (produce (see_snapshot (kv 1 10) refl)))
                              (produce (load_same refl)))
                            (produce (allocate 96 (omega arith) (omega arith, tt))))
                          (produce store_key))
                        (produce store_value))
                      (produce store_pointer))
                    (produce clear_next))
                  (produce publish))
                (consume (see_entry linked)))
              (consume load_pointer))
            (consume advance))
          (produce (see_snapshot (kv 2 20) refl)))
        (produce (load_moved moved_on)))
      (produce take_back),
)

ck_fifo_order_example :
    (gs : List ℕ) × (ss : List ℕ) × (d : ℕ) × (qs : List ℕ) × IsValid meeting.0.fifo gs ss d qs
    × (waiting meeting.0.fifo d qs meeting.0.consumer ≡ kv 1 10 ∷ [])
ck_fifo_order_example = ck_fifo_order fresh-IsValid meeting.1

ck_fifo_no_leak_example :
    (gs : List ℕ) × (ss : List ℕ) × (d : ℕ) × (qs : List ℕ) × IsValid meeting.0.fifo gs ss d qs
    × ((a : ℕ) → NotIn a (96 ∷ 64 ∷ []) ↔ (NotIn a (nodes gs ss d qs) × (64 ≢ a)))
ck_fifo_no_leak_example = ck_fifo_no_leak fresh-IsValid meeting.1

ck_fifo_no_race_example : ◌≢◌ {A = ℕ} 64 96
unfolding writes reads
ck_fifo_no_race_example = ck_fifo_no_race fresh-IsValid meeting.1 refl refl
