-- ===== src/Vyukhov/Tests.antt =====
-- Runs of the Vyukhov queue on small inputs, and its theorems at such inputs.
use bpf_arena_data_structure.Base.{
  ℕ, ◌+◌, ◌<◌, ◌⊎◌, ◌≡◌, refl, ◌≤◌, ap, length, [], ◌∷◌, some, arith,
}
use bpf_arena_data_structure.Api.{success, nomem, kv, zero_kv}
use bpf_arena_data_structure.Api.Queue
use bpf_arena_data_structure.Api.Queue.{find, fifo}
use bpf_arena_data_structure.Api.Zeroed.{zeroed}
use bpf_arena_data_structure.Vyukhov.{
  Head, max_retries, to_nodes, number_cells, init, insert_loop, insert, pop_loop, pop, search,
  verify,
}
use bpf_arena_data_structure.Vyukhov.Inv.{IsValid, contents, used, pairs}
use bpf_arena_data_structure.Vyukhov.Calls.{vyukhov_insert, vyukhov_pop}
use bpf_arena_data_structure.Vyukhov.Start.{vyukhov_init-IsValid, vyukhov_observers}
use bpf_arena_data_structure.Vyukhov.Threads.{
  Produce, Consume, System, produce, consume, Reach, here, next, at,
}
use bpf_arena_data_structure.Vyukhov.Threads.Inv.{filling, reader, TakenIn, Delivered}
use bpf_arena_data_structure.Vyukhov.Threads.Deliver.{vyukhov_delivers_once, vyukhov_no_loss}

abbrev blank : Head
blank = record {
  enqueue_pos = 0;
  dequeue_pos = 0;
  buffer_mask = 0;
  buffer = 0;
  cells = [];
  count = 0;
}

-- A queue for two pairs.
abbrev empty : Head
empty = (init zeroed 2 0 blank 2).1

abbrev one : Head
one = (insert 1 empty 7 70).1

vyukhov_init-IsValid_example :
    let (e, h, _) = init zeroed 2 0 blank 2 in
    (e ≡ success) × IsValid h × (contents h ≡ []) × (h.buffer_mask + 1 ≡ 2) × (length h.cells ≡ 2)
vyukhov_init-IsValid_example =
    vyukhov_init-IsValid zeroed 2 0 blank 2 (omega arith) (omega arith) (1, refl) (omega arith)
      (omega arith) (omega arith)

vyukhov_insert_example :
    let (e, h) = insert 1 empty 7 70 in
    IsValid h
    × ((e, contents h) ≡ Queue.insert fifo (empty.buffer_mask + 1) nomem (contents empty) (kv 7 70))
vyukhov_insert_example =
    vyukhov_insert 1 empty (kv 7 70) (omega arith) vyukhov_init-IsValid_example.1

one-IsValid : IsValid one
one-IsValid = (vyukhov_insert 1 empty (kv 7 70) (omega arith) vyukhov_init-IsValid_example.1).0

vyukhov_pop_example :
    let (e, h, out) = pop 1 one (some zero_kv) in
    IsValid h × ((e, contents h, out) ≡ Queue.pop (contents one) (some zero_kv))
vyukhov_pop_example = vyukhov_pop 1 one zero_kv (omega arith) one-IsValid

one-contents : contents one ≡ kv 7 70 ∷ []
unfolding contents used pairs insert insert_loop init to_nodes number_cells
one-contents = refl

one_in_order : one.dequeue_pos ≤ one.enqueue_pos
unfolding insert insert_loop init to_nodes number_cells
one_in_order = omega arith

vyukhov_observers_example : (search 1 one 7 ≡ find (contents one) 7) × (verify one ≡ success)
vyukhov_observers_example =
    vyukhov_observers 1 one 7 one-IsValid one_in_order (omega (arith, ap length one-contents))

pop-insert : (pop 1 one (some zero_kv)).2 ≡ some (kv 7 70)
unfolding insert insert_loop pop pop_loop init to_nodes number_cells
pop-insert = refl

-- A queue for two pairs, before any call.
abbrev numbered : Head
numbered = record {
  enqueue_pos = 0;
  dequeue_pos = 0;
  buffer_mask = 1;
  buffer = 4096;
  cells = record { sequence = 0; pair = zero_kv } ∷ record { sequence = 1; pair = zero_kv } ∷ [];
  count = 0;
}

numbered-IsValid : IsValid numbered
unfolding used
numbered-IsValid = record {
  pow2 = (1, refl);
  two = omega arith;
  small = omega arith;
  allocated = omega arith;
  storage = omega arith;
  enqueue_u64 = omega arith;
  dequeue_u64 = omega arith;
  counted = refl;
  within = omega arith;
  full_cells = λ i lt. absurd (omega arith);
  free_cells = λ i ge le. ground arith;
}

first_round : 0 < max_retries
first_round = omega arith

-- Producer 0 inserts a pair, which consumer 5 takes, while producer 3 claims the next position.
abbrev crossing : (s : System) × Reach numbered s
crossing =
    let r0 = next here (produce 0 (Produce.load_pos (kv 7 70))) in
    let r1 = next r0 (produce 0 (Produce.see_ready first_round refl)) in
    let r2 = next r1 (produce 0 (Produce.exchange refl)) in
    let r3 = next r2 (produce 3 (Produce.load_pos (kv 8 80))) in
    let r4 = next r3 (produce 0 Produce.store_key) in
    let r5 = next r4 (produce 3 (Produce.see_ready first_round refl)) in
    let r6 = next r5 (produce 0 Produce.store_value) in
    let r7 = next r6 (produce 3 (Produce.exchange refl)) in
    let r8 = next r7 (produce 0 Produce.publish) in
    let r9 = next r8 (consume 5 Consume.load_pos) in
    let r10 = next r9 (consume 5 (Consume.see_ready first_round refl)) in
    let r11 = next r10 (consume 5 (Consume.exchange refl)) in
    let r12 = next r11 (consume 5 Consume.load_key) in
    let r13 = next r12 (consume 5 Consume.load_value) in
    let r14 = next r13 (consume 5 Consume.release) in (_, r14)

vyukhov_delivers_once_example : Delivered crossing.0.claims crossing.0.received
vyukhov_delivers_once_example =
    vyukhov_delivers_once numbered-IsValid refl refl crossing.1 (omega arith)

crossing-received : crossing.0.received ≡ (0, kv 7 70) ∷ []
crossing-received = refl

vyukhov_no_loss_example :
    TakenIn 1 crossing.0.received
    ⊎ ((i : ℕ) × (reader (crossing.0.consumers i) ≡ some 1))
    ⊎ (((at crossing.0.head 1).sequence ≡ 2) × ((at crossing.0.head 1).pair ≡ kv 8 80))
    ⊎ (((at crossing.0.head 1).sequence ≡ 1)
        × ((i : ℕ) × (filling (crossing.0.producers i) ≡ some (1, kv 8 80))))
vyukhov_no_loss_example =
    vyukhov_no_loss 1 numbered-IsValid refl refl crossing.1 (omega arith) (omega arith)
