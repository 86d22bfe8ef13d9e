-- ===== src/MsQueue/Tests.antt =====
-- Runs of the Michael-Scott queue on small inputs, and its theorems at such inputs.
use bpf_arena_data_structure.Base.{
  ℕ, ◌≡◌, refl, List, [], ◌∷◌, some, arith, ◌==◌, if◌then◌else◌, true, ◌+◌,
}
use bpf_arena_data_structure.Api.{success, invalid, kv, zero_kv}
use bpf_arena_data_structure.Api.Queue
use bpf_arena_data_structure.Api.Queue.{find, fifo}
use bpf_arena_data_structure.Api.Zeroed.{zeroed}
use bpf_arena_data_structure.MsQueue.{Msqueue, insert, pop_loop, pop, search, verify}
use bpf_arena_data_structure.MsQueue.Inv.{nodes, contents, IsValid}
use bpf_arena_data_structure.MsQueue.Insert.{msqueue_insert}
use bpf_arena_data_structure.MsQueue.Failure.{msqueue_insert_far, msqueue_insert_lost}
use bpf_arena_data_structure.MsQueue.Remove.{msqueue_pop}
use bpf_arena_data_structure.MsQueue.Observe.{msqueue_observers, verdict}

abbrev kept : ℕ → ℕ → ℕ
kept s a = s

-- The dummy at 16, pairs at 32 and 48; the tail lags by one.
abbrev two : Msqueue
two = record {
  head = 16;
  tail = 32;
  count = 2;
  elems = λ a.
      if a == 16
      then record { next = 32; pair = kv 420 69 }
      else if a == 32
      then record { next = 48; pair = kv 1 10 }
      else record { next = 0; pair = kv 2 20 };
}

two-IsValid : IsValid two (16 ∷ []) 32 (48 ∷ [])
two-IsValid = record {
  chain = (refl, omega arith, (refl, omega arith, (refl, omega arith, refl)));
  distinct = ((omega arith, (omega arith, tt)), ((omega arith, tt), (tt, tt)));
  at_tail = refl;
  counted = refl;
}

msqueue_insert_example :
    let (e, q, _) = insert zeroed kept 2 0 7 two 3 30 in
    (e ≡ success)
    × IsValid q (16 ∷ 32 ∷ 48 ∷ []) 4096 []
    × (contents q (16 ∷ 32 ∷ 48 ∷ 4096 ∷ []) ≡ fifo (contents two (16 ∷ 32 ∷ 48 ∷ [])) (kv 3 30))
msqueue_insert_example =
    msqueue_insert zeroed kept 2 0 7 (kv 3 30) two-IsValid (omega arith)
      (omega arith, (omega arith, (omega arith, tt))) (omega arith) (omega arith)

msqueue_insert_lost_example :
    let (e, q, _) = insert zeroed kept 1 0 7 two 3 30 in
    (e ≡ success)
    × (contents q (16 ∷ 32 ∷ 48 ∷ []) ≡ contents two (16 ∷ 32 ∷ 48 ∷ []))
    × (q.head ≡ 16)
    × (q.count ≡ 3)
msqueue_insert_lost_example =
    msqueue_insert_lost zeroed kept 1 0 7 (kv 3 30) two-IsValid (omega arith)
      (omega arith, (omega arith, (omega arith, tt))) (omega arith) (omega arith)

msqueue_pop_example :
    let (e, q, out, _) = pop zeroed kept true 2 7 two (some zero_kv) in
    (front : List ℕ) × (t : ℕ) × (lag : List ℕ) × IsValid q front t lag
    × ((e, contents q (nodes front t lag), out)
        ≡ Queue.pop (contents two (16 ∷ 32 ∷ 48 ∷ [])) (some zero_kv))
msqueue_pop_example =
    msqueue_pop zeroed kept true 2 7 two (16 ∷ []) 32 (48 ∷ []) zero_kv two-IsValid (omega arith)

msqueue_observers_example :
    (search 2 two 2 ≡ find (contents two (16 ∷ 32 ∷ 48 ∷ [])) 2)
    × (verify 2 two ≡ verdict (16 ∷ []) (48 ∷ []))
msqueue_observers_example =
    msqueue_observers 2 two (16 ∷ []) 32 (48 ∷ []) 2 two-IsValid (omega arith) (omega arith)

pop-two : (pop zeroed kept true 2 7 two (some zero_kv)).2 ≡ some (kv 1 10)
unfolding pop pop_loop
pop-two = refl

-- The dummy at 1, then eleven elements, the last one at 12, with the tail still at the dummy.
abbrev long : Msqueue
long = record {
  head = 1;
  tail = 1;
  count = 11;
  elems = λ a. record { next = if a == 12 then 0 else a + 1; pair = kv a a };
}

abbrev behind : List ℕ
behind = 2 ∷ 3 ∷ 4 ∷ 5 ∷ 6 ∷ 7 ∷ 8 ∷ 9 ∷ 10 ∷ 11 ∷ 12 ∷ []

long-IsValid : IsValid long [] 1 behind
long-IsValid = record {
  chain = omega arith;
  distinct = omega arith;
  at_tail = refl;
  counted = refl;
}

msqueue_insert_far_example :
    let (e, q, s) = insert zeroed kept 10 0 7 long 3 30 in
    (e ≡ invalid) × (contents q (1 ∷ behind) ≡ contents long (1 ∷ behind)) × (q.head ≡ 1) × (s ≡ 7)
msqueue_insert_far_example =
    msqueue_insert_far zeroed kept 10 0 7 (kv 3 30) long-IsValid (omega arith) (omega arith)
      (omega arith) (omega arith)
