-- ===== src/Api/Bounded/Roundtrip.antt =====
-- What is put into an empty bounded queue comes out of it again.
use bpf_arena_data_structure.Base.{
  ℕ, ◌+◌, ◌≤◌, ◌≡◌, refl, List, [], ◌∷◌, ◌++◌, none, some, length, length-append, append_assoc,
  append-nil, ap, sym, ◌∙◌, arith, ◌==◌, false,
}
use bpf_arena_data_structure.Api.{DsResult, success, Kv, zero_kv}
use bpf_arena_data_structure.Api.Queue
use bpf_arena_data_structure.Api.Queue.{Queue, Op, put, get, Reply, fifo}
use bpf_arena_data_structure.Api.Bounded.{Bounded, run, run_refines}

-- The pairs are inserted, and then the other calls follow.
abbrev pub puts : List Kv → List Op → List Op
puts [] ops = ops
puts (x ∷ xs) ops = put x ∷ puts xs ops

-- As many removals as there are pairs.
abbrev pub gets : List Kv → List Op
gets [] = []
gets (x ∷ xs) = get (some zero_kv) ∷ gets xs

abbrev pub accepted : List Kv → List Reply → List Reply
accepted [] replies = replies
accepted (x ∷ xs) replies = (success, none) ∷ accepted xs replies

abbrev pub delivered : List Kv → List Reply
delivered [] = []
delivered (x ∷ xs) = (success, some x) ∷ delivered xs

module _ (capacity : ℕ) (full_error : DsResult) where
  gets-delivered : (q : Queue) → Queue.run fifo capacity full_error q (gets q) ≡ delivered q
  unfolding Queue.run Queue.pop
  gets-delivered [] = refl
  gets-delivered (x ∷ q) = ap (λ r. (success, some x) ∷ r) (gets-delivered q)

  puts-accepted :
      (q : Queue) (xs : List Kv) (ops : List Op)
      → length q + length xs ≤ capacity
      → Queue.run fifo capacity full_error q (puts xs ops)
        ≡ accepted xs (Queue.run fifo capacity full_error (q ++ xs) ops)
  unfolding Queue.run Queue.insert
  puts-accepted q [] ops room =
      ap (λ p. Queue.run fifo capacity full_error p ops) (sym (append-nil q))
  puts-accepted q (x ∷ xs) ops room =
      let free : (length q == capacity) ≡ false = ground arith in
      let more : length (q ++ x ∷ []) + length xs ≤ capacity =
        omega (arith, length-append q (x ∷ [])) in
      rw free (
        ap (λ r. (success, none) ∷ r)
          (puts-accepted (q ++ x ∷ []) xs ops more
            ∙ ap (λ p. accepted xs (Queue.run fifo capacity full_error p ops))
                (append_assoc q (x ∷ []) xs)))

-- Into an empty queue with room for them.
pub roundtrip :
    (b : Bounded) (s : b.State) (xs : List Kv)
    → b.place ≡ fifo
    → b.IsValid s
    → b.contents s ≡ []
    → length xs ≤ b.capacity s
    → run b s (puts xs (gets xs)) ≡ accepted xs (delivered xs)
roundtrip b s xs is_fifo v empty room =
    run_refines b (puts xs (gets xs)) s v
    ∙ ap (λ p. Queue.run p (b.capacity s) b.full_error (b.contents s) (puts xs (gets xs))) is_fifo
    ∙ ap (λ q. Queue.run fifo (b.capacity s) b.full_error q (puts xs (gets xs))) empty
    ∙ puts-accepted (b.capacity s) b.full_error [] xs (gets xs) (omega arith)
    ∙ ap (accepted xs) (gets-delivered (b.capacity s) b.full_error xs)
