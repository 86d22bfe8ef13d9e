-- ===== src/CkStack/Linear.antt =====
-- The CK stack is linearizable: every step of a thread keeps the invariant of `Linear/Defs.antt`.
use bpf_arena_data_structure.Base.{ℕ, ◌<◌, ◌≡◌, refl, ◌≢◌, List, [], ◌∷◌, ◌++◌, arith}
use bpf_arena_data_structure.Api.{Kv}
use bpf_arena_data_structure.CkStack.{Entry}
use bpf_arena_data_structure.CkStack.Chain.{Chain, pairs}
use bpf_arena_data_structure.CkStack.Threads.{
  Thread, System, Step, Reach, insert, remove, start, here, next,
}
use bpf_arena_data_structure.CkStack.Linear.Defs.{Inv, none_yet}
use bpf_arena_data_structure.CkStack.Linear.Frame.{Changed-Inv}
use bpf_arena_data_structure.CkStack.Linear.Moves.{Insert-Changed, Remove-Changed}
mod Defs
mod Frame
mod Moves
pub use bpf_arena_data_structure.CkStack.Linear.Defs.{Replays, AllSame}

start-Inv : (entries : ℕ → Entry) → Inv (start entries) []
unfolding pairs
start-Inv entries = record {
  chain = refl;
  covers = λ a n. tt;
  local = λ i. tt;
  given = λ i a pos n. omega arith;
  apart = λ i j ne pos. absurd (omega arith);
  linear = none_yet;
  faithful = tt;
}

Step-Inv : {y z : System} (es : List ℕ) → Inv y es → Step y z → (es' : List ℕ) × Inv z es'
Step-Inv es v (insert i move) =
    let (es', c) = Insert-Changed v refl move (v.local i) in (es', Changed-Inv v c)
Step-Inv es v (remove i move) =
    let (es', c) = Remove-Changed v refl move (v.local i) in (es', Changed-Inv v c)

Reach-Inv : {entries : ℕ → Entry} {y : System} → Reach entries y → (es : List ℕ) × Inv y es
Reach-Inv {entries} here = ([], start-Inv entries)
Reach-Inv (next r st) = let (es, v) = Reach-Inv r in Step-Inv es v st

-- However any number of threads interleave their pushes and removals from an empty stack, when the arena
-- gives no entry out twice, the list from the head ends at NULL, a sequential stack that does what the
-- exchanges did in their order (a removal takes the first pair, none is found only when there is none)
-- holds the pairs of that list, and every removal delivers the pair that its exchange took.
pub ck_stack_linearizable :
    {entries : ℕ → Entry} {y : System}
    → Reach entries y
    → (es : List ℕ) × Chain y.stack.entries y.stack.head es
      × Replays y.trace (pairs y.stack.entries es)
      × AllSame y.delivered
ck_stack_linearizable r = let (es, v) = Reach-Inv r in (es, v.chain, v.linear, v.faithful)
