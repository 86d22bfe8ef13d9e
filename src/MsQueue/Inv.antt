-- ===== src/MsQueue/Inv.antt =====
-- The invariant of a Michael-Scott queue between calls, and the pairs that it holds.
use bpf_arena_data_structure.Base.{ℕ, ◌≡◌, refl, List, [], ◌∷◌, ◌++◌, length, ap}
use bpf_arena_data_structure.Api.{u64}
use bpf_arena_data_structure.Api.Queue.{Queue}
use bpf_arena_data_structure.MsQueue.{Elem, Msqueue}
use bpf_arena_data_structure.Linked.{Chain, Distinct, pairs, rest}

abbrev pub links : (ℕ → Elem) → ℕ → ℕ
links m a = (m a).next

-- The elements from the dummy on, the tail among them with `lag` behind it.
abbrev pub nodes : (front : List ℕ) (t : ℕ) (lag : List ℕ) → List ℕ
nodes front t lag = front ++ t ∷ lag

unfoldable pub contents : Msqueue → List ℕ → Queue
contents q es = pairs (λ a. (q.elems a).pair) (rest es)

pub record IsValid (q : Msqueue) (front : List ℕ) (t : ℕ) (lag : List ℕ) : Type 0 where
  pub chain : Chain (links q.elems) q.head (nodes front t lag)
  pub distinct : Distinct (nodes front t lag)
  pub at_tail : q.tail ≡ t
  pub counted : q.count ≡ u64 (length (rest (nodes front t lag)))

-- Only the elements matter to the pairs held.
pub contents-elems :
    (q q' : Msqueue) (es : List ℕ) → q'.elems ≡ q.elems → contents q' es ≡ contents q es
unfolding contents
contents-elems q q' es e = ap (λ m. pairs (λ a. (m a).pair) (rest es)) e

pub contents_dummy : (q : Msqueue) (d : ℕ) → contents q (d ∷ []) ≡ []
unfolding contents pairs
contents_dummy q d = refl
