-- ===== src/CkStack/Chain.antt =====
-- The entries that a stack reaches, from its head along `next` to NULL.
use bpf_arena_data_structure.Base.{ℕ, ◌<◌, ◌≡◌, refl, ◌≢◌, List, [], ◌∷◌, ap, ap₂, arith}
use bpf_arena_data_structure.Api.Queue.{Queue}
use bpf_arena_data_structure.CkStack.{Entry, Stack, store_entry}

-- The addresses of the entries from `a` on.
abbrev pub Chain : (ℕ → Entry) → ℕ → List ℕ → Type 0
Chain m a [] = a ≡ 0
Chain m a (e ∷ es) = (a ≡ e) × (0 < e) × Chain m (m e).next es

abbrev pub NotIn : ℕ → List ℕ → Type 0
NotIn a [] = Unit
NotIn a (e ∷ es) = (e ≢ a) × NotIn a es

-- The pairs that they hold.
unfoldable pub pairs : (ℕ → Entry) → List ℕ → Queue
pairs m [] = []
pairs m (e ∷ es) = (m e).pair ∷ pairs m es

store_entry_ne :
    (s : Stack) (a b : ℕ) (e : Entry) → b ≢ a → (store_entry s a e).entries b ≡ s.entries b
unfolding store_entry
store_entry_ne s a b e ne = ground arith

pub store_entry_self : (s : Stack) (a : ℕ) (e : Entry) → (store_entry s a e).entries a ≡ e
unfolding store_entry
store_entry_self s a e = ground arith

-- A write to an entry outside the chain leaves the chain and its pairs.
pub Chain-store_entry :
    (s : Stack) (a : ℕ) (e : Entry) (h : ℕ) (es : List ℕ)
    → NotIn a es
    → Chain s.entries h es
    → Chain (store_entry s a e).entries h es
Chain-store_entry s a e h [] out c = c
Chain-store_entry s a e h (b ∷ es) (ne, out) (at, pos, rest) = (
  at,
  pos,
  rw (store_entry_ne s a b e ne) (Chain-store_entry s a e (s.entries b).next es out rest),
)

pub pairs-store_entry :
    (s : Stack) (a : ℕ) (e : Entry) (es : List ℕ)
    → NotIn a es
    → pairs (store_entry s a e).entries es ≡ pairs s.entries es
unfolding pairs
pairs-store_entry s a e [] out = refl
pairs-store_entry s a e (b ∷ es) (ne, out) =
    ap₂ ◌∷◌ (ap (λ x. x.pair) (store_entry_ne s a b e ne)) (pairs-store_entry s a e es out)

pub pairs-cons : (m : ℕ → Entry) (e : ℕ) (es : List ℕ) → pairs m (e ∷ es) ≡ (m e).pair ∷ pairs m es
unfolding pairs
pairs-cons m e es = refl

pub count-store_entry : (s : Stack) (a : ℕ) (e : Entry) → (store_entry s a e).count ≡ s.count
unfolding store_entry
count-store_entry s a e = refl
