-- ===== src/CkStack/Linear/Frame.antt =====
-- What a step of one thread leaves to the others.
use bpf_arena_data_structure.Base.{
  ℕ, ◌<◌, ◌≡◌, refl, ◌≢◌, List, [], ◌∷◌, ◌++◌, ap, ap₂, sym, ◌∙◌, subst, arith, ℕ_discrete, ne→==,
  ==_iff,
}
use bpf_arena_data_structure.Api.{Kv}
use bpf_arena_data_structure.CkStack.{Entry, Stack}
use bpf_arena_data_structure.CkStack.Chain.{Chain, NotIn, pairs}
use bpf_arena_data_structure.CkStack.Threads.{Thread, Event, System, update}
use bpf_arena_data_structure.CkStack.Linear.Defs.{
  owned, named, ThreadInv, Given, Replays, AllSame, Inv,
}

-- A thread looks only at the entry that it names.
pub frame-ThreadInv :
    (m m' : ℕ → Entry) (es es' : List ℕ) (t : Thread)
    → m' (named t) ≡ m (named t)
    → (0 < owned t → NotIn (owned t) es → NotIn (owned t) es')
    → ThreadInv m es t
    → ThreadInv m' es' t
frame-ThreadInv m m' es es' (Thread.got x e) same keep (pos, out) = (pos, keep pos out)
frame-ThreadInv m m' es es' (Thread.keyed x e) same keep (pos, out, key) =
    (pos, keep pos out, ap (λ (n : Entry). n.pair.key) same ∙ key)
frame-ThreadInv m m' es es' (Thread.filled x e) same keep (pos, out, pair) =
    (pos, keep pos out, ap (λ (n : Entry). n.pair) same ∙ pair)
frame-ThreadInv m m' es es' (Thread.loaded x e h) same keep (pos, out, pair) =
    (pos, keep pos out, ap (λ (n : Entry). n.pair) same ∙ pair)
frame-ThreadInv m m' es es' (Thread.linked x e h) same keep (pos, out, pair, next) = (
  pos,
  keep pos out,
  ap (λ (n : Entry). n.pair) same ∙ pair,
  ap (λ (n : Entry). n.next) same ∙ next,
)
frame-ThreadInv m m' es es' (Thread.followed h n) same keep (pos, next) =
    (pos, next ∙ sym (ap (λ (n : Entry). n.next) same))
frame-ThreadInv m m' es es' (Thread.popped x e) same keep pair =
    ap (λ (n : Entry). n.pair) same ∙ pair
frame-ThreadInv m m' es es' (Thread.counted x e) same keep pair =
    ap (λ (n : Entry). n.pair) same ∙ pair
frame-ThreadInv m m' es es' (Thread.half x e k) same keep (pair, key) =
    (ap (λ (n : Entry). n.pair) same ∙ pair, key)
frame-ThreadInv m m' es es' Thread.ready same keep i = i
frame-ThreadInv m m' es es' Thread.pushed same keep i = i
frame-ThreadInv m m' es es' (Thread.seen h) same keep i = i

pub named-owned : (t : Thread) → 0 < owned t → named t ≡ owned t
named-owned (Thread.got x e) pos = refl
named-owned (Thread.keyed x e) pos = refl
named-owned (Thread.filled x e) pos = refl
named-owned (Thread.loaded x e h) pos = refl
named-owned (Thread.linked x e h) pos = refl
named-owned Thread.ready pos = absurd (omega arith)
named-owned Thread.pushed pos = absurd (omega arith)
named-owned (Thread.seen h) pos = absurd (omega arith)
named-owned (Thread.followed h n) pos = absurd (omega arith)
named-owned (Thread.popped x e) pos = absurd (omega arith)
named-owned (Thread.counted x e) pos = absurd (omega arith)
named-owned (Thread.half x e k) pos = absurd (omega arith)

-- What a thread that fills an entry knows of it.
pub owned-ThreadInv :
    (m : ℕ → Entry) (es : List ℕ) (t : Thread) → 0 < owned t → ThreadInv m es t → NotIn (owned t) es
owned-ThreadInv m es (Thread.got x e) pos i = i.1
owned-ThreadInv m es (Thread.keyed x e) pos i = i.1
owned-ThreadInv m es (Thread.filled x e) pos i = i.1
owned-ThreadInv m es (Thread.loaded x e h) pos i = i.1
owned-ThreadInv m es (Thread.linked x e h) pos i = i.1
owned-ThreadInv m es Thread.ready pos i = absurd (omega arith)
owned-ThreadInv m es Thread.pushed pos i = absurd (omega arith)
owned-ThreadInv m es (Thread.seen h) pos i = absurd (omega arith)
owned-ThreadInv m es (Thread.followed h n) pos i = absurd (omega arith)
owned-ThreadInv m es (Thread.popped x e) pos i = absurd (omega arith)
owned-ThreadInv m es (Thread.counted x e) pos i = absurd (omega arith)
owned-ThreadInv m es (Thread.half x e k) pos i = absurd (omega arith)

pub update_self : (ts : ℕ → Thread) (i : ℕ) (t : Thread) → update ts i t i ≡ t
update_self ts i t = rw ((==_iff i i).1 refl) refl

pub update_ne : (ts : ℕ → Thread) (i j : ℕ) (t : Thread) → j ≢ i → update ts i t j ≡ ts j
update_ne ts i j t ne = rw (ne→== j i ne) refl

-- A property of all threads after the step of one.
pub update_all :
    (P : ℕ → Thread → Type 0) (ts : ℕ → Thread) (i : ℕ) (t : Thread)
    → P i t
    → ((j : ℕ) → j ≢ i → P j (ts j))
    → (j : ℕ) → P j (update ts i t j)
update_all P ts i t self others j = elim (ℕ_discrete j i) [
  | yes e ↦ subst (λ k. P k (update ts i t k)) (sym e) (subst (P i) (sym (update_self ts i t)) self)
  | no ne ↦ subst (P j) (sym (update_ne ts i j t ne)) (others j ne)
]

-- What a step of thread `i` has to show, with the entries `es` in the stack after it.
pub record Changed (y : System) (i : ℕ) (s : Stack) (granted : List ℕ) (t : Thread)
    (out : List Event) (got : List (Kv × Kv)) (es : List ℕ) : Type 0 where
  pub chain : Chain s.entries s.head es
  pub covers : (a : ℕ) → NotIn a granted → NotIn a es
  pub local : ThreadInv s.entries es t
  pub others : (j : ℕ) → j ≢ i → ThreadInv s.entries es (y.threads j)
  pub given : Given granted (named t)
  pub given_others : (j : ℕ) → j ≢ i → Given granted (named (y.threads j))
  pub as_owner : (j : ℕ) → j ≢ i → 0 < owned t → named (y.threads j) ≢ owned t
  pub as_other : (j : ℕ) → j ≢ i → 0 < owned (y.threads j) → named t ≢ owned (y.threads j)
  pub linear : Replays (out ++ y.trace) (pairs s.entries es)
  pub faithful : AllSame (got ++ y.delivered)

pub Changed-Inv :
    {y : System} {i : ℕ} {s : Stack} {granted : List ℕ} {t : Thread} {out : List Event}
    {got : List (Kv × Kv)} {before es : List ℕ}
    → Inv y before
    → Changed y i s granted t out got es
    → Inv
        (record {
          stack = s;
          granted = granted;
          threads = update y.threads i t;
          trace = out ++ y.trace;
          delivered = got ++ y.delivered;
        })
        es
Changed-Inv {y} {i} {s} {granted} {t} {es} v c = record {
  chain = c.chain;
  covers = c.covers;
  local = update_all (λ j u. ThreadInv s.entries es u) y.threads i t c.local c.others;
  given = update_all (λ j u. Given granted (named u)) y.threads i t c.given c.given_others;
  apart = λ j k.
      update_all (λ j' u. j' ≢ k → 0 < owned u → named (update y.threads i t k) ≢ owned u) y.threads
        i t
        (λ ne pos.
          subst (λ u. named u ≢ owned t) (sym (update_ne y.threads i k t (λ e. ne (sym e))))
            (c.as_owner k (λ e. ne (sym e)) pos))
        (λ j' ne' ne pos.
          update_all (λ k' u. j' ≢ k' → named u ≢ owned (y.threads j')) y.threads i t
            (λ _. c.as_other j' ne' pos) (λ k' _ apart. v.apart j' k' apart pos) k ne)
        j;
  linear = c.linear;
  faithful = c.faithful;
}

Chain-outside :
    (m m' : ℕ → Entry) (a h : ℕ) (es : List ℕ)
    → ((b : ℕ) → b ≢ a → m' b ≡ m b)
    → NotIn a es
    → Chain m h es
    → Chain m' h es
Chain-outside m m' a h [] same out c = c
Chain-outside m m' a h (e ∷ es) same (ne, out) (at, pos, c) =
    (at, pos, rw (same e ne) (Chain-outside m m' a (m e).next es same out c))

pairs-outside :
    (m m' : ℕ → Entry) (a : ℕ) (es : List ℕ)
    → ((b : ℕ) → b ≢ a → m' b ≡ m b)
    → NotIn a es
    → pairs m' es ≡ pairs m es
unfolding pairs
pairs-outside m m' a [] same out = refl
pairs-outside m m' a (e ∷ es) same (ne, out) =
    ap₂ (λ (n : Entry) q. n.pair ∷ q) (same e ne) (pairs-outside m m' a es same out)

-- An entry that a thread may name, and one that it may fill, beside the other threads.
pub record Names (y : System) (i named_entry owned_entry : ℕ) : Type 0 where
  pub given : Given y.granted named_entry
  pub as_owner : (j : ℕ) → j ≢ i → 0 < owned_entry → named (y.threads j) ≢ owned_entry
  pub as_other : (j : ℕ) → j ≢ i → 0 < owned (y.threads j) → named_entry ≢ owned (y.threads j)

pub none-Names : (y : System) (i : ℕ) → Names y i 0 0
none-Names y i = record {
  given = λ a pos n. omega arith;
  as_owner = λ j ne pos. absurd (omega arith);
  as_other = λ j ne pos. omega arith;
}

module _ {y : System} {i : ℕ} {u : Thread} {es : List ℕ} (v : Inv y es) (at : u ≡ y.threads i) where
  pub old-Names : Names y i (named u) (owned u)
  old-Names = record {
    given = subst (λ t. Given y.granted (named t)) (sym at) (v.given i);
    as_owner = λ j ne.
        subst (λ t. 0 < owned t → named (y.threads j) ≢ owned t) (sym at)
          (v.apart i j (λ e. ne (sym e)));
    as_other = λ j ne pos. subst (λ t. named t ≢ owned (y.threads j)) (sym at) (v.apart j i ne pos);
  }

  -- A step that leaves the entries and the head.
  pub quiet-Changed :
      (count : ℕ) (t : Thread) (out : List Event) (got : List (Kv × Kv))
      → ThreadInv y.stack.entries es t
      → Names y i (named t) (owned t)
      → Replays (out ++ y.trace) (pairs y.stack.entries es)
      → AllSame (got ++ y.delivered)
      → Changed y i (record y.stack { count = count }) y.granted t out got es
  quiet-Changed count t out got local names linear faithful = record {
    chain = v.chain;
    covers = v.covers;
    local = local;
    others = λ j ne. v.local j;
    given = names.given;
    given_others = λ j ne. v.given j;
    as_owner = names.as_owner;
    as_other = names.as_other;
    linear = linear;
    faithful = faithful;
  }

  -- A write to the entry that the thread fills.
  pub write-Changed :
      (m : ℕ → Entry) (t : Thread)
      → 0 < owned u
      → NotIn (owned u) es
      → ((b : ℕ) → b ≢ owned u → m b ≡ y.stack.entries b)
      → ThreadInv m es t
      → Names y i (named t) (owned t)
      → Changed y i (record y.stack { entries = m }) y.granted t [] [] es
  write-Changed m t pos out same local names = record {
    chain = Chain-outside y.stack.entries m (owned u) y.stack.head es same out v.chain;
    covers = v.covers;
    local = local;
    others = λ j ne.
        frame-ThreadInv y.stack.entries m es es (y.threads j)
          (same (named (y.threads j)) (old-Names.as_owner j ne pos)) (λ p o. o) (v.local j);
    given = names.given;
    given_others = λ j ne. v.given j;
    as_owner = names.as_owner;
    as_other = names.as_other;
    linear =
        subst (Replays y.trace) (sym (pairs-outside y.stack.entries m (owned u) es same out))
          v.linear;
    faithful = v.faithful;
  }

head_ne : (m : ℕ → Entry) (h a : ℕ) (es : List ℕ) → Chain m h es → 0 < a → NotIn a es → h ≢ a
head_ne m h a [] c pos n = omega arith
head_ne m h a (e ∷ es) (at, p, c) pos (ne, n) = λ x. ne (sym at ∙ x)

-- The entry at the head is not being filled.
pub head-Names : {y : System} {es : List ℕ} (i : ℕ) → Inv y es → Names y i y.stack.head 0
head-Names {y} {es} i v = record {
  given = λ a pos n. head_ne y.stack.entries y.stack.head a es v.chain pos (v.covers a n);
  as_owner = λ j ne pos. absurd (omega arith);
  as_other = λ j ne pos.
      head_ne y.stack.entries y.stack.head (owned (y.threads j)) es v.chain pos
        (owned-ThreadInv y.stack.entries es (y.threads j) pos (v.local j));
}
