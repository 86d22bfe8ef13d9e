-- ===== src/CkFifoSpsc/Inv.antt =====
-- The invariant of a CK FIFO: one chain of entries from the garbage over the stub to the tail.
use bpf_arena_data_structure.Base.{
  ℕ, ◌+◌, ◌<◌, ◌≡◌, refl, ◌≢◌, List, [], ◌∷◌, ◌++◌, append-nil, append_assoc, arith, ap, ap₂, sym,
  subst, ◌∙◌,
}
use bpf_arena_data_structure.Api.Queue.{Queue, fifo}
use bpf_arena_data_structure.Linked.{
  Chain, NotIn, Distinct, pairs, last, NotIn-right, NotIn-last, last-append, Chain-same, pairs_same,
  pairs-append, Chain-behind, Chain-link, Distinct-snoc, Chain-pos,
}
use bpf_arena_data_structure.CkFifoSpsc.{Entry, Fifo, kv_offset, set_next}

abbrev pub links : (ℕ → Entry) → ℕ → ℕ
links m a = (m a).next

-- `gs` is garbage, `ss` was left by the consumer after the snapshot, `d` is the stub, and `qs` hold
-- the pairs that wait.
abbrev pub nodes : (gs ss : List ℕ) (d : ℕ) (qs : List ℕ) → List ℕ
nodes gs ss d qs = (gs ++ ss) ++ d ∷ qs

abbrev pub first : List ℕ → ℕ → ℕ
first [] d = d
first (s ∷ ss) d = s

unfoldable pub contents : Fifo → List ℕ → Queue
contents f qs = pairs (λ a. (f.entries a).pair) qs

-- `value` of each entry that waits points to its own pair.
abbrev pub PointsToPair : (ℕ → Entry) → List ℕ → Type 0
PointsToPair m [] = Unit
PointsToPair m (e ∷ es) = ((m e).value ≡ e + kv_offset) × PointsToPair m es

pub record IsValid (f : Fifo) (gs ss : List ℕ) (d : ℕ) (qs : List ℕ) : Type 0 where
  pub chain : Chain (links f.entries) f.garbage (nodes gs ss d qs)
  pub distinct : Distinct (nodes gs ss d qs)
  pub at_head : f.head ≡ d
  pub at_snapshot : f.head_snapshot ≡ first ss d
  pub at_tail : f.tail ≡ last d qs
  pub points : PointsToPair f.entries qs

PointsToPair-same :
    (m m' : ℕ → Entry) (a : ℕ) (es : List ℕ)
    → ((b : ℕ) → b ≢ a → (m' b).value ≡ (m b).value)
    → NotIn a es
    → PointsToPair m es
    → PointsToPair m' es
PointsToPair-same m m' a [] same out p = tt
PointsToPair-same m m' a (e ∷ es) same (ne, out) (v, p) =
    (same e ne ∙ v, PointsToPair-same m m' a es same out p)

PointsToPair-value :
    (m m' : ℕ → Entry) (es : List ℕ)
    → ((b : ℕ) → (m' b).value ≡ (m b).value)
    → PointsToPair m es
    → PointsToPair m' es
PointsToPair-value m m' [] same p = tt
PointsToPair-value m m' (e ∷ es) same (v, p) = (same e ∙ v, PointsToPair-value m m' es same p)

PointsToPair-snoc :
    (m : ℕ → Entry) (new : ℕ) (es : List ℕ)
    → (m new).value ≡ new + kv_offset
    → PointsToPair m es
    → PointsToPair m (es ++ new ∷ [])
PointsToPair-snoc m new [] v p = (v, tt)
PointsToPair-snoc m new (e ∷ es) v (w, p) = (w, PointsToPair-snoc m new es v p)

pairs-pair : (p p' : ℕ → _) (es : List ℕ) → ((b : ℕ) → p' b ≡ p b) → pairs p' es ≡ pairs p es
unfolding pairs
pairs-pair p p' [] same = refl
pairs-pair p p' (e ∷ es) same = ap₂ ◌∷◌ (same e) (pairs-pair p p' es same)

pub NotIn-waiting :
    (a : ℕ) (gs ss : List ℕ) (d : ℕ) (qs : List ℕ) → NotIn a (nodes gs ss d qs) → NotIn a (d ∷ qs)
NotIn-waiting a gs ss d qs n = NotIn-right a (gs ++ ss) (d ∷ qs) n

-- What stands before an address is another one.
pub NotIn-first :
    (a : ℕ) (gs ss : List ℕ) (d : ℕ) (qs : List ℕ) → NotIn a (nodes gs ss d qs) → first ss d ≢ a
NotIn-first a [] [] d qs n = n.0
NotIn-first a [] (s ∷ ss) d qs n = n.0
NotIn-first a (g ∷ gs) ss d qs n = NotIn-first a gs ss d qs n.1

first-snoc : (ss : List ℕ) (d e : ℕ) → first (ss ++ d ∷ []) e ≡ first ss d
first-snoc [] d e = refl
first-snoc (s ∷ ss) d e = refl

module _ {f : Fifo} {gs ss : List ℕ} {d : ℕ} {qs : List ℕ} (v : IsValid f gs ss d qs) where
  pub head_pos : 0 < d
  head_pos = Chain-pos (links f.entries) f.garbage d (gs ++ ss) qs v.chain

  -- What follows the stub.
  pub behind_head : Chain (links f.entries) (f.entries f.head).next qs
  behind_head =
      let c = Chain-behind (links f.entries) f.garbage d (gs ++ ss) qs v.chain in
      subst (λ h. Chain (links f.entries) (links f.entries h) qs) (sym v.at_head) c

  -- Writes to an entry that is not in the chain.
  module _ (m : ℕ → Entry) (a : ℕ) (same : (b : ℕ) → b ≢ a → m b ≡ f.entries b)
      (out : NotIn a (nodes gs ss d qs)) where
    pub outside-IsValid : IsValid (record f { entries = m }) gs ss d qs
    outside-IsValid = record {
      chain =
          Chain-same (links f.entries) (links m) a f.garbage (nodes gs ss d qs)
            (λ b ne. ap (λ (e : Entry). e.next) (same b ne)) out v.chain;
      distinct = v.distinct;
      at_head = v.at_head;
      at_snapshot = v.at_snapshot;
      at_tail = v.at_tail;
      points =
          PointsToPair-same f.entries m a qs (λ b ne. ap (λ (e : Entry). e.value) (same b ne))
            (NotIn-waiting a gs ss d qs out).1 v.points;
    }

    pub contents-outside : contents (record f { entries = m }) qs ≡ contents f qs
    unfolding contents
    contents-outside =
        pairs_same (λ b. (f.entries b).pair) (λ b. (m b).pair) a qs
          (λ b ne. ap (λ (e : Entry). e.pair) (same b ne)) (NotIn-waiting a gs ss d qs out).1

  -- The store to `tail->next` that publishes an entry, and the one to `tail`.
  module _ (e : ℕ) (pos : 0 < e) (out : NotIn e (nodes gs ss d qs))
      (value : (f.entries e).value ≡ e + kv_offset) (next : (f.entries e).next ≡ 0) where
    abbrev pub published : Fifo
    published = record f { tail = e; entries = set_next f.entries f.tail e }

    pub published-IsValid : IsValid published gs ss d (qs ++ e ∷ [])
    published-IsValid =
        let at = v.at_tail in
        let ne = NotIn-last e d qs (NotIn-waiting e gs ss d qs out) in
        let whole : nodes gs ss d qs ++ e ∷ [] ≡ nodes gs ss d (qs ++ e ∷ []) =
          append_assoc (gs ++ ss) (d ∷ qs) (e ∷ []) in
        record {
          chain = subst (Chain (links published.entries) f.garbage) whole (
              Chain-link (links f.entries) (links published.entries) f.garbage e d (gs ++ ss) qs
                (λ b h. ground arith) (ground arith) (ground arith) pos v.distinct v.chain);
          distinct = subst Distinct whole (Distinct-snoc (nodes gs ss d qs) e out v.distinct);
          at_head = v.at_head;
          at_snapshot = v.at_snapshot;
          at_tail = sym (last-append d e qs []);
          points =
              PointsToPair-snoc published.entries e qs (ground arith)
                (PointsToPair-value f.entries published.entries qs (λ b. ground arith) v.points);
        }

    pub contents-published :
        contents published (qs ++ e ∷ []) ≡ fifo (contents f qs) (f.entries e).pair
    unfolding contents pairs
    contents-published =
        let p : ℕ → _ = λ a. (f.entries a).pair in
        let p' : ℕ → _ = λ a. (published.entries a).pair in
        pairs-append p' qs (e ∷ [])
        ∙ ap₂ ◌++◌ (pairs-pair p p' qs (λ b. ground arith)) (ground arith)

pub contents-entries :
    (f f' : Fifo) (qs : List ℕ) → f'.entries ≡ f.entries → contents f' qs ≡ contents f qs
unfolding contents
contents-entries f f' qs e = ap (λ m. pairs (λ a. (m a).pair) qs) e

-- The snapshot is renewed when no garbage is left.
pub renewed-IsValid :
    {f : Fifo} {ss : List ℕ} {d : ℕ} {qs : List ℕ}
    → IsValid f [] ss d qs
    → IsValid (record f { head_snapshot = f.head }) ss [] d qs
renewed-IsValid {f} {ss} {d} {qs} v =
    let same : ss ++ d ∷ qs ≡ nodes ss [] d qs = ap (λ l. l ++ d ∷ qs) (sym (append-nil ss)) in
    record {
      chain = subst (Chain (links f.entries) f.garbage) same v.chain;
      distinct = subst Distinct same v.distinct;
      at_head = v.at_head;
      at_snapshot = v.at_head;
      at_tail = v.at_tail;
      points = v.points;
    }

-- The oldest entry leaves the chain.
pub taken-IsValid :
    {f : Fifo} {g : ℕ} {gs ss : List ℕ} {d : ℕ} {qs : List ℕ}
    → IsValid f (g ∷ gs) ss d qs
    → IsValid (record f { garbage = (f.entries f.garbage).next }) gs ss d qs
taken-IsValid {f} {gs} {ss} {d} {qs} v =
    let (at, pos, c) = v.chain in
    record {
      chain =
          subst (λ h. Chain (links f.entries) (links f.entries h) (nodes gs ss d qs)) (sym at) c;
      distinct = v.distinct.1;
      at_head = v.at_head;
      at_snapshot = v.at_snapshot;
      at_tail = v.at_tail;
      points = v.points;
    }

-- The stub is left to the producer, and the next entry becomes the stub.
pub advanced-IsValid :
    {f : Fifo} {gs ss : List ℕ} {d e : ℕ} {qs : List ℕ}
    → IsValid f gs ss d (e ∷ qs)
    → IsValid (record f { head = e }) gs (ss ++ d ∷ []) e qs
advanced-IsValid {f} {gs} {ss} {d} {e} {qs} v =
    let same : nodes gs ss d (e ∷ qs) ≡ nodes gs (ss ++ d ∷ []) e qs = simp append_assoc in
    record {
      chain = subst (Chain (links f.entries) f.garbage) same v.chain;
      distinct = subst Distinct same v.distinct;
      at_head = refl;
      at_snapshot = v.at_snapshot ∙ sym (first-snoc ss d e);
      at_tail = v.at_tail;
      points = v.points.1;
    }
