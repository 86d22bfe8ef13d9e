-- ===== src/Vyukhov/Threads/Account.antt =====
-- What holds of all threads together, and where each claimed position is.
use bpf_arena_data_structure.Base.{
  ℕ, ◌≤◌, ◌<◌, ◌≡◌, ◌≢◌, ◌⊎◌, inl, inr, some, List, [], ◌∷◌, ◌++◌, arith, ap, sym, ◌∙◌, ℕ_discrete,
  dec_lt,
}
use bpf_arena_data_structure.Api.{Kv}
use bpf_arena_data_structure.Vyukhov.{Head}
use bpf_arena_data_structure.Vyukhov.Threads.{Producer, Consumer, System, move, at}
use bpf_arena_data_structure.Vyukhov.Threads.Inv.{
  claim, Shared, ProducerInv, ConsumerInv, writer, reader, NotIn, TakenIn,
}
use bpf_arena_data_structure.Vyukhov.Threads.Family.{move_self, move_ne, move_all}
use bpf_arena_data_structure.Vyukhov.Threads.Producing
use bpf_arena_data_structure.Vyukhov.Threads.Consuming
use bpf_arena_data_structure.Vyukhov.Threads.Consuming.{Consume-Outcome, Took, nothing, one}

-- What was taken, below dequeue_pos, and no longer with a consumer.
abbrev pub Gone : Head → List Kv → (ℕ → Consumer) → List (ℕ × Kv) → Type 0
Gone h claims cs [] = Unit
Gone h claims cs ((p, x) ∷ l) =
    (p < h.dequeue_pos)
    × (claim claims p ≡ x)
    × ((i : ℕ) → reader (cs i) ≢ some p)
    × NotIn p l
    × Gone h claims cs l

pub record Inv (s : System) : Type 0 where
  pub shared : Shared s.head s.claims
  pub producers : (i : ℕ) → ProducerInv s.head s.claims (s.producers i)
  pub consumers : (i : ℕ) → ConsumerInv s.head s.claims (s.consumers i)
  pub one_writer :
      (i j w : ℕ) → i ≢ j → writer (s.producers i) ≡ some w → writer (s.producers j) ≢ some w
  pub one_reader :
      (i j r : ℕ) → i ≢ j → reader (s.consumers i) ≡ some r → reader (s.consumers j) ≢ some r
  pub gone : Gone s.head s.claims s.consumers s.received
  pub accounted :
      (p : ℕ)
      → p < s.head.dequeue_pos
      → TakenIn p s.received ⊎ ((i : ℕ) × (reader (s.consumers i) ≡ some p))
  -- A claimed cell that carries no pair yet is with a producer.
  pub unpublished :
      (p : ℕ)
      → s.head.dequeue_pos ≤ p
      → p < s.head.enqueue_pos
      → (at s.head p).sequence ≡ p
      → (i : ℕ) × (writer (s.producers i) ≡ some p)

pub Gone-keep :
    (h h' : Head) (claims claims' : List Kv) (cs cs' : ℕ → Consumer) (l : List (ℕ × Kv))
    → h.dequeue_pos ≤ h'.dequeue_pos
    → ((p : ℕ) → p < h.dequeue_pos → claim claims' p ≡ claim claims p)
    → ((p i : ℕ) → p < h.dequeue_pos → ((j : ℕ) → reader (cs j) ≢ some p) → reader (cs' i) ≢ some p)
    → Gone h claims cs l
    → Gone h' claims' cs' l
Gone-keep h h' claims claims' cs cs' [] le same free g = tt
Gone-keep h h' claims claims' cs cs' ((p, x) ∷ l) le same free (lt, e, none_left, fresh, g) = (
  omega arith,
  same p lt ∙ e,
  λ i. free p i lt none_left,
  fresh,
  Gone-keep h h' claims claims' cs cs' l le same free g,
)

-- A position that a consumer owns was not taken yet.
pub owned_fresh :
    (h : Head) (claims : List Kv) (cs : ℕ → Consumer) (i p : ℕ) (l : List (ℕ × Kv))
    → reader (cs i) ≡ some p
    → Gone h claims cs l
    → NotIn p l
owned_fresh h claims cs i p [] e g = tt
owned_fresh h claims cs i p ((q, x) ∷ l) e (lt, c, free, fresh, g) =
    (λ pq. free i (e ∙ ap some pq), owned_fresh h claims cs i p l e g)

-- What a consumer's step takes comes before what was taken.
pub Gone-took :
    (s : System) (i : ℕ) {h : Head} {c : Consumer} {out : List (ℕ × Kv)}
    → Inv s
    → Consuming.Outcome s.head s.claims (s.consumers i) h c out
    → Took h s.claims (s.consumers i) c out
    → Gone h s.claims (move s.consumers i c) s.received
    → Gone h s.claims (move s.consumers i c) (out ++ s.received)
Gone-took s i inv o nothing g = g
Gone-took s i {h} {c} inv o (one {p} {x} e free lt same) g = (
  lt,
  same,
  move_all (λ k. reader k ≢ some p) s.consumers i c (free p)
      (λ j ne. inv.one_reader i j p (λ ij. ne (sym ij)) e),
  owned_fresh s.head s.claims s.consumers i p s.received e inv.gone,
  g,
)

TakenIn-append :
    (p : ℕ) (out l : List (ℕ × Kv)) → TakenIn p out ⊎ TakenIn p l → TakenIn p (out ++ l)
unfolding TakenIn
TakenIn-append p [] l (inl i) = absurd i
TakenIn-append p [] l (inr i) = i
TakenIn-append p ((q, x) ∷ out) l (inl (inl e)) = inl e
TakenIn-append p ((q, x) ∷ out) l (inl (inr i)) = inr (TakenIn-append p out l (inl i))
TakenIn-append p ((q, x) ∷ out) l (inr i) = inr (TakenIn-append p out l (inr i))

-- A position below dequeue_pos stays accounted for.
pub accounted-consume :
    (s : System) (i : ℕ) {h : Head} {c : Consumer} {out : List (ℕ × Kv)}
    → Inv s
    → Consuming.Outcome s.head s.claims (s.consumers i) h c out
    → (p : ℕ) → p < h.dequeue_pos
    → TakenIn p (out ++ s.received) ⊎ ((j : ℕ) × (reader (move s.consumers i c j) ≡ some p))
accounted-consume s i {h} {c} {out} inv o p lt = elim (dec_lt p s.head.dequeue_pos) [
  | no ge ↦ inr (i, ap reader (move_self s.consumers i c) ∙ o.gains p (omega arith) lt)
  | yes old ↦ elim (inv.accounted p old) [
    | inl taken ↦ inl (TakenIn-append p out s.received (inr taken))
    | inr (j, e) ↦ elim (ℕ_discrete j i) [
      | no ne ↦ inr (j, ap reader (move_ne s.consumers i j c ne) ∙ e)
      | yes ji ↦ elim (o.keeps p (sym (ap (λ k. reader (s.consumers k)) ji) ∙ e)) [
        | inl still ↦ inr (i, ap reader (move_self s.consumers i c) ∙ still)
        | inr now ↦ inl (TakenIn-append p out s.received (inl now))
      ]
    ]
  ]
]

pub unpublished-produce :
    (s : System) (i : ℕ) {h : Head} {p : Producer} {claims : List Kv}
    → Inv s
    → Producing.Outcome s.head s.claims (s.producers i) h claims p
    → (w : ℕ) → h.dequeue_pos ≤ w
    → w < h.enqueue_pos
    → (at h w).sequence ≡ w
    → (j : ℕ) × (writer (move s.producers i p j) ≡ some w)
unpublished-produce s i {h} {p} inv o w le lt e = elim (o.filler w le lt e) [
  | inl now ↦ (i, ap writer (move_self s.producers i p) ∙ now)
  | inr (other, less, free) ↦
      let front = o.front in
      let (j, owns) = inv.unpublished w (omega arith) less free in
      (
        j,
        ap writer (
              move_ne s.producers i j p
                (λ ji. other (sym (ap (λ k. writer (s.producers k)) ji) ∙ owns)))
            ∙ owns,
      )
]
