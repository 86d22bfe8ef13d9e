-- ===== src/Relay/Cases.antt =====
-- What the refinement of a bounded queue says of one call on a lane.
use bpf_arena_data_structure.Base.{
  ℕ, ◌≡◌, ◌≢◌, refl, ◌⊎◌, inl, inr, true, false, some, none, [], ◌∷◌, length, arith, ap, sym, ◌∙◌,
  ℕ_discrete, ◌==◌,
}
use bpf_arena_data_structure.Api.{DsResult, success, full, Kv, Out}
use bpf_arena_data_structure.Api.Queue
use bpf_arena_data_structure.Api.Queue.{Queue, fifo}

-- What the buffer holds after a pop.
abbrev pub buffer : Out → Kv → Kv
buffer none old = old
buffer (some x) old = x

pub pop_cases :
    (q : Queue) (r : DsResult × Queue × Out) (old : Kv)
    → r ≡ Queue.pop q (some old)
    → ((r.0 ≡ success) × (q ≡ buffer r.2 old ∷ r.1)) ⊎ ((r.0 ≢ success) × (q ≡ []) × (r.1 ≡ []))
unfolding Queue.pop
pop_cases [] r old e = inr (
  (λ s. ground (arith, ap (λ (t : DsResult × Queue × Out). t.0) e)),
  refl,
  ap (λ (t : DsResult × Queue × Out). t.1) e,
)
pop_cases (x ∷ q) r old e = inl (
  ap (λ (t : DsResult × Queue × Out). t.0) e,
  sym (ap (λ (t : DsResult × Queue × Out). buffer t.2 old ∷ t.1) e),
)

pub insert_cases :
    (q : Queue) (r : DsResult × Queue) (cap : ℕ) (error : DsResult) (x : Kv)
    → error ≢ success
    → r ≡ Queue.insert fifo cap error q x
    → ((r.0 ≡ success) × (r.1 ≡ fifo q x)) ⊎ ((r.0 ≢ success) × (r.1 ≡ q))
unfolding Queue.insert
insert_cases q r cap error x refused e = elim (ℕ_discrete (length q) cap) [
  | yes f ↦
      let is_full : (length q == cap) ≡ true = ground arith in
      let e' : r ≡ (error, q) = e ∙ rw is_full refl in
      inr (
        (λ s. refused (sym (ap (λ (t : DsResult × Queue). t.0) e') ∙ s)),
        ap (λ (t : DsResult × Queue). t.1) e',
      )
  | no ne ↦
      let not_full : (length q == cap) ≡ false = ground arith in
      let e' : r ≡ (success, fifo q x) = e ∙ rw not_full refl in
      inl (ap (λ (t : DsResult × Queue). t.0) e', ap (λ (t : DsResult × Queue). t.1) e')
]

pub full-ne-success : full ≢ success
full-ne-success e = cc
