-- ===== src/Vyukhov/Threads/Family.antt =====
-- Families of threads in which one thread moves.
use bpf_arena_data_structure.Base.{
  ℕ, ◌≡◌, ◌≢◌, Option, some, arith, ap, sym, subst, ◌∙◌, ℕ_discrete,
}
use bpf_arena_data_structure.Vyukhov.Threads.{move}

pub move_self : {A : Type 0} (f : ℕ → A) (i : ℕ) (a : A) → move f i a i ≡ a
move_self f i a = ground arith

pub move_ne : {A : Type 0} (f : ℕ → A) (i j : ℕ) (a : A) → j ≢ i → move f i a j ≡ f j
move_ne f i j a ne = ground arith

-- What holds of the moved thread and of the others holds of all.
pub move_all :
    {A : Type 0} (P : A → Type 0) (f : ℕ → A) (i : ℕ) (a : A)
    → P a
    → ((j : ℕ) → j ≢ i → P (f j))
    → (j : ℕ) → P (move f i a j)
move_all P f i a self others j = elim (ℕ_discrete j i) [
  | yes e ↦ subst P (sym (ap (move f i a) e ∙ move_self f i a)) self
  | no ne ↦ subst P (sym (move_ne f i j a ne)) (others j ne)
]

-- A family of threads in which two own one position no more than before: the moved thread keeps its
-- position or takes one that no other has.
pub move_distinct :
    {A : Type 0} (owner : A → Option ℕ) (f : ℕ → A) (i : ℕ) (a : A)
    → ((j k w : ℕ) → j ≢ k → owner (f j) ≡ some w → owner (f k) ≢ some w)
    → ((w : ℕ) → owner a ≡ some w → (j : ℕ) → j ≢ i → owner (f j) ≢ some w)
    → (j k w : ℕ) → j ≢ k
    → owner (move f i a j) ≡ some w
    → owner (move f i a k) ≢ some w
move_distinct owner f i a old new j k w ne e g = elim (ℕ_discrete j i) [
  | yes ji ↦
      new w (sym (ap owner (ap (move f i a) ji ∙ move_self f i a)) ∙ e) k (λ ki. ne (ji ∙ sym ki))
        (sym (ap owner (move_ne f i k a (λ ki. ne (ji ∙ sym ki)))) ∙ g)
  | no nj ↦ elim (ℕ_discrete k i) [
    | yes ki ↦
        new w (sym (ap owner (ap (move f i a) ki ∙ move_self f i a)) ∙ g) j nj
          (sym (ap owner (move_ne f i j a nj)) ∙ e)
    | no nk ↦
        old j k w ne (sym (ap owner (move_ne f i j a nj)) ∙ e)
          (sym (ap owner (move_ne f i k a nk)) ∙ g)
  ]
]
