-- ===== src/Window.antt =====
-- Circular buffers: the cells of `n` consecutive positions, position `p` at index `p % cap`.
pub mod Slots
use native.Mathlib.Nat.{suc-mod}
use bpf_arena_data_structure.Base.{
  ℕ, zero, suc, ◌+◌, ◌-◌, ◌%◌, ◌≤◌, ◌<◌, ◌≡◌, refl, sym, ap, ap₂, ◌∙◌, ◌≢◌, List, [], ◌∷◌, ◌++◌,
  arith, length, get_or, set, get_or-set_self, get_or-set_ne, mod-lt, mod-add-ne,
}

module _ {ℓ} {A : Type ℓ} (d : A) (cells : List A) (cap : ℕ) where
  unfoldable pub window : ℕ → ℕ → List A
  window h zero = []
  window h (suc n) = get_or cells (h % cap) d ∷ window (suc h) n

  pub length-window : (h n : ℕ) → length (window h n) ≡ n
  unfolding window
  length-window h zero = refl
  length-window h (suc n) = ap suc (length-window (suc h) n)

  pub window-ne_zero :
      (h n : ℕ) → n ≢ 0 → window h n ≡ get_or cells (h % cap) d ∷ window (suc h) (n - 1)
  unfolding window
  window-ne_zero h zero p = absurd (p refl)
  window-ne_zero h (suc n) p = ap (λ k. window h (suc k)) (omega arith)

  -- Only the remainder of the first position matters.
  pub window-mod : (h k n : ℕ) → h % cap ≡ k % cap → window h n ≡ window k n
  unfolding window
  window-mod h k zero e = refl
  window-mod h k (suc n) e =
      ap₂ ◌∷◌ (ap (λ i. get_or cells i d) e) (
        window-mod (suc h) (suc k) n
          (suc-mod h cap ∙ ap (λ i. suc i % cap) e ∙ sym (suc-mod k cap)))

  -- One more position adds its cell at the end.
  pub window-snoc : (h n : ℕ) → window h (suc n) ≡ window h n ++ get_or cells ((h + n) % cap) d ∷ []
  unfolding window
  window-snoc h zero = ap (λ i. get_or cells (i % cap) d ∷ []) (omega arith)
  window-snoc h (suc n) =
      ap (λ l. get_or cells (h % cap) d ∷ l)
        (window-snoc (suc h) n
          ∙ ap (λ i. window (suc h) n ++ get_or cells (i % cap) d ∷ []) (omega arith))

module _ {ℓ} {A : Type ℓ} (d : A) (cells : List A) (cap : ℕ) where
  -- A write outside the window leaves it.
  pub window-set_out :
      (h n i : ℕ) (x : A)
      → ((j : ℕ) → j < n → i ≢ (h + j) % cap)
      → window d (set cells i x) cap h n ≡ window d cells cap h n
  unfolding window
  window-set_out h zero i x out = refl
  window-set_out h (suc n) i x out =
      ap₂ ◌∷◌
        (get_or-set_ne cells i (h % cap) x d
          (λ e. out 0 (omega arith) (e ∙ ap (λ t. t % cap) (omega arith))))
        (window-set_out (suc h) n i x
          (λ j lt. λ e. out (suc j) (omega arith) (e ∙ ap (λ t. t % cap) (omega arith))))

  -- A write just behind a window that leaves room extends it.
  pub window-set :
      (h n i : ℕ) (x : A)
      → n < cap
      → cap ≤ length cells
      → i ≡ (h + n) % cap
      → window d (set cells i x) cap h (suc n) ≡ window d cells cap h n ++ x ∷ []
  unfolding window
  window-set h zero i x room fits e =
      ap (λ v. v ∷ [])
        (ap (λ k. get_or (set cells i x) k d) (sym at)
          ∙ get_or-set_self cells i x d (omega (arith, at, mod-lt h room)))
    where
      at : i ≡ h % cap
      at = e ∙ ap (λ t. t % cap) (omega arith)
  window-set h (suc n) i x room fits e =
      ap₂ ◌∷◌
        (get_or-set_ne cells i (h % cap) x d (rw e (mod-add-ne h (suc n) cap (omega arith) room)))
        (window-set (suc h) n i x (omega arith) fits (e ∙ ap (λ t. t % cap) (omega arith)))
