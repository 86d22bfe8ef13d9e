-- ===== src/Window/Slots.antt =====
-- Rings of `s` slots with a read index and a write index below `s`: the slots from the one up to
-- the other, going round at `s`. One slot stays empty, so that equal indices mean an empty ring.
use native.Mathlib.Nat.{mod-mod}
use bpf_arena_data_structure.Base.{
  ℕ, suc, ◌+◌, ◌-◌, ◌%◌, ◌≤◌, ◌<◌, ◌≡◌, sym, ap, ap₂, ◌∙◌, ◌≢◌, ◌↔◌, List, [], ◌∷◌, ◌++◌, arith,
  length, get_or, set, mod-eq_of_lt, mod-eq_of_eq, leb, ◌==◌, if◌then◌else◌, dec_lt, dec_le,
}
use bpf_arena_data_structure.Window.{window, length-window, window-set, window-mod}

unfoldable pub used : (s r w : ℕ) → ℕ
used s r w = if leb r w then w - r else w + s - r

-- The index after `i`, as a test.
pub next-eq_if : (s i : ℕ) → i < s → (i + 1) % s ≡ (if i + 1 == s then 0 else i + 1)
next-eq_if s i h = elim (dec_lt (i + 1) s) [
  | yes below ↦ ground (arith, mod-eq_of_lt below)
  | no last ↦ ground (arith, mod-eq_of_eq (i + 1) s 1 {c = 0} (omega arith) (omega arith))
]

module _ {s r w : ℕ} (read_in : r < s) (write_in : w < s) where
  pub used-lt : used s r w < s
  unfolding used
  used-lt = ground arith

  pub write-eq_mod : w ≡ (r + used s r w) % s
  unfolding used
  write-eq_mod = elim (dec_le r w) [
    | yes up ↦ ground (arith, mod-eq_of_lt write_in)
    | no round ↦ ground (arith, mod-eq_of_eq (w + s) s 1 {c = w} (omega arith) (omega arith))
  ]

  pub used-eq-mod : used s r w ≡ (w + s - r) % s
  unfolding used
  used-eq-mod = elim (dec_le r w) [
    | yes up ↦ ground (arith, mod-eq_of_eq (w + s - r) s 1 {c = w - r} (omega arith) (omega arith))
    | no round ↦ ground (arith, mod-eq_of_lt {n = w + s - r} {m = s})
  ]

  pub used-push : (w + 1) % s ≢ r → used s r ((w + 1) % s) ≡ suc (used s r w)
  unfolding used
  used-push free = ground (arith, next-eq_if s w)

  pub used-pop : r ≢ w → used s r w ≡ suc (used s ((r + 1) % s) w)
  unfolding used
  used-pop ne = ground (arith, next-eq_if s r)

  pub used-eq-zero_iff : (used s r w ≡ 0) ↔ (r ≡ w)
  unfolding used
  used-eq-zero_iff = ground arith

  pub used-eq-pred_iff : (used s r w ≡ s - 1) ↔ ((w + 1) % s ≡ r)
  unfolding used
  used-eq-pred_iff = ground (arith, next-eq_if s w)

module _ {ℓ} {A : Type ℓ} (d : A) where
  unfoldable pub slots : List A → (s r w : ℕ) → List A
  slots cells s r w = window d cells s r (used s r w)

  pub length-slots : (cells : List A) (s r w : ℕ) → length (slots cells s r w) ≡ used s r w
  unfolding slots
  length-slots cells s r w = length-window d cells s r (used s r w)

  pub slots-nil : (cells : List A) (s r : ℕ) → slots cells s r r ≡ []
  unfolding slots used window
  slots-nil cells s r = ground arith

  pub slots-push :
      (cells : List A) (s r w : ℕ) (x : A)
      → r < s
      → w < s
      → s ≤ length cells
      → (w + 1) % s ≢ r
      → slots (set cells w x) s r ((w + 1) % s) ≡ slots cells s r w ++ x ∷ []
  unfolding slots
  slots-push cells s r w x p q fits free =
      ap (window d (set cells w x) s r) (used-push p q free)
      ∙ window-set d cells s r (used s r w) w x (used-lt p q) fits (write-eq_mod p q)

  pub slots-pop :
      (cells : List A) (s r w : ℕ)
      → r < s
      → w < s
      → r ≢ w
      → slots cells s r w ≡ get_or cells r d ∷ slots cells s ((r + 1) % s) w
  unfolding slots window
  slots-pop cells s r w p q ne =
      ap (window d cells s r) (used-pop p q ne)
      ∙ ap₂ ◌∷◌ (ap (λ i. get_or cells i d) (mod-eq_of_lt p)) (
          window-mod d cells s (suc r) ((r + 1) % s) (used s ((r + 1) % s) w)
            (ap (λ i. i % s) (omega arith) ∙ sym (mod-mod (r + 1) s)))
