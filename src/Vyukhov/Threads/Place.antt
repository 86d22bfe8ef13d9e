-- ===== src/Vyukhov/Threads/Place.antt =====
-- Which positions share a cell, and what a write to a cell does to the others.
use bpf_arena_data_structure.Base.{
  ℕ, zero, suc, ◌+◌, ◌-◌, ◌%◌, ◌≤◌, ◌<◌, ◌≡◌, ◌≢◌, refl, List, [], ◌∷◌, ◌++◌, length, arith, ap,
  sym, ◌∙◌, mod-eq-sub-mod, mod-add-ne, mod-lt, bit_and, dec_lt,
}
use bpf_arena_data_structure.Bits.{IsPow2, bit_and_pow2}
use bpf_arena_data_structure.Api.{Kv}
use bpf_arena_data_structure.Vyukhov.{node, Node, Head, slot}
use bpf_arena_data_structure.Vyukhov.Inv.{set_cell_self, set_cell_ne}
use bpf_arena_data_structure.Vyukhov.Threads.{at, put}
use bpf_arena_data_structure.Vyukhov.Threads.Inv.{claim, Shared}

module _ (h : Head) (pow2 : IsPow2 (h.buffer_mask + 1)) where
  slot_mod : (p : ℕ) → slot h p ≡ p % (h.buffer_mask + 1)
  slot_mod p = ap (bit_and p) (omega arith) ∙ bit_and_pow2 (h.buffer_mask + 1) p pow2

  -- A lap later the same cell comes again, and not before.
  pub slot_lap : (p : ℕ) → slot h (p + h.buffer_mask + 1) ≡ slot h p
  slot_lap p =
      slot_mod (p + h.buffer_mask + 1)
      ∙ mod-eq-sub-mod (omega arith)
      ∙ ap (λ i. i % (h.buffer_mask + 1)) (omega arith)
      ∙ sym (slot_mod p)

  slot_lt : (p q : ℕ) → p < q → q ≤ p + h.buffer_mask → slot h p ≢ slot h q
  slot_lt p q lt le e =
      mod-add-ne p (q - p) (h.buffer_mask + 1) (omega arith) (omega arith)
        (ap (λ i. i % (h.buffer_mask + 1)) (omega arith) ∙ sym (slot_mod q) ∙ sym e ∙ slot_mod p)

  pub slot_ne :
      (d p q : ℕ)
      → d ≤ p
      → p ≤ d + h.buffer_mask
      → d ≤ q
      → q ≤ d + h.buffer_mask
      → p ≢ q
      → slot h p ≢ slot h q
  slot_ne d p q dp pd dq qd ne = elim (dec_lt p q) [
    | yes lt ↦ slot_lt p q lt (omega arith)
    | no ge ↦ λ e. slot_lt q p (omega arith) (omega arith) (sym e)
  ]

  pub at_lap : (p : ℕ) → at h (p + h.buffer_mask + 1) ≡ at h p
  at_lap p = ap (node h.cells) (slot_lap p)

pub put_self :
    {h : Head} {claims : List Kv} (s : Shared h claims) (p : ℕ) (n : Node) → at (put h p n) p ≡ n
put_self {h} s p n =
    let two = s.two in
    let stored = s.storage in
    let lt : p % (h.buffer_mask + 1) < h.buffer_mask + 1 = mod-lt p (omega arith) in
    set_cell_self h.cells (slot h p) n (omega (arith, slot_mod h s.pow2 p))

pub put_ne : (h : Head) (p q : ℕ) (n : Node) → slot h q ≢ slot h p → at (put h p n) q ≡ at h q
put_ne h p q n ne = set_cell_ne h.cells (slot h p) (slot h q) n ne

-- A further claim leaves the earlier ones.
pub claim-append :
    (claims new : List Kv) (p : ℕ) → p < length claims → claim (claims ++ new) p ≡ claim claims p
claim-append [] new p lt = absurd (omega arith)
claim-append (x ∷ claims) new zero lt = refl
claim-append (x ∷ claims) new (suc p) lt = claim-append claims new p (omega arith)

pub claim_last : (claims : List Kv) (x : Kv) → claim (claims ++ x ∷ []) (length claims) ≡ x
claim_last [] x = refl
claim_last (y ∷ claims) x = claim_last claims x
