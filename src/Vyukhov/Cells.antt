-- ===== src/Vyukhov/Cells.antt =====
-- The cells of a Vyukhov queue as `ds_vyukhov_init` finds and numbers them.
use bpf_arena_data_structure.Base.{
  ℕ, zero, suc, ◌+◌, ◌*◌, ◌≤◌, ◌<◌, ◌≡◌, refl, true, List, [], ◌∷◌, length-set, arith, ltb, length,
  ap, sym, ◌∙◌, ℕ_discrete,
}
use bpf_arena_data_structure.Vyukhov.{Node, node, to_nodes, set_cell, number_cells}
use bpf_arena_data_structure.Vyukhov.Inv.{set_cell_self, set_cell_ne}

-- Three words make a node.
pub length-to_nodes : (n : ℕ) (words : List ℕ) → length words ≡ n * 3 → length (to_nodes words) ≡ n
unfolding to_nodes
length-to_nodes zero [] e = refl
length-to_nodes zero (s ∷ words) e = absurd (omega arith)
length-to_nodes (suc n) (s ∷ k ∷ x ∷ words) e = ap suc (length-to_nodes n words (omega arith))
length-to_nodes (suc n) (s ∷ k ∷ []) e = absurd (omega arith)
length-to_nodes (suc n) (s ∷ []) e = absurd (omega arith)
length-to_nodes (suc n) [] e = absurd (omega arith)

pub to_nodes_few : (words : List ℕ) → length (to_nodes words) * 3 ≤ length words
unfolding to_nodes
to_nodes_few (s ∷ k ∷ x ∷ words) = let ih = to_nodes_few words in omega arith
to_nodes_few (s ∷ k ∷ []) = omega arith
to_nodes_few (s ∷ []) = omega arith
to_nodes_few [] = omega arith

-- The loop of `ds_vyukhov_init` numbers the cells from `i` on, and leaves those before it.
pub length-number_cells :
    (rounds i c : ℕ) (cells : List Node) → length (number_cells rounds i c cells) ≡ length cells
unfolding number_cells
length-number_cells zero i c cells = refl
length-number_cells (suc rounds) i c cells =
    let n : Node = record { sequence = i; pair = (node cells i).pair } in
    let ih = length-number_cells rounds (i + 1) c (set_cell cells i n) in
    let e = length-set cells i n in ground arith

number_cells-before :
    (rounds i c : ℕ) (cells : List Node) (j : ℕ)
    → j < i
    → node (number_cells rounds i c cells) j ≡ node cells j
unfolding number_cells
number_cells-before zero i c cells j lt = refl
number_cells-before (suc rounds) i c cells j lt =
    let n : Node = record { sequence = i; pair = (node cells i).pair } in
    let ih = number_cells-before rounds (i + 1) c (set_cell cells i n) j (omega arith) in
    let e = set_cell_ne cells i j n (omega arith) in let same = ih ∙ e in ground arith

pub number_cells_at :
    (rounds i c : ℕ) (cells : List Node) (j : ℕ)
    → i ≤ j
    → j < c
    → c ≤ i + rounds
    → c ≤ length cells
    → (node (number_cells rounds i c cells) j).sequence ≡ j
unfolding number_cells
number_cells_at zero i c cells j ij jc r stored = absurd (omega arith)
number_cells_at (suc rounds) i c cells j ij jc r stored =
    let n : Node = record { sequence = i; pair = (node cells i).pair } in
    let below : ltb i c ≡ true = ground arith in
    rw below (elim (ℕ_discrete i j) [
      | yes e ↦
          ap (λ (m : Node). m.sequence)
            (number_cells-before rounds (i + 1) c (set_cell cells i n) j (omega arith)
              ∙ ap (node (set_cell cells i n)) (sym e)
              ∙ set_cell_self cells i n (omega arith))
          ∙ e
      | no ne ↦
          number_cells_at rounds (i + 1) c (set_cell cells i n) j (omega arith) jc (omega arith)
            (omega (arith, length-set cells i n))
    ])
