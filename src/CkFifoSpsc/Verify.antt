-- ===== src/CkFifoSpsc/Verify.antt =====
-- `ds_ck_fifo_spsc_init` and `ds_ck_fifo_spsc_verify`.
use bpf_arena_data_structure.Base.{
  ℕ, zero, suc, ◌<◌, ◌≡◌, refl, ◌⊎◌, inl, inr, List, [], ◌∷◌, ◌++◌, length, min, arith, ◌∙◌, ltb,
  ◌==◌, true, false, if◌then◌else◌, ℕ_discrete, subst,
}
use bpf_arena_data_structure.Api.{success, nomem, corrupt, Allocator}
use bpf_arena_data_structure.Linked.{Chain, Distinct, pairs, last, NotIn-last}
use bpf_arena_data_structure.CkFifoSpsc.{Entry, Fifo, fifo_init, init, verify_loop, verify}
use bpf_arena_data_structure.CkFifoSpsc.Inv.{links, contents, IsValid, head_pos, behind_head}

-- `ds_ck_fifo_spsc_init` leaves a valid, empty queue on a stub from the arena, whatever was in the
-- head, or answers DS_ERROR_NOMEM and changes nothing.
ck_fifo_init-IsValid :
    (a : Allocator) (s : a.State) (f : Fifo)
    → let (r, f', _) = init a s f in
      let stub = (a.alloc s 32).0 in
      ((stub ≡ 0) × (r ≡ nomem) × (f' ≡ f))
      ⊎ ((r ≡ success) × IsValid f' [] [] stub [] × (contents f' [] ≡ []))
unfolding init fifo_init contents pairs
ck_fifo_init-IsValid a s f = elim (ℕ_discrete (a.alloc s 32).0 0) [
  | yes e ↦
      let null : ((a.alloc s 32).0 == 0) ≡ true = ground arith in rw null (inl (e, refl, refl))
  | no ne ↦
      let got : ((a.alloc s 32).0 == 0) ≡ false = ground arith in
      rw got (
        inr (
          refl,
          record {
            chain = (refl, omega arith, ground arith);
            distinct = (tt, tt);
            at_head = refl;
            at_snapshot = refl;
            at_tail = refl;
            points = tt;
          },
          refl,
        ))
]

-- The walk from an entry of the chain to the last one.
verify_loop-Chain :
    (rounds : ℕ) (m : ℕ → Entry) (e : ℕ) (es : List ℕ)
    → Chain (links m) (links m e) es
    → Distinct (e ∷ es)
    → verify_loop rounds m e (last e es) ≡ (if ltb (length es) rounds then success else corrupt)
unfolding verify_loop
verify_loop-Chain zero m e es c d = let no : ltb (length es) 0 ≡ false = ground arith in rw no refl
verify_loop-Chain (suc rounds) m e [] c d = ground arith
verify_loop-Chain (suc rounds) m e (f ∷ es) (at, pos, c) (n, d) =
    let ne = NotIn-last e f es n in
    let here : (e == last f es) ≡ false = ground arith in
    let more : (f == 0) ≡ false = ground arith in
    rw (here, at, more) (verify_loop-Chain rounds m f es c d ∙ ground arith)

start_pos : (next : ℕ → ℕ) (h t : ℕ) (front lag : List ℕ) → Chain next h (front ++ t ∷ lag) → 0 < h
start_pos next h t [] lag (at, pos, c) = omega arith
start_pos next h t (e ∷ front) lag (at, pos, c) = omega arith

last_pos : (next : ℕ → ℕ) (h e : ℕ) (es : List ℕ) → Chain next h (e ∷ es) → 0 < last e es
last_pos next h e [] (at, pos, c) = pos
last_pos next h e (f ∷ es) (at, pos, c) = last_pos next (next e) f es c

Distinct-right : (xs ys : List ℕ) → Distinct (xs ++ ys) → Distinct ys
Distinct-right [] ys d = d
Distinct-right (x ∷ xs) ys (n, d) = Distinct-right xs ys d

-- In a valid queue `ds_ck_fifo_spsc_verify` accepts exactly when fewer pairs wait than `max_steps`
-- and than the rounds that `can_loop` allows; otherwise it answers DS_ERROR_CORRUPT.
pub ck_fifo_verify :
    (rounds : ℕ) {f : Fifo} {gs ss : List ℕ} {d : ℕ} {qs : List ℕ}
    → IsValid f gs ss d qs
    → verify rounds f ≡ (if ltb (length qs) (min rounds 100000) then success else corrupt)
unfolding verify
ck_fifo_verify rounds {f} {gs} {ss} {d} {qs} v =
    let head = v.at_head in
    let tail = v.at_tail in
    let h_pos = head_pos v in
    let g_pos = start_pos (links f.entries) f.garbage d (gs ++ ss) qs v.chain in
    let t_pos = last_pos (links f.entries) d d qs (refl, h_pos, waiting) in
    let head_set : (f.head == 0) ≡ false = ground arith in
    let tail_set : (f.tail == 0) ≡ false = ground arith in
    let garbage_set : (f.garbage == 0) ≡ false = ground arith in
    rw (head_set, tail_set, garbage_set, head, tail)
      (verify_loop-Chain (min rounds 100000) f.entries d qs waiting
        (Distinct-right (gs ++ ss) (d ∷ qs) v.distinct))
  where
    waiting : Chain (links f.entries) (f.entries d).next qs
    waiting = subst (λ h. Chain (links f.entries) (links f.entries h) qs) v.at_head (behind_head v)
