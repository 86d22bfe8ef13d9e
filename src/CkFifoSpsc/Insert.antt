-- ===== src/CkFifoSpsc/Insert.antt =====
-- `ds_ck_fifo_spsc_insert`: an entry taken back or allocated, filled and published.
use bpf_arena_data_structure.Base.{
  ℕ, ◌+◌, ◌<◌, ◌≡◌, refl, ◌⊎◌, inl, inr, List, [], ◌∷◌, ◌++◌, append-nil, arith, ap, ap₂, subst,
  sym, ◌∙◌, ◌==◌, true, false, ℕ_discrete,
}
use bpf_arena_data_structure.Api.{success, nomem, Kv, Allocator}
use bpf_arena_data_structure.Api.Queue.{fifo}
use bpf_arena_data_structure.Linked.{NotIn}
use bpf_arena_data_structure.CkFifoSpsc.{
  Fifo, kv_offset, set_value, set_next, set_pair, recycle, enqueue, fill, insert,
}
use bpf_arena_data_structure.CkFifoSpsc.Inv.{
  nodes, contents, contents-entries, IsValid, NotIn-first, outside-IsValid, contents-outside,
  published-IsValid, contents-published, renewed-IsValid, taken-IsValid,
}

-- The oldest entry that the consumer has left is taken back, if there is one.
pub recycle_lem :
    {f : Fifo} (gs ss : List ℕ) {d : ℕ} {qs : List ℕ}
    → IsValid f gs ss d qs
    → let (e, f') = recycle f in
      (gs' : List ℕ) × (ss' : List ℕ) × IsValid f' gs' ss' d qs
      × (f'.entries ≡ f.entries)
      × (((gs ++ ss ≡ []) × (e ≡ 0) × (gs' ++ ss' ≡ []))
          ⊎ ((gs ++ ss ≡ e ∷ (gs' ++ ss')) × (0 < e) × NotIn e (nodes gs' ss' d qs)))
unfolding recycle
recycle_lem {f} [] [] {d} v =
    let snap = v.at_snapshot in
    let head = v.at_head in
    let at = v.chain.0 in
    let same : (f.head_snapshot == f.garbage) ≡ true = ground arith in
    let still : (f.head == f.garbage) ≡ true = ground arith in
    rw (same, still) ([], [], renewed-IsValid v, refl, inl (refl, refl, refl))
recycle_lem {f} [] (s ∷ ss) {d} {qs} v =
    let r = renewed-IsValid v in
    let snap = v.at_snapshot in
    let head = v.at_head in
    let (at, pos, _) = v.chain in
    let ne = NotIn-first s ss [] d qs r.distinct.0 in
    let same : (f.head_snapshot == f.garbage) ≡ true = ground arith in
    let moved : (f.head == f.garbage) ≡ false = ground arith in
    rw (same, moved)
      (
        ss,
        [],
        taken-IsValid r,
        refl,
        inr (
          ap₂ ◌∷◌ (sym at) (sym (append-nil ss)),
          omega arith,
          subst (λ h. NotIn h (nodes ss [] d qs)) (sym at) r.distinct.0,
        ),
      )
recycle_lem {f} (g ∷ gs) ss {d} {qs} v =
    let snap = v.at_snapshot in
    let (at, pos, _) = v.chain in
    let ne = NotIn-first g gs ss d qs v.distinct.0 in
    let other : (f.head_snapshot == f.garbage) ≡ false = ground arith in
    rw other (
      gs,
      ss,
      taken-IsValid v,
      refl,
      inr (
        ap (λ h. h ∷ (gs ++ ss)) (sym at),
        omega arith,
        subst (λ h. NotIn h (nodes gs ss d qs)) (sym at) v.distinct.0,
      ),
    )

-- Filling an entry outside the chain and publishing it puts its pair behind the others.
fill_lem :
    {f : Fifo} {gs ss : List ℕ} {d : ℕ} {qs : List ℕ} (e : ℕ) (x : Kv)
    → IsValid f gs ss d qs
    → 0 < e
    → NotIn e (nodes gs ss d qs)
    → let f' = fill f e x.key x.value in
      IsValid f' gs ss d (qs ++ e ∷ []) × (contents f' (qs ++ e ∷ []) ≡ fifo (contents f qs) x)
unfolding fill enqueue
fill_lem {f} {gs} {ss} {d} {qs} e x v pos out =
    let m = set_next (set_value (set_pair f.entries e x) e (e + kv_offset)) e 0 in
    let ve = outside-IsValid v m e (λ b ne. ground arith) out in
    let ce = contents-outside v m e (λ b ne. ground arith) out in
    (
      published-IsValid ve e pos out (ground arith) (ground arith),
      contents-published ve e pos out (ground arith) (ground arith) ∙ ap₂ fifo ce (ground arith),
    )

-- `ds_ck_fifo_spsc_insert` on a valid queue: an entry that the consumer has left is used again, the
-- oldest first, and no memory is requested; if there is none, a fresh one is allocated, or the call
-- answers DS_ERROR_NOMEM and leaves the pairs. Otherwise the pair stands behind the others. The queue
-- stays valid.
pub ck_fifo_insert :
    (a : Allocator) (s : a.State) {f : Fifo} (gs ss : List ℕ) {d : ℕ} {qs : List ℕ} (x : Kv)
    → IsValid f gs ss d qs
    → NotIn (a.alloc s 32).0 (nodes gs ss d qs)
    → let (r, f', s') = insert a s f x.key x.value in
      (gs' : List ℕ) × (ss' : List ℕ) × (((gs ++ ss ≡ [])
          × ((a.alloc s 32).0 ≡ 0)
          × (r ≡ nomem)
          × IsValid f' gs' ss' d qs
          × (gs' ++ ss' ≡ [])
          × (contents f' qs ≡ contents f qs))
        ⊎ ((e : ℕ) × (r ≡ success)
            × IsValid f' gs' ss' d (qs ++ e ∷ [])
            × (contents f' (qs ++ e ∷ []) ≡ fifo (contents f qs) x)
            × (((gs ++ ss ≡ e ∷ (gs' ++ ss')) × (s' ≡ s))
                ⊎ ((gs ++ ss ≡ []) × (gs' ++ ss' ≡ []) × (e ≡ (a.alloc s 32).0)))))
unfolding insert
ck_fifo_insert a s {f} gs ss {d} {qs} x v out =
    let (gs', ss', v', same, r) = recycle_lem gs ss v in
    let kept = contents-entries f (recycle f).1 qs same in
    elim r [
      | inl (none_left, zero, nothing) ↦
          let null : ((recycle f).0 == 0) ≡ true = ground arith in
          elim (ℕ_discrete (a.alloc s 32).0 0) [
            | yes e ↦
                let null' : ((a.alloc s 32).0 == 0) ≡ true = ground arith in
                rw (null, null') (gs', ss', inl (none_left, e, refl, v', nothing, kept))
            | no ne ↦
                let some' : ((a.alloc s 32).0 == 0) ≡ false = ground arith in
                let out' : NotIn (a.alloc s 32).0 (nodes gs' ss' d qs) =
                  subst (λ l. NotIn (a.alloc s 32).0 (l ++ d ∷ qs)) (none_left ∙ sym nothing) out in
                let (vf, cf) = fill_lem (a.alloc s 32).0 x v' (omega arith) out' in
                rw (null, some')
                  (
                    gs',
                    ss',
                    inr (
                      (a.alloc s 32).0,
                      refl,
                      vf,
                      cf ∙ ap (λ c. fifo c x) kept,
                      inr (none_left, nothing, refl),
                    ),
                  )
          ]
      | inr (olds, pos, out') ↦
          let some' : ((recycle f).0 == 0) ≡ false = ground arith in
          let (vf, cf) = fill_lem (recycle f).0 x v' pos out' in
          rw some' (
            gs',
            ss',
            inr ((recycle f).0, refl, vf, cf ∙ ap (λ c. fifo c x) kept, inl (olds, refl)),
          )
    ]
