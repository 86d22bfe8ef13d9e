-- ===== src/CkFifoSpsc/Remove.antt =====
-- `ds_ck_fifo_spsc_pop`: the consumer moves the stub on, and reads the pair of the new stub.
use bpf_arena_data_structure.Base.{
  ℕ, ◌+◌, ◌-◌, ◌≡◌, refl, ◌↔◌, List, [], ◌∷◌, ◌++◌, none, some, arith, ap, ◌==◌, true, false,
}
use bpf_arena_data_structure.Api.{success, Out}
use bpf_arena_data_structure.Api.Queue
use bpf_arena_data_structure.Api.Queue.{Queue}
use bpf_arena_data_structure.Linked.{pairs}
use bpf_arena_data_structure.CkFifoSpsc.{Fifo, dequeue, isempty, delete, pop}
use bpf_arena_data_structure.CkFifoSpsc.Inv.{contents, IsValid, behind_head, advanced-IsValid}

abbrev pub rest : List ℕ → List ℕ
rest [] = []
rest (e ∷ es) = es

-- The entries that the consumer has left, and the stub, when it takes a pair.
abbrev pub left : List ℕ → ℕ → List ℕ → List ℕ
left ss d [] = ss
left ss d (e ∷ qs) = ss ++ d ∷ []

abbrev pub stub : ℕ → List ℕ → ℕ
stub d [] = d
stub d (e ∷ qs) = e

contents-cons :
    (f : Fifo) (e : ℕ) (qs : List ℕ) → contents f (e ∷ qs) ≡ (f.entries e).pair ∷ contents f qs
unfolding contents pairs
contents-cons f e qs = refl

contents-head :
    (f : Fifo) (e : ℕ) (qs : List ℕ) → contents (record f { head = e }) qs ≡ contents f qs
unfolding contents
contents-head f e qs = refl

contents-nil : (f : Fifo) → contents f [] ≡ []
unfolding contents pairs
contents-nil f = refl

-- `ds_ck_fifo_spsc_pop` on a valid queue takes the oldest pair, into the buffer if there is one, and
-- leaves the old stub to the producer, or answers DS_ERROR_NOT_FOUND and changes nothing; the queue
-- stays valid. `ds_ck_fifo_spsc_isempty` tells which.
pub ck_fifo_pop :
    (stray : ℕ) {f : Fifo} {gs ss : List ℕ} {d : ℕ} (qs : List ℕ) (out : Out)
    → IsValid f gs ss d qs
    → let (r, f', out') = pop stray f out in
      IsValid f' gs (left ss d qs) (stub d qs) (rest qs)
      × ((r, contents f' (rest qs), out') ≡ Queue.pop (contents f qs) out)
      × (f'.entries ≡ f.entries)
      × ((isempty f ≡ true) ↔ (contents f qs ≡ []))
unfolding pop delete dequeue isempty Queue.pop
ck_fifo_pop stray {f} [] out v =
    let next = behind_head v in
    let empty : ((f.entries f.head).next == 0) ≡ true = ground arith in
    rw (empty, contents-nil f) (v, refl, refl, (λ h. refl, λ h. refl))
ck_fifo_pop stray {f} (e ∷ qs) none v =
    let (next, pos, _) = behind_head v in
    let linked : (e == 0) ≡ false = ground arith in
    rw (next, linked, contents-cons f e qs)
      (
        advanced-IsValid v,
        ap (λ c. (success, c, none)) (contents-head f e qs),
        refl,
        (λ h. cc, λ h. cc),
      )
ck_fifo_pop stray {f} (e ∷ qs) (some old) v =
    let (next, pos, _) = behind_head v in
    let linked : (e == 0) ≡ false = ground arith in
    let value : (f.entries e).value ≡ e + 16 = v.points.0 in
    let payload : (e + 16 == 0) ≡ false = ground arith in
    let back : e + 16 - 16 ≡ e = omega arith in
    rw (next, linked, value, payload, back, contents-cons f e qs)
      (
        advanced-IsValid v,
        ap (λ c. (success, c, some (f.entries e).pair)) (contents-head f e qs),
        refl,
        (λ h. cc, λ h. cc),
      )
