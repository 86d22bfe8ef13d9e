-- ===== src/Arena/User/Free.antt =====
-- `bpf_arena_free` and the counters of the pages.
use native.Mathlib.Nat.{add-mod, add-mod_right, div-add-mod, mul_comm, zero-mod}
use bpf_arena_data_structure.Base.{
  ℕ, ◌+◌, ◌-◌, ◌*◌, ◌/◌, ◌%◌, ◌^◌, ◌≤◌, ◌<◌, ◌≡◌, ◌≢◌, inl, inr, ap, ◌∙◌, sym, arith, mod-eq_of_eq,
}
use bpf_arena_data_structure.Arena.{Counters, put, page_of}
use bpf_arena_data_structure.Arena.User.{Heap, counter, take, open_page, alloc, free}
use bpf_arena_data_structure.Arena.User.Inv.{
  IsValid, HasRoom, Source, current, fresh, Source-HasRoom, alloc_cases, rounded, page_of-eq,
}
use bpf_arena_data_structure.Arena.User.Blocks.{user_alloc_block}

put_self : (c : Counters) (a n : ℕ) → put c a n a ≡ n
unfolding put
put_self c a n = ground arith

cur_page-mod : {h : Heap} → IsValid h → 0 < h.cur_page → h.cur_page % h.page_size ≡ 0
cur_page-mod {h} v opened =
    let ps = h.page_size in
    let ends : h.cur_page + ps ≡ h.base + h.next_page_off = ground arith in
    sym (add-mod_right h.cur_page ps)
    ∙ ap (λ t. t % ps) ends
    ∙ add-mod h.base h.next_page_off ps
    ∙ rw (v.base_page, v.next_page) (zero-mod ps)

-- The page of an address within the current page.
page_of_cur :
    {h : Heap} (p : ℕ)
    → IsValid h
    → 0 < h.cur_page
    → h.cur_page ≤ p
    → p < h.cur_page + h.page_size
    → page_of h.page_size p ≡ h.cur_page
page_of_cur {h} p v opened above below =
    let ps = h.page_size in
    let q = h.cur_page / ps in
    let whole : ps * q ≡ h.cur_page =
      omega (arith, div-add-mod h.cur_page ps, cur_page-mod v opened) in
    let offset : p % ps ≡ p - h.cur_page = mod-eq_of_eq p ps q (omega arith) (omega arith) in
    page_of-eq ps p v.pow2 (omega arith) v.small (ground arith)
    ∙ mul_comm (p / ps) ps
    ∙ omega (arith, div-add-mod p ps, offset)

counter-take :
    {g : Heap} (r : ℕ)
    → HasRoom g r
    → ((a : ℕ) → g.counters a < 2 ^ 64 - 1)
    → let h' = (take g r).1 in 0 < h'.counters (counter h' h'.cur_page)
unfolding take
counter-take {g} r room fits =
    let at = counter g g.cur_page in
    ground (arith, put_self g.counters at ((g.counters at + 1) % 2 ^ 64), fits at)

Source-fits :
    {h g : Heap} {r : ℕ}
    → Source h r g
    → ((a : ℕ) → h.counters a < 2 ^ 64 - 1)
    → (a : ℕ) → g.counters a < 2 ^ 64 - 1
unfolding open_page put
Source-fits (current p le) fits a = fits a
Source-fits {h} (fresh more room) fits a = ground (arith, fits a)

free-counter :
    {h : Heap} (p : ℕ)
    → IsValid h
    → 0 < h.cur_page
    → h.cur_page ≤ p
    → p < h.cur_page + h.page_size
    → let at = counter h h.cur_page in
      0 < h.counters at → (free h p).counters at + 1 ≡ h.counters at
unfolding free
free-counter {h} p v opened above below live =
    let at = counter h h.cur_page in
    rw (page_of_cur p v opened above below)
      (ground (arith, put_self h.counters at (h.counters at - 1)))

alloc-live :
    {h : Heap} (n : ℕ)
    → IsValid h
    → n < 2 ^ 32
    → (alloc h n).0 ≢ 0
    → ((a : ℕ) → h.counters a < 2 ^ 64 - 1)
    → let h' = (alloc h n).1 in 0 < h'.counters (counter h' h'.cur_page)
alloc-live {h} n v small got fits = elim (alloc_cases n v small) [
  | inl e ↦ absurd (got (ap (λ r. r.0) e))
  | inr (_, (g, source, e)) ↦
      rw e (counter-take (rounded n) (Source-HasRoom v source) (Source-fits source fits))
]

-- Freeing a block just after it was granted takes back the count of its page, which its own grant
-- had increased, if no count is about to wrap.
pub user_free_own_page :
    (h : Heap) (n : ℕ)
    → IsValid h
    → n < 2 ^ 32
    → (alloc h n).0 ≢ 0
    → ((a : ℕ) → h.counters a < 2 ^ 64 - 1)
    → let (p, h') = alloc h n in
      let at = counter h' h'.cur_page in (free h' p).counters at + 1 ≡ h'.counters at
user_free_own_page h n v small got fits =
    let (_, above, below, base, _, v') = user_alloc_block h n v small got in
    free-counter (alloc h n).0 v' (omega arith) above (omega arith) (alloc-live n v small got fits)
