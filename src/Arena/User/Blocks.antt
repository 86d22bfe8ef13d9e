-- ===== src/Arena/User/Blocks.antt =====
-- Where the blocks of the userspace allocator lie: inside the range, aligned, clear of the counters and of each other.
use bpf_arena_data_structure.Base.{
  ℕ, ◌+◌, ◌%◌, ◌^◌, ◌≤◌, ◌<◌, ◌≡◌, refl, ◌≢◌, ◌⊎◌, inl, inr, List, [], ◌∷◌, ap, arith,
  if◌then◌else◌, ◌==◌,
}
use bpf_arena_data_structure.Api.{u32}
use bpf_arena_data_structure.Arena.User.{Heap, take, open_page, alloc}
use bpf_arena_data_structure.Arena.User.Inv.{
  IsValid, HasRoom, Source, current, fresh, Source-HasRoom, rounded, take-IsValid, alloc_cases,
  alloc-IsValid,
}

-- No byte in common.
abbrev pub Disjoint : (a n b m : ℕ) → Type 0
Disjoint a n b m = (a + n ≤ b) ⊎ (b + m ≤ a)

-- The block of `n` bytes at `a` lies in the pages opened so far, clear of the free part and of the counter of the current page.
pub record Settled (h : Heap) (a n : ℕ) : Type 0 where
  pub opened : 0 < h.cur_page
  pub below : a + n + 8 ≤ h.base + h.next_page_off
  pub clear : (a + n ≤ h.cur_page) ⊎ (h.cur_page + h.cur_offset ≤ a)

take-Settled : {h : Heap} (r : ℕ) → HasRoom h r → Settled (take h r).1 (take h r).0 r
unfolding take
take-Settled {h} r v =
    let valid = v.valid in
    record { opened = ground arith; below = ground arith; clear = inr (ground arith) }

Settled-take : {h : Heap} {a m : ℕ} (r : ℕ) → HasRoom h r → Settled h a m → Settled (take h r).1 a m
unfolding take
Settled-take {h} r v s = let valid = v.valid in ground arith

Settled-open :
    {h : Heap} {a m : ℕ}
    → IsValid h
    → h.next_page_off + h.page_size ≤ h.size
    → Settled h a m
    → Settled (open_page h) a m
unfolding open_page
Settled-open {h} v more s = ground arith

take-Disjoint :
    {h : Heap} {a m : ℕ} (r : ℕ) → HasRoom h r → Settled h a m → Disjoint a m (take h r).0 r
unfolding take
take-Disjoint {h} r v s = let valid = v.valid in ground arith

take-ne_zero : {h : Heap} (r : ℕ) → HasRoom h r → (take h r).0 ≢ 0
unfolding take
take-ne_zero {h} r v = let valid = v.valid in ground arith

take-place :
    {h : Heap} (r : ℕ)
    → HasRoom h r
    → r % 8 ≡ 0
    → let (p, h') = take h r in
      (p % 8 ≡ 0)
      × (h'.cur_page ≤ p)
      × (p + r + 8 ≤ h'.cur_page + h'.page_size)
      × (h'.cur_page + h'.page_size ≤ h.base + h.next_page_off)
      × (h'.cur_page ≡ h.cur_page)
unfolding take
take-place {h} r v words = let valid = v.valid in ground arith

Source-place :
    {h g : Heap} {r : ℕ}
    → IsValid h
    → Source h r g
    → (g.base ≡ h.base) × (g.next_page_off ≤ h.size) × (h.base ≤ g.cur_page)
unfolding open_page
Source-place v (current p le) = ground arith
Source-place v (fresh more fits) = ground arith

-- A block that the userspace allocator grants starts at a multiple of 8 and lies within a page of
-- the range that was given, before the counter of that page; the allocator stays valid.
pub user_alloc_block :
    (h : Heap) (n : ℕ)
    → IsValid h
    → n < 2 ^ 32
    → (alloc h n).0 ≢ 0
    → let (p, h') = alloc h n in
      (p % 8 ≡ 0)
      × (h'.cur_page ≤ p)
      × (p + n + 8 ≤ h'.cur_page + h'.page_size)
      × (h.base ≤ h'.cur_page)
      × (h'.cur_page + h'.page_size ≤ h.base + h.size)
      × IsValid h'
user_alloc_block h n v small got = elim (alloc_cases n v small) [
  | inl e ↦ absurd (got (ap (λ r. r.0) e))
  | inr (pos, (g, source, e)) ↦
      let room = Source-HasRoom v source in
      let (words, above, before, last, same) = take-place (rounded n) room (omega arith) in
      let (base, next, page) = Source-place v source in
      rw e (
        words,
        above,
        omega arith,
        omega arith,
        omega arith,
        take-IsValid (rounded n) room (omega arith),
      )
]

Settled-Source : {h g : Heap} {a m r : ℕ} → IsValid h → Source h r g → Settled h a m → Settled g a m
Settled-Source v (current p le) s = s
Settled-Source v (fresh more fits) s = Settled-open v more s

-- The blocks that a sequence of requests is granted, with their sizes.
unfoldable pub blocks : Heap → List ℕ → List (ℕ × ℕ)
blocks h [] = []
blocks h (n ∷ ns) =
    let (p, h') = alloc h (u32 n) in
    let rest = blocks h' ns in if p == 0 then rest else ((p, u32 n) ∷ rest)

abbrev pub Apart : (a n : ℕ) → List (ℕ × ℕ) → Type 0
Apart a n [] = Unit
Apart a n ((b, m) ∷ bs) = Disjoint a n b m × Apart a n bs

abbrev pub AllDisjoint : List (ℕ × ℕ) → Type 0
AllDisjoint [] = Unit
AllDisjoint ((a, n) ∷ bs) = Apart a n bs × AllDisjoint bs

Disjoint-shorter : (a n b m r : ℕ) → m ≤ r → Disjoint a n b r → Disjoint a n b m
Disjoint-shorter a n b m r le d = ground arith

Settled-shorter : {h : Heap} {a m r : ℕ} → m ≤ r → Settled h a r → Settled h a m
Settled-shorter le s = ground arith

-- What a grant does to the blocks granted before.
record Granted (h : Heap) (n : ℕ) (p : ℕ) (h' : Heap) : Type 0 where
  ne_zero : p ≢ 0
  settled : Settled h' p n
  keep : {a m : ℕ} → Settled h a m → Settled h' a m
  apart : {a m : ℕ} → Settled h a m → Disjoint a m p n

alloc_outcome :
    {h : Heap} (n : ℕ)
    → IsValid h
    → n < 2 ^ 32
    → (alloc h n ≡ (0, h)) ⊎ Granted h n (alloc h n).0 (alloc h n).1
alloc_outcome {h} n v small = elim (alloc_cases n v small) [
  | inl e ↦ inl e
  | inr (pos, (g, source, e)) ↦
      let room = Source-HasRoom v source in
      let r = rounded n in
      inr (
        rw e (record {
          ne_zero = take-ne_zero r room;
          settled = Settled-shorter {r = r} (omega arith) (take-Settled r room);
          keep = λ s. Settled-take r room (Settled-Source v source s);
          apart = λ s.
              Disjoint-shorter _ _ _ _ r (omega arith)
                (take-Disjoint r room (Settled-Source v source s));
        }))
]

blocks-nil :
    (h : Heap) (n : ℕ) (ns : List ℕ) → alloc h (u32 n) ≡ (0, h) → blocks h (n ∷ ns) ≡ blocks h ns
unfolding blocks
blocks-nil h n ns e = rw e refl

blocks-cons :
    (h : Heap) (n : ℕ) (ns : List ℕ)
    → (alloc h (u32 n)).0 ≢ 0
    → blocks h (n ∷ ns) ≡ ((alloc h (u32 n)).0, u32 n) ∷ blocks (alloc h (u32 n)).1 ns
unfolding blocks
blocks-cons h n ns ne = ground arith

Apart-blocks :
    (h : Heap) {a m : ℕ} (ns : List ℕ) → IsValid h → Settled h a m → Apart a m (blocks h ns)
unfolding blocks
Apart-blocks h [] v s = tt
Apart-blocks h (n ∷ ns) v s = elim (alloc_outcome (u32 n) v (omega arith)) [
  | inl e ↦ rw (blocks-nil h n ns e) (Apart-blocks h ns v s)
  | inr g ↦ rw (blocks-cons h n ns g.ne_zero) (
    g.apart s,
    Apart-blocks (alloc h (u32 n)).1 ns (alloc-IsValid (u32 n) v (omega arith)) (g.keep s),
  )
]

-- Whatever sequence of sizes is requested from a valid heap, no two of the blocks granted overlap.
pub user_blocks_disjoint : (h : Heap) (ns : List ℕ) → IsValid h → AllDisjoint (blocks h ns)
unfolding blocks
user_blocks_disjoint h [] v = tt
user_blocks_disjoint h (n ∷ ns) v = elim (alloc_outcome (u32 n) v (omega arith)) [
  | inl e ↦ rw (blocks-nil h n ns e) (user_blocks_disjoint h ns v)
  | inr g ↦
      let v' = alloc-IsValid (u32 n) v (omega arith) in
      rw (blocks-cons h n ns g.ne_zero) (
        Apart-blocks (alloc h (u32 n)).1 ns v' g.settled,
        user_blocks_disjoint (alloc h (u32 n)).1 ns v',
      )
]
