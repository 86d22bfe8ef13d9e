-- ===== src/Arena/User/Inv.antt =====
-- The invariant of the userspace allocator and the cases of an allocation.
use native.Mathlib.Nat.{add-mod_right}
use bpf_arena_data_structure.Base.{
  ℕ, ◌+◌, ◌-◌, ◌*◌, ◌/◌, ◌%◌, ◌^◌, ◌≤◌, ◌<◌, ◌≡◌, refl, ◌⊎◌, inl, inr, bit_and, ap, ◌∙◌, arith,
  dec_le, ℕ_discrete,
}
use bpf_arena_data_structure.Bits.{IsPow2}
use bpf_arena_data_structure.Bits.Align.{bit_or-seven, bit_and-neg}
use bpf_arena_data_structure.Arena.{round_up_8, page_of}
use bpf_arena_data_structure.Arena.User.{Heap, take, open_page, alloc}

-- What an object of `n` bytes takes.
abbrev pub rounded : ℕ → ℕ
rounded n = (n + 7) / 8 * 8

pub round_up_8-eq : (n : ℕ) → 0 < n → n < 2 ^ 32 → round_up_8 n ≡ rounded n
unfolding round_up_8
round_up_8-eq n pos small = rw bit_or-seven (omega arith)

pub round_up_8-zero : round_up_8 0 ≡ 0
unfolding round_up_8
round_up_8-zero = refl

pub page_of-eq : (c x : ℕ) → IsPow2 c → 0 < c → c ≤ 2 ^ 32 → x < 2 ^ 64 → page_of c x ≡ x / c * c
unfolding page_of
page_of-eq c x s pos small lt = ap (bit_and x) (omega arith) ∙ bit_and-neg 64 c x s (omega arith) lt

-- The current page is the last one that was opened, and its free part is a prefix of it.
pub record IsValid (h : Heap) : Type 0 where
  pub pow2 : IsPow2 h.page_size
  pub at_least : 16 ≤ h.page_size
  pub small : h.page_size ≤ 2 ^ 32
  pub page_words : h.page_size % 8 ≡ 0
  pub based : 0 < h.base
  pub base_page : h.base % h.page_size ≡ 0
  pub base_words : h.base % 8 ≡ 0
  pub within : h.base + h.size < 2 ^ 64
  pub next_page : h.next_page_off % h.page_size ≡ 0
  pub next_words : h.next_page_off % 8 ≡ 0
  pub next_in : h.next_page_off ≤ h.size
  pub room : h.cur_offset + 8 ≤ h.page_size
  pub room_words : h.cur_offset % 8 ≡ 0
  pub current :
      ((h.cur_page ≡ 0) × (h.next_page_off ≡ 0))
      ⊎ ((h.cur_page + h.page_size ≡ h.base + h.next_page_off) × (h.page_size ≤ h.next_page_off))

-- A heap whose current page has room for `r` bytes.
pub record HasRoom (h : Heap) (r : ℕ) : Type 0 where
  pub valid : IsValid h
  pub opened : 0 < h.cur_page
  pub enough : r ≤ h.cur_offset

pub open_page-IsValid :
    {h : Heap} → IsValid h → h.next_page_off + h.page_size ≤ h.size → IsValid (open_page h)
unfolding open_page
open_page-IsValid {h} v more = ground (arith, add-mod_right h.next_page_off h.page_size)

pub take-IsValid : {h : Heap} (r : ℕ) → HasRoom h r → r % 8 ≡ 0 → IsValid (take h r).1
unfolding take
take-IsValid {h} r v words = let valid = v.valid in ground arith

open_page-HasRoom :
    {h : Heap} (r : ℕ)
    → IsValid h
    → h.next_page_off + h.page_size ≤ h.size
    → r + 8 ≤ h.page_size
    → HasRoom (open_page h) r
unfolding open_page
open_page-HasRoom {h} r v more fits = record {
  valid = open_page-IsValid v more;
  opened = ground arith;
  enough = ground arith;
}

-- The two ways to serve `n` bytes: from the current page, or from one that is opened for it.
pub data Source (h : Heap) (r : ℕ) : Heap → Type 0 where
  current : 0 < h.cur_page → r ≤ h.cur_offset → Source h r h
  fresh : h.next_page_off + h.page_size ≤ h.size → r + 8 ≤ h.page_size → Source h r (open_page h)

pub Source-HasRoom : {h g : Heap} {r : ℕ} → IsValid h → Source h r g → HasRoom g r
Source-HasRoom v (current p le) = record { valid = v; opened = p; enough = le }
Source-HasRoom {r} v (fresh more fits) = open_page-HasRoom r v more fits

needs_page :
    (h : Heap) (r : ℕ)
    → ((0 < h.cur_page) × (r ≤ h.cur_offset)) ⊎ ((h.cur_page ≡ 0) ⊎ (h.cur_offset < r))
needs_page h r = ground arith

pub alloc_cases :
    {h : Heap} (n : ℕ)
    → IsValid h
    → n < 2 ^ 32
    → (alloc h n ≡ (0, h))
      ⊎ ((0 < n) × ((g : Heap) × Source h (rounded n) g × (alloc h n ≡ take g (rounded n))))
unfolding alloc
alloc_cases {h} n v small = elim (ℕ_discrete n 0) [
  | yes e ↦ inl (rw (e, round_up_8-zero) (ground arith))
  | no ne ↦
      let r = rounded n in
      let up = round_up_8-eq n (omega arith) small in
      elim (dec_le (h.page_size - 8) r) [
        | yes large ↦ inl (rw up (ground arith))
        | no fits ↦ elim (needs_page h r) [
          | inl (p, le) ↦ inr (omega arith, (h, current p le, rw up (ground arith)))
          | inr full ↦ elim (dec_le (h.next_page_off + h.page_size) h.size) [
            | yes more ↦
                inr (omega arith, (open_page h, fresh more (omega arith), rw up (ground arith)))
            | no last ↦ inl (rw up (ground arith))
          ]
        ]
      ]
]

-- An allocation keeps the invariant, whether it succeeds or not.
pub alloc-IsValid : {h : Heap} (n : ℕ) → IsValid h → n < 2 ^ 32 → IsValid (alloc h n).1
alloc-IsValid n v small = elim (alloc_cases n v small) [
  | inl e ↦ rw e v
  | inr (pos, (g, source, e)) ↦
      rw e (take-IsValid (rounded n) (Source-HasRoom v source) (omega arith))
]
