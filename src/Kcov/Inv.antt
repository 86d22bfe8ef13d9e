-- ===== src/Kcov/Inv.antt =====
-- The representation invariant of `struct ds_kcov_buf` and the entries that it holds.
use bpf_arena_data_structure.Base.{
  ℕ, zero, suc, ◌+◌, ◌-◌, ◌*◌, ◌/◌, ◌^◌, ◌≤◌, ◌<◌, ◌≡◌, refl, ◌≢◌, ◌↔◌, ◌⊎◌, List, [], ◌∷◌, ap, ap₂,
  ◌∙◌, arith, inl, inr, length, length-set, get_or, set, get_or-set_self, get_or-set_ne,
}
use bpf_arena_data_structure.Api.{success, full, Kv, kv, Out, u64, Allocator}
use bpf_arena_data_structure.Api.Queue.{Queue}
use bpf_arena_data_structure.Kcov.{
  Buf, word, write, start_index, next_count, bytes, init, insert, pop, verify,
}

-- An allocation is smaller than 2^32 bytes, so no index wraps.
pub record IsValid (b : Buf) : Type 0 where
  pub allocated : b.area ≢ 0
  pub at_least : 3 ≤ b.size
  pub small : b.size < 2 ^ 32
  pub storage : b.size ≤ length b.words
  pub fits : word b 0 ≤ (b.size - 1) / 2

-- The first `n` entries, the newest first.
unfoldable pub entries : List ℕ → ℕ → Queue
entries ws zero = []
entries ws (suc n) = kv (get_or ws (2 * n + 1) 0) (get_or ws (2 * n + 2) 0) ∷ entries ws n

unfoldable pub contents : Buf → Queue
contents b = entries b.words (word b 0)

pub entries_zero : (ws : List ℕ) (n : ℕ) → n ≡ 0 → entries ws n ≡ []
unfolding entries
entries_zero ws zero e = refl
entries_zero ws (suc n) e = absurd (omega arith)

pub length-entries : (ws : List ℕ) (n : ℕ) → length (entries ws n) ≡ n
unfolding entries
length-entries ws zero = refl
length-entries ws (suc n) = ap suc (length-entries ws n)

pub length-contents : (b : Buf) → length (contents b) ≡ word b 0
unfolding contents
length-contents b = length-entries b.words (word b 0)

-- A write that leaves their words leaves the entries.
pub entries-set :
    (ws : List ℕ) (n i x : ℕ) → (i ≡ 0) ⊎ (2 * n < i) → entries (set ws i x) n ≡ entries ws n
unfolding entries
entries-set ws zero i x out = refl
entries-set ws (suc n) i x out =
    ap₂ ◌∷◌
      (ap₂ kv (get_or-set_ne ws i (2 * n + 1) x 0 (omega arith))
        (get_or-set_ne ws i (2 * n + 2) x 0 (omega arith)))
      (entries-set ws n i x (omega arith))

pub start_index-eq : (n : ℕ) → n < 2 ^ 32 → start_index (n + 1) ≡ 2 * n + 1
unfolding start_index
start_index-eq n lt = omega arith

-- The buffer with one more entry.
abbrev pub append : Buf → Kv → Buf
append b x =
    let n = word b 0 in write (write (write b 0 (n + 1)) (2 * n + 1) x.key) (2 * n + 2) x.value

-- On a valid buffer nothing wraps.
pub insert_cases :
    {b : Buf} (k x : ℕ)
    → IsValid b
    → ((b.size < 2 * word b 0 + 3) × (insert b k x ≡ (full, b)))
      ⊎ ((2 * word b 0 + 3 ≤ b.size) × (insert b k x ≡ (success, append b (kv k x))))
unfolding insert
insert_cases {b} k x v =
    let n = word b 0 in
    let count : next_count b ≡ n + 1 = omega arith in
    let start : start_index (next_count b) ≡ 2 * n + 1 =
      ap start_index count ∙ start_index-eq n (omega arith) in
    let end : u64 (2 * n + 1 + 2) ≡ 2 * n + 3 = omega arith in
    let second : u64 (2 * n + 1 + 1) ≡ 2 * n + 2 = omega arith in
    rw (start, count, end, second) (ground arith)

-- The words of the new entry, the count, and the old entries.
pub append-IsValid :
    {b : Buf} (k x : ℕ) → IsValid b → 2 * word b 0 + 3 ≤ b.size → IsValid (append b (kv k x))
append-IsValid {b} k x v room =
    let n = word b 0 in
    let one = set b.words 0 (n + 1) in
    let two = set one (2 * n + 1) k in
    ground (
      arith,
      length-set b.words 0 (n + 1),
      length-set one (2 * n + 1) k,
      length-set two (2 * n + 2) x,
      get_or-set_self b.words 0 (n + 1) 0,
      get_or-set_ne one (2 * n + 1) 0 k 0,
      get_or-set_ne two (2 * n + 2) 0 x 0,
    )

pub insert-IsValid : {b : Buf} (k x : ℕ) → IsValid b → IsValid (insert b k x).1
insert-IsValid {b} k x v = elim (insert_cases k x v) [
  | inl (few, e) ↦ rw e v
  | inr (room, e) ↦ rw e (append-IsValid k x v room)
]

pub pop-IsValid : {b : Buf} (out : Out) → IsValid b → IsValid (pop b out).1
unfolding pop
pop-IsValid {b} out v =
    ground (arith, length-set b.words 0 (word b 0 - 1), get_or-set_self b.words 0 (word b 0 - 1) 0)

-- An accepted `ds_kcov_init` leaves a valid, empty buffer, if the byte count `8 * size` fits 32 bits.
kcov_init-IsValid :
    (a : Allocator) (s : a.State) (b : Buf) (n : ℕ)
    → n < 2 ^ 29
    → (init a s b n).0 ≡ success
    → let b' = (init a s b n).1 in IsValid b' × (contents b' ≡ []) × (b'.size ≡ n)
unfolding init contents
kcov_init-IsValid a s b n lt e =
    let (area, s') = a.alloc s (bytes a n) in
    let memory = a.words s' area (bytes a n / 8) in
    let cleared = set memory 0 0 in
    ground (
      arith,
      a.length-words s' area (bytes a n / 8),
      length-set memory 0 0,
      get_or-set_self memory 0 0 0,
      entries_zero cleared (get_or cleared 0 0),
    )

-- `ds_kcov_verify` accepts exactly the allocated buffers whose count of entries fits their size.
kcov_verify_iff :
    (b : Buf) → (verify b ≡ success) ↔ ((b.area ≢ 0) × (0 < b.size) × (2 * word b 0 + 1 ≤ b.size))
unfolding verify
kcov_verify_iff b = ground arith
