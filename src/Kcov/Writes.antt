-- ===== src/Kcov/Writes.antt =====
-- Insertions as functions on buffers, and which writes they commute with.
use bpf_arena_data_structure.Base.{
  ℕ, ◌+◌, ◌*◌, ◌≤◌, ◌<◌, ◌≡◌, refl, ◌≢◌, inl, inr, List, arith, set, dec_le, get_or-set_ne,
  length-set, set_comm, set-set, ◌∙◌, ap, sym,
}
use bpf_arena_data_structure.Api.{success, Kv}
use bpf_arena_data_structure.Kcov.{Buf, word, write, insert}
use bpf_arena_data_structure.Kcov.Inv.{IsValid, append, insert_cases}

-- An interrupting program that inserts `y` itself.
abbrev pub nested : Kv → Buf → Buf
nested y b = (insert b y.key y.value).1

pub nested_full : {b : Buf} (y : Kv) → IsValid b → b.size < 2 * word b 0 + 3 → nested y b ≡ b
nested_full {b} y v few = elim (insert_cases y.key y.value v) [
  | inl (_, e) ↦ ap (λ r. r.1) e
  | inr (room, e) ↦ absurd (omega arith)
]

pub nested_room :
    {b : Buf} (y : Kv) → IsValid b → 2 * word b 0 + 3 ≤ b.size → nested y b ≡ append b y
nested_room {b} y v room = elim (insert_cases y.key y.value v) [
  | inl (few, e) ↦ absurd (omega arith)
  | inr (_, e) ↦ ap (λ r. r.1) e
]

-- A write to an entry already counted commutes with an insertion.
pub append-write :
    (b : Buf) (y : Kv) (i w : ℕ)
    → 0 < i
    → i < 2 * word b 0 + 1
    → append (write b i w) y ≡ write (append b y) i w
append-write b y i w pos lt =
    let n = word b 0 in
    let one = set b.words 0 (n + 1) in
    let two = set one (2 * n + 1) y.key in
    rw
      (
        get_or-set_ne b.words i 0 w 0 (omega arith),
        set_comm b.words i 0 w (n + 1) (omega arith),
        set_comm one i (2 * n + 1) w y.key (omega arith),
        set_comm two i (2 * n + 2) w y.value (omega arith),
      )
      refl

pub write-IsValid : {b : Buf} (i w : ℕ) → IsValid b → 0 < i → IsValid (write b i w)
write-IsValid {b} i w v pos = ground (arith, length-set b.words i w, get_or-set_ne b.words i 0 w 0)

pub nested-write :
    {b : Buf} (y : Kv) (i w : ℕ)
    → IsValid b
    → 0 < i
    → i < 2 * word b 0 + 1
    → nested y (write b i w) ≡ write (nested y b) i w
nested-write {b} y i w v pos lt =
    let same : word (write b i w) 0 ≡ word b 0 = get_or-set_ne b.words i 0 w 0 (omega arith) in
    let v' = write-IsValid i w v pos in
    elim (dec_le (2 * word b 0 + 3) b.size) [
      | yes room ↦
          nested_room y v' (omega arith)
          ∙ append-write b y i w pos lt
          ∙ ap (λ c. write c i w) (sym (nested_room y v room))
      | no few ↦
          nested_full y v' (omega arith)
          ∙ ap (λ c. write c i w) (sym (nested_full y v (omega arith)))
    ]

-- Writes to three places cover earlier ones to the same places.
set_three :
    (ws : List ℕ) (i j k a b c a' b' c' : ℕ)
    → i ≢ j
    → i ≢ k
    → j ≢ k
    → set (set (set (set (set (set ws i a) j b) k c) i a') j b') k c'
      ≡ set (set (set ws i a') j b') k c'
set_three ws i j k a b c a' b' c' ij ik jk =
    let one = set ws i a' in
    rw
      (
        set_comm (set (set ws i a) j b) k i c a' (λ e. ik (sym e)),
        set_comm (set ws i a) j i b a' (λ e. ij (sym e)),
        set-set ws i a a',
        set_comm (set one j b) k j c b' (λ e. jk (sym e)),
        set-set one j b b',
        set-set (set one j b') k c c',
      )
      refl

-- The outer writes cover the words of the lost entry.
pub append_lost :
    (b : Buf) (x y : Kv)
    → let n = word b 0 in
      write (write (write (append b y) 0 (n + 1)) (2 * n + 1) x.key) (2 * n + 2) x.value
      ≡ append b x
append_lost b x y =
    let n = word b 0 in
    ap (λ ws. record b { words = ws })
      (set_three b.words 0 (2 * n + 1) (2 * n + 2) _ _ _ _ _ _ (omega arith) (omega arith)
        (omega arith))

pub insert_room :
    {b : Buf} (x : Kv)
    → IsValid b
    → 2 * word b 0 + 3 ≤ b.size
    → insert b x.key x.value ≡ (success, append b x)
insert_room {b} x v room = elim (insert_cases x.key x.value v) [
  | inl (few, e) ↦ absurd (omega arith)
  | inr (_, e) ↦ e
]
