-- ===== src/Kcov/Nested.antt =====
-- `ds_kcov_insert` interrupted, between two of its accesses, by another program on the same buffer:
-- the re-entrancy for which the counter is written before the data.
use bpf_arena_data_structure.Base.{
  ℕ, ◌+◌, ◌*◌, ◌≤◌, ◌≡◌, refl, ◌≢◌, arith, ltb, ◌==◌, if◌then◌else◌, get_or-set_self, get_or-set_ne,
  length-set, ◌∙◌, ap, sym,
}
use bpf_arena_data_structure.Api.{DsResult, full, success, invalid, Kv, u64}
use bpf_arena_data_structure.Kcov.{
  Buf, word, write, words_per_entry, next_count, start_index, insert,
}
use bpf_arena_data_structure.Kcov.Inv.{IsValid, start_index-eq}
use bpf_arena_data_structure.Kcov.Writes.{
  nested, nested_room, write-IsValid, nested-write, append_lost, insert_room,
}

-- Where the interrupt comes: after the read of `area[0]`, its write, or the write of the key.
pub data Point : Type 0 where
  after_load after_count after_key : Point

module _ (handler : Buf → Buf) where
  abbrev pub at_load : Point → Buf → Buf
  at_load after_load b = handler b
  at_load after_count b = b
  at_load after_key b = b

  abbrev pub at_count : Point → Buf → Buf
  at_count after_load b = b
  at_count after_count b = handler b
  at_count after_key b = b

  abbrev pub at_key : Point → Buf → Buf
  at_key after_load b = b
  at_key after_count b = b
  at_key after_key b = handler b

  unfoldable pub insert_interrupted : Point → Buf → ℕ → ℕ → DsResult × Buf
  insert_interrupted p b key value =
      if b.area == 0
      then (invalid, b)
      else let count = next_count b in
        let loaded = at_load p b in
        let start = start_index count in
        if ltb loaded.size (u64 (start + words_per_entry))
        then (full, loaded)
        else let counted = at_count p (write loaded 0 count) in
          let keyed = at_key p (write counted start key) in
          (success, write keyed (u64 (start + 1)) value)

-- The buffer between the write of the count and those of the data.
counted-IsValid :
    {b : Buf} → IsValid b → 2 * word b 0 + 3 ≤ b.size → IsValid (write b 0 (word b 0 + 1))
counted-IsValid {b} v room =
    ground (arith, length-set b.words 0 (word b 0 + 1), get_or-set_self b.words 0 (word b 0 + 1) 0)

interrupted-eq :
    (f : Buf → Buf) (p : Point) {b : Buf} (x : Kv)
    → IsValid b
    → 2 * word b 0 + 3 ≤ b.size
    → (at_load f p b).size ≡ b.size
    → let n = word b 0 in
      let counted = at_count f p (write (at_load f p b) 0 (n + 1)) in
      let keyed = at_key f p (write counted (2 * n + 1) x.key) in
      insert_interrupted f p b x.key x.value ≡ (success, write keyed (2 * n + 2) x.value)
unfolding insert_interrupted
interrupted-eq f p {b} x v room same =
    let n = word b 0 in
    let count : next_count b ≡ n + 1 = omega arith in
    let start : start_index (next_count b) ≡ 2 * n + 1 =
      ap start_index count ∙ start_index-eq n (omega arith) in
    let end : u64 (2 * n + 1 + 2) ≡ 2 * n + 3 = omega arith in
    let second : u64 (2 * n + 1 + 1) ≡ 2 * n + 2 = omega arith in
    rw (start, count, end, second, same) (ground arith)

-- The writes of the outer entry, moved before an insertion that sees its count.
value-late :
    {b : Buf} (x y : Kv)
    → IsValid b
    → 2 * word b 0 + 3 ≤ b.size
    → let n = word b 0 in
      let keyed = write (write b 0 (n + 1)) (2 * n + 1) x.key in
      write (nested y keyed) (2 * n + 2) x.value ≡ nested y (nested x b)
value-late {b} x y v room =
    let n = word b 0 in
    let counted = write b 0 (n + 1) in
    let count : word counted 0 ≡ n + 1 = get_or-set_self b.words 0 (n + 1) 0 (omega arith) in
    let same : word (write counted (2 * n + 1) x.key) 0 ≡ n + 1 =
      get_or-set_ne counted.words (2 * n + 1) 0 x.key 0 (omega arith) ∙ count in
    sym (
      nested-write y (2 * n + 2) x.value
        (write-IsValid (2 * n + 1) x.key (counted-IsValid v room) (omega arith)) (omega arith)
        (omega arith))
    ∙ ap (nested y) (sym (nested_room x v room))

key-late :
    {b : Buf} (x y : Kv)
    → IsValid b
    → 2 * word b 0 + 3 ≤ b.size
    → let n = word b 0 in
      let counted = write b 0 (n + 1) in
      write (nested y counted) (2 * n + 1) x.key ≡ nested y (write counted (2 * n + 1) x.key)
key-late {b} x y v room =
    let n = word b 0 in
    let count : word (write b 0 (n + 1)) 0 ≡ n + 1 =
      get_or-set_self b.words 0 (n + 1) 0 (omega arith) in
    sym (nested-write y (2 * n + 1) x.key (counted-IsValid v room) (omega arith) (omega arith))

-- On a valid buffer with room for the outer entry: an insertion that comes in after the counter was
-- written, before or after the key, leaves the buffer exactly as if it had been called after the
-- outer one, so that neither loses its words.
pub kcov_nested_after_count :
    (b : Buf) (x y : Kv) (p : Point)
    → IsValid b
    → 2 * word b 0 + 3 ≤ b.size
    → p ≢ after_load
    → insert_interrupted (nested y) p b x.key x.value
      ≡ (success, (insert (insert b x.key x.value).1 y.key y.value).1)
kcov_nested_after_count b x y after_load v room late = absurd (late refl)
kcov_nested_after_count b x y after_count v room late =
    interrupted-eq (nested y) after_count x v room refl
    ∙ ap (λ c. (success, c))
        (ap (λ c. write c (2 * word b 0 + 2) x.value) (key-late x y v room) ∙ value-late x y v room)
kcov_nested_after_count b x y after_key v room late =
    interrupted-eq (nested y) after_key x v room refl
    ∙ ap (λ c. (success, c)) (value-late x y v room)

-- On a valid buffer with room for one entry: an insertion that comes in between the read of the
-- counter and its write is lost, although it answers `DS_SUCCESS`: the outer one leaves the buffer
-- exactly as if it had not run.
pub kcov_nested_after_load :
    (b : Buf) (x y : Kv)
    → IsValid b
    → 2 * word b 0 + 3 ≤ b.size
    → ((insert b y.key y.value).0 ≡ success)
      × (insert_interrupted (nested y) after_load b x.key x.value ≡ insert b x.key x.value)
kcov_nested_after_load b x y v room = (
  ap (λ r. r.0) (insert_room y v room),
  interrupted-eq (nested y) after_load x v room (ap (λ c. c.size) (nested_room y v room))
      ∙ ap (λ c. (success, c)) (rw (nested_room y v room) (append_lost b x y))
      ∙ sym (insert_room x v room),
)
