-- ===== src/CkFifoSpsc.antt =====
-- include/ds_ck_fifo_spsc.h: a linked queue behind a stub, whose producer takes the entries back that
-- the consumer has left. Each function stands for its `_lkmm` and `_c` variants and the router between
-- them, which differ in memory orders only. The queue is never NULL. A call runs by itself; `can_loop`
-- lets a loop go round `rounds` times. Casts between address spaces do nothing.
pub mod Inv
pub mod Insert
pub mod Remove
pub mod Verify
pub mod Threads
pub mod Order
mod Tests
use bpf_arena_data_structure.Base.{
  ℕ, zero, suc, ◌+◌, ◌-◌, Bool, true, false, none, some, Option, min, ◌==◌, ◌||◌, if◌then◌else◌,
}
use bpf_arena_data_structure.Api.{
  DsResult, success, not_found, nomem, invalid, corrupt, Kv, kv, zero_kv, Out, store, Allocator,
}

-- `struct ds_ck_fifo_spsc_entry`; `kv` is `pair`.
pub record Entry : Type 0 where
  pub value : ℕ
  pub next : ℕ
  pub pair : Kv

-- `struct ds_ck_fifo_spsc`, with the entries of the arena by their addresses.
pub record Fifo : Type 0 where
  pub head : ℕ
  pub tail : ℕ
  pub head_snapshot : ℕ
  pub garbage : ℕ
  pub entries : ℕ → Entry

-- `offsetof(struct ds_ck_fifo_spsc_entry, kv)`
abbrev pub kv_offset : ℕ
kv_offset = 16

-- The pair at an address that lies in an entry.
abbrev pub pair_at : (ℕ → Entry) → (payload : ℕ) → Kv
pair_at m payload = (m (payload - kv_offset)).pair

abbrev pub update : (ℕ → Entry) → ℕ → Entry → ℕ → Entry
update m a e = λ x. if x == a then e else m x

abbrev pub set_value : (ℕ → Entry) → ℕ → ℕ → ℕ → Entry
set_value m a v = update m a (record { value = v; next = (m a).next; pair = (m a).pair })

abbrev pub set_next : (ℕ → Entry) → ℕ → ℕ → ℕ → Entry
set_next m a n = update m a (record { value = (m a).value; next = n; pair = (m a).pair })

abbrev pub set_pair : (ℕ → Entry) → ℕ → Kv → ℕ → Entry
set_pair m a x = update m a (record { value = (m a).value; next = (m a).next; pair = x })

unfoldable pub fifo_init : Fifo → (stub : ℕ) → Fifo
fifo_init f stub = record {
  head = stub;
  tail = stub;
  head_snapshot = stub;
  garbage = stub;
  entries = set_next f.entries stub 0;
}

unfoldable pub enqueue : Fifo → (entry value : ℕ) → Fifo
enqueue f entry value =
    let m = set_next (set_value f.entries entry value) entry 0 in
    record f { tail = entry; entries = set_next m f.tail entry }

-- `value_out` is a buffer for a pointer, or NULL.
unfoldable pub dequeue : Fifo → (value_out : Option ℕ) → Bool × Fifo × Option ℕ
dequeue f value_out =
    let entry = (f.entries f.head).next in
    if entry == 0 then (false, f, value_out) else (
      true,
      record f { head = entry },
      elim value_out [ none ↦ none | some _ ↦ some (f.entries entry).value ],
    )

unfoldable pub isempty : Fifo → Bool
isempty f = (f.entries f.head).next == 0

-- The rest of `recycle` once there is garbage.
abbrev pub take_garbage : Fifo → ℕ × Fifo
take_garbage f = (f.garbage, record f { garbage = (f.entries f.garbage).next })

-- The entry taken back, or NULL.
unfoldable pub recycle : Fifo → ℕ × Fifo
recycle f =
    let f' = record f { head_snapshot = f.head } in
    if f.head_snapshot == f.garbage
    then if f'.head_snapshot == f'.garbage then (0, f') else take_garbage f'
    else take_garbage f

-- What `insert` does with an entry: it fills and publishes it.
unfoldable pub fill : Fifo → (entry key value : ℕ) → Fifo
fill f entry key value =
    enqueue (record f { entries = set_pair f.entries entry (kv key value) }) entry
      (entry + kv_offset)

module _ (a : Allocator) where
  -- `sizeof(struct ds_ck_fifo_spsc_entry)` is 32.
  unfoldable pub init : a.State → Fifo → DsResult × Fifo × a.State
  init s f =
      let (stub, s') = a.alloc s 32 in
      let m = set_pair (set_value f.entries stub 0) stub zero_kv in
      if stub == 0 then (nomem, f, s') else (success, fifo_init (record f { entries = m }) stub, s')

  unfoldable pub insert : a.State → Fifo → (key value : ℕ) → DsResult × Fifo × a.State
  insert s f key value =
      let (entry, f') = recycle f in
      let (entry', s') = a.alloc s 32 in
      if entry == 0
      then if entry' == 0 then (nomem, f', s') else (success, fill f' entry' key value, s')
      else (success, fill f' entry key value, s)

-- `stray` is what the uninitialised pointer of `delete` holds.
unfoldable pub delete : (stray : ℕ) → Fifo → Out → DsResult × Fifo × Out
delete stray f out =
    let (taken, f', value) = dequeue f (some stray) in
    let payload : ℕ = elim value [ none ↦ stray | some v ↦ v ] in
    if taken
    then elim out [
      | none ↦ (success, f', none)
      | some old ↦
          if payload == 0
          then (corrupt, f', some old)
          else (success, f', some (pair_at f'.entries payload))
    ]
    else (not_found, f, out)

unfoldable pub pop : (stray : ℕ) → Fifo → Out → DsResult × Fifo × Out
pop stray f out = delete stray f out

unfoldable pub search : Fifo → (key : ℕ) → DsResult
search f key = invalid

unfoldable pub verify_loop : (rounds : ℕ) → (ℕ → Entry) → (cursor tail : ℕ) → DsResult
verify_loop zero m cursor tail = corrupt
verify_loop (suc rounds) m cursor tail =
    let next = (m cursor).next in
    let rest = verify_loop rounds m next tail in
    if cursor == tail then success else if next == 0 then corrupt else rest

-- `max_steps` is 100000.
unfoldable pub verify : (rounds : ℕ) → Fifo → DsResult
verify rounds f =
    if f.head == 0 || f.tail == 0 || f.garbage == 0
    then corrupt
    else verify_loop (min rounds 100000) f.entries f.head f.tail
