-- ===== src/CkStack.antt =====
-- include/ds_ck_stack_upmc.h: a linked stack whose entries come from the arena and are not given
-- back. Each function stands for its `_lkmm` and `_c` variants and the router between them, which
-- differ in memory orders only. The stack is never tested for NULL here. A call runs by itself, so
-- that a compare-and-exchange fails only if the value it expects is not there; `can_loop` lets a
-- loop go round `fuel` times.
pub mod Chain
pub mod Refine
pub mod Try
pub mod Cycle
pub mod Threads
pub mod Linear
mod Tests
use bpf_arena_data_structure.Base.{
  ℕ, zero, suc, ◌+◌, ◌-◌, ◌%◌, ◌^◌, Bool, true, false, not, ◌&&◌, Option, none, some, List, min,
  ◌==◌, if◌then◌else◌,
}
use bpf_arena_data_structure.Api.{
  DsResult, success, not_found, nomem, invalid, corrupt, Kv, kv, u64, sub_u64, Out, Allocator,
}

-- `struct ds_ck_stack_upmc_entry` (its `data` is `pair`)
pub record Entry : Type 0 where
  pub next : ℕ
  pub pair : Kv

-- `struct ds_op_stats`
pub record OpStats : Type 0 where
  pub count : ℕ
  pub failures : ℕ
  pub total_time_ns : ℕ

-- `struct ds_stats`
pub record Stats : Type 0 where
  pub ops : List OpStats
  pub current_elements : ℕ
  pub max_elements : ℕ
  pub memory_used : ℕ

-- `struct ds_ck_stack_upmc_head`, with the entries of the arena by their addresses.
pub record Stack : Type 0 where
  pub head : ℕ
  pub count : ℕ
  pub entries : ℕ → Entry

unfoldable pub store_entry : Stack → ℕ → Entry → Stack
store_entry s a e = record s { entries = λ x. if x == a then e else s.entries x }

-- Both fields of `struct ds_ck_stack_upmc_head`; the entries stay.
unfoldable pub init : Stack → Stack
init s = record s { head = 0; count = 0 }

unfoldable pub isempty : Stack → Bool
isempty s = s.head == 0

-- What a successful exchange of `push_upmc` does, and then the count.
abbrev pub pushed : Stack → ℕ → Stack
pushed s entry = record s { head = entry; count = u64 (s.count + 1) }

abbrev pub linked : Stack → (entry head : ℕ) → Stack
linked s entry head = store_entry s entry (record { next = head; pair = (s.entries entry).pair })

-- The `do` loop: `fuel` is how often `can_loop` lets it go round again.
unfoldable pub push_loop : ℕ → Stack → (entry head : ℕ) → Stack
push_loop zero s entry head =
    let s' = linked s entry head in if s'.head == head then pushed s' entry else s'
push_loop (suc fuel) s entry head =
    let s' = linked s entry head in
    let again = push_loop fuel s' entry s'.head in
    if s'.head == head then pushed s' entry else again

unfoldable pub push_upmc : ℕ → Stack → (entry key value : ℕ) → Stack
push_upmc fuel s entry key value =
    if entry == 0
    then s
    else let s' =
        store_entry s entry (record { next = (s.entries entry).next; pair = kv key value }) in
      push_loop fuel s' entry s'.head

-- One attempt. The exchange expects the head that was just read.
unfoldable pub trypush_upmc : Stack → (entry key value : ℕ) → Bool × Stack
trypush_upmc s entry key value =
    let filled =
      store_entry s entry (record { next = (s.entries entry).next; pair = kv key value }) in
    let head = filled.head in
    let s' = linked filled entry head in
    if entry == 0
    then (false, s)
    else if not (s'.head == head)
    then (false, s')
    else (true, pushed s' entry)

unfoldable pub pop_loop : ℕ → Stack → (head : ℕ) → ℕ × Stack
pop_loop zero s head = (0, s)
pop_loop (suc fuel) s head =
    let again = pop_loop fuel s s.head in
    if head == 0
    then (0, s)
    else if s.head == head
    then (head, record s { head = (s.entries head).next; count = sub_u64 s.count 1 })
    else again

unfoldable pub pop_upmc : ℕ → Stack → ℕ × Stack
pop_upmc fuel s = pop_loop fuel s s.head

-- `entry_out` is a buffer for an address, or NULL.
unfoldable pub trypop_upmc : Stack → (entry_out : Option ℕ) → Bool × Stack × Option ℕ
trypop_upmc s entry_out =
    let head = s.head in
    if head == 0
    then (false, s, entry_out)
    else if not (s.head == head)
    then (false, s, entry_out)
    else (
      true,
      record s { head = (s.entries head).next; count = sub_u64 s.count 1 },
      elim entry_out [ none ↦ none | some _ ↦ some head ],
    )

module _ (a : Allocator) where
  -- `sizeof(struct ds_ck_stack_upmc_entry)` is 24.
  unfoldable pub insert : ℕ → a.State → Stack → (key value : ℕ) → DsResult × Stack × a.State
  insert fuel m s key value =
      let (entry, m') = a.alloc m 24 in
      if entry == 0 then (nomem, s, m') else (success, push_upmc fuel s entry key value, m')

unfoldable pub pop : ℕ → Stack → Out → DsResult × Stack × Out
pop fuel s none = (invalid, s, none)
pop fuel s (some old) =
    let (entry, s') = pop_upmc fuel s in
    if entry == 0 then (not_found, s', some old) else (success, s', some (s'.entries entry).pair)

unfoldable pub delete : Stack → (key : ℕ) → DsResult
delete s key = invalid

unfoldable pub search_loop : ℕ → Stack → (cursor key : ℕ) → DsResult
search_loop zero s cursor key = not_found
search_loop (suc fuel) s cursor key =
    let rest = search_loop fuel s (s.entries cursor).next key in
    if cursor == 0 then not_found else if (s.entries cursor).pair.key == key then success else rest

unfoldable pub search : ℕ → Stack → (key : ℕ) → DsResult
search fuel s key = search_loop (min fuel 100000) s s.head key

-- `none` if `can_loop` stopped the loop.
unfoldable pub verify_loop : (fuel : ℕ) → (ℕ → Entry) → (slow fast : ℕ) → Option DsResult
verify_loop zero m slow fast = if fast == 0 then some success else none
verify_loop (suc fuel) m slow fast =
    let fast_next = (m fast).next in
    let fast' = (m fast_next).next in
    let slow' = if slow == 0 then slow else (m slow).next in
    let rest = verify_loop fuel m slow' fast' in
    if fast == 0
    then some success
    else if fast_next == 0
    then some success
    else if not (slow' == 0) && slow' == fast'
    then some corrupt
    else rest

abbrev pub answer : Option DsResult → DsResult
answer none = success
answer (some r) = r

unfoldable pub verify : (fuel : ℕ) → Stack → DsResult
verify fuel s = answer (verify_loop fuel s.entries s.head s.head)

-- `stats` may be NULL.
unfoldable pub stats : Stack → (buffer : Option Stats) → DsResult × Option Stats
stats s none = (invalid, none)
stats s (some old) =
    (success, some (record old { current_elements = s.count; max_elements = 0; memory_used = 0 }))
