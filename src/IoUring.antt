-- ===== src/IoUring.antt =====
-- include/ds_io_uring.h: a ring of a power of two slots with free-running `__u32` indices, which
-- wrap at 2^32 and are masked only to find a slot. Each function stands for its `_lkmm` and `_c`
-- variants and the router between them, which differ in memory orders only. A write out of the
-- array's range, which `Inv.antt` excludes, changes nothing here.
pub mod Inv
pub mod Refine
pub mod Roundtrip
mod Tests
use bpf_arena_data_structure.Base.{
  ℕ, ◌+◌, ◌-◌, ◌*◌, ◌/◌, ◌%◌, ◌^◌, Bool, not, ◌||◌, List, get_or, set, bit_and, bit_or, leb, ltb,
  ◌==◌, if◌then◌else◌,
}
use bpf_arena_data_structure.Api.{
  DsResult, success, not_found, nomem, invalid, corrupt, full, Kv, kv, zero_kv, sizeof_kv, u32,
  sub_u32, Out, store, Allocator,
}

-- `struct ds_io_uring_ring_head` (`prod.tail` is `tail`, `cons.head` is `head`), with the memory that
-- `entries` points to in `cells`.
pub record Ring : Type 0 where
  pub tail : ℕ
  pub head : ℕ
  pub ring_entries : ℕ
  pub ring_mask : ℕ
  pub sq_flags : ℕ
  pub entries : ℕ
  pub cells : List Kv

-- `DS_IO_URING_SQ_FLAG_FULL`
abbrev pub flag_full : ℕ
flag_full = 1

-- `!ring_entries || (ring_entries & (ring_entries - 1))`
unfoldable pub not_pow2 : ℕ → Bool
not_pow2 ring_entries =
    ring_entries == 0 || not (bit_and ring_entries (sub_u32 ring_entries 1) == 0)

module _ (a : Allocator) where
  -- The argument of `bpf_arena_alloc` is an `unsigned int`.
  abbrev pub bytes : ℕ → ℕ
  bytes ring_entries = u32 (ring_entries * sizeof_kv)

  unfoldable pub init : a.State → Ring → ℕ → DsResult × Ring × a.State
  init s ring ring_entries =
      if not_pow2 ring_entries
      then (invalid, ring, s)
      else let (entries, s') = a.alloc s (bytes ring_entries) in
        if entries == 0 then (nomem, ring, s') else (
          success,
          record {
            tail = 0;
            head = 0;
            ring_entries = ring_entries;
            ring_mask = sub_u32 ring_entries 1;
            sq_flags = 0;
            entries = entries;
            cells = a.block s' entries (bytes ring_entries / sizeof_kv);
          },
          s',
        )

unfoldable pub insert : Ring → ℕ → ℕ → DsResult × Ring
insert ring key value =
    if leb ring.ring_entries (sub_u32 ring.tail ring.head)
    then (full, record ring { sq_flags = bit_or ring.sq_flags flag_full })
    else (
      success,
      record ring {
        cells = set ring.cells (bit_and ring.tail ring.ring_mask) (kv key value);
        tail = u32 (ring.tail + 1);
        sq_flags = bit_and ring.sq_flags (2 ^ 32 - 1 - flag_full);
      },
    )

unfoldable pub pop : Ring → Out → DsResult × Ring × Out
pop ring out = if ring.head == ring.tail then (not_found, ring, out) else (
  success,
  record ring { head = u32 (ring.head + 1) },
  store out (get_or ring.cells (bit_and ring.head ring.ring_mask) zero_kv),
)

unfoldable pub search : Ring → ℕ → DsResult
search ring key = invalid

unfoldable pub verify : Ring → DsResult
verify ring =
    if not_pow2 ring.ring_entries
    then corrupt
    else if not (ring.ring_mask == sub_u32 ring.ring_entries 1)
    then corrupt
    else if ltb ring.ring_entries (sub_u32 ring.tail ring.head)
    then corrupt
    else success
