-- ===== src/Api.antt =====
-- include/ds_api.h and the word arithmetic of the headers: result codes, key/value pairs, the
-- output buffer of a pop, and the arena allocator as the structures call it.
pub mod Queue
pub mod Bounded
pub mod Lane
pub mod Zeroed
use bpf_arena_data_structure.Base.{
  ℕ, ◌+◌, ◌-◌, ◌%◌, ◌^◌, ◌≡◌, Option, none, some, List, length, Bool, ltb,
}

-- `enum ds_result`
pub data DsResult : Type 0 where
  success not_found exists nomem invalid corrupt busy full : DsResult

-- `struct ds_kv`. Keys and values (u64) are moved and compared, never computed with.
pub record Kv : Type 0 where
  pub key : ℕ
  pub value : ℕ

abbrev pub kv : ℕ → ℕ → Kv
kv k v = record { key = k; value = v }

abbrev pub zero_kv : Kv
zero_kv = kv 0 0

-- `sizeof(struct ds_kv)`
abbrev pub sizeof_kv : ℕ
sizeof_kv = 16

abbrev pub u32 : ℕ → ℕ
u32 n = n % 2 ^ 32

abbrev pub u64 : ℕ → ℕ
u64 n = n % 2 ^ 64

-- `a - b` on `__u32` and on `__u64`
abbrev pub sub_u32 : ℕ → ℕ → ℕ
sub_u32 a b = (a + 2 ^ 32 - b) % 2 ^ 32

abbrev pub sub_u64 : ℕ → ℕ → ℕ
sub_u64 a b = (a + 2 ^ 64 - b) % 2 ^ 64

-- The order of `int`, on the bit patterns of its values.
abbrev pub lt_s32 : ℕ → ℕ → Bool
lt_s32 a b = ltb (u32 (a + 2 ^ 31)) (u32 (b + 2 ^ 31))

-- A `struct ds_kv *out`: `none` is NULL, else the buffer that it points to.
abbrev pub Out : Type 0
Out = Option Kv

-- `if (out) { out->key = ...; out->value = ...; }`
abbrev pub store : Out → Kv → Out
store none x = none
store (some _) x = some x

-- `bpf_arena_alloc`. Address 0 is NULL. `block s a n` is the memory at
-- address `a` read as an array of `n` pairs, and `words s a n` as one of `n` words of 64 bits.
pub record Allocator : Type 1 where
  pub State : Type 0
  pub alloc : State → ℕ → ℕ × State
  pub block : State → ℕ → ℕ → List Kv
  pub length-block : (s : State) (a n : ℕ) → length (block s a n) ≡ n
  pub words : State → ℕ → ℕ → List ℕ
  pub length-words : (s : State) (a n : ℕ) → length (words s a n) ≡ n
