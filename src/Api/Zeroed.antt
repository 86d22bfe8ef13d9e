-- ===== src/Api/Zeroed.antt =====
-- Test data: an arena whose every allocation lies at one address, in zeroed memory.
use bpf_arena_data_structure.Base.{ℕ, replicate, length-replicate}
use bpf_arena_data_structure.Api.{zero_kv, Allocator}

abbrev pub zeroed : Allocator
zeroed = record {
  State = ℕ;
  alloc = λ s n. (4096, s);
  block = λ s a n. replicate n zero_kv;
  length-block = λ s a n. length-replicate n zero_kv;
  words = λ s a n. replicate n 0;
  length-words = λ s a n. length-replicate n 0;
}
