-- ===== src/IoUring/Roundtrip.antt =====
-- What goes into an io_uring ring, from its initialisation on, comes out again.
use bpf_arena_data_structure.Base.{ℕ, ◌^◌, ◌<◌, ◌≤◌, ◌≡◌, refl, List, length, arith}
use bpf_arena_data_structure.Api.{success, Kv, Allocator}
use bpf_arena_data_structure.Api.Bounded
use bpf_arena_data_structure.Api.Bounded.Roundtrip.{puts, gets, accepted, delivered, roundtrip}
use bpf_arena_data_structure.IoUring.{Ring, init}
use bpf_arena_data_structure.IoUring.Inv.{io_uring_init-IsValid}
use bpf_arena_data_structure.IoUring.Refine.{io_uring}

-- After an accepted `ds_io_uring_init` for fewer than 2^28 entries, whatever the ring held before: when
-- as many pairs as there are entries, or fewer, are inserted, and then as many are removed, every
-- insertion and every removal answers DS_SUCCESS, and the removals deliver the pairs in order.
pub io_uring_roundtrip :
    (a : Allocator) (m : a.State) (r : Ring) (n : ℕ) (xs : List Kv)
    → n < 2 ^ 28
    → (init a m r n).0 ≡ success
    → length xs ≤ n
    → Bounded.run io_uring (init a m r n).1 (puts xs (gets xs)) ≡ accepted xs (delivered xs)
io_uring_roundtrip a m r n xs small ok room =
    let (valid, empty, sized) = io_uring_init-IsValid a m r n small ok in
    roundtrip io_uring (init a m r n).1 xs refl valid empty (omega arith)
