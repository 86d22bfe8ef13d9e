-- ===== src/Lib.antt =====
-- A model of the concurrent data structures for BPF arenas, with proofs. The program is a set of C
-- headers under include/, each with one structure that BPF programs and userspace share through an
-- arena: ring buffers, an append buffer, and linked structures over the allocator of
-- include/libarena_ds.h. Most functions have a `_lkmm` body for BPF, a `_c` body for userspace and a
-- router between the two; the bodies differ in memory orders only, so one definition stands for the
-- three. The applications under src/ relay pairs from one structure to another.
--
-- Which file models what:
--   Api           include/ds_api.h: result codes, key/value pairs, the output buffer of a pop, the
--                 arithmetic of __u32, __u64 and int, and the allocator as the structures see it
--   Api/Queue     the abstract bounded queue (or stack) that a client sees
--   Api/Bounded   the interface that a structure of fixed capacity implements, with the theorems on
--                 whole runs of calls that every implementation takes from it
--   FollySpsc     include/ds_folly_spsc.h (ds_spsc_*): `init`, `insert`, `delete`, `pop`, ...
--                 Threads and Fifo: one producer and one consumer at the same time
--   CkRingSpsc    include/ds_ck_ring_spsc.h (ds_ck_ring_spsc_*)
--   IoUring       include/ds_io_uring.h (ds_io_uring_*)
--   Arena         include/libarena_ds.h: Arena/User, the userspace allocator (range, allocation,
--                 release); Arena/Kernel, the allocation and release of the BPF side
--   Vyukhov       include/ds_vyukhov.h (ds_vyukhov_*); Threads: any number of producers and consumers at
--                 the same time
--   MsQueue       include/ds_msqueue.h (ds_msqueue_*): a linked queue whose tail may lag behind
--   CkFifoSpsc    include/ds_ck_fifo_spsc.h (ds_ck_fifo_spsc_*): a linked queue that uses its entries
--                 again; Threads and Order: one producer and one consumer at the same time
--   Linked        the links of both as lists of addresses
--   CkStack       include/ds_ck_stack_upmc.h (ds_ck_stack_upmc_*); the linked entries are a
--                 list of addresses in CkStack/Chain; Cycle: the two cursors of its verify; Threads and
--                 Linear: any number of threads that push and pop at the same time
--   Metrics       include/ds_metrics.h (ds_metrics_record)
--   Api/Lane      the interface by which a relay uses a structure
--   Relay         the applications src/skeleton_*: lsm_inode_create, relay_worker, the consuming probe,
--                 trigger_kernel_consumer_on_exit and verify_data_structure over any lane. Relay/Folly, Relay/CkRing,
--                 Relay/IoUring and Relay/Vyukhov are src/skeleton_folly_spsc, skeleton_ck_ring_spsc,
--                 skeleton_io_uring and skeleton_vyukhov (.bpf.c and .c) over their structures
--   Kcov          include/ds_kcov.h (ds_kcov_*); Nested: an insertion that interrupts another one
-- Each ring and the buffer has its state and operations in its own file, the representation invariant
-- `IsValid` and the abstract `contents` in Inv, the refinement of the abstract queue in Refine, and
-- runs on concrete inputs in Tests. Base and Bits hold lists over native numbers, arithmetic and bit
-- operations, and Window the reading of a ring buffer as a list.
--
-- Correspondence. A state is a record with the fields of the C struct; a pointer to an array is
-- kept as its address (0 is NULL) beside the list of the array's elements. An operation takes the
-- state and returns the result code, the new state and, for a pop, the output buffer (`none` for a
-- NULL one). Indices wrap as the C types do: `u32`, `u64`, `sub_u32`, `lt_s32`. An operation is one
-- call run to its end, except in FollySpsc/Threads, CkFifoSpsc/Threads, CkStack/Threads and
-- Vyukhov/Threads, where a step is one shared access of a producer or a consumer, and Kcov/Nested,
-- where another call runs between two accesses.
--
-- Bounds. The validity after an initialisation asks that the byte count fits the `unsigned int`
-- that bpf_arena_alloc takes (fewer than 2^28 pairs or cells, or 2^29 words); the C code does not
-- test this. An access outside the memory that was granted reads zeros or changes nothing in the
-- model, and the validity of each ring asks for memory for all its slots. The loops of the linked
-- structures and of the Vyukhov queue run on fuel, which stands for how often `can_loop` lets them
-- go round. A call that runs by itself needs one round to push or pop (in the Michael-Scott queue,
-- one more for each element that the tail lags behind), and as many as there are entries to search.
-- The loop of trigger_kernel_consumer_on_exit runs on the attempts that are left. The interleavings
-- of the Vyukhov queue are bounded by 2^63 insertions, so that positions do not wrap.
--
-- Not modelled. Memory orders weaker than sequential consistency, and compiler reordering: steps of
-- threads interleave, and each sees the last write. The macros, statistics and printing of
-- include/ds_api.h carry no logic. The spin lock around a userspace allocation makes it one step.
-- The pages that the kernel gives and takes back, and the processor's number, are parameters. What
-- the applications under src/ do besides the handlers, the drain on exit and the final check
-- (loading, options, printing) has no model here, and those over the CK FIFO, the Michael-Scott
-- queue, the CK stack and the kcov buffer are not instances of the relay. A handler of an
-- application is one step. Casts between address spaces do nothing here.
pub mod CkStack
pub mod Arena
pub mod Base
pub mod Bits
pub mod Api
pub mod Window
pub mod FollySpsc
pub mod CkFifoSpsc
pub mod CkRingSpsc
pub mod IoUring
pub mod Kcov
pub mod Vyukhov
pub mod MsQueue
pub mod Linked
pub mod Metrics
pub mod Relay
