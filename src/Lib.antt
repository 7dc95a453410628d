-- ===== src/Lib.antt =====
-- A user-level SSD cache: processes that share one NVMe device through SPDK keep 32 KiB blocks of
-- files on it. A request for pages of a file (lib/pio.c) is checked and sent by
-- lib/ssd_cache_target.c to the cache or to the file, as the mapping says. The mapping
-- (lib/ssd_cache_mapping.c, inc/cache.h) has an array of entries, one for each cache block, a free, a
-- clean and a dirty list of entries linked by index, and a hash table from file name and cache page
-- to entry. A miss puts a request into the work queue (lib/work_queue.c), from which a worker thread
-- takes it: the worker promotes the block, or makes room by a demotion or a writeback.
--
-- Files:
--   Common     names of the libraries, tests, lists measured by native numbers, C strings
--   Config     inc/config.h
--   WorkQueue  lib/work_queue.c. Inv: the requests that a ring stands for; Ops: the bounded queue;
--              Refine: the ring against the queue; Search: contains_work
--   Entry      struct entry, struct entry_space and the flags. Flags: one flag at a time; Fields: the
--              fields that a write leaves
--   Ilist      struct ilist, l_init to l_pop_head. Seg, Defs: a list in memory; Add, Del: insertion
--              and deletion
--   Alloc      struct entry_alloc, init_allocator to get_index
--   HashTable  struct hash_table, hash_32 to h_remove. Chain, Table: a table in memory; Hash; Steps,
--              Lookup, Update: the operations
--   Mapping    the mapping of inc/cache.h and init_mapping. Migrate: the two ends of each transfer;
--              Worker: mg_start and do_migration_work; Access: the requests of the clients. Shape,
--              Buckets, Status, Inv: the representation invariant, at each point where the worker can
--              stand; Moves, Keys, Pool, Places, Requests, Queueing, Facts, Client: how the pieces of
--              a step keep it; Lookup, Hits, Sizes, Insert, Overwrite, Discard, Written: the
--              requests; Promotion, Departure, Completion, Ends, Promoted, Rounds, Work: the worker;
--              Start: init_mapping; Steps, Safety: clients and worker interleaved
--   Pio        lib/pio.c. Pages: what a chain covers
--   Target     lib/ssd_cache_target.c. Range: the blocks of a request; Submit:
--              a request as a whole; Hit: requests for pages that are in the cache;
--              Answer: requests for any page
--   Sgl        the scatter-gather callbacks of lib/spdk.c. Cover: the bytes that they hand out
--   Spdk       the reads, writes and trims of lib/spdk.c. Poll: that they end; Setup: the search for
--              the device and its queue pairs; Attach: when it succeeds
--   Shm        lib/shm.c. Objects: which memory the processes share
--   Spinlock   lib/atomic.c, and threads with sections under the lock. Serial: sections one after the
--              other; Atomic: the threads against them; Progress: that a thread comes in
--   Api        lib/ssd_cache_api.c. Users: the sections under the lock of the user count; Count: what
--              the count is; Migration: the migration thread; Start: init_ssd_cache; Link: a user;
--              Exit: exit_ssd_cache; Request: submit_pio
--   Fio        fio/: the engines. Queue: the requests that they make
--   Testing    testing.c: the client. Client: a run of it
--   Tests      the theorems at concrete inputs
--
-- State. A pointer to an entry is its index; arrays are functions of the index; an `unsigned` is a
-- number with its wrap-around written out (`% 2 ^ 32`). A function that changes the mapping returns
-- the new one. A result under Option is none where the source dereferences a null pointer or where
-- a search does not end, and the theorems say that this does not happen. A function that holds
-- `mapping_lock` or the queue's lock from its start to its end is one step, and the locks are not
-- part of the state: Spinlock says why that is enough. Names of files are strings of bytes without
-- zero; they are taken to fit their buffers, which the source does not test. Searches of a bucket
-- run on fuel for one entry more than there are cache blocks, which is enough since a bucket has no
-- entry twice; searches of the queue run on fuel for as many rounds as the ring has places. The
-- polling loops of lib/spdk.c have their rounds as an argument: how many are enough is the driver's
-- matter.
--
-- The search for a namespace and the wait of exit_ssd_cache have their rounds as an argument too; one
-- round is enough for the search if the first namespace that the driver reports is there.
--
-- Files, the device, the driver, the system and the threads are parameters (Mapping.Worker.Devices,
-- Target.Storage, Spdk.Driver, Spdk.Setup.Nvme, Shm.System, Api.Threads): records of functions on a
-- world. The hypotheses on them are that the driver runs the callback of every command that it
-- accepts, whatever the status of the completion, has the namespaces that it reports and a sector
-- size for them, that the names, descriptors and mappings of the processes stand for objects as POSIX
-- says (Shm.Objects.IsPosix), and that strlen and memset end on the buffers of the requests, strlen
-- because a zero byte follows at some place (Target.Range.HasPages, Testing.Client.IsBuffer). A
-- process unlinks only after a successful link (Api.Users), though the source lets any process do so
-- that has the shared memory of a running cache.
--
-- In lib/ssd_cache_api.c a call runs on what the process has of its own, the memory behind its
-- shared_cache and the world, and each section under the lock of struct state is one step of it; the
-- sections of any number of processes are interleaved in Api.Users, with one access of the count at a
-- time.
--
-- Not modelled: all that prints, alloc_dma_buffer and free_dma_buffer (one call of the driver each,
-- parameters of Testing), what a cancellation does to the migration thread before its end (it can
-- act in the middle of a transfer, in the calls on files), atomic_add_fetch (not called), the
-- writeback worker of lib/ssd_cache_api.c (commented out), the delays, the buffers and callbacks of
-- the engines under fio/, the server of testing.c (it works on a new object after it has unlinked
-- the name) and the programs under examples/.
pub mod Common
pub mod Config
pub mod WorkQueue
pub mod Entry
pub mod Ilist
pub mod HashTable
pub mod Alloc
pub mod Mapping
pub mod Pio
pub mod Target
pub mod Api
pub mod Fio
pub mod Testing
pub mod Sgl
pub mod Shm
pub mod Spinlock
pub mod Spdk
pub mod Tests
