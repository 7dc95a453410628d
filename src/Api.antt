-- ===== src/Api.antt =====
-- lib/ssd_cache_api.c: the start and the end of the cache and of its users, the migration thread, and
-- the entry of a request. The system, the driver and the threads are parameters; what is printed is
-- left out.
pub mod Users
pub mod Count
pub mod Migration
pub mod Start
pub mod Link
pub mod Exit
pub mod Request
use user_level_ssd_cache_fra.Common.{
  ℕ, zero, suc, ◌*◌, ◌/◌, Bool, true, false, not, ◌&&◌, Option, none, some, List, [], ◌∷◌, ◌==◌,
  ltb, if◌then◌else◌, ◌>>=◌, Text,
}
use user_level_ssd_cache_fra.Config.{
  page_size, cache_block_size, cache_block_number, shm_cache_name,
}
use user_level_ssd_cache_fra.WorkQueue.{is_empty}
use user_level_ssd_cache_fra.Pio.{Pio}
use user_level_ssd_cache_fra.Mapping.{Mapping, init_mapping, log2}
use user_level_ssd_cache_fra.Mapping.Worker.{Devices, do_migration_work}
use user_level_ssd_cache_fra.Target.{Device, Cache, Storage}
use user_level_ssd_cache_fra.Target
use user_level_ssd_cache_fra.Shm.{alloc_shm, link_shm, unmap_shm, unlink_shm}
use user_level_ssd_cache_fra.Shm
use user_level_ssd_cache_fra.Spdk.Setup.{CtrlrEntry, Nvme, init_spdk, exit_spdk, get_device_info}
use user_level_ssd_cache_fra.Api.Users.{link_count, unlink_count, no_users}

-- `struct cache`, without its locks: the state, the device and the mapping, and the worker thread
pub record Shared : Type 0 where
  pub running : Bool
  pub count : ℕ
  pub cache : Cache
  pub mg_worker : ℕ

-- What a process has of its own, the object of the shared memory that a call works on, and the rest
-- of the world. The address is `none` for `NULL`.
pub record State (World : Type 0) : Type 0 where
  pub shared_cache : Option ℕ
  pub target : CtrlrEntry
  pub shared : Shared
  pub world : World

-- The calls of pthread.h: a result and the thread that has been created, and the result of a join, which
-- comes with what the thread has done to the mapping until it ended. `sleep` is what the other processes do to the shared memory in the meantime.
pub record Threads (World : Type 0) : Type 0 where
  pub pthread_create : World → ℕ × ℕ × World
  pub pthread_cancel : (thread : ℕ) → World → World
  pub pthread_join : (thread : ℕ) → Mapping → World → ℕ × Mapping × World
  pub sleep : Shared → World → Shared × World

-- `cache_dev`, as `init_ssd_cache` fills it
unfoldable pub build_device : (block_size device_size : ℕ) → Device
build_device block_size device_size = record {
  block_size = block_size;
  device_size = device_size;
  cache_block_num = cache_block_number;
  block_per_cblock_shift = log2 (cache_block_size / block_size);
  block_per_page_shift = log2 (page_size / block_size);
}

-- `target_size`
abbrev pub target_size : ℕ
target_size = cache_block_number * cache_block_size

module _ {World : Type 0} (os : Shm.System World) (nvme : Nvme World) (th : Threads World)
    (sizeof_cache : ℕ) where
  open th use {pthread_create, pthread_cancel, pthread_join, sleep}

  unfoldable pub wakeup_mg_worker : State World → ℕ × State World
  wakeup_mg_worker st = elim st.shared_cache [
    | none ↦ (1, st)
    | some _ ↦
        let (rc, thread, w₁) = pthread_create st.world in
        if st.shared.mg_worker == 0
        then (rc, record st { shared = record (st.shared) { mg_worker = thread }; world = w₁ })
        else (1, st)
  ]

  unfoldable pub shutdown_mg_worker : State World → ℕ × State World
  shutdown_mg_worker st = elim st.shared_cache [
    | none ↦ (1, st)
    | some _ ↦
        let (rc, m, w₁) =
          pthread_join st.shared.mg_worker st.shared.cache.cache_map
            (pthread_cancel st.shared.mg_worker st.world) in
        let cache = record (st.shared.cache) { cache_map = m } in
        if st.shared.mg_worker == 0 then (1, st) else (
          rc,
          record st { shared = record (st.shared) { cache = cache; mg_worker = 0 }; world = w₁ },
        )
  ]

  -- from the start of the worker to the end of `init_ssd_cache`
  unfoldable pub run_cache : State World → ℕ × State World
  unfolding wakeup_mg_worker
  run_cache st =
      let (_, st₁) = wakeup_mg_worker st in
      (0, record st₁ { shared = record (st₁.shared) { running = true; count = 0 } })

  -- the device and the mapping; `none` is a division by a block size of 0
  unfoldable pub build_cache : State World → Option (ℕ × State World)
  unfolding run_cache build_device
  build_cache st =
      let info : ℕ × ℕ = elim (get_device_info nvme st.target st.world) [
        | some info ↦ info
        | none ↦ (st.shared.cache.cache_dev.block_size, st.shared.cache.cache_dev.device_size)
      ] in
      let (block_size, device_size) = info in
      let dev = build_device block_size device_size in
      let (rc, m) = init_mapping st.shared.cache.cache_map block_size cache_block_number in
      let st₁ = record st {
        shared = record (st.shared) { cache = record (st.shared.cache) { cache_dev = dev } };
      } in
      if block_size == 0
      then none
      else (if ltb device_size target_size
          then some (1, st₁)
          else (if rc == 0
              then some (
                  run_cache (record st {
                    shared = record (st.shared) {
                      cache = record { cache_dev = dev; cache_map = m };
                    };
                  }))
              else some (1, st₁)))

  -- what follows the test of `running`: the number is the bound of the search for a namespace
  unfoldable pub start_cache : ℕ → State World → Option (ℕ × State World)
  unfolding build_cache
  start_cache rounds st = do
    (rc, target, w) ← init_spdk nvme rounds st.target st.world
    let st₁ = record st { target = target; world = w }
    if rc == 0 then build_cache st₁ else some (1, st₁)

  unfoldable pub init_ssd_cache : ℕ → State World → Option (ℕ × State World)
  unfolding start_cache
  init_ssd_cache rounds st =
      let (mapped, w) = alloc_shm os shm_cache_name sizeof_cache st.world in
      let st₁ = record st { shared_cache = mapped; world = w } in
      elim mapped [
        | none ↦ some (1, st₁)
        | some _ ↦ if st.shared.running then some (1, st₁) else start_cache rounds st₁
      ]

  -- what follows the test of `running`
  unfoldable pub join_cache : ℕ → State World → Option (ℕ × State World)
  join_cache rounds st = do
    (rc, target, w) ← init_spdk nvme rounds st.target st.world
    let st₁ = record st { target = target; world = w }
    let count = link_count st.shared.count
    some (
        if rc == 0
        then (0, record st₁ { shared = record (st.shared) { count = count } })
        else (1, st₁))

  unfoldable pub link_ssd_cache : ℕ → State World → Option (ℕ × State World)
  unfolding join_cache
  link_ssd_cache rounds st =
      let (mapped, w) = link_shm os shm_cache_name sizeof_cache st.world in
      let st₁ = record st { shared_cache = mapped; world = w } in
      elim mapped [
        | none ↦ some (1, st₁)
        | some _ ↦ if st.shared.running then join_cache rounds st₁ else some (1, st₁)
      ]

  -- what follows the test of `running`
  unfoldable pub leave_cache : (address : ℕ) → State World → ℕ × State World
  leave_cache address st =
      let (target, w₁) = exit_spdk nvme st.target st.world in
      let (rc, w₂) = unmap_shm os address sizeof_cache w₁ in
      let st₁ = record st {
        target = target;
        shared = record (st.shared) { count = unlink_count st.shared.count };
        world = w₂;
      } in
      if rc == 0 then (0, record st₁ { shared_cache = none }) else (1, st₁)

  unfoldable pub unlink_ssd_cache : State World → ℕ × State World
  unlink_ssd_cache st = elim st.shared_cache [
    | none ↦ (1, st)
    | some address ↦ if st.shared.running then leave_cache address st else (1, st)
  ]

  -- The wait for the users, with the rounds that are left; `none` is a wait that is not over then.
  unfoldable pub wait_users : ℕ → Shared → World → Option (Shared × World)
  wait_users zero shared w = if no_users shared.count then some (shared, w) else none
  wait_users (suc rounds) shared w =
      let (shared₁, w₁) = sleep shared w in
      let rest = wait_users rounds shared₁ w₁ in
      if no_users shared.count then some (shared, w) else rest

  -- what follows the wait
  unfoldable pub end_cache : ℕ → State World → ℕ × State World
  unfolding shutdown_mg_worker
  end_cache address st =
      let (_, st₁) = shutdown_mg_worker st in
      let (target, w₁) = exit_spdk nvme st₁.target st₁.world in
      let (rc, w₂) = unmap_shm os address sizeof_cache w₁ in
      let (rc', w₃) = unlink_shm os shm_cache_name w₂ in
      if rc == 0
      then (if rc' == 0
          then (0, record st₁ { shared_cache = none; target = target; world = w₃ })
          else (1, record st₁ { target = target; world = w₃ }))
      else (1, record st₁ { target = target; world = w₂ })

  unfoldable pub exit_ssd_cache : ℕ → State World → Option (ℕ × State World)
  unfolding wait_users end_cache
  exit_ssd_cache rounds st = elim st.shared_cache [
    | none ↦ some (1, st)
    | some address ↦
        if st.shared.running
        then (do
          (shared, w) ← wait_users rounds st.shared st.world
          some (end_cache address (record st { shared = shared; world = w })))
        else some (1, st)
  ]

  unfoldable pub force_exit_ssd_cache : State World → State World
  unfolding shutdown_mg_worker
  force_exit_ssd_cache st =
      let (_, st₁) = shutdown_mg_worker st in
      let (_, w) = unlink_shm os shm_cache_name st₁.world in record st₁ { world = w }

-- `submit_pio` of this file: the tests, and `_submit_pio`. The empty chain is `NULL`.
unfoldable pub submit_pio : (s : Storage) → State (s.World) → Pio → Option (ℕ × State (s.World))
submit_pio s st pio = elim st.shared_cache [
  | none ↦ some (1, st)
  | some _ ↦
      if st.shared.running
      then (elim pio [
        | [] ↦ some (1, st)
        | node ∷ next ↦ (do
          (rc, cache, w) ← Target.submit_pio s st.shared.cache node next st.world
          some (rc, record st { shared = record (st.shared) { cache = cache }; world = w }))
      ])
      else some (1, st)
]
