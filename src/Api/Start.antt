-- ===== src/Api/Start.antt =====
-- lib/ssd_cache_api.c, `init_ssd_cache`: each of its ends, and the mapping that it leaves.
use user_level_ssd_cache_fra.Common.{
  ℕ, suc, ◌<◌, ◌≤◌, ◌≡◌, ◌≢◌, ◌∙◌, refl, sym, ap, subst, Bool, true, false, Option, none, some, [],
  ◌==◌, ltb, lt_of_test, le_of_test, if◌then◌else◌, ◌>>=◌, Bool-cases, Option-cases, inl, inr,
  arith,
}
use user_level_ssd_cache_fra.Config.{cache_block_number, shm_cache_name}
use user_level_ssd_cache_fra.WorkQueue.Inv.{contents}
use user_level_ssd_cache_fra.WorkQueue.Inv
use user_level_ssd_cache_fra.Mapping.{Mapping, init_mapping}
use user_level_ssd_cache_fra.Mapping.Status.{status}
use user_level_ssd_cache_fra.Mapping.Inv.{idle, IsMapping}
use user_level_ssd_cache_fra.Mapping.Start.{fresh_view, init_mapping-IsMapping}
use user_level_ssd_cache_fra.Target.{Device}
use user_level_ssd_cache_fra.Shm.{alloc_shm}
use user_level_ssd_cache_fra.Shm
use user_level_ssd_cache_fra.Spdk.Setup.{CtrlrEntry, Nvme, get_device_info}
use user_level_ssd_cache_fra.Spdk.Attach.{HasNamespaces, is_available, init_spdk-is_available}
use user_level_ssd_cache_fra.Api.{
  Shared, State, Threads, build_device, target_size, wakeup_mg_worker, run_cache, build_cache,
  start_cache, init_ssd_cache,
}

-- What `init_mapping` relies on in the memory, and what is so in memory that is all zero.
pub record IsZeroed (m : Mapping) : Type 0 where
  pub flags : (i : ℕ) → status m.es i ≡ (false, false, false)
  pub valid : Inv.IsValid m.wq
  pub empty : contents m.wq ≡ []

-- A namespace has a size of its sectors.
abbrev pub HasSectors : {World : Type 0} → Nvme World → Type 0
HasSectors {World} nvme = (ns : Option ℕ) (w : World) → nvme.get_sector_size ns w ≢ 0

module _ {World : Type 0} (os : Shm.System World) (nvme : Nvme World) (th : Threads World)
    (sizeof_cache : ℕ) where
  -- The ends of `init_ssd_cache`: there is no shared memory, a cache is running in it, there is no
  -- device, or the device is too small, in which case its description is left behind; else the cache
  -- runs.
  pub data Init (st : State World) : ℕ → State World → Type 0 where
    no_memory :
        (st' : State World)
        → (alloc_shm os shm_cache_name sizeof_cache st.world).0 ≡ none
        → st'.shared_cache ≡ none
        → st'.shared ≡ st.shared
        → Init st 1 st'
    is_running :
        (st' : State World) → st.shared.running ≡ true → st'.shared ≡ st.shared → Init st 1 st'
    no_device :
        (st' : State World)
        → is_available nvme (alloc_shm os shm_cache_name sizeof_cache st.world).1 ≡ false
        → st'.shared ≡ st.shared
        → Init st 1 st'
    too_small :
        (st' : State World) (dev : Device)
        → dev.device_size < target_size
        → st'.shared ≡ record (st.shared) { cache = record (st.shared.cache) { cache_dev = dev } }
        → Init st 1 st'
    started :
        (st' : State World) (address : ℕ)
        → st'.shared_cache ≡ some address
        → st'.shared.running ≡ true
        → st'.shared.count ≡ 0
        → target_size ≤ st'.shared.cache.cache_dev.device_size
        → IsMapping st'.shared.cache.cache_map (fresh_view cache_block_number) idle
        → Init st 0 st'

  info_at :
      (target : CtrlrEntry) (w : World)
      → target.isfind ≡ true
      → get_device_info nvme target w
        ≡ some (nvme.get_sector_size target.ns w, nvme.get_size target.ns w)
  unfolding get_device_info
  info_at target w found = rw found refl

  -- The start of the worker touches nothing but the worker and the world.
  wakeup-fields :
      (st : State World)
      → ((wakeup_mg_worker os nvme th sizeof_cache st).1.shared.cache ≡ st.shared.cache)
        × ((wakeup_mg_worker os nvme th sizeof_cache st).1.shared_cache ≡ st.shared_cache)
  unfolding wakeup_mg_worker
  wakeup-fields st = elim (Option-cases st.shared_cache) [
    | inl null ↦ rw null (refl, refl)
    | inr (a, at) ↦ elim (Bool-cases (st.shared.mg_worker == 0)) [
      | inl free ↦ rw (at, free) (refl, refl)
      | inr busy ↦ rw (at, busy) (refl, refl)
    ]
  ]

  run_cache-started :
      (st₀ st : State World) (address : ℕ)
      → st.shared_cache ≡ some address
      → target_size ≤ st.shared.cache.cache_dev.device_size
      → IsMapping st.shared.cache.cache_map (fresh_view cache_block_number) idle
      → Init st₀ (run_cache os nvme th sizeof_cache st).0 (run_cache os nvme th sizeof_cache st).1
  unfolding run_cache
  run_cache-started st₀ st address at large inv =
      let (cache, mapped) = wakeup-fields st in
      started _ address (mapped ∙ at) refl refl
        (omega (arith, ap (λ k. k.cache_dev.device_size) cache, large))
        (subst (λ k. IsMapping k.cache_map (fresh_view cache_block_number) idle) (sym cache) inv)

  build_cache-Init :
      HasSectors nvme
      → (st₀ st : State World) (address : ℕ) → st.shared ≡ st₀.shared
      → st.shared_cache ≡ some address
      → st.target.isfind ≡ true
      → IsZeroed st.shared.cache.cache_map
      → (rc : ℕ) × (st' : State World) × (build_cache os nvme th sizeof_cache st ≡ some (rc, st'))
        × Init st₀ rc st'
  unfolding build_cache build_device
  build_cache-Init sectors st₀ st address same at found clear =
      let block_size = nvme.get_sector_size st.target.ns st.world in
      let device_size = nvme.get_size st.target.ns st.world in
      let m = st.shared.cache.cache_map in
      let dev = build_device block_size device_size in
      let m' = (init_mapping m block_size cache_block_number).1 in
      let some_size : (block_size == 0) ≡ false = ground (arith, sectors st.target.ns st.world) in
      let info : get_device_info nvme st.target st.world ≡ some (block_size, device_size) =
        info_at st.target st.world found in
      let (rc, inv) =
        init_mapping-IsMapping m block_size cache_block_number clear.flags clear.valid clear.empty
          (sectors st.target.ns st.world) (omega arith) (omega arith) in
      elim (Bool-cases (ltb device_size target_size)) [
        | inl small ↦
            rw (info, some_size, small)
              (
                1,
                _,
                refl,
                too_small _ dev (lt_of_test device_size target_size small) (
                    ap (λ (k : Shared). record k { cache = record (k.cache) { cache_dev = dev } })
                      same),
              )
        | inr large ↦
            rw (info, some_size, large, rc)
              (
                0,
                _,
                refl,
                run_cache-started st₀
                    (record st {
                      shared = record (st.shared) {
                        cache = record { cache_dev = dev; cache_map = m' };
                      };
                    })
                    address at (le_of_test device_size target_size large) inv,
              )
      ]

  start_cache-Init :
      HasNamespaces nvme
      → HasSectors nvme
      → (rounds : ℕ) (st₀ st : State World) (address : ℕ)
      → st.world ≡ (alloc_shm os shm_cache_name sizeof_cache st₀.world).1
      → st.shared ≡ st₀.shared
      → st.shared_cache ≡ some address
      → IsZeroed st.shared.cache.cache_map
      → (rc : ℕ) × (st' : State World) × (start_cache os nvme th sizeof_cache (suc rounds) st
          ≡ some (rc, st'))
        × Init st₀ rc st'
  unfolding start_cache
  start_cache-Init has sectors rounds st₀ st address here same at clear =
      let (target, w, step, found) = init_spdk-is_available nvme has rounds st.target st.world in
      let st₁ : State World = record st { target = target; world = w } in
      let built = build_cache os nvme th sizeof_cache st₁ in
      let next : ℕ × CtrlrEntry × World → Option (ℕ × State World) = λ r.
        let st₁ : State World = record st { target = r.1; world = r.2 } in
        if r.0 == 0 then build_cache os nvme th sizeof_cache st₁ else some (1, st₁) in
      let by_status : Bool → Option (ℕ × State World) =
        λ b. if (if b then 0 else 1) == 0 then built else some (1, st₁) in
      elim (Bool-cases (is_available nvme st.world)) [
        | inr missing ↦ (
          1,
          st₁,
          ap (λ o. o >>= next) step ∙ ap by_status missing,
          no_device _ (ap (is_available nvme) (sym here) ∙ missing) same,
        )
        | inl available ↦
            let (rc, st', build, ends) =
              build_cache-Init sectors st₀ st₁ address same at (ground (arith, found)) clear in
            (rc, st', ap (λ o. o >>= next) step ∙ ap by_status available ∙ build, ends)
      ]

  -- On a driver that has the namespaces and the sector sizes that it reports, and in memory whose
  -- mapping is zeroed unless a cache is running in it, `init_ssd_cache` ends. It fails with 1 if there
  -- is no shared memory, if a cache is running in it, if the device is not available or if it is too
  -- small, and then leaves the state, the worker and the mapping in the shared memory as they are; else
  -- it returns 0, the cache is running without users, the device has room for every cache block, and
  -- the mapping keeps its invariant with every cache block free.
  pub init_ssd_cache-Init :
      HasNamespaces nvme
      → HasSectors nvme
      → (rounds : ℕ) (st : State World)
      → (st.shared.running ≡ false → IsZeroed st.shared.cache.cache_map)
      → (rc : ℕ) × (st' : State World) × (init_ssd_cache os nvme th sizeof_cache (suc rounds) st
          ≡ some (rc, st'))
        × Init st rc st'
  unfolding init_ssd_cache start_cache
  init_ssd_cache-Init has sectors rounds st clear =
      let allocated = alloc_shm os shm_cache_name sizeof_cache st.world in
      let w₁ = allocated.1 in
      let st₁ : State World = record st { shared_cache = allocated.0; world = w₁ } in
      let starts = start_cache os nvme th sizeof_cache (suc rounds) st₁ in
      let by_running : Bool → Option (ℕ × State World) = λ b. if b then some (1, st₁) else starts in
      let by_memory : Option ℕ → Option (ℕ × State World) =
        λ o. elim o [ none ↦ some (1, st₁) | some _ ↦ by_running st.shared.running ] in
      elim (Option-cases allocated.0) [
        | inl null ↦ (1, st₁, ap by_memory null, no_memory _ null null refl)
        | inr (address, at) ↦ elim (Bool-cases st.shared.running) [
          | inl runs ↦ (1, st₁, ap by_memory at ∙ ap by_running runs, is_running _ runs refl)
          | inr stopped ↦
              let (rc, st', ends, out) =
                start_cache-Init has sectors rounds st st₁ address refl refl at (clear stopped) in
              (rc, st', ap by_memory at ∙ ap by_running stopped ∙ ends, out)
        ]
      ]
