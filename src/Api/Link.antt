-- ===== src/Api/Link.antt =====
-- lib/ssd_cache_api.c, `link_ssd_cache` and `unlink_ssd_cache`: one undoes the other.
use user_level_ssd_cache_fra.Common.{
  ℕ, suc, ◌<◌, ◌≡◌, ◌∙◌, refl, ap, Bool, true, Option, none, some, ◌==◌, if◌then◌else◌, ◌>>=◌,
  Bool-cases, Option-cases, inl, inr, arith,
}
use user_level_ssd_cache_fra.Config.{unsigned_mod, shm_cache_name}
use user_level_ssd_cache_fra.Shm.{link_shm, unmap_shm}
use user_level_ssd_cache_fra.Shm
use user_level_ssd_cache_fra.Spdk.Setup.{CtrlrEntry, Nvme, reset_ctrlr_and_ns, exit_spdk}
use user_level_ssd_cache_fra.Spdk.Attach.{HasNamespaces, is_available, init_spdk-is_available}
use user_level_ssd_cache_fra.Api.Users.{link_count, unlink_count}
use user_level_ssd_cache_fra.Api.{
  Shared, State, Threads, join_cache, leave_cache, link_ssd_cache, unlink_ssd_cache,
}

pub link_count-unlink_count :
    (count : ℕ) → count < unsigned_mod → unlink_count (link_count count) ≡ count
link_count-unlink_count count small = omega arith

module _ {World : Type 0} (os : Shm.System World) (nvme : Nvme World) (th : Threads World)
    (sizeof_cache : ℕ) where
  -- What the release of the device leaves, if there was one.
  exit_spdk-reset :
      (target : CtrlrEntry) (w : World)
      → target.isfind ≡ true
      → (exit_spdk nvme target w).0 ≡ reset_ctrlr_and_ns
  unfolding exit_spdk
  exit_spdk-reset target w found = rw found refl

  pub leave_cache-shared :
      (address : ℕ) (st : State World)
      → ((leave_cache os nvme th sizeof_cache address st).1.shared
          ≡ record (st.shared) { count = unlink_count st.shared.count })
        × ((leave_cache os nvme th sizeof_cache address st).1.target
            ≡ (exit_spdk nvme st.target st.world).0)
  unfolding leave_cache
  leave_cache-shared address st =
      let w₁ = (exit_spdk nvme st.target st.world).1 in
      elim (Bool-cases ((unmap_shm os address sizeof_cache w₁).0 == 0)) [
        | inl done ↦ rw done (refl, refl)
        | inr stuck ↦ rw stuck (refl, refl)
      ]

  -- A user's unlink is what follows the tests.
  pub unlink_ssd_cache-leave_cache :
      (st : State World) (address : ℕ)
      → st.shared_cache ≡ some address
      → st.shared.running ≡ true
      → unlink_ssd_cache os nvme th sizeof_cache st ≡ leave_cache os nvme th sizeof_cache address st
  unfolding unlink_ssd_cache
  unlink_ssd_cache-leave_cache st address at runs =
      let leaves = leave_cache os nvme th sizeof_cache in
      let by_memory : Option ℕ → ℕ × State World = λ o. elim o [
        | none ↦ (1, st)
        | some a ↦ if st.shared.running then leaves a st else (1, st)
      ] in
      let by_running : Bool → ℕ × State World = λ b. if b then leaves address st else (1, st) in
      ap by_memory at ∙ ap by_running runs

  -- The ends of `link_ssd_cache`: it is refused, and the shared memory is as it was; or there is a
  -- running cache and a device, the count is one more, and an unlink by the same process gives back
  -- the shared memory as it was and releases the device.
  pub data Visit (st : State World) : ℕ → State World → Type 0 where
    refused : (st₁ : State World) → st₁.shared ≡ st.shared → Visit st 1 st₁
    joins :
        (st₁ : State World) (address : ℕ)
        → st₁.shared_cache ≡ some address
        → st.shared.running ≡ true
        → st₁.shared ≡ record (st.shared) { count = link_count st.shared.count }
        → (unlink_ssd_cache os nvme th sizeof_cache st₁).1.shared ≡ st.shared
        → (unlink_ssd_cache os nvme th sizeof_cache st₁).1.target ≡ reset_ctrlr_and_ns
        → Visit st 0 st₁

  joined :
      (st₀ st : State World) (address : ℕ)
      → st.shared_cache ≡ some address
      → st₀.shared.running ≡ true
      → st.shared ≡ record (st₀.shared) { count = link_count st₀.shared.count }
      → st₀.shared.count < unsigned_mod
      → st.target.isfind ≡ true
      → Visit st₀ 0 st
  joined st₀ st address at runs same small found =
      let leaves =
        unlink_ssd_cache-leave_cache st address at (ap (λ (k : Shared). k.running) same ∙ runs) in
      let (left, released) = leave_cache-shared address st in
      let back : unlink_count st.shared.count ≡ st₀.shared.count =
        ap (λ (k : Shared). unlink_count k.count) same
        ∙ link_count-unlink_count st₀.shared.count small in
      joins st address at runs same
        (ap (λ r. r.1.shared) leaves
          ∙ left
          ∙ ap (λ (k : Shared). record k { count = unlink_count st.shared.count }) same
          ∙ ap (λ (k : ℕ). record (st₀.shared) { count = k }) back)
        (ap (λ r. r.1.target) leaves ∙ released ∙ exit_spdk-reset st.target st.world found)

  join_cache-Visit :
      HasNamespaces nvme
      → (rounds : ℕ) (st₀ st : State World) (address : ℕ) → st.shared_cache ≡ some address
      → st₀.shared.running ≡ true
      → st.shared ≡ st₀.shared
      → st₀.shared.count < unsigned_mod
      → (rc : ℕ) × (st' : State World) × (join_cache os nvme th sizeof_cache (suc rounds) st
          ≡ some (rc, st'))
        × Visit st₀ rc st'
  unfolding join_cache
  join_cache-Visit has rounds st₀ st address at runs same small =
      let (target, w, step, found) = init_spdk-is_available nvme has rounds st.target st.world in
      let st₁ : State World = record st { target = target; world = w } in
      let up : Shared = record (st.shared) { count = link_count st.shared.count } in
      let next : ℕ × CtrlrEntry × World → Option (ℕ × State World) = λ r.
        let st₂ : State World = record st { target = r.1; world = r.2 } in
        some (if r.0 == 0 then (0, record st₂ { shared = up }) else (1, st₂)) in
      let by_status : Bool → Option (ℕ × State World) = λ b.
        some (if (if b then 0 else 1) == 0 then (0, record st₁ { shared = up }) else (1, st₁)) in
      elim (Bool-cases (is_available nvme st.world)) [
        | inr missing ↦ (1, st₁, ap (λ o. o >>= next) step ∙ ap by_status missing, refused _ same)
        | inl available ↦ (
          0,
          record st₁ { shared = up },
          ap (λ o. o >>= next) step ∙ ap by_status available,
          joined st₀ (record st₁ { shared = up }) address at runs
              (ap (λ (k : Shared). record k { count = link_count k.count }) same) small
              (ground (arith, found)),
        )
      ]

  -- If a controller that reports a first active namespace has it, `link_ssd_cache` ends. It returns 1
  -- and leaves the shared memory as it is, or it returns 0, with a running cache and with one user
  -- more. After a 0, if the count was below 2 ^ 32, `unlink_ssd_cache` by the same process leaves the
  -- shared memory as it was before and forgets the device.
  pub link_ssd_cache-unlink_ssd_cache :
      HasNamespaces nvme
      → (rounds : ℕ) (st : State World) → st.shared.count < unsigned_mod
      → (rc : ℕ) × (st₁ : State World) × (link_ssd_cache os nvme th sizeof_cache (suc rounds) st
          ≡ some (rc, st₁))
        × Visit st rc st₁
  unfolding link_ssd_cache
  link_ssd_cache-unlink_ssd_cache has rounds st small =
      let linked = link_shm os shm_cache_name sizeof_cache st.world in
      let st₁ : State World = record st { shared_cache = linked.0; world = linked.1 } in
      let joins = join_cache os nvme th sizeof_cache (suc rounds) st₁ in
      let by_running : Bool → Option (ℕ × State World) = λ b. if b then joins else some (1, st₁) in
      let by_memory : Option ℕ → Option (ℕ × State World) =
        λ o. elim o [ none ↦ some (1, st₁) | some _ ↦ by_running st.shared.running ] in
      elim (Option-cases linked.0) [
        | inl null ↦ (1, st₁, ap by_memory null, refused _ refl)
        | inr (address, at) ↦ elim (Bool-cases st.shared.running) [
          | inr stopped ↦ (1, st₁, ap by_memory at ∙ ap by_running stopped, refused _ refl)
          | inl runs ↦
              let (rc, st', ends, out) =
                join_cache-Visit has rounds st st₁ address at runs refl small in
              (rc, st', ap by_memory at ∙ ap by_running runs ∙ ends, out)
        ]
      ]
