-- ===== src/Spdk/Attach.antt =====
-- lib/spdk.c, `init_spdk`: when it succeeds.
use user_level_ssd_cache_fra.Common.{
  ℕ, suc, ◌≡◌, ◌≢◌, refl, ap, Bool, true, false, not, ◌&&◌, ◌||◌, none, some, List, [], ◌∷◌, ◌==◌,
  if◌then◌else◌, same_text, Bool-cases, inl, inr, arith,
}
use user_level_ssd_cache_fra.Spdk.Setup.{
  CtrlrEntry, Controller, Nvme, nvme_addr, register_ns, first_ns, attach_cb, attach_all,
  create_qpairs, create_qpair, after_probe, init_spdk, reset_ctrlr_and_ns,
}

module _ {World : Type 0} (d : Nvme World) where
  -- The first active namespace of a controller is there: the driver has no null one for it.
  abbrev pub HasNamespaces : Type 0
  HasNamespaces =
      (ctrlr : ℕ) (w : World)
      → d.get_first_active_ns ctrlr w ≢ 0
      → (ns : ℕ) × (d.get_ns ctrlr (d.get_first_active_ns ctrlr w) w ≡ some ns)

  -- A controller at the address of the cache device, with an active first namespace.
  abbrev pub is_usable : Controller → World → Bool
  is_usable c w =
      same_text c.traddr nvme_addr
      && (not (d.get_first_active_ns c.handle w == 0)
          && elim (d.get_ns c.handle (d.get_first_active_ns c.handle w) w) [
            | none ↦ false
            | some ns ↦ d.ns_is_active ns w
          ])

  abbrev pub any_usable : List Controller → World → Bool
  any_usable [] w = false
  any_usable (c ∷ cs) w = is_usable c w || any_usable cs w

  -- The environment starts, the search for controllers succeeds, and one of them is usable.
  abbrev pub is_available : World → Bool
  is_available w =
      let (started, w₁) = d.env_init w in
      let (rc, found, w₂) = d.probe w₁ in started && ((rc == 0) && any_usable found w₂)

  create_qpairs-isfind :
      (target : CtrlrEntry) (w : World) → (create_qpairs d target w).0.isfind ≡ target.isfind
  unfolding create_qpairs create_qpair
  create_qpairs-isfind target w = refl

  by_isfind :
      (found : Bool) (target target₁ : CtrlrEntry) (w w₁ : World)
      → target₁.isfind ≡ found
      → (target' : CtrlrEntry) × (w' : World) × (◌≡◌ {A = ℕ × CtrlrEntry × World}
          (if found then (0, target₁, w₁) else (1, target, w))
          (if found then 0 else 1, target', w'))
        × ((found && not target'.isfind) ≡ false)
  by_isfind true target target₁ w w₁ e = (target₁, w₁, refl, ap not e)
  by_isfind false target target₁ w w₁ e = (target, w, refl, refl)

  -- After the search, the status is 0 exactly if it has succeeded and found the device, and then the
  -- device still counts as found.
  after_probe-isfind :
      (rc : ℕ) (target : CtrlrEntry) (w : World)
      → (target' : CtrlrEntry) × (w' : World) × (after_probe d rc target w
          ≡ (if (rc == 0) && target.isfind then 0 else 1, target', w'))
        × ((((rc == 0) && target.isfind) && not target'.isfind) ≡ false)
  unfolding after_probe
  after_probe-isfind rc target w = elim (Bool-cases (rc == 0)) [
    | inr failed ↦ rw failed (target, w, refl, refl)
    | inl done ↦
        let (target₁, w₁) = create_qpairs d target w in
        rw done (by_isfind target.isfind target target₁ w w₁ (create_qpairs-isfind target w))
  ]

  module _ (has : HasNamespaces) (rounds : ℕ) where
    attach_cb-isfind :
        (target : CtrlrEntry) (c : Controller) (w : World)
        → (target' : CtrlrEntry) × (attach_cb d (suc rounds) target c w ≡ some target')
          × (target'.isfind ≡ (target.isfind || is_usable c w))
    unfolding attach_cb first_ns register_ns
    attach_cb-isfind target c w = elim (Bool-cases (same_text c.traddr nvme_addr)) [
      | inr other ↦ rw other (target, refl, ground arith)
      | inl same ↦ elim (Bool-cases (d.get_first_active_ns c.handle w == 0)) [
        | inl no_ns ↦ rw (same, no_ns) (_, refl, ground arith)
        | inr some_ns ↦
            let (ns, at) = has c.handle w (ground arith) in
            elim (Bool-cases (d.ns_is_active ns w)) [
              | inl active ↦ rw (same, some_ns, at, active) (_, refl, ground arith)
              | inr inactive ↦ rw (same, some_ns, at, inactive) (_, refl, ground arith)
            ]
      ]
    ]

    attach_all-isfind :
        (target : CtrlrEntry) (cs : List Controller) (w : World)
        → (target' : CtrlrEntry) × (attach_all d (suc rounds) target cs w ≡ some target')
          × (target'.isfind ≡ (target.isfind || any_usable cs w))
    unfolding attach_all
    attach_all-isfind target [] w = (target, refl, ground arith)
    attach_all-isfind target (c ∷ cs) w =
        let (target₁, step, found) = attach_cb-isfind target c w in
        let (target₂, rest, found') = attach_all-isfind target₁ cs w in
        (target₂, rw step rest, ground arith)

    -- If a controller that reports a first active namespace has it, `init_spdk` ends. It returns 0
    -- exactly if the environment starts, the search succeeds and finds a controller at the address of
    -- the cache device whose first namespace is active, else 1; after a 0 the device counts as found.
    pub init_spdk-is_available :
        (target : CtrlrEntry) (w : World)
        → (target' : CtrlrEntry) × (w' : World) × (init_spdk d (suc rounds) target w
            ≡ some (if is_available w then 0 else 1, target', w'))
          × ((is_available w && not target'.isfind) ≡ false)
    unfolding init_spdk
    init_spdk-is_available target w =
        let w₁ = (d.env_init w).1 in
        let (rc, found, w₂) = d.probe w₁ in
        let (target₁, step, finds) = attach_all-isfind reset_ctrlr_and_ns found w₂ in
        let (target₂, w₃, ends, kept) = after_probe-isfind rc target₁ w₂ in
        elim (Bool-cases (d.env_init w).0) [
          | inr failed ↦ rw failed (target, w₁, refl, refl)
          | inl started ↦ rw (started, step, ends, ← finds) (target₂, w₃, refl, kept)
        ]
