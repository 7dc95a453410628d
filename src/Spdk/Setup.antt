-- ===== src/Spdk/Setup.antt =====
-- lib/spdk.c: the search for the cache device and its queue pairs, and their release. The driver is a
-- parameter. What is printed is left out, with the name of the controller, which is only for printing.
use user_level_ssd_cache_fra.Common.{
  ℕ, zero, suc, Bool, true, false, Option, none, some, List, [], ◌∷◌, ◌==◌, if◌then◌else◌, ◌>>=◌,
  Text, same_text,
}
use user_level_ssd_cache_fra.Spdk.{QueueType, io_queue, mg_queue}

-- "0000:04:00.0"
abbrev pub nvme_addr : Text
nvme_addr = 48 ∷ 48 ∷ 48 ∷ 48 ∷ 58 ∷ 48 ∷ 52 ∷ 58 ∷ 48 ∷ 48 ∷ 46 ∷ 48 ∷ []

-- `struct ctrlr_entry`; a pointer is a number, `NULL` is `none`.
pub record CtrlrEntry : Type 0 where
  pub ctrlr : Option ℕ
  pub ns : Option ℕ
  pub qpair : QueueType → Option ℕ
  pub isfind : Bool

-- a controller that `spdk_nvme_probe` finds
pub record Controller : Type 0 where
  pub traddr : Text
  pub handle : ℕ

-- The calls of the driver. `env_init` is false below zero. `probe` gives the result of
-- `spdk_nvme_probe`, and the controllers for which it calls back, in order. Identifiers of namespaces
-- start at 1, and 0 is the end.
pub record Nvme (World : Type 0) : Type 0 where
  pub env_init : World → Bool × World
  pub env_fini : World → World
  pub probe : World → ℕ × List Controller × World
  pub get_first_active_ns : (ctrlr : ℕ) → World → ℕ
  pub get_next_active_ns : (ctrlr nsid : ℕ) → World → ℕ
  pub get_ns : (ctrlr nsid : ℕ) → World → Option ℕ
  pub ns_is_active : (ns : ℕ) → World → Bool
  pub alloc_io_qpair : (ctrlr : Option ℕ) → World → Option ℕ × World
  pub free_io_qpair : (qpair : Option ℕ) → World → World
  pub detach : (ctrlr : Option ℕ) → World → World
  pub get_sector_size : (ns : Option ℕ) → World → ℕ
  pub get_size : (ns : Option ℕ) → World → ℕ

-- `memset(&target, 0, ...)`
abbrev pub reset_ctrlr_and_ns : CtrlrEntry
reset_ctrlr_and_ns = record { ctrlr = none; ns = none; qpair = λ _. none; isfind = false }

abbrev pub set_qpair : CtrlrEntry → QueueType → Option ℕ → CtrlrEntry
set_qpair target io_queue q = record target {
  qpair = λ t. elim t [ io_queue ↦ q | mg_queue ↦ target.qpair mg_queue ];
}
set_qpair target mg_queue q = record target {
  qpair = λ t. elim t [ io_queue ↦ target.qpair io_queue | mg_queue ↦ q ];
}

module _ {World : Type 0} (d : Nvme World) where
  open d use {
    env_init, env_fini, probe, get_first_active_ns, get_next_active_ns, get_ns, ns_is_active,
    alloc_io_qpair, free_io_qpair, detach, get_sector_size, get_size,
  }

  unfoldable pub create_qpair : CtrlrEntry → QueueType → World → CtrlrEntry × World
  create_qpair target type w =
      let (q, w₁) = alloc_io_qpair target.ctrlr w in (set_qpair target type q, w₁)

  unfoldable pub destroy_qpair : CtrlrEntry → QueueType → World → World
  destroy_qpair target type w = free_io_qpair (target.qpair type) w

  unfoldable pub register_ns : CtrlrEntry → ℕ → World → CtrlrEntry
  register_ns target ns w =
      if ns_is_active ns w then record target { ns = some ns; isfind = true } else target

  -- The loop over the namespaces, which ends at the first one that there is, or at 0; the first
  -- argument is the rounds that are left.
  unfoldable pub first_ns : ℕ → CtrlrEntry → (ctrlr nsid : ℕ) → World → Option CtrlrEntry
  unfolding register_ns
  first_ns zero target ctrlr nsid w = if nsid == 0 then some target else none
  first_ns (suc rounds) target ctrlr nsid w =
      let rest = first_ns rounds target ctrlr (get_next_active_ns ctrlr nsid w) w in
      if nsid == 0
      then some target
      else elim (get_ns ctrlr nsid w) [ none ↦ rest | some ns ↦ some (register_ns target ns w) ]

  unfoldable pub attach_cb : ℕ → CtrlrEntry → Controller → World → Option CtrlrEntry
  unfolding first_ns
  attach_cb rounds target c w =
      if same_text c.traddr nvme_addr
      then first_ns rounds (record target { ctrlr = some c.handle }) c.handle
          (get_first_active_ns c.handle w) w
      else some target

  -- the calls of `attach_cb` by `spdk_nvme_probe`
  unfoldable pub attach_all : ℕ → CtrlrEntry → List Controller → World → Option CtrlrEntry
  attach_all rounds target [] w = some target
  attach_all rounds target (c ∷ cs) w = do
    target₁ ← attach_cb rounds target c w
    attach_all rounds target₁ cs w

  -- the loop over the queue pairs
  unfoldable pub create_qpairs : CtrlrEntry → World → CtrlrEntry × World
  unfolding create_qpair
  create_qpairs target w =
      let (target₁, w₁) = create_qpair (record target { qpair = λ _. none }) io_queue w in
      create_qpair target₁ mg_queue w₁

  -- what follows the search, with its result
  unfoldable pub after_probe : ℕ → CtrlrEntry → World → ℕ × CtrlrEntry × World
  after_probe rc target w =
      let (target₁, w₁) = create_qpairs target w in
      if rc == 0
      then (if target.isfind then (0, target₁, w₁) else (1, target, w))
      else (1, target, w)

  unfoldable pub init_spdk : ℕ → CtrlrEntry → World → Option (ℕ × CtrlrEntry × World)
  unfolding attach_all after_probe
  init_spdk rounds target w =
      let (started, w₁) = env_init w in
      let (rc, found, w₂) = probe w₁ in
      if started
      then (do
        target₁ ← attach_all rounds reset_ctrlr_and_ns found w₂
        some (after_probe rc target₁ w₂))
      else some (1, target, w₁)

  unfoldable pub exit_spdk : CtrlrEntry → World → CtrlrEntry × World
  unfolding destroy_qpair
  exit_spdk target w =
      if target.isfind
      then (
        reset_ctrlr_and_ns,
        env_fini
            (detach target.ctrlr (destroy_qpair target mg_queue (destroy_qpair target io_queue w))),
      )
      else (target, w)

  -- `none` leaves `*block_size` and `*device_size` as they are.
  unfoldable pub get_device_info : CtrlrEntry → World → Option (ℕ × ℕ)
  get_device_info target w =
      if target.isfind then some (get_sector_size target.ns w, get_size target.ns w) else none
