-- ===== src/Mapping/Worker.antt =====
-- lib/ssd_cache_mapping.c, `mg_start` and `do_migration_work`: the worker takes the oldest request and
-- promotes it, or makes room for it by a demotion or a writeback. The file system and the device are
-- a parameter.
use user_level_ssd_cache_fra.Common.{
  ℕ, ◌*◌, ◌%◌, ◌^◌, Bool, true, false, Option, none, some, ◌==◌, if◌then◌else◌, ◌>>=◌, Text, [],
}
use user_level_ssd_cache_fra.Config.{
  MgType, promotion, demotion, writeback, cblock_shift, cache_block_size, unsigned_mod,
}
use user_level_ssd_cache_fra.WorkQueue.{Work, peak_work, remove_work}
use user_level_ssd_cache_fra.Entry.{to_entry}
use user_level_ssd_cache_fra.Mapping.{Mapping}
use user_level_ssd_cache_fra.Mapping.Migrate.{
  promotion_free_to_clean, promotion_complete, demotion_clean_to_free, demotion_complete,
  writeback_dirty_to_clean, writeback_complete,
}

-- What the worker asks of the file system and of lib/spdk.c. The world holds the files, the device
-- and the DMA buffer. `none` is a descriptor below zero, `false` a transfer that returns less than
-- zero, and the numbers are the results of lib/spdk.c, zero for success.
pub record Devices : Type 1 where
  pub World : Type 0
  pub open_read : Text → World → Option ℕ × World
  pub open_write : Text → World → Option ℕ × World
  pub pread : (fd size offset : ℕ) → World → Bool × World
  pub pwrite : (fd size offset : ℕ) → World → Bool × World
  pub close : (fd : ℕ) → World → World
  pub read_spdk : (offset_block num_block : ℕ) → World → ℕ × World
  pub write_spdk : (offset_block num_block : ℕ) → World → ℕ × World
  pub trim_spdk : (offset_block num_block : ℕ) → World → ℕ × World

-- `x << shift` on `unsigned`
abbrev pub shift_left : ℕ → ℕ → ℕ
shift_left x shift = x * 2 ^ shift % unsigned_mod

module _ (d : Devices) where
  open d use {World, open_read, open_write, pread, pwrite, close, read_spdk, write_spdk, trim_spdk}

  -- The end of a promotion: the block goes from the buffer to the device.
  promotion_to_ssd : Mapping → (cblock : ℕ) → World → Bool × World
  promotion_to_ssd m cblock w =
      let shift = m.block_per_cblock_shift in
      let (rc, w₁) = write_spdk (shift_left cblock shift) (shift_left 1 shift) w in (rc == 0, w₁)

  -- from the file at `fd` to the device
  promotion_from : Mapping → (fd cache_page_index cblock : ℕ) → World → Bool × World
  unfolding promotion_to_ssd
  promotion_from m fd cache_page_index cblock w =
      let (done, w₁) = pread fd cache_block_size (shift_left cache_page_index cblock_shift) w in
      if done then promotion_to_ssd m cblock (close fd w₁) else (false, w₁)

  -- the end of a writeback, from the buffer to the file at `fd`
  writeback_to : (fd cache_page_index : ℕ) → World → Bool × World
  writeback_to fd cache_page_index w =
      let (done, w₁) = pwrite fd cache_block_size (shift_left cache_page_index cblock_shift) w in
      if done then (true, close fd w₁) else (false, w₁)

  writeback_to_hdd : Text → (cache_page_index : ℕ) → World → Bool × World
  unfolding writeback_to
  writeback_to_hdd full_path_name cache_page_index w =
      let (opened, w₁) = open_write full_path_name w in
      elim opened [ none ↦ (false, w₁) | some fd ↦ writeback_to fd cache_page_index w₁ ]

  unfoldable pub mg_start :
      Mapping → Text → (cache_page_index cblock : ℕ) → MgType → World → Bool × World
  unfolding promotion_from writeback_to_hdd
  mg_start m full_path_name cache_page_index cblock promotion w =
      let (opened, w₁) = open_read full_path_name w in
      elim opened [ none ↦ (false, w₁) | some fd ↦ promotion_from m fd cache_page_index cblock w₁ ]
  mg_start m full_path_name cache_page_index cblock demotion w =
      let shift = m.block_per_cblock_shift in
      let (_, w₁) = trim_spdk (shift_left cache_page_index shift) (shift_left 1 shift) w in
      (true, w₁)
  mg_start m full_path_name cache_page_index cblock writeback w =
      let shift = m.block_per_cblock_shift in
      let (rc, w₁) = read_spdk (shift_left cblock shift) (shift_left 1 shift) w in
      if rc == 0 then writeback_to_hdd full_path_name cache_page_index w₁ else (false, w₁)

  -- the three branches of `do_migration_work`
  unfoldable pub promote : Mapping → Work → (cblock : ℕ) → World → Option (Mapping × World)
  promote m job cblock w = do
    let (success, w₁) = mg_start m job.full_path_name job.cache_page_index cblock promotion w
    m₁ ← promotion_complete m cblock success
    some (m₁, w₁)

  -- The call passes a null name and the page index 0.
  unfoldable pub demote : Mapping → (cblock : ℕ) → World → Option (Mapping × World)
  demote m cblock w = do
    let (success, w₁) = mg_start m [] 0 cblock demotion w
    m₁ ← demotion_complete m cblock success
    some (m₁, w₁)

  unfoldable pub write_back : Mapping → (cblock : ℕ) → World → Option (Mapping × World)
  write_back m cblock w = do
    e ← to_entry cblock
    let key = m.es.entrys e
    let (success, w₁) = mg_start m key.full_path_name key.cache_page_index cblock writeback w
    m₁ ← writeback_complete m cblock success
    some (m₁, w₁)

  -- the chain of the three, for one request
  unfoldable pub migrate : Mapping → Work → World → Option (Mapping × World)
  unfolding promote demote write_back
  migrate m job w = do
    (promoted, m₁) ← promotion_free_to_clean m job.full_path_name job.cache_page_index
    elim promoted [
      | some cblock ↦ promote m₁ job cblock w
      | none ↦ (do
        (demoted, m₂) ← demotion_clean_to_free m₁
        elim demoted [
          | some cblock ↦ demote m₂ cblock w
          | none ↦ (do
            (written, m₃) ← writeback_dirty_to_clean m₂
            elim written [ some cblock ↦ write_back m₃ cblock w | none ↦ some (m₃, w) ])
        ])
    ]

  unfoldable pub do_migration_work : Mapping → World → Option (Bool × Mapping × World)
  unfolding migrate
  do_migration_work m w = elim (peak_work m.wq) [
    | none ↦ some (false, m, w)
    | some job ↦ (do
      (m₁, w₁) ← migrate m job w
      let (_, wq) = remove_work m₁.wq
      some (true, record m₁ { wq = wq }, w₁))
  ]
