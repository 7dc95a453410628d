-- ===== src/Target.antt =====
-- lib/ssd_cache_target.c: where the pages of a request are read or written, and the calls of the
-- mapping that decide it. The device and the files are a parameter.
pub mod Range
pub mod Submit
pub mod Hit
pub mod Answer
use user_level_ssd_cache_fra.Common.{
  ℕ, zero, suc, ◌+◌, ◌-◌, ◌*◌, ◌%◌, ◌^◌, Bool, true, false, ◌&&◌, Option, none, some, List, [], ◌∷◌,
  ◌==◌, leb, if◌then◌else◌, ◌>>=◌, Text,
}
use user_level_ssd_cache_fra.Config.{Operate, page_size, unsigned_mod}
use user_level_ssd_cache_fra.Pio.{Node, Pio}
use user_level_ssd_cache_fra.Sgl.{Iovec}
use user_level_ssd_cache_fra.Mapping.{Mapping}
use user_level_ssd_cache_fra.Mapping.Access.{
  lookup_mapping, lookup_mapping_with_insert, remove_mapping, set_dirty_after_write,
}
use user_level_ssd_cache_fra.Mapping.Worker.{shift_left}

-- `device`, without its size in blocks
pub record Device : Type 0 where
  pub block_size : ℕ
  pub device_size : ℕ
  pub cache_block_num : ℕ
  pub block_per_cblock_shift : ℕ
  pub block_per_page_shift : ℕ

-- the parts of `struct cache` that a request works with
pub record Cache : Type 0 where
  pub cache_dev : Device
  pub cache_map : Mapping

-- `strlen` is called twice on each buffer and reads it; its result is overwritten by PAGE_SIZE. `none`
-- is a fault: of `strlen` on a buffer that is null or runs into unmapped memory without a zero byte,
-- or of a chain with fewer nodes than `iov_cnt`.
unfoldable pub pio_to_iovec : (strlen : ℕ → Option ℕ) → Pio → ℕ → Option (List Iovec)
pio_to_iovec strlen pio zero = some []
pio_to_iovec strlen [] (suc iov_cnt) = none
pio_to_iovec strlen (node ∷ next) (suc iov_cnt) = do
  len ← strlen node.buffer
  iovs ← pio_to_iovec strlen next iov_cnt
  some (record { iov_base = node.buffer; iov_len = page_size } ∷ iovs)

-- the place on the device of the first page of a request, in blocks
unfoldable pub target_block : Cache → Node → ℕ → ℕ
target_block cache pio cblock =
    (shift_left cblock cache.cache_map.block_per_cblock_shift
      + shift_left (pio.page_index % 2 ^ 3) cache.cache_dev.block_per_page_shift)
    % unsigned_mod

-- `(8 - (page_index & 7)) >= pio_cnt`
unfoldable pub check_pio : Node → Bool
check_pio pio = leb pio.pio_cnt (8 - pio.page_index % 2 ^ 3)

unfoldable pub overwritable : Node → Bool
overwritable pio = pio.pio_cnt == 8 && pio.page_index % 2 ^ 3 == 0

abbrev pub is_read : Operate → Bool
is_read Operate.read = true
is_read _ = false

abbrev pub is_write : Operate → Bool
is_write Operate.write = true
is_write _ = false

abbrev pub is_discard : Operate → Bool
is_discard Operate.discard = true
is_discard _ = false

unfoldable pub optimizable : Node → Bool
unfolding overwritable
optimizable pio = is_write pio.operation && overwritable pio

-- What a request asks of lib/spdk.c and of the file system. An `int` of lib/spdk.c is its bit
-- pattern, zero for success; the number of bytes that `preadv` or `pwritev` returns is `none` where
-- it is below zero, and so is a descriptor. `strlen` reads the memory of the process, which is part of
-- the world; `none` is a fault.
pub record Storage : Type 1 where
  pub World : Type 0
  pub strlen : (buffer : ℕ) → World → Option ℕ
  pub readv_spdk : List Iovec → (offset_block num_block : ℕ) → World → ℕ × World
  pub writev_spdk : List Iovec → (offset_block num_block : ℕ) → World → ℕ × World
  pub open_read : Text → World → Option ℕ × World
  pub open_write : Text → World → Option ℕ × World
  pub preadv : (fd : ℕ) → List Iovec → (offset : ℕ) → World → Option ℕ × World
  pub pwritev : (fd : ℕ) → List Iovec → (offset : ℕ) → World → Option ℕ × World
  pub close : (fd : ℕ) → World → World

-- `!(res == 0)`
abbrev pub not_zero : Option ℕ → ℕ
not_zero none = 1
not_zero (some n) = if n == 0 then 0 else 1

module _ (s : Storage) where
  open s use {World, strlen, readv_spdk, writev_spdk, open_read, open_write, preadv, pwritev, close}

  unfoldable pub write_cache :
      Cache → Node → Pio → (cblock : ℕ) → World → Option (ℕ × Cache × World)
  write_cache cache pio next cblock w = do
    iovs ← pio_to_iovec (λ b. strlen b w) (pio ∷ next) pio.pio_cnt
    let (rc, w₁) =
        writev_spdk iovs (target_block cache pio cblock)
          (shift_left pio.pio_cnt cache.cache_dev.block_per_page_shift) w
    let m = set_dirty_after_write cache.cache_map cblock true
    some (if rc == 0 then (rc, record cache { cache_map = m }, w₁) else (rc, cache, w₁))

  unfoldable pub read_cache : Cache → Node → Pio → (cblock : ℕ) → World → Option (ℕ × Cache × World)
  read_cache cache pio next cblock w = do
    iovs ← pio_to_iovec (λ b. strlen b w) (pio ∷ next) pio.pio_cnt
    let (rc, w₁) =
        readv_spdk iovs (target_block cache pio cblock)
          (shift_left pio.pio_cnt cache.cache_dev.block_per_page_shift) w
    some (rc, cache, w₁)

  -- The file is opened if the request has no descriptor, and closed again.
  unfoldable pub write_origin : Node → Pio → World → Option (ℕ × World)
  write_origin pio next w = do
    iovs ← pio_to_iovec (λ b. strlen b w) (pio ∷ next) pio.pio_cnt
    let offset = shift_left pio.page_index 12
    let (opened, w₁) = open_write pio.full_path_name w
    some (
        if pio.fd == 0
        then elim opened [
          | none ↦ (1, w₁)
          | some fd ↦ (let (res, w₂) = pwritev fd iovs offset w₁ in (not_zero res, close fd w₂))
        ]
        else (let (res, w₂) = pwritev pio.fd iovs offset w in (not_zero res, w₂)))

  unfoldable pub read_origin : Node → Pio → World → Option (ℕ × World)
  read_origin pio next w = do
    iovs ← pio_to_iovec (λ b. strlen b w) (pio ∷ next) pio.pio_cnt
    let offset = shift_left pio.page_index 12
    let (opened, w₁) = open_read pio.full_path_name w
    some (
        if pio.fd == 0
        then elim opened [
          | none ↦ (1, w₁)
          | some fd ↦ (let (res, w₂) = preadv fd iovs offset w₁ in (not_zero res, close fd w₂))
        ]
        else (let (res, w₂) = preadv pio.fd iovs offset w in (not_zero res, w₂)))

  unfoldable pub map_to_cache :
      Cache → Node → Pio → (cblock : ℕ) → World → Option (ℕ × Cache × World)
  unfolding write_cache read_cache
  map_to_cache cache pio next cblock w =
      if is_read pio.operation
      then read_cache cache pio next cblock w
      else write_cache cache pio next cblock w

  unfoldable pub map_to_origin : Cache → Node → Pio → World → Option (ℕ × Cache × World)
  unfolding write_origin read_origin
  map_to_origin cache pio next w = do
    (rc, w₁) ← (if is_read pio.operation then read_origin pio next w else write_origin pio next w)
    some (rc, cache, w₁)

  -- The result of `remove_mapping` is returned as it is, `true` being 1.
  unfoldable pub discard_pio : Cache → Node → World → Option (ℕ × Cache × World)
  discard_pio cache pio w =
      if check_pio pio
      then (do
        (removed, m) ← remove_mapping cache.cache_map pio.full_path_name pio.page_index
        some (if removed then 1 else 0, record cache { cache_map = m }, w))
      else some (1, cache, w)

  -- the lookup of `map_pio`
  unfoldable pub find_block : Cache → Node → Option (Option ℕ × Mapping)
  find_block cache pio =
      if optimizable pio
      then lookup_mapping_with_insert cache.cache_map pio.full_path_name pio.page_index
      else lookup_mapping cache.cache_map pio.full_path_name pio.page_index

  unfoldable pub map_pio : Cache → Node → Pio → World → Option (ℕ × Cache × World)
  unfolding map_to_cache map_to_origin find_block
  map_pio cache pio next w =
      if check_pio pio
      then (do
        (found, m) ← find_block cache pio
        let cache₁ = record cache { cache_map = m }
        elim found [
          | some cblock ↦ map_to_cache cache₁ pio next cblock w
          | none ↦ map_to_origin cache₁ pio next w
        ])
      else some (1, cache, w)

  -- `_submit_pio`: the status, the cache and the world
  unfoldable pub submit_pio : Cache → Node → Pio → World → Option (ℕ × Cache × World)
  unfolding discard_pio map_pio
  submit_pio cache pio next w =
      if is_discard pio.operation then discard_pio cache pio w else map_pio cache pio next w
