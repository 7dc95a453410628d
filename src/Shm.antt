-- ===== src/Shm.antt =====
-- lib/shm.c: the shared memory object of the cache. The system calls are a parameter. An address is a
-- number, and `NULL` is `none`. Messages of `perror` are left out.
pub mod Objects
use user_level_ssd_cache_fra.Common.{ℕ, Bool, true, false, Option, none, some, if◌then◌else◌, Text}

-- `PROT_READ` alone or with `PROT_WRITE`, and `MAP_SHARED` or `MAP_PRIVATE`
pub data Protection : Type 0 where
  read_only read_write : Protection

pub data Sharing : Type 0 where
  map_shared map_private : Sharing

-- The calls, on a world that holds the objects, the descriptors and the mappings of all processes:
-- `none` and `false` are a failure (-1, or `MAP_FAILED`). `shm_open` is with or without `O_CREAT`, for
-- reading and writing; `mmap` chooses the address and begins at offset 0.
pub record System (World : Type 0) : Type 0 where
  pub shm_open : (shm_name : Text) (create : Bool) → World → Option ℕ × World
  pub ftruncate : (shm_fd shm_size : ℕ) → World → Bool × World
  pub mmap :
      (shm_size : ℕ) (prot : Protection) (flags : Sharing) (shm_fd : ℕ) → World → Option ℕ × World
  pub munmap : (shm_ptr shm_size : ℕ) → World → Bool × World
  pub shm_unlink : (shm_name : Text) → World → Bool × World

module _ {World : Type 0} (os : System World) where
  open os use {shm_open, ftruncate, mmap, munmap, shm_unlink}

  unfoldable pub alloc_shm : Text → ℕ → World → Option ℕ × World
  alloc_shm shm_name shm_size w =
      let (opened, w₁) = shm_open shm_name true w in
      elim opened [
        | none ↦ (none, w₁)
        | some shm_fd ↦
            let (sized, w₂) = ftruncate shm_fd shm_size w₁ in
            if sized then mmap shm_size read_write map_shared shm_fd w₂ else (none, w₂)
      ]

  unfoldable pub link_shm : Text → ℕ → World → Option ℕ × World
  link_shm shm_name shm_size w =
      let (opened, w₁) = shm_open shm_name false w in
      elim opened [
        | none ↦ (none, w₁)
        | some shm_fd ↦ mmap shm_size read_write map_shared shm_fd w₁
      ]

  unfoldable pub unmap_shm : ℕ → ℕ → World → ℕ × World
  unmap_shm shm_ptr shm_size w =
      let (done, w₁) = munmap shm_ptr shm_size w in if done then (0, w₁) else (1, w₁)

  unfoldable pub unlink_shm : Text → World → ℕ × World
  unlink_shm shm_name w =
      let (done, w₁) = shm_unlink shm_name w in if done then (0, w₁) else (1, w₁)
