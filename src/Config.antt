-- ===== src/Config.antt =====
-- inc/config.h: the sizes of the cache, and the requests.
use user_level_ssd_cache_fra.Common.{ℕ, ◌^◌, ◌*◌, [], ◌∷◌, Text}

pub data Operate : Type 0 where
  read write discard : Operate

pub data MgType : Type 0 where
  promotion demotion writeback : MgType

abbrev pub cblock_shift : ℕ
cblock_shift = 15

abbrev pub cache_block_size : ℕ
cache_block_size = 2 ^ cblock_shift

abbrev pub cache_block_number : ℕ
cache_block_number = 2 ^ 15

abbrev pub buckets_number : ℕ
buckets_number = cache_block_number * 2 ^ 2

abbrev pub page_shift : ℕ
page_shift = 12

abbrev pub page_size : ℕ
page_size = 2 ^ page_shift

abbrev pub max_path_size : ℕ
max_path_size = 2 ^ 5

abbrev pub max_workqueue_size : ℕ
max_workqueue_size = 2 ^ 4

-- An `unsigned` has 32 bits.
abbrev pub unsigned_mod : ℕ
unsigned_mod = 2 ^ 32

-- "/udm_cache"
abbrev pub shm_cache_name : Text
shm_cache_name = 47 ∷ 117 ∷ 100 ∷ 109 ∷ 95 ∷ 99 ∷ 97 ∷ 99 ∷ 104 ∷ 101 ∷ []
