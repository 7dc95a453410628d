-- ===== src/HashTable/Hash.antt =====
-- The hash is a bucket number.
use user_level_ssd_cache_fra.Common.{ℕ, ◌<◌, ◌≡◌, refl, arith, Text}
use user_level_ssd_cache_fra.Config.{buckets_number}
use user_level_ssd_cache_fra.Entry.{indexer_null}
use user_level_ssd_cache_fra.HashTable.{
  HashTable, hash_step, hash_text, keep_bits, hash_32, alloc_hash_table,
}

-- the bits that the allocated table keeps
abbrev pub table_bits : ℕ
table_bits = 17

-- `alloc_hash_table` keeps as many bits as number the buckets.
pub hash_bits-alloc : (ht : HashTable) → (alloc_hash_table ht).hash_bits ≡ table_bits
unfolding alloc_hash_table
hash_bits-alloc ht = refl

keep_bits-lt : (v : ℕ) → keep_bits table_bits v < buckets_number
keep_bits-lt v = omega arith

pub hash_32-lt_bits : (name : Text) (index : ℕ) → hash_32 name index table_bits < buckets_number
unfolding hash_32
hash_32-lt_bits name index = keep_bits-lt (hash_text (hash_step 5381 index) name)

-- Every key hashes to a bucket of the allocated table.
pub hash_32-lt :
    (ht : HashTable) (name : Text) (index : ℕ)
    → hash_32 name index (alloc_hash_table ht).hash_bits < buckets_number
hash_32-lt ht name index = rw (hash_bits-alloc ht) (hash_32-lt_bits name index)

-- `alloc_hash_table` empties every bucket.
pub buckets-alloc :
    (ht : HashTable) (h : ℕ) → h < buckets_number → (alloc_hash_table ht).buckets h ≡ indexer_null
unfolding alloc_hash_table
buckets-alloc ht h lt = ground arith
