-- ===== src/Entry.antt =====
-- lib/ssd_cache_mapping.c, the entries: `struct entry` and `struct entry_space` of inc/cache.h, the
-- reset of an entry and its three flags. A `struct entry *` is the index of the entry in `entrys`,
-- and `NULL` is `none`.
pub mod Flags
pub mod Fields
use user_level_ssd_cache_fra.Common.{
  ℕ, ◌+◌, ◌-◌, ◌*◌, ◌/◌, ◌%◌, ◌^◌, Bool, true, false, not, Option, none, some, [], ◌==◌,
  if◌then◌else◌, update, Text,
}
use user_level_ssd_cache_fra.Config.{cache_block_number}

-- `INDEXER_NULL`
abbrev pub indexer_null : ℕ
indexer_null = 2 ^ 28 - 1

pub record Entry : Type 0 where
  pub hash_next : ℕ
  pub prev : ℕ
  pub next : ℕ
  pub param : ℕ  -- three bits: pending, dirty, alloc
  pub full_path_name : Text
  pub cache_page_index : ℕ

pub record EntrySpace : Type 0 where
  pub entrys : ℕ → Entry
  pub begin : ℕ
  pub end : ℕ

unfoldable pub alloc_es : EntrySpace → EntrySpace
alloc_es es = record es { begin = 0; end = cache_block_number - 1 }

abbrev pub to_index : ℕ → ℕ
to_index e = e

abbrev pub to_entry : ℕ → Option ℕ
to_entry block = if block == indexer_null then none else some block

-- a write of the whole entry; the writes of one field go through it
abbrev pub put_entry : EntrySpace → ℕ → Entry → EntrySpace
put_entry es i e = record es { entrys = update es.entrys i e }

unfoldable pub set_next : EntrySpace → ℕ → ℕ → EntrySpace
set_next es i v = put_entry es i (record (es.entrys i) { next = v })

unfoldable pub set_prev : EntrySpace → ℕ → ℕ → EntrySpace
set_prev es i v = put_entry es i (record (es.entrys i) { prev = v })

unfoldable pub set_hash_next : EntrySpace → ℕ → ℕ → EntrySpace
set_hash_next es i v = put_entry es i (record (es.entrys i) { hash_next = v })

unfoldable pub init_entry : Entry → Entry
init_entry e = record {
  hash_next = indexer_null;
  prev = indexer_null;
  next = indexer_null;
  param = 0;
  full_path_name = [];
  cache_page_index = indexer_null;
}

-- Bit `k` of the field, and the field with bit `k` set (`|= 1 << k`) or cleared (`&= ~(1 << k)`).
-- The field is three bits wide.
abbrev pub bit : ℕ → ℕ → Bool
bit k n = n / 2 ^ k % 2 == 1

abbrev pub put_bit : ℕ → Bool → ℕ → ℕ
put_bit k b n = (n - n / 2 ^ k % 2 * 2 ^ k + (if b then 2 ^ k else 0)) % 2 ^ 3

unfoldable pub entry_set_pending : Entry → Bool → Entry
entry_set_pending e pending = record e { param = put_bit 0 pending e.param }

unfoldable pub entry_get_pending : Option Entry → Bool
entry_get_pending none = false
entry_get_pending (some e) = bit 0 e.param

unfoldable pub entry_set_dirty : Entry → Bool → Entry
entry_set_dirty e dirty = record e { param = put_bit 1 dirty e.param }

unfoldable pub entry_get_dirty : Option Entry → Bool
entry_get_dirty none = false
entry_get_dirty (some e) = bit 1 e.param

unfoldable pub entry_set_alloc : Entry → Bool → Entry
entry_set_alloc e alloc = record e { param = put_bit 2 alloc e.param }

unfoldable pub entry_get_alloc : Option Entry → Bool
entry_get_alloc none = false
entry_get_alloc (some e) = bit 2 e.param
