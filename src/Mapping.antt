-- ===== src/Mapping.antt =====
-- lib/ssd_cache_mapping.c, the mapping of inc/cache.h: which pages of which files are in the cache.
-- Each function that takes `mapping_lock` is one step on this state, since it holds the lock from its
-- start to its end; the lock itself is not part of the state. `none` is a fault: a null entry is
-- dereferenced, or a search of the hash table or of the work queue does not end. What goes through
-- `*cblock` is the result: `some cblock` for `true`, `none` for `false`.
pub mod Migrate
pub mod Access
pub mod Worker
pub mod Shape
pub mod Buckets
pub mod Moves
pub mod Status
pub mod Pool
pub mod Keys
pub mod Inv
pub mod Places
pub mod Requests
pub mod Queueing
pub mod Facts
pub mod Client
pub mod Lookup
pub mod Hits
pub mod Sizes
pub mod Insert
pub mod Overwrite
pub mod Discard
pub mod Written
pub mod Promotion
pub mod Departure
pub mod Completion
pub mod Ends
pub mod Promoted
pub mod Rounds
pub mod Work
pub mod Steps
pub mod Start
pub mod Safety
use user_level_ssd_cache_fra.Common.{
  ℕ, zero, suc, ◌+◌, ◌-◌, ◌*◌, ◌/◌, ◌%◌, ◌^◌, Bool, true, false, not, ◌&&◌, Option, none, some,
  ◌==◌, ltb, leb, if◌then◌else◌, ◌>>=◌, Text,
}
use user_level_ssd_cache_fra.Config.{cache_block_size, page_size, cache_block_number}
use user_level_ssd_cache_fra.WorkQueue.{WorkQueue, insert_work, contains_work}
use user_level_ssd_cache_fra.Entry.{
  Entry, EntrySpace, to_entry, put_entry, alloc_es, entry_set_pending, entry_get_pending,
  entry_set_dirty, entry_get_dirty, entry_get_alloc,
}
use user_level_ssd_cache_fra.Ilist.{Ilist, l_init, l_head, l_add_head, l_add_tail, l_del, inc}
use user_level_ssd_cache_fra.HashTable.{HashTable, alloc_hash_table, h_lookup, h_insert, h_remove}
use user_level_ssd_cache_fra.Alloc.{
  EntryAlloc, init_allocator, alloc_entry, free_entry, allocator_empty, get_index,
}

pub record Mapping : Type 0 where
  pub block_size : ℕ
  pub cache_block_num : ℕ
  pub block_per_cblock_shift : ℕ
  pub block_per_page_shift : ℕ
  pub es : EntrySpace
  pub ea : EntryAlloc
  pub clean : Ilist
  pub dirty : Ilist
  pub table : HashTable
  pub hit_time : ℕ
  pub miss_time : ℕ
  pub promotion_time : ℕ
  pub demotion_time : ℕ
  pub writeback_time : ℕ
  pub wq : WorkQueue

-- `LOG2`, by the bits that its argument can have
unfoldable pub log2_below : ℕ → ℕ → ℕ
log2_below zero n = 0
log2_below (suc bits) n = let rest = log2_below bits (n / 2) in if ltb 1 n then 1 + rest else 0

unfoldable pub log2 : ℕ → ℕ
log2 n = log2_below 32 n

-- The first component is the status. The five counters, the lists, the table and the allocator are
-- set, the work queue is not touched.
unfoldable pub init_mapping : Mapping → (block_size cblock_num : ℕ) → ℕ × Mapping
init_mapping m block_size cblock_num =
    if block_size == 0
    then (1, m)
    else if cblock_num == 0
    then (1, m)
    else (let (ea, es) = init_allocator m.ea (alloc_es m.es) 0 cblock_num in
        (
          0,
          record {
            block_size = block_size;
            cache_block_num = cblock_num;
            block_per_cblock_shift = log2 (cache_block_size / block_size);
            block_per_page_shift = log2 (page_size / block_size);
            es = es;
            ea = ea;
            clean = l_init m.clean;
            dirty = l_init m.dirty;
            table = alloc_hash_table m.table;
            hit_time = 0;
            miss_time = 0;
            promotion_time = 0;
            demotion_time = 0;
            writeback_time = 0;
            wq = m.wq;
          },
        ))

abbrev pub infer_cblock : Mapping → ℕ → ℕ
infer_cblock m e = get_index m.ea e

-- the entry at `e`, its flags read and written in place
abbrev pub is_pending : Mapping → ℕ → Bool
is_pending m e = entry_get_pending (some (m.es.entrys e))

abbrev pub is_dirty : Mapping → ℕ → Bool
is_dirty m e = entry_get_dirty (some (m.es.entrys e))

unfoldable pub set_pending : Mapping → ℕ → Bool → Mapping
set_pending m e b = record m { es = put_entry m.es e (entry_set_pending (m.es.entrys e) b) }

unfoldable pub set_dirty : Mapping → ℕ → Bool → Mapping
set_dirty m e b = record m { es = put_entry m.es e (entry_set_dirty (m.es.entrys e) b) }

-- `strcpy(e->full_path_name, ...)` and the assignment of `e->cache_page_index`
unfoldable pub set_key : Mapping → ℕ → Text → ℕ → Mapping
set_key m e name index = record m {
  es =
      put_entry m.es e (record (m.es.entrys e) { full_path_name = name; cache_page_index = index });
}

-- `l_add_tail(es, entry_get_dirty(e) ? &dirty : &clean, e)`, and so for `l_add_head` and `l_del`
unfoldable pub enlist_tail : Mapping → ℕ → Mapping
enlist_tail m e = elim (is_dirty m e) [
  | true ↦ (let (es, l) = l_add_tail m.es m.dirty e in record m { es = es; dirty = l })
  | false ↦ (let (es, l) = l_add_tail m.es m.clean e in record m { es = es; clean = l })
]

unfoldable pub enlist_head : Mapping → ℕ → Mapping
enlist_head m e = elim (is_dirty m e) [
  | true ↦ (let (es, l) = l_add_head m.es m.dirty e in record m { es = es; dirty = l })
  | false ↦ (let (es, l) = l_add_head m.es m.clean e in record m { es = es; clean = l })
]

unfoldable pub delist : Mapping → ℕ → Mapping
delist m e = elim (is_dirty m e) [
  | true ↦ (let (es, l) = l_del m.es m.dirty e in record m { es = es; dirty = l })
  | false ↦ (let (es, l) = l_del m.es m.clean e in record m { es = es; clean = l })
]

-- `h_insert(&mapping->table, &mapping->es, e)` and `free_entry(&mapping->ea, &mapping->es, e)`
unfoldable pub table_insert : Mapping → ℕ → Mapping
table_insert m e = let (ht, es) = h_insert m.table m.es e in record m { table = ht; es = es }

unfoldable pub release : Mapping → ℕ → Mapping
release m e = let (ea, es) = free_entry m.ea m.es e in record m { ea = ea; es = es }

-- `h_lookup`, `h_remove` and `alloc_entry` on the mapping
unfoldable pub table_lookup : Mapping → Text → ℕ → Option (Option ℕ × Mapping)
table_lookup m name index = do
  (e, ht, es) ← h_lookup m.table m.es name index
  some (e, record m { table = ht; es = es })

unfoldable pub table_remove : Mapping → ℕ → Option Mapping
table_remove m e = do (ht, es) ← h_remove m.table m.es e; some (record m { table = ht; es = es })

unfoldable pub take_entry : Mapping → Option (ℕ × Mapping)
take_entry m = do
  (popped, ea, es) ← alloc_entry m.ea m.es
  e ← popped
  some (e, record m { ea = ea; es = es })

-- `insert_work(&mapping->wq, ...)`
unfoldable pub queue_work : Mapping → Text → ℕ → Option Mapping
queue_work m name index = do (_, wq) ← insert_work m.wq name index; some (record m { wq = wq })
