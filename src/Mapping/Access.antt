-- ===== src/Mapping/Access.antt =====
-- lib/ssd_cache_mapping.c, the requests of the clients, each under `mapping_lock`.
use user_level_ssd_cache_fra.Common.{
  ℕ, ◌/◌, ◌^◌, Bool, true, false, not, ◌&&◌, Option, none, some, if◌then◌else◌, ◌>>=◌, Text,
}
use user_level_ssd_cache_fra.WorkQueue.{contains_work}
use user_level_ssd_cache_fra.Entry.{to_entry, entry_get_alloc}
use user_level_ssd_cache_fra.Ilist.{inc}
use user_level_ssd_cache_fra.Alloc.{allocator_empty}
use user_level_ssd_cache_fra.Mapping.{
  Mapping, infer_cblock, is_pending, is_dirty, set_dirty, set_key, enlist_tail, delist,
  table_lookup, table_insert, table_remove, release, take_entry, queue_work,
}

-- `page_index >> 3`
abbrev pub to_cache_page_index : ℕ → ℕ
to_cache_page_index page_index = page_index / 2 ^ 3

-- the branch of a hit, which `lookup_mapping` and `lookup_mapping_with_insert` share
unfoldable pub touch : Mapping → ℕ → Option (Option ℕ × Mapping)
touch m e =
    let m₁ = record m { hit_time = inc m.hit_time } in
    let m₂ =
      if not (is_pending m₁ e) && not (is_dirty m₁ e) then enlist_tail (delist m₁ e) e else m₁ in
    some (some (infer_cblock m₂ e), m₂)

-- the branch of a miss in `lookup_mapping`
unfoldable pub miss : Mapping → Text → ℕ → Option (Option ℕ × Mapping)
miss m full_path_name index = do
  m₁ ← queue_work (record m { miss_time = inc m.miss_time }) full_path_name index
  some (none, m₁)

unfoldable pub lookup_mapping : Mapping → Text → ℕ → Option (Option ℕ × Mapping)
lookup_mapping m full_path_name page_index = do
  let index = to_cache_page_index page_index
  (e, m₁) ← table_lookup m full_path_name index
  elim e [ some e ↦ touch m₁ e | none ↦ miss m₁ full_path_name index ]

-- the insertion of `lookup_mapping_with_insert`
unfoldable pub insert_dirty : Mapping → Text → ℕ → Option (Option ℕ × Mapping)
insert_dirty m full_path_name index = do
  (e, m₁) ← take_entry m
  let m₂ = set_key (set_dirty m₁ e true) e full_path_name index
  let m₃ = enlist_tail (table_insert m₂ e) e
  some (some (infer_cblock m₃ e), m₃)

-- the branch of a miss in `lookup_mapping_with_insert`
unfoldable pub miss_with_insert : Mapping → Text → ℕ → Option (Option ℕ × Mapping)
unfolding insert_dirty
miss_with_insert m full_path_name index = do
  let m₁ = record m { miss_time = inc m.miss_time }
  queued ← contains_work m₁.wq full_path_name index
  if queued
      then some (none, m₁)
      else (if allocator_empty m₁.ea
          then (do m₂ ← queue_work m₁ full_path_name index; some (none, m₂))
          else insert_dirty m₁ full_path_name index)

unfoldable pub lookup_mapping_with_insert : Mapping → Text → ℕ → Option (Option ℕ × Mapping)
lookup_mapping_with_insert m full_path_name page_index = do
  let index = to_cache_page_index page_index
  (e, m₁) ← table_lookup m full_path_name index
  elim e [ some e ↦ touch m₁ e | none ↦ miss_with_insert m₁ full_path_name index ]

-- `delist`, `h_remove` and `free_entry`: the branch of a hit in `remove_mapping`
unfoldable pub discard_entry : Mapping → ℕ → Option Mapping
discard_entry m e = do m₁ ← table_remove (delist m e) e; some (release m₁ e)

unfoldable pub discard_found : Mapping → Option ℕ → Option (Bool × Mapping)
discard_found m none = some (false, m)
discard_found m (some e) = do m₁ ← discard_entry m e; some (true, m₁)

unfoldable pub remove_mapping : Mapping → Text → ℕ → Option (Bool × Mapping)
remove_mapping m full_path_name page_index = do
  (e, m₁) ← table_lookup m full_path_name (to_cache_page_index page_index)
  discard_found m₁ e

-- The source sets `dirty` to true whatever its argument `dirty` is.
unfoldable pub mark_dirty : Mapping → ℕ → Mapping
mark_dirty m e =
    if is_pending m e then set_dirty m e true else enlist_tail (set_dirty (delist m e) e true) e

unfoldable pub set_dirty_after_write : Mapping → ℕ → Bool → Mapping
set_dirty_after_write m cblock dirty = elim (to_entry cblock) [
  | none ↦ m
  | some e ↦ (if entry_get_alloc (some (m.es.entrys e)) then mark_dirty m e else m)
]
