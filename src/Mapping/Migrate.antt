-- ===== src/Mapping/Migrate.antt =====
-- lib/ssd_cache_mapping.c, the two ends of each migration: what the worker does to the mapping before
-- and after the transfer, each under `mapping_lock`.
use user_level_ssd_cache_fra.Common.{
  ℕ, ◌/◌, Bool, true, false, Option, none, some, ◌==◌, leb, if◌then◌else◌, ◌>>=◌, Text,
}
use user_level_ssd_cache_fra.Entry.{to_entry}
use user_level_ssd_cache_fra.Ilist.{l_head, l_del, inc}
use user_level_ssd_cache_fra.Alloc.{allocator_empty}
use user_level_ssd_cache_fra.Mapping.{
  Mapping, infer_cblock, is_pending, set_pending, set_dirty, set_key, enlist_tail, enlist_head,
  table_insert, table_remove, release, take_entry,
}

unfoldable pub promotion_free_to_clean : Mapping → Text → ℕ → Option (Option ℕ × Mapping)
promotion_free_to_clean m full_path_name cache_page_index =
    if allocator_empty m.ea then some (none, m) else do
      (e, m₁) ← take_entry m
      let m₂ = set_dirty (set_pending m₁ e true) e false
      let m₃ = set_key m₂ e full_path_name cache_page_index
      some (some (infer_cblock m₃ e), m₃)

unfoldable pub promotion_complete : Mapping → ℕ → Bool → Option Mapping
promotion_complete m cblock success = do
  e ← to_entry cblock
  let m₁ = set_pending m e false
  let counted = record m₁ { promotion_time = inc m₁.promotion_time }
  some (if success then enlist_tail (table_insert counted e) e else release m₁ e)

unfoldable pub demotion_clean_to_free : Mapping → Option (Option ℕ × Mapping)
demotion_clean_to_free m =
    if leb m.clean.nr_elts (m.cache_block_num / 2) then some (none, m) else do
      e ← l_head m.es m.clean
      let (es, clean) = l_del m.es m.clean e
      let m₁ = set_pending (record m { es = es; clean = clean }) e true
      some (some (infer_cblock m₁ e), m₁)

unfoldable pub demotion_complete : Mapping → ℕ → Bool → Option Mapping
demotion_complete m cblock success = do
  e ← to_entry cblock
  let m₁ = set_pending m e false
  if success
      then (do
        m₂ ← table_remove (record m₁ { demotion_time = inc m₁.demotion_time }) e
        some (release m₂ e))
      else some (enlist_tail m₁ e)

unfoldable pub writeback_dirty_to_clean : Mapping → Option (Option ℕ × Mapping)
writeback_dirty_to_clean m = if m.dirty.nr_elts == 0 then some (none, m) else do
  e ← l_head m.es m.dirty
  if is_pending m e then some (none, m) else (do
    let m₁ = set_dirty (set_pending m e true) e false
    let (es, dirty) = l_del m₁.es m₁.dirty e
    let m₂ = record m₁ { es = es; dirty = dirty }
    some (some (infer_cblock m₂ e), m₂))

unfoldable pub writeback_complete : Mapping → ℕ → Bool → Option Mapping
writeback_complete m cblock success = do
  e ← to_entry cblock
  let m₁ = set_pending m e false
  let counted = record m₁ { writeback_time = inc m₁.writeback_time }
  some (if success then enlist_tail counted e else enlist_head m₁ e)
