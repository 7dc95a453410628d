-- ===== src/Mapping/Steps.antt =====
-- The clients and the migration worker of one mapping, interleaved: each step is what one of them
-- does in one hold of `mapping_lock`, and the worker's transfers lie between its steps.
use user_level_ssd_cache_fra.Common.{ℕ, ◌≡◌, Bool, true, false, Option, some, Text}
use user_level_ssd_cache_fra.WorkQueue.{Work, peak_work, remove_work}
use user_level_ssd_cache_fra.Mapping.{Mapping}
use user_level_ssd_cache_fra.Mapping.Access.{
  to_cache_page_index, lookup_mapping, lookup_mapping_with_insert, remove_mapping,
  set_dirty_after_write,
}
use user_level_ssd_cache_fra.Mapping.Migrate.{
  promotion_free_to_clean, promotion_complete, demotion_clean_to_free, demotion_complete,
  writeback_dirty_to_clean, writeback_complete,
}
use user_level_ssd_cache_fra.Mapping.Status.{status, key}
use user_level_ssd_cache_fra.Mapping.Inv.{
  Flight, idle, promoting, demoting, writing_back, finishing, in_flight,
}

-- The entries with the key of a page are not in transfer.
abbrev pub AtRest : Mapping → Flight → Text → ℕ → Type 0
AtRest m f name index = (e : ℕ) → key m.es e ≡ (name, index) → in_flight f e ≡ false

pub data Step : Mapping → Flight → Mapping → Flight → Type 0 where
  lookup :
      (m m' : Mapping) (f : Flight) (name : Text) (page_index : ℕ) (r : Option ℕ)
      → lookup_mapping m name page_index ≡ some (r, m')
      → Step m f m' f
  lookup_with_insert :
      (m m' : Mapping) (f : Flight) (name : Text) (page_index : ℕ) (r : Option ℕ)
      → lookup_mapping_with_insert m name page_index ≡ some (r, m')
      → Step m f m' f
  removal :
      (m m' : Mapping) (f : Flight) (name : Text) (page_index : ℕ) (r : Bool)
      → AtRest m f name (to_cache_page_index page_index)
      → remove_mapping m name page_index ≡ some (r, m')
      → Step m f m' f
  write :
      (m : Mapping) (f : Flight) (e : ℕ) (dirty : Bool)
      → (status m.es e).2 ≡ true
      → Step m f (set_dirty_after_write m e dirty) f
  start_promotion :
      (m m' : Mapping) (job : Work) (e : ℕ)
      → peak_work m.wq ≡ some job
      → promotion_free_to_clean m job.full_path_name job.cache_page_index ≡ some (some e, m')
      → Step m idle m' (promoting e)
  start_demotion :
      (m m' : Mapping) (e : ℕ)
      → demotion_clean_to_free m ≡ some (some e, m')
      → Step m idle m' (demoting e)
  start_writeback :
      (m m' : Mapping) (e : ℕ)
      → writeback_dirty_to_clean m ≡ some (some e, m')
      → Step m idle m' (writing_back e)
  end_promotion :
      (m m' : Mapping) (e : ℕ) (success : Bool)
      → promotion_complete m e success ≡ some m'
      → Step m (promoting e) m' finishing
  end_demotion :
      (m m' : Mapping) (e : ℕ) (success : Bool)
      → demotion_complete m e success ≡ some m'
      → Step m (demoting e) m' finishing
  end_writeback :
      (m m' : Mapping) (e : ℕ) (success : Bool)
      → writeback_complete m e success ≡ some m'
      → Step m (writing_back e) m' finishing
  no_transfer : (m : Mapping) → Step m idle m finishing
  done : (m : Mapping) → Step m finishing (record m { wq = (remove_work m.wq).1 }) idle

pub data Reach (m₀ : Mapping) (f₀ : Flight) : Mapping → Flight → Type 0 where
  start : Reach m₀ f₀ m₀ f₀
  next : (m m' : Mapping) (f f' : Flight) → Reach m₀ f₀ m f → Step m f m' f' → Reach m₀ f₀ m' f'
