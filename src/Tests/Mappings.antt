-- ===== src/Tests/Mappings.antt =====
-- The theorems about the mapping at the states of one cache block.
use user_level_ssd_cache_fra.Common.{
  ℕ, ◌≡◌, refl, ap, true, false, [], arith, without, none, some, Option,
}
use user_level_ssd_cache_fra.WorkQueue.{remove_work}
use user_level_ssd_cache_fra.WorkQueue.Inv.{contents}
use user_level_ssd_cache_fra.WorkQueue.Ops.{dequeue}
use user_level_ssd_cache_fra.Mapping.{Mapping, init_mapping}
use user_level_ssd_cache_fra.Mapping.Access.{
  lookup_mapping, lookup_mapping_with_insert, remove_mapping, set_dirty_after_write,
}
use user_level_ssd_cache_fra.Mapping.Migrate.{
  promotion_free_to_clean, promotion_complete, demotion_clean_to_free, demotion_complete,
  writeback_dirty_to_clean, writeback_complete,
}
use user_level_ssd_cache_fra.Mapping.Worker.{Devices, do_migration_work}
use user_level_ssd_cache_fra.Mapping.Shape.{View}
use user_level_ssd_cache_fra.Mapping.Buckets.{Found}
use user_level_ssd_cache_fra.Mapping.Status.{status}
use user_level_ssd_cache_fra.Mapping.Inv.{
  idle, promoting, demoting, writing_back, finishing, IsMapping,
}
use user_level_ssd_cache_fra.Mapping.Facts.{SameEntries}
use user_level_ssd_cache_fra.Mapping.Start.{fresh_view, init_mapping-IsMapping}
use user_level_ssd_cache_fra.Mapping.Lookup.{looked_up, requested, lookup_mapping-Found}
use user_level_ssd_cache_fra.Mapping.Insert.{Inserted}
use user_level_ssd_cache_fra.Mapping.Overwrite.{Outcome, lookup_mapping_with_insert-Outcome}
use user_level_ssd_cache_fra.Mapping.Discard.{is_some, removed_view, remove_mapping-removed}
use user_level_ssd_cache_fra.Mapping.Written.{Dirtied, written_view, set_dirty_after_write-Dirtied}
use user_level_ssd_cache_fra.Mapping.Promotion.{promotion_free_to_clean-promoting}
use user_level_ssd_cache_fra.Mapping.Departure.{
  Departed, demotion_clean_to_free-demoting, writeback_dirty_to_clean-writing_back,
}
use user_level_ssd_cache_fra.Mapping.Completion.{Landed}
use user_level_ssd_cache_fra.Mapping.Ends.{
  Ended, promoted, demoted, written_back, demotion_complete-demoted,
  writeback_complete-written_back,
}
use user_level_ssd_cache_fra.Mapping.Promoted.{promotion_complete-promoted}
use user_level_ssd_cache_fra.Mapping.Work.{Round, do_migration_work-Round}
use user_level_ssd_cache_fra.Mapping.Steps.{start, next, write, no_transfer, done}
use user_level_ssd_cache_fra.Mapping.Safety.{Holds, Reach-IsMapping}
use user_level_ssd_cache_fra.Tests.Fixtures.{
  file_a, job, zeroed, zeroed-status, empty_queue-IsValid, fresh, fresh-IsMapping, asked,
  asked-IsMapping, asked-jobs, empty_view, transfer, transfer-IsMapping, clean_view, filled,
  filled-IsMapping, filled-status, filled-only_block, empty_tabled, leaving_of, dirty_view, soaked,
  soaked-IsMapping, saving_of,
}

-- A device on which every call succeeds.
abbrev pub willing : Devices
willing = record {
  World = Unit;
  open_read = λ name w. (some 3, w);
  open_write = λ name w. (some 3, w);
  pread = λ fd size offset w. (true, w);
  pwrite = λ fd size offset w. (true, w);
  close = λ fd w. w;
  read_spdk = λ offset n w. (0, w);
  write_spdk = λ offset n w. (0, w);
  trim_spdk = λ offset n w. (0, w);
}

-- A client writes the block of the cache, and then the worker finds nothing to do for a request.
Reach-IsMapping_example : Holds (record soaked { wq = (remove_work soaked.wq).1 }) idle
Reach-IsMapping_example = Reach-IsMapping filled-IsMapping (
    next soaked (record soaked { wq = (remove_work soaked.wq).1 }) finishing idle
      (next soaked soaked idle finishing
        (next filled soaked idle idle start
          (write filled idle 0 true (ap (λ k. k.2) filled-status)))
        (no_transfer soaked))
      (done soaked))

do_migration_work-Round_example :
    (m' : Mapping) × (w' : Unit) × (v' : View) × (do_migration_work willing asked tt
      ≡ some ((dequeue (contents asked.wq)).0, m', w'))
    × Round asked.cache_block_num (fresh_view 1) (contents asked.wq) v'
    × IsMapping m' v' idle
    × (contents m'.wq ≡ (dequeue (contents asked.wq)).1)
do_migration_work-Round_example = do_migration_work-Round willing tt asked-IsMapping

lookup_mapping-Found_example :
    (r : Option ℕ) × (m' : Mapping) × (lookup_mapping filled file_a 9 ≡ some (r, m'))
    × Found filled.es clean_view.tabled file_a 1 r
    × IsMapping m' (looked_up clean_view r) idle
    × SameEntries filled m'
    × (contents m'.wq ≡ requested (contents filled.wq) file_a 1 r)
lookup_mapping-Found_example = lookup_mapping-Found file_a 9 filled-IsMapping

lookup_mapping_with_insert-Outcome_example :
    (r : Option ℕ) × (m' : Mapping) × (lookup_mapping_with_insert fresh file_a 8 ≡ some (r, m'))
    × Outcome fresh (fresh_view 1) idle file_a 1 r m'
lookup_mapping_with_insert-Outcome_example =
    lookup_mapping_with_insert-Outcome file_a 8 fresh-IsMapping

remove_mapping-removed_example :
    (r : Option ℕ) × (m' : Mapping) × (remove_mapping filled file_a 9 ≡ some (is_some r, m'))
    × Found filled.es clean_view.tabled file_a 1 r
    × IsMapping m' (removed_view filled.es clean_view r) idle
    × Found m'.es (removed_view filled.es clean_view r).tabled file_a 1 none
    × (m'.wq ≡ filled.wq)
remove_mapping-removed_example = remove_mapping-removed file_a 9 filled-IsMapping (λ e at. refl)

set_dirty_after_write-Dirtied_example :
    IsMapping (set_dirty_after_write filled 0 false) (written_view filled.es clean_view 0) idle
    × Dirtied filled (set_dirty_after_write filled 0 false) 0
set_dirty_after_write-Dirtied_example =
    set_dirty_after_write-Dirtied 0 false filled-IsMapping (ap (λ k. k.2) filled-status)

init_mapping-IsMapping_example :
    ((init_mapping zeroed 512 1).0 ≡ 0)
    × IsMapping (init_mapping zeroed 512 1).1 (fresh_view 1) idle
init_mapping-IsMapping_example =
    init_mapping-IsMapping zeroed 512 1 zeroed-status empty_queue-IsValid refl (omega arith)
      (omega arith) (omega arith)

promotion_complete-promoted_example :
    (m' : Mapping) × (promotion_complete transfer 0 false ≡ some m')
    × IsMapping m' (promoted empty_view (status transfer.es 0).1 0 false) finishing
    × Ended false transfer m' 0
    × (m'.wq ≡ transfer.wq)
promotion_complete-promoted_example = promotion_complete-promoted 0 false transfer-IsMapping

demotion_complete-demoted_example :
    (m' : Mapping) × (demotion_complete leaving_of.0 0 true ≡ some m')
    × IsMapping m' (demoted empty_tabled (status leaving_of.0.es 0).1 0 true) finishing
    × Ended false leaving_of.0 m' 0
    × (m'.wq ≡ leaving_of.0.wq)
demotion_complete-demoted_example = demotion_complete-demoted 0 true leaving_of.1

writeback_complete-written_back_example :
    (m' : Mapping) × (writeback_complete saving_of.0 0 false ≡ some m')
    × IsMapping m' (written_back empty_tabled (status saving_of.0.es 0).1 0 false) finishing
    × Landed saving_of.0 m' 0
    × (m'.wq ≡ saving_of.0.wq)
writeback_complete-written_back_example = writeback_complete-written_back 0 false saving_of.1

promotion_free_to_clean-promoting_example :
    (m' : Mapping) × (promotion_free_to_clean asked file_a 1 ≡ some (some 0, m'))
    × IsMapping m' (record (fresh_view 1) { free = [] }) (promoting 0)
    × Inserted asked m' 0 file_a 1 (true, false, true)
    × (m'.wq ≡ asked.wq)
promotion_free_to_clean-promoting_example =
    promotion_free_to_clean-promoting asked-IsMapping job 0 [] [] refl asked-jobs

demotion_clean_to_free-demoting_example :
    (m' : Mapping) × (demotion_clean_to_free filled ≡ some (some 0, m'))
    × IsMapping m' (record clean_view { clean = without 0 clean_view.clean }) (demoting 0)
    × Departed filled m' 0
    × (m'.wq ≡ filled.wq)
demotion_clean_to_free-demoting_example =
    let few = filled-only_block in
    demotion_clean_to_free-demoting filled-IsMapping 0 [] refl (omega arith)

writeback_dirty_to_clean-writing_back_example :
    (m' : Mapping) × (writeback_dirty_to_clean soaked ≡ some (some 0, m'))
    × IsMapping m' (record dirty_view { dirty = without 0 dirty_view.dirty }) (writing_back 0)
    × Departed soaked m' 0
    × (m'.wq ≡ soaked.wq)
writeback_dirty_to_clean-writing_back_example =
    writeback_dirty_to_clean-writing_back soaked-IsMapping 0 [] refl
