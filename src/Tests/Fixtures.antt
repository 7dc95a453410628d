-- ===== src/Tests/Fixtures.antt =====
-- A mapping of one cache block, and the states that a request for cache page 1 of a file named "a"
-- leads it through.
use user_level_ssd_cache_fra.Common.{
  ℕ, ◌≡◌, ◌≤◌, refl, ap, subst, Bool, true, false, [], ◌∷◌, arith, Text, ◌∙◌, update, ltb, not,
  ◌&&◌, if◌then◌else◌,
}
use user_level_ssd_cache_fra.WorkQueue.{Work, WorkQueue, remove_work}
use user_level_ssd_cache_fra.WorkQueue.Inv.{contents}
use user_level_ssd_cache_fra.WorkQueue.Inv
use user_level_ssd_cache_fra.WorkQueue.Ops.{enqueue}
use user_level_ssd_cache_fra.Entry.{Entry, entry_get_pending, entry_get_dirty, entry_get_alloc}
use user_level_ssd_cache_fra.Ilist.{Ilist}
use user_level_ssd_cache_fra.Mapping.{Mapping, init_mapping}
use user_level_ssd_cache_fra.Mapping.Shape.{View}
use user_level_ssd_cache_fra.Mapping.Status.{status}
use user_level_ssd_cache_fra.Mapping.Inv.{
  idle, promoting, demoting, writing_back, finishing, IsMapping,
}
use user_level_ssd_cache_fra.Mapping.Start.{init_mapping-IsMapping, fresh_view}
use user_level_ssd_cache_fra.Mapping.Lookup.{queue_work-IsMapping}
use user_level_ssd_cache_fra.Mapping.Promotion.{promotion_free_to_clean-promoting}
use user_level_ssd_cache_fra.Mapping.Departure.{
  demotion_clean_to_free-demoting, writeback_dirty_to_clean-writing_back,
}
use user_level_ssd_cache_fra.Mapping.Ends.{promoted}
use user_level_ssd_cache_fra.Mapping.Promoted.{promotion_complete-promoted}
use user_level_ssd_cache_fra.Mapping.Rounds.{remove_work-idle}
use user_level_ssd_cache_fra.Mapping.Written.{written, set_dirty_after_write-Dirtied}
use user_level_ssd_cache_fra.Mapping.Access.{set_dirty_after_write}
use user_level_ssd_cache_fra.Mapping.Facts.{of_listed}

abbrev pub file_a : Text
file_a = 97 ∷ []

abbrev pub job : Work
job = record { full_path_name = file_a; cache_page_index = 1 }

abbrev pub zero_entry : Entry
zero_entry = record {
  hash_next = 0;
  prev = 0;
  next = 0;
  param = 0;
  full_path_name = [];
  cache_page_index = 0;
}

abbrev pub zero_list : Ilist
zero_list = record { nr_elts = 0; head = 0; tail = 0 }

abbrev pub empty_queue : WorkQueue
empty_queue = record {
  works = λ _. record { full_path_name = []; cache_page_index = 0 };
  front = 0;
  rear = 0;
  size = 0;
}

-- the mapping in zeroed memory
abbrev pub zeroed : Mapping
zeroed = record {
  block_size = 0;
  cache_block_num = 0;
  block_per_cblock_shift = 0;
  block_per_page_shift = 0;
  es = record { entrys = λ _. zero_entry; begin = 0; end = 0 };
  ea = record { begin = 0; nr_allocated = 0; free = zero_list };
  clean = zero_list;
  dirty = zero_list;
  table = record { hash_bits = 0; buckets = λ _. 0 };
  hit_time = 0;
  miss_time = 0;
  promotion_time = 0;
  demotion_time = 0;
  writeback_time = 0;
  wq = empty_queue;
}

pub zeroed-status : (i : ℕ) → status zeroed.es i ≡ (false, false, false)
unfolding entry_get_pending entry_get_dirty entry_get_alloc
zeroed-status i = refl

pub empty_queue-IsValid : Inv.IsValid empty_queue
empty_queue-IsValid = record { front_in = omega arith; size_in = omega arith; rear_at = refl }

-- after `init_mapping` for blocks of 512 bytes and one cache block
abbrev pub fresh : Mapping
fresh = (init_mapping zeroed 512 1).1

fresh-IsMapping_of : ((init_mapping zeroed 512 1).0 ≡ 0) × IsMapping fresh (fresh_view 1) idle
fresh-IsMapping_of =
    init_mapping-IsMapping zeroed 512 1 zeroed-status empty_queue-IsValid refl (omega arith)
      (omega arith) (omega arith)

pub fresh-IsMapping : IsMapping fresh (fresh_view 1) idle
fresh-IsMapping = fresh-IsMapping_of.1

fresh-wq : fresh.wq ≡ empty_queue
unfolding init_mapping
fresh-wq = refl

pub nothing_tabled : (i : ℕ) → false ≡ true → ⊥
nothing_tabled i h = ground arith

-- after the request
pub asked_of : (m' : Mapping) × IsMapping m' (fresh_view 1) idle × (contents m'.wq ≡ job ∷ [])
unfolding enqueue
asked_of =
    let (m', step, inv, same, q) =
      queue_work-IsMapping file_a 1 fresh-IsMapping (λ i p _. nothing_tabled i p) in
    (m', inv, q ∙ ap (λ k. (enqueue (contents k) file_a 1).1) fresh-wq)

abbrev pub asked : Mapping
asked = asked_of.0

pub asked-IsMapping : IsMapping asked (fresh_view 1) idle
asked-IsMapping = asked_of.1

pub asked-jobs : contents asked.wq ≡ job ∷ []
asked-jobs = asked_of.2

-- in the promotion
abbrev pub empty_view : View
empty_view = record { free = []; clean = []; dirty = []; tabled = λ _. false }

pub transfer_of :
    (m' : Mapping) × IsMapping m' empty_view (promoting 0) × ((status m'.es 0).1 ≡ false)
transfer_of =
    let (m', step, inv, ins, wq) =
      promotion_free_to_clean-promoting asked-IsMapping job 0 [] [] refl asked-jobs in
    (m', inv, ap (λ k. k.1) (ins.status_of 0))

abbrev pub transfer : Mapping
transfer = transfer_of.0

pub transfer-IsMapping : IsMapping transfer empty_view (promoting 0)
transfer-IsMapping = transfer_of.1

pub transfer-clean : (status transfer.es 0).1 ≡ false
transfer-clean = transfer_of.2

-- after the promotion: the entry is clean
abbrev pub clean_view : View
clean_view = record { free = []; clean = 0 ∷ []; dirty = []; tabled = update (λ _. false) 0 true }

pub promoted_of : (m' : Mapping) × IsMapping m' clean_view finishing
promoted_of =
    let (m', step, inv, ended, wq) = promotion_complete-promoted 0 true transfer-IsMapping in
    (m', subst (λ d. IsMapping m' (promoted empty_view d 0 true) finishing) transfer-clean inv)

abbrev pub filled : Mapping
filled = record promoted_of.0 { wq = (remove_work promoted_of.0.wq).1 }

pub filled-IsMapping : IsMapping filled clean_view idle
filled-IsMapping = remove_work-idle promoted_of.1

pub filled-status : status filled.es 0 ≡ (false, false, true)
filled-status = of_listed filled-IsMapping 0 false refl

-- after a write of the block: the entry is dirty
abbrev pub dirty_view : View
dirty_view = record { free = []; clean = []; dirty = 0 ∷ []; tabled = update (λ _. false) 0 true }

only_block :
    (n : ℕ) (st : Bool × Bool × Bool)
    → false ≡ (ltb 1 n && not st.2)
    → false ≡ (st.2 && (not st.0 && not st.1))
    → false ≡ (st.2 && (not st.0 && st.1))
    → st.0 ≡ false
    → n ≤ 1
only_block n (p, d, a) free clean dirty rests = ground arith

pub filled-only_block : filled.cache_block_num ≤ 1
filled-only_block =
    let p = filled-IsMapping.placed 1 in
    only_block filled.cache_block_num (status filled.es 1) p.free p.clean p.dirty p.pending

-- the block in transfer, and in the table
abbrev pub empty_tabled : View
empty_tabled = record { free = []; clean = []; dirty = []; tabled = update (λ _. false) 0 true }

-- in the demotion of the clean entry
pub leaving_of : (m' : Mapping) × IsMapping m' empty_tabled (demoting 0)
leaving_of =
    let few = filled-only_block in
    let (m', step, inv, gone, wq) =
      demotion_clean_to_free-demoting filled-IsMapping 0 [] refl (omega arith) in
    (m', inv)

-- after a write of the block
abbrev pub soaked : Mapping
soaked = set_dirty_after_write filled 0 true

pub soaked-IsMapping : IsMapping soaked dirty_view idle
soaked-IsMapping =
    subst
      (λ (st : Bool × Bool × Bool).
        IsMapping soaked (if st.0 then clean_view else written clean_view st.1 0) idle)
      filled-status
      (set_dirty_after_write-Dirtied 0 true filled-IsMapping (ap (λ k. k.2) filled-status)).0

-- in the writeback of the dirty entry
pub saving_of : (m' : Mapping) × IsMapping m' empty_tabled (writing_back 0)
saving_of =
    let (m', step, inv, gone, wq) =
      writeback_dirty_to_clean-writing_back soaked-IsMapping 0 [] refl in
    (m', inv)
