-- ===== src/Mapping/Promoted.antt =====
-- `promotion_complete`, after a transfer that succeeded and after one that failed.
use user_level_ssd_cache_fra.Common.{
  ℕ, ◌≡◌, ◌∙◌, refl, sym, ap, subst, Bool, true, false, List, [], ◌∷◌, ◌++◌, arith, update, none,
  some, Text,
}
use user_level_ssd_cache_fra.Entry.{EntrySpace}
use user_level_ssd_cache_fra.WorkQueue.{Work}
use user_level_ssd_cache_fra.WorkQueue.Inv.{contents}
use user_level_ssd_cache_fra.Ilist.{inc}
use user_level_ssd_cache_fra.Mapping.{Mapping, set_pending, enlist_tail, table_insert, release}
use user_level_ssd_cache_fra.Mapping.Migrate.{promotion_complete}
use user_level_ssd_cache_fra.Mapping.Shape.{View}
use user_level_ssd_cache_fra.Mapping.Buckets.{Found}
use user_level_ssd_cache_fra.Mapping.Moves.{Moved-trans, queue, enlist_tail-Moved, has-snoc}
use user_level_ssd_cache_fra.Mapping.Status.{status, key, status-Linked, key-Linked}
use user_level_ssd_cache_fra.Mapping.Keys.{table_insert-Moved}
use user_level_ssd_cache_fra.Mapping.Inv.{
  promoting, finishing, IsDistinct, AllAbsent, waiting, HasJob, IsMapping,
}
use user_level_ssd_cache_fra.Mapping.Requests.{Found-Shrunk, AllAbsent-grow}
use user_level_ssd_cache_fra.Mapping.Completion.{
  Cleared, Shape-Cleared, key-Cleared, small, loose, landed, Landed,
}
use user_level_ssd_cache_fra.Mapping.Ends.{
  promoted, Ended, there, dirty_kept, unpromoted, cleared, set_pending-Cleared,
}

-- The oldest request, while it is being promoted.
oldest_job :
    (es : EntrySpace) (e : ℕ) (ws : List Work)
    → HasJob (promoting e) es ws
    → (w : Work) × (rest : List Work) × (ws ≡ w ∷ rest)
      × (key es e ≡ (w.full_path_name, w.cache_page_index))
oldest_job es e [] j = absurd j
oldest_job es e (w ∷ rest) j = (w, rest, refl, j)

module _ {m : Mapping} {v : View} (e : ℕ) (inv : IsMapping m v (promoting e)) where
  untabled : v.tabled e ≡ false
  untabled = ground (arith, (inv.placed e).tabled)

  -- The entry comes into the table under the key of the request, and into its list.
  promoted_tail :
      {m₁ : Mapping}
      → Cleared m m₁ e
      → let d = (status m.es e).1 in
        let m' = enlist_tail (table_insert m₁ e) e in
        IsMapping m' (promoted v d e true) finishing × Landed m m' e × (m'.wq ≡ m.wq)
  promoted_tail {m₁} c =
      let d = (status m.es e).1 in
      let (w, rest, at, k) = oldest_job m.es e (contents m.wq) inv.queued.job in
      let absent = subst (AllAbsent m.es v.tabled) at inv.queued.absent in
      let distinct = subst IsDistinct at inv.queued.distinct in
      let found =
        Found-Shrunk m.es m₁.es v.tabled v.tabled (λ i p. (p, key-Cleared e i c)) w.full_path_name
          w.cache_page_index absent.0 in
      let s = small inv e (λ i. refl) in
      let a = table_insert-Moved (Shape-Cleared e c inv.shape) e s untabled (
        subst (λ (k : Text × ℕ). Found m₁.es v.tabled k.0 k.1 none) (sym (key-Cleared e e c ∙ k))
          found) in
      let m₂ = table_insert m₁ e in
      let b = Moved-trans a (
        enlist_tail-Moved a.shape e d
          (ap (λ k. k.1) (status-Linked m₁.es m₂.es e a.linked) ∙ dirty_kept inv e (λ i. refl) c)
          (loose inv e (λ i. refl)) (omega (arith, s))) in
      let m₃ = enlist_tail m₂ e in
      let wq : m₃.wq ≡ m.wq = b.kept.wq ∙ c.wq in
      let keys : (i : ℕ) → key m₃.es i ≡ key m.es i =
        λ i. key-Linked m₁.es m₃.es i b.linked ∙ key-Cleared e i c in
      let (inv', l) =
        landed inv e (λ i. refl) d (queue v d ++ (e ∷ [])) (update v.tabled e true) refl c b
          (λ i. has-snoc e i (queue v d)) (λ i. refl)
          (record {
            valid = rw wq inv.queued.valid;
            distinct = rw wq inv.queued.distinct;
            absent = rw wq (
                subst (λ ws. AllAbsent m₃.es (update v.tabled e true) (waiting finishing ws))
                  (sym at)
                  (AllAbsent-grow m.es m₃.es v.tabled e w.full_path_name w.cache_page_index rest
                    untabled (keys e ∙ k) (λ i _. keys i) distinct.0 absent.1));
            job = tt;
          }) in
      (inv', l, wq)

-- On a mapping that keeps the invariant, with the worker in the promotion of the entry `e`,
-- `promotion_complete` ends without a fault. After a success the entry is in the table, under the key
-- of the oldest request, and the last one of the list of its dirty flag; after a failure it is free.
-- The invariant is kept, with the worker before `remove_work`.
pub promotion_complete-promoted :
    {m : Mapping} {v : View} (e : ℕ) (success : Bool)
    → IsMapping m v (promoting e)
    → (m' : Mapping) × (promotion_complete m e success ≡ some m')
      × IsMapping m' (promoted v (status m.es e).1 e success) finishing
      × Ended success m m' e
      × (m'.wq ≡ m.wq)
unfolding promotion_complete
promotion_complete-promoted {m} e true inv =
    let m₁ = set_pending m e false in
    let m₂ = record m₁ { promotion_time = inc m₁.promotion_time } in
    let (inv', l, wq) =
      promoted_tail e inv
        (cleared m e (inc m₁.promotion_time) m₁.demotion_time m₁.writeback_time) in
    (enlist_tail (table_insert m₂ e) e, rw (there e (small inv e (λ i. refl))), inv', l, wq)
promotion_complete-promoted {m} {v} e false inv =
    let (inv', l, wq) = unpromoted inv e (λ i. refl) (set_pending-Cleared m e) (untabled e inv) in
    (release (set_pending m e false) e, rw (there e (small inv e (λ i. refl))), inv', l, wq)
