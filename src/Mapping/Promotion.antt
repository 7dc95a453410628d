-- ===== src/Mapping/Promotion.antt =====
-- The start of a promotion: `promotion_free_to_clean`.
use user_level_ssd_cache_fra.Common.{
  ℕ, ◌≡◌, ◌∙◌, ap, true, false, List, [], ◌∷◌, ◌==◌, if◌then◌else◌, if_self, none, some,
}
use user_level_ssd_cache_fra.WorkQueue.{Work}
use user_level_ssd_cache_fra.WorkQueue.Inv.{contents}
use user_level_ssd_cache_fra.Entry.{EntrySpace}
use user_level_ssd_cache_fra.Mapping.{Mapping, set_pending, set_dirty, set_key}
use user_level_ssd_cache_fra.Mapping.Migrate.{promotion_free_to_clean}
use user_level_ssd_cache_fra.Mapping.Shape.{View}
use user_level_ssd_cache_fra.Mapping.Moves.{Kept, Kept-trans}
use user_level_ssd_cache_fra.Mapping.Status.{
  status, key, status-set_pending, key-set_pending, status-set_dirty, key-set_dirty, status-set_key,
  key-set_key, Shape-set_pending, Shape-set_dirty, Shape-set_key, if_twice, if_else,
  Kept-set_pending, Kept-set_dirty, Kept-set_key,
}
use user_level_ssd_cache_fra.Mapping.Pool.{
  take_entry-cons, allocator_empty-nil, allocator_empty-cons,
}
use user_level_ssd_cache_fra.Mapping.Inv.{idle, promoting, HasJob, IsMapping}
use user_level_ssd_cache_fra.Mapping.Places.{Placed-take_promoting}
use user_level_ssd_cache_fra.Mapping.Requests.{Rekeyed-Shrunk, AllAbsent-Shrunk}
use user_level_ssd_cache_fra.Mapping.Facts.{infer_cblock_self}
use user_level_ssd_cache_fra.Mapping.Insert.{Inserted, first_free, allocated_one}

-- The key of the oldest request, when an entry has it.
job_of :
    (es : EntrySpace) (e : ℕ) (w : Work) (rest ws : List Work)
    → ws ≡ w ∷ rest
    → key es e ≡ (w.full_path_name, w.cache_page_index)
    → HasJob (promoting e) es ws
job_of es e w rest ws at k = rw at k

module _ {m : Mapping} {v : View} (inv : IsMapping m v idle) (w : Work) where
  -- On a mapping that keeps the invariant, with the worker between two requests, a free entry and
  -- `w` as the oldest request, `promotion_free_to_clean` ends without a fault. It takes the first
  -- free entry, marks it pending and clean and gives it the key of the request; the flags and keys
  -- of all other entries stay. The invariant is kept, with the worker in the promotion of that
  -- entry.
  pub promotion_free_to_clean-promoting :
      (e : ℕ) (rest : List ℕ) (ws : List Work)
      → v.free ≡ e ∷ rest
      → contents m.wq ≡ w ∷ ws
      → (m' : Mapping) × (promotion_free_to_clean m w.full_path_name w.cache_page_index
          ≡ some (some e, m'))
        × IsMapping m' (record v { free = rest }) (promoting e)
        × Inserted m m' e w.full_path_name w.cache_page_index (true, false, true)
        × (m'.wq ≡ m.wq)
  unfolding promotion_free_to_clean
  promotion_free_to_clean-promoting e rest ws at oldest =
      let name = w.full_path_name in
      let index = w.cache_page_index in
      let free = first_free e rest inv at in
      let (m₁, step, s₁, t) = take_entry-cons e rest inv.shape at free.tabled in
      let m₂ = set_pending m₁ e true in
      let m₃ = set_dirty m₂ e false in
      let m₄ = set_key m₃ e name index in
      let s₄ =
        Shape-set_key (Shape-set_dirty (Shape-set_pending s₁ e true) e false) e name index
          free.loose free.tabled in
      let c : Kept m₁ m₄ =
        Kept-trans (Kept-set_pending m₁ e true)
          (Kept-trans (Kept-set_dirty m₂ e false) (Kept-set_key m₃ e name index)) in
      let st : (i : ℕ) → status m₄.es i ≡ (if e == i then (true, false, true) else status m.es i) =
        λ i.
          status-set_key m₃ e name index i
          ∙ status-set_dirty m₂ e false i
          ∙ if_twice (e == i) (λ st. (st.0, false, st.2)) (true, false, true) (status m₂.es i)
              (status m.es i)
              (status-set_pending m₁ e true i
                ∙ if_twice (e == i) (λ st. (true, st.1, st.2)) (false, false, true) (status m₁.es i)
                    (status m.es i) (t.status_of i)) in
      let keys : (i : ℕ) → key m₄.es i ≡ (if e == i then (name, index) else key m.es i) = λ i.
        key-set_key m₃ e name index i
        ∙ if_else (e == i) (name, index) (key m₃.es i) (key m.es i)
            (λ ne. key-set_dirty m₂ e false i ∙ key-set_pending m₁ e true i ∙ t.key_of i ne) in
      let wq : m₄.wq ≡ m.wq = c.wq ∙ t.wq in
      let inv₄ : IsMapping m₄ (record v { free = rest }) (promoting e) = record {
        shape = s₄;
        placed = λ i.
            rw (c.num ∙ t.num) (
              Placed-take_promoting m.cache_block_num v e i rest (inv.placed i) at free.out (st i));
        num = rw (c.num ∙ t.num) inv.num;
        begin = c.begin ∙ t.begin ∙ inv.begin;
        allocated =
            allocated_one m.ea.nr_allocated m.cache_block_num v.free e rest at inv.num inv.allocated
              (c.allocated ∙ t.allocated) (c.num ∙ t.num);
        queued = record {
          valid = rw wq inv.queued.valid;
          distinct = rw wq inv.queued.distinct;
          absent = rw wq (
              AllAbsent-Shrunk m.es m₄.es v.tabled v.tabled
                (Rekeyed-Shrunk m.es m₄.es v.tabled e free.tabled (λ i ne. keys i ∙ rw ne))
                (contents m.wq) inv.queued.absent);
          job =
              job_of m₄.es e w ws (contents m₄.wq) (ap contents wq ∙ oldest)
                (keys e ∙ if_self e (name, index) (key m.es e));
        };
      } in
      (
        m₄,
        rw (allocator_empty-cons e rest inv.shape at, step)
            (ap (λ k. some (some k, m₄)) (infer_cblock_self inv₄ e free.small)),
        inv₄,
        record { status_of = st; key_of = keys },
        wq,
      )

  -- Without a free entry there is no promotion.
  pub promotion_free_to_clean-none :
      v.free ≡ [] → promotion_free_to_clean m w.full_path_name w.cache_page_index ≡ some (none, m)
  unfolding promotion_free_to_clean
  promotion_free_to_clean-none empty = rw (allocator_empty-nil inv.shape empty)
