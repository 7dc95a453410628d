-- ===== src/Mapping/Departure.antt =====
-- The starts of a demotion and of a writeback.
use user_level_ssd_cache_fra.Common.{
  ℕ, ◌/◌, ◌<◌, ◌≤◌, ◌≡◌, ◌∙◌, refl, sym, ap, subst, Bool, true, false, List, [], ◌∷◌, arith, ◌==◌,
  ==_iff, leb, has, without, length, if◌then◌else◌, none, some, inl, inr, Bool-cases,
}
use user_level_ssd_cache_fra.WorkQueue.Inv.{contents}
use user_level_ssd_cache_fra.Ilist.{l_del}
use user_level_ssd_cache_fra.Ilist.Seg.{has_head}
use user_level_ssd_cache_fra.Ilist.Defs.{IsList, nr_elts-length, head-first}
use user_level_ssd_cache_fra.Mapping.{Mapping, is_pending, set_pending, set_dirty}
use user_level_ssd_cache_fra.Mapping.Migrate.{demotion_clean_to_free, writeback_dirty_to_clean}
use user_level_ssd_cache_fra.Mapping.Shape.{View, Shape}
use user_level_ssd_cache_fra.Mapping.Moves.{
  Kept, Kept-trans, queue, set_queue, l_del_clean-Moved, l_del_dirty-Moved,
}
use user_level_ssd_cache_fra.Mapping.Status.{
  status, key, status-Linked, key-Linked, status-set_pending, key-set_pending, status-set_dirty,
  key-set_dirty, Shape-set_pending, Shape-set_dirty, if_twice, Kept-set_pending, Kept-set_dirty,
}
use user_level_ssd_cache_fra.Mapping.Inv.{
  Flight, idle, demoting, writing_back, in_flight, is_promoting, HasJob, waiting, IsMapping,
}
use user_level_ssd_cache_fra.Mapping.Places.{Placed-depart}
use user_level_ssd_cache_fra.Mapping.Facts.{
  Queued-Shrunk, small_of_alloc, infer_cblock_self, of_listed, queue-IsDistinct,
}

same_at :
    (g : ℕ → Bool × Bool × Bool) (e i : ℕ) (b : Bool)
    → (g e).1 ≡ b
    → (if e == i then (true, (g i).1, (g i).2) else g i)
      ≡ (if e == i then (true, b, (g i).2) else g i)
same_at g e i b at = elim (Bool-cases (e == i)) [
  | inl hit ↦
      rw hit (ap (λ x. (true, x, (g i).2)) (ap (λ k. (g k).1) (sym ((==_iff e i).0 hit)) ∙ at))
  | inr miss ↦ rw miss
]

-- After the departure of an entry, the flags of all; the keys are as they were.
abbrev pub Departed : Mapping → Mapping → ℕ → Type 0
Departed m m' e =
    (i : ℕ)
    → (status m'.es i ≡ (if e == i then (true, false, (status m.es i).2) else status m.es i))
      × (key m'.es i ≡ key m.es i)

module _ {m : Mapping} {v : View} (inv : IsMapping m v idle) (e : ℕ) where
  departed :
      {m' : Mapping} (f : Flight) (d : Bool)
      → has e (queue v d) ≡ true
      → ((i : ℕ) → in_flight f i ≡ (e == i))
      → ((i : ℕ) → is_promoting f i ≡ false)
      → waiting f (contents m.wq) ≡ contents m.wq
      → HasJob f m'.es (contents m'.wq)
      → Shape m' (set_queue v d (without e (queue v d)))
      → Kept m m'
      → Departed m m' e
      → IsMapping m' (set_queue v d (without e (queue v d))) f
  departed {m'} f d inside flies not_new wait job s k at =
      let view = set_queue v d (without e (queue v d)) in
      let q =
        Queued-Shrunk m m' v view idle k.wq (λ i p. (p, (at i).1)) (λ i _. (at i).1) inv.queued in
      record {
        shape = s;
        placed = λ i. rw k.num (
            Placed-depart m.cache_block_num v e i f d false (inv.placed i)
              (queue-IsDistinct d inv.shape) inside (flies i) (not_new i) (at i).0);
        num = rw k.num inv.num;
        begin = k.begin ∙ inv.begin;
        allocated = rw (k.allocated, k.num) inv.allocated;
        queued = record {
          valid = q.valid;
          distinct = q.distinct;
          absent = rw k.wq (rw wait (rw k.wq at q.absent));
          job = job;
        };
      }

module _ {m : Mapping} {v : View} (inv : IsMapping m v idle) (e : ℕ) (rest : List ℕ) where
  -- On a mapping that keeps the invariant, with the worker between two requests and more than half
  -- of the cache blocks clean, `demotion_clean_to_free` ends without a fault. It takes the first
  -- entry of the clean list and marks it pending; all other flags and all keys stay. The invariant
  -- is kept, with the worker in the demotion of that entry.
  pub demotion_clean_to_free-demoting :
      v.clean ≡ e ∷ rest
      → m.cache_block_num / 2 < length v.clean
      → (m' : Mapping) × (demotion_clean_to_free m ≡ some (some e, m'))
        × IsMapping m' (record v { clean = without e v.clean }) (demoting e)
        × Departed m m' e
        × (m'.wq ≡ m.wq)
  unfolding demotion_clean_to_free
  demotion_clean_to_free-demoting at many =
      let inside : has e v.clean ≡ true = rw at (has_head e rest) in
      let here = head-first e rest (subst (IsList m.es m.clean) at inv.shape.clean) in
      let few : leb m.clean.nr_elts (m.cache_block_num / 2) ≡ false =
        ground (arith, nr_elts-length inv.shape.clean) in
      let a = l_del_clean-Moved inv.shape e inside in
      let m₁ = record m { es = (l_del m.es m.clean e).0; clean = (l_del m.es m.clean e).1 } in
      let m₂ = set_pending m₁ e true in
      let st = of_listed inv e false inside in
      let d : Departed m m₂ e = λ i. (
        status-set_pending m₁ e true i
            ∙ ap (λ (k : Bool × Bool × Bool). if e == i then (true, k.1, k.2) else k)
                (status-Linked m.es m₁.es i a.linked)
            ∙ same_at (status m.es) e i false (ap (λ k. k.1) st),
        key-set_pending m₁ e true i ∙ key-Linked m.es m₁.es i a.linked,
      ) in
      let inv₂ =
        departed inv e {m' = m₂} (demoting e) false inside (λ i. refl) (λ i. refl) refl tt
          (Shape-set_pending a.shape e true) (Kept-trans a.kept (Kept-set_pending m₁ e true)) d in
      (
        m₂,
        rw (few, here)
            (ap (λ k. some (some k, m₂))
              (infer_cblock_self inv₂ e (small_of_alloc inv e (ap (λ k. k.2) st)))),
        inv₂,
        d,
        (Kept-set_pending m₁ e true).wq ∙ a.kept.wq,
      )

  -- On a mapping that keeps the invariant, with the worker between two requests and an entry in the
  -- dirty list, `writeback_dirty_to_clean` ends without a fault. It takes the first entry of the
  -- dirty list and marks it pending and clean; all other flags and all keys stay. The invariant is
  -- kept, with the worker in the writeback of that entry.
  pub writeback_dirty_to_clean-writing_back :
      v.dirty ≡ e ∷ rest
      → (m' : Mapping) × (writeback_dirty_to_clean m ≡ some (some e, m'))
        × IsMapping m' (record v { dirty = without e v.dirty }) (writing_back e)
        × Departed m m' e
        × (m'.wq ≡ m.wq)
  unfolding writeback_dirty_to_clean
  writeback_dirty_to_clean-writing_back at =
      let inside : has e v.dirty ≡ true = rw at (has_head e rest) in
      let here = head-first e rest (subst (IsList m.es m.dirty) at inv.shape.dirty) in
      let some_dirty : (m.dirty.nr_elts == 0) ≡ false =
        ground (arith, nr_elts-length inv.shape.dirty, ap length at) in
      let st = of_listed inv e true inside in
      let rests : is_pending m e ≡ false = ap (λ k. k.0) st in
      let m₁ = set_pending m e true in
      let m₂ = set_dirty m₁ e false in
      let a =
        l_del_dirty-Moved (Shape-set_dirty (Shape-set_pending inv.shape e true) e false) e inside in
      let m₃ = record m₂ { es = (l_del m₂.es m₂.dirty e).0; dirty = (l_del m₂.es m₂.dirty e).1 } in
      let d : Departed m m₃ e = λ i. (
        status-Linked m₂.es m₃.es i a.linked
            ∙ status-set_dirty m₁ e false i
            ∙ if_twice (e == i) (λ (k : Bool × Bool × Bool). (k.0, false, k.2))
                (true, (status m.es i).1, (status m.es i).2) (status m₁.es i) (status m.es i)
                (status-set_pending m e true i),
        key-Linked m₂.es m₃.es i a.linked ∙ key-set_dirty m₁ e false i ∙ key-set_pending m e true i,
      ) in
      let k : Kept m m₃ =
        Kept-trans (Kept-set_pending m e true) (Kept-trans (Kept-set_dirty m₁ e false) a.kept) in
      let inv₃ =
        departed inv e {m' = m₃} (writing_back e) true inside (λ i. refl) (λ i. refl) refl tt
          a.shape k d in
      (
        m₃,
        rw (some_dirty, here, rests)
            (ap (λ k. some (some k, m₃))
              (infer_cblock_self inv₃ e (small_of_alloc inv e (ap (λ k. k.2) st)))),
        inv₃,
        d,
        k.wq,
      )

module _ {m : Mapping} {v : View} (s : Shape m v) where
  -- Otherwise nothing is taken.
  pub demotion_clean_to_free-none :
      length v.clean ≤ m.cache_block_num / 2 → demotion_clean_to_free m ≡ some (none, m)
  unfolding demotion_clean_to_free
  demotion_clean_to_free-none few =
      let at : leb m.clean.nr_elts (m.cache_block_num / 2) ≡ true =
        ground (arith, nr_elts-length s.clean) in
      rw at

  pub writeback_dirty_to_clean-none : v.dirty ≡ [] → writeback_dirty_to_clean m ≡ some (none, m)
  unfolding writeback_dirty_to_clean
  writeback_dirty_to_clean-none empty =
      let at : (m.dirty.nr_elts == 0) ≡ true =
        ground (arith, nr_elts-length s.dirty, ap length empty) in
      rw at
