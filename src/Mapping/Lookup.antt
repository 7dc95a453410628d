-- ===== src/Mapping/Lookup.antt =====
-- `lookup_mapping`: the search, and what a hit and a miss leave behind.
use user_level_ssd_cache_fra.Common.{ℕ, ◌≡◌, ◌∙◌, refl, ap, Bool, List, Option, none, some, Text}
use user_level_ssd_cache_fra.WorkQueue.{Work}
use user_level_ssd_cache_fra.WorkQueue.Inv.{contents}
use user_level_ssd_cache_fra.WorkQueue.Ops.{enqueue}
use user_level_ssd_cache_fra.Ilist.{inc}
use user_level_ssd_cache_fra.Mapping.{Mapping, table_lookup, queue_work}
use user_level_ssd_cache_fra.Mapping.Access.{to_cache_page_index, touch, miss, lookup_mapping}
use user_level_ssd_cache_fra.Mapping.Shape.{View}
use user_level_ssd_cache_fra.Mapping.Buckets.{Found}
use user_level_ssd_cache_fra.Mapping.Status.{status-Linked}
use user_level_ssd_cache_fra.Mapping.Keys.{table_lookup-Found}
use user_level_ssd_cache_fra.Mapping.Pool.{Shape-same}
use user_level_ssd_cache_fra.Mapping.Inv.{Flight, IsMapping}
use user_level_ssd_cache_fra.Mapping.Queueing.{queue_work-Queued}
use user_level_ssd_cache_fra.Mapping.Requests.{Found-Shrunk}
use user_level_ssd_cache_fra.Mapping.Facts.{SameEntries, SameEntries-Moved}
use user_level_ssd_cache_fra.Mapping.Client.{used, IsMapping-counted, IsMapping-Moved, touch-used}

pub SameEntries-trans :
    (m m' m'' : Mapping) → SameEntries m m' → SameEntries m' m'' → SameEntries m m''
SameEntries-trans m m' m'' a b i = ((b i).0 ∙ (a i).0, (b i).1 ∙ (a i).1)

-- A search says the same of the same entries.
pub Found-SameEntries :
    (m m' : Mapping) (tabled : ℕ → Bool) (name : Text) (index : ℕ) (r : Option ℕ)
    → SameEntries m m'
    → Found m.es tabled name index r
    → Found m'.es tabled name index r
Found-SameEntries m m' tabled name index none same a =
    Found-Shrunk m.es m'.es tabled tabled (λ i p. (p, (same i).1)) name index a
Found-SameEntries m m' tabled name index (some e) same (p, h) =
    (p, (ap (λ k. k.0) (same e).1 ∙ h.0, ap (λ k. k.1) (same e).1 ∙ h.1))

-- `h_lookup` keeps the invariant: it only reorders buckets.
pub table_lookup-IsMapping :
    {m : Mapping} {v : View} {f : Flight} (name : Text) (index : ℕ)
    → IsMapping m v f
    → (r : Option ℕ) × (m' : Mapping) × (table_lookup m name index ≡ some (r, m'))
      × Found m.es v.tabled name index r
      × IsMapping m' v f
      × SameEntries m m'
      × (m'.wq ≡ m.wq)
table_lookup-IsMapping {m} {v} {f} name index inv =
    let (r, m', step, found, a) = table_lookup-Found inv.shape name index in
    (
      r,
      m',
      step,
      found,
      IsMapping-Moved v.clean v.dirty inv a
          (λ i. rw (status-Linked m.es m'.es i a.linked) (inv.placed i)),
      SameEntries-Moved a,
      a.kept.wq,
    )

-- A request for a page that is not in the table is queued, and the invariant kept.
pub queue_work-IsMapping :
    {m : Mapping} {v : View} {f : Flight} (name : Text) (index : ℕ)
    → IsMapping m v f
    → Found m.es v.tabled name index none
    → (m' : Mapping) × (queue_work m name index ≡ some m')
      × IsMapping m' v f
      × SameEntries m m'
      × (contents m'.wq ≡ (enqueue (contents m.wq) name index).1)
queue_work-IsMapping {m} {v} {f} name index inv new =
    let (wq', step, same, q) = queue_work-Queued m v f name index inv.queued new in
    (
      record m { wq = wq' },
      step,
      record {
        shape = Shape-same (record m { wq = wq' }) inv.shape refl refl refl refl refl;
        placed = inv.placed;
        num = inv.num;
        begin = inv.begin;
        allocated = inv.allocated;
        queued = q;
      },
      (λ i. (refl, refl)),
      same,
    )

-- The view and the queue after a lookup with the answer `r`.
abbrev pub looked_up : View → Option ℕ → View
looked_up v none = v
looked_up v (some e) = used v e

abbrev pub requested : List Work → Text → ℕ → Option ℕ → List Work
requested q name index none = (enqueue q name index).1
requested q name index (some e) = q

after_search :
    {m : Mapping} {v : View} {f : Flight} (name : Text) (index : ℕ) (r : Option ℕ)
    → IsMapping m v f
    → Found m.es v.tabled name index r
    → (m' : Mapping) × (elim r [ some e ↦ touch m e | none ↦ miss m name index ] ≡ some (r, m'))
      × IsMapping m' (looked_up v r) f
      × SameEntries m m'
      × (contents m'.wq ≡ requested (contents m.wq) name index r)
unfolding miss
after_search {m} name index none inv found =
    let m₁ = record m { miss_time = inc m.miss_time } in
    let inv₁ = IsMapping-counted m₁ inv refl refl refl refl refl refl refl in
    let (m', step, inv', same, q) = queue_work-IsMapping {m = m₁} name index inv₁ found in
    (m', rw step, inv', same, q)
after_search name index (some e) inv found =
    let (m', step, inv', same, wq) = touch-used e inv found.0 in
    (m', step, inv', same, ap contents wq)

-- On a mapping that keeps the invariant, at whatever point the worker stands, `lookup_mapping` ends
-- without a fault. It answers with the entry of the table that has the name and the cache page, or
-- with none exactly if no entry of the table has them. It changes the flags and the key of no entry;
-- after a hit a clean entry that is not in transfer is the last one of the clean list, after a miss
-- the page is requested from the worker, and nothing else of the lists, the table and the queue
-- changes. The invariant is kept.
pub lookup_mapping-Found :
    {m : Mapping} {v : View} {f : Flight} (name : Text) (page_index : ℕ)
    → IsMapping m v f
    → let index = to_cache_page_index page_index in
      (r : Option ℕ) × (m' : Mapping) × (lookup_mapping m name page_index ≡ some (r, m'))
      × Found m.es v.tabled name index r
      × IsMapping m' (looked_up v r) f
      × SameEntries m m'
      × (contents m'.wq ≡ requested (contents m.wq) name index r)
unfolding lookup_mapping
lookup_mapping-Found {m} {v} {f} name page_index inv =
    let index = to_cache_page_index page_index in
    let (r, m₁, step₁, found, inv₁, same₁, wq₁) = table_lookup-IsMapping name index inv in
    let (m', step, inv', same, q) =
      after_search name index r inv₁ (Found-SameEntries m m₁ v.tabled name index r same₁ found) in
    (
      r,
      m',
      rw step₁ step,
      found,
      inv',
      SameEntries-trans m m₁ m' same₁ same,
      q ∙ ap (λ wq. requested (contents wq) name index r) wq₁,
    )
