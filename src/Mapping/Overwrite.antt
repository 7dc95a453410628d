-- ===== src/Mapping/Overwrite.antt =====
-- `lookup_mapping_with_insert` as a whole.
use user_level_ssd_cache_fra.Common.{
  List-cases, ℕ, ◌≡◌, ◌∙◌, refl, sym, ap, true, false, List, [], ◌∷◌, ◌==◌, if◌then◌else◌, Option,
  none, some, Text, inl, inr, Bool-cases,
}
use user_level_ssd_cache_fra.WorkQueue.{starts_alike}
use user_level_ssd_cache_fra.WorkQueue.Inv.{contents, any}
use user_level_ssd_cache_fra.WorkQueue.Ops.{enqueue}
use user_level_ssd_cache_fra.WorkQueue.Search.{contains_work-any}
use user_level_ssd_cache_fra.Ilist.{inc}
use user_level_ssd_cache_fra.Mapping.{Mapping}
use user_level_ssd_cache_fra.Mapping.Access.{
  to_cache_page_index, touch, miss_with_insert, lookup_mapping_with_insert,
}
use user_level_ssd_cache_fra.Mapping.Shape.{View}
use user_level_ssd_cache_fra.Mapping.Buckets.{Found}
use user_level_ssd_cache_fra.Mapping.Pool.{allocator_empty-nil, allocator_empty-cons}
use user_level_ssd_cache_fra.Mapping.Inv.{Flight, IsMapping}
use user_level_ssd_cache_fra.Mapping.Requests.{any-is_same}
use user_level_ssd_cache_fra.Mapping.Facts.{SameEntries}
use user_level_ssd_cache_fra.Mapping.Client.{used, IsMapping-counted, touch-used}
use user_level_ssd_cache_fra.Mapping.Lookup.{
  SameEntries-trans, Found-SameEntries, table_lookup-IsMapping, queue_work-IsMapping,
}
use user_level_ssd_cache_fra.Mapping.Insert.{Inserted, inserted, insert_dirty-inserted}

-- The outcomes: the page is in the table; it is not, and the worker has been asked for it or for a
-- page of the same index of a file whose name the name starts with; it is not, and no entry is free;
-- it is not, and the first free entry now holds it, dirty.
pub data Outcome (m : Mapping) (v : View) (f : Flight) (name : Text) (index : ℕ)
    : Option ℕ → Mapping → Type 0 where
  hit :
      (e : ℕ) (m' : Mapping)
      → Found m.es v.tabled name index (some e)
      → IsMapping m' (used v e) f
      → SameEntries m m'
      → contents m'.wq ≡ contents m.wq
      → Outcome m v f name index (some e) m'
  asked :
      (m' : Mapping)
      → Found m.es v.tabled name index none
      → any (starts_alike name index) (contents m.wq) ≡ true
      → IsMapping m' v f
      → SameEntries m m'
      → contents m'.wq ≡ contents m.wq
      → Outcome m v f name index none m'
  full :
      (m' : Mapping)
      → Found m.es v.tabled name index none
      → any (starts_alike name index) (contents m.wq) ≡ false
      → v.free ≡ []
      → IsMapping m' v f
      → SameEntries m m'
      → contents m'.wq ≡ (enqueue (contents m.wq) name index).1
      → Outcome m v f name index none m'
  added :
      (e : ℕ) (rest : List ℕ) (m' : Mapping)
      → Found m.es v.tabled name index none
      → any (starts_alike name index) (contents m.wq) ≡ false
      → v.free ≡ e ∷ rest
      → IsMapping m' (inserted v e rest) f
      → Inserted m m' e name index (false, true, true)
      → contents m'.wq ≡ contents m.wq
      → Outcome m v f name index (some e) m'

-- the branch of a miss
miss_with_insert-Outcome :
    {m : Mapping} {v : View} {f : Flight} (name : Text) (index : ℕ)
    → IsMapping m v f
    → Found m.es v.tabled name index none
    → (r : Option ℕ) × (m' : Mapping) × (miss_with_insert m name index ≡ some (r, m'))
      × Outcome m v f name index r m'
unfolding miss_with_insert
miss_with_insert-Outcome {m} {v} {f} name index inv found =
    let m₁ = record m { miss_time = inc m.miss_time } in
    let inv₁ : IsMapping m₁ v f = IsMapping-counted m₁ inv refl refl refl refl refl refl refl in
    let search = contains_work-any m.wq name index inv.queued.valid in
    elim (Bool-cases (any (starts_alike name index) (contents m.wq))) [
      | inl old ↦ (none, m₁, rw (search, old), asked m₁ found old inv₁ (λ i. (refl, refl)) refl)
      | inr new ↦ elim (List-cases v.free) [
        | inl empty ↦
            let (m', step, inv', same, q) = queue_work-IsMapping {m = m₁} name index inv₁ found in
            (
              none,
              m',
              rw (search, new, allocator_empty-nil inv.shape empty, step),
              full m' found new empty inv' same q,
            )
        | inr (e, rest, at) ↦
            let (m', step, inv', ins, wq) =
              insert_dirty-inserted inv₁ name index e rest at found
                (any-is_same name index (contents m.wq) new) in
            (
              some e,
              m',
              rw (search, new, allocator_empty-cons e rest inv.shape at) step,
              added e rest m' found new at inv'
                  (record { status_of = ins.status_of; key_of = ins.key_of }) (ap contents wq),
            )
      ]
    ]

back : (m m₁ : Mapping) → SameEntries m m₁ → SameEntries m₁ m
back m m₁ same i = (sym (same i).0, sym (same i).1)

-- The search has changed no entry, so the outcome is one of the mapping before it.
Outcome-before :
    {m m₁ : Mapping} {v : View} {f : Flight} {name : Text} {index : ℕ} {r : Option ℕ} {m' : Mapping}
    → SameEntries m m₁
    → m₁.wq ≡ m.wq
    → Outcome m₁ v f name index r m'
    → Outcome m v f name index r m'
Outcome-before {m} {m₁} {v} {f} {name} {index} same wq (hit e m' found inv same' q) =
    hit e m' (Found-SameEntries m₁ m v.tabled name index (some e) (back m m₁ same) found) inv
      (SameEntries-trans m m₁ m' same same') (q ∙ ap contents wq)
Outcome-before {m} {m₁} {v} {f} {name} {index} same wq (asked m' found old inv same' q) =
    asked m' (Found-SameEntries m₁ m v.tabled name index none (back m m₁ same) found) (rw wq at old)
      inv (SameEntries-trans m m₁ m' same same') (q ∙ ap contents wq)
Outcome-before {m} {m₁} {v} {f} {name} {index} same wq (full m' found new empty inv same' q) =
    full m' (Found-SameEntries m₁ m v.tabled name index none (back m m₁ same) found) (rw wq at new)
      empty inv (SameEntries-trans m m₁ m' same same')
      (q ∙ ap (λ k. (enqueue (contents k) name index).1) wq)
Outcome-before {m} {m₁} {v} {f} {name} {index} same wq (added e rest m' found new at inv ins q) =
    added e rest m' (Found-SameEntries m₁ m v.tabled name index none (back m m₁ same) found)
      (rw wq at new) at inv
      (record {
        status_of =
            λ i. ins.status_of i ∙ ap (λ k. if e == i then (false, true, true) else k) (same i).0;
        key_of = λ i. ins.key_of i ∙ ap (λ k. if e == i then (name, index) else k) (same i).1;
      })
      (q ∙ ap contents wq)

after_search :
    {m : Mapping} {v : View} {f : Flight} (name : Text) (index : ℕ) (r : Option ℕ)
    → IsMapping m v f
    → Found m.es v.tabled name index r
    → (r' : Option ℕ) × (m' : Mapping) × (elim r [
      | some e ↦ touch m e
      | none ↦ miss_with_insert m name index
    ]
        ≡ some (r', m'))
      × Outcome m v f name index r' m'
after_search name index none inv found = miss_with_insert-Outcome name index inv found
after_search name index (some e) inv found =
    let (m', step, inv', same, wq) = touch-used e inv found.0 in
    (some e, m', step, hit e m' found inv' same (ap contents wq))

-- On a mapping that keeps the invariant, at whatever point the worker stands,
-- `lookup_mapping_with_insert` ends without a fault, in one of four ways. The page is in the table:
-- its entry is the answer, as in `lookup_mapping`. It is not, and a queued request has its index and
-- a name that its name starts with: the answer is none, and nothing changes. There is no such request
-- and no free entry: the answer is none, and the page is requested. Or the first free entry is the
-- answer: it gets the key, it is dirty and not pending, and it is the last one of the dirty list and
-- in the table. In all four the invariant is kept and the flags and keys of all other entries too.
pub lookup_mapping_with_insert-Outcome :
    {m : Mapping} {v : View} {f : Flight} (name : Text) (page_index : ℕ)
    → IsMapping m v f
    → (r : Option ℕ) × (m' : Mapping) × (lookup_mapping_with_insert m name page_index
        ≡ some (r, m'))
      × Outcome m v f name (to_cache_page_index page_index) r m'
unfolding lookup_mapping_with_insert
lookup_mapping_with_insert-Outcome {m} {v} {f} name page_index inv =
    let index = to_cache_page_index page_index in
    let (r, m₁, step₁, found, inv₁, same₁, wq₁) = table_lookup-IsMapping name index inv in
    let (r', m', step, out) =
      after_search {m = m₁} name index r inv₁
        (Found-SameEntries m m₁ v.tabled name index r same₁ found) in
    (r', m', rw step₁ step, Outcome-before same₁ wq₁ out)
