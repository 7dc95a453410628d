-- ===== src/Mapping/Sizes.antt =====
-- The two lookups leave the size of a cache block as it is, on every branch.
use user_level_ssd_cache_fra.Common.{
  ℕ, ◌≡◌, ◌∙◌, ◌>>=◌, refl, Bool, true, false, Option, none, some, if◌then◌else◌, Text, Bool-cases,
  inl, inr,
}
use user_level_ssd_cache_fra.WorkQueue.{WorkQueue, insert_work, contains_work}
use user_level_ssd_cache_fra.Ilist.{inc}
use user_level_ssd_cache_fra.Entry.{EntrySpace}
use user_level_ssd_cache_fra.Alloc.{EntryAlloc, alloc_entry, allocator_empty}
use user_level_ssd_cache_fra.HashTable.{HashTable, h_lookup}
use user_level_ssd_cache_fra.Mapping.{
  Mapping, infer_cblock, set_dirty, set_key, enlist_tail, table_lookup, table_insert, take_entry,
  queue_work,
}
use user_level_ssd_cache_fra.Mapping.Access.{
  to_cache_page_index, touch, miss, miss_with_insert, insert_dirty, lookup_mapping,
  lookup_mapping_with_insert,
}
use user_level_ssd_cache_fra.Mapping.Hits.{SameSize, enlist_tail-SameSize, touch-SameSize}

-- An answer, if there is one, comes with a mapping of the same size.
abbrev pub Sized : {A : Type 0} → Mapping → Option (A × Mapping) → Type 0
Sized m none = Unit
Sized m (some r) = SameSize m r.1

Sized-trans :
    {A : Type 0} (m m₁ : Mapping) (o : Option (A × Mapping))
    → SameSize m m₁
    → Sized m₁ o
    → Sized m o
Sized-trans m m₁ none same sized = tt
Sized-trans m m₁ (some r) same sized = sized ∙ same

answer-Sized :
    {A : Type 0} (m : Mapping) (o : Option (A × Mapping))
    → ((r : A × Mapping) → o ≡ some r → SameSize m r.1)
    → Sized m o
answer-Sized m none same = tt
answer-Sized m (some r) same = same r refl

found-Sized :
    (m : Mapping) (o : Option (Option ℕ × HashTable × EntrySpace))
    → Sized m (do (e, ht, es) ← o; some (e, record m { table = ht; es = es }))
found-Sized m none = tt
found-Sized m (some r) = refl

taken-Sized :
    (m : Mapping) (o : Option (Option ℕ × EntryAlloc × EntrySpace))
    → Sized m (do (popped, ea, es) ← o; e ← popped; some (e, record m { ea = ea; es = es }))
taken-Sized m none = tt
taken-Sized m (some (none, ea, es)) = tt
taken-Sized m (some (some e, ea, es)) = refl

-- the answer `none`
abbrev no_block : Option ℕ
no_block = none

queued-Sized :
    (m : Mapping) (o : Option (Bool × WorkQueue))
    → Sized m (do m₁ ← (do (_, wq) ← o; some (record m { wq = wq })); some (no_block, m₁))
queued-Sized m none = tt
queued-Sized m (some r) = refl

inserted-Sized :
    (m : Mapping) (name : Text) (index : ℕ) (o : Option (ℕ × Mapping))
    → Sized m o
    → Sized m (do
      (e, m₁) ← o
      let m₂ = set_key (set_dirty m₁ e true) e name index
      let m₃ = enlist_tail (table_insert m₂ e) e
      some (some (infer_cblock m₃ e), m₃))
unfolding set_key set_dirty table_insert
inserted-Sized m name index none sized = tt
inserted-Sized m name index (some (e, m₁)) sized =
    enlist_tail-SameSize (table_insert (set_key (set_dirty m₁ e true) e name index) e) e ∙ sized

miss-Sized : (m : Mapping) (name : Text) (index : ℕ) → Sized m (miss m name index)
unfolding miss queue_work
miss-Sized m name index =
    queued-Sized (record m { miss_time = inc m.miss_time }) (insert_work m.wq name index)

checked-Sized :
    (m : Mapping) (name : Text) (index : ℕ) (o : Option Bool)
    → Sized m (do
      queued ← o
      if queued
          then some (no_block, m)
          else (if allocator_empty m.ea
              then (do m₂ ← queue_work m name index; some (no_block, m₂))
              else insert_dirty m name index))
unfolding queue_work insert_dirty take_entry
checked-Sized m name index none = tt
checked-Sized m name index (some true) = refl
checked-Sized m name index (some false) = elim (Bool-cases (allocator_empty m.ea)) [
  | inl full ↦ rw full (queued-Sized m (insert_work m.wq name index))
  | inr room ↦
      rw room (inserted-Sized m name index (take_entry m) (taken-Sized m (alloc_entry m.ea m.es)))
]

miss_with_insert-Sized :
    (m : Mapping) (name : Text) (index : ℕ) → Sized m (miss_with_insert m name index)
unfolding miss_with_insert
miss_with_insert-Sized m name index =
    checked-Sized (record m { miss_time = inc m.miss_time }) name index
      (contains_work m.wq name index)

touch-Sized : (m : Mapping) (e : ℕ) → Sized m (touch m e)
touch-Sized m e = answer-Sized m (touch m e) (λ r step. touch-SameSize m r.1 e step)

after_search-Sized :
    (m : Mapping) (other : Mapping → Option (Option ℕ × Mapping))
    → ((m₁ : Mapping) → Sized m₁ (other m₁))
    → (o : Option (Option ℕ × Mapping)) → Sized m o
    → Sized m (do (e, m₁) ← o; elim e [ some e ↦ touch m₁ e | none ↦ other m₁ ])
after_search-Sized m other sized none s = tt
after_search-Sized m other sized (some (none, m₁)) s = Sized-trans m m₁ (other m₁) s (sized m₁)
after_search-Sized m other sized (some (some e, m₁)) s =
    Sized-trans m m₁ (touch m₁ e) s (touch-Sized m₁ e)

pub lookup_mapping-Sized :
    (m : Mapping) (name : Text) (page_index : ℕ) → Sized m (lookup_mapping m name page_index)
unfolding lookup_mapping table_lookup
lookup_mapping-Sized m name page_index =
    let index = to_cache_page_index page_index in
    after_search-Sized m (λ m₁. miss m₁ name index) (λ m₁. miss-Sized m₁ name index)
      (table_lookup m name index) (found-Sized m (h_lookup m.table m.es name index))

pub lookup_mapping_with_insert-Sized :
    (m : Mapping) (name : Text) (page_index : ℕ)
    → Sized m (lookup_mapping_with_insert m name page_index)
unfolding lookup_mapping_with_insert table_lookup
lookup_mapping_with_insert-Sized m name page_index =
    let index = to_cache_page_index page_index in
    after_search-Sized m (λ m₁. miss_with_insert m₁ name index)
      (λ m₁. miss_with_insert-Sized m₁ name index) (table_lookup m name index)
      (found-Sized m (h_lookup m.table m.es name index))
