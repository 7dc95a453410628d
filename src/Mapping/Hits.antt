-- ===== src/Mapping/Hits.antt =====
-- Two lookups of a page that is in the table: both find the one entry that has it.
use user_level_ssd_cache_fra.Common.{
  ℕ, ◌≡◌, ◌∙◌, ◌>>=◌, refl, sym, ap, List, Bool, true, false, Option, none, some, not, ◌&&◌, Text,
  has, without, if◌then◌else◌, Bool-cases, inl, inr,
}
use user_level_ssd_cache_fra.Entry.{to_entry, entry_get_alloc, EntrySpace}
use user_level_ssd_cache_fra.Ilist.{inc}
use user_level_ssd_cache_fra.Mapping.{
  Mapping, is_dirty, is_pending, set_dirty, enlist_tail, delist, table_lookup,
}
use user_level_ssd_cache_fra.HashTable.{HashTable, h_lookup}
use user_level_ssd_cache_fra.Mapping.Access.{
  to_cache_page_index, touch, mark_dirty, set_dirty_after_write, lookup_mapping,
  lookup_mapping_with_insert,
}
use user_level_ssd_cache_fra.Mapping.Shape.{View}
use user_level_ssd_cache_fra.Mapping.Buckets.{Found, unique_key}
use user_level_ssd_cache_fra.Mapping.Inv.{Flight, IsMapping}
use user_level_ssd_cache_fra.Mapping.Facts.{SameEntries}
use user_level_ssd_cache_fra.Mapping.Client.{used, touch-used}
use user_level_ssd_cache_fra.Mapping.Lookup.{SameEntries-trans, table_lookup-IsMapping}
use user_level_ssd_cache_fra.Mapping.Moves.{queue, set_queue}
use user_level_ssd_cache_fra.Mapping.Status.{status}
use user_level_ssd_cache_fra.Mapping.Written.{written_view}

-- The size of a cache block in blocks of the device is set once, by `init_mapping`.
abbrev pub SameSize : Mapping → Mapping → Type 0
SameSize m m' = m'.block_per_cblock_shift ≡ m.block_per_cblock_shift

pub enlist_tail-SameSize : (m : Mapping) (e : ℕ) → SameSize m (enlist_tail m e)
unfolding enlist_tail
enlist_tail-SameSize m e = elim (Bool-cases (is_dirty m e)) [
  | inl d ↦ rw (d, enlist_tail) refl
  | inr c ↦ rw (c, enlist_tail) refl
]

delist-SameSize : (m : Mapping) (e : ℕ) → SameSize m (delist m e)
unfolding delist
delist-SameSize m e = elim (Bool-cases (is_dirty m e)) [
  | inl d ↦ rw (d, delist) refl
  | inr c ↦ rw (c, delist) refl
]

-- the size in an answer, that of `m` if there is none
abbrev size_of : {A : Type 0} → Mapping → Option (A × Mapping) → ℕ
size_of m none = m.block_per_cblock_shift
size_of m (some r) = r.1.block_per_cblock_shift

pub touch-SameSize :
    (m m' : Mapping) (e : ℕ) {r : Option ℕ} → touch m e ≡ some (r, m') → SameSize m m'
unfolding touch
touch-SameSize m m' e step =
    let m₁ = record m { hit_time = inc m.hit_time } in
    elim (Bool-cases (not (is_pending m₁ e) && not (is_dirty m₁ e))) [
      | inl moved ↦
          sym (ap (size_of m) (rw moved at step))
          ∙ enlist_tail-SameSize (delist m₁ e) e
          ∙ delist-SameSize m₁ e
      | inr stays ↦ sym (ap (size_of m) (rw stays at step))
    ]

after_search-SameSize :
    (m : Mapping) (o : Option (Option ℕ × HashTable × EntrySpace))
    → size_of m (do (e, ht, es) ← o; some (e, record m { table = ht; es = es }))
      ≡ m.block_per_cblock_shift
after_search-SameSize m none = refl
after_search-SameSize m (some r) = refl

table_lookup-SameSize :
    (m m' : Mapping) (name : Text) (index : ℕ) {r : Option ℕ}
    → table_lookup m name index ≡ some (r, m')
    → SameSize m m'
unfolding table_lookup
table_lookup-SameSize m m' name index step =
    sym (ap (size_of m) step) ∙ after_search-SameSize m (h_lookup m.table m.es name index)

mark_dirty-SameSize : (m : Mapping) (e : ℕ) → SameSize m (mark_dirty m e)
unfolding mark_dirty set_dirty
mark_dirty-SameSize m e = elim (Bool-cases (is_pending m e)) [
  | inl flies ↦ rw flies refl
  | inr rests ↦
      rw rests (enlist_tail-SameSize (set_dirty (delist m e) e true) e ∙ delist-SameSize m e)
]

pub set_dirty_after_write-SameSize :
    (m : Mapping) (cblock : ℕ) (dirty : Bool) → SameSize m (set_dirty_after_write m cblock dirty)
unfolding set_dirty_after_write
set_dirty_after_write-SameSize m cblock dirty = after_test (to_entry cblock)
  where
    after_test :
        (o : Option ℕ)
        → SameSize m (elim o [
          | none ↦ m
          | some e ↦ (if entry_get_alloc (some (m.es.entrys e)) then mark_dirty m e else m)
        ])
    after_test none = refl
    after_test (some e) = elim (Bool-cases (status m.es e).2) [
      | inl held ↦ rw held (mark_dirty-SameSize m e)
      | inr free ↦ rw free refl
    ]

-- The entries in the table are the same.
pub used-tabled : (v : View) (e : ℕ) → (used v e).tabled ≡ v.tabled
used-tabled v e = elim (Bool-cases (has e v.clean)) [ inl c ↦ rw c refl | inr d ↦ rw d refl ]

set_queue-tabled : (v : View) (b : Bool) (xs : List ℕ) → (set_queue v b xs).tabled ≡ v.tabled
set_queue-tabled v true xs = refl
set_queue-tabled v false xs = refl

pub written_view-tabled :
    (es : EntrySpace) (v : View) (e : ℕ) → (written_view es v e).tabled ≡ v.tabled
written_view-tabled es v e = elim (Bool-cases (status es e).0) [
  | inl p ↦ rw p refl
  | inr q ↦ rw q (set_queue-tabled v (status es e).1 (without e (queue v (status es e).1)))
]

-- A page has one entry.
the_entry :
    {m : Mapping} {v : View} {f : Flight} (name : Text) (index e : ℕ) (r : Option ℕ)
    → IsMapping m v f
    → Found m.es v.tabled name index (some e)
    → Found m.es v.tabled name index r
    → r ≡ some e
the_entry name index e none inv found missed = absurd (missed e found.0 found.1)
the_entry name index e (some i) inv found also = ap some (
    unique_key inv.shape.buckets i e also.0 found.0
      (also.1.0 ∙ sym found.1.0, also.1.1 ∙ sym found.1.1))

-- a search for a page of the table
pub record Hit (m : Mapping) (v : View) (f : Flight) (name : Text) (page_index e : ℕ) : Type 0 where
  pub after : Mapping
  pub plain : lookup_mapping m name page_index ≡ some (some e, after)
  pub inserting : lookup_mapping_with_insert m name page_index ≡ some (some e, after)
  pub kept : IsMapping after (used v e) f
  pub same : SameEntries m after
  pub size : SameSize m after
  pub tabled : (used v e).tabled ≡ v.tabled

-- Both lookups of a page that is in the table do the same: they answer with its entry.
pub lookup_mapping-Hit :
    {m : Mapping} {v : View} {f : Flight} (name : Text) (page_index e : ℕ)
    → IsMapping m v f
    → Found m.es v.tabled name (to_cache_page_index page_index) (some e)
    → Hit m v f name page_index e
unfolding lookup_mapping lookup_mapping_with_insert
lookup_mapping-Hit {m} {v} name page_index e inv found =
    let index = to_cache_page_index page_index in
    let (r, m₁, step₁, found₁, inv₁, same₁, wq₁) = table_lookup-IsMapping name index inv in
    let at : r ≡ some e = the_entry name index e r inv found found₁ in
    let step : table_lookup m name index ≡ some (some e, m₁) = step₁ ∙ rw at in
    let (m₂, step₂, inv₂, same₂, wq₂) = touch-used e inv₁ found.0 in
    record {
      after = m₂;
      plain = rw step step₂;
      inserting = rw step step₂;
      kept = inv₂;
      same = SameEntries-trans m m₁ m₂ same₁ same₂;
      size = touch-SameSize m₁ m₂ e step₂ ∙ table_lookup-SameSize m m₁ name index step;
      tabled = used-tabled v e;
    }
