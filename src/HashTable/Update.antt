-- ===== src/HashTable/Update.antt =====
-- `h_insert` and `h_remove` on a table.
use user_level_ssd_cache_fra.Common.{
  ℕ, ◌<◌, ◌≡◌, refl, sym, ap, subst, true, false, Option, none, some, List, ◌∷◌, has, without,
  update,
}
use user_level_ssd_cache_fra.Config.{cache_block_number}
use user_level_ssd_cache_fra.Entry.{EntrySpace}
use user_level_ssd_cache_fra.HashTable.{
  HashTable, bucket_of, h_insert, h_remove, unlink_found, unlink_at,
}
use user_level_ssd_cache_fra.HashTable.Chain.{seek}
use user_level_ssd_cache_fra.HashTable.Table.{IsTable, Rechained, lookup_at-seek, hash_32-lt_table}
use user_level_ssd_cache_fra.HashTable.Steps.{insert_at-cons, unlink_at-without}
use user_level_ssd_cache_fra.HashTable.Lookup.{Answer, absent, present_at, seek-IsBefore}

module _ {ht : HashTable} {es : EntrySpace} {chains : ℕ → List ℕ} (t : IsTable ht es chains) where
  -- In a valid table `h_insert` of an entry that is in no bucket, with a key that no entry of the table
  -- has, puts it at the head of the bucket of its key. The table stays valid, and no entry changes but
  -- in its chain link.
  pub h_insert-IsTable :
      (e : ℕ)
      → e < cache_block_number
      → ((k : ℕ) → has e (chains k) ≡ false)
      → Answer es chains (es.entrys e).full_path_name (es.entrys e).cache_page_index none
      → let h = bucket_of ht (es.entrys e) in
        let (ht', es') = h_insert ht es e in
        IsTable ht' es' (update chains h (e ∷ chains h)) × Rechained es es'
  unfolding h_insert
  h_insert-IsTable e small out new =
      insert_at-cons (bucket_of ht (es.entrys e)) e t small out refl
        (hash_32-lt_table t (es.entrys e).full_path_name (es.entrys e).cache_page_index)
        (λ i inside s. new (bucket_of ht (es.entrys e)) i inside s)

  -- the search for the key of an entry of the table finds that entry
  seek-own :
      (e : ℕ) (r p : Option ℕ)
      → let h = bucket_of ht (es.entrys e) in
        has e (chains h) ≡ true
        → seek es.entrys (es.entrys e).full_path_name (es.entrys e).cache_page_index none (chains h)
          ≡ (r, p)
        → r ≡ some e
  seek-own e none p inside found =
      absurd (absent t _ _ found (bucket_of ht (es.entrys e)) e inside (refl, refl))
  seek-own e (some i) p inside found =
      let (there, key) =
        present_at t (es.entrys e).full_path_name (es.entrys e).cache_page_index i found in
      ap some (t.unique (bucket_of ht (es.entrys e)) i e there inside key)

  h_remove-home :
      (e : ℕ) (r p : Option ℕ)
      → let h = bucket_of ht (es.entrys e) in
        has e (chains h) ≡ true
        → seek es.entrys (es.entrys e).full_path_name (es.entrys e).cache_page_index none (chains h)
          ≡ (r, p)
        → (ht' : HashTable) × (es' : EntrySpace) × (h_remove ht es e ≡ some (ht', es'))
          × IsTable ht' es' (update chains h (without e (chains h)))
          × Rechained es es'
  unfolding h_remove unlink_found
  h_remove-home e r p inside found =
      let h = bucket_of ht (es.entrys e) in
      let name = (es.entrys e).full_path_name in
      let index = (es.entrys e).cache_page_index in
      let lt = hash_32-lt_table t name index in
      let found_e : seek es.entrys name index none (chains h) ≡ (some e, p) =
        subst (λ r. seek es.entrys name index none (chains h) ≡ (r, p))
          (seek-own e r p inside found) found in
      let (t', same) =
        unlink_at-without h e p t lt inside
          (seek-IsBefore es.entrys name index (chains h) (t.distinct h) found_e) in
      (
        (unlink_at ht es h e p).0,
        (unlink_at ht es h e p).1,
        rw (lookup_at-seek t h name index lt, found_e),
        t',
        same,
      )

  -- In a valid table `h_remove` of an entry of the table ends and takes it out of its bucket. The table
  -- stays valid, and no entry changes but in its chain link.
  pub h_remove-IsTable :
      (h e : ℕ)
      → has e (chains h) ≡ true
      → (ht' : HashTable) × (es' : EntrySpace) × (h_remove ht es e ≡ some (ht', es'))
        × IsTable ht' es' (update chains h (without e (chains h)))
        × Rechained es es'
  h_remove-IsTable h e inside =
      let home = t.home h e inside in
      subst
        (λ k.
          (ht' : HashTable) × (es' : EntrySpace) × (h_remove ht es e ≡ some (ht', es'))
          × IsTable ht' es' (update chains k (without e (chains k)))
          × Rechained es es')
        home (h_remove-home e _ _ (subst (λ k. has e (chains k) ≡ true) (sym home) inside) refl)
