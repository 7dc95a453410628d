-- ===== src/Mapping/Buckets.antt =====
-- The hash table of a mapping as a set of entries.
use user_level_ssd_cache_fra.Common.{
  ℕ, subst, ◌<◌, ◌≡◌, refl, sym, ◌∙◌, Bool, true, false, ◌&&◌, List, [], ◌∷◌, arith, ◌==◌, has,
  without, has-without, update, ==_iff, Option, none, some, Text,
}
use user_level_ssd_cache_fra.Config.{cache_block_number}
use user_level_ssd_cache_fra.Entry.{EntrySpace}
use user_level_ssd_cache_fra.HashTable.{
  HashTable, bucket_of, h_lookup, h_insert, h_remove, alloc_hash_table,
}
use user_level_ssd_cache_fra.HashTable.Table.{IsTable, SameKey, Rechained, alloc_hash_table-IsTable}
use user_level_ssd_cache_fra.HashTable.Steps.{bucket_of-Rechained, by_bucket}
use user_level_ssd_cache_fra.HashTable.Lookup.{HasKey, Answer, h_lookup-Answer}
use user_level_ssd_cache_fra.HashTable.Update.{h_insert-IsTable, h_remove-IsTable}
use user_level_ssd_cache_fra.Mapping.Shape.{Buckets}

-- What a search of the table says: an entry of the table with the key, or that there is none.
abbrev pub Found : EntrySpace → (ℕ → Bool) → Text → ℕ → Option ℕ → Type 0
Found es tabled name index none = (i : ℕ) → tabled i ≡ true → ¬ (HasKey name index (es.entrys i))
Found es tabled name index (some e) = (tabled e ≡ true) × HasKey name index (es.entrys e)

module _ {ht : HashTable} {es : EntrySpace} {tabled : ℕ → Bool} (b : Buckets ht es tabled) where
  in_bucket : (i : ℕ) → tabled i ≡ true → has i (b.chains (bucket_of ht (es.entrys i))) ≡ true
  in_bucket i p = ground (arith, b.members (bucket_of ht (es.entrys i)) i)

  tabled_of : (h i : ℕ) → has i (b.chains h) ≡ true → tabled i ≡ true
  tabled_of h i p = ground (arith, b.members h i)

  pub tabled_below : (i : ℕ) → tabled i ≡ true → i < cache_block_number
  tabled_below i p = b.table.inside (bucket_of ht (es.entrys i)) i (in_bucket i p)

  Found-Answer :
      (name : Text) (index : ℕ) (r : Option ℕ)
      → Answer es b.chains name index r
      → Found es tabled name index r
  Found-Answer name index none a = λ i p. a (bucket_of ht (es.entrys i)) i (in_bucket i p)
  Found-Answer name index (some e) (h, inside, key) = (tabled_of h e inside, key)

  -- No two entries of the table have one key.
  pub unique_key :
      (i j : ℕ) → tabled i ≡ true → tabled j ≡ true → SameKey (es.entrys i) (es.entrys j) → i ≡ j
  unique_key i j p q same =
      let home : bucket_of ht (es.entrys j) ≡ bucket_of ht (es.entrys i) = rw (same.0, same.1) in
      b.table.unique (bucket_of ht (es.entrys i)) i j (in_bucket i p)
        (subst (λ h. has j (b.chains h) ≡ true) home (in_bucket j q)) same

  -- new buckets of the same keys
  Buckets-moved :
      {ht' : HashTable} {es' : EntrySpace} (tabled' : ℕ → Bool) (chains' : ℕ → List ℕ)
      → IsTable ht' es' chains'
      → Rechained es es'
      → ((h i : ℕ) → has i (chains' h) ≡ (tabled' i && (bucket_of ht (es.entrys i) == h)))
      → Buckets ht' es' tabled'
  Buckets-moved {ht'} {es'} tabled' chains' t same members = record {
    chains = chains';
    table = t;
    members = λ h i.
        let bits : ht'.hash_bits ≡ ht.hash_bits = t.bits ∙ sym b.table.bits in
        let stays : bucket_of ht' (es'.entrys i) ≡ bucket_of ht (es.entrys i) =
          rw bits (bucket_of-Rechained ht (same i)) in
        rw stays (members h i);
  }

  -- `h_lookup` ends, finds the entry with the key if there is one, and keeps the set of entries.
  pub h_lookup-Found :
      (name : Text) (index : ℕ)
      → (r : Option ℕ) × (ht' : HashTable) × (es' : EntrySpace) × (h_lookup ht es name index
          ≡ some (r, ht', es'))
        × Found es tabled name index r
        × Buckets ht' es' tabled
        × Rechained es es'
  h_lookup-Found name index =
      let (r, ht', es', step, answer, s) = h_lookup-Answer b.table name index in
      (
        r,
        ht',
        es',
        step,
        Found-Answer name index r answer,
        Buckets-moved tabled s.chains' s.table s.body (λ h i. s.members h i ∙ b.members h i),
        s.body,
      )

  -- `h_insert` of an entry with a new key adds it to the set.
  pub h_insert-Buckets :
      (e : ℕ)
      → e < cache_block_number
      → tabled e ≡ false
      → Found es tabled (es.entrys e).full_path_name (es.entrys e).cache_page_index none
      → let (ht', es') = h_insert ht es e in
        Buckets ht' es' (update tabled e true) × Rechained es es'
  h_insert-Buckets e small out new =
      let home = bucket_of ht (es.entrys e) in
      let (t, same) =
        h_insert-IsTable b.table e small (λ k. ground (arith, b.members k e))
          (λ k i p. new i (tabled_of k i p)) in
      (
        Buckets-moved (update tabled e true) _ t same (λ h i.
            by_bucket
              (λ h xs. has i xs ≡ (update tabled e true i && (bucket_of ht (es.entrys i) == h)))
              {chains = b.chains} home (e ∷ b.chains home) (ground (arith, b.members home i))
              (λ k ne. ground (arith, b.members k i)) h),
        same,
      )

  -- `h_remove` ends, and takes an entry of the table out of the set.
  pub h_remove-Buckets :
      (e : ℕ)
      → tabled e ≡ true
      → (ht' : HashTable) × (es' : EntrySpace) × (h_remove ht es e ≡ some (ht', es'))
        × Buckets ht' es' (update tabled e false)
        × Rechained es es'
  h_remove-Buckets e p =
      let home = bucket_of ht (es.entrys e) in
      let (ht', es', step, t, same) = h_remove-IsTable b.table home e (in_bucket e p) in
      (
        ht',
        es',
        step,
        Buckets-moved (update tabled e false) _ t same (λ h i.
            by_bucket
              (λ h xs. has i xs ≡ (update tabled e false i && (bucket_of ht (es.entrys i) == h)))
              {chains = b.chains} home (without e (b.chains home))
              (ground (
                arith,
                b.members home i,
                b.members home e,
                has-without e i (b.chains home) (b.table.distinct home),
              ))
              (λ k ne. ground (arith, b.members k i, ==_iff e i)) h),
        same,
      )

-- The table that `alloc_hash_table` makes holds no entry.
pub alloc_hash_table-Buckets :
    (ht : HashTable) (es : EntrySpace) → Buckets (alloc_hash_table ht) es (λ _. false)
alloc_hash_table-Buckets ht es = record {
  chains = λ _. [];
  table = alloc_hash_table-IsTable ht es;
  members = λ h i. refl;
}
