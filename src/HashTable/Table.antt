-- ===== src/HashTable/Table.antt =====
-- What the buckets stand for: a chain of entries each, and no key twice.
use user_level_ssd_cache_fra.Common.{
  ℕ, ◌<◌, ◌≡◌, refl, sym, ◌∙◌, true, none, some, List, [], arith, has, IsDistinct,
  length-le_of_distinct, Text, same_text_refl, same_text_sound,
}
use user_level_ssd_cache_fra.Config.{buckets_number, cache_block_number}
use user_level_ssd_cache_fra.Entry.{Entry, EntrySpace}
use user_level_ssd_cache_fra.HashTable.{
  HashTable, bucket_of, has_key, lookup_at, walk_fuel, hash_32, alloc_hash_table,
}
use user_level_ssd_cache_fra.HashTable.Hash.{
  table_bits, hash_bits-alloc, buckets-alloc, hash_32-lt_bits,
}
use user_level_ssd_cache_fra.HashTable.Chain.{Chain, seek, walk-seek}

abbrev pub SameKey : Entry → Entry → Type 0
SameKey e e' = (e.full_path_name ≡ e'.full_path_name) × (e.cache_page_index ≡ e'.cache_page_index)

-- Bucket `h` leads through the entries of `chains h`. An entry stands in the bucket of its key, and
-- no two entries have one key.
pub record IsTable (ht : HashTable) (es : EntrySpace) (chains : ℕ → List ℕ) : Type 0 where
  pub bits : ht.hash_bits ≡ table_bits
  pub chain : (h : ℕ) → h < buckets_number → Chain es.entrys (ht.buckets h) (chains h)
  pub distinct : (h : ℕ) → IsDistinct (chains h)
  pub inside : (h i : ℕ) → has i (chains h) ≡ true → i < cache_block_number
  pub home : (h i : ℕ) → has i (chains h) ≡ true → bucket_of ht (es.entrys i) ≡ h
  pub unique :
      (h i j : ℕ)
      → has i (chains h) ≡ true
      → has j (chains h) ≡ true
      → SameKey (es.entrys i) (es.entrys j)
      → i ≡ j

-- The two entries differ in their chain link at most.
pub record SameButHash (e e' : Entry) : Type 0 where
  pub prev : e'.prev ≡ e.prev
  pub next : e'.next ≡ e.next
  pub param : e'.param ≡ e.param
  pub name : e'.full_path_name ≡ e.full_path_name
  pub index : e'.cache_page_index ≡ e.cache_page_index

abbrev pub Rechained : EntrySpace → EntrySpace → Type 0
Rechained es es' = (i : ℕ) → SameButHash (es.entrys i) (es'.entrys i)

pub Rechained-refl : (es : EntrySpace) → Rechained es es
Rechained-refl es i = record { prev = refl; next = refl; param = refl; name = refl; index = refl }

pub Rechained-trans :
    (es₁ es₂ es₃ : EntrySpace) → Rechained es₁ es₂ → Rechained es₂ es₃ → Rechained es₁ es₃
Rechained-trans es₁ es₂ es₃ r s i = record {
  prev = (s i).prev ∙ (r i).prev;
  next = (s i).next ∙ (r i).next;
  param = (s i).param ∙ (r i).param;
  name = (s i).name ∙ (r i).name;
  index = (s i).index ∙ (r i).index;
}

-- The test of the search holds exactly of the entries with the key.
pub has_key_iff :
    (name : Text) (index : ℕ) (e : Entry)
    → has_key name index e ≡ true
    → (e.full_path_name ≡ name) × (e.cache_page_index ≡ index)
has_key_iff name index e h =
    (sym (same_text_sound name e.full_path_name (ground arith)), ground arith)

pub has_key_of :
    (name : Text) (index : ℕ) (e : Entry)
    → e.full_path_name ≡ name
    → e.cache_page_index ≡ index
    → has_key name index e ≡ true
has_key_of name index e n i = ground (arith, same_text_refl name)

module _ {ht : HashTable} {es : EntrySpace} {chains : ℕ → List ℕ} (t : IsTable ht es chains) where
  pub hash_32-lt_table :
      (name : Text) (index : ℕ) → hash_32 name index ht.hash_bits < buckets_number
  hash_32-lt_table name index = rw t.bits (hash_32-lt_bits name index)

  -- `__h_lookup` ends, and finds what the search of the chain finds.
  pub lookup_at-seek :
      (h : ℕ) (name : Text) (index : ℕ)
      → h < buckets_number
      → lookup_at ht es h name index ≡ some (seek es.entrys name index none (chains h))
  unfolding lookup_at
  lookup_at-seek h name index lt =
      walk-seek es name index walk_fuel none (ht.buckets h) (chains h) (t.chain h lt)
        (λ i inside. omega (arith, t.inside h i inside))
        (omega
          (arith, length-le_of_distinct cache_block_number (chains h) (t.distinct h) (t.inside h)))

  -- An entry stands in one chain only.
  pub one_chain : (h k i : ℕ) → has i (chains h) ≡ true → has i (chains k) ≡ true → h ≡ k
  one_chain h k i p q = sym (t.home h i p) ∙ t.home k i q

-- The table that `alloc_hash_table` makes is empty.
pub alloc_hash_table-IsTable :
    (ht : HashTable) (es : EntrySpace) → IsTable (alloc_hash_table ht) es (λ _. [])
alloc_hash_table-IsTable ht es = record {
  bits = hash_bits-alloc ht;
  chain = buckets-alloc ht;
  distinct = λ h. tt;
  inside = λ h i p. cc;
  home = λ h i p. cc;
  unique = λ h i j p q s. cc;
}
