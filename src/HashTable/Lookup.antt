-- ===== src/HashTable/Lookup.antt =====
-- `h_lookup` on a table.
use user_level_ssd_cache_fra.Common.{
  ℕ, ◌<◌, ◌≡◌, refl, sym, subst, ◌∙◌, inl, inr, true, false, Bool-cases, Option, none, some, List,
  [], ◌∷◌, arith, ◌==◌, has, IsDistinct, without, has-without, update, Text,
}
use mathlib.Core.Bool.{false≢true}
use user_level_ssd_cache_fra.Config.{buckets_number}
use user_level_ssd_cache_fra.Entry.{Entry, EntrySpace}
use user_level_ssd_cache_fra.Ilist.Seg.{ne_of_has}
use user_level_ssd_cache_fra.HashTable.{
  HashTable, bucket_of, has_key, hash_32, h_lookup, move_to_front, insert_at, unlink_at,
}
use user_level_ssd_cache_fra.HashTable.Chain.{seek, seek-some, seek-none, seek-pred, pair_parts}
use user_level_ssd_cache_fra.HashTable.Table.{
  IsTable, SameKey, Rechained, Rechained-refl, Rechained-trans, has_key_iff, has_key_of,
  lookup_at-seek, hash_32-lt_table,
}
use user_level_ssd_cache_fra.HashTable.Steps.{
  IsBefore, insert_at-cons, unlink_at-without, bucket_of-Rechained, SameKey-Rechained, by_bucket,
  elsewhere,
}

abbrev pub HasKey : Text → ℕ → Entry → Type 0
HasKey name index e = (e.full_path_name ≡ name) × (e.cache_page_index ≡ index)

-- What the search says of the table: an entry that it finds is in a chain and has the key, and if it
-- finds none, no entry of a chain has the key.
abbrev pub Answer : EntrySpace → (ℕ → List ℕ) → Text → ℕ → Option ℕ → Type 0
Answer es chains name index none =
    (k i : ℕ) → has i (chains k) ≡ true → ¬ (HasKey name index (es.entrys i))
Answer es chains name index (some e) =
    (h : ℕ) × (has e (chains h) ≡ true) × HasKey name index (es.entrys e)

-- A table after a search: the chains hold the same entries, perhaps in another order.
pub record Searched (es : EntrySpace) (chains : ℕ → List ℕ) (ht' : HashTable) (es' : EntrySpace)
    : Type 0 where
  pub chains' : ℕ → List ℕ
  pub table : IsTable ht' es' chains'
  pub members : (k i : ℕ) → has i (chains' k) ≡ has i (chains k)
  pub body : Rechained es es'

pub seek-IsBefore :
    (f : ℕ → Entry) (name : Text) (index : ℕ) (xs : List ℕ) {e : ℕ} {p : Option ℕ}
    → IsDistinct xs
    → seek f name index none xs ≡ (some e, p)
    → IsBefore p e xs
seek-IsBefore f name index [] d h = cc
seek-IsBefore f name index (x ∷ xs) {e} d h = elim (Bool-cases (has_key name index (f x))) [
  | inl hit ↦
      let (e_at, p_at) = pair_parts x none (rw hit at h) in
      subst (λ p. IsBefore p e (x ∷ xs)) (sym p_at) e_at
  | inr miss ↦
      let later = rw miss at h in
      let inside = (seek-some f name index (some x) xs later).0 in
      subst (λ p. IsBefore p e (x ∷ xs)) (sym (seek-pred f name index x xs d.1 later))
        (ne_of_has e x xs inside d.0, refl)
]

-- a bucket with one of its entries moved to the front
has-moved :
    (e i : ℕ) (xs : List ℕ) → IsDistinct xs → has e xs ≡ true → has i (e ∷ without e xs) ≡ has i xs
has-moved e i xs d inside = ground (arith, has-without e i xs d)

update_self : (chains : ℕ → List ℕ) (h : ℕ) (xs : List ℕ) → update chains h xs h ≡ xs
update_self chains h xs = ground arith

not-has-without : (e : ℕ) (xs : List ℕ) → IsDistinct xs → has e (without e xs) ≡ false
not-has-without e xs d = ground (arith, has-without e e xs d)

has-without_ne :
    (e i : ℕ) (xs : List ℕ)
    → IsDistinct xs
    → has i (without e xs) ≡ true
    → (has i xs ≡ true) × ¬ (i ≡ e)
has-without_ne e i xs d h =
    (ground (arith, has-without e i xs d), λ same. ground (arith, has-without e i xs d))

ne_sym : (h k : ℕ) → (h == k) ≡ false → (k == h) ≡ false
ne_sym h k ne = ground arith

module _ {ht : HashTable} {es : EntrySpace} {chains : ℕ → List ℕ} (t : IsTable ht es chains) where
  -- After an entry has left its bucket it is in no bucket, ...
  gone :
      (h e : ℕ)
      → has e (chains h) ≡ true
      → (k : ℕ) → has e (update chains h (without e (chains h)) k) ≡ false
  gone h e inside =
      by_bucket (λ k xs. has e xs ≡ false) h _ (not-has-without e (chains h) (t.distinct h))
        (λ k ne. elsewhere t k h e (ne_sym h k ne) inside)

  -- ... and its bucket holds no other entry of its key.
  no_other :
      (h e i : ℕ)
      → has e (chains h) ≡ true
      → has i (update chains h (without e (chains h)) h) ≡ true
      → ¬ (SameKey (es.entrys i) (es.entrys e))
  no_other h e i inside there s =
      let (here, ne) =
        has-without_ne e i (chains h) (t.distinct h)
          (rw (update_self chains h (without e (chains h))) at there) in
      ne (t.unique h i e here inside s)

  move_to_front-Searched :
      (h e p : ℕ)
      → h < buckets_number
      → has e (chains h) ≡ true
      → IsBefore (some p) e (chains h)
      → let (ht', es') = move_to_front ht es h (some e) (some p) in Searched es chains ht' es'
  unfolding move_to_front
  move_to_front-Searched h e p lt inside b =
      let (t₁, same₁) = unlink_at-without h e (some p) t lt inside b in
      let ht₁ = (unlink_at ht es h e (some p)).0 in
      let es₁ = (unlink_at ht es h e (some p)).1 in
      let bits : ht₁.hash_bits ≡ ht.hash_bits = t₁.bits ∙ sym t.bits in
      let home : bucket_of ht₁ (es₁.entrys e) ≡ h =
        rw bits (bucket_of-Rechained ht (same₁ e) ∙ t.home h e inside) in
      let (t₂, same₂) =
        insert_at-cons {ht = ht₁} {es = es₁} h e t₁ (t.inside h e inside) (gone h e inside) home lt
          (λ i there s. no_other h e i inside there (SameKey-Rechained (same₁ i) (same₁ e) s)) in
      record {
        chains' =
            update (update chains h (without e (chains h))) h
              (e ∷ update chains h (without e (chains h)) h);
        table = t₂;
        members = λ k i.
            by_bucket (λ k xs. has i xs ≡ has i (chains k))
              {chains = update chains h (without e (chains h))} h _
              (rw (update_self chains h (without e (chains h)))
                (has-moved e i (chains h) (t.distinct h) inside))
              (λ k ne. rw ne) k;
        body = Rechained-trans es es₁ (insert_at ht₁ es₁ h e).1 same₁ same₂;
      }

  -- What stands in no bucket of a search's key has not the key.
  pub absent :
      (name : Text) (index : ℕ) {p : Option ℕ}
      → seek es.entrys name index none (chains (hash_32 name index ht.hash_bits)) ≡ (none, p)
      → Answer es chains name index none
  absent name index found k i inside key =
      let k_at : k ≡ hash_32 name index ht.hash_bits =
        sym (t.home k i inside) ∙ rw (key.0, key.1) in
      let miss =
        seek-none es.entrys name index none (chains (hash_32 name index ht.hash_bits)) found i
          (subst (λ k. has i (chains k) ≡ true) k_at inside) in
      false≢true (sym miss ∙ has_key_of name index (es.entrys i) key.0 key.1)

  pub present_at :
      (name : Text) (index e : ℕ) {p : Option ℕ}
      → let h = hash_32 name index ht.hash_bits in
        seek es.entrys name index none (chains h) ≡ (some e, p)
        → (has e (chains h) ≡ true) × HasKey name index (es.entrys e)
  present_at name index e found =
      let (inside, key) =
        seek-some es.entrys name index none (chains (hash_32 name index ht.hash_bits)) found in
      (inside, has_key_iff name index (es.entrys e) key)

  present :
      (name : Text) (index e : ℕ) {p : Option ℕ}
      → seek es.entrys name index none (chains (hash_32 name index ht.hash_bits)) ≡ (some e, p)
      → Answer es chains name index (some e)
  present name index e found =
      let (inside, key) = present_at name index e found in
      (hash_32 name index ht.hash_bits, inside, key)

  unmoved : Searched es chains ht es
  unmoved = record { chains' = chains; table = t; members = λ k i. refl; body = Rechained-refl es }

  -- what `h_lookup` does with the outcome of the search
  h_lookup-seek :
      (name : Text) (index : ℕ) {r p : Option ℕ}
      → seek es.entrys name index none (chains (hash_32 name index ht.hash_bits)) ≡ (r, p)
      → h_lookup ht es name index ≡ (
          let (ht', es') = move_to_front ht es (hash_32 name index ht.hash_bits) r p in
          some (r, ht', es'))
  unfolding h_lookup
  h_lookup-seek name index found = rw (
    lookup_at-seek t (hash_32 name index ht.hash_bits) name index (hash_32-lt_table t name index),
    found,
  )

  h_lookup-cases :
      (name : Text) (index : ℕ) (r p : Option ℕ)
      → seek es.entrys name index none (chains (hash_32 name index ht.hash_bits)) ≡ (r, p)
      → (r : Option ℕ) × (ht' : HashTable) × (es' : EntrySpace) × (h_lookup ht es name index
          ≡ some (r, ht', es'))
        × Answer es chains name index r
        × Searched es chains ht' es'
  unfolding move_to_front
  h_lookup-cases name index none p found =
      (none, ht, es, h_lookup-seek name index found, absent name index found, unmoved)
  h_lookup-cases name index (some e) none found =
      (some e, ht, es, h_lookup-seek name index found, present name index e found, unmoved)
  h_lookup-cases name index (some e) (some p) found =
      let h = hash_32 name index ht.hash_bits in
      (
        some e,
        (move_to_front ht es h (some e) (some p)).0,
        (move_to_front ht es h (some e) (some p)).1,
        h_lookup-seek name index found,
        present name index e found,
        move_to_front-Searched h e p (hash_32-lt_table t name index)
            (present_at name index e found).0
            (seek-IsBefore es.entrys name index (chains h) (t.distinct h) found),
      )

  -- In a valid table `h_lookup` ends. It finds the entry of the table that has the key, if there is
  -- one, and leaves a valid table of the same entries, perhaps in another order within their buckets.
  pub h_lookup-Answer :
      (name : Text) (index : ℕ)
      → (r : Option ℕ) × (ht' : HashTable) × (es' : EntrySpace) × (h_lookup ht es name index
          ≡ some (r, ht', es'))
        × Answer es chains name index r
        × Searched es chains ht' es'
  h_lookup-Answer name index = h_lookup-cases name index _ _ refl
