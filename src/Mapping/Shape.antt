-- ===== src/Mapping/Shape.antt =====
-- What the memory of a mapping stands for: three lists of entries and a hash table over them.
use user_level_ssd_cache_fra.Common.{
  ℕ, ◌≡◌, sym, ◌∙◌, Bool, true, false, ◌&&◌, List, arith, ◌==◌, has, Bool-cases, inl, inr,
}
use user_level_ssd_cache_fra.Entry.{Entry, EntrySpace}
use user_level_ssd_cache_fra.Ilist.{Ilist}
use user_level_ssd_cache_fra.Ilist.Defs.{IsList, IsList-frame, Relinked}
use user_level_ssd_cache_fra.HashTable.{HashTable, bucket_of}
use user_level_ssd_cache_fra.HashTable.Chain.{Chain-frame}
use user_level_ssd_cache_fra.HashTable.Table.{IsTable, Rechained}
use user_level_ssd_cache_fra.Mapping.{Mapping}

-- What a client can know of the mapping: the entries of the free list and of the clean and the dirty
-- list, from the head of each to its tail, and which entries the hash table holds.
pub record View : Type 0 where
  pub free : List ℕ
  pub clean : List ℕ
  pub dirty : List ℕ
  pub tabled : ℕ → Bool

-- At most one of the three holds.
abbrev pub AtMostOne : Bool → Bool → Bool → Type 0
AtMostOne a b c = ((a && b) ≡ false) × ((a && c) ≡ false) × ((b && c) ≡ false)

abbrev pub Apart : View → Type 0
Apart v = (i : ℕ) → AtMostOne (has i v.free) (has i v.clean) (has i v.dirty)

-- The buckets of the table hold the entries `tabled`, each in the bucket of its key.
pub record Buckets (ht : HashTable) (es : EntrySpace) (tabled : ℕ → Bool) : Type 0 where
  pub chains : ℕ → List ℕ
  pub table : IsTable ht es chains
  pub members : (h i : ℕ) → has i (chains h) ≡ (tabled i && (bucket_of ht (es.entrys i) == h))

-- The memory of the mapping holds the view.
pub record Shape (m : Mapping) (v : View) : Type 0 where
  pub free : IsList m.es m.ea.free v.free
  pub clean : IsList m.es m.clean v.clean
  pub dirty : IsList m.es m.dirty v.dirty
  pub apart : Apart v
  pub buckets : Buckets m.table m.es v.tabled

-- The two entries agree in their key and flags.
pub record SameInfo (e e' : Entry) : Type 0 where
  pub param : e'.param ≡ e.param
  pub name : e'.full_path_name ≡ e.full_path_name
  pub index : e'.cache_page_index ≡ e.cache_page_index

-- Only links of entries have changed.
abbrev pub Linked : EntrySpace → EntrySpace → Type 0
Linked es es' = (i : ℕ) → SameInfo (es.entrys i) (es'.entrys i)

pub Linked-trans : (es es' es'' : EntrySpace) → Linked es es' → Linked es' es'' → Linked es es''
Linked-trans es es' es'' r s i = record {
  param = (s i).param ∙ (r i).param;
  name = (s i).name ∙ (r i).name;
  index = (s i).index ∙ (r i).index;
}

pub Linked-Relinked : {es es' : EntrySpace} (xs : List ℕ) → Relinked xs es es' → Linked es es'
Linked-Relinked xs r i = record {
  param = (r.body i).param;
  name = (r.body i).name;
  index = (r.body i).index;
}

pub Linked-Rechained : (es es' : EntrySpace) → Rechained es es' → Linked es es'
Linked-Rechained es es' r i = record { param = (r i).param; name = (r i).name; index = (r i).index }

-- A list is untouched by a change of the links of another one, and by a change of chain links.
pub IsList-Relinked :
    {es es' : EntrySpace} {l : Ilist} {ys : List ℕ} (xs : List ℕ)
    → IsList es l ys
    → Relinked xs es es'
    → ((i : ℕ) → has i ys ≡ true → has i xs ≡ false)
    → IsList es' l ys
IsList-Relinked xs v r apart = IsList-frame v (λ i h. r.others i (apart i h))

pub IsList-Rechained :
    {es es' : EntrySpace} {l : Ilist} {ys : List ℕ}
    → IsList es l ys
    → Rechained es es'
    → IsList es' l ys
IsList-Rechained v r = IsList-frame v (λ i h. ((r i).prev, (r i).next))

-- The table is untouched by a change that spares the chain links and the keys of its entries.
pub Buckets-frame :
    {ht : HashTable} {es es' : EntrySpace} {tabled : ℕ → Bool}
    → Buckets ht es tabled
    → ((i : ℕ)
        → tabled i ≡ true
        → ((es'.entrys i).hash_next ≡ (es.entrys i).hash_next)
          × ((es'.entrys i).full_path_name ≡ (es.entrys i).full_path_name)
          × ((es'.entrys i).cache_page_index ≡ (es.entrys i).cache_page_index))
    → Buckets ht es' tabled
Buckets-frame {ht} {es} {es'} {tabled} b same =
    let held : (h i : ℕ) → has i (b.chains h) ≡ true → tabled i ≡ true =
      λ h i p. ground (arith, b.members h i) in
    let stays : (i : ℕ)
        → tabled i ≡ true
        → bucket_of ht (es'.entrys i) ≡ bucket_of ht (es.entrys i) =
      λ i p. rw ((same i p).1, (same i p).2) in
    record {
      chains = b.chains;
      table = record {
        bits = b.table.bits;
        chain = λ h lt.
            Chain-frame es.entrys es'.entrys _ (b.chains h) (b.table.chain h lt)
              (λ i p. (same i (held h i p)).0);
        distinct = b.table.distinct;
        inside = b.table.inside;
        home = λ h i p. stays i (held h i p) ∙ b.table.home h i p;
        unique = λ h i j p q s.
            let si = same i (held h i p) in
            let sj = same j (held h j q) in
            b.table.unique h i j p q (sym si.1 ∙ s.0 ∙ sj.1, sym si.2 ∙ s.1 ∙ sj.2);
      };
      members = λ h i. elim (Bool-cases (tabled i)) [
        | inl p ↦ rw (stays i p) (b.members h i)
        | inr n ↦ b.members h i ∙ rw n
      ];
    }
