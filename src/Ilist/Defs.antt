-- ===== src/Ilist/Defs.antt =====
-- What a list in memory stands for, and what a change of links leaves alone.
use user_level_ssd_cache_fra.Common.{
  some, ℕ, ◌%◌, ◌<◌, ◌≡◌, refl, true, false, List, [], arith, has, IsDistinct, length,
  length-le_of_distinct, ◌∷◌,
}
use user_level_ssd_cache_fra.Config.{unsigned_mod}
use user_level_ssd_cache_fra.Entry.{Entry, EntrySpace, indexer_null}
use user_level_ssd_cache_fra.Ilist.{Ilist, l_init, l_head}
use user_level_ssd_cache_fra.Ilist.Seg.{Links, SameLinks, first, last, Links-frame}

-- The list in memory holds exactly the entries `xs`, in that order, linked both ways.
pub record IsList (es : EntrySpace) (l : Ilist) (xs : List ℕ) : Type 0 where
  pub links : Links es.entrys indexer_null xs indexer_null
  pub head_at : l.head ≡ first xs indexer_null
  pub tail_at : l.tail ≡ last indexer_null xs
  pub count : l.nr_elts ≡ length xs % unsigned_mod
  pub distinct : IsDistinct xs
  pub inside : (i : ℕ) → has i xs ≡ true → i < indexer_null

-- The two entries differ in their list links at most.
pub record SameButLinks (e e' : Entry) : Type 0 where
  pub hash_next : e'.hash_next ≡ e.hash_next
  pub param : e'.param ≡ e.param
  pub name : e'.full_path_name ≡ e.full_path_name
  pub index : e'.cache_page_index ≡ e.cache_page_index

-- Only list links have changed, and only those of entries in `xs`.
pub record Relinked (xs : List ℕ) (es es' : EntrySpace) : Type 0 where
  pub body : (i : ℕ) → SameButLinks (es.entrys i) (es'.entrys i)
  pub others : (i : ℕ) → has i xs ≡ false → SameLinks es.entrys es'.entrys i

pub SameButLinks-refl : (e : Entry) → SameButLinks e e
SameButLinks-refl e = record { hash_next = refl; param = refl; name = refl; index = refl }

pub not-has-null :
    {es : EntrySpace} {l : Ilist} {xs : List ℕ} → IsList es l xs → has indexer_null xs ≡ false
not-has-null {es} {l} {xs} v = ground (arith, v.inside indexer_null)

-- `l_init` makes the empty list.
pub l_init-IsList : (es : EntrySpace) (l : Ilist) → IsList es (l_init l) []
unfolding l_init
l_init-IsList es l = record {
  links = tt;
  head_at = refl;
  tail_at = refl;
  count = refl;
  distinct = tt;
  inside = λ i h. ground arith;
}

-- A list is untouched by changes that spare the links of its entries.
pub IsList-frame :
    {es es' : EntrySpace} {l : Ilist} {xs : List ℕ}
    → IsList es l xs
    → ((i : ℕ) → has i xs ≡ true → SameLinks es.entrys es'.entrys i)
    → IsList es' l xs
IsList-frame {es} {es'} {l} {xs} v same = record {
  links = Links-frame es.entrys es'.entrys indexer_null indexer_null xs v.links same;
  head_at = v.head_at;
  tail_at = v.tail_at;
  count = v.count;
  distinct = v.distinct;
  inside = v.inside;
}

-- The counter of a list does not wrap, since its entries are distinct and below the null index.
pub nr_elts-length :
    {es : EntrySpace} {l : Ilist} {xs : List ℕ} → IsList es l xs → l.nr_elts ≡ length xs
nr_elts-length {es} {l} {xs} v =
    omega (arith, v.count, length-le_of_distinct indexer_null xs v.distinct v.inside)

-- The head of a list that is not empty.
pub head-first :
    {es : EntrySpace} {l : Ilist} (e : ℕ) (rest : List ℕ)
    → IsList es l (e ∷ rest)
    → l_head es l ≡ some e
head-first e rest v =
    let small : e < indexer_null = v.inside e (ground arith) in ground (arith, v.head_at)
