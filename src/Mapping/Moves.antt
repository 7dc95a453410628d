-- ===== src/Mapping/Moves.antt =====
-- Entries put into and taken out of the lists of a mapping.
use user_level_ssd_cache_fra.Common.{
  ℕ, ◌<◌, ◌≡◌, refl, ◌∙◌, Bool, true, false, ◌&&◌, List, [], ◌∷◌, ◌++◌, arith, has, without,
  has-without, has-append, if◌then◌else◌,
}
use user_level_ssd_cache_fra.Entry.{EntrySpace, indexer_null}
use user_level_ssd_cache_fra.Ilist.{Ilist, l_del}
use user_level_ssd_cache_fra.Ilist.Defs.{IsList, Relinked}
use user_level_ssd_cache_fra.Ilist.Add.{l_add_tail-append, l_add_head-cons}
use user_level_ssd_cache_fra.Ilist.Del.{l_del-without}
use user_level_ssd_cache_fra.Mapping.{Mapping, is_dirty, delist, enlist_tail, enlist_head}
use user_level_ssd_cache_fra.Mapping.Shape.{
  View, Shape, Apart, AtMostOne, Linked, Linked-trans, Linked-Relinked, IsList-Relinked, Buckets,
  Buckets-frame,
}

-- The fields that no list and no table operation changes.
pub record Kept (m m' : Mapping) : Type 0 where
  pub num : m'.cache_block_num ≡ m.cache_block_num
  pub begin : m'.ea.begin ≡ m.ea.begin
  pub allocated : m'.ea.nr_allocated ≡ m.ea.nr_allocated
  pub wq : m'.wq ≡ m.wq

pub Kept-trans : {m m' m'' : Mapping} → Kept m m' → Kept m' m'' → Kept m m''
Kept-trans a b = record {
  num = b.num ∙ a.num;
  begin = b.begin ∙ a.begin;
  allocated = b.allocated ∙ a.allocated;
  wq = b.wq ∙ a.wq;
}

-- A step that changes links alone, and holds the view `v'` afterwards.
pub record Moved (m m' : Mapping) (v' : View) : Type 0 where
  pub shape : Shape m' v'
  pub linked : Linked m.es m'.es
  pub kept : Kept m m'

pub Moved-trans :
    {m m' m'' : Mapping} {v' v'' : View} → Moved m m' v' → Moved m' m'' v'' → Moved m m'' v''
Moved-trans {m} {m'} {m''} a b = record {
  shape = b.shape;
  linked = Linked-trans m.es m'.es m''.es a.linked b.linked;
  kept = Kept-trans a.kept b.kept;
}

-- The list that an entry belongs to by its dirty flag, and the view with that list replaced.
abbrev pub queue : View → Bool → List ℕ
queue v dirty = if dirty then v.dirty else v.clean

abbrev pub set_queue : View → Bool → List ℕ → View
set_queue v dirty xs = record v {
  clean = if dirty then v.clean else xs;
  dirty = if dirty then xs else v.dirty;
}

-- The entry is in none of the three lists.
abbrev pub Loose : View → ℕ → Type 0
Loose v e = (has e v.free ≡ false) × (has e v.clean ≡ false) × (has e v.dirty ≡ false)

pub Buckets-Relinked :
    {m : Mapping} {v : View} {es' : EntrySpace} (xs : List ℕ)
    → Shape m v
    → Relinked xs m.es es'
    → Buckets m.table es' v.tabled
Buckets-Relinked xs s r =
    Buckets-frame s.buckets (λ i _. ((r.body i).hash_next, (r.body i).name, (r.body i).index))

pub AtMostOne-clean :
    (e i : ℕ) (f c d : List ℕ)
    → AtMostOne (has i f) (has i c) (has i d)
    → has e f ≡ false
    → has e d ≡ false
    → AtMostOne (has i f) (has i (e ∷ c)) (has i d)
AtMostOne-clean e i f c d a out_f out_d = ground arith

AtMostOne-dirty :
    (e i : ℕ) (f c d : List ℕ)
    → AtMostOne (has i f) (has i c) (has i d)
    → has e f ≡ false
    → has e c ≡ false
    → AtMostOne (has i f) (has i c) (has i (e ∷ d))
AtMostOne-dirty e i f c d a out_f out_c = ground arith

-- An entry behind a list or in front of it.
pub has-snoc : (e i : ℕ) (xs : List ℕ) → has i (xs ++ (e ∷ [])) ≡ has i (e ∷ xs)
has-snoc e i xs = ground (arith, has-append i xs (e ∷ []))

-- A list that has not `e` and shares nothing with `xs` shares nothing with `e ∷ xs`.
pub not-has-cons :
    (e i : ℕ) (xs ys : List ℕ)
    → (has i ys && has i xs) ≡ false
    → has e ys ≡ false
    → has i ys ≡ true
    → has i (e ∷ xs) ≡ false
not-has-cons e i xs ys apart out inside = ground arith

module _ {m : Mapping} {v : View} (s : Shape m v) where
  -- A new clean list, where only links of `xs` have changed.
  clean-Moved :
      {es' : EntrySpace} {l' : Ilist} (xs ys : List ℕ)
      → IsList es' l' ys
      → Relinked xs m.es es'
      → ((i : ℕ) → has i v.free ≡ true → has i xs ≡ false)
      → ((i : ℕ) → has i v.dirty ≡ true → has i xs ≡ false)
      → Apart (record v { clean = ys })
      → Moved m (record m { es = es'; clean = l' }) (record v { clean = ys })
  clean-Moved xs ys l r f d apart = record {
    shape = record {
      free = IsList-Relinked xs s.free r f;
      clean = l;
      dirty = IsList-Relinked xs s.dirty r d;
      apart = apart;
      buckets = Buckets-Relinked xs s r;
    };
    linked = Linked-Relinked xs r;
    kept = record { num = refl; begin = refl; allocated = refl; wq = refl };
  }

  dirty-Moved :
      {es' : EntrySpace} {l' : Ilist} (xs ys : List ℕ)
      → IsList es' l' ys
      → Relinked xs m.es es'
      → ((i : ℕ) → has i v.free ≡ true → has i xs ≡ false)
      → ((i : ℕ) → has i v.clean ≡ true → has i xs ≡ false)
      → Apart (record v { dirty = ys })
      → Moved m (record m { es = es'; dirty = l' }) (record v { dirty = ys })
  dirty-Moved xs ys l r f c apart = record {
    shape = record {
      free = IsList-Relinked xs s.free r f;
      clean = IsList-Relinked xs s.clean r c;
      dirty = l;
      apart = apart;
      buckets = Buckets-Relinked xs s r;
    };
    linked = Linked-Relinked xs r;
    kept = record { num = refl; begin = refl; allocated = refl; wq = refl };
  }

  -- `l_del` of an entry from the dirty list, and from the clean list
  pub l_del_dirty-Moved :
      (e : ℕ)
      → has e v.dirty ≡ true
      → Moved m
          (record m { es = (l_del m.es m.dirty e).0; dirty = (l_del m.es m.dirty e).1 })
          (record v { dirty = without e v.dirty })
  l_del_dirty-Moved e inside =
      let (l, r) = l_del-without e s.dirty inside in
      dirty-Moved v.dirty (without e v.dirty) l r (λ i h. ground (arith, s.apart i))
        (λ i h. ground (arith, s.apart i))
        (λ i. ground (arith, s.apart i, has-without e i v.dirty s.dirty.distinct))

  pub l_del_clean-Moved :
      (e : ℕ)
      → has e v.clean ≡ true
      → Moved m
          (record m { es = (l_del m.es m.clean e).0; clean = (l_del m.es m.clean e).1 })
          (record v { clean = without e v.clean })
  l_del_clean-Moved e inside =
      let (l, r) = l_del-without e s.clean inside in
      clean-Moved v.clean (without e v.clean) l r (λ i h. ground (arith, s.apart i))
        (λ i h. ground (arith, s.apart i))
        (λ i. ground (arith, s.apart i, has-without e i v.clean s.clean.distinct))

  -- `l_del` of an entry from the list of its dirty flag.
  pub delist-Moved :
      (e : ℕ) (b : Bool)
      → is_dirty m e ≡ b
      → has e (queue v b) ≡ true
      → Moved m (delist m e) (set_queue v b (without e (queue v b)))
  unfolding delist
  delist-Moved e true at inside = rw (at, delist) (l_del_dirty-Moved e inside)
  delist-Moved e false at inside = rw (at, delist) (l_del_clean-Moved e inside)

  pub enlist_tail-Moved :
      (e : ℕ) (b : Bool)
      → is_dirty m e ≡ b
      → Loose v e
      → e < indexer_null
      → Moved m (enlist_tail m e) (set_queue v b (queue v b ++ (e ∷ [])))
  unfolding enlist_tail
  enlist_tail-Moved e true at (f, c, d) small =
      let (l, r) = l_add_tail-append e s.dirty d small in
      rw (at, enlist_tail)
        (dirty-Moved (e ∷ v.dirty) (v.dirty ++ (e ∷ [])) l r
          (λ i. not-has-cons e i v.dirty v.free (s.apart i).1 f)
          (λ i. not-has-cons e i v.dirty v.clean (s.apart i).2 c)
          (λ i.
            rw (has-snoc e i v.dirty) (AtMostOne-dirty e i v.free v.clean v.dirty (s.apart i) f c)))
  enlist_tail-Moved e false at (f, c, d) small =
      let (l, r) = l_add_tail-append e s.clean c small in
      rw (at, enlist_tail)
        (clean-Moved (e ∷ v.clean) (v.clean ++ (e ∷ [])) l r
          (λ i. not-has-cons e i v.clean v.free (s.apart i).0 f)
          (λ i. not-has-cons e i v.clean v.dirty (ground (arith, s.apart i)) d)
          (λ i.
            rw (has-snoc e i v.clean) (AtMostOne-clean e i v.free v.clean v.dirty (s.apart i) f d)))

  pub enlist_head-Moved :
      (e : ℕ) (b : Bool)
      → is_dirty m e ≡ b
      → Loose v e
      → e < indexer_null
      → Moved m (enlist_head m e) (set_queue v b (e ∷ queue v b))
  unfolding enlist_head
  enlist_head-Moved e true at (f, c, d) small =
      let (l, r) = l_add_head-cons e s.dirty d small in
      rw (at, enlist_head)
        (dirty-Moved (e ∷ v.dirty) (e ∷ v.dirty) l r
          (λ i. not-has-cons e i v.dirty v.free (s.apart i).1 f)
          (λ i. not-has-cons e i v.dirty v.clean (s.apart i).2 c)
          (λ i. AtMostOne-dirty e i v.free v.clean v.dirty (s.apart i) f c))
  enlist_head-Moved e false at (f, c, d) small =
      let (l, r) = l_add_head-cons e s.clean c small in
      rw (at, enlist_head)
        (clean-Moved (e ∷ v.clean) (e ∷ v.clean) l r
          (λ i. not-has-cons e i v.clean v.free (s.apart i).0 f)
          (λ i. not-has-cons e i v.clean v.dirty (ground (arith, s.apart i)) d)
          (λ i. AtMostOne-clean e i v.free v.clean v.dirty (s.apart i) f d))
