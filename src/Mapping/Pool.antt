-- ===== src/Mapping/Pool.antt =====
-- Entries taken from the free list of a mapping and given back to it.
use user_level_ssd_cache_fra.Common.{
  ℕ, ◌<◌, ◌≡◌, subst, refl, ap, ◌∙◌, Bool, true, false, ◌&&◌, List, [], ◌∷◌, ◌++◌, arith, ◌==◌, has,
  if◌then◌else◌, some,
}
use user_level_ssd_cache_fra.Entry.{
  Entry, EntrySpace, indexer_null, put_entry, init_entry, entry_set_alloc, entry_get_pending,
  entry_get_dirty, entry_get_alloc,
}
use user_level_ssd_cache_fra.Entry.Flags.{flags, flags-entry_set_alloc}
use user_level_ssd_cache_fra.Ilist.{Ilist, l_add_tail, l_pop_head, inc, dec}
use user_level_ssd_cache_fra.Ilist.Seg.{has_head}
use user_level_ssd_cache_fra.Ilist.Defs.{IsList, Relinked}
use user_level_ssd_cache_fra.Ilist.Add.{l_add_tail-append}
use user_level_ssd_cache_fra.Ilist.Del.{l_pop_head-cons}
use user_level_ssd_cache_fra.Alloc.{alloc_entry, free_entry, allocator_empty}
use user_level_ssd_cache_fra.Mapping.{Mapping, take_entry, release}
use user_level_ssd_cache_fra.Mapping.Shape.{
  View, Shape, Apart, AtMostOne, Linked-Relinked, IsList-Relinked,
}
use user_level_ssd_cache_fra.Mapping.Moves.{Buckets-Relinked, Loose, has-snoc, not-has-cons}
use user_level_ssd_cache_fra.Mapping.Status.{
  status, key, status-Linked, key-Linked, status_at, key-put, Shape-put, Shape-put-Loose, key_same,
}

-- Two mappings with the same entries, lists and table hold the same view.
pub Shape-same :
    {m : Mapping} {v : View} (m' : Mapping)
    → Shape m v
    → m'.es ≡ m.es
    → m'.ea.free ≡ m.ea.free
    → m'.clean ≡ m.clean
    → m'.dirty ≡ m.dirty
    → m'.table ≡ m.table
    → Shape m' v
Shape-same m' s es free clean dirty table = record {
  free = rw (es, free) s.free;
  clean = rw (es, clean) s.clean;
  dirty = rw (es, dirty) s.dirty;
  apart = s.apart;
  buckets = rw (es, table) s.buckets;
}

-- A new free list, where only links of `xs` have changed.
free-Shape :
    {m : Mapping} {v : View} {es' : EntrySpace} {l' : Ilist} (xs ys : List ℕ) (n : ℕ)
    → Shape m v
    → IsList es' l' ys
    → Relinked xs m.es es'
    → ((i : ℕ) → has i v.clean ≡ true → has i xs ≡ false)
    → ((i : ℕ) → has i v.dirty ≡ true → has i xs ≡ false)
    → Apart (record v { free = ys })
    → Shape
        (record m { es = es'; ea = record { begin = m.ea.begin; nr_allocated = n; free = l' } })
        (record v { free = ys })
free-Shape xs ys n s l r c d apart = record {
  free = l;
  clean = IsList-Relinked xs s.clean r c;
  dirty = IsList-Relinked xs s.dirty r d;
  apart = apart;
  buckets = Buckets-Relinked xs s r;
}

AtMostOne-free :
    (e i : ℕ) (f c d : List ℕ)
    → AtMostOne (has i f) (has i c) (has i d)
    → has e c ≡ false
    → has e d ≡ false
    → AtMostOne (has i (e ∷ f)) (has i c) (has i d)
AtMostOne-free e i f c d a out_c out_d = ground arith

and_comm : (a b : Bool) → (b && a) ≡ (a && b)
and_comm a b = ground arith

-- Of two tests that exclude one another, the second fails where the first holds.
alone : (a b : Bool) → (a && b) ≡ false → a ≡ true → b ≡ false
alone a b h p = ground arith

AtMostOne-tail :
    (e i : ℕ) (f c d : List ℕ)
    → AtMostOne (has i (e ∷ f)) (has i c) (has i d)
    → AtMostOne (has i f) (has i c) (has i d)
AtMostOne-tail e i f c d a = ground arith

-- The free list is empty for the allocator exactly if the view says so.
pub allocator_empty-nil :
    {m : Mapping} {v : View} → Shape m v → v.free ≡ [] → allocator_empty m.ea ≡ true
allocator_empty-nil s e = ground (arith, s.free.head_at)

pub allocator_empty-cons :
    {m : Mapping} {v : View} (e : ℕ) (rest : List ℕ)
    → Shape m v
    → v.free ≡ e ∷ rest
    → allocator_empty m.ea ≡ false
allocator_empty-cons e rest s at = ground (arith, s.free.head_at, s.free.inside e)

-- What `alloc_entry` does to the mapping: the first free entry `e` is taken, its flags and key reset.
pub record Taken (m : Mapping) (e : ℕ) (m' : Mapping) : Type 0 where
  pub status_of :
      (i : ℕ) → status m'.es i ≡ (if e == i then (false, false, true) else status m.es i)
  pub key_of : (i : ℕ) → (e == i) ≡ false → key m'.es i ≡ key m.es i
  pub num : m'.cache_block_num ≡ m.cache_block_num
  pub begin : m'.ea.begin ≡ m.ea.begin
  pub allocated : m'.ea.nr_allocated ≡ inc m.ea.nr_allocated
  pub wq : m'.wq ≡ m.wq

flags-reset : (e : Entry) → flags (entry_set_alloc (init_entry e) true) ≡ (false, false, true)
unfolding init_entry entry_set_alloc entry_get_pending entry_get_dirty entry_get_alloc
flags-reset e = refl

pub take_entry-cons :
    {m : Mapping} {v : View} (e : ℕ) (rest : List ℕ)
    → Shape m v
    → v.free ≡ e ∷ rest
    → v.tabled e ≡ false
    → (m' : Mapping) × (take_entry m ≡ some (e, m'))
      × Shape m' (record v { free = rest })
      × Taken m e m'
unfolding take_entry alloc_entry
take_entry-cons {m} {v} e rest s at out =
    let l = subst (λ xs. IsList m.es m.ea.free xs) at s.free in
    let apart : (i : ℕ) → AtMostOne (has i (e ∷ rest)) (has i v.clean) (has i v.dirty) =
      λ i. subst (λ xs. AtMostOne (has i xs) (has i v.clean) (has i v.dirty)) at (s.apart i) in
    let (popped_at, l', r) = l_pop_head-cons l in
    let es₁ = (l_pop_head m.es m.ea.free).1 in
    let free₁ = (l_pop_head m.es m.ea.free).2 in
    let x = entry_set_alloc (init_entry (es₁.entrys e)) true in
    let s₁ =
      free-Shape (e ∷ rest) rest (inc m.ea.nr_allocated) s l' r
        (λ i. alone _ _ (and_comm (has i (e ∷ rest)) (has i v.clean) ∙ (apart i).0))
        (λ i. alone _ _ (and_comm (has i (e ∷ rest)) (has i v.dirty) ∙ (apart i).1))
        (λ i. AtMostOne-tail e i rest v.clean v.dirty (apart i)) in
    let linked = Linked-Relinked (e ∷ rest) r in
    (
      record m {
        es = put_entry es₁ e x;
        ea = record { begin = m.ea.begin; nr_allocated = inc m.ea.nr_allocated; free = free₁ };
      },
      rw (allocator_empty-cons e rest s at, alloc_entry) (rw popped_at),
      Shape-put-Loose s₁ e x
          (
            l.distinct.0,
            alone _ _ (apart e).0 (has_head e rest),
            alone _ _ (apart e).1 (has_head e rest),
          )
          out,
      record {
        status_of = λ i.
            status_at es₁ e i (λ _. (false, false, true)) x (flags-reset (es₁.entrys e))
            ∙ ap (λ y. if e == i then (false, false, true) else y)
                (status-Linked m.es es₁ i linked);
        key_of = λ i ne. key-put es₁ e i x ∙ rw ne (key-Linked m.es es₁ i linked);
        num = refl;
        begin = refl;
        allocated = refl;
        wq = refl;
      },
    )

-- `free_entry`: the entry goes behind the free list, and is no longer allocated.
pub record Released (m : Mapping) (e : ℕ) (m' : Mapping) : Type 0 where
  pub status_of :
      (i : ℕ)
      → status m'.es i
        ≡ (if e == i then ((status m.es i).0, (status m.es i).1, false) else status m.es i)
  pub key_of : (i : ℕ) → key m'.es i ≡ key m.es i
  pub num : m'.cache_block_num ≡ m.cache_block_num
  pub begin : m'.ea.begin ≡ m.ea.begin
  pub allocated : m'.ea.nr_allocated ≡ dec m.ea.nr_allocated
  pub wq : m'.wq ≡ m.wq

pub release-Released :
    {m : Mapping} {v : View} (e : ℕ)
    → Shape m v
    → Loose v e
    → e < indexer_null
    → Shape (release m e) (record v { free = v.free ++ (e ∷ []) }) × Released m e (release m e)
unfolding release free_entry
release-Released {m} {v} e s (f, c, d) small =
    let x = entry_set_alloc (m.es.entrys e) false in
    let (flag, body) = flags-entry_set_alloc (m.es.entrys e) false in
    let s₁ = Shape-put s e x body in
    let (l, r) = l_add_tail-append e s₁.free f small in
    let es₁ = put_entry m.es e x in
    let es₂ = (l_add_tail es₁ m.ea.free e).0 in
    let linked = Linked-Relinked (e ∷ v.free) r in
    (
      free-Shape (e ∷ v.free) (v.free ++ (e ∷ [])) (dec m.ea.nr_allocated) s₁ l r
          (λ i. not-has-cons e i v.free v.clean (ground (arith, s.apart i)) c)
          (λ i. not-has-cons e i v.free v.dirty (ground (arith, s.apart i)) d)
          (λ i.
            rw (has-snoc e i v.free) (AtMostOne-free e i v.free v.clean v.dirty (s.apart i) c d)),
      record {
        status_of = λ i.
            status-Linked es₁ es₂ i linked
            ∙ status_at m.es e i (λ k. ((status m.es k).0, (status m.es k).1, false)) x flag;
        key_of = λ i. key-Linked es₁ es₂ i linked ∙ key_same m.es e i x body;
        num = refl;
        begin = refl;
        allocated = refl;
        wq = refl;
      },
    )
