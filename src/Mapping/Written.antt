-- ===== src/Mapping/Written.antt =====
-- `set_dirty_after_write`: a block that has been written is dirty.
use user_level_ssd_cache_fra.Common.{
  ℕ, ◌<◌, ◌≡◌, ◌∙◌, refl, sym, ap, Bool, true, false, List, [], ◌∷◌, ◌++◌, arith, ◌==◌, has,
  without, if◌then◌else◌, if_self, inl, inr, Bool-cases,
}
use user_level_ssd_cache_fra.Config.{cache_block_number}
use user_level_ssd_cache_fra.Entry.{EntrySpace, indexer_null}
use user_level_ssd_cache_fra.Mapping.{Mapping, is_pending, set_dirty, delist, enlist_tail}
use user_level_ssd_cache_fra.Mapping.Access.{mark_dirty, set_dirty_after_write}
use user_level_ssd_cache_fra.Mapping.Shape.{View, Shape}
use user_level_ssd_cache_fra.Mapping.Moves.{
  Kept, Kept-trans, queue, set_queue, delist-Moved, enlist_tail-Moved,
}
use user_level_ssd_cache_fra.Mapping.Status.{
  status, key, status-Linked, key-Linked, status-set_dirty, key-set_dirty, Shape-set_dirty,
  Kept-set_dirty,
}
use user_level_ssd_cache_fra.Mapping.Inv.{Flight, in_flight, Placed, IsMapping}
use user_level_ssd_cache_fra.Mapping.Places.{Placed-mark_pending, Placed-mark_listed}
use user_level_ssd_cache_fra.Mapping.Facts.{
  Queued-Shrunk, small_of_alloc, listed, Loose-without, queue-IsDistinct,
}

-- The flags of all entries, after `e` has become dirty; the keys are as they were.
abbrev pub Dirtied : Mapping → Mapping → ℕ → Type 0
Dirtied m m' e =
    (i : ℕ)
    → (status m'.es i
        ≡ (if e == i then ((status m.es i).0, true, (status m.es i).2) else status m.es i))
      × (key m'.es i ≡ key m.es i)

-- A listed entry goes to the end of the dirty list.
abbrev pub written : View → Bool → ℕ → View
written v dirty e =
    let v' = set_queue v dirty (without e (queue v dirty)) in
    record v' { dirty = v'.dirty ++ (e ∷ []) }

-- The invariant is put together from the flags and the shape.
IsMapping-Dirtied :
    {m m' : Mapping} {v : View} {f : Flight} (clean' dirty' : List ℕ)
    → IsMapping m v f
    → Shape m' (record v { clean = clean'; dirty = dirty' })
    → Kept m m'
    → ((i : ℕ) → key m'.es i ≡ key m.es i)
    → ((i : ℕ)
        → Placed m.cache_block_num
            (status m'.es i)
            (record v { clean = clean'; dirty = dirty' })
            f
            i)
    → IsMapping m' (record v { clean = clean'; dirty = dirty' }) f
IsMapping-Dirtied {m} {m'} {v} {f} clean' dirty' inv s k keys placed = record {
  shape = s;
  placed = λ i. rw k.num (placed i);
  num = rw k.num inv.num;
  begin = k.begin ∙ inv.begin;
  allocated = rw (k.allocated, k.num) inv.allocated;
  queued = Queued-Shrunk m m' v _ f k.wq (λ i p. (p, keys i)) (λ i _. keys i) inv.queued;
}

module _ {m : Mapping} {v : View} {f : Flight} (inv : IsMapping m v f) (e : ℕ) where
  marked_pending :
      in_flight f e ≡ true → IsMapping (set_dirty m e true) v f × Dirtied m (set_dirty m e true) e
  marked_pending flies = (
    IsMapping-Dirtied v.clean v.dirty inv (Shape-set_dirty inv.shape e true)
        (Kept-set_dirty m e true) (λ i. key-set_dirty m e true i)
        (λ i.
          Placed-mark_pending m.cache_block_num v e i f (inv.placed i) flies
            (status-set_dirty m e true i)),
    (λ i. (status-set_dirty m e true i, key-set_dirty m e true i)),
  )

  marked_listed :
      (d : Bool)
      → (status m.es e).1 ≡ d
      → has e (queue v d) ≡ true
      → e < cache_block_number
      → let m' = enlist_tail (set_dirty (delist m e) e true) e in
        IsMapping m' (written v d e) f × Dirtied m m' e
  marked_listed d at inside small =
      let a = delist-Moved inv.shape e d at inside in
      let m₁ = delist m e in
      let m₂ = set_dirty m₁ e true in
      let st₂ : (i : ℕ)
          → status m₂.es i
            ≡ (if e == i then ((status m.es i).0, true, (status m.es i).2) else status m.es i) =
        λ i.
          status-set_dirty m₁ e true i
          ∙ ap (λ (k : Bool × Bool × Bool). if e == i then (k.0, true, k.2) else k)
              (status-Linked m.es m₁.es i a.linked) in
      let b =
        enlist_tail-Moved (Shape-set_dirty a.shape e true) e true
          (ap (λ (k : Bool × Bool × Bool). k.1) (st₂ e ∙ if_self e _ (status m.es e)))
          (Loose-without e d inv.shape inside) (omega (arith, small)) in
      let m₃ = enlist_tail m₂ e in
      let st : (i : ℕ)
          → status m₃.es i
            ≡ (if e == i then ((status m.es i).0, true, (status m.es i).2) else status m.es i) =
        λ i. status-Linked m₂.es m₃.es i b.linked ∙ st₂ i in
      let keys : (i : ℕ) → key m₃.es i ≡ key m.es i = λ i.
        key-Linked m₂.es m₃.es i b.linked
        ∙ key-set_dirty m₁ e true i
        ∙ key-Linked m.es m₁.es i a.linked in
      (
        IsMapping-Dirtied (written v d e).clean (written v d e).dirty inv b.shape
            (Kept-trans a.kept (Kept-trans (Kept-set_dirty m₁ e true) b.kept)) keys
            (λ i.
              Placed-mark_listed m.cache_block_num v e i f d (inv.placed i)
                (queue-IsDistinct d inv.shape) inside (st i)),
        (λ i. (st i, keys i)),
      )

set_dirty_after_write-marked :
    (m : Mapping) (e : ℕ) (dirty : Bool)
    → e < cache_block_number
    → (status m.es e).2 ≡ true
    → set_dirty_after_write m e dirty ≡ (
        if is_pending m e
        then set_dirty m e true
        else enlist_tail (set_dirty (delist m e) e true) e)
unfolding set_dirty_after_write mark_dirty
set_dirty_after_write-marked m e dirty small held =
    let there : (e == indexer_null) ≡ false = ground arith in ground (arith, held)

-- What a write of the cache block of an allocated entry does to the lists.
abbrev pub written_view : EntrySpace → View → ℕ → View
written_view es v e = if (status es e).0 then v else written v (status es e).1 e

-- On a mapping that keeps the invariant, at whatever point the worker stands, a write of the cache
-- block of an allocated entry makes the entry dirty, whatever the argument `dirty` is, and changes no
-- other flag and no key. An entry that is not in transfer becomes the last one of the dirty list, one
-- in transfer stays out of the lists. The invariant is kept.
pub set_dirty_after_write-Dirtied :
    {m : Mapping} {v : View} {f : Flight} (e : ℕ) (dirty : Bool)
    → IsMapping m v f
    → (status m.es e).2 ≡ true
    → let m' = set_dirty_after_write m e dirty in
      IsMapping m' (written_view m.es v e) f × Dirtied m m' e
set_dirty_after_write-Dirtied {m} {v} {f} e dirty inv held =
    let small = small_of_alloc inv e held in
    let marked = set_dirty_after_write-marked m e dirty small held in
    elim (Bool-cases (status m.es e).0) [
      | inl flies ↦
          let same : set_dirty_after_write m e dirty ≡ set_dirty m e true = marked ∙ rw flies in
          rw (same, flies) (marked_pending inv e (sym (inv.placed e).pending ∙ flies))
      | inr rests ↦
          let same : set_dirty_after_write m e dirty
              ≡ enlist_tail (set_dirty (delist m e) e true) e =
            marked ∙ rw rests in
          rw (same, rests)
            (marked_listed inv e (status m.es e).1 refl
              (listed inv e (status m.es e).1 refl held rests) small)
    ]
