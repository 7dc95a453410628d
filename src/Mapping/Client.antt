-- ===== src/Mapping/Client.antt =====
-- The branch of a hit: `touch` keeps the invariant.
use user_level_ssd_cache_fra.Common.{
  ℕ, ◌<◌, ◌≡◌, ◌∙◌, refl, ap, true, false, not, ◌&&◌, List, [], ◌∷◌, ◌++◌, arith, has, without,
  if◌then◌else◌, some, inl, inr, Bool-cases,
}
use user_level_ssd_cache_fra.Config.{cache_block_number}
use user_level_ssd_cache_fra.Ilist.{inc}
use user_level_ssd_cache_fra.Mapping.{Mapping, is_dirty, is_pending, delist, enlist_tail}
use user_level_ssd_cache_fra.Mapping.Access.{touch}
use user_level_ssd_cache_fra.Mapping.Shape.{View}
use user_level_ssd_cache_fra.Mapping.Moves.{Moved, Moved-trans, delist-Moved, enlist_tail-Moved}
use user_level_ssd_cache_fra.Mapping.Status.{status, status-Linked, key-Linked}
use user_level_ssd_cache_fra.Mapping.Pool.{Shape-same}
use user_level_ssd_cache_fra.Mapping.Inv.{Flight, Placed, IsMapping}
use user_level_ssd_cache_fra.Mapping.Places.{Placed-touch}
use user_level_ssd_cache_fra.Mapping.Facts.{
  SameEntries, SameEntries-Moved, Queued-Shrunk, small_of_tabled, infer_cblock_self,
  alloc_of_tabled, Loose-without,
}

-- The clean entry that is used again becomes the last one of the clean list; any other entry stays.
abbrev pub used : View → ℕ → View
used v e = if has e v.clean then record v { clean = without e v.clean ++ (e ∷ []) } else v

-- Only a counter has changed.
pub IsMapping-counted :
    {m : Mapping} {v : View} {f : Flight} (m' : Mapping)
    → IsMapping m v f
    → m'.es ≡ m.es
    → m'.ea ≡ m.ea
    → m'.clean ≡ m.clean
    → m'.dirty ≡ m.dirty
    → m'.table ≡ m.table
    → m'.cache_block_num ≡ m.cache_block_num
    → m'.wq ≡ m.wq
    → IsMapping m' v f
IsMapping-counted {m} {v} {f} m' inv es ea clean dirty table num wq = record {
  shape = Shape-same m' inv.shape es (ap (λ k. k.free) ea) clean dirty table;
  placed = λ i. rw (num, es) (inv.placed i);
  num = rw num inv.num;
  begin = rw ea inv.begin;
  allocated = rw (ea, num) inv.allocated;
  queued = Queued-Shrunk m m' v v f wq (λ i p. (p, rw es)) (λ i _. rw es) inv.queued;
}

-- Links have changed alone, and the view at most in the clean and the dirty list.
pub IsMapping-Moved :
    {m m' : Mapping} {v : View} {f : Flight} (clean' dirty' : List ℕ)
    → IsMapping m v f
    → Moved m m' (record v { clean = clean'; dirty = dirty' })
    → ((i : ℕ)
        → Placed m.cache_block_num
            (status m'.es i)
            (record v { clean = clean'; dirty = dirty' })
            f
            i)
    → IsMapping m' (record v { clean = clean'; dirty = dirty' }) f
IsMapping-Moved {m} {m'} {v} {f} clean' dirty' inv a placed = record {
  shape = a.shape;
  placed = λ i. rw a.kept.num (placed i);
  num = rw a.kept.num inv.num;
  begin = a.kept.begin ∙ inv.begin;
  allocated = rw (a.kept.allocated, a.kept.num) inv.allocated;
  queued =
      Queued-Shrunk m m' v _ f a.kept.wq (λ i p. (p, key-Linked m.es m'.es i a.linked))
        (λ i _. key-Linked m.es m'.es i a.linked) inv.queued;
}

module _ {m : Mapping} {v : View} {f : Flight} (inv : IsMapping m v f) (e : ℕ) where
  requeue-Moved :
      (status m.es e).1 ≡ false
      → has e v.clean ≡ true
      → e < cache_block_number
      → Moved m (enlist_tail (delist m e) e) (record v { clean = without e v.clean ++ (e ∷ []) })
  requeue-Moved clean inside small =
      let a = delist-Moved inv.shape e false clean inside in
      Moved-trans a (
        enlist_tail-Moved a.shape e false
          (ap (λ k. k.1) (status-Linked m.es (delist m e).es e a.linked) ∙ clean)
          (Loose-without e false inv.shape inside) (omega arith))

  requeue-IsMapping :
      (status m.es e).1 ≡ false
      → has e v.clean ≡ true
      → e < cache_block_number
      → IsMapping
          (enlist_tail (delist m e) e)
          (record v { clean = without e v.clean ++ (e ∷ []) })
          f
        × SameEntries m (enlist_tail (delist m e) e)
        × ((enlist_tail (delist m e) e).wq ≡ m.wq)
  requeue-IsMapping clean inside small =
      let a = requeue-Moved clean inside small in
      (
        IsMapping-Moved (without e v.clean ++ (e ∷ [])) v.dirty inv a (λ i.
            Placed-touch m.cache_block_num v e i f (inv.placed i) inv.shape.clean.distinct inside
              (status-Linked m.es (enlist_tail (delist m e) e).es i a.linked)),
        SameEntries-Moved a,
        a.kept.wq,
      )

-- A hit on an entry of the table gives its cache block, keeps every entry, and makes a clean entry
-- the last one of the clean list.
pub touch-used :
    {m : Mapping} {v : View} {f : Flight} (e : ℕ)
    → IsMapping m v f
    → v.tabled e ≡ true
    → (m' : Mapping) × (touch m e ≡ some (some e, m'))
      × IsMapping m' (used v e) f
      × SameEntries m m'
      × (m'.wq ≡ m.wq)
unfolding touch
touch-used {m} {v} e inv inside =
    let small = small_of_tabled inv e inside in
    let m₁ = record m { hit_time = inc m.hit_time } in
    let inv₁ = IsMapping-counted m₁ inv refl refl refl refl refl refl refl in
    let clean_at : has e v.clean ≡ (not (status m.es e).0 && not (status m.es e).1) =
      (inv.placed e).clean ∙ rw (alloc_of_tabled inv e inside) in
    elim (Bool-cases (not (is_pending m₁ e) && not (is_dirty m₁ e))) [
      | inl again ↦
          let m₂ = enlist_tail (delist m₁ e) e in
          let (inv₂, same, wq) = requeue-IsMapping inv₁ e (ground arith) (clean_at ∙ again) small in
          (
            m₂,
            rw again (ap (λ k. some (some k, m₂)) (infer_cblock_self inv₂ e small)),
            rw (clean_at ∙ again) inv₂,
            same,
            wq,
          )
      | inr other ↦ (
        m₁,
        rw other (ap (λ k. some (some k, m₁)) (infer_cblock_self inv₁ e small)),
        rw (clean_at ∙ other) inv₁,
        λ i. (refl, refl),
        refl,
      )
    ]
