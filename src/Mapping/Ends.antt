-- ===== src/Mapping/Ends.antt =====
-- `demotion_complete` and `writeback_complete`, after a transfer that succeeded and after one that
-- failed, and what they share with `promotion_complete`.
use user_level_ssd_cache_fra.Common.{
  ℕ, ◌<◌, ◌≡◌, ◌∙◌, refl, ap, subst, Bool, true, false, not, List, [], ◌∷◌, ◌++◌, arith, ◌==◌,
  ==_iff, if_self, has, if◌then◌else◌, update, some, inl, inr, Bool-cases,
}
use user_level_ssd_cache_fra.Config.{cache_block_number}
use user_level_ssd_cache_fra.Entry.{to_entry}
use user_level_ssd_cache_fra.Ilist.{inc}
use user_level_ssd_cache_fra.Mapping.{Mapping, set_pending, enlist_tail, enlist_head, release}
use user_level_ssd_cache_fra.Mapping.Migrate.{demotion_complete, writeback_complete}
use user_level_ssd_cache_fra.Mapping.Shape.{View}
use user_level_ssd_cache_fra.Mapping.Moves.{
  Moved, queue, set_queue, enlist_tail-Moved, enlist_head-Moved, has-snoc,
}
use user_level_ssd_cache_fra.Mapping.Status.{status, key-Linked}
use user_level_ssd_cache_fra.Mapping.Keys.{table_remove-Moved}
use user_level_ssd_cache_fra.Mapping.Inv.{
  Flight, demoting, writing_back, finishing, in_flight, IsMapping,
}
use user_level_ssd_cache_fra.Mapping.Completion.{
  Queued-done, Cleared, Shape-Cleared, key-Cleared, status-Cleared, held, small, loose, landed,
  dropped, Landed, Dropped,
}

-- the views after the ends, `d` the dirty flag of the entry
abbrev pub promoted : View → Bool → ℕ → Bool → View
promoted v d e true = record (set_queue v d (queue v d ++ (e ∷ []))) {
  tabled = update v.tabled e true;
}
promoted v d e false = record v { free = v.free ++ (e ∷ []) }

abbrev pub demoted : View → Bool → ℕ → Bool → View
demoted v d e true = record v { free = v.free ++ (e ∷ []); tabled = update v.tabled e false }
demoted v d e false = set_queue v d (queue v d ++ (e ∷ []))

abbrev pub written_back : View → Bool → ℕ → Bool → View
written_back v d e true = set_queue v d (queue v d ++ (e ∷ []))
written_back v d e false = set_queue v d (e ∷ queue v d)

-- what becomes of the flags and the keys
abbrev pub Ended : Bool → Mapping → Mapping → ℕ → Type 0
Ended true m m' e = Landed m m' e
Ended false m m' e = Dropped m m' e

same_tabled : (t : ℕ → Bool) (e i : ℕ) (b : Bool) → t e ≡ b → t i ≡ (if e == i then b else t i)
same_tabled t e i b at = elim (Bool-cases (e == i)) [
  | inl hit ↦ rw hit (subst (λ k. t k ≡ b) ((==_iff e i).0 hit) at)
  | inr miss ↦ rw miss
]

pub there : (e : ℕ) → e < cache_block_number → to_entry e ≡ some e
there e h = ground arith

module _ {m : Mapping} {v : View} {f : Flight} (inv : IsMapping m v f) (e : ℕ)
    (flies : (i : ℕ) → in_flight f i ≡ (e == i)) {m₁ : Mapping} (c : Cleared m m₁ e) where
  pub dirty_kept : (status m₁.es e).1 ≡ (status m.es e).1
  dirty_kept = ap (λ k. k.1) (status-Cleared e e c ∙ if_self e _ (status m.es e))

  -- the entry, still in the table, put into the list of its dirty flag at either end
  relisted :
      {m' : Mapping} (xs : List ℕ)
      → v.tabled e ≡ true
      → Moved m₁ m' (set_queue v (status m.es e).1 xs)
      → ((i : ℕ) → has i xs ≡ has i (e ∷ queue v (status m.es e).1))
      → IsMapping m' (set_queue v (status m.es e).1 xs) finishing × Landed m m' e × (m'.wq ≡ m.wq)
  relisted {m'} xs inside a grown =
      let wq : m'.wq ≡ m.wq = a.kept.wq ∙ c.wq in
      let view = set_queue v (status m.es e).1 xs in
      let (inv', l) =
        landed inv e flies (status m.es e).1 xs v.tabled refl c a grown
          (λ i. same_tabled v.tabled e i true inside)
          (Queued-done m m' v view f wq
            (λ i p. (p, key-Linked m₁.es m'.es i a.linked ∙ key-Cleared e i c)) inv.queued) in
      (inv', l, wq)

  relisted_tail :
      v.tabled e ≡ true
      → let d = (status m.es e).1 in
        let m' = enlist_tail m₁ e in
        IsMapping m' (set_queue v d (queue v d ++ (e ∷ []))) finishing
        × Landed m m' e
        × (m'.wq ≡ m.wq)
  relisted_tail inside =
      let d = (status m.es e).1 in
      relisted (queue v d ++ (e ∷ [])) inside
        (enlist_tail-Moved (Shape-Cleared e c inv.shape) e d dirty_kept (loose inv e flies)
          (omega (arith, small inv e flies)))
        (λ i. has-snoc e i (queue v d))

  relisted_head :
      v.tabled e ≡ true
      → let d = (status m.es e).1 in
        let m' = enlist_head m₁ e in
        IsMapping m' (set_queue v d (e ∷ queue v d)) finishing × Landed m m' e × (m'.wq ≡ m.wq)
  relisted_head inside =
      let d = (status m.es e).1 in
      relisted (e ∷ queue v d) inside
        (enlist_head-Moved (Shape-Cleared e c inv.shape) e d dirty_kept (loose inv e flies)
          (omega (arith, small inv e flies)))
        (λ i. refl)

  -- the entry, that is not in the table, given back
  pub unpromoted :
      v.tabled e ≡ false
      → let m' = release m₁ e in
        IsMapping m' (record v { free = v.free ++ (e ∷ []) }) finishing
        × Dropped m m' e
        × (m'.wq ≡ m.wq)
  unpromoted out =
      dropped inv e flies v.tabled c
        (record {
          shape = Shape-Cleared e c inv.shape;
          linked = λ i. record { param = refl; name = refl; index = refl };
          kept = record { num = refl; begin = refl; allocated = refl; wq = refl };
        })
        (λ i. same_tabled v.tabled e i false out)

pub cleared :
    (m : Mapping) (e p d w : ℕ)
    → Cleared m
        (record (set_pending m e false) {
          promotion_time = p;
          demotion_time = d;
          writeback_time = w;
        })
        e
unfolding set_pending
cleared m e p d w = record {
  es = refl;
  free = refl;
  clean = refl;
  dirty = refl;
  table = refl;
  num = refl;
  wq = refl;
}

-- The pending flag cleared, without a count.
pub set_pending-Cleared : (m : Mapping) (e : ℕ) → Cleared m (set_pending m e false) e
set_pending-Cleared m e =
    let m₁ = set_pending m e false in
    cleared m e m₁.promotion_time m₁.demotion_time m₁.writeback_time

-- On a mapping that keeps the invariant, with the worker in the writeback of the entry `e`,
-- `writeback_complete` ends without a fault. The entry is the last one of the list of its dirty flag
-- after a success, and the first one after a failure. It is not pending, and no other flag and no key
-- changes. The invariant is kept, with the worker before `remove_work`.
pub writeback_complete-written_back :
    {m : Mapping} {v : View} (e : ℕ) (success : Bool)
    → IsMapping m v (writing_back e)
    → (m' : Mapping) × (writeback_complete m e success ≡ some m')
      × IsMapping m' (written_back v (status m.es e).1 e success) finishing
      × Landed m m' e
      × (m'.wq ≡ m.wq)
unfolding writeback_complete
writeback_complete-written_back {m} {v} e true inv =
    let m₁ = set_pending m e false in
    let m₂ = record m₁ { writeback_time = inc m₁.writeback_time } in
    let tabled : v.tabled e ≡ true = (inv.placed e).tabled ∙ rw (held inv e (λ i. refl)) in
    let (inv', l, wq) =
      relisted_tail inv e (λ i. refl)
        (cleared m e m₁.promotion_time m₁.demotion_time (inc m₁.writeback_time)) tabled in
    (enlist_tail m₂ e, rw (there e (small inv e (λ i. refl))), inv', l, wq)
writeback_complete-written_back {m} {v} e false inv =
    let tabled : v.tabled e ≡ true = (inv.placed e).tabled ∙ rw (held inv e (λ i. refl)) in
    let (inv', l, wq) = relisted_head inv e (λ i. refl) (set_pending-Cleared m e) tabled in
    (enlist_head (set_pending m e false) e, rw (there e (small inv e (λ i. refl))), inv', l, wq)

-- On a mapping that keeps the invariant, with the worker in the demotion of the entry `e`,
-- `demotion_complete` ends without a fault. After a success the entry has left the table and is free,
-- whatever its dirty flag; after a failure it is the last one of the list of its dirty flag. The
-- invariant is kept, with the worker before `remove_work`.
pub demotion_complete-demoted :
    {m : Mapping} {v : View} (e : ℕ) (success : Bool)
    → IsMapping m v (demoting e)
    → (m' : Mapping) × (demotion_complete m e success ≡ some m')
      × IsMapping m' (demoted v (status m.es e).1 e success) finishing
      × Ended (not success) m m' e
      × (m'.wq ≡ m.wq)
unfolding demotion_complete
demotion_complete-demoted {m} {v} e true inv =
    let m₁ = set_pending m e false in
    let c = cleared m e m₁.promotion_time (inc m₁.demotion_time) m₁.writeback_time in
    let tabled : v.tabled e ≡ true = (inv.placed e).tabled ∙ rw (held inv e (λ i. refl)) in
    let (m₂, step, a) = table_remove-Moved (Shape-Cleared e c inv.shape) e tabled in
    let (inv', l, wq) = dropped inv e (λ i. refl) (update v.tabled e false) c a (λ i. refl) in
    (release m₂ e, rw (there e (small inv e (λ i. refl)), step), inv', l, wq)
demotion_complete-demoted {m} {v} e false inv =
    let tabled : v.tabled e ≡ true = (inv.placed e).tabled ∙ rw (held inv e (λ i. refl)) in
    let (inv', l, wq) = relisted_tail inv e (λ i. refl) (set_pending-Cleared m e) tabled in
    (enlist_tail (set_pending m e false) e, rw (there e (small inv e (λ i. refl))), inv', l, wq)
