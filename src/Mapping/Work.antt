-- ===== src/Mapping/Work.antt =====
-- `do_migration_work` as a whole.
use user_level_ssd_cache_fra.Common.{
  ℕ, ◌/◌, ◌≡◌, ◌∙◌, refl, ap, List, [], ◌∷◌, arith, ltb, length, none, some, inl, inr, Bool-cases,
  List-cases,
}
use user_level_ssd_cache_fra.WorkQueue.{Work, peak_work, remove_work}
use user_level_ssd_cache_fra.WorkQueue.Inv.{contents}
use user_level_ssd_cache_fra.WorkQueue.Ops.{dequeue, oldest}
use user_level_ssd_cache_fra.WorkQueue.Refine.{peak_work-oldest, remove_work-dequeue}
use user_level_ssd_cache_fra.Mapping.{Mapping}
use user_level_ssd_cache_fra.Mapping.Worker.{Devices, migrate, do_migration_work}
use user_level_ssd_cache_fra.Mapping.Shape.{View}
use user_level_ssd_cache_fra.Mapping.Inv.{idle, finishing, IsMapping}
use user_level_ssd_cache_fra.Mapping.Rounds.{
  Migrated, remove_work-idle, migrate-promotes, migrate-demotes, migrate-writes_back, migrate-rests,
}

-- One round: nothing without a request, else a migration for the oldest one.
pub data Round (num : ℕ) (v : View) : List Work → View → Type 0 where
  sleeps : Round num v [] v
  works : (job : Work) (ws : List Work) (v' : View) → Migrated num v v' → Round num v (job ∷ ws) v'

module _ (d : Devices) {m : Mapping} {v : View} (w : d.World) (inv : IsMapping m v idle) where
  -- The chain of the three migrations ends, and does what the lists ask for.
  migrate-Migrated :
      (job : Work) (ws : List Work)
      → contents m.wq ≡ job ∷ ws
      → (m' : Mapping) × (w' : d.World) × (v' : View) × (migrate d m job w ≡ some (m', w'))
        × Migrated m.cache_block_num v v'
        × IsMapping m' v' finishing
        × (m'.wq ≡ m.wq)
  migrate-Migrated job ws at = elim (List-cases v.free) [
    | inr (e, rest, free) ↦ migrate-promotes d w job ws inv at e rest free
    | inl empty ↦ elim (Bool-cases (ltb (m.cache_block_num / 2) (length v.clean))) [
      | inl many ↦ elim (List-cases v.clean) [
        | inr (e, rest, clean) ↦ migrate-demotes d w job ws inv at e rest empty (ground arith) clean
        | inl no_clean ↦ absurd (ground (arith, ap length no_clean))
      ]
      | inr few ↦ elim (List-cases v.dirty) [
        | inr (e, rest, dirty) ↦
            migrate-writes_back d w job ws inv at e rest empty (ground arith) dirty
        | inl no_dirty ↦ migrate-rests d w job ws inv at empty (ground arith) no_dirty
      ]
    ]
  ]

  round :
      (ws : List Work)
      → contents m.wq ≡ ws
      → (m' : Mapping) × (w' : d.World) × (v' : View) × (do_migration_work d m w
          ≡ some ((dequeue ws).0, m', w'))
        × Round m.cache_block_num v ws v'
        × IsMapping m' v' idle
        × (contents m'.wq ≡ (dequeue ws).1)
  unfolding do_migration_work dequeue oldest
  round [] at =
      let none_left : peak_work m.wq ≡ none = peak_work-oldest m.wq ∙ ap oldest at in
      (m, w, v, rw (do_migration_work, none_left), sleeps, inv, at)
  round (job ∷ ws) at =
      let next : peak_work m.wq ≡ some job = peak_work-oldest m.wq ∙ ap oldest at in
      let (m₁, w₁, v₁, step, done, inv₁, wq) = migrate-Migrated job ws at in
      (
        record m₁ { wq = (remove_work m₁.wq).1 },
        w₁,
        v₁,
        rw (do_migration_work, next, step),
        works job ws v₁ done,
        remove_work-idle inv₁,
        ap (λ k. k.1) (remove_work-dequeue m₁.wq) ∙ ap (λ k. (dequeue k).1) (ap contents wq ∙ at),
      )

  -- On a mapping that keeps the invariant, with the worker between two requests, a round of
  -- `do_migration_work` that no client interrupts ends without a fault, whatever the files and the
  -- device answer. It returns true exactly if there was a request, and then drops the oldest one. It
  -- promotes into the first free entry; without a free entry it demotes the first clean entry if more
  -- than half of the cache blocks are clean, else it writes back the first dirty entry, else it
  -- does nothing. The invariant is kept, with the worker between two requests.
  pub do_migration_work-Round :
      (m' : Mapping) × (w' : d.World) × (v' : View) × (do_migration_work d m w
        ≡ some ((dequeue (contents m.wq)).0, m', w'))
      × Round m.cache_block_num v (contents m.wq) v'
      × IsMapping m' v' idle
      × (contents m'.wq ≡ (dequeue (contents m.wq)).1)
  do_migration_work-Round = round (contents m.wq) refl
