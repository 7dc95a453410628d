-- ===== src/Mapping/Rounds.antt =====
-- `do_migration_work`, when no client comes between its steps: one round of the worker.
use user_level_ssd_cache_fra.Common.{
  ℕ, ◌/◌, ◌≤◌, ◌<◌, ◌≡◌, ◌∙◌, refl, ap, subst, Bool, true, false, List, [], ◌∷◌, without, length,
  if_self, some,
}
use user_level_ssd_cache_fra.Config.{promotion, demotion, writeback}
use user_level_ssd_cache_fra.WorkQueue.{Work, remove_work}
use user_level_ssd_cache_fra.WorkQueue.Inv.{contents}
use user_level_ssd_cache_fra.Mapping.{Mapping}
use user_level_ssd_cache_fra.Mapping.Worker.{
  Devices, mg_start, promote, demote, write_back, migrate,
}
use user_level_ssd_cache_fra.Mapping.Shape.{View}
use user_level_ssd_cache_fra.Mapping.Pool.{Shape-same}
use user_level_ssd_cache_fra.Mapping.Status.{status}
use user_level_ssd_cache_fra.Mapping.Inv.{idle, finishing, IsMapping}
use user_level_ssd_cache_fra.Mapping.Queueing.{remove_work-Queued}
use user_level_ssd_cache_fra.Mapping.Promotion.{
  promotion_free_to_clean-promoting, promotion_free_to_clean-none,
}
use user_level_ssd_cache_fra.Mapping.Departure.{
  demotion_clean_to_free-demoting, demotion_clean_to_free-none,
  writeback_dirty_to_clean-writing_back, writeback_dirty_to_clean-none,
}
use user_level_ssd_cache_fra.Mapping.Completion.{Queued-done, small}
use user_level_ssd_cache_fra.Mapping.Ends.{
  there, promoted, demoted, written_back, demotion_complete-demoted,
  writeback_complete-written_back,
}
use user_level_ssd_cache_fra.Mapping.Promoted.{promotion_complete-promoted}

-- What one round does to the lists and the table: a promotion into the first free entry; without a
-- free entry, a demotion of the first clean one, if more than half of the blocks are clean; else a
-- writeback of the first dirty one; else nothing.
pub data Migrated (num : ℕ) (v : View) : View → Type 0 where
  promotes :
      (e : ℕ) (rest : List ℕ) (success : Bool)
      → v.free ≡ e ∷ rest
      → Migrated num v (promoted (record v { free = rest }) false e success)
  demotes :
      (e : ℕ) (rest : List ℕ)
      → v.free ≡ []
      → num / 2 < length v.clean
      → v.clean ≡ e ∷ rest
      → Migrated num v (demoted (record v { clean = without e v.clean }) false e true)
  writes_back :
      (e : ℕ) (rest : List ℕ) (success : Bool)
      → v.free ≡ []
      → length v.clean ≤ num / 2
      → v.dirty ≡ e ∷ rest
      → Migrated num v (written_back (record v { dirty = without e v.dirty }) false e success)
  rests : v.free ≡ [] → length v.clean ≤ num / 2 → v.dirty ≡ [] → Migrated num v v

-- The last step of a round: the request is removed.
pub remove_work-idle :
    {m : Mapping} {v : View}
    → IsMapping m v finishing
    → IsMapping (record m { wq = (remove_work m.wq).1 }) v idle
remove_work-idle {m} {v} inv = record {
  shape = Shape-same (record m { wq = (remove_work m.wq).1 }) inv.shape refl refl refl refl refl;
  placed = λ i. record {
    pending = (inv.placed i).pending;
    free = (inv.placed i).free;
    clean = (inv.placed i).clean;
    dirty = (inv.placed i).dirty;
    tabled = (inv.placed i).tabled;
    inside = (inv.placed i).inside;
    held = (inv.placed i).held;
  };
  num = inv.num;
  begin = inv.begin;
  allocated = inv.allocated;
  queued = remove_work-Queued m v inv.queued;
}

-- The end of a round that has nothing to migrate.
pub rested : {m : Mapping} {v : View} → IsMapping m v idle → IsMapping m v finishing
rested {m} {v} inv = record {
  shape = inv.shape;
  placed = λ i. record {
    pending = (inv.placed i).pending;
    free = (inv.placed i).free;
    clean = (inv.placed i).clean;
    dirty = (inv.placed i).dirty;
    tabled = (inv.placed i).tabled;
    inside = (inv.placed i).inside;
    held = (inv.placed i).held;
  };
  num = inv.num;
  begin = inv.begin;
  allocated = inv.allocated;
  queued = Queued-done m m v v idle refl (λ i p. (p, refl)) inv.queued;
}

module _ (d : Devices) {m : Mapping} {v : View} (w : d.World) (job : Work) (ws : List Work)
    (inv : IsMapping m v idle) (oldest_at : contents m.wq ≡ job ∷ ws) where
  pub migrate-promotes :
      (e : ℕ) (rest : List ℕ)
      → v.free ≡ e ∷ rest
      → (m' : Mapping) × (w' : d.World) × (v' : View) × (migrate d m job w ≡ some (m', w'))
        × Migrated m.cache_block_num v v'
        × IsMapping m' v' finishing
        × (m'.wq ≡ m.wq)
  unfolding migrate promote
  migrate-promotes e rest at =
      let (m₁, step₁, inv₁, ins, wq₁) =
        promotion_free_to_clean-promoting inv job e rest ws at oldest_at in
      let r = mg_start d m₁ job.full_path_name job.cache_page_index e promotion w in
      let (m₂, step₂, inv₂, ended, wq₂) = promotion_complete-promoted e r.0 inv₁ in
      let clean : (status m₁.es e).1 ≡ false =
        ap (λ k. k.1) (ins.status_of e ∙ if_self e _ (status m.es e)) in
      let v₁ = record v { free = rest } in
      (
        m₂,
        r.1,
        promoted v₁ false e r.0,
        rw (step₁, step₂),
        promotes e rest r.0 at,
        subst (λ b. IsMapping m₂ (promoted v₁ b e r.0) finishing) clean inv₂,
        wq₂ ∙ wq₁,
      )

  pub migrate-demotes :
      (e : ℕ) (rest : List ℕ)
      → v.free ≡ []
      → m.cache_block_num / 2 < length v.clean
      → v.clean ≡ e ∷ rest
      → (m' : Mapping) × (w' : d.World) × (v' : View) × (migrate d m job w ≡ some (m', w'))
        × Migrated m.cache_block_num v v'
        × IsMapping m' v' finishing
        × (m'.wq ≡ m.wq)
  unfolding migrate demote mg_start
  migrate-demotes e rest empty many at =
      let (m₁, step₁, inv₁, gone, wq₁) = demotion_clean_to_free-demoting inv e rest at many in
      let (m₂, step₂, inv₂, ended, wq₂) = demotion_complete-demoted e true inv₁ in
      let clean : (status m₁.es e).1 ≡ false =
        ap (λ k. k.1) ((gone e).0 ∙ if_self e _ (status m.es e)) in
      let v₁ = record v { clean = without e v.clean } in
      let r = mg_start d m₁ [] 0 e demotion w in
      (
        m₂,
        r.1,
        demoted v₁ false e true,
        rw (promotion_free_to_clean-none inv job empty, step₁, step₂),
        demotes e rest empty many at,
        subst (λ b. IsMapping m₂ (demoted v₁ b e true) finishing) clean inv₂,
        wq₂ ∙ wq₁,
      )

  pub migrate-writes_back :
      (e : ℕ) (rest : List ℕ)
      → v.free ≡ []
      → length v.clean ≤ m.cache_block_num / 2
      → v.dirty ≡ e ∷ rest
      → (m' : Mapping) × (w' : d.World) × (v' : View) × (migrate d m job w ≡ some (m', w'))
        × Migrated m.cache_block_num v v'
        × IsMapping m' v' finishing
        × (m'.wq ≡ m.wq)
  unfolding migrate write_back
  migrate-writes_back e rest empty few at =
      let (m₁, step₁, inv₁, gone, wq₁) = writeback_dirty_to_clean-writing_back inv e rest at in
      let small = small inv₁ e (λ i. refl) in
      let k = m₁.es.entrys e in
      let r = mg_start d m₁ k.full_path_name k.cache_page_index e writeback w in
      let (m₂, step₂, inv₂, ended, wq₂) = writeback_complete-written_back e r.0 inv₁ in
      let clean : (status m₁.es e).1 ≡ false =
        ap (λ k. k.1) ((gone e).0 ∙ if_self e _ (status m.es e)) in
      let v₁ = record v { dirty = without e v.dirty } in
      (
        m₂,
        r.1,
        written_back v₁ false e r.0,
        rw (
          promotion_free_to_clean-none inv job empty,
          demotion_clean_to_free-none inv.shape few,
          step₁,
          there e small,
          step₂,
        ),
        writes_back e rest r.0 empty few at,
        subst (λ b. IsMapping m₂ (written_back v₁ b e r.0) finishing) clean inv₂,
        wq₂ ∙ wq₁,
      )

  pub migrate-rests :
      v.free ≡ []
      → length v.clean ≤ m.cache_block_num / 2
      → v.dirty ≡ []
      → (m' : Mapping) × (w' : d.World) × (v' : View) × (migrate d m job w ≡ some (m', w'))
        × Migrated m.cache_block_num v v'
        × IsMapping m' v' finishing
        × (m'.wq ≡ m.wq)
  unfolding migrate
  migrate-rests empty few none_dirty = (
    m,
    w,
    v,
    rw (
      promotion_free_to_clean-none inv job empty,
      demotion_clean_to_free-none inv.shape few,
      writeback_dirty_to_clean-none inv.shape none_dirty,
    ),
    rests empty few none_dirty,
    rested inv,
    refl,
  )
