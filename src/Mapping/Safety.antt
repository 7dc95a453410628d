-- ===== src/Mapping/Safety.antt =====
-- Every step of the clients and of the worker keeps the invariant.
use mathlib.Core.Bool.{false≢true}
use user_level_ssd_cache_fra.Common.{
  ℕ, ◌/◌, ◌≡◌, ◌∙◌, refl, sym, ap, subst, Bool, true, false, Option, none, some, List, [], ◌∷◌,
  Text, inl, inr, arith, ltb, length, Bool-cases, List-cases,
}
use user_level_ssd_cache_fra.WorkQueue.{Work, peak_work}
use user_level_ssd_cache_fra.WorkQueue.Inv.{contents}
use user_level_ssd_cache_fra.WorkQueue.Ops.{oldest}
use user_level_ssd_cache_fra.WorkQueue.Refine.{peak_work-oldest}
use user_level_ssd_cache_fra.Mapping.{Mapping}
use user_level_ssd_cache_fra.Mapping.Migrate.{
  promotion_free_to_clean, demotion_clean_to_free, writeback_dirty_to_clean,
}
use user_level_ssd_cache_fra.Mapping.Shape.{View}
use user_level_ssd_cache_fra.Mapping.Inv.{
  Flight, idle, promoting, demoting, writing_back, finishing, IsMapping,
}
use user_level_ssd_cache_fra.Mapping.Lookup.{lookup_mapping-Found}
use user_level_ssd_cache_fra.Mapping.Overwrite.{
  Outcome, hit, asked, full, added, lookup_mapping_with_insert-Outcome,
}
use user_level_ssd_cache_fra.Mapping.Discard.{remove_mapping-removed}
use user_level_ssd_cache_fra.Mapping.Written.{set_dirty_after_write-Dirtied}
use user_level_ssd_cache_fra.Mapping.Promotion.{
  promotion_free_to_clean-promoting, promotion_free_to_clean-none,
}
use user_level_ssd_cache_fra.Mapping.Departure.{
  demotion_clean_to_free-demoting, demotion_clean_to_free-none,
  writeback_dirty_to_clean-writing_back, writeback_dirty_to_clean-none,
}
use user_level_ssd_cache_fra.Mapping.Ends.{
  demotion_complete-demoted, writeback_complete-written_back,
}
use user_level_ssd_cache_fra.Mapping.Promoted.{promotion_complete-promoted}
use user_level_ssd_cache_fra.Mapping.Rounds.{remove_work-idle, rested}
use user_level_ssd_cache_fra.Mapping.Steps.{
  Step, lookup, lookup_with_insert, removal, write, start_promotion, start_demotion,
  start_writeback, end_promotion, end_demotion, end_writeback, no_transfer, done, Reach, start,
  next,
}

-- A call has one result.
agree {ℓ} : {A : Type ℓ} (o : Option A) (x y : A) → o ≡ some x → o ≡ some y → x ≡ y
agree o x y p q = ap (λ k. elim k [ none ↦ x | some z ↦ z ]) (sym p ∙ q)

-- The invariant holds of some view.
abbrev pub Holds : Mapping → Flight → Type 0
Holds m f = (v : View) × IsMapping m v f

at_result {ℓ} :
    {A : Type ℓ} (o : Option (A × Mapping)) (f : Flight) (r r' : A) (m m' : Mapping)
    → o ≡ some (r, m)
    → o ≡ some (r', m')
    → Holds m f
    → Holds m' f
at_result o f r r' m m' p q h =
    subst (λ k. Holds k f) (ap (λ k. k.1) (agree o (r, m) (r', m') p q)) h

of_outcome :
    {m m' : Mapping} {v : View} {f : Flight} {name : Text} {index : ℕ} {r : Option ℕ}
    → Outcome m v f name index r m'
    → Holds m' f
of_outcome (hit e m' found inv same q) = (_, inv)
of_outcome (asked m' found old inv same q) = (_, inv)
of_outcome (full m' found new empty inv same q) = (_, inv)
of_outcome (added e rest m' found new at inv ins q) = (_, inv)

-- A start that takes nothing is no start of a transfer.
taken : Option (Option ℕ × Mapping) → Option ℕ
taken none = none
taken (some (r, m)) = r

is_taken : Option ℕ → Bool
is_taken none = false
is_taken (some e) = true

not_taken :
    (o : Option (Option ℕ × Mapping)) (m m' : Mapping) (e : ℕ)
    → o ≡ some (none, m)
    → o ≡ some (some e, m')
    → ⊥
unfolding taken is_taken
not_taken o m m' e p q = false≢true (ap (λ k. is_taken (taken k)) (sym p ∙ q))

taken_index :
    (o : Option (Option ℕ × Mapping)) (m m' : Mapping) (e e' : ℕ)
    → o ≡ some (some e, m)
    → o ≡ some (some e', m')
    → e ≡ e'
unfolding taken
taken_index o m m' e e' p q = agree (taken o) e e' (ap taken p) (ap taken q)

at_taken :
    (o : Option (Option ℕ × Mapping)) (flight : ℕ → Flight) (m m' : Mapping) (e e' : ℕ)
    → o ≡ some (some e, m)
    → o ≡ some (some e', m')
    → Holds m (flight e)
    → Holds m' (flight e')
at_taken o flight m m' e e' p q h =
    subst (λ k. Holds m' (flight k)) (taken_index o m m' e e' p q)
      (at_result o (flight e) (some e) (some e') m m' p q h)

first_of :
    (ws : List Work) (job : Work) → oldest ws ≡ some job → (rest : List Work) × (ws ≡ job ∷ rest)
unfolding oldest
first_of [] job p = absurd (false≢true (ap (λ k. elim k [ none ↦ false | some w ↦ true ]) p))
first_of (w ∷ ws) job p = (ws, rw (agree (some w) w job refl p))

module _ {m m' : Mapping} {v : View} (inv : IsMapping m v idle) where
  started_promotion :
      (job : Work) (e : ℕ)
      → peak_work m.wq ≡ some job
      → promotion_free_to_clean m job.full_path_name job.cache_page_index ≡ some (some e, m')
      → Holds m' (promoting e)
  started_promotion job e peaked p =
      let o = promotion_free_to_clean m job.full_path_name job.cache_page_index in
      elim (List-cases v.free) [
        | inl empty ↦ absurd (not_taken o m m' e (promotion_free_to_clean-none inv job empty) p)
        | inr (e₁, rest, at) ↦
            let (ws, jobs) = first_of (contents m.wq) job (sym (peak_work-oldest m.wq) ∙ peaked) in
            let (m₁, step, inv₁, ins, wq) =
              promotion_free_to_clean-promoting inv job e₁ rest ws at jobs in
            at_taken o (λ k. promoting k) m₁ m' e₁ e step p (_, inv₁)
      ]

  started_demotion : (e : ℕ) → demotion_clean_to_free m ≡ some (some e, m') → Holds m' (demoting e)
  started_demotion e p =
      let o = demotion_clean_to_free m in
      elim (Bool-cases (ltb (m.cache_block_num / 2) (length v.clean))) [
        | inr few ↦
            absurd (not_taken o m m' e (demotion_clean_to_free-none inv.shape (ground arith)) p)
        | inl many ↦ elim (List-cases v.clean) [
          | inl empty ↦ absurd (ground (arith, ap length empty))
          | inr (e₁, rest, at) ↦
              let (m₁, step, inv₁, d, wq) =
                demotion_clean_to_free-demoting inv e₁ rest at (ground arith) in
              at_taken o (λ k. demoting k) m₁ m' e₁ e step p (_, inv₁)
        ]
      ]

  started_writeback :
      (e : ℕ) → writeback_dirty_to_clean m ≡ some (some e, m') → Holds m' (writing_back e)
  started_writeback e p =
      let o = writeback_dirty_to_clean m in
      elim (List-cases v.dirty) [
        | inl empty ↦ absurd (not_taken o m m' e (writeback_dirty_to_clean-none inv.shape empty) p)
        | inr (e₁, rest, at) ↦
            let (m₁, step, inv₁, d, wq) = writeback_dirty_to_clean-writing_back inv e₁ rest at in
            at_taken o (λ k. writing_back k) m₁ m' e₁ e step p (_, inv₁)
      ]

-- The end of a transfer, whatever it does, leaves a mapping that keeps the invariant.
at_end :
    (o : Option Mapping) (m m' : Mapping)
    → o ≡ some m
    → o ≡ some m'
    → Holds m finishing
    → Holds m' finishing
at_end o m m' p q h = subst (λ k. Holds k finishing) (agree o m m' p q) h

-- Every step that the clients and the worker can make from a mapping that keeps the invariant leads
-- to one that keeps it.
pub Step-IsMapping :
    {m m' : Mapping} {v : View} {f f' : Flight} → Step m f m' f' → IsMapping m v f → Holds m' f'
Step-IsMapping (lookup m m' f name page_index r p) inv =
    let (r₁, m₁, step, found, inv₁, same, q) = lookup_mapping-Found name page_index inv in
    at_result _ f r₁ r m₁ m' step p (_, inv₁)
Step-IsMapping (lookup_with_insert m m' f name page_index r p) inv =
    let (r₁, m₁, step, out) = lookup_mapping_with_insert-Outcome name page_index inv in
    at_result _ f r₁ r m₁ m' step p (of_outcome out)
Step-IsMapping (removal m m' f name page_index r rest p) inv =
    let (r₁, m₁, step, found, inv₁, gone, wq) =
      remove_mapping-removed name page_index inv (λ e at. rest e (rw (at.1.0, at.1.1))) in
    at_result _ f _ r m₁ m' step p (_, inv₁)
Step-IsMapping (write m f e dirty held) inv =
    (_, (set_dirty_after_write-Dirtied e dirty inv held).0)
Step-IsMapping (start_promotion m m' job e peaked p) inv = started_promotion inv job e peaked p
Step-IsMapping (start_demotion m m' e p) inv = started_demotion inv e p
Step-IsMapping (start_writeback m m' e p) inv = started_writeback inv e p
Step-IsMapping (end_promotion m m' e success p) inv =
    let (m₁, step, inv₁, ended, wq) = promotion_complete-promoted e success inv in
    at_end _ m₁ m' step p (_, inv₁)
Step-IsMapping (end_demotion m m' e success p) inv =
    let (m₁, step, inv₁, ended, wq) = demotion_complete-demoted e success inv in
    at_end _ m₁ m' step p (_, inv₁)
Step-IsMapping (end_writeback m m' e success p) inv =
    let (m₁, step, inv₁, ended, wq) = writeback_complete-written_back e success inv in
    at_end _ m₁ m' step p (_, inv₁)
Step-IsMapping (no_transfer m) inv = (_, rested inv)
Step-IsMapping (done m) inv = (_, remove_work-idle inv)

module _ {m₀ : Mapping} {f₀ : Flight} {v : View} (inv : IsMapping m₀ v f₀) where
  -- Whatever the clients and the worker do from a mapping that keeps the invariant, in whatever order,
  -- if no client removes a page whose entry is in transfer, the invariant is kept.
  pub Reach-IsMapping : {m : Mapping} {f : Flight} → Reach m₀ f₀ m f → Holds m f
  Reach-IsMapping start = (v, inv)
  Reach-IsMapping (next m m' f f' r s) = let (v₁, inv₁) = Reach-IsMapping r in Step-IsMapping s inv₁
