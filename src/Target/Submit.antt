-- ===== src/Target/Submit.antt =====
-- A request as a whole: `submit_pio` ends and keeps the invariant of the mapping.
use user_level_ssd_cache_fra.Common.{
  ℕ, ◌≡◌, ◌∙◌, refl, ap, true, false, Option, none, some, Text, ◌∷◌, if_self, ◌==◌, Bool-cases, inl,
  inr,
}
use user_level_ssd_cache_fra.Pio.{Node, Pio}
use user_level_ssd_cache_fra.Mapping.{Mapping}
use user_level_ssd_cache_fra.Mapping.Access.{to_cache_page_index, set_dirty_after_write}
use user_level_ssd_cache_fra.Mapping.Shape.{View}
use user_level_ssd_cache_fra.Mapping.Buckets.{Found}
use user_level_ssd_cache_fra.Mapping.Status.{status}
use user_level_ssd_cache_fra.Mapping.Inv.{Flight, IsMapping}
use user_level_ssd_cache_fra.Mapping.Facts.{SameEntries, alloc_of_tabled}
use user_level_ssd_cache_fra.Mapping.Lookup.{lookup_mapping-Found}
use user_level_ssd_cache_fra.Mapping.Overwrite.{
  Outcome, hit, asked, full, added, lookup_mapping_with_insert-Outcome,
}
use user_level_ssd_cache_fra.Mapping.Discard.{remove_mapping-removed}
use user_level_ssd_cache_fra.Mapping.Written.{set_dirty_after_write-Dirtied}
use user_level_ssd_cache_fra.Mapping.Steps.{AtRest}
use user_level_ssd_cache_fra.Mapping.Safety.{Holds}
use user_level_ssd_cache_fra.Mapping.Worker.{shift_left}
use user_level_ssd_cache_fra.Target.{
  target_block, Cache, Storage, pio_to_iovec, check_pio, optimizable, is_read, is_discard,
  write_cache, read_cache, write_origin, read_origin, map_to_cache, map_to_origin, discard_pio,
  find_block, map_pio, submit_pio,
}
use user_level_ssd_cache_fra.Target.Range.{pages_of, HasPages, pio_to_iovec-pages}

-- A block that a lookup has answered with is allocated.
abbrev pub IsHeld : Mapping → Option ℕ → Type 0
IsHeld m none = Unit
IsHeld m (some e) = (status m.es e).2 ≡ true

Found-IsHeld :
    {m : Mapping} (m' : Mapping) {v : View} {f : Flight} (name : Text) (index : ℕ) (r : Option ℕ)
    → IsMapping m v f
    → Found m.es v.tabled name index r
    → SameEntries m m'
    → IsHeld m' r
Found-IsHeld m' name index none inv found same = tt
Found-IsHeld m' name index (some e) inv found same =
    ap (λ k. k.2) (same e).0 ∙ alloc_of_tabled inv e found.0

Outcome-IsHeld :
    {m m' : Mapping} {v : View} {f : Flight} {name : Text} {index : ℕ} {r : Option ℕ}
    → IsMapping m v f
    → Outcome m v f name index r m'
    → Holds m' f × IsHeld m' r
Outcome-IsHeld inv (hit e m' found inv' same q) =
    ((_, inv'), Found-IsHeld m' _ _ (some e) inv found same)
Outcome-IsHeld inv (asked m' found old inv' same q) = ((_, inv'), tt)
Outcome-IsHeld inv (full m' found new empty inv' same q) = ((_, inv'), tt)
Outcome-IsHeld {m} inv (added e rest m' found new at inv' ins q) =
    ((_, inv'), ap (λ k. k.2) (ins.status_of e ∙ if_self e _ (status m.es e)))

module _ (s : Storage) where
  map_to_origin_ends :
      (cache : Cache) (pio : Node) (next : Pio) (w : s.World)
      → HasPages s (pio ∷ next) pio.pio_cnt
      → (rc : ℕ) × (w' : s.World) × (map_to_origin s cache pio next w ≡ some (rc, cache, w'))
  unfolding map_to_origin write_origin read_origin
  map_to_origin_ends cache pio next w paged =
      let pages : pio_to_iovec (λ b. s.strlen b w) (pio ∷ next) pio.pio_cnt
          ≡ some (pages_of (pio ∷ next) pio.pio_cnt) =
        pio_to_iovec-pages s w (pio ∷ next) pio.pio_cnt paged in
      elim (Bool-cases (is_read pio.operation)) [
        | inl reads ↦ rw (reads, pages) (_, _, refl)
        | inr writes ↦ rw (writes, pages) (_, _, refl)
      ]

module _ (s : Storage) {v : View} {f : Flight} where
  find_block-Holds :
      (cache : Cache) (pio : Node)
      → IsMapping cache.cache_map v f
      → (r : Option ℕ) × (m' : Mapping) × (find_block s cache pio ≡ some (r, m'))
        × Holds m' f
        × IsHeld m' r
  unfolding find_block
  find_block-Holds cache pio inv = elim (Bool-cases (optimizable pio)) [
    | inl whole ↦
        let (r, m', step, out) =
          lookup_mapping_with_insert-Outcome pio.full_path_name pio.page_index inv in
        let (holds, held) = Outcome-IsHeld inv out in (r, m', rw (whole, step), holds, held)
    | inr part ↦
        let (r, m', step, found, inv', same, q) =
          lookup_mapping-Found pio.full_path_name pio.page_index inv in
        (r, m', rw (part, step), (_, inv'), Found-IsHeld m' pio.full_path_name _ r inv found same)
  ]

  -- The transfer to or from an allocated block.
  map_to_cache-Holds :
      (cache : Cache) (pio : Node) (next : Pio) (e : ℕ) (w : s.World)
      → IsMapping cache.cache_map v f
      → (status cache.cache_map.es e).2 ≡ true
      → HasPages s (pio ∷ next) pio.pio_cnt
      → (rc : ℕ) × (cache' : Cache) × (w' : s.World) × (map_to_cache s cache pio next e w
          ≡ some (rc, cache', w'))
        × Holds cache'.cache_map f
  unfolding map_to_cache write_cache read_cache
  map_to_cache-Holds cache pio next e w inv held paged =
      let pages : pio_to_iovec (λ b. s.strlen b w) (pio ∷ next) pio.pio_cnt
          ≡ some (pages_of (pio ∷ next) pio.pio_cnt) =
        pio_to_iovec-pages s w (pio ∷ next) pio.pio_cnt paged in
      let sent =
        s.writev_spdk (pages_of (pio ∷ next) pio.pio_cnt) (target_block cache pio e)
          (shift_left pio.pio_cnt cache.cache_dev.block_per_page_shift) w in
      elim (Bool-cases (is_read pio.operation)) [
        | inl reads ↦ rw (reads, pages) (_, cache, _, refl, (v, inv))
        | inr writes ↦ elim (Bool-cases (sent.0 == 0)) [
          | inl done ↦
              rw (writes, pages, done)
                (
                  _,
                  record cache { cache_map = set_dirty_after_write cache.cache_map e true },
                  _,
                  refl,
                  (_, (set_dirty_after_write-Dirtied e true inv held).0),
                )
          | inr failed ↦ rw (writes, pages, failed) (_, cache, _, refl, (v, inv))
        ]
      ]

module _ (s : Storage) {v : View} {f : Flight} (cache : Cache) (pio : Node) (next : Pio)
    (w : s.World) (inv : IsMapping cache.cache_map v f)
    (paged : HasPages s (pio ∷ next) pio.pio_cnt) where
  -- the branches after the lookup
  served :
      (r : Option ℕ) (m' : Mapping) {v' : View}
      → IsMapping m' v' f
      → IsHeld m' r
      → let cache₁ = record cache { cache_map = m' } in
        (rc : ℕ) × (cache' : Cache) × (w' : s.World) × (elim r [
          | some cblock ↦ map_to_cache s cache₁ pio next cblock w
          | none ↦ map_to_origin s cache₁ pio next w
        ]
          ≡ some (rc, cache', w'))
        × Holds cache'.cache_map f
  served (some e) m' inv' held =
      map_to_cache-Holds s (record cache { cache_map = m' }) pio next e w inv' held paged
  served none m' {v'} inv' held =
      let (rc, w', step) =
        map_to_origin_ends s (record cache { cache_map = m' }) pio next w paged in
      (rc, record cache { cache_map = m' }, w', step, (v', inv'))

  map_pio-Holds :
      (rc : ℕ) × (cache' : Cache) × (w' : s.World) × (map_pio s cache pio next w
        ≡ some (rc, cache', w'))
      × Holds cache'.cache_map f
  unfolding map_pio
  map_pio-Holds = elim (Bool-cases (check_pio pio)) [
    | inr refused ↦ rw refused (1, cache, w, refl, (v, inv))
    | inl checked ↦
        let (r, m', step, (v', inv'), held) = find_block-Holds s cache pio inv in
        let (rc, cache', w', out, holds) = served r m' inv' held in
        (rc, cache', w', rw (checked, step) out, holds)
  ]

  -- A read or a write needs nothing but its pages.
  pub submit_pio-served :
      is_discard pio.operation ≡ false
      → (rc : ℕ) × (cache' : Cache) × (w' : s.World) × (submit_pio s cache pio next w
          ≡ some (rc, cache', w'))
        × Holds cache'.cache_map f
  unfolding submit_pio
  submit_pio-served maps = rw maps map_pio-Holds

-- What a request asks for is there: a discard finds no entry in transfer, and the chain of any other
-- request has as many nodes as it says, with buffers that `strlen` ends on.
abbrev pub IsReady : Storage → Cache → Flight → Node → Pio → Type 0
IsReady s cache f pio next =
    AtRest cache.cache_map f pio.full_path_name (to_cache_page_index pio.page_index)
    × (HasPages s (pio ∷ next) pio.pio_cnt)

module _ (s : Storage) {v : View} {f : Flight} (cache : Cache) (pio : Node) (next : Pio)
    (w : s.World) (inv : IsMapping cache.cache_map v f) (ready : IsReady s cache f pio next) where
  discard_pio-Holds :
      (rc : ℕ) × (cache' : Cache) × (w' : s.World) × (discard_pio s cache pio w
        ≡ some (rc, cache', w'))
      × Holds cache'.cache_map f
  unfolding discard_pio
  discard_pio-Holds = elim (Bool-cases (check_pio pio)) [
    | inl checked ↦
        let (r, m', step, found, inv', gone, wq) =
          remove_mapping-removed pio.full_path_name pio.page_index inv
            (λ e at. ready.0 e (rw (at.1.0, at.1.1))) in
        rw (checked, step) (_, record cache { cache_map = m' }, w, refl, (_, inv'))
    | inr refused ↦ rw refused (1, cache, w, refl, (v, inv))
  ]

  -- Whatever the device and the files answer, `_submit_pio` on a mapping that keeps the invariant ends
  -- without a fault and leaves a mapping that keeps it, if the chain has as many nodes as the request
  -- says, `strlen` ends on the buffer of each, and the entry of the page, if it has one, is not in
  -- transfer.
  pub submit_pio-Holds :
      (rc : ℕ) × (cache' : Cache) × (w' : s.World) × (submit_pio s cache pio next w
        ≡ some (rc, cache', w'))
      × Holds cache'.cache_map f
  unfolding submit_pio
  submit_pio-Holds = elim (Bool-cases (is_discard pio.operation)) [
    | inl discards ↦ rw discards discard_pio-Holds
    | inr maps ↦ submit_pio-served s cache pio next w inv ready.1 maps
  ]
