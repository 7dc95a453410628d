-- ===== src/Target/Hit.antt =====
-- Requests for pages that are in the cache: `_submit_pio` transfers them to or from one cache block.
use user_level_ssd_cache_fra.Common.{
  ℕ, ◌≡◌, ◌∙◌, refl, ap, sym, true, false, Bool, Option, some, Text, List, [], ◌∷◌, ◌==◌,
  Bool-cases, inl, inr, ◌>>=◌, if◌then◌else◌,
}
use user_level_ssd_cache_fra.Pio.{Node, Pio}
use user_level_ssd_cache_fra.Mapping.{Mapping}
use user_level_ssd_cache_fra.Mapping.Access.{to_cache_page_index, set_dirty_after_write}
use user_level_ssd_cache_fra.Mapping.Shape.{View}
use user_level_ssd_cache_fra.Mapping.Buckets.{Found}
use user_level_ssd_cache_fra.Mapping.Status.{key}
use user_level_ssd_cache_fra.Mapping.Inv.{Flight, IsMapping}
use user_level_ssd_cache_fra.Mapping.Facts.{alloc_of_tabled}
use user_level_ssd_cache_fra.Mapping.Written.{written_view, set_dirty_after_write-Dirtied}
use user_level_ssd_cache_fra.Mapping.Hits.{
  SameSize, Hit, lookup_mapping-Hit, set_dirty_after_write-SameSize, written_view-tabled,
}
use user_level_ssd_cache_fra.Mapping.Worker.{shift_left}
use user_level_ssd_cache_fra.Target.{
  target_block, Cache, Storage, pio_to_iovec, check_pio, optimizable, is_read, is_discard,
  write_cache, read_cache, map_to_cache, find_block, map_pio, submit_pio,
}
use user_level_ssd_cache_fra.Target.Range.{pages_of, HasPages, pio_to_iovec-pages}

-- One command of the device: the pages of the request, to or from their place in a cache block.
abbrev pub command : (s : Storage) → Cache → ℕ → Node → Pio → s.World → ℕ × s.World
command s cache e pio next w =
    let iovs = pages_of (pio ∷ next) pio.pio_cnt in
    let num_block = shift_left pio.pio_cnt cache.cache_dev.block_per_page_shift in
    if is_read pio.operation
    then s.readv_spdk iovs (target_block cache pio e) num_block w
    else s.writev_spdk iovs (target_block cache pio e) num_block w

-- Entry `e` of a valid mapping has the page.
pub record IsCached (cache : Cache) (f : Flight) (name : Text) (index e : ℕ) : Type 0 where
  pub view : View
  pub valid : IsMapping cache.cache_map view f
  pub found : Found cache.cache_map.es view.tabled name index (some e)

-- The cache blocks stand at the same blocks of the device.
abbrev pub SameBlocks : Cache → Cache → Type 0
SameBlocks cache cache' =
    SameSize cache.cache_map cache'.cache_map × (cache'.cache_dev ≡ cache.cache_dev)

pub command-SameBlocks :
    (s : Storage) (cache cache' : Cache)
    → SameBlocks cache cache'
    → (e : ℕ) (pio : Node) (next : Pio) (w : s.World)
    → command s cache' e pio next w ≡ command s cache e pio next w
unfolding target_block
command-SameBlocks s cache cache' same e pio next w = rw (same.0, same.1) refl

-- a read or a write of pages of one cache page, with all of its pages, on whose buffers `strlen` ends
pub record IsRequest (s : Storage) (name : Text) (index : ℕ) (pio : Node) (next : Pio)
    : Type 0 where
  pub of_name : pio.full_path_name ≡ name
  pub of_index : to_cache_page_index pio.page_index ≡ index
  pub maps : is_discard pio.operation ≡ false
  pub checked : check_pio pio ≡ true
  pub paged : HasPages s (pio ∷ next) pio.pio_cnt

-- The entry is found again among the same keys.
pub Found-keys :
    (m m' : Mapping) (tabled tabled' : ℕ → Bool) (name : Text) (index e : ℕ)
    → tabled' ≡ tabled
    → key m'.es e ≡ key m.es e
    → Found m.es tabled name index (some e)
    → Found m'.es tabled' name index (some e)
Found-keys m m' tabled tabled' name index e t k (p, h) =
    (ap (λ t. t e) t ∙ p, (ap (λ k. k.0) k ∙ h.0, ap (λ k. k.1) k ∙ h.1))

-- The requests of a list one after the other, and the same number of commands of the device. The
-- first component lists the status of each.
unfoldable pub submit_all :
    (s : Storage) → Cache → List (Node × Pio) → s.World → Option (List ℕ × Cache × s.World)
submit_all s cache [] w = some ([], cache, w)
submit_all s cache (r ∷ rs) w = do
  (rc, cache₁, w₁) ← submit_pio s cache r.0 r.1 w
  (rcs, cache₂, w₂) ← submit_all s cache₁ rs w₁
  some (rc ∷ rcs, cache₂, w₂)

unfoldable pub command_all :
    (s : Storage) → Cache → ℕ → List (Node × Pio) → s.World → List ℕ × s.World
command_all s cache e [] w = ([], w)
command_all s cache e (r ∷ rs) w =
    let (rc, w₁) = command s cache e r.0 r.1 w in
    let (rcs, w₂) = command_all s cache e rs w₁ in (rc ∷ rcs, w₂)

command_all-SameBlocks :
    (s : Storage) (cache cache' : Cache)
    → SameBlocks cache cache'
    → (e : ℕ) (rs : List (Node × Pio)) (w : s.World)
    → command_all s cache' e rs w ≡ command_all s cache e rs w
unfolding command_all
command_all-SameBlocks s cache cache' same e [] w = refl
command_all-SameBlocks s cache cache' same e (r ∷ rs) w =
    rw (command-SameBlocks s cache cache' same e r.0 r.1 w) (
      ap (λ (k : List ℕ × s.World). ((command s cache e r.0 r.1 w).0 ∷ k.0, k.1))
        (command_all-SameBlocks s cache cache' same e rs (command s cache e r.0 r.1 w).1))

abbrev pub AllRequests : Storage → Text → ℕ → List (Node × Pio) → Type 0
AllRequests s name index [] = Unit
AllRequests s name index (r ∷ rs) = IsRequest s name index r.0 r.1 × AllRequests s name index rs

module _ (s : Storage) (f : Flight) (name : Text) (index e : ℕ) where
  -- what a request for the cached page leads to
  abbrev pub Served : Cache → Node → Pio → s.World → Option (ℕ × Cache × s.World) → Type 0
  Served cache pio next w out =
      (cache' : Cache) × (out
        ≡ some ((command s cache e pio next w).0, cache', (command s cache e pio next w).1))
      × IsCached cache' f name index e
      × SameBlocks cache cache'

  module _ (cache : Cache) (pio : Node) (next : Pio) (w : s.World)
      (c : IsCached cache f name index e) (r : IsRequest s name index pio next) where
    pub map_to_cache-Served : Served cache pio next w (map_to_cache s cache pio next e w)
    unfolding map_to_cache write_cache read_cache
    map_to_cache-Served =
        let pages : pio_to_iovec (λ b. s.strlen b w) (pio ∷ next) pio.pio_cnt
            ≡ some (pages_of (pio ∷ next) pio.pio_cnt) =
          pio_to_iovec-pages s w (pio ∷ next) pio.pio_cnt r.paged in
        let sent =
          s.writev_spdk (pages_of (pio ∷ next) pio.pio_cnt) (target_block cache pio e)
            (shift_left pio.pio_cnt cache.cache_dev.block_per_page_shift) w in
        let m' = set_dirty_after_write cache.cache_map e true in
        let (valid, marked) =
          set_dirty_after_write-Dirtied e true c.valid (alloc_of_tabled c.valid e c.found.0) in
        let again : IsCached (record cache { cache_map = m' }) f name index e = record {
          view = written_view cache.cache_map.es c.view e;
          valid = valid;
          found =
              Found-keys cache.cache_map m' c.view.tabled _ name index e
                (written_view-tabled cache.cache_map.es c.view e) (marked e).1 c.found;
        } in
        elim (Bool-cases (is_read pio.operation)) [
          | inl reads ↦ rw (reads, pages) (cache, refl, c, (refl, refl))
          | inr writes ↦ elim (Bool-cases (sent.0 == 0)) [
            | inl done ↦
                rw (writes, pages, done)
                  (
                    record cache { cache_map = m' },
                    refl,
                    again,
                    (set_dirty_after_write-SameSize cache.cache_map e true, refl),
                  )
            | inr failed ↦ rw (writes, pages, failed) (cache, refl, c, (refl, refl))
          ]
        ]

    -- the mapping and the cache after the lookup of `map_pio`
    looked_up-Served :
        (h : Hit cache.cache_map c.view f pio.full_path_name pio.page_index e)
        → let cache₁ = record cache { cache_map = h.after } in
          IsCached cache₁ f name index e × SameBlocks cache cache₁
    looked_up-Served h = (
      record {
        view = _;
        valid = h.kept;
        found =
            Found-keys cache.cache_map h.after c.view.tabled _ name index e h.tabled (h.same e).1
              c.found;
      },
      (h.size, refl),
    )

    find_block-Hit :
        (h : Hit cache.cache_map c.view f pio.full_path_name pio.page_index e)
        → find_block s cache pio ≡ some (some e, h.after)
    unfolding find_block
    find_block-Hit h = elim (Bool-cases (optimizable pio)) [
      | inl whole ↦ rw whole h.inserting
      | inr part ↦ rw part h.plain
    ]

    lookup_mapping-cached : Hit cache.cache_map c.view f pio.full_path_name pio.page_index e
    lookup_mapping-cached =
        lookup_mapping-Hit pio.full_path_name pio.page_index e c.valid
          (c.found.0, (c.found.1.0 ∙ sym r.of_name, c.found.1.1 ∙ sym r.of_index))

  -- A request for the cached page is one command of the device, whether it succeeds or not, and no
  -- transfer of the file. The page stays cached in the same block.
  pub submit_pio-Served :
      (cache : Cache) (pio : Node) (next : Pio) (w : s.World)
      → IsCached cache f name index e
      → IsRequest s name index pio next
      → Served cache pio next w (submit_pio s cache pio next w)
  unfolding submit_pio map_pio
  submit_pio-Served cache pio next w c r =
      let h = lookup_mapping-cached cache pio next w c r in
      let (c₁, same₁) = looked_up-Served cache pio next w c r h in
      let cache₁ = record cache { cache_map = h.after } in
      let (cache', step, c', same') = map_to_cache-Served cache₁ pio next w c₁ r in
      (
        cache',
        rw (r.maps, r.checked, find_block-Hit cache pio next w c r h)
            (step
              ∙ ap (λ (k : ℕ × s.World). some (k.0, cache', k.1))
                  (command-SameBlocks s cache cache₁ same₁ e pio next w)),
        c',
        (same'.0 ∙ same₁.0, same'.1 ∙ same₁.1),
      )

  -- Any number of reads and writes of pages of one cache page that is in the cache, one after the
  -- other, each within the cache page and with all of its pages, on whose buffers `strlen` ends, lead to one command of the device
  -- each, in their order and to or from one and the same cache block, whatever the commands answer,
  -- and to no access of the file. The page stays in that block, and the invariant is kept.
  pub submit_all-command_all :
      (cache : Cache) (rs : List (Node × Pio)) (w : s.World)
      → IsCached cache f name index e
      → AllRequests s name index rs
      → (cache' : Cache) × (submit_all s cache rs w
          ≡ some ((command_all s cache e rs w).0, cache', (command_all s cache e rs w).1))
        × IsCached cache' f name index e
        × SameBlocks cache cache'
  unfolding submit_all command_all
  submit_all-command_all cache [] w c all = (cache, refl, c, (refl, refl))
  submit_all-command_all cache (r ∷ rs) w c all =
      let (cache₁, step₁, c₁, same₁) = submit_pio-Served cache r.0 r.1 w c all.0 in
      let w₁ = (command s cache e r.0 r.1 w).1 in
      let (cache₂, step₂, c₂, same₂) = submit_all-command_all cache₁ rs w₁ c₁ all.1 in
      (
        cache₂,
        rw (step₁, step₂, command_all-SameBlocks s cache cache₁ same₁ e rs w₁) refl,
        c₂,
        (same₂.0 ∙ same₁.0, same₂.1 ∙ same₁.1),
      )
