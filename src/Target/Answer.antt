-- ===== src/Target/Answer.antt =====
-- What a read or a write of a page leads to, whether the page is in the cache or not.
use user_level_ssd_cache_fra.Common.{
  false, Bool, arith, ℕ, ◌∷◌, ◌==◌, if◌then◌else◌, zero, suc, ◌*◌, ◌%◌, ◌^◌, ◌≡◌, Option-cases, ◌∙◌,
  refl, ap, true, Option, none, some, Text, if_self, Bool-cases, inl, inr,
}
use user_level_ssd_cache_fra.Pio.{Node, Pio}
use user_level_ssd_cache_fra.Mapping.{Mapping}
use user_level_ssd_cache_fra.Mapping.Access.{to_cache_page_index}
use user_level_ssd_cache_fra.Mapping.Shape.{View}
use user_level_ssd_cache_fra.Mapping.Buckets.{Found}
use user_level_ssd_cache_fra.Mapping.Status.{key}
use user_level_ssd_cache_fra.Mapping.Inv.{Flight, IsMapping}
use user_level_ssd_cache_fra.Mapping.Facts.{SameEntries}
use user_level_ssd_cache_fra.Mapping.Client.{used}
use user_level_ssd_cache_fra.Mapping.Lookup.{lookup_mapping-Found, looked_up}
use user_level_ssd_cache_fra.Mapping.Insert.{inserted}
use user_level_ssd_cache_fra.Mapping.Overwrite.{
  Outcome, hit, asked, full, added, lookup_mapping_with_insert-Outcome,
}
use user_level_ssd_cache_fra.Mapping.Hits.{SameSize, used-tabled}
use user_level_ssd_cache_fra.Mapping.Sizes.{
  Sized, lookup_mapping-Sized, lookup_mapping_with_insert-Sized,
}
use user_level_ssd_cache_fra.Mapping.Safety.{Holds}
use user_level_ssd_cache_fra.Target.{
  Cache, Storage, optimizable, map_to_origin, find_block, map_pio, submit_pio, is_read, not_zero,
  read_origin, write_origin,
}
use user_level_ssd_cache_fra.Target.Range.{pages_of, HasPages, pio_to_iovec-pages}
use user_level_ssd_cache_fra.Target.Hit.{
  IsCached, IsRequest, SameBlocks, Served, Found-keys, command-SameBlocks, map_to_cache-Served,
}

-- The page is in the block of the answer, or no entry had it.
abbrev AfterFind : Cache → View → Flight → Text → ℕ → Option ℕ → Mapping → Type 0
AfterFind cache v f name index none m' =
    Holds m' f × Found cache.cache_map.es v.tabled name index none
AfterFind cache v f name index (some e) m' =
    IsCached (record cache { cache_map = m' }) f name index e

module _ (cache : Cache) (v : View) (f : Flight) (name : Text) (index : ℕ) where
  used_again :
      (e : ℕ) (m' : Mapping)
      → Found cache.cache_map.es v.tabled name index (some e)
      → IsMapping m' (used v e) f
      → SameEntries cache.cache_map m'
      → AfterFind cache v f name index (some e) m'
  used_again e m' found inv same = record {
    view = used v e;
    valid = inv;
    found =
        Found-keys cache.cache_map m' v.tabled _ name index e (used-tabled v e) (same e).1 found;
  }

  after_lookup :
      (r : Option ℕ) (m' : Mapping)
      → Found cache.cache_map.es v.tabled name index r
      → IsMapping m' (looked_up v r) f
      → SameEntries cache.cache_map m'
      → AfterFind cache v f name index r m'
  after_lookup none m' found inv same = ((v, inv), found)
  after_lookup (some e) m' found inv same = used_again e m' found inv same

  after_outcome :
      {r : Option ℕ} {m' : Mapping}
      → Outcome cache.cache_map v f name index r m'
      → AfterFind cache v f name index r m'
  after_outcome (hit e m' found inv same q) = used_again e m' found inv same
  after_outcome (asked m' found old inv same q) = ((v, inv), found)
  after_outcome (full m' found new empty inv same q) = ((v, inv), found)
  after_outcome (added e rest m' found new at inv ins q) =
      let k : key m'.es e ≡ (name, index) =
        ins.key_of e ∙ if_self e (name, index) (key cache.cache_map.es e) in
      record {
        view = inserted v e rest;
        valid = inv;
        found = (if_self e true (v.tabled e), (ap (λ k. k.0) k, ap (λ k. k.1) k));
      }

same_size :
    (m m' : Mapping) (r : Option ℕ) (o : Option (Option ℕ × Mapping))
    → o ≡ some (r, m')
    → Sized m o
    → SameSize m m'
same_size m m' r o step sized = rw step at sized

module _ (s : Storage) (cache : Cache) (pio : Node) {v : View} {f : Flight}
    (inv : IsMapping cache.cache_map v f) where
  find_block-AfterFind :
      (r : Option ℕ) × (m' : Mapping) × (find_block s cache pio ≡ some (r, m'))
      × AfterFind cache v f pio.full_path_name (to_cache_page_index pio.page_index) r m'
      × SameSize cache.cache_map m'
  unfolding find_block
  find_block-AfterFind =
      let index = to_cache_page_index pio.page_index in
      let name = pio.full_path_name in
      let m = cache.cache_map in
      elim (Bool-cases (optimizable pio)) [
        | inl whole ↦
            let (r, m', step, out) = lookup_mapping_with_insert-Outcome name pio.page_index inv in
            (
              r,
              m',
              rw (whole, step),
              after_outcome cache v f name index out,
              same_size m m' r _ step (lookup_mapping_with_insert-Sized m name pio.page_index),
            )
        | inr part ↦
            let (r, m', step, found, inv', same, q) =
              lookup_mapping-Found name pio.page_index inv in
            (
              r,
              m',
              rw (part, step),
              after_lookup cache v f name index r m' found inv' same,
              same_size m m' r _ step (lookup_mapping-Sized m name pio.page_index),
            )
      ]

-- The status after a transfer of a file: 0 if not a byte has been moved, and 1 after a failure as well
-- as after a transfer of some bytes.
abbrev pub moved_status : Option ℕ → ℕ
moved_status none = 1
moved_status (some zero) = 0
moved_status (some (suc n)) = 1

-- One transfer of the file: its pages from the byte offset of the first page on, as 32 bits hold it,
-- are read into the buffers of the request, if it `reads`, or written from them. Without a descriptor the file is
-- opened, for reading or for writing, and closed again.
unfoldable pub file_transfer : (s : Storage) → (reads : Bool) → Node → Pio → s.World → ℕ × s.World
file_transfer s reads pio next w =
    let iovs = pages_of (pio ∷ next) pio.pio_cnt in
    let offset = pio.page_index * 4096 % 2 ^ 32 in
    let moves : ℕ → s.World → Option ℕ × s.World =
      λ fd w. if reads then s.preadv fd iovs offset w else s.pwritev fd iovs offset w in
    let opened : Option ℕ × s.World =
      if reads then s.open_read pio.full_path_name w else s.open_write pio.full_path_name w in
    if pio.fd == 0
    then elim opened.0 [
      | none ↦ (1, opened.1)
      | some fd ↦ (moved_status (moves fd opened.1).0, s.close fd (moves fd opened.1).1)
    ]
    else (moved_status (moves pio.fd w).0, (moves pio.fd w).1)

not_zero-moved_status : (r : Option ℕ) → not_zero r ≡ moved_status r
not_zero-moved_status none = refl
not_zero-moved_status (some zero) = refl
not_zero-moved_status (some (suc n)) = ground arith

module _ (s : Storage) (cache : Cache) (pio : Node) (next : Pio) (w : s.World)
    (paged : HasPages s (pio ∷ next) pio.pio_cnt) where
  status_of :
      (r : Option ℕ) (w' : s.World)
      → ◌≡◌ {A = Option (ℕ × s.World)} (some (not_zero r, w')) (some (moved_status r, w'))
  status_of r w' = ap (λ (rc : ℕ). some (rc, w')) (not_zero-moved_status r)

  read_origin-file_transfer : read_origin s pio next w ≡ some (file_transfer s true pio next w)
  unfolding read_origin file_transfer
  read_origin-file_transfer =
      let pages = pio_to_iovec-pages s w (pio ∷ next) pio.pio_cnt paged in
      elim (Bool-cases (pio.fd == 0)) [
        | inr given ↦ rw (pages, given) (status_of _ _)
        | inl fresh ↦ elim (Option-cases (s.open_read pio.full_path_name w).0) [
          | inl failed ↦ rw (pages, fresh, failed) refl
          | inr (fd, opened) ↦ rw (pages, fresh, opened) (status_of _ _)
        ]
      ]

  write_origin-file_transfer : write_origin s pio next w ≡ some (file_transfer s false pio next w)
  unfolding write_origin file_transfer
  write_origin-file_transfer =
      let pages = pio_to_iovec-pages s w (pio ∷ next) pio.pio_cnt paged in
      elim (Bool-cases (pio.fd == 0)) [
        | inr given ↦ rw (pages, given) (status_of _ _)
        | inl fresh ↦ elim (Option-cases (s.open_write pio.full_path_name w).0) [
          | inl failed ↦ rw (pages, fresh, failed) refl
          | inr (fd, opened) ↦ rw (pages, fresh, opened) (status_of _ _)
        ]
      ]

  map_to_origin-file_transfer :
      let (rc, w') = file_transfer s (is_read pio.operation) pio next w in
      map_to_origin s cache pio next w ≡ some (rc, cache, w')
  unfolding map_to_origin
  map_to_origin-file_transfer = elim (Bool-cases (is_read pio.operation)) [
    | inl reads ↦ rw (reads, read_origin-file_transfer) refl
    | inr writes ↦ rw (writes, write_origin-file_transfer) refl
  ]

-- What becomes of a request for the page, which answers `out`: the command of the block, or the
-- transfer of the file.
abbrev pub Answer :
    (s : Storage)
    → Cache
    → View
    → Flight
    → Text
    → ℕ
    → Node
    → Pio
    → s.World
    → Option (ℕ × Cache × s.World)
    → Option ℕ
    → Type 0
Answer s cache v f name index pio next w out (some e) = Served s f name index e cache pio next w out
Answer s cache v f name index pio next w out none =
    (cache' : Cache) × (out
      ≡ some (
        (file_transfer s (is_read pio.operation) pio next w).0,
        cache',
        (file_transfer s (is_read pio.operation) pio next w).1,
      ))
    × Holds cache'.cache_map f
    × Found cache.cache_map.es v.tabled name index none
    × SameBlocks cache cache'

module _ (s : Storage) (cache : Cache) (pio : Node) (next : Pio) (w : s.World) {v : View}
    {f : Flight} (inv : IsMapping cache.cache_map v f)
    (q : IsRequest s pio.full_path_name (to_cache_page_index pio.page_index) pio next) where
  -- `map_pio` after the lookup
  answered :
      (r : Option ℕ) (m' : Mapping)
      → find_block s cache pio ≡ some (r, m')
      → AfterFind cache v f pio.full_path_name (to_cache_page_index pio.page_index) r m'
      → SameSize cache.cache_map m'
      → Answer s cache v f pio.full_path_name
          (to_cache_page_index pio.page_index)
          pio
          next
          w
          (submit_pio s cache pio next w)
          r
  unfolding submit_pio map_pio
  answered none m' step (holds, absent) size = (
    record cache { cache_map = m' },
    rw (q.maps, q.checked, step)
        (map_to_origin-file_transfer s (record cache { cache_map = m' }) pio next w q.paged),
    holds,
    absent,
    (size, refl),
  )
  answered (some e) m' step c size =
      let cache₁ = record cache { cache_map = m' } in
      let (cache', out, c', same) =
        map_to_cache-Served s f pio.full_path_name (to_cache_page_index pio.page_index) e cache₁ pio
          next w c q in
      (
        cache',
        rw (q.maps, q.checked, step)
            (out
              ∙ ap (λ (k : ℕ × s.World). some (k.0, cache', k.1))
                  (command-SameBlocks s cache cache₁ (size, refl) e pio next w)),
        c',
        (same.0 ∙ size, same.1),
      )

  -- On a mapping that keeps the invariant, at whatever point the worker stands, a read or a write that
  -- lies within a cache page and has all of its pages, on whose buffers `strlen` ends, is answered from
  -- one cache block, by one command of the device and no access of the file, and then the page is in
  -- the cache in that block, whether it has been there before or not; or no entry has the page, and the
  -- pages are read from the file or written to it, at the byte offset of the first of them modulo
  -- `2 ^ 32`, with the descriptor of the request or, if that is 0, one that is opened for it and closed
  -- again; the status is then 0 only if no byte has been moved. The invariant is kept.
  pub submit_pio-Answer :
      (r : Option ℕ) × Answer s cache v f pio.full_path_name
        (to_cache_page_index pio.page_index)
        pio
        next
        w
        (submit_pio s cache pio next w)
        r
  submit_pio-Answer =
      let (r, m', step, after, size) = find_block-AfterFind s cache pio inv in
      (r, answered r m' step after size)
