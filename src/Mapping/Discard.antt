-- ===== src/Mapping/Discard.antt =====
-- `remove_mapping`: a page leaves the table, and its entry becomes free.
use user_level_ssd_cache_fra.Common.{
  ℕ, ◌+◌, ◌<◌, ◌≤◌, ◌≡◌, ◌∙◌, refl, sym, ap, subst, Bool, true, false, List, [], ◌∷◌, ◌++◌, arith,
  ◌==◌, without, length, length-append, if◌then◌else◌, Option, none, some, Text, update, inl, inr,
  Bool-cases,
}
use user_level_ssd_cache_fra.Config.{cache_block_number}
use user_level_ssd_cache_fra.Entry.{EntrySpace}
use user_level_ssd_cache_fra.Ilist.{dec}
use user_level_ssd_cache_fra.Mapping.{Mapping, delist, release}
use user_level_ssd_cache_fra.Mapping.Access.{
  to_cache_page_index, discard_entry, discard_found, remove_mapping,
}
use user_level_ssd_cache_fra.Mapping.Shape.{View}
use user_level_ssd_cache_fra.Mapping.Moves.{Moved-trans, queue, set_queue, delist-Moved}
use user_level_ssd_cache_fra.Mapping.Buckets.{Found, unique_key}
use user_level_ssd_cache_fra.Mapping.Status.{status, key, status-Linked, key-Linked}
use user_level_ssd_cache_fra.Mapping.Pool.{release-Released}
use user_level_ssd_cache_fra.Mapping.Keys.{table_remove-Moved}
use user_level_ssd_cache_fra.Mapping.Inv.{Flight, in_flight, IsMapping}
use user_level_ssd_cache_fra.Mapping.Places.{Placed-discard}
use user_level_ssd_cache_fra.Mapping.Facts.{
  SameEntries, Queued-Shrunk, small_of_tabled, alloc_of_tabled, listed, Loose-without,
  queue-IsDistinct, some_allocated,
}
use user_level_ssd_cache_fra.Mapping.Lookup.{table_lookup-IsMapping, Found-SameEntries}

-- the view after an entry has left the list of its dirty flag and the table, and has become free
abbrev pub discarded : View → Bool → ℕ → View
discarded v dirty e = record (set_queue v dirty (without e (queue v dirty))) {
  free = v.free ++ (e ∷ []);
  tabled = update v.tabled e false;
}

-- One entry more is free, one fewer is allocated.
pub allocated_less :
    (nr num : ℕ) (free : List ℕ) (e : ℕ) {nr' num' : ℕ}
    → num ≤ cache_block_number
    → 0 < nr
    → nr + length free ≡ num
    → nr' ≡ dec nr
    → num' ≡ num
    → nr' + length (free ++ (e ∷ [])) ≡ num'
allocated_less nr num free e small some_used all nr_at num_at =
    omega (arith, length-append free (e ∷ []))

pub discard_entry-discarded :
    {m : Mapping} {v : View} {f : Flight} (e : ℕ)
    → IsMapping m v f
    → v.tabled e ≡ true
    → in_flight f e ≡ false
    → (m' : Mapping) × (discard_entry m e ≡ some m')
      × IsMapping m' (discarded v (status m.es e).1 e) f
      × ((i : ℕ)
          → (status m'.es i
              ≡ (if e == i then ((status m.es i).0, (status m.es i).1, false) else status m.es i))
            × (key m'.es i ≡ key m.es i))
      × (m'.wq ≡ m.wq)
unfolding discard_entry
discard_entry-discarded {m} {v} {f} e inv inside grounded =
    let d = (status m.es e).1 in
    let alloc = alloc_of_tabled inv e inside in
    let listed_at = listed inv e d refl alloc ((inv.placed e).pending ∙ grounded) in
    let a = delist-Moved inv.shape e d refl listed_at in
    let m₁ = delist m e in
    let (m₂, step, b) = table_remove-Moved a.shape e inside in
    let c = Moved-trans a b in
    let loose = Loose-without e d inv.shape listed_at in
    let (s₃, r) = release-Released e c.shape loose (omega (arith, small_of_tabled inv e inside)) in
    let m₃ = release m₂ e in
    let st : (i : ℕ)
        → status m₃.es i
          ≡ (if e == i then ((status m.es i).0, (status m.es i).1, false) else status m.es i) =
      λ i.
        r.status_of i
        ∙ ap (λ (k : Bool × Bool × Bool). if e == i then (k.0, k.1, false) else k)
            (status-Linked m.es m₂.es i c.linked) in
    let keys : (i : ℕ) → key m₃.es i ≡ key m.es i =
      λ i. r.key_of i ∙ key-Linked m.es m₂.es i c.linked in
    let wq : m₃.wq ≡ m.wq = r.wq ∙ c.kept.wq in
    let num : m₃.cache_block_num ≡ m.cache_block_num = r.num ∙ c.kept.num in
    (
      m₃,
      rw step,
      record {
        shape = s₃;
        placed = λ i. rw num (
            Placed-discard m.cache_block_num v e i f d (update v.tabled e false) (inv.placed i)
              (queue-IsDistinct d inv.shape) listed_at (refl) (st i));
        num = rw num inv.num;
        begin = r.begin ∙ c.kept.begin ∙ inv.begin;
        allocated =
            allocated_less m.ea.nr_allocated m.cache_block_num v.free e inv.num
              (some_allocated e inv alloc) inv.allocated (r.allocated ∙ ap dec c.kept.allocated)
              num;
        queued =
            Queued-Shrunk m m₃ v (discarded v d e) f wq (λ i p. (ground arith, keys i))
              (λ i _. keys i) inv.queued;
      },
      (λ i. (st i, keys i)),
      wq,
    )

-- What `remove_mapping` leaves behind a search with the answer `r`.
abbrev pub removed_view : EntrySpace → View → Option ℕ → View
removed_view es v none = v
removed_view es v (some e) = discarded v (status es e).1 e

abbrev pub is_some : Option ℕ → Bool
is_some none = false
is_some (some e) = true

-- The entry that a search has found is not in transfer.
abbrev pub NotInFlight : Flight → Option ℕ → Type 0
NotInFlight f none = Unit
NotInFlight f (some e) = in_flight f e ≡ false

ne_of_miss : (e i : ℕ) → (e == i) ≡ false → ¬ (e ≡ i)
ne_of_miss e i miss = ground arith

not_in_flight :
    (f : Flight) (r : Option ℕ) → ((e : ℕ) → r ≡ some e → in_flight f e ≡ false) → NotInFlight f r
not_in_flight f none h = tt
not_in_flight f (some e) h = h e refl

removed_view_same :
    (m m' : Mapping) (v : View) (r : Option ℕ)
    → SameEntries m m'
    → removed_view m'.es v r ≡ removed_view m.es v r
removed_view_same m m' v none same = refl
removed_view_same m m' v (some e) same =
    ap (λ (k : Bool × Bool × Bool). discarded v k.1 e) (same e).0

after_search :
    {m : Mapping} {v : View} {f : Flight} (name : Text) (index : ℕ) (r : Option ℕ)
    → IsMapping m v f
    → Found m.es v.tabled name index r
    → NotInFlight f r
    → (m' : Mapping) × (discard_found m r ≡ some (is_some r, m'))
      × IsMapping m' (removed_view m.es v r) f
      × Found m'.es (removed_view m.es v r).tabled name index none
      × (m'.wq ≡ m.wq)
unfolding discard_found
after_search {m} name index none inv found free = (m, refl, inv, found, refl)
after_search {m} {v} name index (some e) inv found free =
    let (m', step, inv', same, wq) = discard_entry-discarded e inv found.0 free in
    (
      m',
      rw step,
      inv',
      (λ i p h. elim (Bool-cases (e == i)) [
        | inl hit ↦ ground arith
        | inr miss ↦
            let at : v.tabled i ≡ true = ground arith in
            let n = ap (λ x. x.0) (same i).1 in
            let k = ap (λ x. x.1) (same i).1 in
            absurd (
              ne_of_miss e i miss (
                unique_key inv.shape.buckets e i found.0 at
                  (found.1.0 ∙ sym h.0 ∙ n, found.1.1 ∙ sym h.1 ∙ k)))
      ]),
      wq,
    )

-- On a mapping that keeps the invariant, for a page whose entry, if it has one, is not in transfer,
-- `remove_mapping` ends without a fault, and returns true exactly if the table had an entry with the
-- name and the cache page. That entry leaves the table and the list of its dirty flag and becomes
-- free, behind the other free entries; otherwise no list and no bucket has another member. Afterwards
-- no entry of the table has the name and the cache page, the queue is as it was, and the invariant is
-- kept.
pub remove_mapping-removed :
    {m : Mapping} {v : View} {f : Flight} (name : Text) (page_index : ℕ)
    → IsMapping m v f
    → ((e : ℕ)
        → Found m.es v.tabled name (to_cache_page_index page_index) (some e)
        → in_flight f e ≡ false)
    → let index = to_cache_page_index page_index in
      (r : Option ℕ) × (m' : Mapping) × (remove_mapping m name page_index ≡ some (is_some r, m'))
      × Found m.es v.tabled name index r
      × IsMapping m' (removed_view m.es v r) f
      × Found m'.es (removed_view m.es v r).tabled name index none
      × (m'.wq ≡ m.wq)
unfolding remove_mapping
remove_mapping-removed {m} {v} {f} name page_index inv grounded =
    let index = to_cache_page_index page_index in
    let (r, m₁, step₁, found, inv₁, same₁, wq₁) = table_lookup-IsMapping name index inv in
    let found₁ = Found-SameEntries m m₁ v.tabled name index r same₁ found in
    let (m', step, inv', gone, wq) =
      after_search name index r inv₁ found₁ (
        not_in_flight f r (λ e at. grounded e (subst (Found m.es v.tabled name index) at found))) in
    let view = removed_view_same m m₁ v r same₁ in
    (
      r,
      m',
      rw step₁ step,
      found,
      subst (λ k. IsMapping m' k f) view inv',
      subst (λ (k : View). Found m'.es k.tabled name index none) view gone,
      wq ∙ wq₁,
    )
