-- ===== src/Mapping/Completion.antt =====
-- The ends of a promotion, of a demotion and of a writeback.
use user_level_ssd_cache_fra.Common.{
  ℕ, ◌<◌, ◌≡◌, ◌∙◌, ap, subst, Bool, true, false, not, ◌&&◌, List, [], ◌∷◌, ◌++◌, arith, ◌==◌,
  ==_refl, ==_iff, has, if◌then◌else◌, inl, inr, Bool-cases,
}
use user_level_ssd_cache_fra.Config.{cache_block_number}
use user_level_ssd_cache_fra.Entry.{EntrySpace}
use user_level_ssd_cache_fra.WorkQueue.{Work}
use user_level_ssd_cache_fra.WorkQueue.Inv.{contents}
use user_level_ssd_cache_fra.Ilist.{dec}
use user_level_ssd_cache_fra.Mapping.{Mapping, set_pending, release}
use user_level_ssd_cache_fra.Mapping.Shape.{View, Shape}
use user_level_ssd_cache_fra.Mapping.Moves.{Kept, Kept-trans, Moved, Loose, queue, set_queue}
use user_level_ssd_cache_fra.Mapping.Status.{
  status, key, status-Linked, key-Linked, status-set_pending, key-set_pending, Shape-set_pending,
  if_twice,
}
use user_level_ssd_cache_fra.Mapping.Pool.{Shape-same, release-Released}
use user_level_ssd_cache_fra.Mapping.Inv.{
  Flight, idle, promoting, demoting, writing_back, finishing, in_flight, is_promoting, AllAbsent,
  waiting, IsMapping, Queued,
}
use user_level_ssd_cache_fra.Mapping.Places.{promoting_flies, Placed-land, Placed-drop}
use user_level_ssd_cache_fra.Mapping.Requests.{Shrunk, AllAbsent-Shrunk}
use user_level_ssd_cache_fra.Mapping.Facts.{Loose-in_flight, small_of_alloc, some_allocated}
use user_level_ssd_cache_fra.Mapping.Discard.{allocated_less}

pub AllAbsent-done :
    (es : EntrySpace) (tabled : ℕ → Bool) (f : Flight) (ws : List Work)
    → AllAbsent es tabled (waiting f ws)
    → AllAbsent es tabled (waiting finishing ws)
AllAbsent-done es tabled finishing ws a = a
AllAbsent-done es tabled idle [] a = tt
AllAbsent-done es tabled idle (w ∷ ws) a = a.1
AllAbsent-done es tabled (promoting e) [] a = tt
AllAbsent-done es tabled (promoting e) (w ∷ ws) a = a.1
AllAbsent-done es tabled (demoting e) [] a = tt
AllAbsent-done es tabled (demoting e) (w ∷ ws) a = a.1
AllAbsent-done es tabled (writing_back e) [] a = tt
AllAbsent-done es tabled (writing_back e) (w ∷ ws) a = a.1

-- The queue at the end of a transfer that has put no new entry into the table.
pub Queued-done :
    (m m' : Mapping) (v v' : View) (f : Flight)
    → m'.wq ≡ m.wq
    → Shrunk m.es m'.es v.tabled v'.tabled
    → Queued m v f
    → Queued m' v' finishing
Queued-done m m' v v' f wq s q = record {
  valid = rw wq q.valid;
  distinct = rw wq q.distinct;
  absent = rw wq (
      AllAbsent-Shrunk m.es m'.es v.tabled v'.tabled s (waiting finishing (contents m.wq))
        (AllAbsent-done m.es v.tabled f (contents m.wq) q.absent));
  job = tt;
}

-- The pending flag of the entry cleared, and counters changed.
pub record Cleared (m m' : Mapping) (e : ℕ) : Type 0 where
  pub es : m'.es ≡ (set_pending m e false).es
  pub free : m'.ea ≡ m.ea
  pub clean : m'.clean ≡ m.clean
  pub dirty : m'.dirty ≡ m.dirty
  pub table : m'.table ≡ m.table
  pub num : m'.cache_block_num ≡ m.cache_block_num
  pub wq : m'.wq ≡ m.wq

pub Shape-Cleared : {m m' : Mapping} {v : View} (e : ℕ) → Cleared m m' e → Shape m v → Shape m' v
unfolding set_pending
Shape-Cleared {m} {m'} e c s =
    Shape-same m' (Shape-set_pending s e false) c.es (ap (λ k. k.free) c.free) c.clean c.dirty
      c.table

Kept-Cleared : {m m' : Mapping} (e : ℕ) → Cleared m m' e → Kept m m'
Kept-Cleared e c = record {
  num = c.num;
  begin = ap (λ k. k.begin) c.free;
  allocated = ap (λ k. k.nr_allocated) c.free;
  wq = c.wq;
}

pub status-Cleared :
    {m m' : Mapping} (e i : ℕ)
    → Cleared m m' e
    → status m'.es i
      ≡ (if e == i then (false, (status m.es i).1, (status m.es i).2) else status m.es i)
status-Cleared {m} e i c = ap (λ es. status es i) c.es ∙ status-set_pending m e false i

pub key-Cleared : {m m' : Mapping} (e i : ℕ) → Cleared m m' e → key m'.es i ≡ key m.es i
key-Cleared {m} e i c = ap (λ es. key es i) c.es ∙ key-set_pending m e false i

-- After the end of a transfer whose entry stays allocated, and after one whose entry is given back;
-- no key has changed.
abbrev pub Landed : Mapping → Mapping → ℕ → Type 0
Landed m m' e =
    (i : ℕ)
    → (status m'.es i
        ≡ (if e == i then (false, (status m.es i).1, (status m.es i).2) else status m.es i))
      × (key m'.es i ≡ key m.es i)

abbrev pub Dropped : Mapping → Mapping → ℕ → Type 0
Dropped m m' e =
    (i : ℕ)
    → (status m'.es i ≡ (if e == i then (false, (status m.es i).1, false) else status m.es i))
      × (key m'.es i ≡ key m.es i)

below_of_drop : (hit t t' : Bool) → t' ≡ (if hit then false else t) → t' ≡ true → t ≡ true
below_of_drop hit t t' at p = ground arith

module _ {m : Mapping} {v : View} {f : Flight} (inv : IsMapping m v f) (e : ℕ)
    (flies : (i : ℕ) → in_flight f i ≡ (e == i)) where
  pub here : in_flight f e ≡ true
  here = flies e ∙ ==_refl e

  pub held : (status m.es e).2 ≡ true
  held = ground (arith, (inv.placed e).held, here)

  pub small : e < cache_block_number
  small = small_of_alloc inv e held

  not_other : (i : ℕ) → (is_promoting f i && not (e == i)) ≡ false
  not_other i = subst (λ b. (is_promoting f i && not b) ≡ false) (flies i) (promoting_flies f i)

  pub loose : Loose v e
  loose = Loose-in_flight inv e here

  dirty_at :
      (d : Bool) (i : ℕ) → (status m.es e).1 ≡ d → (if e == i then (status m.es i).1 else d) ≡ d
  dirty_at d i at = elim (Bool-cases (e == i)) [
    | inl hit ↦ rw hit (subst (λ k. (status m.es k).1 ≡ d) ((==_iff e i).0 hit) at)
    | inr miss ↦ rw miss
  ]

  -- The entry comes into the list of its dirty flag.
  pub landed :
      {m₁ m' : Mapping} (d : Bool) (xs' : List ℕ) (tabled' : ℕ → Bool)
      → (status m.es e).1 ≡ d
      → Cleared m m₁ e
      → Moved m₁ m' (record (set_queue v d xs') { tabled = tabled' })
      → ((i : ℕ) → has i xs' ≡ has i (e ∷ queue v d))
      → ((i : ℕ) → tabled' i ≡ (if e == i then true else v.tabled i))
      → Queued m' (record (set_queue v d xs') { tabled = tabled' }) finishing
      → IsMapping m' (record (set_queue v d xs') { tabled = tabled' }) finishing × Landed m m' e
  landed {m₁} {m'} d xs' tabled' at c a grown tabled_at q =
      let k = Kept-trans (Kept-Cleared e c) a.kept in
      let l : Landed m m' e = λ i. (
        status-Linked m₁.es m'.es i a.linked ∙ status-Cleared e i c,
        key-Linked m₁.es m'.es i a.linked ∙ key-Cleared e i c,
      ) in
      (
        record {
          shape = a.shape;
          placed = λ i. rw k.num (
              Placed-land m.cache_block_num v e i f d xs' tabled' (inv.placed i) (flies i)
                (dirty_at d i at) (grown i) (tabled_at i) (not_other i) (l i).0);
          num = rw k.num inv.num;
          begin = k.begin ∙ inv.begin;
          allocated = rw (k.allocated, k.num) inv.allocated;
          queued = q;
        },
        l,
      )

  -- The entry is given back.
  pub dropped :
      {m₁ m₂ : Mapping} (tabled' : ℕ → Bool)
      → Cleared m m₁ e
      → Moved m₁ m₂ (record v { tabled = tabled' })
      → ((i : ℕ) → tabled' i ≡ (if e == i then false else v.tabled i))
      → let v' = record v { free = v.free ++ (e ∷ []); tabled = tabled' } in
        IsMapping (release m₂ e) v' finishing
        × Dropped m (release m₂ e) e
        × ((release m₂ e).wq ≡ m.wq)
  dropped {m₁} {m₂} tabled' c a tabled_at =
      let v' = record v { free = v.free ++ (e ∷ []); tabled = tabled' } in
      let m' = release m₂ e in
      let k = Kept-trans (Kept-Cleared e c) a.kept in
      let (s, r) = release-Released e a.shape loose (omega (arith, small)) in
      let l : Dropped m m' e = λ i. (
        r.status_of i
            ∙ if_twice (e == i) (λ (k : Bool × Bool × Bool). (k.0, k.1, false))
                (false, (status m.es i).1, (status m.es i).2) (status m₂.es i) (status m.es i)
                (status-Linked m₁.es m₂.es i a.linked ∙ status-Cleared e i c),
        r.key_of i ∙ key-Linked m₁.es m₂.es i a.linked ∙ key-Cleared e i c,
      ) in
      let wq : m'.wq ≡ m.wq = r.wq ∙ k.wq in
      let num : m'.cache_block_num ≡ m.cache_block_num = r.num ∙ k.num in
      (
        record {
          shape = s;
          placed = λ i. rw num (
              Placed-drop m.cache_block_num v e i f tabled' (inv.placed i) (flies i) (tabled_at i)
                (not_other i) (l i).0);
          num = rw num inv.num;
          begin = r.begin ∙ k.begin ∙ inv.begin;
          allocated =
              allocated_less m.ea.nr_allocated m.cache_block_num v.free e inv.num
                (some_allocated e inv held) inv.allocated (r.allocated ∙ ap dec k.allocated) num;
          queued =
              Queued-done m m' v v' f wq
                (λ i p. (below_of_drop (e == i) (v.tabled i) (tabled' i) (tabled_at i) p, (l i).1))
                inv.queued;
        },
        l,
        wq,
      )
