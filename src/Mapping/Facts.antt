-- ===== src/Mapping/Facts.antt =====
-- What the invariant of a mapping says of one entry, and how it is put together again after a step.
use user_level_ssd_cache_fra.Common.{
  ℕ, ◌+◌, ◌-◌, ◌%◌, ◌<◌, ◌≡◌, ◌∙◌, refl, sym, ap, subst, Bool, true, false, not, ◌&&◌, List, [],
  ◌∷◌, ◌++◌, arith, ◌==◌, ltb, has, without, has-without, length, length-le_of_distinct,
  if◌then◌else◌,
}
use user_level_ssd_cache_fra.Common
use user_level_ssd_cache_fra.Config.{cache_block_number}
use user_level_ssd_cache_fra.WorkQueue.{Work}
use user_level_ssd_cache_fra.WorkQueue.Inv.{contents}
use user_level_ssd_cache_fra.Entry.{EntrySpace}
use user_level_ssd_cache_fra.Mapping.{Mapping, infer_cblock}
use user_level_ssd_cache_fra.Mapping.Shape.{View, Shape}
use user_level_ssd_cache_fra.Mapping.Moves.{Loose, queue, set_queue, Moved}
use user_level_ssd_cache_fra.Mapping.Buckets.{tabled_below}
use user_level_ssd_cache_fra.Mapping.Status.{status, key, key-Linked, status-Linked}
use user_level_ssd_cache_fra.Mapping.Inv.{
  Flight, idle, promoting, demoting, writing_back, finishing, in_flight, waiting, HasJob, Queued,
  IsMapping,
}
use user_level_ssd_cache_fra.Mapping.Requests.{Shrunk, AllAbsent-Shrunk}

-- The two hold the same entries: their flags and keys are the same.
abbrev pub SameEntries : Mapping → Mapping → Type 0
SameEntries m m' = (i : ℕ) → (status m'.es i ≡ status m.es i) × (key m'.es i ≡ key m.es i)

pub SameEntries-Moved : {m m' : Mapping} {v' : View} → Moved m m' v' → SameEntries m m'
SameEntries-Moved {m} {m'} a i =
    (status-Linked m.es m'.es i a.linked, key-Linked m.es m'.es i a.linked)

pub HasJob-same :
    (es es' : EntrySpace) (f : Flight) (ws : List Work)
    → ((i : ℕ) → in_flight f i ≡ true → key es' i ≡ key es i)
    → HasJob f es ws
    → HasJob f es' ws
HasJob-same es es' (promoting e) [] same j = absurd j
HasJob-same es es' (promoting e) (w ∷ ws) same j = same e (ground arith) ∙ j
HasJob-same es es' idle ws same j = tt
HasJob-same es es' (demoting e) ws same j = tt
HasJob-same es es' (writing_back e) ws same j = tt
HasJob-same es es' finishing ws same j = tt

-- The queue goes with a table that has not grown.
pub Queued-Shrunk :
    (m m' : Mapping) (v v' : View) (f : Flight)
    → m'.wq ≡ m.wq
    → Shrunk m.es m'.es v.tabled v'.tabled
    → ((i : ℕ) → in_flight f i ≡ true → key m'.es i ≡ key m.es i)
    → Queued m v f
    → Queued m' v' f
Queued-Shrunk m m' v v' f wq s same q = record {
  valid = rw wq q.valid;
  distinct = rw wq q.distinct;
  absent =
      rw wq (AllAbsent-Shrunk m.es m'.es v.tabled v'.tabled s (waiting f (contents m.wq)) q.absent);
  job = rw wq (HasJob-same m.es m'.es f (contents m.wq) same q.job);
}

and_left : (a b : Bool) → (a && b) ≡ true → a ≡ true
and_left a b h = ground arith

bits_of_dirty :
    (st : Bool × Bool × Bool) → (st.2 && (not st.0 && st.1)) ≡ true → st ≡ (false, true, true)
bits_of_dirty (false, true, true) h = refl
bits_of_dirty (true, d, true) h = ground arith
bits_of_dirty (false, false, true) h = ground arith
bits_of_dirty (p, d, false) h = ground arith

bits_of_clean :
    (st : Bool × Bool × Bool) → (st.2 && (not st.0 && not st.1)) ≡ true → st ≡ (false, false, true)
bits_of_clean (false, false, true) h = refl
bits_of_clean (true, d, true) h = ground arith
bits_of_clean (false, true, true) h = ground arith
bits_of_clean (p, d, false) h = ground arith

module _ {m : Mapping} {v : View} {f : Flight} (inv : IsMapping m v f) (e : ℕ) where
  pub small_of_tabled : v.tabled e ≡ true → e < cache_block_number
  small_of_tabled = tabled_below inv.shape.buckets e

  pub small_of_alloc : (status m.es e).2 ≡ true → e < cache_block_number
  small_of_alloc a = ground (arith, inv.placed e, inv.num)

  pub infer_cblock_self : e < cache_block_number → infer_cblock m e ≡ e
  infer_cblock_self small = omega (arith, inv.begin)

  pub alloc_of_tabled : v.tabled e ≡ true → (status m.es e).2 ≡ true
  alloc_of_tabled h = and_left _ _ (sym (inv.placed e).tabled ∙ h)

  -- An entry of the table that is not in transfer is in the list of its dirty flag.
  pub listed :
      (d : Bool)
      → (status m.es e).1 ≡ d
      → (status m.es e).2 ≡ true
      → (status m.es e).0 ≡ false
      → has e (queue v d) ≡ true
  listed true at a idle_at = ground (arith, inv.placed e)
  listed false at a idle_at = ground (arith, inv.placed e)

  -- and what is in a list is allocated, has its dirty flag and is not pending
  pub of_listed : (d : Bool) → has e (queue v d) ≡ true → status m.es e ≡ (false, d, true)
  of_listed true h = bits_of_dirty (status m.es e) (sym (inv.placed e).dirty ∙ h)
  of_listed false h = bits_of_clean (status m.es e) (sym (inv.placed e).clean ∙ h)

  pub Loose-in_flight : in_flight f e ≡ true → Loose v e
  Loose-in_flight h = ground (arith, inv.placed e)

-- An entry taken out of its list is in none.
pub Loose-without :
    {m : Mapping} {v : View} (e : ℕ) (d : Bool)
    → Shape m v
    → has e (queue v d) ≡ true
    → Loose (set_queue v d (without e (queue v d))) e
Loose-without {v} e true s inside =
    ground (arith, s.apart e, has-without e e v.dirty s.dirty.distinct)
Loose-without {v} e false s inside =
    ground (arith, s.apart e, has-without e e v.clean s.clean.distinct)

pub queue-IsDistinct :
    {m : Mapping} {v : View} (d : Bool) → Shape m v → Common.IsDistinct (queue v d)
queue-IsDistinct true s = s.dirty.distinct
queue-IsDistinct false s = s.clean.distinct

below_of :
    (n e i : ℕ) (a b : Bool) (xs : List ℕ)
    → has i xs ≡ (ltb i n && not b)
    → (a && not (ltb e n)) ≡ false
    → a ≡ true
    → has i (e ∷ xs) ≡ true
    → i < n
below_of n e i a b xs free inside held h = ground (arith, free)

-- While an entry is allocated, the number of allocated entries is not zero.
pub some_allocated :
    {m : Mapping} {v : View} {f : Flight} (e : ℕ)
    → IsMapping m v f
    → (status m.es e).2 ≡ true
    → 0 < m.ea.nr_allocated
some_allocated {m} {v} e inv held =
    let out : has e v.free ≡ false = ground (arith, inv.placed e) in
    omega (
      arith,
      inv.allocated,
      length-le_of_distinct m.cache_block_num (e ∷ v.free) (out, inv.shape.free.distinct)
          (λ i.
            below_of m.cache_block_num e i (status m.es e).2 (status m.es i).2 v.free
              (inv.placed i).free (inv.placed e).inside held),
    )
