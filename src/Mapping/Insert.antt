-- ===== src/Mapping/Insert.antt =====
-- `lookup_mapping_with_insert`: the insertion of a page that is about to be overwritten whole.
use user_level_ssd_cache_fra.Common.{
  if_self, ℕ, ◌+◌, ◌<◌, ◌≡◌, ◌∙◌, refl, sym, ap, subst, Bool, true, false, List, [], ◌∷◌, ◌++◌,
  arith, ◌==◌, has, length, if◌then◌else◌, none, some, Text, update, ◌&&◌, not, ◌≤◌,
}
use user_level_ssd_cache_fra.Config.{cache_block_number}
use user_level_ssd_cache_fra.WorkQueue.{Work, is_same}
use user_level_ssd_cache_fra.WorkQueue.Inv.{contents, any}
use user_level_ssd_cache_fra.Ilist.{inc}
use user_level_ssd_cache_fra.Ilist.Seg.{has_head}
use user_level_ssd_cache_fra.Ilist.Defs.{IsList}
use user_level_ssd_cache_fra.Mapping.{
  Mapping, take_entry, set_dirty, set_key, table_insert, enlist_tail,
}
use user_level_ssd_cache_fra.Mapping.Access.{insert_dirty}
use user_level_ssd_cache_fra.Mapping.Shape.{View, Shape}
use user_level_ssd_cache_fra.Mapping.Moves.{Moved-trans, Loose, enlist_tail-Moved, Kept, Kept-trans}
use user_level_ssd_cache_fra.Mapping.Buckets.{Found}
use user_level_ssd_cache_fra.Mapping.Status.{
  status, key, status-Linked, key-Linked, status-set_dirty, key-set_dirty, status-set_key,
  key-set_key, Shape-set_dirty, Shape-set_key, if_twice, if_else, Kept-set_dirty, Kept-set_key,
}
use user_level_ssd_cache_fra.Mapping.Pool.{Taken, take_entry-cons}
use user_level_ssd_cache_fra.Mapping.Keys.{table_insert-Moved}
use user_level_ssd_cache_fra.Mapping.Inv.{
  Flight, idle, promoting, demoting, writing_back, finishing, in_flight, waiting, IsMapping,
}
use user_level_ssd_cache_fra.Mapping.Places.{Placed-take_dirty}
use user_level_ssd_cache_fra.Mapping.Requests.{Found-Shrunk, Rekeyed-Shrunk, AllAbsent-grow}
use user_level_ssd_cache_fra.Mapping.Facts.{HasJob-same, infer_cblock_self}

-- The first free entry: allocated by nobody, in no other list and not in the table.
pub record IsFree (m : Mapping) (v : View) (e : ℕ) (rest : List ℕ) : Type 0 where
  pub alloc : (status m.es e).2 ≡ false
  pub out : has e rest ≡ false
  pub loose : Loose (record v { free = rest }) e
  pub tabled : v.tabled e ≡ false
  pub small : e < cache_block_number

pub first_free :
    {m : Mapping} {v : View} {f : Flight} (e : ℕ) (rest : List ℕ)
    → IsMapping m v f
    → v.free ≡ e ∷ rest
    → IsFree m v e rest
first_free {m} {v} {f} e rest inv at =
    let l = subst (λ xs. IsList m.es m.ea.free xs) at inv.shape.free in
    let here : has e v.free ≡ true = subst (λ xs. has e xs ≡ true) (sym at) (has_head e rest) in
    let alloc : (status m.es e).2 ≡ false = ground (arith, inv.placed e) in
    record {
      alloc = alloc;
      out = l.distinct.0;
      loose = (l.distinct.0, ground (arith, inv.placed e), ground (arith, inv.placed e));
      tabled = ground (arith, inv.placed e);
      small = ground (arith, inv.placed e, inv.num);
    }

-- A statement about no request holds of no waiting request.
pub any-waiting :
    (test : Work → Bool) (f : Flight) (ws : List Work)
    → any test ws ≡ false
    → any test (waiting f ws) ≡ false
any-waiting test finishing [] h = refl
any-waiting test finishing (w ∷ ws) h = ground arith
any-waiting test idle ws h = h
any-waiting test (promoting e) ws h = h
any-waiting test (demoting e) ws h = h
any-waiting test (writing_back e) ws h = h

-- the view after the insertion of the entry `e`
abbrev pub inserted : View → ℕ → List ℕ → View
inserted v e rest = record v {
  free = rest;
  dirty = v.dirty ++ (e ∷ []);
  tabled = update v.tabled e true;
}

-- The entry `e` has got the key and the flags, all others are as they were.
pub record Inserted (m m' : Mapping) (e : ℕ) (name : Text) (index : ℕ) (flags : Bool × Bool × Bool)
    : Type 0 where
  pub status_of : (i : ℕ) → status m'.es i ≡ (if e == i then flags else status m.es i)
  pub key_of : (i : ℕ) → key m'.es i ≡ (if e == i then (name, index) else key m.es i)

ne_of_flags : (g : ℕ → Bool) (e i : ℕ) → g e ≡ false → g i ≡ true → (e == i) ≡ false
ne_of_flags g e i out inside = ground arith

alloc_of_held : (a b : Bool) → (a && not b) ≡ false → a ≡ true → b ≡ true
alloc_of_held a b h p = ground arith

-- The entry in transfer is allocated.
pub not_flying :
    {m : Mapping} {v : View} {f : Flight} (e i : ℕ)
    → IsMapping m v f
    → (status m.es e).2 ≡ false
    → in_flight f i ≡ true
    → (e == i) ≡ false
not_flying {m} {f} e i inv alloc flies =
    ne_of_flags (λ k. (status m.es k).2) e i alloc (alloc_of_held _ _ (inv.placed i).held flies)

-- One entry fewer is free, one more is allocated.
pub allocated_one :
    (nr num : ℕ) (free : List ℕ) (e : ℕ) (rest : List ℕ) {nr' num' : ℕ}
    → free ≡ e ∷ rest
    → num ≤ cache_block_number
    → nr + length free ≡ num
    → nr' ≡ inc nr
    → num' ≡ num
    → nr' + length rest ≡ num'
allocated_one nr num free e rest at small all nr_at num_at = omega (arith, ap length at)

module _ {m : Mapping} {v : View} {f : Flight} (inv : IsMapping m v f) (name : Text)
    (index : ℕ) where
  -- the entry taken, marked dirty and given its key
  keyed :
      (e : ℕ) (rest : List ℕ)
      → v.free ≡ e ∷ rest
      → (m₁ : Mapping) × (take_entry m ≡ some (e, m₁))
        × Shape (set_key (set_dirty m₁ e true) e name index) (record v { free = rest })
        × Taken m e m₁
        × Inserted m (set_key (set_dirty m₁ e true) e name index) e name index (false, true, true)
  keyed e rest at =
      let free = first_free e rest inv at in
      let (m₁, step, s₁, t) = take_entry-cons e rest inv.shape at free.tabled in
      let m₂ = set_dirty m₁ e true in
      (
        m₁,
        step,
        Shape-set_key (Shape-set_dirty s₁ e true) e name index free.loose free.tabled,
        t,
        record {
          status_of = λ i.
              status-set_key m₂ e name index i
              ∙ status-set_dirty m₁ e true i
              ∙ if_twice (e == i) (λ st. (st.0, true, st.2)) (false, false, true) (status m₁.es i)
                  (status m.es i) (t.status_of i);
          key_of = λ i.
              key-set_key m₂ e name index i
              ∙ if_else (e == i) (name, index) (key m₂.es i) (key m.es i)
                  (λ ne. key-set_dirty m₁ e true i ∙ t.key_of i ne);
        },
      )

  -- After the insertion of the first free entry under a new key, which no request has either, the
  -- invariant holds with the entry in the dirty list and in the table.
  pub insert_dirty-inserted :
      (e : ℕ) (rest : List ℕ)
      → v.free ≡ e ∷ rest
      → Found m.es v.tabled name index none
      → any (is_same name index) (contents m.wq) ≡ false
      → (m' : Mapping) × (insert_dirty m name index ≡ some (some e, m'))
        × IsMapping m' (inserted v e rest) f
        × Inserted m m' e name index (false, true, true)
        × (m'.wq ≡ m.wq)
  unfolding insert_dirty
  insert_dirty-inserted e rest at absent new =
      let free = first_free e rest inv at in
      let (m₁, step, s₂, t, k) = keyed e rest at in
      let m₂ = set_key (set_dirty m₁ e true) e name index in
      let key_e : key m₂.es e ≡ (name, index) = k.key_of e ∙ if_self e (name, index) (key m.es e) in
      let others : (i : ℕ) → (e == i) ≡ false → key m₂.es i ≡ key m.es i =
        λ i ne. k.key_of i ∙ rw ne in
      let a = table_insert-Moved s₂ e free.small free.tabled (
        subst (λ (k : Text × ℕ). Found m₂.es v.tabled k.0 k.1 none) (sym key_e)
          (Found-Shrunk m.es m₂.es v.tabled v.tabled
            (Rekeyed-Shrunk m.es m₂.es v.tabled e free.tabled others) name index absent)) in
      let m₃ = table_insert m₂ e in
      let status₂ : status m₂.es e ≡ (false, true, true) =
        k.status_of e ∙ if_self e _ (status m.es e) in
      let b = Moved-trans a (
        enlist_tail-Moved a.shape e true
          (ap (λ k. k.1) (status-Linked m₂.es m₃.es e a.linked ∙ status₂)) free.loose
          (omega (arith, free.small))) in
      let m₄ = enlist_tail m₃ e in
      let st : (i : ℕ) → status m₄.es i ≡ (if e == i then (false, true, true) else status m.es i) =
        λ i. status-Linked m₂.es m₄.es i b.linked ∙ k.status_of i in
      let c : Kept m₁ m₄ =
        Kept-trans (Kept-set_dirty m₁ e true)
          (Kept-trans (Kept-set_key (set_dirty m₁ e true) e name index) b.kept) in
      let wq : m₄.wq ≡ m.wq = c.wq ∙ t.wq in
      let keys : (i : ℕ) → key m₄.es i ≡ key m₂.es i = λ i. key-Linked m₂.es m₄.es i b.linked in
      let inv₄ : IsMapping m₄ (inserted v e rest) f = record {
        shape = b.shape;
        placed = λ i.
            rw (c.num ∙ t.num)
              (Placed-take_dirty m.cache_block_num v e i f rest (inv.placed i) at free.out (st i));
        num = rw (c.num ∙ t.num) inv.num;
        begin = c.begin ∙ t.begin ∙ inv.begin;
        allocated =
            allocated_one m.ea.nr_allocated m.cache_block_num v.free e rest at inv.num inv.allocated
              (c.allocated ∙ t.allocated) (c.num ∙ t.num);
        queued = record {
          valid = rw wq inv.queued.valid;
          distinct = rw wq inv.queued.distinct;
          absent = rw wq (
              AllAbsent-grow m.es m₄.es v.tabled e name index (waiting f (contents m.wq))
                free.tabled (keys e ∙ key_e) (λ i ne. keys i ∙ others i ne)
                (any-waiting (is_same name index) f (contents m.wq) new) inv.queued.absent);
          job = rw wq (
              HasJob-same m.es m₄.es f (contents m.wq)
                (λ i p. keys i ∙ others i (not_flying e i inv free.alloc p)) inv.queued.job);
        };
      } in
      (
        m₄,
        rw step (ap (λ k. some (some k, m₄)) (infer_cblock_self inv₄ e free.small)),
        inv₄,
        record { status_of = st; key_of = λ i. keys i ∙ k.key_of i },
        wq,
      )
