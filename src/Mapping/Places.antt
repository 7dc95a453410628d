-- ===== src/Mapping/Places.antt =====
-- How each move of an entry between the lists and the table goes with its flags.
use user_level_ssd_cache_fra.Common.{
  ℕ, ◌≡◌, refl, ◌∙◌, Bool, true, false, not, ◌&&◌, List, [], ◌∷◌, ◌++◌, arith, ◌==◌, ltb, has,
  has-append, has-without, without, if◌then◌else◌, update,
}
use user_level_ssd_cache_fra.Common
use user_level_ssd_cache_fra.Mapping.Shape.{View}
use user_level_ssd_cache_fra.Mapping.Moves.{queue, set_queue, has-snoc}
use user_level_ssd_cache_fra.Mapping.Inv.{
  Flight, idle, promoting, demoting, writing_back, finishing, in_flight, is_promoting, Placed,
}

-- a member moved to the end of its list
has-moved :
    (e i : ℕ) (xs : List ℕ)
    → Common.IsDistinct xs
    → has e xs ≡ true
    → has i (without e xs ++ (e ∷ [])) ≡ has i xs
has-moved e i xs d inside = ground (arith, has-snoc e i (without e xs), has-without e i xs d)

-- An entry that is being promoted is in transfer.
pub promoting_flies : (f : Flight) (i : ℕ) → (is_promoting f i && not (in_flight f i)) ≡ false
promoting_flies idle i = refl
promoting_flies (promoting e) i = ground arith
promoting_flies (demoting e) i = refl
promoting_flies (writing_back e) i = refl
promoting_flies finishing i = refl

module _ (n : ℕ) (v : View) (e i : ℕ) {st st' : Bool × Bool × Bool} where
  -- a clean entry that is used again
  pub Placed-touch :
      (f : Flight)
      → Placed n st v f i
      → Common.IsDistinct v.clean
      → has e v.clean ≡ true
      → st' ≡ st
      → Placed n st' (record v { clean = without e v.clean ++ (e ∷ []) }) f i
  Placed-touch f p d inside same = rw same (record {
    pending = p.pending;
    free = p.free;
    clean = has-moved e i v.clean d inside ∙ p.clean;
    dirty = p.dirty;
    tabled = p.tabled;
    inside = p.inside;
    held = p.held;
  })

  -- an entry in transfer that is written
  pub Placed-mark_pending :
      (f : Flight)
      → Placed n st v f i
      → in_flight f e ≡ true
      → st' ≡ (if e == i then (st.0, true, st.2) else st)
      → Placed n st' v f i
  Placed-mark_pending f p flies at = ground arith

  -- a listed entry that is written: from the list of its dirty flag to the end of the dirty list
  pub Placed-mark_listed :
      (f : Flight) (d : Bool)
      → Placed n st v f i
      → Common.IsDistinct (queue v d)
      → has e (queue v d) ≡ true
      → st' ≡ (if e == i then (st.0, true, st.2) else st)
      → let v' = set_queue v d (without e (queue v d)) in
        Placed n st' (record v' { dirty = v'.dirty ++ (e ∷ []) }) f i
  Placed-mark_listed f true p ds inside at =
      ground (arith, has-snoc e i (without e v.dirty), has-without e i v.dirty ds)
  Placed-mark_listed f false p ds inside at =
      ground (arith, has-snoc e i v.dirty, has-without e i v.clean ds)

  -- the first free entry, taken for a promotion
  pub Placed-take_promoting :
      (rest : List ℕ)
      → Placed n st v idle i
      → v.free ≡ e ∷ rest
      → has e rest ≡ false
      → st' ≡ (if e == i then (true, false, true) else st)
      → Placed n st' (record v { free = rest }) (promoting e) i
  Placed-take_promoting rest p free_at out at =
      let free : has i (e ∷ rest) ≡ (ltb i n && not st.2) = rw free_at at p.free in
      ground (arith, p.pending, p.clean, p.dirty, p.tabled, p.inside, p.held)

  -- the first free entry, taken for a page that is about to be overwritten
  pub Placed-take_dirty :
      (f : Flight) (rest : List ℕ)
      → Placed n st v f i
      → v.free ≡ e ∷ rest
      → has e rest ≡ false
      → st' ≡ (if e == i then (false, true, true) else st)
      → Placed n st'
          (record v { free = rest; dirty = v.dirty ++ (e ∷ []); tabled = update v.tabled e true })
          f
          i
  Placed-take_dirty f rest p free_at out at =
      let free : has i (e ∷ rest) ≡ (ltb i n && not st.2) = rw free_at at p.free in
      ground (
        arith,
        p.pending,
        p.clean,
        p.dirty,
        p.tabled,
        p.inside,
        p.held,
        promoting_flies f i,
        has-snoc e i v.dirty,
      )

  -- an entry that leaves its list for a transfer
  pub Placed-depart :
      (f : Flight) (d b : Bool)
      → Placed n st v idle i
      → Common.IsDistinct (queue v d)
      → has e (queue v d) ≡ true
      → in_flight f i ≡ (e == i)
      → is_promoting f i ≡ false
      → st' ≡ (if e == i then (true, b, st.2) else st)
      → Placed n st' (set_queue v d (without e (queue v d))) f i
  Placed-depart f true b p ds inside flies not_new at = ground (arith, has-without e i v.dirty ds)
  Placed-depart f false b p ds inside flies not_new at = ground (arith, has-without e i v.clean ds)

  -- the entry in transfer, put into the list of its dirty flag
  pub Placed-land :
      (f : Flight) (d : Bool) (xs' : List ℕ) (tabled' : ℕ → Bool)
      → Placed n st v f i
      → in_flight f i ≡ (e == i)
      → (if e == i then st.1 else d) ≡ d
      → has i xs' ≡ has i (e ∷ queue v d)
      → tabled' i ≡ (if e == i then true else v.tabled i)
      → (is_promoting f i && not (e == i)) ≡ false
      → st' ≡ (if e == i then (false, st.1, st.2) else st)
      → Placed n st' (record (set_queue v d xs') { tabled = tabled' }) finishing i
  Placed-land f true xs' tabled' p flies dirty_at grown tabled_at not_new at = ground arith
  Placed-land f false xs' tabled' p flies dirty_at grown tabled_at not_new at = ground arith

  -- the entry in transfer, given back
  pub Placed-drop :
      (f : Flight) (tabled' : ℕ → Bool)
      → Placed n st v f i
      → in_flight f i ≡ (e == i)
      → tabled' i ≡ (if e == i then false else v.tabled i)
      → (is_promoting f i && not (e == i)) ≡ false
      → st' ≡ (if e == i then (false, st.1, false) else st)
      → Placed n st' (record v { free = v.free ++ (e ∷ []); tabled = tabled' }) finishing i
  Placed-drop f tabled' p flies tabled_at not_new at = ground (arith, has-snoc e i v.free)

  -- a listed entry, given back
  pub Placed-discard :
      (f : Flight) (d : Bool) (tabled' : ℕ → Bool)
      → Placed n st v f i
      → Common.IsDistinct (queue v d)
      → has e (queue v d) ≡ true
      → tabled' i ≡ (if e == i then false else v.tabled i)
      → st' ≡ (if e == i then (st.0, st.1, false) else st)
      → let v' = set_queue v d (without e (queue v d)) in
        Placed n st' (record v' { free = v.free ++ (e ∷ []); tabled = tabled' }) f i
  Placed-discard f true tabled' p ds inside tabled_at at =
      ground (arith, has-snoc e i v.free, has-without e i v.dirty ds, promoting_flies f i)
  Placed-discard f false tabled' p ds inside tabled_at at =
      ground (arith, has-snoc e i v.free, has-without e i v.clean ds, promoting_flies f i)
