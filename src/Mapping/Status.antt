-- ===== src/Mapping/Status.antt =====
-- The flags and the key of each entry of a mapping, and what the writes of one entry do to them.
use user_level_ssd_cache_fra.Common.{
  ℕ, ◌≡◌, refl, ap, Bool, true, false, arith, ◌==◌, if◌then◌else◌, Bool-cases, inl, inr, Text,
  ==_iff, subst, ◌∙◌,
}
use user_level_ssd_cache_fra.Entry.{
  Entry, EntrySpace, put_entry, entry_get_pending, entry_get_dirty, entry_get_alloc,
}
use user_level_ssd_cache_fra.Entry.Flags.{
  SameBody, flags, flags-entry_set_pending, flags-entry_set_dirty,
}
use user_level_ssd_cache_fra.Ilist.Defs.{IsList-frame}
use user_level_ssd_cache_fra.Ilist.Seg.{ne_of_not_has}
use user_level_ssd_cache_fra.Mapping.{Mapping, set_pending, set_dirty, set_key}
use user_level_ssd_cache_fra.Mapping.Shape.{View, Shape, Linked, Buckets-frame}
use user_level_ssd_cache_fra.Mapping.Moves.{Loose, Kept}

-- pending, dirty and alloc, of the entry at an index
abbrev pub status : EntrySpace → ℕ → Bool × Bool × Bool
status es i = flags (es.entrys i)

abbrev pub key : EntrySpace → ℕ → Text × ℕ
key es i = ((es.entrys i).full_path_name, (es.entrys i).cache_page_index)

flags_of_param : (e e' : Entry) → e'.param ≡ e.param → flags e' ≡ flags e
unfolding entry_get_pending entry_get_dirty entry_get_alloc
flags_of_param e e' p = rw p

pub status-Linked : (es es' : EntrySpace) (i : ℕ) → Linked es es' → status es' i ≡ status es i
status-Linked es es' i r = flags_of_param (es.entrys i) (es'.entrys i) (r i).param

pub key-Linked : (es es' : EntrySpace) (i : ℕ) → Linked es es' → key es' i ≡ key es i
key-Linked es es' i r = rw ((r i).name, (r i).index)

-- One entry written: the others are as they were.
pub status-put :
    (es : EntrySpace) (e i : ℕ) (x : Entry)
    → status (put_entry es e x) i ≡ (if e == i then flags x else status es i)
status-put es e i x = elim (Bool-cases (e == i)) [ inl p ↦ rw p | inr n ↦ rw n ]

pub key-put :
    (es : EntrySpace) (e i : ℕ) (x : Entry)
    → key (put_entry es e x) i
      ≡ (if e == i then (x.full_path_name, x.cache_page_index) else key es i)
key-put es e i x = elim (Bool-cases (e == i)) [ inl p ↦ rw p | inr n ↦ rw n ]

pub key_same :
    (es : EntrySpace) (e i : ℕ) (x : Entry)
    → SameBody (es.entrys e) x
    → key (put_entry es e x) i ≡ key es i
key_same es e i x same = elim (Bool-cases (e == i)) [
  | inl p ↦
      rw p (rw (same.name, same.index) (subst (λ k. key es e ≡ key es k) ((==_iff e i).0 p) refl))
  | inr n ↦ rw n
]

ne_of_out : (f : ℕ → Bool) (e i : ℕ) → f e ≡ false → f i ≡ true → (e == i) ≡ false
ne_of_out f e i out inside = ground arith

-- One entry changed, and changed again.
pub if_twice {ℓ} :
    {A : Type ℓ} (c : Bool) (p : A → A) (x y z : A)
    → y ≡ (if c then x else z)
    → (if c then p y else y) ≡ (if c then p x else z)
if_twice true p x y z h = ap p h
if_twice false p x y z h = h

pub if_else {ℓ} :
    {A : Type ℓ} (c : Bool) (x y z : A)
    → (c ≡ false → y ≡ z)
    → (if c then x else y) ≡ (if c then x else z)
if_else true x y z h = refl
if_else false x y z h = h refl

if_same : (b : Bool) (x : Bool × Bool × Bool) → (if b then x else x) ≡ x
if_same true x = refl
if_same false x = refl

-- The flags after a write, by those that the written entry has.
pub status_at :
    (es : EntrySpace) (e i : ℕ) (y : ℕ → Bool × Bool × Bool) (x : Entry)
    → flags x ≡ y e
    → status (put_entry es e x) i ≡ (if e == i then y i else status es i)
status_at es e i y x h = elim (Bool-cases (e == i)) [
  | inl p ↦ rw p (h ∙ ap y ((==_iff e i).0 p))
  | inr n ↦ rw n
]

module _ {m : Mapping} {v : View} (s : Shape m v) (e : ℕ) (x : Entry) where
  -- A write of flags alone leaves the lists and the table.
  pub Shape-put : SameBody (m.es.entrys e) x → Shape (record m { es = put_entry m.es e x }) v
  Shape-put same =
      let es' = put_entry m.es e x in
      let body : (i : ℕ) → SameBody (m.es.entrys i) (es'.entrys i) = λ i.
        elim (Bool-cases (e == i)) [
          | inl p ↦ rw p (subst (λ k. SameBody (m.es.entrys k) x) ((==_iff e i).0 p) same)
          | inr n ↦
              rw n
                (record { hash_next = refl; prev = refl; next = refl; name = refl; index = refl })
        ] in
      record {
        free = IsList-frame s.free (λ i _. ((body i).prev, (body i).next));
        clean = IsList-frame s.clean (λ i _. ((body i).prev, (body i).next));
        dirty = IsList-frame s.dirty (λ i _. ((body i).prev, (body i).next));
        apart = s.apart;
        buckets =
            Buckets-frame s.buckets (λ i _. ((body i).hash_next, (body i).name, (body i).index));
      }

  -- So does any write of an entry that is in no list and not in the table.
  pub Shape-put-Loose :
      Loose v e → v.tabled e ≡ false → Shape (record m { es = put_entry m.es e x }) v
  Shape-put-Loose (f, c, d) out = record {
    free = IsList-frame s.free (λ i h. rw (ne_of_not_has e i v.free f h) (refl, refl));
    clean = IsList-frame s.clean (λ i h. rw (ne_of_not_has e i v.clean c h) (refl, refl));
    dirty = IsList-frame s.dirty (λ i h. rw (ne_of_not_has e i v.dirty d h) (refl, refl));
    apart = s.apart;
    buckets = Buckets-frame s.buckets (λ i h. rw (ne_of_out v.tabled e i out h) (refl, refl, refl));
  }

module _ (m : Mapping) (e : ℕ) (b : Bool) (i : ℕ) where
  pub status-set_pending :
      status (set_pending m e b).es i
      ≡ (if e == i then (b, (status m.es i).1, (status m.es i).2) else status m.es i)
  unfolding set_pending
  status-set_pending =
      status_at m.es e i (λ k. (b, (status m.es k).1, (status m.es k).2)) _
        (flags-entry_set_pending (m.es.entrys e) b).0

  pub status-set_dirty :
      status (set_dirty m e b).es i
      ≡ (if e == i then ((status m.es i).0, b, (status m.es i).2) else status m.es i)
  unfolding set_dirty
  status-set_dirty =
      status_at m.es e i (λ k. ((status m.es k).0, b, (status m.es k).2)) _
        (flags-entry_set_dirty (m.es.entrys e) b).0

  pub key-set_pending : key (set_pending m e b).es i ≡ key m.es i
  unfolding set_pending
  key-set_pending = key_same m.es e i _ (flags-entry_set_pending (m.es.entrys e) b).1

  pub key-set_dirty : key (set_dirty m e b).es i ≡ key m.es i
  unfolding set_dirty
  key-set_dirty = key_same m.es e i _ (flags-entry_set_dirty (m.es.entrys e) b).1

module _ (m : Mapping) (e : ℕ) (name : Text) (index : ℕ) (i : ℕ) where
  pub status-set_key : status (set_key m e name index).es i ≡ status m.es i
  unfolding set_key
  status-set_key =
      status_at m.es e i (status m.es) _ (flags_of_param (m.es.entrys e) _ refl)
      ∙ if_same (e == i) (status m.es i)

  pub key-set_key :
      key (set_key m e name index).es i ≡ (if e == i then (name, index) else key m.es i)
  unfolding set_key
  key-set_key = key-put m.es e i _

module _ {m : Mapping} {v : View} (s : Shape m v) (e : ℕ) where
  pub Shape-set_pending : (b : Bool) → Shape (set_pending m e b) v
  unfolding set_pending
  Shape-set_pending b = Shape-put s e _ (flags-entry_set_pending (m.es.entrys e) b).1

  pub Shape-set_dirty : (b : Bool) → Shape (set_dirty m e b) v
  unfolding set_dirty
  Shape-set_dirty b = Shape-put s e _ (flags-entry_set_dirty (m.es.entrys e) b).1

  pub Shape-set_key :
      (name : Text) (index : ℕ) → Loose v e → v.tabled e ≡ false → Shape (set_key m e name index) v
  unfolding set_key
  Shape-set_key name index = Shape-put-Loose s e _

-- Writes of flags and of keys leave the rest of the mapping.
pub Kept-set_pending : (m : Mapping) (e : ℕ) (b : Bool) → Kept m (set_pending m e b)
unfolding set_pending
Kept-set_pending m e b = record { num = refl; begin = refl; allocated = refl; wq = refl }

pub Kept-set_dirty : (m : Mapping) (e : ℕ) (b : Bool) → Kept m (set_dirty m e b)
unfolding set_dirty
Kept-set_dirty m e b = record { num = refl; begin = refl; allocated = refl; wq = refl }

pub Kept-set_key : (m : Mapping) (e : ℕ) (name : Text) (index : ℕ) → Kept m (set_key m e name index)
unfolding set_key
Kept-set_key m e name index = record { num = refl; begin = refl; allocated = refl; wq = refl }
