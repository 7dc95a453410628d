-- ===== src/Mapping/Requests.antt =====
-- The queued requests and the table: a request in the queue is for a page that is not in the table.
use mathlib.Core.Bool.{false≢true}
use user_level_ssd_cache_fra.Common.{
  ℕ, ◌≡◌, ◌∙◌, refl, sym, ap, subst, Bool, true, false, ◌||◌, List, [], ◌∷◌, ◌++◌, arith, ◌==◌,
  ==_iff, update, Text, strlen, same_text_iff, same_start, same_start_refl, none, Bool-cases, inl,
  inr,
}
use user_level_ssd_cache_fra.WorkQueue.{Work, is_same, starts_alike}
use user_level_ssd_cache_fra.WorkQueue.Inv.{any}
use user_level_ssd_cache_fra.Entry.{EntrySpace}
use user_level_ssd_cache_fra.Mapping.Buckets.{Found}
use user_level_ssd_cache_fra.Mapping.Status.{key}
use user_level_ssd_cache_fra.Mapping.Inv.{AllAbsent, IsDistinct}

-- The table has shrunk, or is as it was, and its entries have kept their keys.
abbrev pub Shrunk : (es es' : EntrySpace) (tabled tabled' : ℕ → Bool) → Type 0
Shrunk es es' tabled tabled' =
    (i : ℕ) → tabled' i ≡ true → (tabled i ≡ true) × (key es' i ≡ key es i)

module _ (es es' : EntrySpace) (tabled tabled' : ℕ → Bool) (s : Shrunk es es' tabled tabled') where
  pub Found-Shrunk :
      (name : Text) (index : ℕ)
      → Found es tabled name index none
      → Found es' tabled' name index none
  Found-Shrunk name index a = λ i p h.
      let (old, same) = s i p in
      a i old (sym (ap (λ k. k.0) same) ∙ h.0, sym (ap (λ k. k.1) same) ∙ h.1)

  pub AllAbsent-Shrunk : (ws : List Work) → AllAbsent es tabled ws → AllAbsent es' tabled' ws
  AllAbsent-Shrunk [] a = tt
  AllAbsent-Shrunk (w ∷ ws) a =
      (Found-Shrunk w.full_path_name w.cache_page_index a.0, AllAbsent-Shrunk ws a.1)

is_same_of :
    (name : Text) (index : ℕ) (w : Work)
    → w.full_path_name ≡ name
    → w.cache_page_index ≡ index
    → is_same name index w ≡ true
is_same_of name index w n i = ground (arith, (same_text_iff w.full_path_name name).1 n)

is_same_iff :
    (name : Text) (index : ℕ) (w : Work)
    → is_same name index w ≡ true
    → (w.full_path_name ≡ name) × (w.cache_page_index ≡ index)
is_same_iff name index w h = ((same_text_iff w.full_path_name name).0 (ground arith), ground arith)

-- The table has grown by an entry whose key no request has.
pub AllAbsent-update :
    (es : EntrySpace) (tabled : ℕ → Bool) (e : ℕ) (ws : List Work)
    → any (is_same (es.entrys e).full_path_name (es.entrys e).cache_page_index) ws ≡ false
    → AllAbsent es tabled ws
    → AllAbsent es (update tabled e true) ws
AllAbsent-update es tabled e [] new a = tt
AllAbsent-update es tabled e (w ∷ ws) new a = (
  (λ i p h. elim (Bool-cases (e == i)) [
    | inl hit ↦
        let e_at : e ≡ i = (==_iff e i).0 hit in
        let same =
          is_same_of (es.entrys i).full_path_name (es.entrys i).cache_page_index w (sym h.0)
            (sym h.1) in
        let same_e =
          subst (λ k. is_same (es.entrys k).full_path_name (es.entrys k).cache_page_index w ≡ true)
            (sym e_at) same in
        ground arith
    | inr miss ↦ a.0 i (rw miss at p) h
  ]),
  AllAbsent-update es tabled e ws (ground arith) a.1,
)

-- Only the entry `e`, which is not in the table, has another key.
pub Rekeyed-Shrunk :
    (es es' : EntrySpace) (tabled : ℕ → Bool) (e : ℕ)
    → tabled e ≡ false
    → ((i : ℕ) → (e == i) ≡ false → key es' i ≡ key es i)
    → Shrunk es es' tabled tabled
Rekeyed-Shrunk es es' tabled e out same i p = (p, same i (ground arith))

-- An entry with a key that no request has comes into the table.
pub AllAbsent-grow :
    (es es' : EntrySpace) (tabled : ℕ → Bool) (e : ℕ) (name : Text) (index : ℕ) (ws : List Work)
    → tabled e ≡ false
    → key es' e ≡ (name, index)
    → ((i : ℕ) → (e == i) ≡ false → key es' i ≡ key es i)
    → any (is_same name index) ws ≡ false
    → AllAbsent es tabled ws
    → AllAbsent es' (update tabled e true) ws
AllAbsent-grow es es' tabled e name index ws out at same new a =
    AllAbsent-update es' tabled e ws
      (subst (λ (k : Text × ℕ). any (is_same k.0 k.1) ws ≡ false) (sym at) new)
      (AllAbsent-Shrunk es es' tabled tabled (Rekeyed-Shrunk es es' tabled e out same) ws a)

pub AllAbsent-append :
    (es : EntrySpace) (tabled : ℕ → Bool) (w : Work) (ws : List Work)
    → AllAbsent es tabled ws
    → Found es tabled w.full_path_name w.cache_page_index none
    → AllAbsent es tabled (ws ++ (w ∷ []))
AllAbsent-append es tabled w [] a new = (new, tt)
AllAbsent-append es tabled w (x ∷ ws) a new = (a.0, AllAbsent-append es tabled w ws a.1 new)

any-append :
    (test : Work → Bool) (ws us : List Work) → any test (ws ++ us) ≡ (any test ws || any test us)
any-append test [] us = refl
any-append test (w ∷ ws) us = ground (arith, any-append test ws us)

is_same_sym :
    (x w : Work)
    → is_same w.full_path_name w.cache_page_index x ≡ false
    → is_same x.full_path_name x.cache_page_index w ≡ false
is_same_sym x w h = elim (Bool-cases (is_same x.full_path_name x.cache_page_index w)) [
  | inl same ↦
      let (n, i) = is_same_iff x.full_path_name x.cache_page_index w same in
      absurd (false≢true (sym h ∙ is_same_of w.full_path_name w.cache_page_index x (sym n) (sym i)))
  | inr apart ↦ apart
]

pub append-IsDistinct :
    (w : Work) (ws : List Work)
    → IsDistinct ws
    → any (is_same w.full_path_name w.cache_page_index) ws ≡ false
    → IsDistinct (ws ++ (w ∷ []))
append-IsDistinct w [] d new = (refl, tt)
append-IsDistinct w (x ∷ ws) d new = (
  any-append (is_same x.full_path_name x.cache_page_index) ws (w ∷ [])
      ∙ rw (d.0, is_same_sym x w (ground arith)),
  append-IsDistinct w ws d.1 (ground arith),
)

-- A queue that says it has no request whose name starts the sought one has not the sought request.
pub any-is_same :
    (name : Text) (index : ℕ) (ws : List Work)
    → any (starts_alike name index) ws ≡ false
    → any (is_same name index) ws ≡ false
any-is_same name index [] h = refl
any-is_same name index (w ∷ ws) h = elim (Bool-cases (is_same name index w)) [
  | inl same ↦
      let (n, i) = is_same_iff name index w same in
      let alike : same_start (strlen w.full_path_name) w.full_path_name name ≡ true =
        subst (λ t. same_start (strlen w.full_path_name) w.full_path_name t ≡ true) n
          (same_start_refl (strlen w.full_path_name) w.full_path_name) in
      ground arith
  | inr apart ↦ rw apart (any-is_same name index ws (ground arith))
]
