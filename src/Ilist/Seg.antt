-- ===== src/Ilist/Seg.antt =====
-- Doubly linked segments: what the `prev` and `next` fields of the entries of a list say.
use user_level_ssd_cache_fra.Common.{
  ℕ, ◌≡◌, sym, ◌∙◌, inl, inr, Bool-cases, ==_iff, true, false, ◌||◌, List, [], ◌∷◌, ◌++◌, arith,
  ◌==◌, if◌then◌else◌, has, IsDistinct, without,
}
use user_level_ssd_cache_fra.Entry.{Entry}

abbrev pub first : List ℕ → ℕ → ℕ
first [] q = q
first (x ∷ xs) q = x

abbrev pub last : ℕ → List ℕ → ℕ
last p [] = p
last p (x ∷ xs) = last x xs

-- From `p`, through the entries of the list, to `q`: each entry points back at the one before it
-- and on to the one behind it.
abbrev pub Links : (ℕ → Entry) → ℕ → List ℕ → ℕ → Type 0
Links f p [] q = Unit
Links f p (x ∷ xs) q = ((f x).prev ≡ p) × ((f x).next ≡ first xs q) × Links f x xs q

-- The two links of entry `i` are the same in both.
abbrev pub SameLinks : (ℕ → Entry) → (ℕ → Entry) → ℕ → Type 0
SameLinks f g i = ((g i).prev ≡ (f i).prev) × ((g i).next ≡ (f i).next)

pub Links-frame :
    (f g : ℕ → Entry) (p q : ℕ) (xs : List ℕ)
    → Links f p xs q
    → ((i : ℕ) → has i xs ≡ true → SameLinks f g i)
    → Links g p xs q
Links-frame f g p q [] s same = tt
Links-frame f g p q (x ∷ xs) s same =
    let here = same x (ground arith) in
    (here.0 ∙ s.0, here.1 ∙ s.1, Links-frame f g x q xs s.2 (λ i h. same i (ground arith)))

pub has-last : (x : ℕ) (xs : List ℕ) → has (last x xs) (x ∷ xs) ≡ true
has-last x [] = ground arith
has-last x (y ∷ ys) = ground (arith, has-last y ys)

pub ne_of_has : (a b : ℕ) (xs : List ℕ) → has a xs ≡ true → has b xs ≡ false → (a == b) ≡ false
ne_of_has a b xs inside out = ground arith

pub ne_of_not_has : (a b : ℕ) (xs : List ℕ) → has a xs ≡ false → has b xs ≡ true → (a == b) ≡ false
ne_of_not_has a b xs out inside = ground arith

pub not_has_cons :
    (i x : ℕ) (xs : List ℕ) → has i (x ∷ xs) ≡ false → ((x == i) ≡ false) × (has i xs ≡ false)
not_has_cons i x xs h = ground arith

pub has_head : (x : ℕ) (xs : List ℕ) → has x (x ∷ xs) ≡ true
has_head x xs = ground arith

pub has_tail : (a x : ℕ) (xs : List ℕ) → has a xs ≡ true → has a (x ∷ xs) ≡ true
has_tail a x xs h = ground arith

-- an entry behind the last one
pub Links-append :
    (f g : ℕ → Entry) (e q q' p : ℕ) (xs : List ℕ)
    → Links f p xs q
    → IsDistinct xs
    → (g e).prev ≡ last p xs
    → (g e).next ≡ q'
    → ((i : ℕ)
        → has i xs ≡ true
        → ((g i).prev ≡ (f i).prev) × ((g i).next ≡ (if last p xs == i then e else (f i).next)))
    → Links g p (xs ++ (e ∷ [])) q'
Links-append f g e q q' p [] s d hp hn same = (hp, hn, tt)
Links-append f g e q q' p (x ∷ []) s d hp hn same = ground (arith, same x)
Links-append f g e q q' p (x ∷ y ∷ ys) s d hp hn same =
    let here = same x (has_head x (y ∷ ys)) in
    let inner : (last y ys == x) ≡ false = ne_of_has (last y ys) x (y ∷ ys) (has-last y ys) d.0 in
    (
      here.0 ∙ s.0,
      here.1 ∙ rw inner s.1,
      Links-append f g e q q' x (y ∷ ys) s.2 d.1 hp hn (λ i h. same i (has_tail i x (y ∷ ys) h)),
    )

-- an entry in front of the first one
pub Links-cons :
    (f g : ℕ → Entry) (e p q : ℕ) (xs : List ℕ)
    → Links f p xs q
    → IsDistinct xs
    → (g e).prev ≡ p
    → (g e).next ≡ first xs q
    → ((i : ℕ)
        → has i xs ≡ true
        → ((g i).next ≡ (f i).next) × ((g i).prev ≡ (if first xs q == i then e else (f i).prev)))
    → Links g p (e ∷ xs) q
Links-cons f g e p q [] s d hp hn same = (hp, hn, tt)
Links-cons f g e p q (x ∷ xs) s d hp hn same =
    let here = same x (has_head x xs) in
    (
      hp,
      hn,
      (
        ground (arith, here),
        here.0 ∙ s.1,
        Links-frame f g x q xs s.2 (λ i h. ground (arith, same i, ne_of_has i x xs)),
      ),
    )

-- Where the links of a member lead.
pub prev-in :
    (f : ℕ → Entry) (e p q : ℕ) (xs : List ℕ)
    → Links f p xs q
    → has e xs ≡ true
    → (((f e).prev == p) || has (f e).prev xs) ≡ true
prev-in f e p q [] s h = ground arith
prev-in f e p q (x ∷ xs) s h = ground (arith, prev-in f e x q xs s.2)

pub next-in :
    (f : ℕ → Entry) (e p q : ℕ) (xs : List ℕ)
    → Links f p xs q
    → has e xs ≡ true
    → (((f e).next == q) || has (f e).next xs) ≡ true
next-in f e p q [] s h = ground arith
next-in f e p q (x ∷ []) s h = ground arith
next-in f e p q (x ∷ y ∷ ys) s h = ground (arith, next-in f e x q (y ∷ ys) s.2)

pub not_head :
    (a x q : ℕ) (xs : List ℕ)
    → ((a == q) || has a xs) ≡ true
    → has x xs ≡ false
    → has q (x ∷ xs) ≡ false
    → (a == x) ≡ false
not_head a x q xs inside out apart = ground arith

pick : (a b u v w : ℕ) → a ≡ b → u ≡ v → v ≡ (if a == b then u else w)
pick a b u v w h k = ground arith

pub first-without :
    (f : ℕ → Entry) (e p q : ℕ) (xs : List ℕ)
    → Links f p xs q
    → has e xs ≡ true
    → has p xs ≡ false
    → first (without e xs) q ≡ (if (f e).prev == p then (f e).next else first xs q)
first-without f e p q [] s h hp = ground arith
first-without f e p q (x ∷ xs) s h hp = elim (Bool-cases (e == x)) [
  | inl at ↦
      let e' : e ≡ x = (==_iff e x).0 at in
      rw at (pick (f e).prev p (f e).next (first xs q) x (rw e' s.0) (rw e' s.1))
  | inr away ↦
      let inside : has e xs ≡ true = rw away at h in
      let ne : ((f e).prev == p) ≡ false =
        ne_of_has (f e).prev p (x ∷ xs) (prev-in f e x q xs s.2 inside) hp in
      rw (away, ne)
]

pub last-without :
    (f : ℕ → Entry) (e p q : ℕ) (xs : List ℕ)
    → Links f p xs q
    → IsDistinct xs
    → has e xs ≡ true
    → has q xs ≡ false
    → last p (without e xs) ≡ (if (f e).next == q then (f e).prev else last p xs)
last-without f e p q [] s d h hq = ground arith
last-without f e p q (x ∷ []) s d h hq = ground arith
last-without f e p q (x ∷ y ∷ ys) s d h hq = elim (Bool-cases (e == x)) [
  | inl at ↦
      let e' : e ≡ x = (==_iff e x).0 at in
      let next_at : (f e).next ≡ y = rw e' s.1 in
      let ne : ((f e).next == q) ≡ false =
        rw next_at (ne_of_has y q (y ∷ ys) (has_head y ys) (ground arith)) in
      rw (at, ne)
  | inr away ↦
      let inside : has e (y ∷ ys) ≡ true = rw away at h in
      rw away (last-without f e x q (y ∷ ys) s.2 d.1 inside (ground arith))
]

-- The entries behind one that is taken out.
Links-relink :
    (f g : ℕ → Entry) (x p q : ℕ) (xs : List ℕ)
    → Links f x xs q
    → IsDistinct xs
    → ((i : ℕ)
        → has i xs ≡ true
        → ((g i).prev ≡ (if first xs q == i then p else (f i).prev)) × ((g i).next ≡ (f i).next))
    → Links g p xs q
Links-relink f g x p q [] s d same = tt
Links-relink f g x p q (y ∷ ys) s d same =
    let here = same y (has_head y ys) in
    (
      ground (arith, here),
      here.1 ∙ s.1,
      Links-frame f g y q ys s.2 (λ i h. ground (arith, same i, ne_of_has i y ys)),
    )

-- Taking a member out: its neighbours come to point at one another.
pub Links-without :
    (f g : ℕ → Entry) (e p q : ℕ) (xs : List ℕ)
    → Links f p xs q
    → IsDistinct xs
    → has e xs ≡ true
    → has p xs ≡ false
    → has q xs ≡ false
    → ((i : ℕ)
        → has i xs ≡ true
        → (i == e) ≡ false
        → ((g i).prev ≡ (if (f e).next == i then (f e).prev else (f i).prev))
          × ((g i).next ≡ (if (f e).prev == i then (f e).next else (f i).next)))
    → Links g p (without e xs) q
Links-without f g e p q [] s d h hp hq same = tt
Links-without f g e p q (x ∷ xs) s d h hp hq same = elim (Bool-cases (e == x)) [
  | inl at ↦
      let e' : e ≡ x = (==_iff e x).0 at in
      let prev_at : (f e).prev ≡ p = rw e' s.0 in
      let next_at : (f e).next ≡ first xs q = rw e' s.1 in
      rw at (
        Links-relink f g x p q xs s.2 d.1 (λ i k.
          let old = same i (has_tail i x xs k) (rw e' (ne_of_has i x xs k d.0)) in
          let ne : (p == i) ≡ false = ground (arith, ne_of_has i p (x ∷ xs)) in
          (rw (← next_at, ← prev_at) old.0, old.1 ∙ rw (prev_at, ne))))
  | inr away ↦
      let inside : has e xs ≡ true = rw away at h in
      let here = same x (has_head x xs) (ground arith) in
      let ne : ((f e).next == x) ≡ false =
        not_head (f e).next x q xs (next-in f e x q xs s.2 inside) d.0 hq in
      rw away (
        here.0 ∙ rw ne s.0,
        here.1 ∙ (rw s.1 (sym (first-without f e x q xs s.2 inside d.0))),
        Links-without f g e x q xs s.2 d.1 inside d.0 (ground arith)
            (λ i k. same i (has_tail i x xs k)),
      )
]
