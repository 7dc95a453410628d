-- ===== src/HashTable/Chain.antt =====
-- Chains of entries along `hash_next`.
use user_level_ssd_cache_fra.Common.{
  if_self, ℕ, zero, suc, ◌<◌, ◌≡◌, sym, ap, subst, ◌∙◌, inl, inr, Bool-cases, ==_iff, true, false,
  Option, none, some, List, [], ◌∷◌, arith, ◌==◌, if◌then◌else◌, has, IsDistinct, without, length,
  Text,
}
use user_level_ssd_cache_fra.Entry.{Entry, EntrySpace, indexer_null, to_entry}
use user_level_ssd_cache_fra.HashTable.{has_key, walk}
use user_level_ssd_cache_fra.Ilist.Seg.{ne_of_has, ne_of_not_has, has_head, has_tail}

-- From index `b` the `hash_next` fields lead through the entries of the list to the null index.
abbrev pub Chain : (ℕ → Entry) → ℕ → List ℕ → Type 0
Chain f b [] = b ≡ indexer_null
Chain f b (x ∷ xs) = (b ≡ x) × Chain f (f x).hash_next xs

pub Chain-frame :
    (f g : ℕ → Entry) (b : ℕ) (xs : List ℕ)
    → Chain f b xs
    → ((i : ℕ) → has i xs ≡ true → (g i).hash_next ≡ (f i).hash_next)
    → Chain g b xs
Chain-frame f g b [] c same = c
Chain-frame f g b (x ∷ xs) c same = (
  c.0,
  rw (same x (has_head x xs))
      (Chain-frame f g (f x).hash_next xs c.1 (λ i h. same i (has_tail i x xs h))),
)

-- the first entry of the list with the key, and the one before it
abbrev pub seek : (ℕ → Entry) → Text → ℕ → Option ℕ → List ℕ → Option ℕ × Option ℕ
seek f name index prev [] = (none, prev)
seek f name index prev (x ∷ xs) =
    if has_key name index (f x) then (some x, prev) else seek f name index (some x) xs

to_entry_at : (i : ℕ) → i < indexer_null → to_entry i ≡ some i
to_entry_at i h = ground arith

-- The loop of `__h_lookup` ends on a chain, and finds what is first in it.
pub walk-seek :
    (es : EntrySpace) (name : Text) (index fuel : ℕ) (prev : Option ℕ) (b : ℕ) (xs : List ℕ)
    → Chain es.entrys b xs
    → ((i : ℕ) → has i xs ≡ true → i < indexer_null)
    → length xs < fuel
    → walk fuel es name index prev (to_entry b) ≡ some (seek es.entrys name index prev xs)
unfolding walk
walk-seek es name index zero prev b xs c inside enough = absurd (omega arith)
walk-seek es name index (suc fuel) prev b [] c inside enough = rw c
walk-seek es name index (suc fuel) prev b (x ∷ xs) c inside enough =
    rw (c.0, to_entry_at x (inside x (has_head x xs)))
      (ground (
        arith,
        walk-seek es name index fuel (some x) (es.entrys x).hash_next xs c.1
            (λ i h. inside i (has_tail i x xs h)) (omega arith),
      ))

-- the entry before `e` in the list `x ∷ xs`, where `e` is not `x`
abbrev pub pred : ℕ → ℕ → List ℕ → ℕ
pred e x [] = x
pred e x (y ∷ ys) = if e == y then x else pred e y ys

pub has-pred : (e x : ℕ) (xs : List ℕ) → has (pred e x xs) (x ∷ xs) ≡ true
has-pred e x [] = ground arith
has-pred e x (y ∷ ys) = ground (arith, has-pred e y ys)

-- Where the entry before `e` is made to point behind `e`, the chain goes round `e`.
pub Chain-without :
    (f g : ℕ → Entry) (e x : ℕ) (xs : List ℕ)
    → Chain f (f x).hash_next xs
    → IsDistinct (x ∷ xs)
    → has e xs ≡ true
    → ((i : ℕ)
        → has i (x ∷ xs) ≡ true
        → (g i).hash_next ≡ (if pred e x xs == i then (f e).hash_next else (f i).hash_next))
    → Chain g (g x).hash_next (without e xs)
Chain-without f g e x [] c d inside same = ground arith
Chain-without f g e x (y ∷ ys) c d inside same = elim (Bool-cases (e == y)) [
  | inl hit ↦
      let e' : e ≡ y = (==_iff e y).0 hit in
      let here : (g x).hash_next ≡ (f y).hash_next =
        rw hit at (same x (has_head x (y ∷ ys))) ∙ if_self x _ _ ∙ rw e' in
      rw (hit, here)
        (Chain-frame f g (f y).hash_next ys c.1 (λ i h.
          let inner = has_tail i y ys h in
          rw (hit, ne_of_not_has x i (y ∷ ys) d.0 inner) at (same i (has_tail i x (y ∷ ys) inner))))
  | inr miss ↦
      let apart = ne_of_has (pred e y ys) x (y ∷ ys) (has-pred e y ys) d.0 in
      rw miss (
        rw (miss, apart) at (same x (has_head x (y ∷ ys))) ∙ c.0,
        Chain-without f g e y ys c.1 d.1 (rw miss at inside)
            (λ i h. rw miss at (same i (has_tail i x (y ∷ ys) h))),
      )
]

pub pair_parts :
    (x : ℕ) (prev : Option ℕ) {e : ℕ} {p : Option ℕ}
    → ◌≡◌ {A = Option ℕ × Option ℕ} (some x, prev) (some e, p)
    → (e ≡ x) × (p ≡ prev)
pair_parts x prev h = (cc, cc)

none_is_not_found :
    {x : ℕ} {p q : Option ℕ} → ¬ (◌≡◌ {A = Option ℕ × Option ℕ} (some x, p) (none, q))
none_is_not_found h = cc

-- What a successful search says: the entry is in the list and has the key, and `prev` is the entry
-- before it. What a failure says: no entry of the list has the key.
pub seek-some :
    (f : ℕ → Entry) (name : Text) (index : ℕ) (prev : Option ℕ) (xs : List ℕ) {e : ℕ} {p : Option ℕ}
    → seek f name index prev xs ≡ (some e, p)
    → (has e xs ≡ true) × (has_key name index (f e) ≡ true)
seek-some f name index prev [] h = cc
seek-some f name index prev (x ∷ xs) h = elim (Bool-cases (has_key name index (f x))) [
  | inl hit ↦
      let (e_at, _) = pair_parts x prev (rw hit at h) in
      (
        subst (λ k. has k (x ∷ xs) ≡ true) (sym e_at) (has_head x xs),
        subst (λ k. has_key name index (f k) ≡ true) (sym e_at) hit,
      )
  | inr miss ↦
      let (inside, key) = seek-some f name index (some x) xs (rw miss at h) in
      (has_tail _ x xs inside, key)
]

pub seek-none :
    (f : ℕ → Entry) (name : Text) (index : ℕ) (prev : Option ℕ) (xs : List ℕ) {p : Option ℕ}
    → seek f name index prev xs ≡ (none, p)
    → (i : ℕ) → has i xs ≡ true
    → has_key name index (f i) ≡ false
seek-none f name index prev [] h i inside = cc
seek-none f name index prev (x ∷ xs) h i inside = elim (Bool-cases (has_key name index (f x))) [
  | inl hit ↦ absurd (none_is_not_found (rw hit at h))
  | inr miss ↦
      let later = seek-none f name index (some x) xs (rw miss at h) i in
      elim (Bool-cases (i == x)) [
        | inl same ↦ let e : i ≡ x = (==_iff i x).0 same in rw e miss
        | inr other ↦ later (rw other at inside)
      ]
]

-- Behind the first entry of a list the search always has a `prev`, that of `pred`.
pub seek-pred :
    (f : ℕ → Entry) (name : Text) (index x : ℕ) (xs : List ℕ) {e : ℕ} {p : Option ℕ}
    → IsDistinct xs
    → seek f name index (some x) xs ≡ (some e, p)
    → p ≡ some (pred e x xs)
seek-pred f name index x [] d h = cc
seek-pred f name index x (y ∷ ys) d h = elim (Bool-cases (has_key name index (f y))) [
  | inl hit ↦
      let (e_at, p_at) = pair_parts y (some x) (rw hit at h) in
      p_at ∙ rw e_at (sym (ap some (if_self y x _)))
  | inr miss ↦
      let later = rw miss at h in
      let inside = (seek-some f name index (some y) ys later).0 in
      rw (ne_of_has _ y ys inside d.0) (seek-pred f name index y ys d.1 later)
]
