-- ===== src/Ilist/Add.antt =====
-- Appending an entry below the null index that is not in the list gives the longer list, and
-- changes nothing but list links of the entry and of the list.
use user_level_ssd_cache_fra.Common.{
  ℕ, ◌<◌, ◌≡◌, refl, sym, true, false, List, [], ◌∷◌, ◌++◌, arith, has, ◌==◌, has-append,
  append-IsDistinct, length-append,
}
use user_level_ssd_cache_fra.Entry.{EntrySpace, indexer_null, set_next, set_prev}
use user_level_ssd_cache_fra.Entry.Fields.{link_fields}
use user_level_ssd_cache_fra.Ilist.{Ilist, l_add_head, l_add_tail, inc}
use user_level_ssd_cache_fra.Ilist.Seg.{
  last, Links-append, Links-cons, has-last, has_head, ne_of_has, ne_of_not_has, not_has_cons,
}
use user_level_ssd_cache_fra.Ilist.Defs.{IsList, Relinked, not-has-null}

last-null :
    {es : EntrySpace} {l : Ilist} {x : ℕ} {xs : List ℕ}
    → IsList es l (x ∷ xs)
    → (last x xs == indexer_null) ≡ false
last-null {x} {xs} v = ne_of_has (last x xs) indexer_null (x ∷ xs) (has-last x xs) (not-has-null v)

last-append : (p e : ℕ) (xs : List ℕ) → last p (xs ++ (e ∷ [])) ≡ e
last-append p e [] = refl
last-append p e (x ∷ xs) = last-append x e xs

inside-append :
    (e : ℕ) (xs : List ℕ)
    → e < indexer_null
    → ((i : ℕ) → has i xs ≡ true → i < indexer_null)
    → (i : ℕ) → has i (xs ++ (e ∷ [])) ≡ true
    → i < indexer_null
inside-append e xs he inside i h = ground (arith, inside i, has-append i xs (e ∷ []))

-- `l_add_tail` by its two branches, with the test of the tail made.
l_add_tail-some :
    (es : EntrySpace) (l : Ilist) (e : ℕ)
    → (l.tail == indexer_null) ≡ false
    → l_add_tail es l e ≡ (
      set_next (set_prev (set_next es e indexer_null) e l.tail) l.tail e,
      record l { tail = e; nr_elts = inc l.nr_elts },
    )
unfolding l_add_tail
l_add_tail-some es l e h = rw (h, l_add_tail)

l_add_tail-none :
    (es : EntrySpace) (l : Ilist) (e : ℕ)
    → (l.tail == indexer_null) ≡ true
    → l_add_tail es l e ≡ (
      set_prev (set_next es e indexer_null) e l.tail,
      record { head = e; tail = e; nr_elts = inc l.nr_elts },
    )
unfolding l_add_tail
l_add_tail-none es l e h = rw (h, l_add_tail)

-- `l_add_tail` of an entry that is not in the list, and is not the null index, gives the list with
-- the entry at its end, and changes nothing but list links of the entry and of the list.
pub l_add_tail-append :
    {es : EntrySpace} {l : Ilist} {xs : List ℕ} (e : ℕ)
    → IsList es l xs
    → has e xs ≡ false
    → e < indexer_null
    → let (es', l') = l_add_tail es l e in IsList es' l' (xs ++ (e ∷ [])) × Relinked (e ∷ xs) es es'
l_add_tail-append {es} {l} {xs = []} e v out he = rw (l_add_tail-none es l e (rw v.tail_at)) (
  record {
    links = simp link_fields (ground (arith, v.tail_at));
    head_at = refl;
    tail_at = refl;
    count = ground (arith, v.count);
    distinct = (refl, tt);
    inside = inside-append e [] he v.inside;
  },
  record {
    body = λ i. record {
      hash_next = simp link_fields;
      param = simp link_fields;
      name = simp link_fields;
      index = simp link_fields;
    };
    others = λ i h. simp link_fields (ground arith);
  },
)
l_add_tail-append {es} {l} {xs = x ∷ xs} e v out he =
    let tail_ne : (l.tail == indexer_null) ≡ false = rw (v.tail_at, last-null v) in
    let e_ne : (l.tail == e) ≡ false =
      rw v.tail_at (ne_of_has (last x xs) e (x ∷ xs) (has-last x xs) out) in
    let es' = set_next (set_prev (set_next es e indexer_null) e l.tail) l.tail e in
    rw (l_add_tail-some es l e tail_ne) (
      record {
        links =
            Links-append es.entrys es'.entrys e indexer_null indexer_null indexer_null (x ∷ xs)
              v.links v.distinct (simp link_fields (ground (arith, v.tail_at)))
              (simp link_fields (ground (arith, e_ne)))
              (λ i h.
                simp link_fields (rw (ne_of_not_has e i (x ∷ xs) out h, v.tail_at) (refl, refl)));
        head_at = v.head_at;
        tail_at = sym (last-append x e xs);
        count = ground (arith, v.count, length-append xs (e ∷ []));
        distinct = append-IsDistinct e (x ∷ xs) v.distinct out;
        inside = inside-append e (x ∷ xs) he v.inside;
      },
      record {
        body = λ i. record {
          hash_next = simp link_fields;
          param = simp link_fields;
          name = simp link_fields;
          index = simp link_fields;
        };
        others = λ i h.
            let (apart, outside) = not_has_cons i e (x ∷ xs) h in
            simp link_fields (
              rw (apart, v.tail_at, ne_of_has (last x xs) i (x ∷ xs) (has-last x xs) outside)
                (refl, refl));
      },
    )

l_add_head-some :
    (es : EntrySpace) (l : Ilist) (e : ℕ)
    → (l.head == indexer_null) ≡ false
    → l_add_head es l e ≡ (
      set_prev (set_prev (set_next es e l.head) e indexer_null) l.head e,
      record l { head = e; nr_elts = inc l.nr_elts },
    )
unfolding l_add_head
l_add_head-some es l e h = rw (h, l_add_head)

l_add_head-none :
    (es : EntrySpace) (l : Ilist) (e : ℕ)
    → (l.head == indexer_null) ≡ true
    → l_add_head es l e ≡ (
      set_prev (set_next es e l.head) e indexer_null,
      record { head = e; tail = e; nr_elts = inc l.nr_elts },
    )
unfolding l_add_head
l_add_head-none es l e h = rw (h, l_add_head)

-- The same in front of the list.
pub l_add_head-cons :
    {es : EntrySpace} {l : Ilist} {xs : List ℕ} (e : ℕ)
    → IsList es l xs
    → has e xs ≡ false
    → e < indexer_null
    → let (es', l') = l_add_head es l e in IsList es' l' (e ∷ xs) × Relinked (e ∷ xs) es es'
l_add_head-cons {es} {l} {xs = []} e v out he = rw (l_add_head-none es l e (rw v.head_at)) (
  record {
    links = simp link_fields (ground (arith, v.head_at));
    head_at = refl;
    tail_at = refl;
    count = ground (arith, v.count);
    distinct = (refl, tt);
    inside = inside-append e [] he v.inside;
  },
  record {
    body = λ i. record {
      hash_next = simp link_fields;
      param = simp link_fields;
      name = simp link_fields;
      index = simp link_fields;
    };
    others = λ i h. simp link_fields (ground arith);
  },
)
l_add_head-cons {es} {l} {xs = x ∷ xs} e v out he =
    let head_ne : (l.head == indexer_null) ≡ false =
      rw v.head_at (ne_of_has x indexer_null (x ∷ xs) (has_head x xs) (not-has-null v)) in
    let e_ne : (l.head == e) ≡ false = rw v.head_at (ne_of_has x e (x ∷ xs) (has_head x xs) out) in
    let es' = set_prev (set_prev (set_next es e l.head) e indexer_null) l.head e in
    rw (l_add_head-some es l e head_ne) (
      record {
        links =
            Links-cons es.entrys es'.entrys e indexer_null indexer_null (x ∷ xs) v.links v.distinct
              (simp link_fields (rw e_ne (ground arith)))
              (simp link_fields (ground (arith, v.head_at)))
              (λ i h.
                simp link_fields (rw (ne_of_not_has e i (x ∷ xs) out h, v.head_at) (refl, refl)));
        head_at = refl;
        tail_at = v.tail_at;
        count = ground (arith, v.count);
        distinct = (out, v.distinct);
        inside = λ i h. ground (arith, v.inside i);
      },
      record {
        body = λ i. record {
          hash_next = simp link_fields;
          param = simp link_fields;
          name = simp link_fields;
          index = simp link_fields;
        };
        others = λ i h.
            let (apart, outside) = not_has_cons i e (x ∷ xs) h in
            simp link_fields
              (rw (apart, v.head_at, ne_of_has x i (x ∷ xs) (has_head x xs) outside) (refl, refl));
      },
    )
