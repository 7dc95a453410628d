-- ===== src/Ilist/Del.antt =====
-- `l_del` takes an entry out of a list, `l_pop_head` the first one.
use user_level_ssd_cache_fra.Common.{
  ℕ, ◌≡◌, sym, ap, subst, true, false, none, some, inl, inr, Bool-cases, List, [], ◌∷◌, arith, has,
  without, has-without, without-IsDistinct, length-without, ◌∙◌, ◌||◌, ◌==◌, if◌then◌else◌,
}
use user_level_ssd_cache_fra.Entry.{EntrySpace, indexer_null, set_next, set_prev}
use user_level_ssd_cache_fra.Entry.Fields.{link_fields}
use user_level_ssd_cache_fra.Ilist.{Ilist, l_del, l_pop_head, dec}
use user_level_ssd_cache_fra.Ilist.Seg.{
  Links-without, first-without, last-without, prev-in, next-in, has_head, ne_of_has, ne_of_not_has,
}
use user_level_ssd_cache_fra.Ilist.Defs.{
  IsList, Relinked, SameButLinks, SameButLinks-refl, not-has-null,
}

-- The entries after `l_del`, by field: `prev` and `next` are the links of the entry taken out, as
-- they stood before.
record Unlinked (es es' : EntrySpace) (prev next : ℕ) : Type 0 where
  body : (i : ℕ) → SameButLinks (es.entrys i) (es'.entrys i)
  prevs :
      (i : ℕ)
      → (es'.entrys i).prev ≡ (
          if next == indexer_null
          then (es.entrys i).prev
          else (if next == i then prev else (es.entrys i).prev))
  nexts :
      (i : ℕ)
      → (es'.entrys i).next ≡ (
          if prev == indexer_null
          then (es.entrys i).next
          else (if prev == i then next else (es.entrys i).next))

-- The four branches: which neighbours there are.
l_del-only :
    (es : EntrySpace) (l : Ilist) (e : ℕ)
    → ((es.entrys e).prev == indexer_null) ≡ true
    → ((es.entrys e).next == indexer_null) ≡ true
    → l_del es l e ≡ (
      es,
      record { head = (es.entrys e).next; tail = (es.entrys e).prev; nr_elts = dec l.nr_elts },
    )
unfolding l_del
l_del-only es l e p n = rw (p, n, l_del)

l_del-first :
    (es : EntrySpace) (l : Ilist) (e : ℕ)
    → ((es.entrys e).prev == indexer_null) ≡ true
    → ((es.entrys e).next == indexer_null) ≡ false
    → l_del es l e ≡ (
      set_prev es (es.entrys e).next (es.entrys e).prev,
      record l { head = (es.entrys e).next; nr_elts = dec l.nr_elts },
    )
unfolding l_del
l_del-first es l e p n = rw (p, n, l_del)

l_del-last :
    (es : EntrySpace) (l : Ilist) (e : ℕ)
    → ((es.entrys e).prev == indexer_null) ≡ false
    → ((es.entrys e).next == indexer_null) ≡ true
    → l_del es l e ≡ (
      set_next es (es.entrys e).prev (es.entrys e).next,
      record l { tail = (es.entrys e).prev; nr_elts = dec l.nr_elts },
    )
unfolding l_del
l_del-last es l e p n = rw (p, n, l_del) (simp link_fields)

l_del-inner :
    (es : EntrySpace) (l : Ilist) (e : ℕ)
    → ((es.entrys e).prev == indexer_null) ≡ false
    → ((es.entrys e).next == indexer_null) ≡ false
    → l_del es l e ≡ (
      set_prev
          (set_next es (es.entrys e).prev (es.entrys e).next)
          (es.entrys e).next
          (es.entrys e).prev,
      record l { nr_elts = dec l.nr_elts },
    )
unfolding l_del
l_del-inner es l e p n = rw (p, n, l_del) (simp link_fields)

-- What `l_del` does to the links and to the list, on all four branches.
l_del-Unlinked :
    (es : EntrySpace) (l : Ilist) (e : ℕ)
    → let prev = (es.entrys e).prev in
      let next = (es.entrys e).next in
      let (es', l') = l_del es l e in
      Unlinked es es' prev next
      × (l' ≡ record {
        head = if prev == indexer_null then next else l.head;
        tail = if next == indexer_null then prev else l.tail;
        nr_elts = dec l.nr_elts;
      })
l_del-Unlinked es l e = elim (Bool-cases ((es.entrys e).prev == indexer_null)) [
  | inl p ↦ elim (Bool-cases ((es.entrys e).next == indexer_null)) [
    | inl n ↦ rw (l_del-only es l e p n) (
      record { body = λ i. SameButLinks-refl _; prevs = λ i. rw n; nexts = λ i. rw p },
      rw (p, n),
    )
    | inr n ↦ rw (l_del-first es l e p n) (
      record {
        body = λ i. record {
          hash_next = simp link_fields;
          param = simp link_fields;
          name = simp link_fields;
          index = simp link_fields;
        };
        prevs = λ i. rw n (simp link_fields);
        nexts = λ i. rw p (simp link_fields);
      },
      rw (p, n),
    )
  ]
  | inr p ↦ elim (Bool-cases ((es.entrys e).next == indexer_null)) [
    | inl n ↦ rw (l_del-last es l e p n) (
      record {
        body = λ i. record {
          hash_next = simp link_fields;
          param = simp link_fields;
          name = simp link_fields;
          index = simp link_fields;
        };
        prevs = λ i. rw n (simp link_fields);
        nexts = λ i. rw p (simp link_fields);
      },
      rw (p, n),
    )
    | inr n ↦ rw (l_del-inner es l e p n) (
      record {
        body = λ i. record {
          hash_next = simp link_fields;
          param = simp link_fields;
          name = simp link_fields;
          index = simp link_fields;
        };
        prevs = λ i. rw n (simp link_fields);
        nexts = λ i. rw p (simp link_fields);
      },
      rw (p, n),
    )
  ]
]

-- No entry of the list stands at the null index.
skip_null :
    (n i a b : ℕ)
    → (indexer_null == i) ≡ false
    → (if n == indexer_null then b else (if n == i then a else b)) ≡ (if n == i then a else b)
skip_null n i a b ne = ground arith

-- A link of a member leads to no entry outside the list.
spare :
    (n i a b : ℕ) (xs : List ℕ)
    → ((n == indexer_null) || has n xs) ≡ true
    → has i xs ≡ false
    → (if n == indexer_null then b else (if n == i then a else b)) ≡ b
spare n i a b xs led out = elim (Bool-cases (n == indexer_null)) [
  | inl at ↦ rw at
  | inr away ↦ rw (away, ne_of_has n i xs (rw away at led) out)
]

-- `l_del` of a member of a list gives the list without it, and changes nothing but list links of
-- the list's entries.
pub l_del-without :
    {es : EntrySpace} {l : Ilist} {xs : List ℕ} (e : ℕ)
    → IsList es l xs
    → has e xs ≡ true
    → let (es', l') = l_del es l e in IsList es' l' (without e xs) × Relinked xs es es'
l_del-without {es} {l} {xs} e v inside =
    let (u, l_eq) = l_del-Unlinked es l e in
    let null_out = not-has-null v in
    rw l_eq (
      record {
        links =
            Links-without es.entrys (l_del es l e).0.entrys e indexer_null indexer_null xs v.links
              v.distinct inside null_out null_out
              (λ i h ne. (
                u.prevs i ∙ skip_null _ i _ _ (ne_of_not_has indexer_null i xs null_out h),
                u.nexts i ∙ skip_null _ i _ _ (ne_of_not_has indexer_null i xs null_out h),
              ));
        head_at =
            rw v.head_at (
              sym (first-without es.entrys e indexer_null indexer_null xs v.links inside null_out));
        tail_at = rw v.tail_at (
            sym (
              last-without es.entrys e indexer_null indexer_null xs v.links v.distinct inside
                null_out));
        count = ground (arith, v.count, length-without e xs inside);
        distinct = without-IsDistinct e xs v.distinct;
        inside = λ i h. v.inside i (ground (arith, has-without e i xs v.distinct));
      },
      record {
        body = u.body;
        others = λ i out. (
          u.prevs i
              ∙ spare _ i _ _ xs (next-in es.entrys e indexer_null indexer_null xs v.links inside)
                  out,
          u.nexts i
              ∙ spare _ i _ _ xs (prev-in es.entrys e indexer_null indexer_null xs v.links inside)
                  out,
        );
      },
    )

without_head : (x : ℕ) (xs : List ℕ) → without x (x ∷ xs) ≡ xs
without_head x xs = ground arith

-- Of a list that is not empty `l_pop_head` gives the first entry and leaves the rest, and it
-- changes nothing but list links of the list.
pub l_pop_head-cons :
    {es : EntrySpace} {l : Ilist} {x : ℕ} {xs : List ℕ}
    → IsList es l (x ∷ xs)
    → let (e, es', l') = l_pop_head es l in
      (e ≡ some x) × IsList es' l' xs × Relinked (x ∷ xs) es es'
unfolding l_pop_head
l_pop_head-cons {es} {l} {x} {xs} v =
    let head_ne : (l.head == indexer_null) ≡ false =
      rw v.head_at (ne_of_has x indexer_null (x ∷ xs) (has_head x xs) (not-has-null v)) in
    let pops : l_pop_head es l ≡ (some l.head, (l_del es l l.head).0, (l_del es l l.head).1) =
      rw (head_ne, l_pop_head) in
    let (rest, others) =
      subst
        (λ k. IsList (l_del es l k).0 (l_del es l k).1 xs × Relinked (x ∷ xs) es (l_del es l k).0)
        (sym v.head_at) (rw (without_head x xs) at (l_del-without x v (has_head x xs))) in
    rw pops (ap some v.head_at, rest, others)

pub l_pop_head-nil :
    {es : EntrySpace} {l : Ilist} → IsList es l [] → l_pop_head es l ≡ (none, es, l)
unfolding l_pop_head
l_pop_head-nil {es} {l} v =
    let head_null : (l.head == indexer_null) ≡ true = rw v.head_at in rw (head_null, l_pop_head)
