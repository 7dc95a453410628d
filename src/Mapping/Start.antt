-- ===== src/Mapping/Start.antt =====
-- `init_mapping`: every cache block is free.
use user_level_ssd_cache_fra.Common.{
  ℕ, zero, suc, ◌+◌, ◌<◌, ◌≤◌, ◌≡◌, ◌≢◌, ◌∙◌, refl, sym, ap, subst, true, false, ◌&&◌, List, [],
  ◌∷◌, ◌++◌, arith, ◌==◌, ltb, leb, has, has-append, length, Bool-cases, inl, inr,
}
use user_level_ssd_cache_fra.Config.{cache_block_number}
use user_level_ssd_cache_fra.WorkQueue.Inv.{contents}
use user_level_ssd_cache_fra.WorkQueue.Inv
use user_level_ssd_cache_fra.Entry.{EntrySpace, alloc_es, indexer_null}
use user_level_ssd_cache_fra.Ilist.{Ilist, l_init, l_add_tail, inc}
use user_level_ssd_cache_fra.Ilist.Defs.{IsList, l_init-IsList}
use user_level_ssd_cache_fra.Ilist.Add.{l_add_tail-append}
use user_level_ssd_cache_fra.Alloc.{add_range, sub_unsigned, init_allocator}
use user_level_ssd_cache_fra.Mapping.{Mapping, init_mapping}
use user_level_ssd_cache_fra.Mapping.Shape.{View, Apart, Linked, Linked-trans, Linked-Relinked}
use user_level_ssd_cache_fra.Mapping.Buckets.{alloc_hash_table-Buckets}
use user_level_ssd_cache_fra.Mapping.Status.{status, status-Linked}
use user_level_ssd_cache_fra.Mapping.Inv.{idle, Placed, IsMapping}

-- the indices from `i` on
abbrev pub range : ℕ → ℕ → List ℕ
range zero i = []
range (suc n) i = i ∷ range n (i + 1)

has-range : (n i j : ℕ) → has j (range n i) ≡ (leb i j && ltb j (i + n))
has-range zero i j = ground arith
has-range (suc n) i j = ground (arith, has-range n (i + 1) j)

length-range : (n i : ℕ) → length (range n i) ≡ n
length-range zero i = refl
length-range (suc n) i = omega (arith, length-range n (i + 1))

append-snoc : (xs : List ℕ) (x : ℕ) (ys : List ℕ) → (xs ++ (x ∷ [])) ++ ys ≡ xs ++ (x ∷ ys)
append-snoc [] x ys = refl
append-snoc (y ∷ xs) x ys = ap (λ k. y ∷ k) (append-snoc xs x ys)

append-nil : (xs : List ℕ) → xs ++ [] ≡ xs
append-nil [] = refl
append-nil (x ∷ xs) = ap (λ k. x ∷ k) (append-nil xs)

below-snoc :
    (i : ℕ) (xs : List ℕ)
    → ((j : ℕ) → has j xs ≡ true → j < i)
    → (j : ℕ) → has j (xs ++ (i ∷ [])) ≡ true
    → j < i + 1
below-snoc i xs below j h = elim (Bool-cases (has j xs)) [
  | inl inside ↦ omega (arith, below j inside)
  | inr outside ↦ ground (arith, has-append j xs (i ∷ []))
]

-- The loop appends the indices from `i` on, and changes links alone.
add_range-append :
    (n i : ℕ) (es : EntrySpace) (l : Ilist) (xs : List ℕ)
    → IsList es l xs
    → ((j : ℕ) → has j xs ≡ true → j < i)
    → i + n ≤ indexer_null
    → let (es', l') = add_range n i es l in IsList es' l' (xs ++ range n i) × Linked es es'
unfolding add_range
add_range-append zero i es l xs v below fits = (
  subst (IsList es l) (sym (append-nil xs)) v,
  λ j. record { param = refl; name = refl; index = refl },
)
add_range-append (suc n) i es l xs v below fits =
    let out : has i xs ≡ false = elim (Bool-cases (has i xs)) [
      | inl inside ↦ absurd (omega (arith, below i inside))
      | inr outside ↦ outside
    ] in
    let (v₁, r) = l_add_tail-append i v out (omega arith) in
    let es₁ = (l_add_tail es l i).0 in
    let l₁ = (l_add_tail es l i).1 in
    let next : inc i ≡ i + 1 = omega arith in
    let (v', linked) =
      add_range-append n (i + 1) es₁ l₁ (xs ++ (i ∷ [])) v₁ (below-snoc i xs below) (omega arith) in
    subst
      (λ k.
        IsList (add_range n k es₁ l₁).0 (add_range n k es₁ l₁).1 (xs ++ (i ∷ range n (i + 1)))
        × Linked es (add_range n k es₁ l₁).0)
      (sym next)
      (
        subst (IsList (add_range n (i + 1) es₁ l₁).0 (add_range n (i + 1) es₁ l₁).1)
            (append-snoc xs i (range n (i + 1))) v',
        Linked-trans es es₁ (add_range n (i + 1) es₁ l₁).0 (Linked-Relinked (i ∷ xs) r) linked,
      )

-- a cache whose blocks are all free
abbrev pub fresh_view : ℕ → View
fresh_view num = record { free = range num 0; clean = []; dirty = []; tabled = λ _. false }

fresh-Apart : (num : ℕ) → Apart (fresh_view num)
fresh-Apart num i = ground arith

fresh-Placed : (num i : ℕ) → Placed num (false, false, false) (fresh_view num) idle i
fresh-Placed num i = record {
  pending = refl;
  free = ground (arith, has-range num 0 i);
  clean = refl;
  dirty = refl;
  tabled = refl;
  inside = refl;
  held = refl;
}

-- On zeroed memory with an empty queue, `init_mapping` for a block size that is not zero and for as
-- many cache blocks as there can be returns 0. It makes every cache block free, in order, and leaves
-- nothing in the table; the invariant holds, with the worker between two requests.
pub init_mapping-IsMapping :
    (m : Mapping) (block_size num : ℕ)
    → ((i : ℕ) → status m.es i ≡ (false, false, false))
    → Inv.IsValid m.wq
    → contents m.wq ≡ []
    → block_size ≢ 0
    → num ≢ 0
    → num ≤ cache_block_number
    → ((init_mapping m block_size num).0 ≡ 0)
      × IsMapping (init_mapping m block_size num).1 (fresh_view num) idle
unfolding init_mapping init_allocator alloc_es
init_mapping-IsMapping m block_size num zeroed valid empty some_size some_blocks few =
    let size_at : (block_size == 0) ≡ false = ground arith in
    let num_at : (num == 0) ≡ false = ground arith in
    let rounds : sub_unsigned num 0 ≡ num = omega arith in
    let (v, linked) =
      add_range-append num 0 (alloc_es m.es) (l_init m.ea.free) []
        (l_init-IsList (alloc_es m.es) m.ea.free) (λ j h. ground arith) (omega arith) in
    rw (size_at, num_at, rounds)
      (
        refl,
        record {
          shape = record {
            free = v;
            clean = l_init-IsList _ m.clean;
            dirty = l_init-IsList _ m.dirty;
            apart = fresh-Apart num;
            buckets = alloc_hash_table-Buckets m.table _;
          };
          placed = λ i.
              let st =
                status-Linked (alloc_es m.es) (add_range num 0 (alloc_es m.es) (l_init m.ea.free)).0
                  i linked
                ∙ zeroed i in
              rw st (fresh-Placed num i);
          num = few;
          begin = refl;
          allocated = omega (arith, length-range num 0);
          queued = record { valid = valid; distinct = rw empty tt; absent = rw empty tt; job = tt };
        },
      )
