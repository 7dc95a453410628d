-- ===== src/HashTable/Steps.antt =====
-- `__h_insert` and `__h_unlink` keep the table.
use user_level_ssd_cache_fra.Common.{
  if_self, ℕ, ◌<◌, ◌≡◌, refl, sym, subst, ◌∙◌, ◌⊎◌, inl, inr, true, false, Bool-cases, ==_iff,
  Option, none, some, List, [], ◌∷◌, arith, ◌==◌, has, IsDistinct, without, has-without,
  without-IsDistinct, update,
}
use user_level_ssd_cache_fra.Config.{buckets_number, cache_block_number}
use user_level_ssd_cache_fra.Entry.{Entry, EntrySpace, set_hash_next}
use user_level_ssd_cache_fra.Entry.Fields.{link_fields}
use user_level_ssd_cache_fra.Ilist.Seg.{ne_of_has, ne_of_not_has}
use user_level_ssd_cache_fra.HashTable.{HashTable, bucket_of, insert_at, unlink_at}
use user_level_ssd_cache_fra.HashTable.Chain.{Chain, Chain-frame, Chain-without, pred, has-pred}
use user_level_ssd_cache_fra.HashTable.Table.{
  IsTable, SameKey, SameButHash, Rechained, Rechained-refl, one_chain,
}

-- A statement of every bucket, where one bucket has a new list.
pub by_bucket :
    (P : ℕ → List ℕ → Type 0) {chains : ℕ → List ℕ} (h : ℕ) (xs : List ℕ)
    → P h xs
    → ((k : ℕ) → (h == k) ≡ false → P k (chains k))
    → (k : ℕ) → P k (update chains h xs k)
by_bucket P h xs here there k = elim (Bool-cases (h == k)) [
  | inl hit ↦ rw hit (subst (λ k. P k xs) ((==_iff h k).0 hit) here)
  | inr miss ↦ rw miss (there k miss)
]

has_cons_cases : (i x : ℕ) (xs : List ℕ) → has i (x ∷ xs) ≡ true → (i ≡ x) ⊎ (has i xs ≡ true)
has_cons_cases i x xs h = elim (Bool-cases (i == x)) [
  | inl hit ↦ inl ((==_iff i x).0 hit)
  | inr miss ↦ inr (rw miss at h)
]

pub Rechained-set_hash_next : (es : EntrySpace) (e v : ℕ) → Rechained es (set_hash_next es e v)
Rechained-set_hash_next es e v i = record {
  prev = simp link_fields;
  next = simp link_fields;
  param = simp link_fields;
  name = simp link_fields;
  index = simp link_fields;
}

-- A change of chain links moves no entry to another bucket, and makes no keys equal.
pub bucket_of-Rechained :
    (ht : HashTable) {e e' : Entry} → SameButHash e e' → bucket_of ht e' ≡ bucket_of ht e
bucket_of-Rechained ht s = rw (s.name, s.index)

pub SameKey-Rechained :
    {e e' f f' : Entry} → SameButHash e e' → SameButHash f f' → SameKey e' f' → SameKey e f
SameKey-Rechained s r k = (sym s.name ∙ k.0 ∙ r.name, sym s.index ∙ k.1 ∙ r.index)

-- Putting an entry of a new key in front of its bucket keeps the table.
pub insert_at-cons :
    {ht : HashTable} {es : EntrySpace} {chains : ℕ → List ℕ} (h e : ℕ)
    → IsTable ht es chains
    → e < cache_block_number
    → ((k : ℕ) → has e (chains k) ≡ false)
    → bucket_of ht (es.entrys e) ≡ h
    → h < buckets_number
    → ((i : ℕ) → has i (chains h) ≡ true → ¬ (SameKey (es.entrys i) (es.entrys e)))
    → let (ht', es') = insert_at ht es h e in
      IsTable ht' es' (update chains h (e ∷ chains h)) × Rechained es es'
unfolding insert_at
insert_at-cons {ht} {es} {chains} h e t small out at_home lt new =
    let es' = set_hash_next es e (ht.buckets h) in
    let same = Rechained-set_hash_next es e (ht.buckets h) in
    let link : (i : ℕ) → (e == i) ≡ false → (es'.entrys i).hash_next ≡ (es.entrys i).hash_next =
      λ i ne. simp link_fields (rw ne) in
    let one_key : (i j : ℕ)
        → has i (e ∷ chains h) ≡ true
        → has j (e ∷ chains h) ≡ true
        → SameKey (es.entrys i) (es.entrys j)
        → i ≡ j =
      λ i j p q s. elim (has_cons_cases i e (chains h) p) [
        | inl i_at ↦ elim (has_cons_cases j e (chains h) q) [
          | inl j_at ↦ i_at ∙ sym j_at
          | inr j_old ↦ absurd (
              new j j_old
                (subst (λ k. SameKey (es.entrys j) (es.entrys k)) i_at (sym s.0, sym s.1)))
        ]
        | inr i_old ↦ elim (has_cons_cases j e (chains h) q) [
          | inl j_at ↦ absurd (new i i_old (rw j_at at s))
          | inr j_old ↦ t.unique h i j i_old j_old s
        ]
      ] in
    (
      record {
        bits = t.bits;
        chain =
            by_bucket (λ k xs. k < buckets_number → Chain es'.entrys (update ht.buckets h e k) xs) h
              _
              (λ _. (
                if_self h e _,
                Chain-frame es.entrys es'.entrys _ (chains h)
                    (simp link_fields
                      (rw (if_self e (ht.buckets h) (es.entrys e).hash_next) (t.chain h lt)))
                    (λ i p. link i (ne_of_not_has e i (chains h) (out h) p)),
              ))
              (λ k ne small. rw ne (
                Chain-frame es.entrys es'.entrys _ (chains k) (t.chain k small)
                  (λ i p. link i (ne_of_not_has e i (chains k) (out k) p))));
        distinct =
            by_bucket (λ k xs. IsDistinct xs) h _ (out h, t.distinct h) (λ k _. t.distinct k);
        inside =
            by_bucket (λ k xs. (i : ℕ) → has i xs ≡ true → i < cache_block_number) h _
              (λ i p. elim (has_cons_cases i e (chains h) p) [
                | inl eq ↦ rw eq small
                | inr old ↦ t.inside h i old
              ])
              (λ k _. t.inside k);
        home =
            by_bucket (λ k xs. (i : ℕ) → has i xs ≡ true → bucket_of ht (es'.entrys i) ≡ k) h _
              (λ i p. bucket_of-Rechained ht (same i) ∙ elim (has_cons_cases i e (chains h) p) [
                | inl eq ↦ rw eq at_home
                | inr old ↦ t.home h i old
              ])
              (λ k _ i p. bucket_of-Rechained ht (same i) ∙ t.home k i p);
        unique =
            by_bucket
              (λ k xs.
                (i j : ℕ)
                → has i xs ≡ true
                → has j xs ≡ true
                → SameKey (es'.entrys i) (es'.entrys j)
                → i ≡ j)
              h _
              (λ i j p q s. let s' = SameKey-Rechained (same i) (same j) s in one_key i j p q s')
              (λ k _ i j p q s. t.unique k i j p q (SameKey-Rechained (same i) (same j) s));
      },
      same,
    )

-- Where `prev` is the entry before `e` in the bucket, or `none` if `e` is the first one.
abbrev pub IsBefore : Option ℕ → ℕ → List ℕ → Type 0
IsBefore prev e [] = ⊥
IsBefore none e (x ∷ xs) = e ≡ x
IsBefore (some p) e (x ∷ xs) = ((e == x) ≡ false) × (p ≡ pred e x xs)

without_self : (e x : ℕ) (xs : List ℕ) → e ≡ x → without e (x ∷ xs) ≡ xs
without_self e x xs h = ground arith

-- the bucket after `__h_unlink`, by what stands before the entry
unlink-Chain :
    (ht : HashTable) (es : EntrySpace) (h e : ℕ) (prev : Option ℕ) (xs : List ℕ)
    → Chain es.entrys (ht.buckets h) xs
    → IsDistinct xs
    → has e xs ≡ true
    → IsBefore prev e xs
    → let (ht', es') = unlink_at ht es h e prev in Chain es'.entrys (ht'.buckets h) (without e xs)
unfolding unlink_at
unlink-Chain ht es h e prev [] c d inside b = absurd b
unlink-Chain ht es h e none (x ∷ xs) c d inside b =
    rw (without_self e x xs b, if_self h (es.entrys e).hash_next (ht.buckets h)) (rw b c.1)
unlink-Chain ht es h e (some p) (x ∷ xs) c d inside (ne, p_at) = rw ne (
  c.0,
  Chain-without es.entrys (set_hash_next es p (es.entrys e).hash_next).entrys e x xs c.1 d
      (rw ne at inside) (λ i q. simp link_fields (rw p_at)),
)

module _ (ht : HashTable) (es : EntrySpace) (h e : ℕ) where
  unlink-Rechained : (prev : Option ℕ) → Rechained es (unlink_at ht es h e prev).1
  unfolding unlink_at
  unlink-Rechained none = Rechained-refl es
  unlink-Rechained (some p) = Rechained-set_hash_next es p (es.entrys e).hash_next

  unlink-hash_bits : (prev : Option ℕ) → (unlink_at ht es h e prev).0.hash_bits ≡ ht.hash_bits
  unfolding unlink_at
  unlink-hash_bits none = refl
  unlink-hash_bits (some p) = refl

  unlink-buckets :
      (prev : Option ℕ) (k : ℕ)
      → (h == k) ≡ false
      → (unlink_at ht es h e prev).0.buckets k ≡ ht.buckets k
  unfolding unlink_at
  unlink-buckets none k ne = rw ne
  unlink-buckets (some p) k ne = refl

  unlink-others :
      (prev : Option ℕ) (xs : List ℕ)
      → IsBefore prev e xs
      → (i : ℕ) → has i xs ≡ false
      → ((unlink_at ht es h e prev).1.entrys i).hash_next ≡ (es.entrys i).hash_next
  unfolding unlink_at
  unlink-others prev [] b i out = absurd b
  unlink-others none (x ∷ xs) b i out = refl
  unlink-others (some p) (x ∷ xs) (ne, p_at) i out =
      simp link_fields (rw (p_at, ne_of_has (pred e x xs) i (x ∷ xs) (has-pred e x xs) out))

-- An entry of one bucket is in no other.
pub elsewhere :
    {ht : HashTable} {es : EntrySpace} {chains : ℕ → List ℕ}
    → IsTable ht es chains
    → (h k i : ℕ) → (h == k) ≡ false
    → has i (chains k) ≡ true
    → has i (chains h) ≡ false
elsewhere {chains} t h k i ne there = elim (Bool-cases (has i (chains h))) [
  | inl here ↦ let same = one_chain t h k i here there in ground arith
  | inr gone ↦ gone
]

-- Taking an entry out of its bucket keeps the table.
pub unlink_at-without :
    {ht : HashTable} {es : EntrySpace} {chains : ℕ → List ℕ} (h e : ℕ) (prev : Option ℕ)
    → IsTable ht es chains
    → h < buckets_number
    → has e (chains h) ≡ true
    → IsBefore prev e (chains h)
    → let (ht', es') = unlink_at ht es h e prev in
      IsTable ht' es' (update chains h (without e (chains h))) × Rechained es es'
unlink_at-without {ht} {es} {chains} h e prev t lt inside b =
    let ht' = (unlink_at ht es h e prev).0 in
    let es' = (unlink_at ht es h e prev).1 in
    let same = unlink-Rechained ht es h e prev in
    let bits : ht'.hash_bits ≡ ht.hash_bits = unlink-hash_bits ht es h e prev in
    let left : (i : ℕ) → has i (without e (chains h)) ≡ true → has i (chains h) ≡ true =
      λ i p. ground (arith, has-without e i (chains h) (t.distinct h)) in
    let stays : (i : ℕ) → bucket_of ht' (es'.entrys i) ≡ bucket_of ht (es.entrys i) =
      λ i. rw bits (bucket_of-Rechained ht (same i)) in
    (
      record {
        bits = bits ∙ t.bits;
        chain =
            by_bucket (λ k xs. k < buckets_number → Chain es'.entrys (ht'.buckets k) xs) h _
              (λ _. unlink-Chain ht es h e prev (chains h) (t.chain h lt) (t.distinct h) inside b)
              (λ k ne small. rw (unlink-buckets ht es h e prev k ne) (
                Chain-frame es.entrys es'.entrys _ (chains k) (t.chain k small)
                  (λ i p. unlink-others ht es h e prev (chains h) b i (elsewhere t h k i ne p))));
        distinct =
            by_bucket (λ k xs. IsDistinct xs) h _ (without-IsDistinct e (chains h) (t.distinct h))
              (λ k _. t.distinct k);
        inside =
            by_bucket (λ k xs. (i : ℕ) → has i xs ≡ true → i < cache_block_number) h _
              (λ i p. t.inside h i (left i p)) (λ k _. t.inside k);
        home =
            by_bucket (λ k xs. (i : ℕ) → has i xs ≡ true → bucket_of ht' (es'.entrys i) ≡ k) h _
              (λ i p. stays i ∙ t.home h i (left i p)) (λ k _ i p. stays i ∙ t.home k i p);
        unique =
            by_bucket
              (λ k xs.
                (i j : ℕ)
                → has i xs ≡ true
                → has j xs ≡ true
                → SameKey (es'.entrys i) (es'.entrys j)
                → i ≡ j)
              h _
              (λ i j p q s.
                t.unique h i j (left i p) (left j q) (SameKey-Rechained (same i) (same j) s))
              (λ k _ i j p q s. t.unique k i j p q (SameKey-Rechained (same i) (same j) s));
      },
      same,
    )
