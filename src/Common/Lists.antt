-- ===== src/Common/Lists.antt =====
-- Lists measured by native numbers, membership of an index as a test, and splitting at a member.
use Prim.Native.Nat.{ℕ, zero, suc, ◌+◌, ◌≤◌, ◌<◌}
use mathlib.Core.Logic.{◌⊎◌, inl, inr}
use mathlib.Core.Path.{◌≡◌, refl}
use mathlib.Core.Bool.{Bool, true, false, ◌||◌}
use mathlib.Core.List.{List, [], ◌∷◌, ◌++◌}
use native.Mathlib.Omega.{arith}
use user_level_ssd_cache_fra.Common.Tests.{◌==◌, if◌then◌else◌, Bool-cases}

module _ {ℓ} {A : Type ℓ} where
  abbrev pub length : List A → ℕ
  length [] = 0
  length (x ∷ xs) = suc (length xs)

  pub List-cases : (xs : List A) → (xs ≡ []) ⊎ ((x : A) × (ys : List A) × (xs ≡ x ∷ ys))
  List-cases [] = inl refl
  List-cases (x ∷ ys) = inr (x, ys, refl)

  pub length-append : (xs ys : List A) → length (xs ++ ys) ≡ length xs + length ys
  length-append [] ys = omega arith
  length-append (x ∷ xs) ys = omega (arith, length-append xs ys)

abbrev pub has : ℕ → List ℕ → Bool
has a [] = false
has a (x ∷ xs) = (a == x) || has a xs

-- No index stands twice in the list.
abbrev pub IsDistinct : List ℕ → Type 0
IsDistinct [] = Unit
IsDistinct (x ∷ xs) = (has x xs ≡ false) × IsDistinct xs

-- The list without its first occurrence of `a`.
abbrev pub without : ℕ → List ℕ → List ℕ
without a [] = []
without a (x ∷ xs) = if a == x then xs else x ∷ without a xs

pub has-append : (a : ℕ) (xs ys : List ℕ) → has a (xs ++ ys) ≡ (has a xs || has a ys)
has-append a [] ys = refl
has-append a (x ∷ xs) ys = ground (arith, has-append a xs ys)

pub has-without :
    (a b : ℕ) (xs : List ℕ)
    → IsDistinct xs
    → has b (without a xs) ≡ (if a == b then false else has b xs)
has-without a b [] d = ground arith
has-without a b (x ∷ xs) d = ground (arith, has-without a b xs d.1)

pub without-IsDistinct : (a : ℕ) (xs : List ℕ) → IsDistinct xs → IsDistinct (without a xs)
without-IsDistinct a [] d = d
without-IsDistinct a (x ∷ xs) d =
    ground (arith, without-IsDistinct a xs d.1, has-without a x xs d.1)

pub append-IsDistinct :
    (a : ℕ) (xs : List ℕ) → IsDistinct xs → has a xs ≡ false → IsDistinct (xs ++ (a ∷ []))
append-IsDistinct a [] d out = (refl, tt)
append-IsDistinct a (x ∷ xs) d out =
    ground (arith, append-IsDistinct a xs d.1, has-append x xs (a ∷ []))

pub length-without :
    (a : ℕ) (xs : List ℕ) → has a xs ≡ true → suc (length (without a xs)) ≡ length xs
length-without a [] h = ground arith
length-without a (x ∷ xs) h = ground (arith, length-without a xs)

lt_of_ne : (n i : ℕ) (xs : List ℕ) → has n xs ≡ false → has i xs ≡ true → i < suc n → i < n
lt_of_ne n i xs out inside below = ground arith

-- A list of distinct numbers below `n` has at most `n` of them.
pub length-le_of_distinct :
    (n : ℕ) (xs : List ℕ) → IsDistinct xs → ((i : ℕ) → has i xs ≡ true → i < n) → length xs ≤ n
length-le_of_distinct zero [] d below = omega arith
length-le_of_distinct zero (x ∷ xs) d below = absurd (omega (arith, below x (ground arith)))
length-le_of_distinct (suc n) xs d below = elim (Bool-cases (has n xs)) [
  | inl inside ↦ omega (
    arith,
    length-without n xs inside,
    length-le_of_distinct n (without n xs) (without-IsDistinct n xs d)
        (λ i h. ground (arith, has-without n i xs d, below i)),
  )
  | inr outside ↦
      omega (arith, length-le_of_distinct n xs d (λ i h. lt_of_ne n i xs outside h (below i h)))
]
