-- ===== src/Common/Totals.antt =====
-- How many of the first `n` indices pass a test.
use Prim.Native.Nat.{ℕ, zero, suc, ◌+◌, ◌≤◌, ◌<◌}
use mathlib.Core.Path.{◌≡◌, refl, ap}
use mathlib.Core.Bool.{Bool, true, false}
use mathlib.Core.Logic.{inl, inr}
use native.Mathlib.Omega.{arith}
use user_level_ssd_cache_fra.Common.Tests.{◌==◌, Bool-cases}

abbrev pub bit_of : Bool → ℕ
bit_of true = 1
bit_of false = 0

abbrev pub number : (ℕ → Bool) → ℕ → ℕ
number test zero = 0
number test (suc n) = number test n + bit_of (test n)

pub number-le : (test : ℕ → Bool) (n : ℕ) → number test n ≤ n
number-le test zero = omega arith
number-le test (suc n) = ground (arith, number-le test n)

pub number-zero : (test : ℕ → Bool) (n : ℕ) → number test n ≡ 0 → (i : ℕ) → i < n → test i ≡ false
number-zero test zero none i lt = absurd (omega arith)
number-zero test (suc n) none i lt = ground (arith, number-zero test n (ground arith) i)

pub number-none : (test : ℕ → Bool) (n : ℕ) → ((i : ℕ) → test i ≡ false) → number test n ≡ 0
number-none test zero h = refl
number-none test (suc n) h = ground (arith, h n, number-none test n h)

number-same :
    (test other : ℕ → Bool) (n i : ℕ)
    → n ≤ i
    → ((j : ℕ) → (i == j) ≡ false → other j ≡ test j)
    → number other n ≡ number test n
number-same test other zero i above same = refl
number-same test other (suc n) i above same =
    ground (arith, same n, number-same test other n i (omega arith) same)

-- Two tests that differ at one index.
pub number-change :
    (test other : ℕ → Bool) (n i : ℕ)
    → i < n
    → ((j : ℕ) → (i == j) ≡ false → other j ≡ test j)
    → number other n + bit_of (test i) ≡ number test n + bit_of (other i)
number-change test other zero i lt same = absurd (omega arith)
number-change test other (suc n) i lt same = elim (Bool-cases (i == n)) [
  | inl last ↦
      let e : i ≡ n = ground arith in
      omega (
        arith,
        number-same test other n i (omega arith) same,
        ap (λ k. bit_of (test k)) e,
        ap (λ k. bit_of (other k)) e,
      )
  | inr below ↦
      omega (arith, number-change test other n i (ground arith) same, ap bit_of (same n below))
]
