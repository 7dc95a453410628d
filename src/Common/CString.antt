-- ===== src/Common/CString.antt =====
-- C strings: the bytes before the terminating zero, and what the program uses of string.h.
use Prim.Native.Nat.{ℕ, zero, suc}
use mathlib.Core.Path.{◌≡◌, refl}
use mathlib.Core.Logic.{◌↔◌}
use mathlib.Core.Bool.{Bool, true, false, ◌&&◌}
use mathlib.Core.List.{List, [], ◌∷◌}
use native.Mathlib.Omega.{arith}
use user_level_ssd_cache_fra.Common.Tests.{◌==◌}
use user_level_ssd_cache_fra.Common.Lists.{length}

abbrev pub Text : Type 0
Text = List ℕ

-- `strlen`
abbrev pub strlen : Text → ℕ
strlen = length

-- `strcmp(s, t) == 0`
unfoldable pub same_text : Text → Text → Bool
same_text [] [] = true
same_text [] (_ ∷ _) = false
same_text (_ ∷ _) [] = false
same_text (a ∷ s) (b ∷ t) = (a == b) && same_text s t

-- `strncmp(s, t, n) == 0`
unfoldable pub same_start : ℕ → Text → Text → Bool
same_start zero s t = true
same_start (suc n) [] [] = true
same_start (suc n) [] (_ ∷ _) = false
same_start (suc n) (_ ∷ _) [] = false
same_start (suc n) (a ∷ s) (b ∷ t) = (a == b) && same_start n s t

pub same_text_refl : (s : Text) → same_text s s ≡ true
unfolding same_text
same_text_refl [] = refl
same_text_refl (a ∷ s) = ground (arith, same_text_refl s)

pub same_text_sound : (s t : Text) → same_text s t ≡ true → s ≡ t
unfolding same_text
same_text_sound [] [] h = refl
same_text_sound [] (_ ∷ _) h = cc
same_text_sound (_ ∷ _) [] h = cc
same_text_sound (a ∷ s) (b ∷ t) h = ground (arith, same_text_sound s t)

pub same_text_iff : (s t : Text) → (same_text s t ≡ true) ↔ (s ≡ t)
same_text_iff s t = (same_text_sound s t, λ e. ground (arith, same_text_refl s))

-- Equal strings agree on their first `n` bytes.
pub same_start_refl : (n : ℕ) (s : Text) → same_start n s s ≡ true
unfolding same_start
same_start_refl zero s = refl
same_start_refl (suc n) [] = refl
same_start_refl (suc n) (a ∷ s) = ground (arith, same_start_refl n s)
