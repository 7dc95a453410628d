-- ===== src/Api/Count.antt =====
-- The user count, and when the wait of `exit_ssd_cache` is over.
use user_level_ssd_cache_fra.Common.{
  ℕ, ◌+◌, ◌<◌, ◌≤◌, ◌≡◌, ◌∙◌, refl, sym, ap, subst, Bool, true, false, update, arith, number,
  number-le, number-zero, number-none, number-change, bit_of,
}
use user_level_ssd_cache_fra.Config.{unsigned_mod}
use user_level_ssd_cache_fra.Spinlock.{inside, System, is_inside, origin, Reach}
use user_level_ssd_cache_fra.Spinlock.Serial.{Accesses, none_yet, one_more, Serial, at_start, whole}
use user_level_ssd_cache_fra.Spinlock.Atomic.{Inv-Held, Reach-Inv, Reach-Serial}
use user_level_ssd_cache_fra.Api.Users.{
  link_count, unlink_count, Role, apart, linked, admin, closing, Spot, at_link, adding, added,
  at_unlink, subtracting, subtracted, none_left, Begins, link, unlink, exit, Uses, load_link,
  store_link, load_unlink, store_unlink, test_none, test_some, Ends, linked_now, apart_now,
  wait_over, wait_on, users,
}

abbrev pub is_linked : Role → Bool
is_linked linked = true
is_linked _ = false

-- What a whole section does to the count and to its process.
data Effect (count : ℕ) : Role → ℕ → Role → Type 0 where
  links : Effect count apart (link_count count) linked
  unlinks : Effect count linked (unlink_count count) apart
  leaves : count ≡ 0 → Effect count admin count closing
  waits : Effect count admin count admin

-- What is known inside of a section that found the count at `count`, if it now is `now`.
abbrev Stage : (count now : ℕ) → Spot → Type 0
Stage count now (adding read) = (now ≡ count) × (read ≡ count)
Stage count now added = now ≡ link_count count
Stage count now (subtracting read) = (now ≡ count) × (read ≡ count)
Stage count now subtracted = now ≡ unlink_count count
Stage count now none_left = (now ≡ count) × (count ≡ 0)
Stage count now _ = now ≡ count

-- the role from which the section of a place begins
abbrev role_of : Spot → Role
role_of at_link = apart
role_of (adding _) = apart
role_of added = apart
role_of at_unlink = linked
role_of (subtracting _) = linked
role_of subtracted = linked
role_of _ = admin

Begins-Stage :
    {r : Role} {b : Spot} (count : ℕ) → Begins r b → Stage count count b × (role_of b ≡ r)
Begins-Stage count link = (refl, refl)
Begins-Stage count unlink = (refl, refl)
Begins-Stage count exit = (refl, refl)

Uses-Stage :
    (count : ℕ) {now now' : ℕ} {l l' : Spot}
    → Uses now l now' l'
    → Stage count now l
    → Stage count now' l' × (role_of l' ≡ role_of l)
Uses-Stage count load_link same = ((same, same), refl)
Uses-Stage count store_link (same, read) = (ap link_count read, refl)
Uses-Stage count load_unlink same = ((same, same), refl)
Uses-Stage count store_unlink (same, read) = (ap unlink_count read, refl)
Uses-Stage count (test_none none) same = ((same, ground arith), refl)
Uses-Stage count (test_some some) same = (same, refl)

Accesses-Stage :
    {r : Role} {b : Spot} {count : ℕ}
    → Begins r b
    → {now : ℕ} {l : Spot} → Accesses users count b now l
    → Stage count now l × (role_of l ≡ r)
Accesses-Stage {count} begins none_yet = Begins-Stage count begins
Accesses-Stage {count} begins (one_more run a) =
    let (stage, same) = Accesses-Stage begins run in
    let (stage', same') = Uses-Stage count a stage in (stage', same' ∙ same)

Ends-Effect :
    (count : ℕ) {now : ℕ} {e : Spot} {r : Role}
    → Ends e r
    → Stage count now e
    → Effect count (role_of e) now r
Ends-Effect count linked_now stage = subst (λ k. Effect count apart k linked) (sym stage) links
Ends-Effect count apart_now stage = subst (λ k. Effect count linked k apart) (sym stage) unlinks
Ends-Effect count wait_over (same, none) =
    subst (λ k. Effect count admin k closing) (sym same) (leaves none)
Ends-Effect count wait_on same = subst (λ k. Effect count admin k admin) (sym same) waits

section-Effect :
    {r r' : Role} {b e : Spot} {count now : ℕ}
    → Begins r b
    → Accesses users count b now e
    → Ends e r'
    → Effect count r now r'
section-Effect {r'} {count} {now} begins run ends =
    let (stage, same) = Accesses-Stage begins run in
    subst (λ k. Effect count k now r') same (Ends-Effect count ends stage)

module _ (n : ℕ) (few : n < unsigned_mod) where
  -- how a section changes the number of users
  Effect-number :
      {r r' : Role} {count now : ℕ} (all all' : ℕ)
      → Effect count r now r'
      → all' + bit_of (is_linked r) ≡ all + bit_of (is_linked r')
      → all ≤ n
      → all' ≤ n
      → count ≡ all
      → now ≡ all'
  Effect-number all all' links sum some some' at = omega arith
  Effect-number all all' unlinks sum some some' at = omega arith
  Effect-number all all' (leaves none) sum some some' at = omega arith
  Effect-number all all' waits sum some some' at = omega arith

  Serial-count :
      {o₀ : ℕ → Role} {count : ℕ} {o : ℕ → Role}
      → ((i : ℕ) → is_linked (o₀ i) ≡ false)
      → Serial users n 0 o₀ count o
      → count ≡ number (λ i. is_linked (o i)) n
  Serial-count nobody at_start = sym (number-none _ n nobody)
  Serial-count {o₀} nobody (whole i {o} {o'} lt serial begins run ends) =
      let test : ℕ → Bool = λ j. is_linked (o j) in
      let test' : ℕ → Bool = λ j. is_linked (update o i o' j) in
      let sum = number-change test test' n i lt (λ j h. ground arith) in
      Effect-number (number test n) (number test' n) (section-Effect begins run ends)
        (ground (arith, sum)) (number-le test n) (number-le test' n) (Serial-count nobody serial)

  module _ {o₀ : ℕ → Role} {s : System users} (nobody : (i : ℕ) → is_linked (o₀ i) ≡ false)
      (r : Reach n 0 o₀ s) where
    -- Fewer than 2 ^ 32 processes link, unlink (each only after it has linked) and exit,
    -- interleaved in any way, from a start with a count of 0 and without users. Whenever no process
    -- is in a section, the count is the number of processes that are linked.
    pub count-number :
        ((i : ℕ) → is_inside (s.pc i) ≡ false)
        → s.protected ≡ number (λ i. is_linked (origin (s.pc i))) n
    count-number out = Serial-count nobody (Reach-Serial n 0 o₀ r out)

    -- Fewer than 2 ^ 32 processes link, unlink (each only after it has linked) and exit,
    -- interleaved in any way, from a start with a count of 0 and without users. When
    -- `exit_ssd_cache` has found no users left, and still holds the lock, no process is linked.
    pub none_left-is_linked :
        (i : ℕ) (o : Role)
        → s.pc i ≡ inside o none_left
        → (j : ℕ) → j < n
        → is_linked (origin (s.pc j)) ≡ false
    none_left-is_linked i o at =
        let h = Inv-Held n 0 o₀ s i o none_left at (Reach-Inv n 0 o₀ r) in
        let (same, zero) = (Accesses-Stage h.begins h.part).0 in
        number-zero (λ j. is_linked (origin (s.pc j))) n (sym (Serial-count nobody h.serial) ∙ zero)
