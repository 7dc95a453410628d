-- ===== src/Spinlock/Atomic.antt =====
-- Under the spinlock no two threads are in a section, and the sections run as if one after the other.
use user_level_ssd_cache_fra.Common.{
  ℕ, ◌<◌, ◌≡◌, ◌∙◌, refl, sym, ap, subst, fun_ext, true, false, ◌==◌, update, arith, if_self,
}
use user_level_ssd_cache_fra.Spinlock.{
  compare_exchange, try_lock, Sections, Pc, outside, spinning, inside, System, is_inside, origin,
  Move, call, spin, enter, access, unlock, pick, Reach, start, later,
}
use user_level_ssd_cache_fra.Spinlock.Serial.{Accesses, none_yet, one_more, Serial, at_start, whole}

-- A round that is not the last leaves the word; the last one finds it 0 and leaves it 1.
try_lock_busy : (word : ℕ) → (try_lock word).0 ≡ false → (try_lock word).1 ≡ word
unfolding try_lock compare_exchange
try_lock_busy word busy = ground arith

try_lock_won : (word : ℕ) → (try_lock word).0 ≡ true → (word ≡ 0) × ((try_lock word).1 ≡ 1)
unfolding try_lock compare_exchange
try_lock_won word won = (ground arith, ground arith)

module _ {c : Sections} (n : ℕ) (d₀ : c.Data) (o₀ : ℕ → c.Outside) where
  abbrev pub origins : System c → ℕ → c.Outside
  origins s i = origin (s.pc i)

  -- The lock is free and nobody is inside, or it is taken and one thread is inside, and has made some
  -- of the accesses of its section since the last whole section.
  pub data Inv (s : System c) : Type 0 where
    free :
        s.locked ≡ 0
        → ((i : ℕ) → is_inside (s.pc i) ≡ false)
        → Serial c n d₀ o₀ s.protected (origins s)
        → Inv s
    held :
        (i : ℕ) (o : c.Outside) (b l : c.Inside) (d : c.Data)
        → i < n
        → s.locked ≡ 1
        → s.pc i ≡ inside o l
        → ((j : ℕ) → is_inside (s.pc j) ≡ (i == j))
        → c.Begin o b
        → Accesses c d b s.protected l
        → Serial c n d₀ o₀ d (origins s)
        → Inv s

  same_origins :
      (s : System c) (i : ℕ) (p : Pc c)
      → origin p ≡ origin (s.pc i)
      → origins s ≡ (λ j. origin (update s.pc i p j))
  same_origins s i p e = fun_ext (λ j. ground arith)

  -- A move that neither enters nor leaves a section, and changes nothing that is shared.
  aside :
      (s : System c) (i : ℕ) (p : Pc c)
      → origin p ≡ origin (s.pc i)
      → is_inside p ≡ false
      → is_inside (s.pc i) ≡ false
      → Inv s
      → Inv (record s { pc = update s.pc i p })
  aside s i p e out was (free released nobody serial) =
      free released (λ j. ground (arith, nobody j))
        (subst (λ o. Serial c n d₀ o₀ s.protected o) (same_origins s i p e) serial)
  aside s i p e out was (held k o b l d in_range taken at only begins part serial) =
      held k o b l d in_range taken (ground (arith, only i)) (λ j. ground (arith, only i, only j))
        begins part (subst (λ o. Serial c n d₀ o₀ d o) (same_origins s i p e) serial)

  -- The one thread that takes the lock.
  entered :
      (s : System c) (i : ℕ) (o : c.Outside) (b : c.Inside) (begins : c.Begin o b)
      → i < n
      → s.pc i ≡ spinning o b begins
      → s.locked ≡ 0
      → Inv s
      → Inv (record s { locked = 1; pc = update s.pc i (inside o b) })
  entered s i o b begins lt at zero (free released nobody serial) =
      held i o b b s.protected lt refl (if_self i (inside o b) (s.pc i))
        (λ j. ground (arith, nobody j)) begins none_yet
        (subst (λ k. Serial c n d₀ o₀ s.protected k)
          (same_origins s i (inside o b) (ap origin (sym at))) serial)
  entered s i o b begins lt at zero (held k o' b' l d in_range taken at' only begins' part serial) =
      absurd (omega (arith, zero, taken))

  -- What the invariant says when a thread is known to be inside.
  pub record Held (s : System c) (i : ℕ) (o : c.Outside) (l : c.Inside) : Type 0 where
    pub b : c.Inside
    pub d : c.Data
    pub in_range : i < n
    pub taken : s.locked ≡ 1
    pub only : (j : ℕ) → is_inside (s.pc j) ≡ (i == j)
    pub begins : c.Begin o b
    pub part : Accesses c d b s.protected l
    pub serial : Serial c n d₀ o₀ d (origins s)

  abbrev place : c.Inside → Pc c → c.Inside
  place l (outside _) = l
  place l (spinning _ _ _) = l
  place _ (inside _ l) = l

  pub Inv-Held :
      (s : System c) (i : ℕ) (o : c.Outside) (l : c.Inside)
      → s.pc i ≡ inside o l
      → Inv s
      → Held s i o l
  Inv-Held s i o l at (free released nobody serial) =
      absurd (ground (arith, nobody i, ap is_inside at))
  Inv-Held s i o l at (held k o' b m d in_range taken at' only begins part serial) =
      let same : k ≡ i = ground (arith, only i, ap is_inside at) in
      let here : inside o' m ≡ inside o l = sym at' ∙ ap s.pc same ∙ at in
      record {
        b = b;
        d = d;
        in_range = subst (λ k. k < n) same in_range;
        taken = taken;
        only = subst (λ k. (j : ℕ) → is_inside (s.pc j) ≡ (k == j)) same only;
        begins = subst (λ k. c.Begin k b) (ap origin here) begins;
        part = subst (λ k. Accesses c d b s.protected k) (ap (place m) here) part;
        serial = serial;
      }

  -- The thread inside makes an access.
  accessed :
      (s : System c) (i : ℕ) (o : c.Outside) (l l' : c.Inside) (d' : c.Data)
      → s.pc i ≡ inside o l
      → c.Access s.protected l d' l'
      → Inv s
      → Inv (record s { protected = d'; pc = update s.pc i (inside o l') })
  accessed s i o l l' d' at a inv =
      let h = Inv-Held s i o l at inv in
      held i o h.b l' h.d h.in_range h.taken (if_self i (inside o l') (s.pc i))
        (λ j. ground (arith, h.only j)) h.begins (one_more h.part a)
        (subst (λ k. Serial c n d₀ o₀ h.d k) (same_origins s i (inside o l') (ap origin (sym at)))
          h.serial)

  left :
      (s : System c) (i : ℕ) (o : c.Outside) (l : c.Inside) (o' : c.Outside)
      → i < n
      → s.pc i ≡ inside o l
      → c.End l o'
      → Inv s
      → Inv (record s { locked = 0; pc = update s.pc i (outside o') })
  left s i o l o' lt at ends inv =
      let h = Inv-Held s i o l at inv in
      let begins = subst (λ k. c.Begin k h.b) (ap origin (sym at)) h.begins in
      free refl (λ j. ground (arith, h.only j))
        (subst (λ k. Serial c n d₀ o₀ s.protected k) (fun_ext (λ j. ground arith))
          (whole i lt h.serial begins h.part ends))

  Move-Inv :
      (s : System c) (i : ℕ) {locked : ℕ} {d : c.Data} {p p' : Pc c}
      → i < n
      → s.pc i ≡ p
      → Move s.locked s.protected p locked d p'
      → Inv s
      → Inv (record { locked = locked; protected = d; pc = update s.pc i p' })
  Move-Inv s i lt at (call begins) inv =
      aside s i (spinning _ _ begins) (ap origin (sym at)) refl (ap is_inside at) inv
  Move-Inv s i lt at (spin {begins} busy) inv =
      rw (try_lock_busy s.locked busy)
        (aside s i (spinning _ _ begins) (ap origin (sym at)) refl (ap is_inside at) inv)
  Move-Inv s i lt at (enter {begins} won) inv =
      let (zero, one) = try_lock_won s.locked won in rw one (entered s i _ _ begins lt at zero inv)
  Move-Inv s i lt at (access a) inv = accessed s i _ _ _ _ at a inv
  Move-Inv s i lt at (unlock ends) inv = left s i _ _ _ lt at ends inv

  pub Reach-Inv : {s : System c} → Reach n d₀ o₀ s → Inv s
  Reach-Inv start = free refl (λ i. refl) at_start
  Reach-Inv (later {s} r (pick i lt m)) = Move-Inv s i lt refl m (Reach-Inv r)

  -- Of `n` threads that lock and unlock around their sections, no two are in a section together.
  pub mutual_exclusion :
      {s : System c}
      → Reach n d₀ o₀ s
      → (i j : ℕ) → is_inside (s.pc i) ≡ true
      → is_inside (s.pc j) ≡ true
      → i ≡ j
  mutual_exclusion {s} r i j at_i at_j = elim (Reach-Inv r) [
    | free released nobody serial ↦ absurd (ground (arith, nobody i))
    | held k o b l d in_range taken at only begins part serial ↦ ground (arith, only i, only j)
  ]

  -- Whatever `n` threads do, interleaved one access at a time, when none of them is in a section, the
  -- data and where the threads stand are as after some sections that ran as a whole, one after the
  -- other.
  pub Reach-Serial :
      {s : System c}
      → Reach n d₀ o₀ s
      → ((i : ℕ) → is_inside (s.pc i) ≡ false)
      → Serial c n d₀ o₀ s.protected (origins s)
  Reach-Serial r out = elim (Reach-Inv r) [
    | free released nobody serial ↦ serial
    | held k o b l d lt taken at only begins part serial ↦ absurd (ground (arith, only k, out k))
  ]
