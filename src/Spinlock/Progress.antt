-- ===== src/Spinlock/Progress.antt =====
-- A thread that spins is not locked out for good.
use user_level_ssd_cache_fra.Common.{
  ℕ, ◌<◌, ◌≡◌, ◌∙◌, refl, sym, ap, subst, true, false, ◌==◌, update, arith, if_self,
}
use user_level_ssd_cache_fra.Spinlock.{
  compare_exchange, try_lock, Sections, Pc, spinning, inside, outside, System, is_inside, enter,
  access, unlock, Move, Step, pick, Reach, Onward, stay, onward,
}
use user_level_ssd_cache_fra.Spinlock.Serial.{Accesses, none_yet, one_more}
use user_level_ssd_cache_fra.Spinlock.Atomic.{free, held, Reach-Inv}

-- A section can be brought to its end from everywhere inside of it.
abbrev pub CanFinish : Sections → Type 0
CanFinish c =
    (d : c.Data) (l : c.Inside)
    → (d' : c.Data) × (e : c.Inside) × (o : c.Outside) × Accesses c d l d' e × c.End e o

free_word : (try_lock 0).0 ≡ true
unfolding try_lock compare_exchange
free_word = refl

module _ {c : Sections} (n : ℕ) where
  -- A thread that is known to stand at `p` can make the moves from there.
  Move-Step :
      (s : System c) (i : ℕ) {locked : ℕ} {d : c.Data} {p p' : Pc c}
      → i < n
      → s.pc i ≡ p
      → Move s.locked s.protected p locked d p'
      → Step n s (record { locked = locked; protected = d; pc = update s.pc i p' })
  Move-Step s i {locked} {d} {p} {p'} lt at m =
      pick i lt (subst (λ k. Move s.locked s.protected k locked d p') (sym at) m)

  -- The thread that finds the lock free takes it.
  enters :
      (s : System c) (i : ℕ) (o : c.Outside) (b : c.Inside) (begins : c.Begin o b)
      → i < n
      → s.locked ≡ 0
      → s.pc i ≡ spinning o b begins
      → (t : System c) × Step n s t × (t.pc i ≡ inside o b)
  enters s i o b begins lt zero at =
      let won : (try_lock s.locked).0 ≡ true = rw (zero, free_word) refl in
      (_, Move-Step s i lt at (enter {begins = begins} won), if_self i (inside o b) (s.pc i))

  -- The thread inside makes the accesses of its section, while the others stand still.
  works :
      (s : System c) (k : ℕ) (o : c.Outside) {l e : c.Inside} {d' : c.Data}
      → k < n
      → s.pc k ≡ inside o l
      → Accesses c s.protected l d' e
      → (t : System c) × Onward n s t
        × (t.pc k ≡ inside o e)
        × (t.protected ≡ d')
        × ((j : ℕ) → (k == j) ≡ false → t.pc j ≡ s.pc j)
  works s k o lt at none_yet = (s, stay, at, refl, λ j h. refl)
  works s k o {e} {d'} lt at (one_more {l'} rest a) =
      let (t, run, here, same, others) = works s k o lt at rest in
      let a' : c.Access t.protected l' d' e = subst (λ d. c.Access d l' d' e) (sym same) a in
      (
        _,
        onward run (Move-Step t k lt here (access a')),
        if_self k (inside o e) (t.pc k),
        refl,
        λ j h. ground (arith, others j),
      )

  -- From every state that `n` threads reach, a thread that spins on the lock can come to be inside, if
  -- each section can be finished from everywhere inside of it: another thread that is inside finishes
  -- and unlocks, and the next round of `spinlock_lock` is the last.
  pub can_enter :
      {d₀ : c.Data} {o₀ : ℕ → c.Outside} {s : System c}
      → CanFinish c
      → Reach n d₀ o₀ s
      → (i : ℕ) (o : c.Outside) (b : c.Inside) (begins : c.Begin o b) → i < n
      → s.pc i ≡ spinning o b begins
      → (t : System c) × Onward n s t × (t.pc i ≡ inside o b)
  can_enter {d₀} {o₀} {s} finish r i o b begins lt at = elim (Reach-Inv n d₀ o₀ r) [
    | free released nobody serial ↦
        let (t, step, there) = enters s i o b begins lt released at in (t, onward stay step, there)
    | held k o' b' l d lt_k taken at_k only begins' part serial ↦
        let (d', e, o'', run, ends) = finish s.protected l in
        let (t, moves, here, same, others) = works s k o' lt_k at_k run in
        let apart : (k == i) ≡ false = sym (only i) ∙ ap is_inside at in
        let u : System c = record t { locked = 0; pc = update t.pc k (outside o'') } in
        let out : Step n t u = Move-Step t k lt_k here (unlock ends) in
        let waits : u.pc i ≡ spinning o b begins = ground (arith, apart, others i) in
        let (v, step, there) = enters u i o b begins lt refl waits in
        (v, onward (onward moves out) step, there)
  ]
