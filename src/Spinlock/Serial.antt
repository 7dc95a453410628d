-- ===== src/Spinlock/Serial.antt =====
-- The specification of the sections: each runs as a whole, one after the other.
use user_level_ssd_cache_fra.Common.{ℕ, ◌<◌, update}
use user_level_ssd_cache_fra.Spinlock.{Sections}

module _ (c : Sections) where
  -- Any number of accesses of one section.
  pub data Accesses (d : c.Data) (l : c.Inside) : c.Data → c.Inside → Type 0 where
    none_yet : Accesses d l d l
    one_more :
        {d' d'' : c.Data} {l' l'' : c.Inside}
        → Accesses d l d' l'
        → c.Access d' l' d'' l''
        → Accesses d l d'' l''

  -- The data, and where each of `n` threads stands, after whole sections from `d₀` and `o₀`.
  pub data Serial (n : ℕ) (d₀ : c.Data) (o₀ : ℕ → c.Outside)
      : c.Data → (ℕ → c.Outside) → Type 0 where
    at_start : Serial n d₀ o₀ d₀ o₀
    whole :
        (i : ℕ) {d d' : c.Data} {o : ℕ → c.Outside} {b e : c.Inside} {o' : c.Outside}
        → i < n
        → Serial n d₀ o₀ d o
        → c.Begin (o i) b
        → Accesses d b d' e
        → c.End e o'
        → Serial n d₀ o₀ d' (update o i o')
