-- ===== src/Spinlock.antt =====
-- lib/atomic.c: the spinlock on one word of shared memory, and threads that run sections of code under
-- it, interleaved one shared access at a time. The sections are a parameter.
pub mod Serial
pub mod Atomic
pub mod Progress
use user_level_ssd_cache_fra.Common.{ℕ, ◌<◌, ◌≡◌, Bool, true, false, ◌==◌, if◌then◌else◌, update}

-- `atomic_compare_exchange_strong`: the answer, and the word afterwards
unfoldable pub compare_exchange : (word compare exchange : ℕ) → Bool × ℕ
compare_exchange word compare exchange = if word == compare then (true, exchange) else (false, word)

abbrev pub spinlock_init : ℕ
spinlock_init = 0

-- one round of the loop of `spinlock_lock`: true if it is the last one
unfoldable pub try_lock : ℕ → Bool × ℕ
unfolding compare_exchange
try_lock locked = compare_exchange locked 0 1

abbrev pub spinlock_unlock : ℕ
spinlock_unlock = 0

-- The code that a lock protects: where a thread can stand outside its sections and inside of one, how
-- a section starts and ends there, and its accesses to the data.
pub record Sections : Type 1 where
  pub Data : Type 0
  pub Outside : Type 0
  pub Inside : Type 0
  pub Begin : Outside → Inside → Type 0
  pub Access : Data → Inside → Data → Inside → Type 0
  pub End : Inside → Outside → Type 0

-- A thread that spins or is inside remembers where it came from; the one that spins knows how its
-- section starts.
pub data Pc (c : Sections) : Type 0 where
  outside : c.Outside → Pc c
  spinning : (o : c.Outside) (b : c.Inside) → c.Begin o b → Pc c
  inside : c.Outside → c.Inside → Pc c

pub record System (c : Sections) : Type 0 where
  pub locked : ℕ
  pub protected : c.Data
  pub pc : ℕ → Pc c

module _ {c : Sections} where
  abbrev pub is_inside : Pc c → Bool
  is_inside (inside _ _) = true
  is_inside _ = false

  -- where a thread stands while the section that it runs does not count
  abbrev pub origin : Pc c → c.Outside
  origin (outside o) = o
  origin (spinning o _ _) = o
  origin (inside o _) = o

  -- One shared access of one thread.
  pub data Move (locked : ℕ) (d : c.Data) : Pc c → ℕ → c.Data → Pc c → Type 0 where
    call :
        {o : c.Outside} {b : c.Inside} (begins : c.Begin o b)
        → Move locked d (outside o) locked d (spinning o b begins)
    spin :
        {o : c.Outside} {b : c.Inside} {begins : c.Begin o b}
        → (try_lock locked).0 ≡ false
        → Move locked d (spinning o b begins) (try_lock locked).1 d (spinning o b begins)
    enter :
        {o : c.Outside} {b : c.Inside} {begins : c.Begin o b}
        → (try_lock locked).0 ≡ true
        → Move locked d (spinning o b begins) (try_lock locked).1 d (inside o b)
    access :
        {o : c.Outside} {l l' : c.Inside} {d' : c.Data}
        → c.Access d l d' l'
        → Move locked d (inside o l) locked d' (inside o l')
    unlock :
        {o o' : c.Outside} {l : c.Inside}
        → c.End l o'
        → Move locked d (inside o l) spinlock_unlock d (outside o')

  -- One access of one of `n` threads.
  pub data Step (n : ℕ) (s : System c) : System c → Type 0 where
    pick :
        (i : ℕ) {locked : ℕ} {d : c.Data} {p : Pc c}
        → i < n
        → Move s.locked s.protected (s.pc i) locked d p
        → Step n s (record { locked = locked; protected = d; pc = update s.pc i p })

  abbrev pub begin : c.Data → (ℕ → c.Outside) → System c
  begin d o = record { locked = spinlock_init; protected = d; pc = λ i. outside (o i) }

  pub data Reach (n : ℕ) (d : c.Data) (o : ℕ → c.Outside) : System c → Type 0 where
    start : Reach n d o (begin d o)
    later : {s t : System c} → Reach n d o s → Step n s t → Reach n d o t

  -- what the threads may do from a state on
  pub data Onward (n : ℕ) (s : System c) : System c → Type 0 where
    stay : Onward n s s
    onward : {t u : System c} → Onward n s t → Step n t u → Onward n s u
