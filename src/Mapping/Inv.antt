-- ===== src/Mapping/Inv.antt =====
-- The invariant of a mapping between any two steps of the clients and of the migration worker.
use user_level_ssd_cache_fra.Common.{
  ℕ, ◌+◌, ◌≤◌, ◌≡◌, Bool, false, not, ◌&&◌, List, [], ◌∷◌, ◌==◌, ltb, has, length, none,
}
use user_level_ssd_cache_fra.Config.{cache_block_number}
use user_level_ssd_cache_fra.WorkQueue.{Work, is_same}
use user_level_ssd_cache_fra.WorkQueue.Inv.{contents, any}
use user_level_ssd_cache_fra.WorkQueue.Inv
use user_level_ssd_cache_fra.Entry.{EntrySpace}
use user_level_ssd_cache_fra.Mapping.{Mapping}
use user_level_ssd_cache_fra.Mapping.Shape.{View, Shape}
use user_level_ssd_cache_fra.Mapping.Buckets.{Found}
use user_level_ssd_cache_fra.Mapping.Status.{status, key}

-- Where the migration worker stands: between two requests, in the transfer of one entry, or between
-- the end of a transfer and `remove_work`.
pub data Flight : Type 0 where
  idle : Flight
  promoting : ℕ → Flight
  demoting : ℕ → Flight
  writing_back : ℕ → Flight
  finishing : Flight

abbrev pub in_flight : Flight → ℕ → Bool
in_flight idle i = false
in_flight (promoting e) i = e == i
in_flight (demoting e) i = e == i
in_flight (writing_back e) i = e == i
in_flight finishing i = false

abbrev pub is_promoting : Flight → ℕ → Bool
is_promoting (promoting e) i = e == i
is_promoting _ i = false

-- Where an entry stands is said by its flags `(pending, dirty, alloc)`: the pending entry is the one
-- in transfer, a free entry is in the free list, any other in the list of its dirty flag, and every
-- entry that is allocated is in the table, unless it is still being promoted.
pub record Placed (n : ℕ) (st : Bool × Bool × Bool) (v : View) (f : Flight) (i : ℕ) : Type 0 where
  pub pending : st.0 ≡ in_flight f i
  pub free : has i v.free ≡ (ltb i n && not st.2)
  pub clean : has i v.clean ≡ (st.2 && (not st.0 && not st.1))
  pub dirty : has i v.dirty ≡ (st.2 && (not st.0 && st.1))
  pub tabled : v.tabled i ≡ (st.2 && not (is_promoting f i))
  pub inside : (st.2 && not (ltb i n)) ≡ false
  pub held : (in_flight f i && not st.2) ≡ false

-- No entry of the table has the key of a request.
abbrev pub AllAbsent : EntrySpace → (ℕ → Bool) → List Work → Type 0
AllAbsent es tabled [] = Unit
AllAbsent es tabled (w ∷ ws) =
    Found es tabled w.full_path_name w.cache_page_index none × AllAbsent es tabled ws

-- No two requests have one key.
abbrev pub IsDistinct : List Work → Type 0
IsDistinct [] = Unit
IsDistinct (w ∷ ws) = (any (is_same w.full_path_name w.cache_page_index) ws ≡ false) × IsDistinct ws

-- The requests that are not done: the oldest one is done once the worker is finishing.
abbrev pub waiting : Flight → List Work → List Work
waiting finishing [] = []
waiting finishing (w ∷ ws) = ws
waiting _ ws = ws

-- The entry that is being promoted has the key of the oldest request.
abbrev pub HasJob : Flight → EntrySpace → List Work → Type 0
HasJob (promoting e) es [] = ⊥
HasJob (promoting e) es (w ∷ ws) = key es e ≡ (w.full_path_name, w.cache_page_index)
HasJob _ es ws = Unit

pub record Queued (m : Mapping) (v : View) (f : Flight) : Type 0 where
  pub valid : Inv.IsValid m.wq
  pub distinct : IsDistinct (contents m.wq)
  pub absent : AllAbsent m.es v.tabled (waiting f (contents m.wq))
  pub job : HasJob f m.es (contents m.wq)

pub record IsMapping (m : Mapping) (v : View) (f : Flight) : Type 0 where
  pub shape : Shape m v
  pub placed : (i : ℕ) → Placed m.cache_block_num (status m.es i) v f i
  pub num : m.cache_block_num ≤ cache_block_number
  pub begin : m.ea.begin ≡ 0
  pub allocated : m.ea.nr_allocated + length v.free ≡ m.cache_block_num
  pub queued : Queued m v f
