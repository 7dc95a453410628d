-- ===== src/Api/Users.antt =====
-- lib/ssd_cache_api.c: the sections of `link_ssd_cache`, `unlink_ssd_cache` and `exit_ssd_cache` under
-- the lock of `struct state`, one access of the user count at a time. The processes behave as
-- inc/cache_api.h asks: one of them is the administrator, any other is linked before it is unlinked,
-- and the calls around the sections succeed.
use user_level_ssd_cache_fra.Common.{ℕ, ◌+◌, ◌-◌, ◌%◌, ◌≡◌, Bool, true, false, leb}
use user_level_ssd_cache_fra.Config.{unsigned_mod}
use user_level_ssd_cache_fra.Spinlock.{Sections}

-- `count++` and `count--` on `unsigned`
abbrev pub link_count : ℕ → ℕ
link_count count = (count + 1) % unsigned_mod

abbrev pub unlink_count : ℕ → ℕ
unlink_count count = (count + (unsigned_mod - 1)) % unsigned_mod

-- `count <= 0`
abbrev pub no_users : ℕ → Bool
no_users count = leb count 0

-- A process that has not linked, a user, the administrator until the wait of `exit_ssd_cache` is over,
-- and after that.
pub data Role : Type 0 where
  apart linked admin closing : Role

-- Where a process is in its section, with the value of `count` that it has read.
pub data Spot : Type 0 where
  at_link : Spot
  adding : (count : ℕ) → Spot
  added : Spot
  at_unlink : Spot
  subtracting : (count : ℕ) → Spot
  subtracted : Spot
  at_exit : Spot
  none_left : Spot
  some_left : Spot

pub data Begins : Role → Spot → Type 0 where
  link : Begins apart at_link
  unlink : Begins linked at_unlink
  exit : Begins admin at_exit

pub data Uses : ℕ → Spot → ℕ → Spot → Type 0 where
  load_link : {count : ℕ} → Uses count at_link count (adding count)
  store_link : {count read : ℕ} → Uses count (adding read) (link_count read) added
  load_unlink : {count : ℕ} → Uses count at_unlink count (subtracting count)
  store_unlink : {count read : ℕ} → Uses count (subtracting read) (unlink_count read) subtracted
  test_none : {count : ℕ} → no_users count ≡ true → Uses count at_exit count none_left
  test_some : {count : ℕ} → no_users count ≡ false → Uses count at_exit count some_left

-- The wait goes on after `sleep` while there are users.
pub data Ends : Spot → Role → Type 0 where
  linked_now : Ends added linked
  apart_now : Ends subtracted apart
  wait_over : Ends none_left closing
  wait_on : Ends some_left admin

abbrev pub users : Sections
users = record {
  Data = ℕ;
  Outside = Role;
  Inside = Spot;
  Begin = λ o b. Begins o b;
  Access = λ d l d' l'. Uses d l d' l';
  End = λ l o. Ends l o;
}
