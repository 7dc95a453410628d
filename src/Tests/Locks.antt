-- ===== src/Tests/Locks.antt =====
-- The spinlock and the user count at concrete runs.
use user_level_ssd_cache_fra.Common.{
  ℕ, ◌≡◌, refl, false, number, arith, update, if◌then◌else◌, ◌==◌, Bool-cases, inl, inr,
}
use user_level_ssd_cache_fra.Spinlock.{
  compare_exchange, try_lock, outside, spinning, inside, System, is_inside, origin, call, enter,
  access, unlock, pick, begin, Reach, start, later, Onward,
}
use user_level_ssd_cache_fra.Spinlock.Serial.{none_yet, one_more, Serial}
use user_level_ssd_cache_fra.Spinlock.Atomic.{origins, mutual_exclusion, Reach-Serial}
use user_level_ssd_cache_fra.Spinlock.Progress.{CanFinish, can_enter}
use user_level_ssd_cache_fra.Api.Users.{
  Role, apart, linked, admin, at_link, adding, added, at_unlink, subtracting, subtracted, at_exit,
  none_left, some_left, link, exit, load_link, store_link, load_unlink, store_unlink, test_none,
  test_some, linked_now, apart_now, wait_over, wait_on, users, no_users,
}
use user_level_ssd_cache_fra.Api.Count.{is_linked, count-number, none_left-is_linked}

-- Process 0 links while process 1 spins.
abbrev apart_all : ℕ → Role
apart_all i = apart

abbrev calls : System users
calls = record {
  locked = 0;
  protected = 0;
  pc = update (begin {c = users} 0 apart_all).pc 0 (spinning apart at_link link);
}

abbrev takes : System users
takes = record { locked = 1; protected = 0; pc = update calls.pc 0 (inside apart at_link) }

abbrev waits : System users
waits = record takes { pc = update takes.pc 1 (spinning apart at_link link) }

takes-Reach : Reach 2 0 apart_all takes
unfolding try_lock compare_exchange
takes-Reach =
    later (later start (pick 0 (omega arith) (call link)))
      (pick 0 (omega arith) (enter {o = apart} {b = at_link} {begins = link} refl))

waits-Reach : Reach 2 0 apart_all waits
waits-Reach = later takes-Reach (pick 1 (omega arith) (call link))

-- Process 0 has linked.
abbrev reads : System users
reads = record waits { pc = update waits.pc 0 (inside apart (adding 0)) }

abbrev stores : System users
stores = record { locked = 1; protected = 1; pc = update reads.pc 0 (inside apart added) }

abbrev joined : System users
joined = record { locked = 0; protected = 1; pc = update stores.pc 0 (outside linked) }

joined-Reach : Reach 2 0 apart_all joined
joined-Reach =
    later
      (later (later waits-Reach (pick 0 (omega arith) (access load_link)))
        (pick 0 (omega arith) (access store_link)))
      (pick 0 (omega arith) (unlock linked_now))

joined-outside : (i : ℕ) → is_inside (joined.pc i) ≡ false
joined-outside i = ground arith

mutual_exclusion_example : ◌≡◌ {A = ℕ} 0 0
mutual_exclusion_example = mutual_exclusion 2 0 apart_all waits-Reach 0 0 refl refl

Reach-Serial_example : Serial users 2 0 apart_all 1 (origins {c = users} 2 0 apart_all joined)
Reach-Serial_example = Reach-Serial 2 0 apart_all joined-Reach joined-outside

users-CanFinish : CanFinish users
users-CanFinish d at_link = (_, _, _, one_more (one_more none_yet load_link) store_link, linked_now)
users-CanFinish d (adding read) = (_, _, _, one_more none_yet store_link, linked_now)
users-CanFinish d added = (_, _, _, none_yet, linked_now)
users-CanFinish d at_unlink =
    (_, _, _, one_more (one_more none_yet load_unlink) store_unlink, apart_now)
users-CanFinish d (subtracting read) = (_, _, _, one_more none_yet store_unlink, apart_now)
users-CanFinish d subtracted = (_, _, _, none_yet, apart_now)
users-CanFinish d none_left = (_, _, _, none_yet, wait_over)
users-CanFinish d some_left = (_, _, _, none_yet, wait_on)
users-CanFinish d at_exit = elim (Bool-cases (no_users d)) [
  | inl none ↦ (_, _, _, one_more none_yet (test_none none), wait_over)
  | inr some ↦ (_, _, _, one_more none_yet (test_some some), wait_on)
]

can_enter_example : (t : System users) × Onward 2 waits t × (t.pc 1 ≡ inside apart at_link)
can_enter_example = can_enter 2 users-CanFinish waits-Reach 1 apart at_link link (omega arith) refl

count-number_example : joined.protected ≡ number (λ i. is_linked (origin (joined.pc i))) 2
count-number_example = count-number 2 (omega arith) (λ i. refl) joined-Reach joined-outside

-- The administrator finds no users.
abbrev one_admin : ℕ → Role
one_admin i = if i == 0 then admin else apart

abbrev finds : System users
finds = record {
  locked = 1;
  protected = 0;
  pc =
      update
        (update (update (begin {c = users} 0 one_admin).pc 0 (spinning admin at_exit exit)) 0
          (inside admin at_exit))
        0 (inside admin none_left);
}

finds-Reach : Reach 2 0 one_admin finds
unfolding try_lock compare_exchange
finds-Reach =
    later
      (later (later start (pick 0 (omega arith) (call exit)))
        (pick 0 (omega arith) (enter {o = admin} {b = at_exit} {begins = exit} refl)))
      (pick 0 (omega arith) (access (test_none refl)))

one_admin-is_linked : (i : ℕ) → is_linked (one_admin i) ≡ false
one_admin-is_linked i = ground arith

none_left-is_linked_example : is_linked (origin (finds.pc 1)) ≡ false
none_left-is_linked_example =
    none_left-is_linked 2 (omega arith) one_admin-is_linked finds-Reach 0 admin refl 1 (omega arith)
