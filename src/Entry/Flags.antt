-- ===== src/Entry/Flags.antt =====
-- The three flags of an entry are independent, and the arithmetic on `param` is that of the C
-- operators `|` and `&`.
use Prim.Native.Nat.{bit_and, bit_or}
use user_level_ssd_cache_fra.Common.{
  ap, not, ◌==◌, ℕ, zero, suc, ◌-◌, ◌<◌, ◌≡◌, refl, Bool, true, false, some, arith,
}
use user_level_ssd_cache_fra.Entry.{
  Entry, bit, put_bit, entry_set_pending, entry_get_pending, entry_set_dirty, entry_get_dirty,
  entry_set_alloc, entry_get_alloc,
}

-- An entry and another that agree on everything but the flags.
pub record SameBody (e e' : Entry) : Type 0 where
  pub hash_next : e'.hash_next ≡ e.hash_next
  pub prev : e'.prev ≡ e.prev
  pub next : e'.next ≡ e.next
  pub name : e'.full_path_name ≡ e.full_path_name
  pub index : e'.cache_page_index ≡ e.cache_page_index

-- the flags of an entry, in the order of their bits
abbrev pub flags : Entry → Bool × Bool × Bool
flags e = (entry_get_pending (some e), entry_get_dirty (some e), entry_get_alloc (some e))

-- the three bits of a field, by their numbers
abbrev bits : ℕ → Bool × Bool × Bool
bits n = (bit 0 n, bit 1 n, bit 2 n)

bits-put_pending : (n : ℕ) (b : Bool) → bits (put_bit 0 b n) ≡ (b, bit 1 n, bit 2 n)
bits-put_pending n true = ground arith
bits-put_pending n false = ground arith

bits-put_dirty : (n : ℕ) (b : Bool) → bits (put_bit 1 b n) ≡ (bit 0 n, b, bit 2 n)
bits-put_dirty n true = ground arith
bits-put_dirty n false = ground arith

bits-put_alloc : (n : ℕ) (b : Bool) → bits (put_bit 2 b n) ≡ (bit 0 n, bit 1 n, b)
bits-put_alloc n true = ground arith
bits-put_alloc n false = ground arith

-- Setting a flag gives it the value and leaves the other two, and the rest of the entry, alone.
pub flags-entry_set_pending :
    (e : Entry) (b : Bool)
    → (flags (entry_set_pending e b) ≡ (b, (flags e).1, (flags e).2))
      × SameBody e (entry_set_pending e b)
unfolding entry_set_pending entry_get_pending entry_get_dirty entry_get_alloc
flags-entry_set_pending e b = (
  bits-put_pending e.param b,
  record { hash_next = refl; prev = refl; next = refl; name = refl; index = refl },
)

pub flags-entry_set_dirty :
    (e : Entry) (b : Bool)
    → (flags (entry_set_dirty e b) ≡ ((flags e).0, b, (flags e).2))
      × SameBody e (entry_set_dirty e b)
unfolding entry_set_dirty entry_get_pending entry_get_dirty entry_get_alloc
flags-entry_set_dirty e b = (
  bits-put_dirty e.param b,
  record { hash_next = refl; prev = refl; next = refl; name = refl; index = refl },
)

pub flags-entry_set_alloc :
    (e : Entry) (b : Bool)
    → (flags (entry_set_alloc e b) ≡ ((flags e).0, (flags e).1, b))
      × SameBody e (entry_set_alloc e b)
unfolding entry_set_alloc entry_get_pending entry_get_dirty entry_get_alloc
flags-entry_set_alloc e b = (
  bits-put_alloc e.param b,
  record { hash_next = refl; prev = refl; next = refl; name = refl; index = refl },
)

-- the six updates of `param` as the C code writes them, `~m` within three bits being `7 - m`
abbrev AreBitwise : ℕ → Type 0
AreBitwise n =
    (put_bit 0 true n ≡ bit_or n 1)
    × (put_bit 0 false n ≡ bit_and n (7 - 1))
    × (put_bit 1 true n ≡ bit_or n 2)
    × (put_bit 1 false n ≡ bit_and n (7 - 2))
    × (put_bit 2 true n ≡ bit_or n 4)
    × (put_bit 2 false n ≡ bit_and n (7 - 4))

-- on a field of three bits
put_bit-AreBitwise : (n : ℕ) → n < 8 → AreBitwise n
put_bit-AreBitwise zero h = (refl, refl, refl, refl, refl, refl)
put_bit-AreBitwise (suc zero) h = (refl, refl, refl, refl, refl, refl)
put_bit-AreBitwise (suc (suc zero)) h = (refl, refl, refl, refl, refl, refl)
put_bit-AreBitwise (suc (suc (suc zero))) h = (refl, refl, refl, refl, refl, refl)
put_bit-AreBitwise (suc (suc (suc (suc zero)))) h = (refl, refl, refl, refl, refl, refl)
put_bit-AreBitwise (suc (suc (suc (suc (suc zero))))) h = (refl, refl, refl, refl, refl, refl)
put_bit-AreBitwise (suc (suc (suc (suc (suc (suc zero)))))) h = (refl, refl, refl, refl, refl, refl)
put_bit-AreBitwise (suc (suc (suc (suc (suc (suc (suc zero))))))) h =
    (refl, refl, refl, refl, refl, refl)
put_bit-AreBitwise (suc (suc (suc (suc (suc (suc (suc (suc n)))))))) h = absurd (omega arith)

-- the three tests of a bit of `param`
abbrev AreTests : ℕ → Type 0
AreTests n =
    (bit 0 n ≡ not (bit_and n 1 == 0))
    × (bit 1 n ≡ not (bit_and n 2 == 0))
    × (bit 2 n ≡ not (bit_and n 4 == 0))

bit-AreTests : (n : ℕ) → n < 8 → AreTests n
bit-AreTests zero h = (refl, refl, refl)
bit-AreTests (suc zero) h = (refl, refl, refl)
bit-AreTests (suc (suc zero)) h = (refl, refl, refl)
bit-AreTests (suc (suc (suc zero))) h = (refl, refl, refl)
bit-AreTests (suc (suc (suc (suc zero)))) h = (refl, refl, refl)
bit-AreTests (suc (suc (suc (suc (suc zero))))) h = (refl, refl, refl)
bit-AreTests (suc (suc (suc (suc (suc (suc zero)))))) h = (refl, refl, refl)
bit-AreTests (suc (suc (suc (suc (suc (suc (suc zero))))))) h = (refl, refl, refl)
bit-AreTests (suc (suc (suc (suc (suc (suc (suc (suc n)))))))) h = absurd (omega arith)

-- The entry with the bits of `mask` set or cleared in its field of three bits.
abbrev pub masked : Entry → (mask : ℕ) → Bool → Entry
masked e mask true = record e { param = bit_or e.param mask }
masked e mask false = record e { param = bit_and e.param (7 - mask) }

-- For every value of the three bits, setting the pending, the dirty and the allocated flag sets or
-- clears bit 0, 1 and 2 as `|` and `&` do, and changes nothing else of the entry; and the three tests
-- are those of the same bits by `&`.
pub entry_flags-bitwise :
    (e : Entry) (b : Bool)
    → e.param < 8
    → (entry_set_pending e b ≡ masked e 1 b)
      × (entry_set_dirty e b ≡ masked e 2 b)
      × (entry_set_alloc e b ≡ masked e 4 b)
      × (entry_get_pending (some e) ≡ not (bit_and e.param 1 == 0))
      × (entry_get_dirty (some e) ≡ not (bit_and e.param 2 == 0))
      × (entry_get_alloc (some e) ≡ not (bit_and e.param 4 == 0))
unfolding entry_set_pending entry_set_dirty entry_set_alloc entry_get_pending entry_get_dirty
    entry_get_alloc
entry_flags-bitwise e true h =
    let p = put_bit-AreBitwise e.param h in
    let t = bit-AreTests e.param h in
    let with_param : ℕ → Entry = λ n. record e { param = n } in
    (ap with_param p.0, ap with_param p.2, ap with_param p.4, t.0, t.1, t.2)
entry_flags-bitwise e false h =
    let p = put_bit-AreBitwise e.param h in
    let t = bit-AreTests e.param h in
    let with_param : ℕ → Entry = λ n. record e { param = n } in
    (ap with_param p.1, ap with_param p.3, ap with_param p.5, t.0, t.1, t.2)
