-- ===== src/HashTable.antt =====
-- lib/ssd_cache_mapping.c, `struct hash_table`: buckets of entries chained by `hash_next`. A function
-- that changes the table and the entries returns both.
pub mod Chain
pub mod Hash
pub mod Table
pub mod Steps
pub mod Lookup
pub mod Update
use user_level_ssd_cache_fra.Common.{
  ℕ, zero, suc, ◌+◌, ◌-◌, ◌*◌, ◌/◌, ◌%◌, ◌^◌, Bool, true, false, ◌&&◌, Option, none, some, List, [],
  ◌∷◌, ◌==◌, ltb, if◌then◌else◌, ◌>>=◌, update, Text, same_text,
}
use user_level_ssd_cache_fra.Config.{unsigned_mod, buckets_number, cache_block_number}
use user_level_ssd_cache_fra.Entry.{
  Entry, EntrySpace, indexer_null, to_index, to_entry, set_hash_next,
}

pub record HashTable : Type 0 where
  pub hash_bits : ℕ
  pub buckets : ℕ → ℕ

-- A `char` is signed: a byte from 128 on is negative, and is converted to `unsigned` by wrapping.
abbrev pub char_value : ℕ → ℕ
char_value c = if ltb c 128 then c else c + unsigned_mod - 256

-- `((hash_val << 5) + hash_val) + c`
abbrev pub hash_step : ℕ → ℕ → ℕ
hash_step hash_val c = (hash_val * 2 ^ 5 % unsigned_mod + hash_val + c) % unsigned_mod

unfoldable pub hash_text : ℕ → Text → ℕ
hash_text hash_val [] = hash_val
hash_text hash_val (c ∷ s) = hash_text (hash_step hash_val (char_value c)) s

-- `(hash_val << (32 - hash_bits)) >> (32 - hash_bits)`
abbrev pub keep_bits : ℕ → ℕ → ℕ
keep_bits hash_bits hash_val = hash_val * 2 ^ (32 - hash_bits) % unsigned_mod / 2 ^ (32 - hash_bits)

unfoldable pub hash_32 : Text → ℕ → ℕ → ℕ
unfolding hash_text
hash_32 full_path_name cache_page_index hash_bits =
    keep_bits hash_bits (hash_text (hash_step 5381 cache_page_index) full_path_name)

-- `__builtin_clz` of an `unsigned` that is not zero: the zero bits above its highest one, of the
-- bits below `2 ^ k`.
clz_below : ℕ → ℕ → ℕ
clz_below zero n = 0
clz_below (suc k) n = let rest = clz_below k n in if ltb n (2 ^ k) then suc rest else 0

unfoldable pub clz : ℕ → ℕ
unfolding clz_below
clz n = clz_below 32 n

-- the loop over the first `n` buckets
clear_buckets : ℕ → (ℕ → ℕ) → ℕ → ℕ
clear_buckets n buckets i = if ltb i n then indexer_null else buckets i

unfoldable pub alloc_hash_table : HashTable → HashTable
unfolding clz clear_buckets
alloc_hash_table ht = record {
  hash_bits = 31 - clz buckets_number;
  buckets = clear_buckets buckets_number ht.buckets;
}

abbrev pub h_head : HashTable → EntrySpace → ℕ → Option ℕ
h_head ht es bucket = to_entry (ht.buckets bucket)

abbrev pub h_next : EntrySpace → ℕ → Option ℕ
h_next es e = to_entry (es.entrys e).hash_next

-- `__h_insert`
unfoldable pub insert_at : HashTable → EntrySpace → ℕ → ℕ → HashTable × EntrySpace
insert_at ht es bucket e = (
  record ht { buckets = update ht.buckets bucket (to_index e) },
  set_hash_next es e (ht.buckets bucket),
)

-- the bucket of an entry
abbrev pub bucket_of : HashTable → Entry → ℕ
bucket_of ht e = hash_32 e.full_path_name e.cache_page_index ht.hash_bits

unfoldable pub h_insert : HashTable → EntrySpace → ℕ → HashTable × EntrySpace
h_insert ht es e = insert_at ht es (bucket_of ht (es.entrys e)) e

-- the test in the loop of `__h_lookup`
abbrev pub has_key : Text → ℕ → Entry → Bool
has_key name index e = (index == e.cache_page_index) && same_text name e.full_path_name

-- the loop of `__h_lookup` from `e` on, with `*prev`; `none` means that the fuel ran out.
unfoldable pub walk : ℕ → EntrySpace → Text → ℕ → (prev e : Option ℕ) → Option (Option ℕ × Option ℕ)
walk zero es name index prev e = none
walk (suc fuel) es name index prev none = some (none, prev)
walk (suc fuel) es name index prev (some e) =
    let rest = walk fuel es name index (some e) (h_next es e) in
    if has_key name index (es.entrys e) then some (some e, prev) else rest

-- A chain holds each entry at most once, so one round more than there are entries is enough.
abbrev pub walk_fuel : ℕ
walk_fuel = cache_block_number + 1

-- `__h_lookup`: the entry found, and `*prev`
unfoldable pub lookup_at : HashTable → EntrySpace → ℕ → Text → ℕ → Option (Option ℕ × Option ℕ)
lookup_at ht es h name index = walk walk_fuel es name index none (h_head ht es h)

-- `__h_unlink`
unfoldable pub unlink_at : HashTable → EntrySpace → ℕ → ℕ → Option ℕ → HashTable × EntrySpace
unlink_at ht es h e (some prev) = (ht, set_hash_next es prev (es.entrys e).hash_next)
unlink_at ht es h e none = (record ht { buckets = update ht.buckets h (es.entrys e).hash_next }, es)

-- the end of `h_lookup`: an entry that is not the first of its bucket moves to the front
unfoldable pub move_to_front :
    HashTable → EntrySpace → ℕ → Option ℕ → Option ℕ → HashTable × EntrySpace
move_to_front ht es h (some e) (some prev) =
    let (ht₁, es₁) = unlink_at ht es h e (some prev) in insert_at ht₁ es₁ h e
move_to_front ht es h e prev = (ht, es)

unfoldable pub h_lookup :
    HashTable → EntrySpace → Text → ℕ → Option (Option ℕ × HashTable × EntrySpace)
h_lookup ht es name index = do
  let h = hash_32 name index ht.hash_bits
  (e, prev) ← lookup_at ht es h name index
  let (ht₁, es₁) = move_to_front ht es h e prev
  some (e, ht₁, es₁)

-- the end of `h_remove`
unfoldable pub unlink_found :
    HashTable → EntrySpace → ℕ → Option ℕ → Option ℕ → HashTable × EntrySpace
unlink_found ht es h (some e) prev = unlink_at ht es h e prev
unlink_found ht es h none prev = (ht, es)

unfoldable pub h_remove : HashTable → EntrySpace → ℕ → Option (HashTable × EntrySpace)
h_remove ht es e = do
  let key = es.entrys e
  let h = bucket_of ht key
  (found, prev) ← lookup_at ht es h key.full_path_name key.cache_page_index
  some (unlink_found ht es h found prev)
