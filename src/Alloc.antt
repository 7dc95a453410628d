-- ===== src/Alloc.antt =====
-- lib/ssd_cache_mapping.c, `struct entry_alloc`: the free list, and entries taken from and given back
-- to it. A function that changes the allocator and the entries returns both.
use user_level_ssd_cache_fra.Common.{
  ℕ, zero, suc, ◌+◌, ◌-◌, ◌%◌, Bool, true, false, Option, none, some,
}
use user_level_ssd_cache_fra.Config.{unsigned_mod}
use user_level_ssd_cache_fra.Entry.{EntrySpace, to_index, put_entry, init_entry, entry_set_alloc}
use user_level_ssd_cache_fra.Ilist.{Ilist, l_init, l_add_tail, l_empty, l_pop_head, inc, dec}

pub record EntryAlloc : Type 0 where
  pub begin : ℕ
  pub nr_allocated : ℕ
  pub free : Ilist

-- `a - b` on `unsigned`
abbrev pub sub_unsigned : ℕ → ℕ → ℕ
sub_unsigned a b = (a + unsigned_mod - b) % unsigned_mod

-- the loop `for (i = begin; i != end; i++)`, with the rounds that are left
unfoldable pub add_range : ℕ → ℕ → EntrySpace → Ilist → EntrySpace × Ilist
add_range zero i es l = (es, l)
add_range (suc rounds) i es l = let (es₁, l₁) = l_add_tail es l i in add_range rounds (inc i) es₁ l₁

unfoldable pub init_allocator : EntryAlloc → EntrySpace → (begin end : ℕ) → EntryAlloc × EntrySpace
init_allocator ea es begin end =
    let (es₁, free) = add_range (sub_unsigned end begin) begin es (l_init ea.free) in
    (record { begin = begin; nr_allocated = 0; free = free }, es₁)

-- `init_entry` and `entry_set_alloc(e, true)`, on the entry at `e`
abbrev pub reset_entry : EntrySpace → ℕ → EntrySpace
reset_entry es e = put_entry es e (entry_set_alloc (init_entry (es.entrys e)) true)

-- `none` is a fault: the source goes on with the entry that `l_pop_head` gives, which would be null.
unfoldable pub alloc_entry : EntryAlloc → EntrySpace → Option (Option ℕ × EntryAlloc × EntrySpace)
alloc_entry ea es = elim (l_empty ea.free) [
  | true ↦ some (none, ea, es)
  | false ↦
      (let (popped, es₁, free) = l_pop_head es ea.free in
        elim popped [
          | none ↦ none
          | some e ↦ some (
            some e,
            record ea { free = free; nr_allocated = inc ea.nr_allocated },
            reset_entry es₁ e,
          )
        ])
]

unfoldable pub free_entry : EntryAlloc → EntrySpace → ℕ → EntryAlloc × EntrySpace
free_entry ea es e =
    let es₁ = put_entry es e (entry_set_alloc (es.entrys e) false) in
    let (es₂, free) = l_add_tail es₁ ea.free e in
    (record ea { free = free; nr_allocated = dec ea.nr_allocated }, es₂)

abbrev pub allocator_empty : EntryAlloc → Bool
allocator_empty ea = l_empty ea.free

-- `get_index`
abbrev pub get_index : EntryAlloc → ℕ → ℕ
get_index ea e = sub_unsigned (to_index e) ea.begin
