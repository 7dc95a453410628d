-- ===== src/Ilist.antt =====
-- lib/ssd_cache_mapping.c, `struct ilist`: the doubly linked lists of entries that run through the
-- `prev` and `next` of `entrys`. A function that changes the entries and the list returns both.
pub mod Seg
pub mod Defs
pub mod Add
pub mod Del
use user_level_ssd_cache_fra.Common.{
  ℕ, ◌+◌, ◌-◌, ◌%◌, ◌≡◌, Bool, Option, none, some, ◌==◌, if◌then◌else◌, ◌>>=◌, update,
}
use user_level_ssd_cache_fra.Config.{unsigned_mod}
use user_level_ssd_cache_fra.Entry.{
  EntrySpace, indexer_null, to_index, to_entry, put_entry, set_next, set_prev,
}

pub record Ilist : Type 0 where
  pub nr_elts : ℕ
  pub head : ℕ
  pub tail : ℕ

unfoldable pub l_init : Ilist → Ilist
l_init l = record { nr_elts = 0; head = indexer_null; tail = indexer_null }

abbrev pub l_head : EntrySpace → Ilist → Option ℕ
l_head es l = to_entry l.head

abbrev pub l_tail : EntrySpace → Ilist → Option ℕ
l_tail es l = to_entry l.tail

abbrev pub l_next : EntrySpace → ℕ → Option ℕ
l_next es e = to_entry (es.entrys e).next

abbrev pub l_prev : EntrySpace → ℕ → Option ℕ
l_prev es e = to_entry (es.entrys e).prev

abbrev pub l_empty : Ilist → Bool
l_empty l = l.head == indexer_null

-- `nr_elts++` and `nr_elts--` on an `unsigned`
abbrev pub inc : ℕ → ℕ
inc n = (n + 1) % unsigned_mod

abbrev pub dec : ℕ → ℕ
dec n = (n + unsigned_mod - 1) % unsigned_mod

unfoldable pub l_add_head : EntrySpace → Ilist → ℕ → EntrySpace × Ilist
l_add_head es l e =
    let es₁ = set_prev (set_next es e l.head) e indexer_null in
    elim (l_head es l) [
      | some head ↦
          (set_prev es₁ head (to_index e), record l { head = to_index e; nr_elts = inc l.nr_elts })
      | none ↦ (es₁, record { head = to_index e; tail = to_index e; nr_elts = inc l.nr_elts })
    ]

unfoldable pub l_add_tail : EntrySpace → Ilist → ℕ → EntrySpace × Ilist
l_add_tail es l e =
    let es₁ = set_prev (set_next es e indexer_null) e l.tail in
    elim (l_tail es l) [
      | some tail ↦
          (set_next es₁ tail (to_index e), record l { tail = to_index e; nr_elts = inc l.nr_elts })
      | none ↦ (es₁, record { head = to_index e; tail = to_index e; nr_elts = inc l.nr_elts })
    ]

-- the first half of `l_del`: the link into `e` from before it
unfoldable pub unlink_prev : EntrySpace → Ilist → ℕ → Option ℕ → EntrySpace × Ilist
unlink_prev es l e none = (es, record l { head = (es.entrys e).next })
unlink_prev es l e (some prev) = (set_next es prev (es.entrys e).next, l)

-- and the second: the link into `e` from behind it
unfoldable pub unlink_next : EntrySpace → Ilist → ℕ → Option ℕ → EntrySpace × Ilist
unlink_next es l e none = (es, record l { tail = (es.entrys e).prev })
unlink_next es l e (some next) = (set_prev es next (es.entrys e).prev, l)

unfoldable pub l_del : EntrySpace → Ilist → ℕ → EntrySpace × Ilist
unfolding unlink_prev unlink_next
l_del es l e =
    let prev = l_prev es e in
    let next = l_next es e in
    let (es₁, l₁) = unlink_prev es l e prev in
    let (es₂, l₂) = unlink_next es₁ l₁ e next in (es₂, record l₂ { nr_elts = dec l₂.nr_elts })

-- The loop of the source returns in its first round.
unfoldable pub l_pop_head : EntrySpace → Ilist → Option ℕ × EntrySpace × Ilist
l_pop_head es l = elim (l_head es l) [
  | none ↦ (none, es, l)
  | some e ↦ (let (es₁, l₁) = l_del es l e in (some e, es₁, l₁))
]
