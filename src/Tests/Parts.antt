-- ===== src/Tests/Parts.antt =====
-- The theorems about the work queue, the lists, the hash table and the requests at small inputs.
use user_level_ssd_cache_fra.Common.{
  Bool, ◌↔◌, ℕ, ◌+◌, ◌*◌, ◌%◌, ◌^◌, ◌≡◌, ◌≤◌, ◌<◌, refl, true, false, List, [], ◌∷◌, ◌++◌, arith,
  ==_refl, has, without, some, Option, update,
}
use user_level_ssd_cache_fra.Config.{Operate}
use user_level_ssd_cache_fra.WorkQueue.{WorkQueue, contains_work}
use user_level_ssd_cache_fra.WorkQueue.Inv.{contents}
use user_level_ssd_cache_fra.WorkQueue.Inv
use user_level_ssd_cache_fra.WorkQueue.Ops.{Op, queue_run, ring_run}
use user_level_ssd_cache_fra.WorkQueue.Refine.{ring_run-queue_run}
use user_level_ssd_cache_fra.WorkQueue.Search.{HasAlike, contains_work-HasAlike}
use user_level_ssd_cache_fra.Entry.{EntrySpace}
use user_level_ssd_cache_fra.Ilist.{Ilist, l_init, l_add_tail, l_del}
use user_level_ssd_cache_fra.Ilist.Defs.{IsList, Relinked, l_init-IsList}
use user_level_ssd_cache_fra.Ilist.Add.{l_add_tail-append}
use user_level_ssd_cache_fra.Ilist.Del.{l_del-without}
use user_level_ssd_cache_fra.HashTable.{
  HashTable, alloc_hash_table, bucket_of, h_lookup, h_insert, h_remove,
}
use user_level_ssd_cache_fra.HashTable.Table.{IsTable, Rechained, alloc_hash_table-IsTable}
use user_level_ssd_cache_fra.HashTable.Lookup.{Answer, Searched, h_lookup-Answer}
use user_level_ssd_cache_fra.HashTable.Update.{h_insert-IsTable, h_remove-IsTable}
use user_level_ssd_cache_fra.Pio.{Node, Pio, append_pio}
use user_level_ssd_cache_fra.Pio.Pages.{IsRun, appended, append_pio-IsRun}
use user_level_ssd_cache_fra.Sgl.{Iovec, IoReq, reset_sgl_fn, next_sge_fn}
use user_level_ssd_cache_fra.Sgl.Cover.{
  pending, all_bytes, bytes, drop, IsReady, reset_sgl_fn-pending, next_sge_fn-pending,
}
use user_level_ssd_cache_fra.Target.{Cache, target_block, check_pio}
use user_level_ssd_cache_fra.Target.Range.{target_block_bounds}
use user_level_ssd_cache_fra.Mapping.Worker.{shift_left}
use user_level_ssd_cache_fra.Tests.Fixtures.{
  file_a, zeroed, zero_entry, zero_list, empty_queue, empty_queue-IsValid,
}

abbrev calls : List Op
calls = Op.insert file_a 1 ∷ Op.insert file_a 1 ∷ Op.peak ∷ Op.remove ∷ Op.remove ∷ []

ring_run-queue_run_example :
    ring_run empty_queue calls ≡ some (queue_run (contents empty_queue) calls)
ring_run-queue_run_example = ring_run-queue_run calls empty_queue empty_queue-IsValid

-- one request is queued
abbrev one_work : WorkQueue
one_work = record {
  works = λ _. record { full_path_name = file_a; cache_page_index = 1 };
  front = 15;
  rear = 0;
  size = 1;
}

one_work-IsValid : Inv.IsValid one_work
one_work-IsValid = record { front_in = omega arith; size_in = omega arith; rear_at = refl }

contains_work-HasAlike_example :
    (b : Bool) × (contains_work one_work file_a 1 ≡ some b)
    × ((b ≡ true) ↔ HasAlike file_a 1 (contents one_work))
contains_work-HasAlike_example = contains_work-HasAlike one_work file_a 1 one_work-IsValid

abbrev es₀ : EntrySpace
es₀ = zeroed.es

empty-IsList : IsList es₀ (l_init zero_list) []
empty-IsList = l_init-IsList es₀ zero_list

abbrev es₁ : EntrySpace
es₁ = (l_add_tail es₀ (l_init zero_list) 3).0

abbrev list₁ : Ilist
list₁ = (l_add_tail es₀ (l_init zero_list) 3).1

one-IsList : IsList es₁ list₁ (3 ∷ [])
one-IsList = (l_add_tail-append 3 empty-IsList refl (omega arith)).0

l_del-without_example :
    IsList (l_del es₁ list₁ 3).0 (l_del es₁ list₁ 3).1 (without 3 (3 ∷ []))
    × Relinked (3 ∷ []) es₁ (l_del es₁ list₁ 3).0
l_del-without_example = l_del-without 3 one-IsList refl

abbrev ht₀ : HashTable
ht₀ = alloc_hash_table zeroed.table

empty-IsTable : IsTable ht₀ es₀ (λ _. [])
empty-IsTable = alloc_hash_table-IsTable zeroed.table es₀

nothing_inside : (i : ℕ) → has i [] ≡ true → ⊥
nothing_inside i h = ground arith

-- the bucket of the zeroed entry, and the table that holds entry 5
abbrev home : ℕ
home = bucket_of ht₀ zero_entry

h_insert-IsTable_example :
    IsTable (h_insert ht₀ es₀ 5).0 (h_insert ht₀ es₀ 5).1 (update (λ _. []) home (5 ∷ []))
    × Rechained es₀ (h_insert ht₀ es₀ 5).1
h_insert-IsTable_example =
    h_insert-IsTable empty-IsTable 5 (omega arith) (λ k. refl) (λ k i h _. nothing_inside i h)

abbrev ht₁ : HashTable
ht₁ = (h_insert ht₀ es₀ 5).0

abbrev es₂ : EntrySpace
es₂ = (h_insert ht₀ es₀ 5).1

abbrev chains₁ : ℕ → List ℕ
chains₁ = update (λ _. []) home (5 ∷ [])

one-IsTable : IsTable ht₁ es₂ chains₁
one-IsTable =
    (h_insert-IsTable empty-IsTable 5 (omega arith) (λ k. refl) (λ k i h _. nothing_inside i h)).0

h_lookup-Answer_example :
    (r : Option ℕ) × (ht' : HashTable) × (es' : EntrySpace) × (h_lookup ht₁ es₂ [] 0
      ≡ some (r, ht', es'))
    × Answer es₂ chains₁ [] 0 r
    × Searched es₂ chains₁ ht' es'
h_lookup-Answer_example = h_lookup-Answer one-IsTable [] 0

in_home : has 5 (chains₁ home) ≡ true
in_home = rw ==_refl

h_remove-IsTable_example :
    (ht' : HashTable) × (es' : EntrySpace) × (h_remove ht₁ es₂ 5 ≡ some (ht', es'))
    × IsTable ht' es' (update chains₁ home (without 5 (chains₁ home)))
    × Rechained es₂ es'
h_remove-IsTable_example = h_remove-IsTable one-IsTable home 5 in_home

-- a write of two pages, from page 9 of the file on
abbrev first : Node
first = record {
  full_path_name = file_a;
  fd = 0;
  page_index = 9;
  operation = Operate.write;
  buffer = 4096;
  pio_cnt = 2;
}

append_pio-IsRun_example :
    (rest' : Pio) × (append_pio true (first ∷ []) 8192 ≡ some (first ∷ rest'))
    × IsRun first rest'
    × (rest' ≡ appended first [] 8192 ∷ [])
append_pio-IsRun_example = append_pio-IsRun true first [] 8192 tt

-- blocks of 512 bytes: eight a page
abbrev cache : Cache
cache = record {
  cache_dev = record {
    block_size = 512;
    device_size = 0;
    cache_block_num = 1;
    block_per_cblock_shift = 6;
    block_per_page_shift = 3;
  };
  cache_map = record zeroed { block_per_cblock_shift = 6; block_per_page_shift = 3 };
}

target_block_bounds_example :
    (target_block cache first 7 ≡ 7 * 2 ^ (3 + 3) + 9 % 8 * 2 ^ 3)
    × (shift_left 2 3 ≡ 2 * 2 ^ 3)
    × (target_block cache first 7 + shift_left 2 3 ≤ (7 + 1) * 2 ^ (3 + 3))
unfolding check_pio
target_block_bounds_example =
    target_block_bounds cache first 3 7 (record { page = refl; cblock = refl; small = omega arith })
      (omega arith) refl

abbrev buffers : List Iovec
buffers = record { iov_base = 100; iov_len = 4 } ∷ record { iov_base = 200; iov_len = 3 } ∷ []

abbrev request : IoReq
request = record { is_completed = false; iov_offset = 1; iovs = buffers; rest = buffers }

reset_sgl_fn-pending_example :
    (pending (reset_sgl_fn request 5) ≡ drop 5 (all_bytes request.iovs))
    × IsReady (reset_sgl_fn request 5)
reset_sgl_fn-pending_example = reset_sgl_fn-pending request 5

next_sge_fn-pending_example :
    (address len : ℕ) × (req' : IoReq) × (next_sge_fn request ≡ some ((address, len), req'))
    × (0 < len)
    × (pending request ≡ bytes address len ++ pending req')
    × IsReady req'
    × (req'.rest ≡ record { iov_base = 200; iov_len = 3 } ∷ [])
next_sge_fn-pending_example =
    next_sge_fn-pending request (record { iov_base = 100; iov_len = 4 })
      (record { iov_base = 200; iov_len = 3 } ∷ []) refl (omega arith) (omega arith)
      (omega arith, tt)
