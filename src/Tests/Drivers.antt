-- ===== src/Tests/Drivers.antt =====
-- The polling loops against a driver that runs a callback at every second poll, and a request against
-- storage on which every call succeeds.
use user_level_ssd_cache_fra.Common.{
  List, Option, ◌∷◌, refl, ap, ℕ, ◌+◌, ◌%◌, ◌≡◌, some, none, [], ◌==◌, if◌then◌else◌,
}
use user_level_ssd_cache_fra.Config.{Operate}
use user_level_ssd_cache_fra.Pio.{Node, Pio}
use user_level_ssd_cache_fra.Mapping.Inv.{idle}
use user_level_ssd_cache_fra.Mapping.Safety.{Holds}
use user_level_ssd_cache_fra.Target.{Cache, Storage, submit_pio}
use user_level_ssd_cache_fra.Target.Submit.{submit_pio-Holds}
use user_level_ssd_cache_fra.Tests.Fixtures.{file_a, filled, filled-IsMapping}
use user_level_ssd_cache_fra.Target.{check_pio}
use user_level_ssd_cache_fra.Target.Answer.{Answer, submit_pio-Answer}
use user_level_ssd_cache_fra.Target.Hit.{
  IsCached, IsRequest, SameBlocks, submit_all, command_all, submit_all-command_all,
}
use user_level_ssd_cache_fra.Mapping.{Mapping, init_mapping}
use user_level_ssd_cache_fra.Mapping.Inv.{IsMapping}
use user_level_ssd_cache_fra.Mapping.Insert.{inserted, insert_dirty-inserted}
use user_level_ssd_cache_fra.Mapping.Start.{fresh_view}
use user_level_ssd_cache_fra.Mapping.Status.{key}
use user_level_ssd_cache_fra.Tests.Fixtures.{fresh, fresh-IsMapping, nothing_tabled}
use user_level_ssd_cache_fra.Spdk.{Driver, readv_spdk, writev_spdk}

-- The world counts the polls. A command of no block is refused, and any other completes with an error.
abbrev slow : Driver
slow = record {
  World = ℕ;
  ns_cmd_read = λ q offset n w. (if n == 0 then 22 else 0, w);
  ns_cmd_write = λ q offset n w. (if n == 0 then 22 else 0, w);
  ns_cmd_readv = λ q iovs offset n w. (if n == 0 then 22 else 0, w);
  ns_cmd_writev = λ q iovs offset n w. (if n == 0 then 22 else 0, w);
  ns_cmd_dataset_management = λ q offset n w. (0, w);
  process_completions = λ q w. (if w % 2 == 1 then some 6 else none, w + 1);
}

-- storage on which every call succeeds
abbrev willing : Storage
willing = record {
  World = Unit;
  strlen = λ b w. if b == 0 then none else some 4096;
  readv_spdk = λ iovs offset n w. (0, w);
  writev_spdk = λ iovs offset n w. (0, w);
  open_read = λ name w. (some 3, w);
  open_write = λ name w. (some 3, w);
  preadv = λ fd iovs offset w. (some 8192, w);
  pwritev = λ fd iovs offset w. (some 8192, w);
  close = λ fd w. w;
}

readable : (w : Unit) → (len : ℕ) × (willing.strlen 4096 w ≡ some len)
readable w = (4096, refl)

-- a write of pages 9 and 10, whose cache block is in the cache
abbrev page_9 : Node
page_9 = record {
  full_path_name = file_a;
  fd = 0;
  page_index = 9;
  operation = Operate.write;
  buffer = 4096;
  pio_cnt = 2;
}

abbrev full_cache : Cache
full_cache = record {
  cache_dev = record {
    block_size = 512;
    device_size = 0;
    cache_block_num = 1;
    block_per_cblock_shift = 6;
    block_per_page_shift = 3;
  };
  cache_map = filled;
}

submit_pio-Holds_example :
    (rc : ℕ) × (cache' : Cache) × (w' : Unit) × (submit_pio willing full_cache page_9
        (page_9 ∷ [])
        tt
      ≡ some (rc, cache', w'))
    × Holds cache'.cache_map idle
submit_pio-Holds_example =
    submit_pio-Holds willing full_cache page_9 (page_9 ∷ []) tt filled-IsMapping
      (λ e at. refl, (readable, (readable, tt)))

-- The whole block of page 8 has been inserted into the empty cache.
inserted_of :
    (m' : Mapping) × IsMapping m' (inserted (fresh_view 1) 0 []) idle × (key m'.es 0 ≡ (file_a, 1))
unfolding init_mapping
inserted_of =
    let (m', step, inv, ins, wq) =
      insert_dirty-inserted fresh-IsMapping file_a 1 0 [] refl (λ i p _. nothing_tabled i p) refl in
    (m', inv, ins.key_of 0)

abbrev new_cache : Cache
new_cache = record full_cache { cache_map = inserted_of.0 }

-- a read of page 15
abbrev page_15 : Node
page_15 = record page_9 { page_index = 15; operation = Operate.read; pio_cnt = 1 }

page_9-IsRequest : IsRequest willing file_a 1 page_9 (page_9 ∷ [])
unfolding check_pio
page_9-IsRequest = record {
  of_name = refl;
  of_index = refl;
  maps = refl;
  checked = refl;
  paged = (readable, (readable, tt));
}

page_15-IsRequest : IsRequest willing file_a 1 page_15 []
unfolding check_pio
page_15-IsRequest = record {
  of_name = refl;
  of_index = refl;
  maps = refl;
  checked = refl;
  paged = (readable, tt);
}

new_cache-IsCached : IsCached new_cache idle file_a 1 0
new_cache-IsCached = record {
  view = inserted (fresh_view 1) 0 [];
  valid = inserted_of.1;
  found = (refl, (ap (λ k. k.0) inserted_of.2, ap (λ k. k.1) inserted_of.2));
}

abbrev two_requests : List (Node × Pio)
two_requests = (page_9, page_9 ∷ []) ∷ (page_15, []) ∷ []

submit_all-command_all_example :
    (cache' : Cache) × (submit_all willing new_cache two_requests tt
      ≡ some (
        (command_all willing new_cache 0 two_requests tt).0,
        cache',
        (command_all willing new_cache 0 two_requests tt).1,
      ))
    × IsCached cache' idle file_a 1 0
    × SameBlocks new_cache cache'
submit_all-command_all_example =
    submit_all-command_all willing idle file_a 1 0 new_cache two_requests tt new_cache-IsCached
      (page_9-IsRequest, (page_15-IsRequest, tt))

-- a write of the whole cache page to the empty cache
abbrev fresh_cache : Cache
fresh_cache = record full_cache { cache_map = fresh }

abbrev page_8 : Node
page_8 = record page_9 { page_index = 8; pio_cnt = 8 }

abbrev pages_after_8 : Pio
pages_after_8 = page_9 ∷ page_9 ∷ page_9 ∷ page_9 ∷ page_9 ∷ page_9 ∷ page_9 ∷ []

page_8-IsRequest : IsRequest willing file_a 1 page_8 pages_after_8
unfolding check_pio
page_8-IsRequest = record {
  of_name = refl;
  of_index = refl;
  maps = refl;
  checked = refl;
  paged = (
    readable,
    (readable, (readable, (readable, (readable, (readable, (readable, (readable, tt))))))),
  );
}

submit_pio-Answer_example :
    (r : Option ℕ) × Answer willing fresh_cache
      (fresh_view 1)
      idle
      file_a
      1
      page_8
      pages_after_8
      tt
      (submit_pio willing fresh_cache page_8 pages_after_8 tt)
      r
submit_pio-Answer_example =
    submit_pio-Answer willing fresh_cache page_8 pages_after_8 tt fresh-IsMapping page_8-IsRequest
