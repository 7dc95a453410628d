-- ===== src/Tests/Lifecycle.antt =====
-- The shared memory, the start of the cache, and its users, on a system with one object and one device.
use user_level_ssd_cache_fra.Common.{
  ℕ, ◌+◌, Text, ap, ◌∙◌, update, ◌≢◌, same_text_refl, ◌≡◌, refl, Bool, true, false, not, ◌||◌, ◌&&◌,
  Option, none, some, [], ◌∷◌, same_text, arith, if◌then◌else◌,
}
use user_level_ssd_cache_fra.Mapping.{Mapping, init_mapping}
use user_level_ssd_cache_fra.Shm.{Sharing, map_shared, map_private, alloc_shm, link_shm}
use user_level_ssd_cache_fra.Shm
use user_level_ssd_cache_fra.Shm.Objects.{none≢some, IsPosix, IsMapped, alloc_shm-link_shm}
use user_level_ssd_cache_fra.Spdk.Setup.{
  CtrlrEntry, Nvme, nvme_addr, reset_ctrlr_and_ns, init_spdk, attach_all, attach_cb, first_ns,
  register_ns, after_probe, create_qpairs, get_device_info,
}
use user_level_ssd_cache_fra.Spdk.Attach.{HasNamespaces, is_available, init_spdk-is_available}
use user_level_ssd_cache_fra.Api.{
  State, Threads, init_ssd_cache, link_ssd_cache, start_cache, build_cache, run_cache,
  wakeup_mg_worker, build_device,
}
use user_level_ssd_cache_fra.Api.Start.{IsZeroed, HasSectors, Init, init_ssd_cache-Init}
use user_level_ssd_cache_fra.Api.Link.{Visit, link_ssd_cache-unlink_ssd_cache}
use user_level_ssd_cache_fra.Tests.Fixtures.{file_a, zeroed, zeroed-status, empty_queue-IsValid}

-- The world says whether the name of the object exists.
abbrev pub one_object : Shm.System Bool
one_object = record {
  shm_open = λ name create w. (if create || w then some 3 else none, create || w);
  ftruncate = λ fd size w. (true, w);
  mmap = λ size prot flags fd w. (some 4096, w);
  munmap = λ address size w. (true, w);
  shm_unlink = λ name w. (true, false);
}

-- Names and their objects, and for each process the object of its one descriptor and of its one mapping.
record Objects : Type 0 where
  names : Text → Option ℕ
  descriptors : ℕ → Option ℕ
  mappings : ℕ → Option ℕ
  next_object : ℕ

abbrev open_at : ℕ → Text → Bool → Option ℕ → Objects → Option ℕ × Objects
open_at p name create (some o) w =
    (some 3, record w { descriptors = update w.descriptors p (some o) })
open_at p name false none w = (none, w)
open_at p name true none w = (
  some 3,
  record w {
    names = λ n. if same_text n name then some w.next_object else w.names n;
    descriptors = update w.descriptors p (some w.next_object);
    next_object = w.next_object + 1;
  },
)

abbrev unlinked_at : Text → Text → Option ℕ → Option ℕ
unlinked_at name n o = if same_text n name then none else o

abbrev map_at : ℕ → Sharing → Objects → Objects
map_at p map_shared w = record w { mappings = update w.mappings p (w.descriptors p) }
map_at p map_private w = record w { mappings = update w.mappings p none }

abbrev processes : ℕ → Shm.System Objects
processes p = record {
  shm_open = λ name create w. open_at p name create (w.names name) w;
  ftruncate = λ fd size w. (true, w);
  mmap = λ size prot flags fd w. (some 4096, map_at p flags w);
  munmap = λ address size w. (true, record w { mappings = update w.mappings p none });
  shm_unlink = λ name w. (true, record w { names = λ n. unlinked_at name n (w.names n) });
}

own : (f : ℕ → Option ℕ) (p : ℕ) (o : Option ℕ) → update f p o p ≡ o
own f p o = ground arith

others : (f : ℕ → Option ℕ) (p q : ℕ) (o : Option ℕ) → p ≢ q → update f p o q ≡ f q
others f p q o ne = ground arith

opens :
    (p : ℕ) (name : Text) (create : Bool) (w : Objects) (found : Option ℕ) (fd : ℕ)
    → w.names name ≡ found
    → (open_at p name create found w).0 ≡ some fd
    → (o : ℕ) × ((open_at p name create found w).1.names name ≡ some o)
      × ((open_at p name create found w).1.descriptors p ≡ some o)
opens p name create w (some o) fd at h = (o, at, own w.descriptors p (some o))
opens p name false w none fd at h = absurd (none≢some h)
opens p name true w none fd at h =
    (w.next_object, rw (same_text_refl name) refl, own w.descriptors p (some w.next_object))

keeps_name :
    (p : ℕ) (name : Text) (create : Bool) (w : Objects) (found : Option ℕ) (o : ℕ)
    → w.names name ≡ found
    → found ≡ some o
    → (open_at p name create found w).1.names name ≡ some o
keeps_name p name create w (some o') o at h = at ∙ h
keeps_name p name create w none o at h = absurd (none≢some h)

keeps_mappings :
    (p : ℕ) (name : Text) (create : Bool) (w : Objects) (found : Option ℕ)
    → (open_at p name create found w).1.mappings ≡ w.mappings
keeps_mappings p name create w (some o) = refl
keeps_mappings p name false w none = refl
keeps_mappings p name true w none = refl

maps_names : (p : ℕ) (flags : Sharing) (w : Objects) → (map_at p flags w).names ≡ w.names
maps_names p map_shared w = refl
maps_names p map_private w = refl

maps_others :
    (p q : ℕ) (flags : Sharing) (w : Objects) → p ≢ q → (map_at p flags w).mappings q ≡ w.mappings q
maps_others p q map_shared w ne = others w.mappings p q (w.descriptors p) ne
maps_others p q map_private w ne = others w.mappings p q none ne

processes-IsPosix : IsPosix processes
processes-IsPosix = record {
  named = λ w name. w.names name;
  opened = λ w p fd. w.descriptors p;
  mapped = λ w p a. w.mappings p;
  open_object = λ p name create w fd h. opens p name create w (w.names name) fd refl h;
  open_named = λ p name create w o h. keeps_name p name create w (w.names name) o refl h;
  open_mapped =
      λ p name create w q a. ap (λ f. f q) (keeps_mappings p name create w (w.names name));
  open_missing = λ p name w h. rw h refl;
  sized_named = λ p fd size w name. refl;
  sized_opened = λ p fd size w q fd'. refl;
  map_named = λ p size prot flags fd w name. ap (λ f. f name) (maps_names p flags w);
  map_object = λ p size prot fd w a h. own w.mappings p (w.descriptors p);
  map_copy = λ p size prot fd w a h. own w.mappings p none;
  map_mapped = λ p size prot flags fd w q a ne. maps_others p q flags w ne;
  unlink_named = λ p name w h. rw (same_text_refl name) refl;
}

abbrev no_objects : Objects
no_objects = record {
  names = λ _. none;
  descriptors = λ _. none;
  mappings = λ _. none;
  next_object = 7;
}

-- after process 1 has allocated the object, and then after process 2 has linked to it
abbrev allocated : Objects
allocated = (alloc_shm (processes 1) file_a 64 no_objects).1

abbrev shared_by_two : Objects
shared_by_two = (link_shm (processes 2) file_a 64 allocated).1

alloc_shm-link_shm_example :
    (o : ℕ) × IsMapped processes processes-IsPosix shared_by_two file_a 1 4096 o
    × IsMapped processes processes-IsPosix shared_by_two file_a 2 4096 o
unfolding alloc_shm link_shm same_text
alloc_shm-link_shm_example =
    alloc_shm-link_shm processes processes-IsPosix 1 2 file_a 64 64 no_objects 4096 4096
      (λ e. omega (arith, e)) refl refl

-- a device of 1 GiB with one namespace
abbrev pub one_device : Nvme Bool
one_device = record {
  env_init = λ w. (true, w);
  env_fini = λ w. w;
  probe = λ w. (0, record { traddr = nvme_addr; handle = 1 } ∷ [], w);
  get_first_active_ns = λ ctrlr w. 1;
  get_next_active_ns = λ ctrlr nsid w. 0;
  get_ns = λ ctrlr nsid w. some 5;
  ns_is_active = λ ns w. true;
  alloc_io_qpair = λ ctrlr w. (some 6, w);
  free_io_qpair = λ q w. w;
  detach = λ ctrlr w. w;
  get_sector_size = λ ns w. 512;
  get_size = λ ns w. 1073741824;
}

pub one_device-HasNamespaces : HasNamespaces one_device
one_device-HasNamespaces ctrlr w h = (5, refl)

one_device-HasSectors : HasSectors one_device
one_device-HasSectors ns w = omega arith

abbrev pub threads : Threads Bool
threads = record {
  pthread_create = λ w. (0, 9, w);
  pthread_cancel = λ thread w. w;
  pthread_join = λ thread m w. (0, m, w);
  sleep = λ shared w. (shared, w);
}

abbrev pub before : State Bool
before = record {
  shared_cache = none;
  target = reset_ctrlr_and_ns;
  shared = record {
    running = false;
    count = 0;
    cache = record {
      cache_dev = record {
        block_size = 0;
        device_size = 0;
        cache_block_num = 0;
        block_per_cblock_shift = 0;
        block_per_page_shift = 0;
      };
      cache_map = zeroed;
    };
    mg_worker = 0;
  };
  world = false;
}

zeroed-IsZeroed : IsZeroed zeroed
zeroed-IsZeroed = record { flags = zeroed-status; valid = empty_queue-IsValid; empty = refl }

init_spdk-is_available_example :
    (target' : CtrlrEntry) × (w' : Bool) × (init_spdk one_device 1 reset_ctrlr_and_ns false
      ≡ some (if is_available one_device false then 0 else 1, target', w'))
    × ((is_available one_device false && not target'.isfind) ≡ false)
init_spdk-is_available_example =
    init_spdk-is_available one_device one_device-HasNamespaces 0 reset_ctrlr_and_ns false

init_ssd_cache-Init_example :
    (rc : ℕ) × (st' : State Bool) × (init_ssd_cache one_object one_device threads 64 1 before
      ≡ some (rc, st'))
    × Init one_object one_device threads 64 before rc st'
init_ssd_cache-Init_example =
    init_ssd_cache-Init one_object one_device threads 64 one_device-HasNamespaces
      one_device-HasSectors 0 before (λ stopped. zeroed-IsZeroed)

-- the start succeeds
starts :
    (st' : State Bool) × (init_ssd_cache one_object one_device threads 64 1 before ≡ some (0, st'))
unfolding init_ssd_cache start_cache alloc_shm init_spdk attach_all attach_cb first_ns register_ns
    after_probe build_cache get_device_info run_cache wakeup_mg_worker init_mapping build_device
    same_text create_qpairs
starts = (_, refl)

-- a process that finds the cache running
abbrev pub running : State Bool
running = record before { shared = record (before.shared) { running = true }; world = true }

link_ssd_cache-unlink_ssd_cache_example :
    (rc : ℕ) × (st₁ : State Bool) × (link_ssd_cache one_object one_device threads 64 1 running
      ≡ some (rc, st₁))
    × Visit one_object one_device threads 64 running rc st₁
link_ssd_cache-unlink_ssd_cache_example =
    link_ssd_cache-unlink_ssd_cache one_object one_device threads 64 one_device-HasNamespaces 0
      running (omega arith)
