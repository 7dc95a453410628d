-- ===== src/Tests/Runs.antt =====
-- Whole runs on a system with one object and one device: an I/O unit of an engine, the end of the
-- cache, and a client.
use user_level_ssd_cache_fra.Common.{
  none, ◌+◌, ◌==◌, if◌then◌else◌, ◌≡◌, ◌≢◌, refl, some, inl, [], ◌∷◌, arith, ap, same_text, Bool,
  true, false, List,
}
use mathlib.Core.Bool.{false≢true}
use user_level_ssd_cache_fra.Mapping.Inv.{idle}
use user_level_ssd_cache_fra.Mapping.Safety.{Holds}
use user_level_ssd_cache_fra.Target.{Storage}
use user_level_ssd_cache_fra.Api.{State}
use user_level_ssd_cache_fra.Api.Exit.{Exit}
use user_level_ssd_cache_fra.Fio.{
  make_request, Direction, ddir_write, ddir_other, IoUnit, tester_queue, manager_queue,
}
use user_level_ssd_cache_fra.Fio.Queue.{
  HasBuffer, buffers, first_node, make_request-buffers, myfio_queue-Holds,
}
use user_level_ssd_cache_fra.Pio.{Pio}
use user_level_ssd_cache_fra.Pio.Pages.{IsRun}
use user_level_ssd_cache_fra.Config.{Operate}
use user_level_ssd_cache_fra.Testing.{Memory, Input, exit_line, send_line, client}
use user_level_ssd_cache_fra.Testing.Client.{client-count}
use user_level_ssd_cache_fra.Tests.Fixtures.{file_a, filled, filled-IsMapping}
use user_level_ssd_cache_fra.Tests.Lifecycle.{
  one_object, one_device, one_device-HasNamespaces, threads, running,
}

-- files and a device on which every call succeeds, in the world of the system
abbrev files : Storage
files = record {
  World = Bool;
  strlen = λ b w. if b == 0 then none else some 4096;
  readv_spdk = λ iovs offset n w. (0, w);
  writev_spdk = λ iovs offset n w. (0, w);
  open_read = λ name w. (some 3, w);
  open_write = λ name w. (some 3, w);
  preadv = λ fd iovs offset w. (some 4096, w);
  pwritev = λ fd iovs offset w. (some 4096, w);
  close = λ fd w. w;
}

-- a running cache of one block, which is in use, seen by a process that has linked
abbrev in_use : State Bool
in_use = record running {
  shared_cache = some 4096;
  shared = record (running.shared) { cache = record (running.shared.cache) { cache_map = filled } };
}

-- a write of the page 9
abbrev unit : IoUnit
unit = record {
  ddir = ddir_write;
  file_name = file_a;
  fd = 3;
  offset = 36864;
  xfer_buf = 8192;
  buflen = 4096;
}

is_other : Direction → Bool
is_other ddir_other = true
is_other _ = false

write-other : ddir_write ≢ ddir_other
unfolding is_other
write-other e = false≢true (ap is_other e)

readable : HasBuffer files unit
readable k small w =
    let there : (unit.xfer_buf + k == 0) ≡ false = ground arith in (4096, rw there refl)

-- a write of the pages 9, 10 and 11
abbrev long_unit : IoUnit
long_unit = record unit { buflen = 12288 }

make_request-buffers_example :
    (rest : Pio) × (make_request 4096 true (λ _. true) Operate.write long_unit
      ≡ some (first_node Operate.write long_unit ∷ rest))
    × IsRun (first_node Operate.write long_unit) rest
    × (buffers rest ≡ 12288 ∷ 16384 ∷ [])
make_request-buffers_example = make_request-buffers 4096 Operate.write long_unit

myfio_queue-Holds_example :
    ((st' : State Bool) × (tester_queue files true (λ _. true) unit in_use ≡ some st')
      × Holds st'.shared.cache.cache_map idle)
    × ((st' : State Bool) × (manager_queue files true (λ _. true) unit in_use ≡ some st')
        × Holds st'.shared.cache.cache_map idle)
myfio_queue-Holds_example =
    myfio_queue-Holds files unit in_use (inl refl) write-other readable filled-IsMapping

-- one request, and the end
abbrev lines : List Input
lines =
    record { line = send_line; page = 9; operation = 2; value = 3; created = true }
    ∷ record { line = exit_line; page = 0; operation = 0; value = 0; created = true }
    ∷ []

abbrev one_buffer : Memory Bool
one_buffer = record {
  alloc_dma_buffer = λ w. (8192, w);
  free_dma_buffer = λ buffer w. w;
  memset = λ buffer value len w. if buffer == 0 then none else some w;
}

client-count_example :
    (st' : State Bool) × (client files one_object one_device threads one_buffer 64 1 lines in_use
      ≡ some st')
    × Holds st'.shared.cache.cache_map idle
    × (st'.shared.count ≡ 0)
unfolding same_text
client-count_example =
    client-count files one_object one_device threads one_buffer 64
      (λ w. (λ v w'. (w', refl), λ w'. (4096, refl))) one_device-HasNamespaces 0 lines in_use refl
      (omega arith) (_, filled-IsMapping)
