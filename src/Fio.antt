-- ===== src/Fio.antt =====
-- fio/ssd-cache-tester, fio/ssd-cache-manager and fio/myspdk: the requests that the engines of fio make
-- of an I/O unit, and their calls of the library. fio itself is a parameter: it gives the I/O unit.
pub mod Queue
use user_level_ssd_cache_fra.Common.{
  ℕ, zero, suc, ◌+◌, ◌/◌, ◌%◌, ◌^◌, Bool, true, false, Option, none, some, List, [], ◌∷◌, ◌==◌, ltb,
  if◌then◌else◌, ◌>>=◌, Text,
}
use user_level_ssd_cache_fra.Config.{Operate, page_size, unsigned_mod}
use user_level_ssd_cache_fra.Pio.{Pio, create_pio, append_pio}
use user_level_ssd_cache_fra.Target.{Storage}
use user_level_ssd_cache_fra.Spdk.{io_queue, Driver, read_spdk, write_spdk}
use user_level_ssd_cache_fra.Shm
use user_level_ssd_cache_fra.Spdk.Setup.{Nvme}
use user_level_ssd_cache_fra.Api.{
  State, Threads, init_ssd_cache, link_ssd_cache, unlink_ssd_cache, force_exit_ssd_cache,
  submit_pio,
}

-- `ddir`: a read, a write, or anything else
pub data Direction : Type 0 where
  ddir_read ddir_write ddir_other : Direction

-- what the engines use of `struct io_u`
pub record IoUnit : Type 0 where
  pub ddir : Direction
  pub file_name : Text
  pub fd : ℕ
  pub offset : ℕ
  pub xfer_buf : ℕ
  pub buflen : ℕ

-- The loop that appends a page at every `offset` up to `buflen`, with the rounds that are left; the
-- first argument says at which offsets `malloc` succeeds.
unfoldable pub append_pages :
    (allocated : ℕ → Bool) → ℕ → Pio → (offset buflen xfer_buf : ℕ) → Option Pio
append_pages allocated zero head offset buflen xfer_buf =
    if ltb offset buflen then none else some head
append_pages allocated (suc rounds) head offset buflen xfer_buf = elim (ltb offset buflen) [
  | false ↦ some head
  | true ↦ (do
    head' ← append_pio (allocated offset) head (xfer_buf + offset)
    append_pages allocated rounds head' (offset + page_size) buflen xfer_buf)
]

-- A round takes a page, so there are no more rounds than pages, and one.
abbrev pub rounds_for : ℕ → ℕ
rounds_for buflen = buflen / page_size + 1

-- The request of an I/O unit, with the offset at which the loop begins: PAGE_SIZE in
-- ssd-cache-tester, 0 in ssd-cache-manager.
unfoldable pub make_request :
    (begins : ℕ) (created : Bool) (allocated : ℕ → Bool) → Operate → IoUnit → Option Pio
unfolding append_pages
make_request begins created allocated operation io_u =
    append_pages allocated (rounds_for io_u.buflen)
      (create_pio created io_u.file_name io_u.fd (io_u.offset / 2 ^ 12 % unsigned_mod) operation
        io_u.xfer_buf (if io_u.buflen == 4096 then 1 else 8))
      begins io_u.buflen io_u.xfer_buf

module _ (s : Storage) (created : Bool) (allocated : ℕ → Bool) where
  -- What the two cases of `myfio_queue` do: the status of `submit_pio` is dropped.
  unfoldable pub send_request :
      (begins : ℕ) → Operate → IoUnit → State (s.World) → Option (State (s.World))
  unfolding make_request
  send_request begins operation io_u st = do
    head ← make_request begins created allocated operation io_u
    (_, st') ← submit_pio s st head
    some st'

  -- `myfio_queue`: the assertion fails on any other direction.
  unfoldable pub myfio_queue : (begins : ℕ) → IoUnit → State (s.World) → Option (State (s.World))
  unfolding send_request
  myfio_queue begins io_u st = elim io_u.ddir [
    | ddir_read ↦ send_request begins Operate.read io_u st
    | ddir_write ↦ send_request begins Operate.write io_u st
    | ddir_other ↦ none
  ]

-- `myfio_queue` of ssd-cache-tester, and of ssd-cache-manager
abbrev pub tester_queue :
    (s : Storage) → Bool → (ℕ → Bool) → IoUnit → State (s.World) → Option (State (s.World))
tester_queue s created allocated io_u st = myfio_queue s created allocated page_size io_u st

abbrev pub manager_queue :
    (s : Storage) → Bool → (ℕ → Bool) → IoUnit → State (s.World) → Option (State (s.World))
manager_queue s created allocated io_u st = myfio_queue s created allocated 0 io_u st

-- `myfio_init` and `myfio_cleanup` of ssd-cache-tester, and `myfio_setup` and `myfio_init` of
-- ssd-cache-manager, where the flag is `isinit`.
module _ {World : Type 0} (os : Shm.System World) (nvme : Nvme World) (th : Threads World)
    (sizeof_cache : ℕ) where
  unfoldable pub tester_init : ℕ → State World → Option (ℕ × State World)
  tester_init rounds st = link_ssd_cache os nvme th sizeof_cache rounds st

  unfoldable pub tester_cleanup : State World → State World
  tester_cleanup st = (unlink_ssd_cache os nvme th sizeof_cache st).1

  unfoldable pub manager_setup : State World → ℕ × State World
  manager_setup st = (0, force_exit_ssd_cache os nvme th sizeof_cache st)

  unfoldable pub manager_init : ℕ → (isinit : Bool) → State World → Option (ℕ × Bool × State World)
  manager_init rounds isinit st =
      if isinit
      then some (0, isinit, st)
      else (do (_, st') ← init_ssd_cache os nvme th sizeof_cache rounds st; some (0, true, st'))

-- `myspdk_queue`: eight blocks of 512 bytes, with the rounds of the polling loop; the status is
-- dropped.
unfoldable pub myspdk_queue : (d : Driver) → ℕ → IoUnit → d.World → Option (d.World)
myspdk_queue d rounds io_u w = elim io_u.ddir [
  | ddir_read ↦ (do (_, w') ← read_spdk d rounds io_queue (io_u.offset / 2 ^ 9) 8 w; some w')
  | ddir_write ↦ (do (_, w') ← write_spdk d rounds io_queue (io_u.offset / 2 ^ 9) 8 w; some w')
  | ddir_other ↦ none
]
