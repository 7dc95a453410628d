-- ===== src/Testing.antt =====
-- testing.c: the client, which links to the cache and sends requests by the lines of its input. The
-- buffer and memory are parameters; an address of 0 is NULL, which the source does not test for.
-- examples/8_command_line.c has the same text. What is printed is left out.
pub mod Client
use user_level_ssd_cache_fra.Common.{
  ℕ, ◌+◌, ◌%◌, Bool, true, false, Option, none, some, List, [], ◌∷◌, ◌==◌, if◌then◌else◌, ◌>>=◌,
  Text, same_text,
}
use user_level_ssd_cache_fra.Config.{Operate, page_size}
use user_level_ssd_cache_fra.Pio.{create_pio}
use user_level_ssd_cache_fra.Target.{Storage, is_write}
use user_level_ssd_cache_fra.Shm
use user_level_ssd_cache_fra.Spdk.Setup.{Nvme}
use user_level_ssd_cache_fra.Api.{
  State, Threads, init_ssd_cache, link_ssd_cache, unlink_ssd_cache, exit_ssd_cache,
  force_exit_ssd_cache, submit_pio,
}

-- "testfile", "exit" and "send"
abbrev pub test_file : Text
test_file = 116 ∷ 101 ∷ 115 ∷ 116 ∷ 102 ∷ 105 ∷ 108 ∷ 101 ∷ []

abbrev pub exit_line : Text
exit_line = 101 ∷ 120 ∷ 105 ∷ 116 ∷ []

abbrev pub send_line : Text
send_line = 115 ∷ 101 ∷ 110 ∷ 100 ∷ []

-- The memory of the process: `alloc_dma_buffer` and `free_dma_buffer` for the one buffer of PAGE_SIZE,
-- and `memset`, which is `none` if it faults.
pub record Memory (World : Type 0) : Type 0 where
  pub alloc_dma_buffer : World → ℕ × World
  pub free_dma_buffer : (buffer : ℕ) → World → World
  pub memset : (buffer value len : ℕ) → World → Option World

-- A line of the input, with what `rand` and `malloc` would give to a request that it asks for.
pub record Input : Type 0 where
  pub line : Text
  pub page : ℕ
  pub operation : ℕ
  pub value : ℕ
  pub created : Bool

abbrev pub chosen : ℕ → Operate
chosen r = if r % 2 == 0 then Operate.write else Operate.read

module _ (s : Storage) (mem : Memory (s.World)) (buffer : ℕ) where
  -- `'A' + rand() % 25` fills the page that is written. The status of `submit_pio` is dropped.
  unfoldable pub send_pio : Input → State (s.World) → Option (State (s.World))
  send_pio i st = do
    w ←
        (if is_write (chosen i.operation)
          then mem.memset buffer (65 + i.value % 25) page_size st.world
          else some st.world)
    (_, st') ←
        submit_pio s (record st { world = w })
          (create_pio i.created test_file 0 (i.page % 24) (chosen i.operation) buffer 1)
    some st'

  -- The loop that the client and the server share; "info" only prints. `none` is an input that ends
  -- without "exit", for which the loop does not end.
  unfoldable pub commands : List Input → State (s.World) → Option (State (s.World))
  unfolding send_pio
  commands [] st = none
  commands (i ∷ rest) st = elim (same_text i.line exit_line) [
    | true ↦ some st
    | false ↦ elim (same_text i.line send_line) [
      | true ↦ (do st' ← send_pio i st; commands rest st')
      | false ↦ commands rest st
    ]
  ]

module _ (s : Storage) (os : Shm.System (s.World)) (nvme : Nvme (s.World)) (th : Threads (s.World))
    (mem : Memory (s.World)) (sizeof_cache : ℕ) where
  unfoldable pub client : ℕ → List Input → State (s.World) → Option (State (s.World))
  unfolding commands
  client rounds inputs st = do
    (rc, st₁) ← link_ssd_cache os nvme th sizeof_cache rounds st
    if rc == 0
        then (do
          let (buffer, w) = mem.alloc_dma_buffer st₁.world
          st₂ ← commands s mem buffer inputs (record st₁ { world = w })
          let st₃ = record st₂ { world = mem.free_dma_buffer buffer st₂.world }
          some (unlink_ssd_cache os nvme th sizeof_cache st₃).1)
        else some st₁
