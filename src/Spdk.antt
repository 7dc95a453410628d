-- ===== src/Spdk.antt =====
-- lib/spdk.c, the calls that read, write and trim the device: a command goes to the SPDK driver, and
-- the queue pair is polled until the callback of the command has run. The driver is a parameter.
pub mod Poll
pub mod Setup
pub mod Attach
use user_level_ssd_cache_fra.Common.{
  ℕ, zero, suc, Bool, true, false, ◌||◌, Option, none, some, List, ◌==◌, if◌then◌else◌, ◌>>=◌,
}
use user_level_ssd_cache_fra.Sgl.{Iovec}

pub data QueueType : Type 0 where
  io_queue mg_queue : QueueType

-- What lib/spdk.c asks of the driver. The world holds the controller, the device and the buffers. The
-- numbers are the results of the commands, zero for a command that has been submitted;
-- `process_completions` says whether it has run the callback of the command that is waited for, and
-- gives the status of the completion then, zero for a command that has succeeded.
pub record Driver : Type 1 where
  pub World : Type 0
  pub ns_cmd_read : QueueType → (offset_block num_block : ℕ) → World → ℕ × World
  pub ns_cmd_write : QueueType → (offset_block num_block : ℕ) → World → ℕ × World
  pub ns_cmd_readv : QueueType → List Iovec → (offset_block num_block : ℕ) → World → ℕ × World
  pub ns_cmd_writev : QueueType → List Iovec → (offset_block num_block : ℕ) → World → ℕ × World
  pub ns_cmd_dataset_management : QueueType → (offset_block num_block : ℕ) → World → ℕ × World
  pub process_completions : QueueType → World → Option ℕ × World

-- `io_complete`, and `cb_fn` likewise: the callback sets the flag, whatever the status of the completion.
unfoldable pub io_complete : (completion : Option ℕ) → (is_completed : Bool) → Bool
io_complete none is_completed = is_completed
io_complete (some status) is_completed = true

module _ (d : Driver) where
  open d use {
    World, ns_cmd_read, ns_cmd_write, ns_cmd_readv, ns_cmd_writev, ns_cmd_dataset_management,
    process_completions,
  }

  -- The loop `while (!is_completed)`, with the rounds that are left and the flag that the callback
  -- sets. `none` is a loop that does not end in so many rounds.
  unfoldable pub poll : ℕ → QueueType → (is_completed : Bool) → World → Option World
  unfolding io_complete
  poll zero q is_completed w = if is_completed then some w else none
  poll (suc rounds) q is_completed w =
      let (called, w₁) = process_completions q w in
      let rest = poll rounds q (io_complete called is_completed) w₁ in
      if is_completed then some w else rest

  -- What follows the submission of a command: its result, or the wait for its callback and 0, whatever
  -- the status of the completion.
  unfoldable pub wait_for : ℕ → QueueType → ℕ × World → Option (ℕ × World)
  unfolding poll
  wait_for rounds q (rc, w) =
      if rc == 0 then (do w₁ ← poll rounds q false w; some (0, w₁)) else some (rc, w)

  unfoldable pub read_spdk :
      ℕ → QueueType → (offset_block num_block : ℕ) → World → Option (ℕ × World)
  read_spdk rounds q offset_block num_block w =
      wait_for rounds q (ns_cmd_read q offset_block num_block w)

  unfoldable pub write_spdk :
      ℕ → QueueType → (offset_block num_block : ℕ) → World → Option (ℕ × World)
  write_spdk rounds q offset_block num_block w =
      wait_for rounds q (ns_cmd_write q offset_block num_block w)

  -- A trim is not waited for.
  unfoldable pub trim_spdk : QueueType → (offset_block num_block : ℕ) → World → ℕ × World
  trim_spdk q offset_block num_block w = ns_cmd_dataset_management q offset_block num_block w

  unfoldable pub readv_spdk :
      ℕ → QueueType → List Iovec → (offset_block num_block : ℕ) → World → Option (ℕ × World)
  readv_spdk rounds q iovs offset_block num_block w =
      wait_for rounds q (ns_cmd_readv q iovs offset_block num_block w)

  unfoldable pub writev_spdk :
      ℕ → QueueType → List Iovec → (offset_block num_block : ℕ) → World → Option (ℕ × World)
  writev_spdk rounds q iovs offset_block num_block w =
      wait_for rounds q (ns_cmd_writev q iovs offset_block num_block w)
