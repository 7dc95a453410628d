-- ===== src/Pio.antt =====
-- lib/pio.c and inc/pio.h: a request as a chain of page buffers. A `struct pio *` is the list of the
-- nodes from it on, and `NULL` is the empty list. Printing is left out.
pub mod Pages
use user_level_ssd_cache_fra.Common.{
  ℕ, ◌+◌, ◌%◌, Bool, true, false, Option, none, some, List, [], ◌∷◌, ◌++◌, if◌then◌else◌, ◌>>=◌,
  Text,
}
use user_level_ssd_cache_fra.Config.{Operate, unsigned_mod}

-- The buffer is an address.
pub record Node : Type 0 where
  pub full_path_name : Text
  pub fd : ℕ
  pub page_index : ℕ
  pub operation : Operate
  pub buffer : ℕ
  pub pio_cnt : ℕ

abbrev pub Pio : Type 0
Pio = List Node

-- The first argument says whether `malloc` succeeds.
unfoldable pub create_pio : Bool → Text → ℕ → ℕ → Operate → ℕ → ℕ → Pio
create_pio allocated full_path_name fd page_index operation buffer pio_cnt =
    if allocated
    then record {
      full_path_name = full_path_name;
      fd = fd;
      page_index = page_index;
      operation = operation;
      buffer = buffer;
      pio_cnt = pio_cnt;
    }
      ∷ []
    else []

-- the node behind the last one
abbrev pub next_node : Bool → Node → ℕ → Pio
next_node allocated current buffer =
    create_pio allocated current.full_path_name current.fd ((current.page_index + 1) % unsigned_mod)
      current.operation buffer current.pio_cnt

-- `none` is the fault of a null head.
unfoldable pub append_pio : Bool → Pio → ℕ → Option Pio
append_pio allocated [] buffer = none
append_pio allocated (current ∷ []) buffer = some (current ∷ next_node allocated current buffer)
append_pio allocated (current ∷ next ∷ rest) buffer = do
  rest' ← append_pio allocated (next ∷ rest) buffer
  some (current ∷ rest')

-- the nodes in the order in which they are given to `free`
unfoldable pub free_pio : Pio → List Node
free_pio [] = []
free_pio (node ∷ next) = free_pio next ++ (node ∷ [])
