-- ===== src/Pio/Pages.antt =====
-- A request that is built by appending covers consecutive pages, and is freed once.
use mathlib.Core.List.{reverse, reverse-append}
use user_level_ssd_cache_fra.Common.{
  ℕ, ap, ◌++◌, ◌^◌, ◌+◌, ◌%◌, ◌≡◌, refl, sym, Bool, true, false, some, [], ◌∷◌, if◌then◌else◌,
}
use user_level_ssd_cache_fra.Config.{unsigned_mod}
use user_level_ssd_cache_fra.Pio.{Node, Pio, create_pio, next_node, append_pio, free_pio}

-- The nodes from `first` on are those of one request: the page indices go up by one (wrapping), and
-- all else but the buffers is the same.
abbrev pub IsRun : Node → Pio → Type 0
IsRun first [] = Unit
IsRun first (node ∷ rest) =
    (node.page_index ≡ (first.page_index + 1) % unsigned_mod)
    × (node.full_path_name ≡ first.full_path_name)
    × (node.fd ≡ first.fd)
    × (node.operation ≡ first.operation)
    × (node.pio_cnt ≡ first.pio_cnt)
    × IsRun node rest

abbrev pub last : Node → Pio → Node
last first [] = first
last first (node ∷ rest) = last node rest

-- the node for the page behind the last one, with a buffer of its own
abbrev pub appended : Node → Pio → ℕ → Node
appended first rest buffer =
    let at = last first rest in
    record at { page_index = (at.page_index + 1) % 2 ^ 32; buffer = buffer }

-- Appending to a request of consecutive pages ends. If memory is left, the request gets one node more
-- at its end, with the given buffer, the page index behind that of the last node (modulo `2 ^ 32`) and
-- all else as in the last node; otherwise it is unchanged. Its pages stay consecutive.
pub append_pio-IsRun :
    (allocated : Bool) (first : Node) (rest : Pio) (buffer : ℕ)
    → IsRun first rest
    → (rest' : Pio) × (append_pio allocated (first ∷ rest) buffer ≡ some (first ∷ rest'))
      × IsRun first rest'
      × (rest' ≡ (if allocated then rest ++ (appended first rest buffer ∷ []) else rest))
unfolding append_pio create_pio
append_pio-IsRun true first [] buffer run =
    (next_node true first buffer, refl, (refl, refl, refl, refl, refl, tt), refl)
append_pio-IsRun false first [] buffer run = ([], refl, tt, refl)
append_pio-IsRun true first (node ∷ rest) buffer (p, n, f, o, c, run) =
    let (rest', step, run', ends) = append_pio-IsRun true node rest buffer run in
    (node ∷ rest', rw step, (p, n, f, o, c, run'), ap (λ k. node ∷ k) ends)
append_pio-IsRun false first (node ∷ rest) buffer (p, n, f, o, c, run) =
    let (rest', step, run', ends) = append_pio-IsRun false node rest buffer run in
    (node ∷ rest', rw step, (p, n, f, o, c, run'), ap (λ k. node ∷ k) ends)

-- `free_pio` frees each node of the request exactly once, the last one first.
pub free_pio-reverse : (pio : Pio) → free_pio pio ≡ reverse pio
unfolding free_pio
free_pio-reverse [] = refl
free_pio-reverse (node ∷ next) = rw (free_pio-reverse next) (sym (reverse-append (node ∷ []) next))
