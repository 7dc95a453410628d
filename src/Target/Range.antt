-- ===== src/Target/Range.antt =====
-- The blocks that a request touches on the device.
use user_level_ssd_cache_fra.Common.{
  ℕ, zero, suc, ◌+◌, ◌-◌, ◌*◌, ◌%◌, ◌^◌, ◌≤◌, ◌<◌, ◌≡◌, refl, true, some, arith, List, [], ◌∷◌,
}
use native.Mathlib.Nat.{pow-le-pow_right, pow-suc}
use native.Mathlib.Numerals.{towards_suc}
use user_level_ssd_cache_fra.Config.{unsigned_mod, cache_block_number, page_size}
use user_level_ssd_cache_fra.Pio.{Node, Pio}
use user_level_ssd_cache_fra.Sgl.{Iovec}
use user_level_ssd_cache_fra.Mapping.Worker.{shift_left}
use user_level_ssd_cache_fra.Target.{
  Cache, Storage, pio_to_iovec, target_block, check_pio, overwritable,
}

-- The two shifts of a block size of `2 ^ (12 - page_shift)` bytes: a page has `2 ^ page_shift` blocks,
-- and a cache block has eight pages.
pub record IsShifted (cache : Cache) (page_shift : ℕ) : Type 0 where
  pub page : cache.cache_dev.block_per_page_shift ≡ page_shift
  pub cblock : cache.cache_map.block_per_cblock_shift ≡ page_shift + 3
  pub small : page_shift ≤ 12

-- `2 ^ (p + 3)` in eighths
pow_add_three : (p : ℕ) → 2 ^ (p + 3) ≡ 8 * 2 ^ p
pow_add_three p =
    simp towards_suc (omega (arith, pow-suc 2 p, pow-suc 2 (suc p), pow-suc 2 (suc (suc p))))

mul_le : (a b P : ℕ) → a ≤ b → a * P ≤ b * P
mul_le a b P h = grind arith

-- No sum or shift of the block computation wraps, and the blocks stay in the cache block: `P` blocks
-- a page, cache block `c`, first page `r` of it, `n` pages.
range_fits :
    (P c r n : ℕ)
    → P ≤ 2 ^ 12
    → c < cache_block_number
    → r < 8
    → n ≤ 8 - r
    → let start = (c * (8 * P) % unsigned_mod + r * P % unsigned_mod) % unsigned_mod in
      (start ≡ c * (8 * P) + r * P)
      × (n * P % unsigned_mod ≡ n * P)
      × (start + n * P % unsigned_mod ≤ (c + 1) * (8 * P))
range_fits P c r n hP hc hr hn =
    let whole = mul_le (c + 1) cache_block_number P (omega arith) in
    let pages = mul_le (r + n) 8 P (omega arith) in
    let count = mul_le n 8 P (omega arith) in
    (omega (arith, whole, pages), omega (arith, count), omega (arith, whole, pages))

-- If the shifts of the cache are those of a sector size of `2 ^ (12 - page_shift)` bytes, for a
-- `page_shift` of at most 12, then for a checked request and a cache block of the cache neither the
-- first block that is read or written nor their number wraps: they are that of the first page of the
-- request in the cache block and `2 ^ page_shift` for each of its pages, and all of the blocks lie
-- inside the cache block. A sector of more than 4096 bytes has no such shifts.
pub target_block_bounds :
    (cache : Cache) (pio : Node) (page_shift cblock : ℕ)
    → IsShifted cache page_shift
    → cblock < cache_block_number
    → check_pio pio ≡ true
    → let start = target_block cache pio cblock in
      let blocks = shift_left pio.pio_cnt cache.cache_dev.block_per_page_shift in
      let cblock_size = 2 ^ (page_shift + 3) in
      (start ≡ cblock * cblock_size + pio.page_index % 8 * 2 ^ page_shift)
      × (blocks ≡ pio.pio_cnt * 2 ^ page_shift)
      × (start + blocks ≤ (cblock + 1) * cblock_size)
unfolding target_block check_pio
target_block_bounds cache pio page_shift cblock v inside checked =
    let P_le : 2 ^ page_shift ≤ 2 ^ 12 = pow-le-pow_right (omega arith) v.small in
    rw (v.page, v.cblock, pow_add_three page_shift)
      (range_fits (2 ^ page_shift) cblock (pio.page_index % 8) pio.pio_cnt P_le inside (omega arith)
        (ground arith))

-- the entries that `pio_to_iovec` writes: one page for each of the first `n` nodes
abbrev pub pages_of : Pio → ℕ → List Iovec
pages_of pio zero = []
pages_of [] (suc n) = []
pages_of (node ∷ next) (suc n) =
    record { iov_base = node.buffer; iov_len = page_size } ∷ pages_of next n

-- The chain has `n` nodes at least, and on the buffer of each of the first `n` of them `strlen` ends,
-- whatever stands in memory: none is null, and behind each there is a zero byte to be found.
abbrev pub HasPages : Storage → Pio → ℕ → Type 0
HasPages s pio zero = Unit
HasPages s [] (suc n) = ⊥
HasPages s (node ∷ next) (suc n) =
    ((w : s.World) → (len : ℕ) × (s.strlen node.buffer w ≡ some len)) × HasPages s next n

-- For such a chain `pio_to_iovec` gives a page for each node asked for.
pub pio_to_iovec-pages :
    (s : Storage) (w : s.World) (pio : Pio) (n : ℕ)
    → HasPages s pio n
    → pio_to_iovec (λ b. s.strlen b w) pio n ≡ some (pages_of pio n)
unfolding pio_to_iovec
pio_to_iovec-pages s w pio zero paged = refl
pio_to_iovec-pages s w [] (suc n) paged = absurd paged
pio_to_iovec-pages s w (node ∷ next) (suc n) (readable, paged) =
    rw ((readable w).1, pio_to_iovec-pages s w next n paged) refl

-- An overwriting request passes the check: it covers a cache block whole.
pub overwritable-check_pio : (pio : Node) → overwritable pio ≡ true → check_pio pio ≡ true
unfolding overwritable check_pio
overwritable-check_pio pio h = ground arith
