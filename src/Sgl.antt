-- ===== src/Sgl.antt =====
-- lib/spdk.c, the scatter-gather callbacks of `readv_spdk` and `writev_spdk`: `struct io_req`,
-- `init_req`, `cb_fn`, `reset_sgl_fn` and `next_sge_fn`. The driver calls them; it is not part of the
-- model. A buffer is an address, and an address plus an offset is a number.
pub mod Cover
use user_level_ssd_cache_fra.Common.{
  ℕ, zero, suc, ◌+◌, ◌-◌, ◌%◌, ◌^◌, Bool, true, false, Option, none, some, List, [], ◌∷◌, ◌==◌, ltb,
  if◌then◌else◌, ◌>>=◌,
}

-- `struct iovec`
pub record Iovec : Type 0 where
  pub iov_base : ℕ
  pub iov_len : ℕ

-- `rest` stands for `iovs` and `iov_pos`: the entries from `iovs[iov_pos]` up to `iovs[iov_cnt - 1]`.
pub record IoReq : Type 0 where
  pub is_completed : Bool
  pub iov_offset : ℕ
  pub iovs : List Iovec
  pub rest : List Iovec

unfoldable pub init_req : IoReq → List Iovec → IoReq
init_req req iovs = record req { is_completed = false; iovs = iovs; rest = iovs }

unfoldable pub cb_fn : IoReq → IoReq
cb_fn req = record req { is_completed = true }

-- the loop of `reset_sgl_fn`: what is left of the offset, and the entries from its place on
unfoldable pub skip : List Iovec → ℕ → ℕ × List Iovec
skip [] offset = (offset, [])
skip (iov ∷ iovs) offset =
    let further = skip iovs (offset - iov.iov_len) in
    if ltb offset iov.iov_len then (offset, iov ∷ iovs) else further

unfoldable pub reset_sgl_fn : IoReq → ℕ → IoReq
unfolding skip
reset_sgl_fn req sgl_offset =
    let (offset, rest) = skip req.iovs sgl_offset in record req { iov_offset = offset; rest = rest }

-- What `next_sge_fn` does at the entry `iov`. The length and the offset have 32 bits, `iov_len` has 64.
unfoldable pub next_sge : IoReq → Iovec → List Iovec → (ℕ × ℕ) × IoReq
next_sge req iov further =
    let address = if req.iov_offset == 0 then iov.iov_base else iov.iov_base + req.iov_offset in
    let length = iov.iov_len % 2 ^ 32 in
    let len = if req.iov_offset == 0 then length else (length + 2 ^ 32 - req.iov_offset) % 2 ^ 32 in
    let offset = (req.iov_offset + len) % 2 ^ 32 in
    (
      (address, len),
      if offset == iov.iov_len
          then record req { rest = further; iov_offset = 0 }
          else record req { iov_offset = offset },
    )

-- The address and the length that go to the driver. `none` is a read past the end of `iovs`.
unfoldable pub next_sge_fn : IoReq → Option ((ℕ × ℕ) × IoReq)
unfolding next_sge
next_sge_fn req = elim (req.rest) [ [] ↦ none | iov ∷ further ↦ some (next_sge req iov further) ]
