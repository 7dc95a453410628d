-- ===== src/Sgl/Cover.antt =====
-- The callbacks hand out exactly the bytes of the buffers from the offset on, in order.
use user_level_ssd_cache_fra.Common.{
  ℕ, zero, suc, ◌+◌, ◌-◌, ◌%◌, ◌^◌, ◌<◌, ◌≤◌, ◌≡◌, refl, sym, ap, ap₂, ◌∙◌, inl, inr, Bool-cases,
  some, List, [], ◌∷◌, ◌++◌, arith, ◌==◌, ltb, if◌then◌else◌, true,
}
use user_level_ssd_cache_fra.Sgl.{Iovec, IoReq, skip, reset_sgl_fn, next_sge, next_sge_fn}

-- the addresses of `n` bytes from `a` on
abbrev pub bytes : ℕ → ℕ → List ℕ
bytes a zero = []
bytes a (suc n) = a ∷ bytes (a + 1) n

abbrev pub all_bytes : List Iovec → List ℕ
all_bytes [] = []
all_bytes (iov ∷ iovs) = bytes iov.iov_base iov.iov_len ++ all_bytes iovs

abbrev pub drop : ℕ → List ℕ → List ℕ
drop zero xs = xs
drop (suc n) [] = []
drop (suc n) (x ∷ xs) = drop n xs

-- the bytes that the request has still to hand out
abbrev pub pending : IoReq → List ℕ
pending req = drop req.iov_offset (all_bytes req.rest)

-- The offset points into the first of the entries that are left.
abbrev pub IsReady : IoReq → Type 0
IsReady req = elim (req.rest) as (λ _. Type 0) [
  | [] ↦ Unit {0}
  | iov ∷ further ↦ req.iov_offset < iov.iov_len
]

drop-bytes :
    (k a n : ℕ) (ys : List ℕ) → k ≤ n → drop k (bytes a n ++ ys) ≡ bytes (a + k) (n - k) ++ ys
drop-bytes zero a n ys h = ap₂ (λ b m. bytes b m ++ ys) (omega arith) (omega arith)
drop-bytes (suc k) a zero ys h = absurd (omega arith)
drop-bytes (suc k) a (suc n) ys h =
    drop-bytes k (a + 1) n ys (omega arith)
    ∙ ap₂ (λ b m. bytes b m ++ ys) (omega arith) (omega arith)

drop-nil : (k : ℕ) → drop k [] ≡ []
drop-nil zero = refl
drop-nil (suc k) = refl

drop_past : (k a n : ℕ) (ys : List ℕ) → n ≤ k → drop k (bytes a n ++ ys) ≡ drop (k - n) ys
drop_past k a zero ys h = ap (λ m. drop m ys) (omega arith)
drop_past zero a (suc n) ys h = absurd (omega arith)
drop_past (suc k) a (suc n) ys h =
    drop_past k (a + 1) n ys (omega arith) ∙ ap (λ m. drop m ys) (omega arith)

-- the place that the loop of `reset_sgl_fn` finds
skip-pending :
    (iovs : List Iovec) (offset : ℕ)
    → let (left, rest) = skip iovs offset in
      drop left (all_bytes rest) ≡ drop offset (all_bytes iovs)
unfolding skip
skip-pending [] offset = refl
skip-pending (iov ∷ iovs) offset = elim (Bool-cases (ltb offset iov.iov_len)) [
  | inl here ↦ rw here
  | inr further ↦ rw further (
      skip-pending iovs (offset - iov.iov_len)
      ∙ sym (drop_past offset iov.iov_base iov.iov_len (all_bytes iovs) (ground arith)))
]

skip-IsReady :
    (req : IoReq) (iovs : List Iovec) (offset : ℕ)
    → let (left, rest) = skip iovs offset in IsReady (record req { iov_offset = left; rest = rest })
unfolding skip
skip-IsReady req [] offset = tt
skip-IsReady req (iov ∷ iovs) offset = elim (Bool-cases (ltb offset iov.iov_len)) [
  | inl here ↦ rw here (ground arith)
  | inr further ↦ rw further (skip-IsReady req iovs (offset - iov.iov_len))
]

-- After `reset_sgl_fn` the request has still to hand out exactly the bytes of its buffers from the
-- offset on, and stands inside a buffer unless none is left.
pub reset_sgl_fn-pending :
    (req : IoReq) (offset : ℕ)
    → (pending (reset_sgl_fn req offset) ≡ drop offset (all_bytes req.iovs))
      × IsReady (reset_sgl_fn req offset)
unfolding reset_sgl_fn
reset_sgl_fn-pending req offset = (skip-pending req.iovs offset, skip-IsReady req req.iovs offset)

-- no buffer is empty
abbrev pub NonEmpty : List Iovec → Type 0
NonEmpty [] = Unit
NonEmpty (iov ∷ iovs) = (0 < iov.iov_len) × NonEmpty iovs

-- inside a buffer, `next_sge_fn` hands out the rest of it
next_sge_inside :
    (req : IoReq) (iov : Iovec) (further : List Iovec)
    → req.iov_offset < iov.iov_len
    → iov.iov_len < 2 ^ 32
    → next_sge req iov further ≡ (
      (iov.iov_base + req.iov_offset, iov.iov_len - req.iov_offset),
      record req { rest = further; iov_offset = 0 },
    )
unfolding next_sge
next_sge_inside req iov further ready small =
    let base : (if req.iov_offset == 0 then iov.iov_base else iov.iov_base + req.iov_offset)
        ≡ iov.iov_base + req.iov_offset =
      ground arith in
    let len : (if req.iov_offset == 0
          then iov.iov_len % 2 ^ 32
          else (iov.iov_len % 2 ^ 32 + 2 ^ 32 - req.iov_offset) % 2 ^ 32)
        ≡ iov.iov_len - req.iov_offset =
      ground arith in
    let done : ((req.iov_offset + (iov.iov_len - req.iov_offset)) % 2 ^ 32 == iov.iov_len) ≡ true =
      ground arith in
    rw (base, len, done)

NonEmpty-IsReady :
    (req : IoReq) (further : List Iovec)
    → NonEmpty further
    → IsReady (record req { rest = further; iov_offset = 0 })
NonEmpty-IsReady req [] full = tt
NonEmpty-IsReady req (iov ∷ further) full = full.0

-- One call of `next_sge_fn` on a request that stands inside a buffer of less than `2 ^ 32` bytes, where
-- no buffer behind it is empty: the driver gets the next bytes that are left, at least one, what is left afterwards is the
-- rest of them, and the request stands inside the next buffer or at the end.
pub next_sge_fn-pending :
    (req : IoReq) (iov : Iovec) (further : List Iovec)
    → req.rest ≡ iov ∷ further
    → req.iov_offset < iov.iov_len
    → iov.iov_len < 2 ^ 32
    → NonEmpty further
    → (address len : ℕ) × (req' : IoReq) × (next_sge_fn req ≡ some ((address, len), req'))
      × (0 < len)
      × (pending req ≡ bytes address len ++ pending req')
      × IsReady req'
      × (req'.rest ≡ further)
unfolding next_sge_fn
next_sge_fn-pending req iov further rest_at ready small full = (
  iov.iov_base + req.iov_offset,
  iov.iov_len - req.iov_offset,
  record req { rest = further; iov_offset = 0 },
  rw (rest_at, next_sge_fn) (ap some (next_sge_inside req iov further ready small)),
  omega arith,
  rw rest_at (drop-bytes req.iov_offset iov.iov_base iov.iov_len (all_bytes further) (omega arith)),
  NonEmpty-IsReady req further full,
  refl,
)
