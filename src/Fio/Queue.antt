-- ===== src/Fio/Queue.antt =====
-- `myfio_queue`: which requests have all of their pages.
use user_level_ssd_cache_fra.Common.{
  List, ◌++◌, ◌-◌, ap₂, sym, subst, ℕ, zero, suc, ◌+◌, ◌*◌, ◌/◌, ◌%◌, ◌^◌, ◌<◌, ◌≤◌, ◌≡◌, ◌≢◌, ◌∙◌,
  ◌⊎◌, inl, inr, refl, ap, true, false, Option, none, some, [], ◌∷◌, ◌==◌, ltb, if◌then◌else◌,
  length, Bool-cases, arith,
}
use user_level_ssd_cache_fra.Config.{Operate, page_size}
use user_level_ssd_cache_fra.Pio.{Node, Pio, create_pio}
use user_level_ssd_cache_fra.Pio.Pages.{IsRun, appended, append_pio-IsRun}
use user_level_ssd_cache_fra.Mapping.Shape.{View}
use user_level_ssd_cache_fra.Mapping.Inv.{Flight, IsMapping}
use user_level_ssd_cache_fra.Mapping.Safety.{Holds}
use user_level_ssd_cache_fra.Target.{Storage, is_discard}
use user_level_ssd_cache_fra.Target.Range.{HasPages}
use user_level_ssd_cache_fra.Api.Request.{submit_pio-served}
use user_level_ssd_cache_fra.Api.{State}
use user_level_ssd_cache_fra.Fio.{
  Direction, ddir_read, ddir_write, ddir_other, IoUnit, append_pages, rounds_for, make_request,
  send_request, myfio_queue, tester_queue, manager_queue,
}

Direction-cases : (d : Direction) → d ≢ ddir_other → (d ≡ ddir_read) ⊎ (d ≡ ddir_write)
Direction-cases ddir_read known = inl refl
Direction-cases ddir_write known = inr refl
Direction-cases ddir_other known = absurd (known refl)

-- the buffers of a chain
abbrev pub buffers : Pio → List ℕ
buffers [] = []
buffers (node ∷ rest) = node.buffer ∷ buffers rest

-- the addresses of `n` pages from `a` on
abbrev pub page_addresses : (a n : ℕ) → List ℕ
page_addresses a zero = []
page_addresses a (suc n) = a ∷ page_addresses (a + 4096) n

-- how many pages begin in a buffer of `buflen` bytes from `offset` on
abbrev pub pages_from : (offset buflen : ℕ) → ℕ
pages_from offset buflen = (buflen - offset + 4095) / 4096

buffers-snoc :
    (rest : Pio) (node : Node) → buffers (rest ++ (node ∷ [])) ≡ buffers rest ++ (node.buffer ∷ [])
buffers-snoc [] node = refl
buffers-snoc (first ∷ rest) node = ap (λ k. first.buffer ∷ k) (buffers-snoc rest node)

snoc-append : (xs : List ℕ) (x : ℕ) (ys : List ℕ) → (xs ++ (x ∷ [])) ++ ys ≡ xs ++ (x ∷ ys)
snoc-append [] x ys = refl
snoc-append (a ∷ xs) x ys = ap (λ k. a ∷ k) (snoc-append xs x ys)

append-nil : (xs : List ℕ) → xs ++ [] ≡ xs
append-nil [] = refl
append-nil (x ∷ xs) = ap (λ k. x ∷ k) (append-nil xs)

length-buffers : (rest : Pio) → length (buffers rest) ≡ length rest
length-buffers [] = refl
length-buffers (node ∷ rest) = ap suc (length-buffers rest)

length-page_addresses : (a n : ℕ) → length (page_addresses a n) ≡ n
length-page_addresses a zero = refl
length-page_addresses a (suc n) = ap suc (length-page_addresses (a + 4096) n)

-- The loop ends, and appends consecutive pages up to the end of the buffer.
append_pages-IsRun :
    (rounds : ℕ) (first : Node) (rest : Pio) (offset buflen xfer_buf : ℕ)
    → IsRun first rest
    → buflen ≤ offset + page_size * rounds
    → (rest' : Pio) × (append_pages (λ _. true) rounds (first ∷ rest) offset buflen xfer_buf
        ≡ some (first ∷ rest'))
      × IsRun first rest'
      × (buffers rest'
          ≡ buffers rest ++ page_addresses (xfer_buf + offset) (pages_from offset buflen))
unfolding append_pages
append_pages-IsRun zero first rest offset buflen xfer_buf run enough =
    elim (Bool-cases (ltb offset buflen)) [
      | inl more ↦ absurd (ground arith)
      | inr over ↦
          let none_left : pages_from offset buflen ≡ 0 = ground arith in
          rw over (rest, refl, run, rw none_left (sym (append-nil (buffers rest))))
    ]
append_pages-IsRun (suc rounds) first rest offset buflen xfer_buf run enough =
    elim (Bool-cases (ltb offset buflen)) [
      | inr over ↦
          let none_left : pages_from offset buflen ≡ 0 = ground arith in
          (rest, rw (append_pages, over) refl, run, rw none_left (sym (append-nil (buffers rest))))
      | inl more ↦
          let (rest₁, step, run₁, at) = append_pio-IsRun true first rest (xfer_buf + offset) run in
          let (rest', ends, run', all) =
            append_pages-IsRun rounds first rest₁ (offset + page_size) buflen xfer_buf run₁
              (omega (arith, enough)) in
          let left : pages_from offset buflen ≡ suc (pages_from (offset + page_size) buflen) =
            ground arith in
          let next : xfer_buf + (offset + page_size) ≡ xfer_buf + offset + 4096 = omega arith in
          let added : buffers rest₁ ≡ buffers rest ++ ((xfer_buf + offset) ∷ []) =
            ap buffers at ∙ buffers-snoc rest (appended first rest (xfer_buf + offset)) in
          (
            rest',
            rw (append_pages, more, step) ends,
            run',
            rw left (
                all
                ∙ ap₂ (λ xs a. xs ++ page_addresses a (pages_from (offset + page_size) buflen))
                    added next
                ∙ snoc-append (buffers rest) (xfer_buf + offset) (
                    page_addresses (xfer_buf + offset + 4096)
                      (pages_from (offset + page_size) buflen))),
          )
    ]

-- The first node of the request for an I/O unit.
abbrev pub first_node : Operate → IoUnit → Node
first_node operation io_u = record {
  full_path_name = io_u.file_name;
  fd = io_u.fd;
  page_index = io_u.offset / 4096 % 2 ^ 32;
  operation = operation;
  buffer = io_u.xfer_buf;
  pio_cnt = if io_u.buflen == 4096 then 1 else 8;
}

-- If every `malloc` succeeds, the request that is made of an I/O unit ends, for any begin of the loop
-- (PAGE_SIZE in ssd-cache-tester, 0 in ssd-cache-manager). Its first node has the page of the file at
-- the offset of the unit and the start of the buffer; behind it come the pages that follow it, one for
-- each page of the buffer that begins at a multiple of 4096 bytes from the begin of the loop, with
-- these addresses in their order. Its count is 1 for a unit of 4096 bytes and 8 for any other.
pub make_request-buffers :
    (begins : ℕ) (operation : Operate) (io_u : IoUnit)
    → (rest : Pio) × (make_request begins true (λ _. true) operation io_u
        ≡ some (first_node operation io_u ∷ rest))
      × IsRun (first_node operation io_u) rest
      × (buffers rest ≡ page_addresses (io_u.xfer_buf + begins) (pages_from begins io_u.buflen))
unfolding make_request create_pio
make_request-buffers begins operation io_u =
    append_pages-IsRun (rounds_for io_u.buflen) (first_node operation io_u) [] begins io_u.buflen
      io_u.xfer_buf tt (omega arith)

-- `strlen` ends on the address, whatever stands in memory.
abbrev pub IsReadable : Storage → ℕ → Type 0
IsReadable s b = (w : s.World) → (len : ℕ) × (s.strlen b w ≡ some len)

abbrev AllReadable : Storage → List ℕ → Type 0
AllReadable s [] = Unit
AllReadable s (b ∷ bs) = IsReadable s b × AllReadable s bs

AllReadable-page_addresses :
    (s : Storage) (a n : ℕ)
    → ((k : ℕ) → k < n → IsReadable s (a + 4096 * k))
    → AllReadable s (page_addresses a n)
AllReadable-page_addresses s a zero each = tt
AllReadable-page_addresses s a (suc n) each = (
  subst (IsReadable s) (omega arith) (each 0 (omega arith)),
  AllReadable-page_addresses s (a + 4096) n
      (λ k small. subst (IsReadable s) (omega arith) (each (suc k) (omega (arith, small)))),
)

HasPages-buffers :
    (s : Storage) (pio : Pio) (n : ℕ)
    → n ≤ length pio
    → AllReadable s (buffers pio)
    → HasPages s pio n
HasPages-buffers s pio zero long all = tt
HasPages-buffers s [] (suc n) long all = absurd (omega (arith, long))
HasPages-buffers s (node ∷ rest) (suc n) long all =
    (all.0, HasPages-buffers s rest n (omega (arith, long)) all.1)

-- The sizes for which the engines ask for as many pages as they have: one page, or more than seven.
abbrev pub IsWhole : ℕ → Type 0
IsWhole buflen = (buflen ≡ page_size) ⊎ (7 * page_size < buflen)

enough_pages :
    (begins buflen n : ℕ)
    → IsWhole buflen
    → begins ≤ page_size
    → n ≡ pages_from begins buflen
    → (if buflen == 4096 then 1 else 8) ≤ suc n
enough_pages begins buflen n (inl one) early long = ground arith
enough_pages begins buflen n (inr many) early long = ground arith

-- `strlen` ends on each page of the transfer buffer.
abbrev pub HasBuffer : Storage → IoUnit → Type 0
HasBuffer s io_u = (k : ℕ) → k < io_u.buflen → IsReadable s (io_u.xfer_buf + k)

module _ (s : Storage) (begins : ℕ) (early : begins ≤ page_size) (io_u : IoUnit)
    (whole : IsWhole io_u.buflen) (readable : HasBuffer s io_u) where
  -- The request has as many nodes as it says, and `strlen` ends on their buffers.
  make_request-HasPages :
      (operation : Operate)
      → (rest : Pio) × (make_request begins true (λ _. true) operation io_u
          ≡ some (first_node operation io_u ∷ rest))
        × HasPages s (first_node operation io_u ∷ rest) (first_node operation io_u).pio_cnt
  make_request-HasPages operation =
      let first = first_node operation io_u in
      let (rest, step, run, all) = make_request-buffers begins operation io_u in
      let count : length rest ≡ pages_from begins io_u.buflen =
        sym (length-buffers rest)
        ∙ ap length all
        ∙ length-page_addresses (io_u.xfer_buf + begins) (pages_from begins io_u.buflen) in
      let start : IsReadable s io_u.xfer_buf =
        subst (IsReadable s) (omega arith) (readable 0 (ground (arith, whole))) in
      let others =
        AllReadable-page_addresses s (io_u.xfer_buf + begins) (pages_from begins io_u.buflen)
          (λ k small.
            subst (IsReadable s) (omega arith)
              (readable (begins + 4096 * k) (omega (arith, small)))) in
      (
        rest,
        step,
        HasPages-buffers s (first ∷ rest) first.pio_cnt
            (enough_pages begins io_u.buflen (length rest) whole early count)
            (start, subst (AllReadable s) (sym all) others),
      )

  module _ (st : State (s.World)) {v : View} {f : Flight}
      (inv : IsMapping st.shared.cache.cache_map v f) where
    sent :
        (operation : Operate)
        → is_discard operation ≡ false
        → (st' : State (s.World)) × (send_request s true (λ _. true) begins operation io_u st
            ≡ some st')
          × Holds st'.shared.cache.cache_map f
    unfolding send_request
    sent operation maps =
        let (rest, step, paged) = make_request-HasPages operation in
        let (rc, st', out, holds, kept) =
          submit_pio-served s st inv (first_node operation io_u) rest paged maps in
        (st', rw (send_request, step, out) refl, holds)

    myfio_queue-Holds_from :
        io_u.ddir ≢ ddir_other
        → (st' : State (s.World)) × (myfio_queue s true (λ _. true) begins io_u st ≡ some st')
          × Holds st'.shared.cache.cache_map f
    unfolding myfio_queue
    myfio_queue-Holds_from known =
        let sends = λ (o : Operate). send_request s true (λ _. true) begins o io_u st in
        let by_direction : Direction → Option (State (s.World)) = λ d. elim d [
          | ddir_read ↦ sends Operate.read
          | ddir_write ↦ sends Operate.write
          | ddir_other ↦ none
        ] in
        elim (Direction-cases io_u.ddir known) [
          | inl reads ↦
              let (st', step, holds) = sent Operate.read refl in
              (st', ap by_direction reads ∙ step, holds)
          | inr writes ↦
              let (st', step, holds) = sent Operate.write refl in
              (st', ap by_direction writes ∙ step, holds)
        ]

-- For a read or a write of one page, or of more than seven, for which every `malloc` succeeds and
-- `strlen` ends on every address in the transfer buffer, `myfio_queue` of ssd-cache-tester and of
-- ssd-cache-manager end without a fault, whatever the device and the files answer, and keep the
-- invariant of the mapping.
pub myfio_queue-Holds :
    (s : Storage) (io_u : IoUnit) (st : State (s.World)) {v : View} {f : Flight}
    → IsWhole io_u.buflen
    → io_u.ddir ≢ ddir_other
    → HasBuffer s io_u
    → IsMapping st.shared.cache.cache_map v f
    → ((st' : State (s.World)) × (tester_queue s true (λ _. true) io_u st ≡ some st')
        × Holds st'.shared.cache.cache_map f)
      × ((st' : State (s.World)) × (manager_queue s true (λ _. true) io_u st ≡ some st')
          × Holds st'.shared.cache.cache_map f)
myfio_queue-Holds s io_u st whole known readable inv = (
  myfio_queue-Holds_from s page_size (omega arith) io_u whole readable st inv known,
  myfio_queue-Holds_from s 0 (omega arith) io_u whole readable st inv known,
)
