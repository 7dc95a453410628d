-- ===== src/WorkQueue/Search.antt =====
-- The searches of the ring end, and visit exactly the queued requests.
use user_level_ssd_cache_fra.Common.{
  List, [], ◌∷◌, ◌++◌, ◌⊎◌, ◌↔◌, inl, inr, Bool-cases, true, ap₂, refl, strlen, same_start, ℕ, zero,
  suc, ◌+◌, ◌%◌, ◌<◌, ◌≡◌, Bool, some, Text, arith,
}
use mathlib.Core.Bool.{false≢true}
use user_level_ssd_cache_fra.Config.{max_workqueue_size}
use user_level_ssd_cache_fra.WorkQueue.{Work, WorkQueue, scan, starts_alike, contains_work}
use user_level_ssd_cache_fra.WorkQueue.Inv.{IsValid, window, contents, any}

scan-window :
    (test : Work → Bool) (fuel : ℕ) (works : ℕ → Work) (n i rear : ℕ)
    → i < max_workqueue_size
    → n < max_workqueue_size
    → n < fuel
    → rear ≡ (i + n) % max_workqueue_size
    → scan test fuel works i rear ≡ some (any test (window works i n))
unfolding scan
scan-window test zero works n i rear hi hn hf e = absurd (omega arith)
scan-window test (suc fuel) works zero i rear hi hn hf e = ground arith
scan-window test (suc fuel) works (suc n) i rear hi hn hf e =
    ground (arith, scan-window test fuel works n ((i + 1) % max_workqueue_size) rear)

pub scan-contents :
    (test : Work → Bool) (wq : WorkQueue)
    → IsValid wq
    → scan test max_workqueue_size wq.works wq.front wq.rear ≡ some (any test (contents wq))
scan-contents test wq v =
    scan-window test max_workqueue_size wq.works wq.size wq.front wq.rear v.front_in v.size_in
      v.size_in v.rear_at

-- the answer of `contains_work`, by the test of its body
pub contains_work-any :
    (wq : WorkQueue) (name : Text) (index : ℕ)
    → IsValid wq
    → contains_work wq name index ≡ some (any (starts_alike name index) (contents wq))
unfolding contains_work
contains_work-any wq name index v = scan-contents (starts_alike name index) wq v

-- A request for a page of the index, of a file whose name the sought name starts with.
abbrev pub IsAlike : Text → ℕ → Work → Type 0
IsAlike name index w =
    (w.cache_page_index ≡ index) × (rest : Text) × (name ≡ w.full_path_name ++ rest)

-- One of the requests is such a one.
abbrev pub HasAlike : Text → ℕ → List Work → Type 0
HasAlike name index [] = ⊥
HasAlike name index (w ∷ ws) = IsAlike name index w ⊎ HasAlike name index ws

same_start-prefix :
    (s t : Text) → same_start (strlen s) s t ≡ true → (rest : Text) × (t ≡ s ++ rest)
unfolding same_start
same_start-prefix [] t h = (t, refl)
same_start-prefix (a ∷ s) [] h = absurd (false≢true h)
same_start-prefix (a ∷ s) (b ∷ t) h =
    let (rest, e) = same_start-prefix s t (ground arith) in
    let same : b ≡ a = ground arith in (rest, ap₂ (λ x xs. x ∷ xs) same e)

same_start-append : (s rest : Text) → same_start (strlen s) s (s ++ rest) ≡ true
unfolding same_start
same_start-append [] rest = refl
same_start-append (a ∷ s) rest = ground (arith, same_start-append s rest)

starts_alike-IsAlike :
    (name : Text) (index : ℕ) (w : Work) → starts_alike name index w ≡ true → IsAlike name index w
starts_alike-IsAlike name index w h =
    let (rest, e) = same_start-prefix w.full_path_name name (ground arith) in
    (ground arith, rest, e)

IsAlike-starts_alike :
    (name : Text) (index : ℕ) (w : Work) → IsAlike name index w → starts_alike name index w ≡ true
IsAlike-starts_alike name index w (at, rest, e) =
    let start : same_start (strlen w.full_path_name) w.full_path_name name ≡ true =
      rw e (same_start-append w.full_path_name rest) in
    ground (arith, at, start)

any-HasAlike :
    (name : Text) (index : ℕ) (ws : List Work)
    → any (starts_alike name index) ws ≡ true
    → HasAlike name index ws
any-HasAlike name index [] h = false≢true h
any-HasAlike name index (w ∷ ws) h = elim (Bool-cases (starts_alike name index w)) [
  | inl here ↦ inl (starts_alike-IsAlike name index w here)
  | inr not_here ↦ inr (any-HasAlike name index ws (rw not_here at h))
]

HasAlike-any :
    (name : Text) (index : ℕ) (ws : List Work)
    → HasAlike name index ws
    → any (starts_alike name index) ws ≡ true
HasAlike-any name index [] h = absurd h
HasAlike-any name index (w ∷ ws) (inl here) = rw (IsAlike-starts_alike name index w here) refl
HasAlike-any name index (w ∷ ws) (inr later) = elim (Bool-cases (starts_alike name index w)) [
  | inl here ↦ rw here refl
  | inr not_here ↦ rw not_here (HasAlike-any name index ws later)
]

-- On a valid ring `contains_work` ends. It answers true exactly if a queued request has the page index
-- and a name that the sought name starts with.
pub contains_work-HasAlike :
    (wq : WorkQueue) (name : Text) (index : ℕ)
    → IsValid wq
    → (b : Bool) × (contains_work wq name index ≡ some b)
      × ((b ≡ true) ↔ HasAlike name index (contents wq))
contains_work-HasAlike wq name index v = (
  any (starts_alike name index) (contents wq),
  contains_work-any wq name index v,
  (any-HasAlike name index (contents wq), HasAlike-any name index (contents wq)),
)
