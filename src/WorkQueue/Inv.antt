-- ===== src/WorkQueue/Inv.antt =====
-- The representation invariant of `work_queue`, and the requests that a ring stands for.
use user_level_ssd_cache_fra.Common.{
  ℕ, zero, suc, ◌+◌, ◌-◌, ◌%◌, ◌<◌, ◌≡◌, ◌≢◌, refl, ap, ap₂, ◌∙◌, Bool, true, false, ◌||◌, List, [],
  ◌∷◌, ◌++◌, arith, update, length,
}
use user_level_ssd_cache_fra.Config.{max_workqueue_size}
use user_level_ssd_cache_fra.WorkQueue.{
  Work, WorkQueue, init_work_queue, is_empty, push_work, remove_work,
}

pub record IsValid (wq : WorkQueue) : Type 0 where
  pub front_in : wq.front < max_workqueue_size
  pub size_in : wq.size < max_workqueue_size
  pub rear_at : wq.rear ≡ (wq.front + wq.size) % max_workqueue_size

-- the `n` requests from index `i` on, going round the array
abbrev pub window : (ℕ → Work) → ℕ → ℕ → List Work
window works i zero = []
window works i (suc n) = works i ∷ window works ((i + 1) % max_workqueue_size) n

-- oldest first
abbrev pub contents : WorkQueue → List Work
contents wq = window wq.works wq.front wq.size

abbrev pub any : (Work → Bool) → List Work → Bool
any test [] = false
any test (w ∷ ws) = test w || any test ws

length-window : (works : ℕ → Work) (i n : ℕ) → length (window works i n) ≡ n
length-window works i zero = refl
length-window works i (suc n) = ap suc (length-window works ((i + 1) % max_workqueue_size) n)

pub length-contents : (wq : WorkQueue) → length (contents wq) ≡ wq.size
length-contents wq = length-window wq.works wq.front wq.size

-- `window` matches on `suc`, the code tests `size == 0`.
pub contents-front :
    (wq : WorkQueue)
    → wq.size ≢ 0
    → contents wq
      ≡ wq.works wq.front ∷ window wq.works ((wq.front + 1) % max_workqueue_size) (wq.size - 1)
contents-front wq ne =
    let e : wq.size ≡ suc (wq.size - 1) = omega arith in ap (window wq.works wq.front) e

-- A write at the rear puts its request behind those that are there.
window-update :
    (works : ℕ → Work) (w : Work) (n i rear : ℕ)
    → i < max_workqueue_size
    → n < max_workqueue_size
    → rear ≡ (i + n) % max_workqueue_size
    → window (update works rear w) i (suc n) ≡ window works i n ++ (w ∷ [])
window-update works w zero i rear hi hn e = ground arith
window-update works w (suc n) i rear hi hn e = ap₂ ◌∷◌ (ground arith) (
    window-update works w n ((i + 1) % max_workqueue_size) rear (omega arith) (omega arith)
      (omega arith))

pub contents-push_work :
    (wq : WorkQueue) (w : Work) → IsValid wq → contents (push_work wq w) ≡ contents wq ++ (w ∷ [])
unfolding push_work
contents-push_work wq w v =
    let e : wq.size + 1 ≡ suc wq.size = omega arith in
    ap (window (update wq.works wq.rear w) wq.front) e
    ∙ window-update wq.works w wq.size wq.front wq.rear v.front_in v.size_in v.rear_at

pub init_work_queue-IsValid : (wq : WorkQueue) → IsValid (init_work_queue wq)
unfolding init_work_queue
init_work_queue-IsValid wq = omega arith

pub push_work-IsValid :
    (wq : WorkQueue) (w : Work)
    → IsValid wq
    → wq.size ≢ max_workqueue_size - 1
    → IsValid (push_work wq w)
unfolding push_work
push_work-IsValid wq w v room = omega arith

pub remove_work-IsValid : (wq : WorkQueue) → IsValid wq → IsValid (remove_work wq).1
unfolding remove_work
remove_work-IsValid wq v = ground arith

pub contents-is_empty : (wq : WorkQueue) → contents wq ≡ [] → is_empty wq ≡ true
unfolding is_empty
contents-is_empty wq empty = ground (arith, length-contents wq, ap length empty)
