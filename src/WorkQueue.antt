-- ===== src/WorkQueue.antt =====
-- lib/work_queue.c and inc/work_queue.h: the ring of promotion requests, from the clients to the
-- migration worker. The spinlock makes each function one step, and is not part of this state.
pub mod Inv
pub mod Search
pub mod Refine
pub mod Ops
use user_level_ssd_cache_fra.Common.{
  ℕ, zero, suc, ◌+◌, ◌-◌, ◌%◌, Bool, true, false, ◌&&◌, Option, none, some, ◌==◌, if◌then◌else◌,
  ◌>>=◌, update, Text, strlen, same_text, same_start,
}
use user_level_ssd_cache_fra.Config.{max_workqueue_size}

-- `work`
pub record Work : Type 0 where
  pub full_path_name : Text
  pub cache_page_index : ℕ

-- `work_queue`
pub record WorkQueue : Type 0 where
  pub works : ℕ → Work
  pub front : ℕ
  pub rear : ℕ
  pub size : ℕ

pub init_work_queue : WorkQueue → WorkQueue
init_work_queue wq = record wq { front = 0; rear = 0; size = 0 }

pub is_full : WorkQueue → Bool
is_full wq = wq.size == max_workqueue_size

pub is_empty : WorkQueue → Bool
is_empty wq = wq.size == 0

-- the loop `for (int i = front; i != rear; i = (i + 1) % MAX_WORKQUEUE_SIZE)` that both searches
-- share, with the test of its body; `none` means that the fuel ran out.
pub scan : (Work → Bool) → ℕ → (ℕ → Work) → (i rear : ℕ) → Option Bool
scan test zero works i rear = none
scan test (suc fuel) works i rear =
    let rest = scan test fuel works ((i + 1) % max_workqueue_size) rear in
    if i == rear then some false else if test (works i) then some true else rest

-- the test of `contains_work`: `strncmp` over the length of the queued name
abbrev pub starts_alike : Text → ℕ → Work → Bool
starts_alike name index w =
    (w.cache_page_index == index) && same_start (strlen w.full_path_name) w.full_path_name name

-- the test of `insert_work`: `strcmp`
abbrev pub is_same : Text → ℕ → Work → Bool
is_same name index w = (w.cache_page_index == index) && same_text w.full_path_name name

pub contains_work : WorkQueue → Text → ℕ → Option Bool
contains_work wq name index =
    scan (starts_alike name index) max_workqueue_size wq.works wq.front wq.rear

pub push_work : WorkQueue → Work → WorkQueue
push_work wq w = record wq {
  works = update wq.works wq.rear w;
  rear = (wq.rear + 1) % max_workqueue_size;
  size = wq.size + 1;
}

pub insert_work : WorkQueue → Text → ℕ → Option (Bool × WorkQueue)
unfolding push_work
insert_work wq name index = if wq.size == max_workqueue_size - 1 then some (false, wq) else do
  queued ← scan (is_same name index) max_workqueue_size wq.works wq.front wq.rear
  let w : Work = record { full_path_name = name; cache_page_index = index }
  if queued then some (false, wq) else some (true, push_work wq w)

pub remove_work : WorkQueue → Bool × WorkQueue
remove_work wq =
    if wq.size == 0
    then (false, wq)
    else (true, record wq { front = (wq.front + 1) % max_workqueue_size; size = wq.size - 1 })

-- The option is what goes through `full_path_name` and `cache_page_index`.
pub peak_work : WorkQueue → Option Work
peak_work wq = if wq.size == 0 then none else some (wq.works wq.front)
