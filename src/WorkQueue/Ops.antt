-- ===== src/WorkQueue/Ops.antt =====
-- The request queue that a client sees: at most fifteen requests, no two alike, oldest first.
use user_level_ssd_cache_fra.Common.{
  ℕ, ◌-◌, Bool, true, false, Option, none, some, List, [], ◌∷◌, ◌++◌, ◌==◌, if◌then◌else◌, ◌>>=◌,
  length, Text,
}
use user_level_ssd_cache_fra.Config.{max_workqueue_size}
use user_level_ssd_cache_fra.WorkQueue.{
  Work, WorkQueue, is_same, insert_work, remove_work, peak_work,
}
use user_level_ssd_cache_fra.WorkQueue.Inv.{any}

-- what clients and the worker ask of the queue, and what they see
pub data Op : Type 0 where
  insert : Text → ℕ → Op
  remove : Op
  peak : Op

pub data Reply : Type 0 where
  inserted : Bool → Reply
  removed : Bool → Reply
  peaked : Option Work → Reply

unfoldable pub enqueue : List Work → Text → ℕ → Bool × List Work
enqueue q name index =
    if length q == max_workqueue_size - 1
    then (false, q)
    else (if any (is_same name index) q
        then (false, q)
        else (true, q ++ (record { full_path_name = name; cache_page_index = index } ∷ [])))

unfoldable pub dequeue : List Work → Bool × List Work
dequeue [] = (false, [])
dequeue (w ∷ q) = (true, q)

unfoldable pub oldest : List Work → Option Work
oldest [] = none
oldest (w ∷ q) = some w

-- the replies of a queue to a sequence of calls, in order
unfoldable pub queue_run : List Work → List Op → List Reply
queue_run q [] = []
queue_run q (insert name index ∷ ops) =
    let (done, q') = enqueue q name index in inserted done ∷ queue_run q' ops
queue_run q (remove ∷ ops) = let (done, q') = dequeue q in removed done ∷ queue_run q' ops
queue_run q (peak ∷ ops) = peaked (oldest q) ∷ queue_run q ops

-- the same of the ring; `none` is a search that does not end
unfoldable pub ring_run : WorkQueue → List Op → Option (List Reply)
ring_run wq [] = some []
ring_run wq (insert name index ∷ ops) = do
  (done, wq') ← insert_work wq name index
  rest ← ring_run wq' ops
  some (inserted done ∷ rest)
ring_run wq (remove ∷ ops) = do
  let (done, wq') = remove_work wq
  rest ← ring_run wq' ops
  some (removed done ∷ rest)
ring_run wq (peak ∷ ops) = do rest ← ring_run wq ops; some (peaked (peak_work wq) ∷ rest)
