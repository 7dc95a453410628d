-- ===== src/WorkQueue/Refine.antt =====
-- A valid ring behaves as the queue of its requests.
use user_level_ssd_cache_fra.Common.{
  ℕ, ◌-◌, ◌≡◌, refl, inl, inr, some, List, [], ◌∷◌, arith, ◌==◌, Text, Bool-cases,
}
use user_level_ssd_cache_fra.Config.{max_workqueue_size}
use user_level_ssd_cache_fra.WorkQueue.{
  WorkQueue, is_same, push_work, insert_work, remove_work, peak_work,
}
use user_level_ssd_cache_fra.WorkQueue.Inv.{
  IsValid, contents, any, length-contents, contents-front, contents-push_work, push_work-IsValid,
  remove_work-IsValid,
}
use user_level_ssd_cache_fra.WorkQueue.Search.{scan-contents}
use user_level_ssd_cache_fra.WorkQueue.Ops.{
  Op, insert, remove, peak, enqueue, dequeue, oldest, queue_run, ring_run,
}

-- On a valid ring `insert_work` ends, answers as the queue does, and leaves a valid ring that holds
-- the queue's requests.
pub insert_work-enqueue :
    (wq : WorkQueue) (name : Text) (index : ℕ)
    → IsValid wq
    → (wq' : WorkQueue) × (insert_work wq name index
        ≡ some ((enqueue (contents wq) name index).0, wq'))
      × (contents wq' ≡ (enqueue (contents wq) name index).1)
      × IsValid wq'
unfolding insert_work enqueue
insert_work-enqueue wq name index v = elim (Bool-cases (wq.size == max_workqueue_size - 1)) [
  | inl full ↦ (wq, ground (arith, length-contents wq), ground (arith, length-contents wq), v)
  | inr room ↦
      rw (room, scan-contents (is_same name index) wq v, length-contents wq, room)
        (elim (Bool-cases (any (is_same name index) (contents wq))) [
          | inl queued ↦ (wq, ground arith, ground arith, v)
          | inr new ↦ rw new (
            push_work wq _,
            refl,
            contents-push_work wq _ v,
            push_work-IsValid wq _ v (ground arith),
          )
        ])
]

-- `remove_work` drops the oldest request, or says that there is none.
pub remove_work-dequeue :
    (wq : WorkQueue) → ((remove_work wq).0, contents (remove_work wq).1) ≡ dequeue (contents wq)
unfolding remove_work dequeue
remove_work-dequeue wq = ground (arith, contents-front wq)

-- `peak_work` reads the oldest request, or says that there is none.
pub peak_work-oldest : (wq : WorkQueue) → peak_work wq ≡ oldest (contents wq)
unfolding peak_work oldest
peak_work-oldest wq = ground (arith, contents-front wq)

-- On a valid ring every sequence of calls ends, and is answered as by the bounded queue without
-- repetitions that holds the ring's requests.
pub ring_run-queue_run :
    (ops : List Op) (wq : WorkQueue)
    → IsValid wq
    → ring_run wq ops ≡ some (queue_run (contents wq) ops)
unfolding ring_run queue_run
ring_run-queue_run [] wq v = refl
ring_run-queue_run (insert name index ∷ ops) wq v =
    let (wq', step, same, v') = insert_work-enqueue wq name index v in
    rw (step, ring_run-queue_run ops wq' v', same)
ring_run-queue_run (remove ∷ ops) wq v =
    rw (
      ring_run-queue_run ops (remove_work wq).1 (remove_work-IsValid wq v),
      ← remove_work-dequeue wq,
    )
ring_run-queue_run (peak ∷ ops) wq v = rw (ring_run-queue_run ops wq v, peak_work-oldest wq)
