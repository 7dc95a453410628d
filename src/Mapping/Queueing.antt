-- ===== src/Mapping/Queueing.antt =====
-- The calls of the work queue by the mapping keep the queue and the table together.
use user_level_ssd_cache_fra.Common.{
  ℕ, ◌≡◌, sym, ap, subst, Bool, List, [], ◌∷◌, ◌++◌, ◌==◌, Text, none, some, Bool-cases, inl, inr,
  length, ◌-◌,
}
use user_level_ssd_cache_fra.Config.{max_workqueue_size}
use user_level_ssd_cache_fra.WorkQueue.{Work, WorkQueue, is_same, remove_work}
use user_level_ssd_cache_fra.WorkQueue.Inv.{contents, any, remove_work-IsValid}
use user_level_ssd_cache_fra.WorkQueue.Ops.{enqueue, dequeue}
use user_level_ssd_cache_fra.WorkQueue.Refine.{insert_work-enqueue, remove_work-dequeue}
use user_level_ssd_cache_fra.Entry.{EntrySpace}
use user_level_ssd_cache_fra.Mapping.{Mapping, queue_work}
use user_level_ssd_cache_fra.Mapping.Shape.{View}
use user_level_ssd_cache_fra.Mapping.Buckets.{Found}
use user_level_ssd_cache_fra.Mapping.Inv.{
  Flight, idle, promoting, demoting, writing_back, finishing, AllAbsent, IsDistinct, waiting,
  HasJob, Queued,
}
use user_level_ssd_cache_fra.Mapping.Requests.{AllAbsent-append, append-IsDistinct}

waiting-append :
    (es : EntrySpace) (tabled : ℕ → Bool) (f : Flight) (w : Work) (ws : List Work)
    → AllAbsent es tabled (waiting f ws)
    → Found es tabled w.full_path_name w.cache_page_index none
    → AllAbsent es tabled (waiting f (ws ++ (w ∷ [])))
waiting-append es tabled finishing w [] a new = tt
waiting-append es tabled finishing w (x ∷ ws) a new = AllAbsent-append es tabled w ws a new
waiting-append es tabled idle w ws a new = AllAbsent-append es tabled w ws a new
waiting-append es tabled (promoting e) w ws a new = AllAbsent-append es tabled w ws a new
waiting-append es tabled (demoting e) w ws a new = AllAbsent-append es tabled w ws a new
waiting-append es tabled (writing_back e) w ws a new = AllAbsent-append es tabled w ws a new

HasJob-append :
    (es : EntrySpace) (f : Flight) (w : Work) (ws : List Work)
    → HasJob f es ws
    → HasJob f es (ws ++ (w ∷ []))
HasJob-append es (promoting e) w [] j = absurd j
HasJob-append es (promoting e) w (x ∷ ws) j = j
HasJob-append es idle w ws j = tt
HasJob-append es (demoting e) w ws j = tt
HasJob-append es (writing_back e) w ws j = tt
HasJob-append es finishing w ws j = tt

-- The three statements about a queue whose requests are `ws`.
record Waits (es : EntrySpace) (tabled : ℕ → Bool) (f : Flight) (ws : List Work) : Type 0 where
  distinct : IsDistinct ws
  absent : AllAbsent es tabled (waiting f ws)
  job : HasJob f es ws

enqueue-Waits :
    (es : EntrySpace) (tabled : ℕ → Bool) (f : Flight) (ws : List Work) (name : Text) (index : ℕ)
    → Waits es tabled f ws
    → Found es tabled name index none
    → Waits es tabled f (enqueue ws name index).1
unfolding enqueue
enqueue-Waits es tabled f ws name index a new =
    elim (Bool-cases (length ws == max_workqueue_size - 1)) [
      | inl full ↦ rw full a
      | inr room ↦ rw room (elim (Bool-cases (any (is_same name index) ws)) [
        | inl queued ↦ rw queued a
        | inr fresh ↦ rw fresh (record {
          distinct = append-IsDistinct _ ws a.distinct fresh;
          absent = waiting-append es tabled f _ ws a.absent new;
          job = HasJob-append es f _ ws a.job;
        })
      ])
    ]

-- A request for a page that is not in the table may be queued: `insert_work` ends.
pub queue_work-Queued :
    (m : Mapping) (v : View) (f : Flight) (name : Text) (index : ℕ)
    → Queued m v f
    → Found m.es v.tabled name index none
    → (wq' : WorkQueue) × (queue_work m name index ≡ some (record m { wq = wq' }))
      × (contents wq' ≡ (enqueue (contents m.wq) name index).1)
      × Queued (record m { wq = wq' }) v f
unfolding queue_work
queue_work-Queued m v f name index q new =
    let (wq', step, same, valid) = insert_work-enqueue m.wq name index q.valid in
    let waits =
      enqueue-Waits m.es v.tabled f (contents m.wq) name index
        (record { distinct = q.distinct; absent = q.absent; job = q.job }) new in
    let waits' = subst (Waits m.es v.tabled f) (sym same) waits in
    (
      wq',
      rw step,
      same,
      record {
        valid = valid;
        distinct = waits'.distinct;
        absent = waits'.absent;
        job = waits'.job;
      },
    )

dequeue-Waits :
    (es : EntrySpace) (tabled : ℕ → Bool) (ws : List Work)
    → Waits es tabled finishing ws
    → Waits es tabled idle (dequeue ws).1
unfolding dequeue
dequeue-Waits es tabled [] a = record { distinct = tt; absent = tt; job = tt }
dequeue-Waits es tabled (w ∷ ws) a = record { distinct = a.distinct.1; absent = a.absent; job = tt }

-- `remove_work` drops the request that is done.
pub remove_work-Queued :
    (m : Mapping) (v : View)
    → Queued m v finishing
    → Queued (record m { wq = (remove_work m.wq).1 }) v idle
remove_work-Queued m v q =
    let waits =
      dequeue-Waits m.es v.tabled (contents m.wq)
        (record { distinct = q.distinct; absent = q.absent; job = q.job }) in
    let waits' =
      subst (Waits m.es v.tabled idle) (sym (ap (λ k. k.1) (remove_work-dequeue m.wq))) waits in
    record {
      valid = remove_work-IsValid m.wq q.valid;
      distinct = waits'.distinct;
      absent = waits'.absent;
      job = waits'.job;
    }
