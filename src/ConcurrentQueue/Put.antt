-- ===== src/ConcurrentQueue/Put.antt =====
-- The insertions of src/concurrent_task_queue.c: `concurrent_task_queue_try_enqueue` and
-- `concurrent_task_queue_enqueue`.
use concurrent_task_scheduli.Base.{
  Bool, true, false, not, ◌||◌, ◌&&◌, Option, none, some, List, [], ◌∷◌, add_word, sub_word, ltb,
  if◌then◌else◌, Pointer,
}
use concurrent_task_scheduli.Sync.{has_failed}
use concurrent_task_scheduli.TaskQueue.{
  TaskQueue, TaskQueueResult, enqueue, is_empty, is_full, is_null,
}
use concurrent_task_scheduli.ConcurrentQueue.{
  ConcurrentTaskQueueResult, ok, error_invalid_argument, error_system, error_full, error_shutdown,
  Shared, ConcurrentTaskQueue, bare, live, Answers, Wake, Progress, waiting, wait_failed, done,
}

-- What an insertion under the lock comes to: its result so far, whether the task went in, and whether
-- it signals `not_empty`.
pub record Put : Type 0 where
  pub result : ConcurrentTaskQueueResult
  pub inserted : Bool
  pub signals : Bool

abbrev pub refused_put : ConcurrentTaskQueueResult → Put
refused_put r = record { result = r; inserted = false; signals = false }

-- The signal, if one is sent, and the unlock.
abbrev pub close_put : Answers → Put → ConcurrentTaskQueueResult
close_put a p =
    if has_failed a.unlock
    then error_system
    else if p.signals && has_failed a.signal
    then error_system
    else p.result

-- `transition` is the build's CONCURRENT_SCHEDULER_USE_TRANSITION_SIGNALING.
module _ (transition : Bool) where
  abbrev accepted_put : TaskQueue → Shared → Put
  accepted_put before s = record {
    result = ok;
    inserted = true;
    signals = not transition || is_empty before || ltb 0 s.waiting_consumers;
  }

  -- The insertion proper, its failures named by `refuse`: where `task_queue_enqueue` succeeds, the
  -- high water mark follows the size.
  unfoldable pub insert :
      (TaskQueueResult → ConcurrentTaskQueueResult) → Pointer → Shared → Put × Shared
  insert refuse task s =
      let (r, q) = enqueue task s.queue in
      elim r [
        | TaskQueueResult.ok ↦ (
          accepted_put s.queue s,
          record s {
            queue = q;
            high_water_mark = if ltb s.high_water_mark q.size then q.size else s.high_water_mark;
          },
        )
        | failure ↦ (refused_put (refuse failure), record s { queue = q })
      ]

  abbrev pub try_enqueue_failure : TaskQueueResult → ConcurrentTaskQueueResult
  try_enqueue_failure TaskQueueResult.error_invalid_argument = error_invalid_argument
  try_enqueue_failure TaskQueueResult.error_full = error_full
  try_enqueue_failure r = error_system

  -- The locked part of `concurrent_task_queue_try_enqueue`.
  unfoldable pub try_put : Pointer → Shared → Put × Shared
  unfolding insert
  try_put task s =
      if s.shutdown_requested
      then (refused_put error_shutdown, s)
      else insert try_enqueue_failure task s

  unfoldable pub concurrent_task_queue_try_enqueue :
      Answers
      → Option ConcurrentTaskQueue
      → Pointer
      → ConcurrentTaskQueueResult × Option ConcurrentTaskQueue
  unfolding try_put
  concurrent_task_queue_try_enqueue a none task = (error_invalid_argument, none)
  concurrent_task_queue_try_enqueue a (some (bare q)) task = (error_invalid_argument, some (bare q))
  concurrent_task_queue_try_enqueue a (some (live s)) task =
      if is_null task
      then (error_invalid_argument, some (live s))
      else if has_failed a.lock
      then (error_system, some (live s))
      else (let (p, s') = try_put task s in (close_put a p, some (live s')))

-- The test of the loop in `concurrent_task_queue_enqueue`.
unfoldable pub must_wait_put : Shared → Bool
must_wait_put s = not s.shutdown_requested && is_full s.queue

abbrev pub enqueue_failure : TaskQueueResult → ConcurrentTaskQueueResult
enqueue_failure TaskQueueResult.error_invalid_argument = error_invalid_argument
enqueue_failure r = error_system

-- After a wait returns, whatever it returns.
unfoldable pub leave_not_full : Shared → Shared
leave_not_full s = record s { waiting_producers = sub_word s.waiting_producers 1 }

module _ (transition : Bool) where
  -- `concurrent_task_queue_enqueue` from the test of its loop on: it comes to the wait (`none`, with
  -- the caller counted among the waiting producers), or to its end.
  unfoldable pub attempt_put : Pointer → Shared → Option Put × Shared
  unfolding must_wait_put insert
  attempt_put task s =
      if must_wait_put s
      then (none, record s { waiting_producers = add_word s.waiting_producers 1 })
      else if s.shutdown_requested
      then (some (refused_put error_shutdown), s)
      else (let (p, s') = insert transition enqueue_failure task s in (some p, s'))

  -- The whole loop, through a series of waits.
  unfoldable pub put_loop : Pointer → List Wake → Shared → Progress Put × Shared
  unfolding attempt_put leave_not_full
  put_loop task [] s =
      let (p, s') = attempt_put task s in elim p [ some q ↦ (done q, s') | none ↦ (waiting, s') ]
  put_loop task (w ∷ ws) s =
      let (p, s') = attempt_put task s in
      let back = leave_not_full (w.others s') in
      let rest = put_loop task ws back in
      elim p [
        | some q ↦ (done q, s')
        | none ↦ if has_failed w.waited then (wait_failed, back) else rest
      ]

  -- The result is `none` while the caller waits.
  unfoldable pub concurrent_task_queue_enqueue :
      Answers
      → List Wake
      → Option ConcurrentTaskQueue
      → Pointer
      → Option ConcurrentTaskQueueResult × Option ConcurrentTaskQueue
  unfolding put_loop
  concurrent_task_queue_enqueue a ws none task = (some error_invalid_argument, none)
  concurrent_task_queue_enqueue a ws (some (bare q)) task =
      (some error_invalid_argument, some (bare q))
  concurrent_task_queue_enqueue a ws (some (live s)) task =
      let (p, s') = put_loop task ws s in
      if is_null task
      then (some error_invalid_argument, some (live s))
      else if has_failed a.lock
      then (some error_system, some (live s))
      else elim p [
        | waiting ↦ (none, some (live s'))
        | wait_failed ↦ (some error_system, some (live s'))
        | done q ↦ (some (close_put a q), some (live s'))
      ]
