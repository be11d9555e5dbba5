-- ===== src/ConcurrentQueue/Take.antt =====
-- The removals of src/concurrent_task_queue.c: `concurrent_task_queue_try_dequeue` and
-- `concurrent_task_queue_dequeue`, and the peek.
use concurrent_task_scheduli.Base.{
  Bool, true, false, not, ◌||◌, ◌&&◌, Option, none, some, List, [], ◌∷◌, add_word, sub_word, ltb,
  if◌then◌else◌, Pointer,
}
use concurrent_task_scheduli.Sync.{has_failed}
use concurrent_task_scheduli.TaskQueue.{
  TaskQueue, TaskQueueResult, dequeue, peek, is_empty, is_full,
}
use concurrent_task_scheduli.ConcurrentQueue.{
  ConcurrentTaskQueueResult, ok, error_invalid_argument, error_system, error_empty, error_shutdown,
  Shared, ConcurrentTaskQueue, bare, live, Answers, Wake, Progress, waiting, wait_failed, done,
}

-- What a removal under the lock comes to: its result so far, the task taken out, and whether it signals
-- `not_full`.
pub record Take : Type 0 where
  pub result : ConcurrentTaskQueueResult
  pub removed : Option Pointer
  pub signals : Bool

abbrev pub refused_take : ConcurrentTaskQueueResult → Take
refused_take r = record { result = r; removed = none; signals = false }

abbrev take_failure : TaskQueueResult → ConcurrentTaskQueueResult
take_failure TaskQueueResult.error_invalid_argument = error_invalid_argument
take_failure r = error_system

-- The signal, if one is sent, and the unlock. A task taken out is handed over whatever they answer.
abbrev pub close_take : Answers → Take → ConcurrentTaskQueueResult
close_take a t =
    if has_failed a.unlock
    then error_system
    else if t.signals && has_failed a.signal
    then error_system
    else t.result

module _ (transition : Bool) where
  abbrev accepted_take : TaskQueue → Shared → Option Pointer → Take
  accepted_take before s task = record {
    result = ok;
    removed = task;
    signals = not transition || is_full before || ltb 0 s.waiting_producers;
  }

  unfoldable pub remove : Shared → Take × Shared
  remove s =
      let ((r, task), q) = dequeue true s.queue in
      elim r [
        | TaskQueueResult.ok ↦ (accepted_take s.queue s task, record s { queue = q })
        | failure ↦ (refused_take (take_failure failure), record s { queue = q })
      ]

  -- The locked part of `concurrent_task_queue_try_dequeue`.
  unfoldable pub try_take : Shared → Take × Shared
  unfolding remove
  try_take s =
      if is_empty s.queue
      then (refused_take (if s.shutdown_requested then error_shutdown else error_empty), s)
      else remove s

  -- `out` says whether the argument `task` is not NULL; the option is what is written through it.
  unfoldable pub concurrent_task_queue_try_dequeue :
      Answers
      → Option ConcurrentTaskQueue
      → Bool
      → (ConcurrentTaskQueueResult × Option Pointer) × Option ConcurrentTaskQueue
  unfolding try_take
  concurrent_task_queue_try_dequeue a none out = ((error_invalid_argument, none), none)
  concurrent_task_queue_try_dequeue a (some (bare q)) out =
      ((error_invalid_argument, none), some (bare q))
  concurrent_task_queue_try_dequeue a (some (live s)) out =
      if not out
      then ((error_invalid_argument, none), some (live s))
      else if has_failed a.lock
      then ((error_system, none), some (live s))
      else (let (t, s') = try_take s in ((close_take a t, t.removed), some (live s')))

-- The test of the loop in `concurrent_task_queue_dequeue`.
unfoldable pub must_wait_take : Shared → Bool
must_wait_take s = not s.shutdown_requested && is_empty s.queue

-- After a wait returns, whatever it returns.
unfoldable pub leave_not_empty : Shared → Shared
leave_not_empty s = record s { waiting_consumers = sub_word s.waiting_consumers 1 }

module _ (transition : Bool) where
  -- `concurrent_task_queue_dequeue` from the test of its loop on: it comes to the wait (`none`, with
  -- the caller counted among the waiting consumers), or to its end.
  unfoldable pub attempt_take : Shared → Option Take × Shared
  unfolding must_wait_take remove
  attempt_take s =
      if must_wait_take s
      then (none, record s { waiting_consumers = add_word s.waiting_consumers 1 })
      else if is_empty s.queue
      then (some (refused_take error_shutdown), s)
      else (let (t, s') = remove transition s in (some t, s'))

  -- The whole loop, through a series of waits.
  unfoldable pub take_loop : List Wake → Shared → Progress Take × Shared
  unfolding attempt_take leave_not_empty
  take_loop [] s =
      let (t, s') = attempt_take s in elim t [ some r ↦ (done r, s') | none ↦ (waiting, s') ]
  take_loop (w ∷ ws) s =
      let (t, s') = attempt_take s in
      let back = leave_not_empty (w.others s') in
      let rest = take_loop ws back in
      elim t [
        | some r ↦ (done r, s')
        | none ↦ if has_failed w.waited then (wait_failed, back) else rest
      ]

  -- The result is `none` while the caller waits.
  unfoldable pub concurrent_task_queue_dequeue :
      Answers
      → List Wake
      → Option ConcurrentTaskQueue
      → Bool
      → (Option ConcurrentTaskQueueResult × Option Pointer) × Option ConcurrentTaskQueue
  unfolding take_loop
  concurrent_task_queue_dequeue a ws none out = ((some error_invalid_argument, none), none)
  concurrent_task_queue_dequeue a ws (some (bare q)) out =
      ((some error_invalid_argument, none), some (bare q))
  concurrent_task_queue_dequeue a ws (some (live s)) out =
      let (t, s') = take_loop ws s in
      if not out
      then ((some error_invalid_argument, none), some (live s))
      else if has_failed a.lock
      then ((some error_system, none), some (live s))
      else elim t [
        | waiting ↦ ((none, none), some (live s'))
        | wait_failed ↦ ((some error_system, none), some (live s'))
        | done r ↦ ((some (close_take a r), r.removed), some (live s'))
      ]

-- The locked part of `concurrent_task_queue_try_peek`; its `signals` is false.
unfoldable pub look : Shared → Take
look s =
    let (r, task) = peek true s.queue in
    if is_empty s.queue
    then refused_take (if s.shutdown_requested then error_shutdown else error_empty)
    else elim r [
      | TaskQueueResult.ok ↦ record { result = ok; removed = task; signals = false }
      | failure ↦ refused_take (take_failure failure)
    ]

unfoldable pub concurrent_task_queue_try_peek :
    Answers → Option ConcurrentTaskQueue → Bool → ConcurrentTaskQueueResult × Option Pointer
unfolding look
concurrent_task_queue_try_peek a (some (live s)) out =
    let t = look s in
    if not out
    then (error_invalid_argument, none)
    else if has_failed a.lock
    then (error_system, none)
    else (if has_failed a.unlock then error_system else t.result, t.removed)
concurrent_task_queue_try_peek a q out = (error_invalid_argument, none)
