-- ===== src/Scheduler/Submit.antt =====
-- The submissions of src/scheduler.c: `scheduler_submit` and `scheduler_try_submit`.
use concurrent_task_scheduli.Base.{
  Bool, ◌||◌, ◌&&◌, Option, none, some, List, ◌==◌, if◌then◌else◌, add_word, sub_word, Pointer,
}
use concurrent_task_scheduli.Sync.{SchedSyncResult, has_failed}
use concurrent_task_scheduli.TaskQueue.{is_null}
use concurrent_task_scheduli.ConcurrentQueue
use concurrent_task_scheduli.ConcurrentQueue.{ConcurrentTaskQueueResult, ConcurrentTaskQueue, Wake}
use concurrent_task_scheduli.ConcurrentQueue.Put.{
  concurrent_task_queue_try_enqueue, concurrent_task_queue_enqueue,
}
use concurrent_task_scheduli.Scheduler.{
  SchedulerResult, ok, error_invalid_argument, error_invalid_state, error_shutdown, error_system,
  running, shutting_down, stopped, is_state, Lifecycle, Implementation, increment_saturating,
  map_try_enqueue_result, map_blocking_enqueue_result,
}

-- What the platform answers to the calls of a submission, and what the other threads do between its
-- locked parts.
pub record SubmitAnswers : Type 0 where
  pub lock : SchedSyncResult
  pub unlock : SchedSyncResult
  pub before_queue : Implementation → Implementation
  pub queue : ConcurrentQueue.Answers
  pub after_queue : Implementation → Implementation
  pub relock : SchedSyncResult
  pub broadcast : SchedSyncResult
  pub last_unlock : SchedSyncResult

-- `register_submitter` under the lock.
unfoldable pub enter : Lifecycle → SchedulerResult × Lifecycle
unfolding increment_saturating
enter s =
    let (n, o) = increment_saturating s.submitted_count s.lifecycle_accounting_overflow in
    let (k, o') = increment_saturating s.rejected_count o in
    if is_state s.state running
    then (
      ok,
      record s {
        submitted_count = n;
        lifecycle_accounting_overflow = o;
        active_submitter_count = add_word s.active_submitter_count 1;
      },
    )
    else (
      if is_state s.state shutting_down || is_state s.state stopped
          then error_shutdown
          else error_invalid_state,
      record s { submitted_count = n; rejected_count = k; lifecycle_accounting_overflow = o' },
    )

-- `register_submitter` on a scheduler that is set up.
unfoldable pub register :
    SchedSyncResult → SchedSyncResult → Lifecycle → SchedulerResult × Lifecycle
unfolding enter
register lock unlock s =
    let (r, s') = enter s in
    if has_failed lock
    then (error_system, s)
    else if is_state s.state running && has_failed unlock
    then (error_system, s')
    else (r, s')

-- A submission is counted as accepted or rejected by its result.
unfoldable pub settle : SchedulerResult → Lifecycle → Lifecycle
unfolding increment_saturating
settle ok s =
    let (n, o) = increment_saturating s.accepted_count s.lifecycle_accounting_overflow in
    record s { accepted_count = n; lifecycle_accounting_overflow = o }
settle r s =
    let (n, o) = increment_saturating s.rejected_count s.lifecycle_accounting_overflow in
    record s { rejected_count = n; lifecycle_accounting_overflow = o }

-- `deregister_submitter` under the lock; `broadcast` is the answer to the call that is made where no
-- submitter is left.
unfoldable pub leave : SchedSyncResult → SchedulerResult → Lifecycle → SchedulerResult × Lifecycle
unfolding settle
leave broadcast r s =
    let t = settle r s in
    let none_left = s.active_submitter_count == 0 in
    let left = if none_left then 0 else sub_word s.active_submitter_count 1 in
    (
      if none_left || (left == 0 && has_failed broadcast) then error_system else r,
      record t { active_submitter_count = left },
    )

unfoldable pub deregister_submitter :
    SchedSyncResult
    → SchedSyncResult
    → SchedSyncResult
    → SchedulerResult
    → Lifecycle
    → SchedulerResult × Lifecycle
unfolding leave
deregister_submitter lock broadcast unlock r s =
    let (r', s') = leave broadcast r s in
    if has_failed lock
    then (error_system, s)
    else (if has_failed unlock then error_system else r', s')

-- A scheduler whose pointer `implementation` is NULL is `none`.
unfoldable pub register_submitter :
    SchedSyncResult
    → SchedSyncResult
    → Option (Option Implementation)
    → Pointer
    → SchedulerResult × Option (Option Implementation)
unfolding register
register_submitter lock unlock none task = (error_invalid_argument, none)
register_submitter lock unlock (some none) task =
    (if is_null task then error_invalid_argument else error_invalid_state, some none)
register_submitter lock unlock (some (some i)) task =
    let (r, s) = register lock unlock i.lifecycle in
    if is_null task
    then (error_invalid_argument, some (some i))
    else (r, some (some (record i { lifecycle = s })))

-- What is in the queue's place after a call of the queue.
abbrev held : ConcurrentTaskQueue → Option ConcurrentTaskQueue → ConcurrentTaskQueue
held old none = old
held old (some q) = q

module _ (a : SubmitAnswers) where
  abbrev finish :
      SchedulerResult → Implementation → SchedulerResult × Option (Option Implementation)
  finish r i =
      let j = a.after_queue i in
      let (r', s) = deregister_submitter a.relock a.broadcast a.last_unlock r j.lifecycle in
      (r', some (some (record j { lifecycle = s })))

  -- The part of `scheduler_try_submit` after the registration.
  abbrev try_registered :
      Bool
      → Pointer
      → Option (Option Implementation)
      → SchedulerResult × Option (Option Implementation)
  try_registered transition task (some (some i)) =
      let j = a.before_queue i in
      let (q, queue) = concurrent_task_queue_try_enqueue transition a.queue (some j.queue) task in
      finish (map_try_enqueue_result q) (record j { queue = held j.queue queue })
  try_registered transition task other = (error_system, other)

  unfoldable pub scheduler_try_submit :
      Bool
      → Option (Option Implementation)
      → Pointer
      → SchedulerResult × Option (Option Implementation)
  unfolding register_submitter
  scheduler_try_submit transition scheduler task =
      let (r, after) = register_submitter a.lock a.unlock scheduler task in
      elim r [ ok ↦ try_registered transition task after | e ↦ (e, after) ]

  -- The same of `scheduler_submit`; the result is `none` while the caller waits in the queue.
  abbrev submit_registered :
      Bool
      → List Wake
      → Pointer
      → Option (Option Implementation)
      → Option SchedulerResult × Option (Option Implementation)
  submit_registered transition ws task (some (some i)) =
      let j = a.before_queue i in
      let (q, queue) = concurrent_task_queue_enqueue transition a.queue ws (some j.queue) task in
      let k = record j { queue = held j.queue queue } in
      elim q [
        | none ↦ (none, some (some k))
        | some c ↦ (let (r, after) = finish (map_blocking_enqueue_result c) k in (some r, after))
      ]
  submit_registered transition ws task other = (some error_system, other)

  unfoldable pub scheduler_submit :
      Bool
      → List Wake
      → Option (Option Implementation)
      → Pointer
      → Option SchedulerResult × Option (Option Implementation)
  unfolding register_submitter
  scheduler_submit transition ws scheduler task =
      let (r, after) = register_submitter a.lock a.unlock scheduler task in
      elim r [ ok ↦ submit_registered transition ws task after | e ↦ (some e, after) ]
