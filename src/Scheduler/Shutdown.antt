-- ===== src/Scheduler/Shutdown.antt =====
-- The end of a scheduler of src/scheduler.c: `scheduler_shutdown`, and what `scheduler_start` and
-- `scheduler_join` ask of the state and leave in it.
use concurrent_task_scheduli.Base.{
  Bool, not, ◌&&◌, Option, none, some, List, [], ◌∷◌, ◌==◌, if◌then◌else◌,
}
use concurrent_task_scheduli.Sync.{SchedSyncResult, has_failed}
use concurrent_task_scheduli.ConcurrentQueue.{ShutdownAnswers, concurrent_task_queue_shutdown}
use concurrent_task_scheduli.Scheduler.{
  SchedulerResult, ok, error_invalid_argument, error_invalid_state, error_system, SchedulerState,
  initialized, starting, running, shutting_down, stopped, failed, is_state, Lifecycle,
  Implementation, map_queue_shutdown_result,
}

-- `set_scheduler_state` under the lock.
abbrev pub put_state : SchedulerState → Lifecycle → Lifecycle
put_state state s = record s { state = state }

-- `scheduler_start` in its first locked part: where the result is `ok`, it goes on.
unfoldable pub start_gate : Lifecycle → SchedulerResult × Lifecycle
start_gate s =
    if is_state s.state initialized then (ok, put_state starting s) else (error_invalid_state, s)

-- `scheduler_shutdown` in its first locked part: it ends with a result, or goes on (`none`).
unfoldable pub shutdown_gate : Lifecycle → Option SchedulerResult × Lifecycle
shutdown_gate s =
    if is_state s.state stopped
    then (some ok, s)
    else if not (is_state s.state running) && not (is_state s.state shutting_down)
    then (some error_invalid_state, s)
    else if is_state s.state running
    then (none, put_state shutting_down s)
    else (none, s)

-- `scheduler_join` in its first locked part: it ends with a result, or goes on to wait (`none`).
unfoldable pub join_gate : Lifecycle → Option SchedulerResult
join_gate s =
    if is_state s.state stopped
    then some ok
    else if not (is_state s.state shutting_down) && not (is_state s.state failed)
    then some error_invalid_state
    else none

-- The test of the loops in which shutdown and join wait for the last submitter.
unfoldable pub must_wait : Lifecycle → Bool
must_wait s = not (s.active_submitter_count == 0)

-- What one wait is for its caller: the other threads' work while the mutex is free, and the result of
-- `sched_condition_wait`.
pub record Pause : Type 0 where
  pub others : Lifecycle → Lifecycle
  pub waited : SchedSyncResult

-- Where the loop has come to: it still waits, a wait has failed, or no submitter is left.
pub data Drain : Type 0 where
  waits wait_failed drained : Drain

unfoldable pub drain : List Pause → Lifecycle → Drain × Lifecycle
unfolding must_wait
drain [] s = (if must_wait s then waits else drained, s)
drain (p ∷ ps) s =
    let back = p.others s in
    let rest = drain ps back in
    if not (must_wait s)
    then (drained, s)
    else if has_failed p.waited
    then (wait_failed, back)
    else rest

-- What the platform answers to the calls of `scheduler_shutdown`, and what the other threads do while it
-- holds no mutex.
pub record Answers : Type 0 where
  pub lock : SchedSyncResult
  pub unlock : SchedSyncResult
  pub before_queue : Implementation → Implementation
  pub queue : ShutdownAnswers
  pub after_queue : Implementation → Implementation
  pub relock : SchedSyncResult
  pub pauses : List Pause
  pub last_unlock : SchedSyncResult

-- `scheduler_shutdown` from the queue's shutdown on. The result is `none` while the caller waits.
abbrev shut_queue : Answers → Implementation → Option SchedulerResult × Implementation
shut_queue a i =
    let j = a.before_queue i in
    let (q, queue) = concurrent_task_queue_shutdown a.queue (some j.queue) in
    let k = a.after_queue (record j { queue = elim queue [ none ↦ j.queue | some c ↦ c ] }) in
    let (d, s) = drain a.pauses k.lifecycle in
    let after = record k { lifecycle = s } in
    if has_failed a.relock then (some error_system, k) else elim d [
      | waits ↦ (none, after)
      | wait_failed ↦ (some error_system, after)
      | drained ↦ (
        some (if has_failed a.last_unlock then error_system else map_queue_shutdown_result q),
        after,
      )
    ]

pub scheduler_shutdown :
    Answers
    → Option (Option Implementation)
    → Option SchedulerResult × Option (Option Implementation)
unfolding shutdown_gate drain
scheduler_shutdown a none = (some error_invalid_argument, none)
scheduler_shutdown a (some none) = (some error_invalid_state, some none)
scheduler_shutdown a (some (some i)) =
    let (g, s) = shutdown_gate i.lifecycle in
    let passed = record i { lifecycle = s } in
    let (r, after) = shut_queue a passed in
    if has_failed a.lock then (some error_system, some (some i)) else elim g [
      | some error_invalid_state ↦ (some error_invalid_state, some (some passed))
      | some r' ↦ (some (if has_failed a.unlock then error_system else r'), some (some passed))
      | none ↦
          if has_failed a.unlock
          then (some error_system, some (some passed))
          else (r, some (some after))
    ]
