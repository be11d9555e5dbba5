-- ===== src/Scheduler/Join.antt =====
-- `scheduler_init`, `scheduler_join` and `scheduler_destroy` of src/scheduler.c.
pub mod Result
pub mod Returns
mod Tests
use concurrent_task_scheduli.Base.{
  ℕ, Bool, true, false, not, ◌||◌, ◌&&◌, Option, none, some, List, ◌==◌, if◌then◌else◌,
}
use concurrent_task_scheduli.Sync.{SchedSyncResult, has_failed}
use concurrent_task_scheduli.Fault.{idle_plan}
use concurrent_task_scheduli.ConcurrentQueue
use concurrent_task_scheduli.ConcurrentQueue.{
  ConcurrentTaskQueueResult, ConcurrentTaskQueue, bare, concurrent_task_queue_init,
}
use concurrent_task_scheduli.TaskQueue
use concurrent_task_scheduli.Scheduler.{
  SchedulerResult, ok, error_invalid_argument, error_invalid_state, error_allocation, error_system,
  SchedulerState, initialized, stopped, failed, is_state, Lifecycle,
}
use concurrent_task_scheduli.Scheduler.Shutdown.{
  join_gate, Pause, drain, waits, wait_failed, drained,
}
use concurrent_task_scheduli.Scheduler.Crew.{no_crew}
use concurrent_task_scheduli.Scheduler.Release.{ReleaseAnswers, release_workers}
use concurrent_task_scheduli.Scheduler.Engine.{Engine, Sums, set_scheduler_state}

abbrev pub map_queue_init_result : ConcurrentTaskQueueResult → SchedulerResult
map_queue_init_result ConcurrentTaskQueueResult.ok = ok
map_queue_init_result ConcurrentTaskQueueResult.error_allocation = error_allocation
map_queue_init_result r = error_system

pub record InitAnswers : Type 0 where
  pub implementation_ok : Bool
  pub queue : ConcurrentQueue.InitAnswers
  pub mutex : SchedSyncResult
  pub condition : SchedSyncResult

abbrev pub no_queue : ConcurrentTaskQueue
no_queue = bare TaskQueue.destroyed

-- A scheduler that has just been set up over its queue.
abbrev pub set_up : ConcurrentTaskQueue → ℕ → Engine
set_up queue worker_count = record {
  queue = queue;
  worker_count = worker_count;
  lifecycle = record {
    state = initialized;
    active_submitter_count = 0;
    submitted_count = 0;
    accepted_count = 0;
    rejected_count = 0;
    lifecycle_accounting_overflow = false;
  };
  crew = no_crew;
  join_failure_count = 0;
  sums = record {
    dequeued_count = 0;
    callback_started_count = 0;
    successful_callback_count = 0;
    failed_callback_count = 0;
  };
  threads = none;
  worker_contexts = none;
  worker_sync_initialized = false;
  fault_plan = idle_plan;
}

-- The queue as `concurrent_task_queue_init` leaves it.
abbrev pub queue_made : InitAnswers → ℕ → ConcurrentTaskQueue
queue_made a queue_capacity =
    elim (concurrent_task_queue_init a.queue (some no_queue) queue_capacity).1 [
      | none ↦ no_queue
      | some c ↦ c
    ]

-- `callback` says whether the argument `execute` is not NULL. A failure leaves nothing allocated.
unfoldable pub scheduler_init :
    InitAnswers → Option (Option Engine) → ℕ → ℕ → Bool → SchedulerResult × Option (Option Engine)
scheduler_init a none queue_capacity worker_count callback = (error_invalid_argument, none)
scheduler_init a (some old) queue_capacity worker_count callback =
    let (q, queue) = concurrent_task_queue_init a.queue (some no_queue) queue_capacity in
    let made = set_up (queue_made a queue_capacity) worker_count in
    let rest : SchedulerResult × Option (Option Engine) = elim q [
      | ConcurrentTaskQueueResult.ok ↦
          (if has_failed a.mutex || has_failed a.condition
            then (error_system, some none)
            else (ok, some (some made)))
      | failure ↦ (map_queue_init_result failure, some none)
    ] in
    if queue_capacity == 0 || worker_count == 0 || not callback
    then (error_invalid_argument, some old)
    else elim old [
      | some e ↦ (error_invalid_state, some (some e))
      | none ↦ if not a.implementation_ok then (error_allocation, some none) else rest
    ]

pub record JoinCallAnswers : Type 0 where
  pub lock : SchedSyncResult
  pub pauses : List Pause
  pub unlock : SchedSyncResult
  pub release : ReleaseAnswers
  pub state_lock : SchedSyncResult
  pub state_unlock : SchedSyncResult

-- `scheduler_join` once no submitter is left.
unfoldable pub join_workers : Bool → JoinCallAnswers → Engine → SchedulerResult × Engine
unfolding set_scheduler_state
join_workers injecting a e =
    let (r, e1) = release_workers injecting a.release e in
    let (s, stopped_engine) = set_scheduler_state a.state_lock a.state_unlock stopped e1 in
    elim e1.threads [
      | some ts ↦ (error_system, (set_scheduler_state a.state_lock a.state_unlock failed e1).1)
      | none ↦ (elim s [ ok ↦ r | other ↦ error_system ], stopped_engine)
    ]

-- `scheduler_join` on a scheduler that is set up. The result is `none` while the caller waits.
unfoldable pub join_engine : Bool → JoinCallAnswers → Engine → Option SchedulerResult × Engine
unfolding join_gate drain join_workers
join_engine injecting a e =
    let (d, s) = drain a.pauses e.lifecycle in
    let after = record e { lifecycle = s } in
    let (r, joined) = join_workers injecting a after in
    if has_failed a.lock then (some error_system, e) else elim (join_gate e.lifecycle) [
      | some ok ↦ (some (if has_failed a.unlock then error_system else ok), e)
      | some other ↦ (some other, e)
      | none ↦ elim d [
        | waits ↦ (none, after)
        | wait_failed ↦ (some error_system, after)
        | drained ↦ if has_failed a.unlock then (some error_system, after) else (some r, joined)
      ]
    ]

unfoldable pub scheduler_join :
    Bool
    → JoinCallAnswers
    → Option (Option Engine)
    → Option SchedulerResult × Option (Option Engine)
unfolding join_engine
scheduler_join injecting a none = (some error_invalid_argument, none)
scheduler_join injecting a (some none) = (some error_invalid_state, some none)
scheduler_join injecting a (some (some e)) =
    let (r, e') = join_engine injecting a e in (r, some (some e'))

abbrev is_none {ℓ} : {A : Type ℓ} → Option A → Bool
is_none none = true
is_none (some a) = false

-- `scheduler_destroy` on a scheduler that is set up; `lock` and `unlock` are of the lifecycle mutex.
unfoldable pub destroy_engine :
    SchedSyncResult → SchedSyncResult → Engine → SchedulerResult × Option Engine
destroy_engine lock unlock e =
    if has_failed lock
    then (error_system, some e)
    else if not (is_state e.lifecycle.state initialized)
        && not (is_state e.lifecycle.state stopped)
        && not (is_state e.lifecycle.state failed)
    then (error_invalid_state, some e)
    else if not (e.lifecycle.active_submitter_count == 0)
        || not (is_none e.threads)
        || not (is_none e.worker_contexts)
    then (error_invalid_state, some e)
    else if has_failed unlock
    then (error_system, some e)
    else (ok, none)

unfoldable pub scheduler_destroy :
    SchedSyncResult
    → SchedSyncResult
    → Option (Option Engine)
    → SchedulerResult × Option (Option Engine)
unfolding destroy_engine
scheduler_destroy lock unlock none = (error_invalid_argument, none)
scheduler_destroy lock unlock (some none) = (ok, some none)
scheduler_destroy lock unlock (some (some e)) =
    let (r, rest) = destroy_engine lock unlock e in (r, some rest)
