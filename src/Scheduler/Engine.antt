-- ===== src/Scheduler/Engine.antt =====
-- A whole scheduler of src/scheduler.c, as the thread sees it that starts, joins or destroys it.
use concurrent_task_scheduli.Base.{ℕ, Bool, false, Option, none, some, List, if◌then◌else◌}
use concurrent_task_scheduli.Sync.{SchedSyncResult, has_failed}
use concurrent_task_scheduli.Fault.{FaultPlan, FaultPoint, should_trigger}
use concurrent_task_scheduli.ConcurrentQueue.{
  ConcurrentTaskQueue, ShutdownAnswers, concurrent_task_queue_shutdown,
}
use concurrent_task_scheduli.Scheduler.{
  SchedulerResult, ok, error_system, SchedulerState, running, is_state, Lifecycle,
}
use concurrent_task_scheduli.Scheduler.Shutdown.{put_state}
use concurrent_task_scheduli.Scheduler.Crew.{Crew}
use concurrent_task_scheduli.Scheduler.Worker.{WorkerContext}

-- The counters of SchedulerImplementation that sum up the slots of released workers.
pub record Sums : Type 0 where
  pub dequeued_count : ℕ
  pub callback_started_count : ℕ
  pub successful_callback_count : ℕ
  pub failed_callback_count : ℕ

-- SchedulerImplementation, without the callback. An array that is NULL is `none`; an entry of `threads`
-- says whether the thread's pointer `implementation` is not NULL. `fault_plan` plays no part unless
-- the build injects faults.
pub record Engine : Type 0 where
  pub queue : ConcurrentTaskQueue
  pub worker_count : ℕ
  pub lifecycle : Lifecycle
  pub crew : Crew
  pub join_failure_count : ℕ
  pub sums : Sums
  pub threads : Option (List Bool)
  pub worker_contexts : Option (List WorkerContext)
  pub worker_sync_initialized : Bool
  pub fault_plan : FaultPlan

-- What the other threads do to the scheduler while the thread that starts or joins it holds no mutex.
-- Submitters and workers write anything but the state, the counts that start and release keep, and the
-- arrays themselves; and as they are let in only while the scheduler runs, and both calls do without
-- that, the number of active submitters stays unless it runs.
pub record Meanwhile : Type 0 where
  pub queue : ConcurrentTaskQueue → ConcurrentTaskQueue
  pub lifecycle : Lifecycle → Lifecycle
  pub crew : Crew → Crew
  pub slots : List WorkerContext → List WorkerContext

abbrev slots_after : Meanwhile → Option (List WorkerContext) → Option (List WorkerContext)
slots_after m none = none
slots_after m (some cs) = some (m.slots cs)

unfoldable pub during : Meanwhile → Engine → Engine
during m e = record e {
  queue = m.queue e.queue;
  lifecycle = record (m.lifecycle e.lifecycle) {
    state = e.lifecycle.state;
    active_submitter_count =
        if is_state e.lifecycle.state running
        then (m.lifecycle e.lifecycle).active_submitter_count
        else e.lifecycle.active_submitter_count;
  };
  crew = record (m.crew e.crew) {
    started_worker_count = e.crew.started_worker_count;
    created_worker_count = e.crew.created_worker_count;
    joined_worker_count = e.crew.joined_worker_count;
    worker_startup_failure_count = e.crew.worker_startup_failure_count;
  };
  worker_contexts = slots_after m e.worker_contexts;
}

-- A series of steps, each of which goes on, ends the call with a result, or leaves it waiting.
pub data Outcome : Type 0 where
  goes waits : Engine → Outcome
  ends : SchedulerResult → Engine → Outcome

abbrev pub Steps : Type 0
Steps = Engine → Outcome

infixl 5 ◌>>◌
abbrev pub ◌>>◌ : Steps → Steps → Steps
◌>>◌ m k e = elim (m e) [ goes e' ↦ k e' | waits e' ↦ waits e' | ends r e' ↦ ends r e' ]

-- `set_scheduler_state`
unfoldable pub set_scheduler_state :
    SchedSyncResult → SchedSyncResult → SchedulerState → Engine → SchedulerResult × Engine
set_scheduler_state lock unlock state e = if has_failed lock then (error_system, e) else (
  if has_failed unlock then error_system else ok,
  record e { lifecycle = put_state state e.lifecycle },
)

-- `concurrent_task_queue_shutdown` on the scheduler's queue, its result left out.
unfoldable pub shut_queue_down : ShutdownAnswers → Engine → Engine
shut_queue_down a e = record e {
  queue = elim (concurrent_task_queue_shutdown a (some e.queue)).1 [ none ↦ e.queue | some q ↦ q ];
}

-- `scheduler_fault_should_trigger`, in a build that injects faults.
unfoldable pub asks_fault : Bool → FaultPoint → Engine → Bool × Engine
asks_fault injecting point e =
    let (t, plan) = should_trigger point e.fault_plan in
    if injecting then (t, record e { fault_plan = plan }) else (false, e)

-- Both arrays are freed.
abbrev pub drop_arrays : Engine → Engine
drop_arrays e = record e { threads = none; worker_contexts = none }
