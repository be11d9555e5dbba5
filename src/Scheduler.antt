-- ===== src/Scheduler.antt =====
-- src/scheduler.c: what the lifecycle mutex protects, and the results of the queue as the scheduler's.
-- The calls are in the children: Submit (submissions), Shutdown, Start, Release and Join (the life of a
-- whole scheduler, which is an Engine), Calls (any number of submissions at once), Worker, Crew and Entry
-- (the workers), Capture (snapshots), Profiling (the profile), Faults (the fault plan), Whole (all at work).
pub mod Submit
pub mod Shutdown
pub mod Capture
pub mod Crew
pub mod Entry
pub mod Whole
pub mod Engine
pub mod Release
pub mod Start
pub mod Faults
pub mod Profiling
pub mod Join
mod Tests
pub mod Worker
pub mod Accounts
pub mod Calls
use concurrent_task_scheduli.Base.{
  ℕ, Bool, true, false, ◌||◌, ltb, ◌==◌, ◌-◌, if◌then◌else◌, add_word, word_max,
}
use concurrent_task_scheduli.ConcurrentQueue
use concurrent_task_scheduli.ConcurrentQueue.{ConcurrentTaskQueueResult, ConcurrentTaskQueue}

pub data SchedulerResult : Type 0 where
  ok error_invalid_argument error_invalid_state error_allocation : SchedulerResult
  error_queue_full error_shutdown error_system : SchedulerResult

pub data SchedulerState : Type 0 where
  initialized starting running shutting_down stopped failed : SchedulerState

-- The integer behind a state.
abbrev pub state_code : SchedulerState → ℕ
state_code initialized = 0
state_code starting = 1
state_code running = 2
state_code shutting_down = 3
state_code stopped = 4
state_code failed = 5

abbrev pub is_state : SchedulerState → SchedulerState → Bool
is_state a b = state_code a == state_code b

-- The fields of SchedulerImplementation that the lifecycle mutex protects.
pub record Lifecycle : Type 0 where
  pub state : SchedulerState
  pub active_submitter_count : ℕ
  pub submitted_count : ℕ
  pub accepted_count : ℕ
  pub rejected_count : ℕ
  pub lifecycle_accounting_overflow : Bool

-- SchedulerImplementation without its workers.
pub record Implementation : Type 0 where
  pub queue : ConcurrentTaskQueue
  pub lifecycle : Lifecycle

-- `scheduler_observability_increment_saturating`: the counter, and whether it has overflowed.
pub increment_saturating : ℕ → Bool → ℕ × Bool
increment_saturating counter overflow =
    if counter == word_max then (counter, true) else (add_word counter 1, overflow)

-- What becomes of the results of the queue.
abbrev pub map_try_enqueue_result : ConcurrentTaskQueueResult → SchedulerResult
map_try_enqueue_result ConcurrentTaskQueueResult.ok = ok
map_try_enqueue_result ConcurrentTaskQueueResult.error_full = error_queue_full
map_try_enqueue_result ConcurrentTaskQueueResult.error_shutdown = error_shutdown
map_try_enqueue_result r = error_system

abbrev pub map_blocking_enqueue_result : ConcurrentTaskQueueResult → SchedulerResult
map_blocking_enqueue_result ConcurrentTaskQueueResult.ok = ok
map_blocking_enqueue_result ConcurrentTaskQueueResult.error_shutdown = error_shutdown
map_blocking_enqueue_result r = error_system

abbrev pub map_queue_shutdown_result : ConcurrentTaskQueueResult → SchedulerResult
map_queue_shutdown_result ConcurrentTaskQueueResult.ok = ok
map_queue_shutdown_result r = error_system
