-- ===== src/Names/Values.antt =====
-- The members of the enums of src/ that have names, and how a name finds one of them.
use text.Mathlib.Text.{◌==◌}
use Prim.Native.String.{String}
use concurrent_task_scheduli.Base.{Option, none, some, List, [], ◌∷◌, if◌then◌else◌}
use concurrent_task_scheduli.Task.{TaskState, TaskPriority}
use concurrent_task_scheduli.TaskQueue.{TaskQueueResult}
use concurrent_task_scheduli.ConcurrentQueue.{ConcurrentTaskQueueResult}
use concurrent_task_scheduli.Scheduler.{SchedulerResult}
use concurrent_task_scheduli.Fault.{FaultPoint}
use concurrent_task_scheduli.Validation.{Issue}
use concurrent_task_scheduli.Validation.Health.{SchedulerHealth}
use concurrent_task_scheduli.Names.{Value, member, unknown}

-- The first of some values with a name: how a reader of the output finds the value again.
unfoldable pub find_named {ℓ} : {A : Type ℓ} → (A → String) → List A → String → Option A
find_named name [] s = none
find_named name (a ∷ rest) s = if name a == s then some a else find_named name rest s

abbrev pub task_state_values : List TaskState
task_state_values =
    TaskState.created ∷ TaskState.queued ∷ TaskState.running ∷ TaskState.completed
    ∷ TaskState.failed ∷ TaskState.cancelled ∷ TaskState.rejected ∷ []

abbrev pub task_priority_values : List TaskPriority
task_priority_values = TaskPriority.low ∷ TaskPriority.normal ∷ TaskPriority.high ∷ []

abbrev pub task_queue_result_values : List (Value TaskQueueResult)
task_queue_result_values =
    member TaskQueueResult.ok
    ∷ member TaskQueueResult.error_invalid_argument
    ∷ member TaskQueueResult.error_allocation
    ∷ member TaskQueueResult.error_full
    ∷ member TaskQueueResult.error_empty
    ∷ []

abbrev pub concurrent_task_queue_result_values : List (Value ConcurrentTaskQueueResult)
concurrent_task_queue_result_values =
    member ConcurrentTaskQueueResult.ok
    ∷ member ConcurrentTaskQueueResult.error_invalid_argument
    ∷ member ConcurrentTaskQueueResult.error_allocation
    ∷ member ConcurrentTaskQueueResult.error_system
    ∷ member ConcurrentTaskQueueResult.error_full
    ∷ member ConcurrentTaskQueueResult.error_empty
    ∷ member ConcurrentTaskQueueResult.error_shutdown
    ∷ []

abbrev pub scheduler_result_values : List (Value SchedulerResult)
scheduler_result_values =
    member SchedulerResult.ok
    ∷ member SchedulerResult.error_invalid_argument
    ∷ member SchedulerResult.error_invalid_state
    ∷ member SchedulerResult.error_allocation
    ∷ member SchedulerResult.error_queue_full
    ∷ member SchedulerResult.error_shutdown
    ∷ member SchedulerResult.error_system
    ∷ []

abbrev pub scheduler_health_values : List (Value SchedulerHealth)
scheduler_health_values =
    member SchedulerHealth.healthy
    ∷ member SchedulerHealth.degraded
    ∷ member SchedulerHealth.stopping
    ∷ member SchedulerHealth.stopped
    ∷ member SchedulerHealth.failed
    ∷ []

abbrev pub scheduler_fault_point_values : List FaultPoint
scheduler_fault_point_values =
    FaultPoint.nowhere ∷ FaultPoint.allocation ∷ FaultPoint.worker_creation
    ∷ FaultPoint.worker_startup ∷ FaultPoint.worker_join ∷ []

abbrev pub issue_values : List (Value Issue)
issue_values =
    member Issue.snapshot_version_unsupported
    ∷ member Issue.consistency_unsupported
    ∷ member Issue.accounting_overflow
    ∷ member Issue.queue_size_exceeds_capacity
    ∷ member Issue.queue_high_water_exceeds_capacity
    ∷ member Issue.queue_size_exceeds_high_water
    ∷ member Issue.created_exceeds_configured
    ∷ member Issue.ready_exceeds_created
    ∷ member Issue.active_exceeds_created
    ∷ member Issue.joined_exceeds_created
    ∷ member Issue.active_joined_exceed_created
    ∷ member Issue.running_exceeds_active
    ∷ member Issue.callback_outcomes_exceed_starts
    ∷ member Issue.accepted_exceeds_submitted
    ∷ member Issue.rejected_exceeds_submitted
    ∷ member Issue.dequeued_exceeds_accepted
    ∷ member Issue.callback_starts_exceed_dequeued
    ∷ member Issue.lifecycle_flags_invalid
    ∷ member Issue.quiescent_mode_not_applicable
    ∷ member Issue.submission_balance_mismatch
    ∷ member Issue.accepted_dequeued_mismatch
    ∷ member Issue.dequeued_callback_mismatch
    ∷ member Issue.callback_balance_mismatch
    ∷ member Issue.quiescent_queue_not_empty
    ∷ member Issue.quiescent_callback_running
    ∷ member Issue.quiescent_worker_active
    ∷ member Issue.stopped_workers_not_joined
    ∷ member Issue.startup_failures_exceed_configured
    ∷ []

abbrev pub known {ℓ} : {A : Type ℓ} → Value A → Option (Value A)
known (unknown n) = none
known (member a) = some (member a)

-- Values that name no member have no name of their own.
abbrev pub known_task_state : TaskState → Option TaskState
known_task_state (TaskState.unknown n) = none
known_task_state s = some s

-- Values that name no member have no name of their own.
abbrev pub known_task_priority : TaskPriority → Option TaskPriority
known_task_priority (TaskPriority.unknown n) = none
known_task_priority s = some s

-- Values that name no member have no name of their own.
abbrev pub known_scheduler_fault_point : FaultPoint → Option FaultPoint
known_scheduler_fault_point (FaultPoint.unknown n) = none
known_scheduler_fault_point s = some s
