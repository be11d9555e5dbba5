-- ===== src/Names.antt =====
-- The functions of src/ that give an enum's values their names. What is printed is one of these texts.
use Prim.Native.String.{String}
use concurrent_task_scheduli.Base.{
  ℕ, zero, suc, ◌+◌, Option, none, some, List, [], ◌∷◌, get_elem?, if◌then◌else◌,
}
use concurrent_task_scheduli.Task.{TaskState, TaskPriority}
use concurrent_task_scheduli.TaskQueue.{TaskQueueResult}
use concurrent_task_scheduli.ConcurrentQueue.{ConcurrentTaskQueueResult}
use concurrent_task_scheduli.Scheduler.{SchedulerResult}
use concurrent_task_scheduli.Fault.{FaultPoint}
use concurrent_task_scheduli.Validation.{Issue}
use concurrent_task_scheduli.Validation.Health.{SchedulerHealth}
pub mod Values
pub mod Distinct

-- A value of the type of an enum: a member, or a number that names none.
pub data Value {ℓ} (A : Type ℓ) : Type ℓ where
  member : A → Value A
  unknown : ℕ → Value A

unfoldable pub task_state_name : TaskState → String
task_state_name TaskState.created = "CREATED"
task_state_name TaskState.queued = "QUEUED"
task_state_name TaskState.running = "RUNNING"
task_state_name TaskState.completed = "COMPLETED"
task_state_name TaskState.failed = "FAILED"
task_state_name TaskState.cancelled = "CANCELLED"
task_state_name TaskState.rejected = "REJECTED"
task_state_name (TaskState.unknown n) = "UNKNOWN"

unfoldable pub task_priority_name : TaskPriority → String
task_priority_name TaskPriority.low = "LOW"
task_priority_name TaskPriority.normal = "NORMAL"
task_priority_name TaskPriority.high = "HIGH"
task_priority_name (TaskPriority.unknown n) = "UNKNOWN"

unfoldable pub task_queue_result_name : Value TaskQueueResult → String
task_queue_result_name (member TaskQueueResult.ok) = "OK"
task_queue_result_name (member TaskQueueResult.error_invalid_argument) = "INVALID_ARGUMENT"
task_queue_result_name (member TaskQueueResult.error_allocation) = "ALLOCATION_ERROR"
task_queue_result_name (member TaskQueueResult.error_full) = "FULL"
task_queue_result_name (member TaskQueueResult.error_empty) = "EMPTY"
task_queue_result_name (unknown n) = "UNKNOWN"

unfoldable pub concurrent_task_queue_result_name : Value ConcurrentTaskQueueResult → String
concurrent_task_queue_result_name (member ConcurrentTaskQueueResult.ok) = "OK"
concurrent_task_queue_result_name (member ConcurrentTaskQueueResult.error_invalid_argument) =
    "INVALID_ARGUMENT"
concurrent_task_queue_result_name (member ConcurrentTaskQueueResult.error_allocation) =
    "ALLOCATION_ERROR"
concurrent_task_queue_result_name (member ConcurrentTaskQueueResult.error_system) = "SYSTEM_ERROR"
concurrent_task_queue_result_name (member ConcurrentTaskQueueResult.error_full) = "FULL"
concurrent_task_queue_result_name (member ConcurrentTaskQueueResult.error_empty) = "EMPTY"
concurrent_task_queue_result_name (member ConcurrentTaskQueueResult.error_shutdown) = "SHUTDOWN"
concurrent_task_queue_result_name (unknown n) = "UNKNOWN"

unfoldable pub scheduler_result_name : Value SchedulerResult → String
scheduler_result_name (member SchedulerResult.ok) = "OK"
scheduler_result_name (member SchedulerResult.error_invalid_argument) = "INVALID_ARGUMENT"
scheduler_result_name (member SchedulerResult.error_invalid_state) = "INVALID_STATE"
scheduler_result_name (member SchedulerResult.error_allocation) = "ALLOCATION_ERROR"
scheduler_result_name (member SchedulerResult.error_queue_full) = "QUEUE_FULL"
scheduler_result_name (member SchedulerResult.error_shutdown) = "SHUTDOWN"
scheduler_result_name (member SchedulerResult.error_system) = "SYSTEM_ERROR"
scheduler_result_name (unknown n) = "UNKNOWN"

unfoldable pub scheduler_health_name : Value SchedulerHealth → String
scheduler_health_name (member SchedulerHealth.healthy) = "HEALTHY"
scheduler_health_name (member SchedulerHealth.degraded) = "DEGRADED"
scheduler_health_name (member SchedulerHealth.stopping) = "STOPPING"
scheduler_health_name (member SchedulerHealth.stopped) = "STOPPED"
scheduler_health_name (member SchedulerHealth.failed) = "FAILED"
scheduler_health_name (unknown n) = "UNKNOWN"

unfoldable pub scheduler_fault_point_name : FaultPoint → String
scheduler_fault_point_name FaultPoint.nowhere = "NONE"
scheduler_fault_point_name FaultPoint.allocation = "ALLOCATION"
scheduler_fault_point_name FaultPoint.worker_creation = "WORKER_CREATION"
scheduler_fault_point_name FaultPoint.worker_startup = "WORKER_STARTUP"
scheduler_fault_point_name FaultPoint.worker_join = "WORKER_JOIN"
scheduler_fault_point_name (FaultPoint.unknown n) = "UNKNOWN"

-- The integer behind an issue.
abbrev pub member_code : Issue → ℕ
member_code Issue.snapshot_version_unsupported = 1
member_code Issue.consistency_unsupported = 2
member_code Issue.accounting_overflow = 3
member_code Issue.queue_size_exceeds_capacity = 4
member_code Issue.queue_high_water_exceeds_capacity = 5
member_code Issue.queue_size_exceeds_high_water = 6
member_code Issue.created_exceeds_configured = 7
member_code Issue.ready_exceeds_created = 8
member_code Issue.active_exceeds_created = 9
member_code Issue.joined_exceeds_created = 10
member_code Issue.active_joined_exceed_created = 11
member_code Issue.running_exceeds_active = 12
member_code Issue.callback_outcomes_exceed_starts = 13
member_code Issue.accepted_exceeds_submitted = 14
member_code Issue.rejected_exceeds_submitted = 15
member_code Issue.dequeued_exceeds_accepted = 16
member_code Issue.callback_starts_exceed_dequeued = 17
member_code Issue.lifecycle_flags_invalid = 18
member_code Issue.quiescent_mode_not_applicable = 19
member_code Issue.submission_balance_mismatch = 20
member_code Issue.accepted_dequeued_mismatch = 21
member_code Issue.dequeued_callback_mismatch = 22
member_code Issue.callback_balance_mismatch = 23
member_code Issue.quiescent_queue_not_empty = 24
member_code Issue.quiescent_callback_running = 25
member_code Issue.quiescent_worker_active = 26
member_code Issue.stopped_workers_not_joined = 27
member_code Issue.startup_failures_exceed_configured = 28

-- The numbers that name no member are 0 and those behind the last member.
abbrev pub issue_code : Value Issue → ℕ
issue_code (member issue) = member_code issue
issue_code (unknown zero) = 0
issue_code (unknown (suc n)) = n + 29

-- The array of the same name.
abbrev pub names : List String
names =
    "UNKNOWN" ∷ "SNAPSHOT_VERSION_UNSUPPORTED" ∷ "CONSISTENCY_UNSUPPORTED" ∷ "ACCOUNTING_OVERFLOW"
    ∷ "QUEUE_SIZE_EXCEEDS_CAPACITY" ∷ "QUEUE_HIGH_WATER_EXCEEDS_CAPACITY"
    ∷ "QUEUE_SIZE_EXCEEDS_HIGH_WATER" ∷ "CREATED_EXCEEDS_CONFIGURED" ∷ "READY_EXCEEDS_CREATED"
    ∷ "ACTIVE_EXCEEDS_CREATED" ∷ "JOINED_EXCEEDS_CREATED" ∷ "ACTIVE_JOINED_EXCEED_CREATED"
    ∷ "RUNNING_EXCEEDS_ACTIVE" ∷ "CALLBACK_OUTCOMES_EXCEED_STARTS" ∷ "ACCEPTED_EXCEEDS_SUBMITTED"
    ∷ "REJECTED_EXCEEDS_SUBMITTED" ∷ "DEQUEUED_EXCEEDS_ACCEPTED" ∷ "CALLBACK_STARTS_EXCEED_DEQUEUED"
    ∷ "LIFECYCLE_FLAGS_INVALID" ∷ "QUIESCENT_MODE_NOT_APPLICABLE" ∷ "SUBMISSION_BALANCE_MISMATCH"
    ∷ "ACCEPTED_DEQUEUED_MISMATCH" ∷ "DEQUEUED_CALLBACK_MISMATCH" ∷ "CALLBACK_BALANCE_MISMATCH"
    ∷ "QUIESCENT_QUEUE_NOT_EMPTY" ∷ "QUIESCENT_CALLBACK_RUNNING" ∷ "QUIESCENT_WORKER_ACTIVE"
    ∷ "STOPPED_WORKERS_NOT_JOINED" ∷ "STARTUP_FAILURES_EXCEED_CONFIGURED" ∷ []

-- An index behind the end of the array gives its first entry.
unfoldable pub scheduler_validation_issue_name : Value Issue → String
scheduler_validation_issue_name issue = elim (get_elem? names (issue_code issue)) [
  | some name ↦ name
  | none ↦ "UNKNOWN"
]
