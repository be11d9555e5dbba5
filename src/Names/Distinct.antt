-- ===== src/Names/Distinct.antt =====
-- The names of src/ tell the values of each enum apart.
mod Tests
use text.Mathlib.Text.{◌==◌}
use Prim.Native.String.{String}
use concurrent_task_scheduli.Base.{
  arith, ◌≤◌, ap, length, get_elem?, ℕ, ◌+◌, zero, suc, ◌≡◌, refl, Option, none, some, List, [],
  ◌∷◌, if◌then◌else◌,
}
use concurrent_task_scheduli.Task.{TaskState, TaskPriority}
use concurrent_task_scheduli.TaskQueue.{TaskQueueResult}
use concurrent_task_scheduli.ConcurrentQueue.{ConcurrentTaskQueueResult}
use concurrent_task_scheduli.Scheduler.{SchedulerResult}
use concurrent_task_scheduli.Fault.{FaultPoint}
use concurrent_task_scheduli.Validation.{Issue}
use concurrent_task_scheduli.Validation.Health.{SchedulerHealth}
use concurrent_task_scheduli.Names.{
  Value, member, unknown, names, issue_code, task_state_name, task_priority_name,
  task_queue_result_name, concurrent_task_queue_result_name, scheduler_result_name,
  scheduler_health_name, scheduler_fault_point_name, scheduler_validation_issue_name,
}
use concurrent_task_scheduli.Names.Values.{
  find_named, task_state_values, task_priority_values, task_queue_result_values,
  concurrent_task_queue_result_values, scheduler_result_values, scheduler_health_values,
  scheduler_fault_point_values, issue_values, known_task_state, known_task_priority,
  known_scheduler_fault_point, known,
}

task_state_read :
    (s : TaskState)
    → find_named task_state_name task_state_values (task_state_name s) ≡ known_task_state s
unfolding find_named task_state_name
task_state_read TaskState.created = refl
task_state_read TaskState.queued = refl
task_state_read TaskState.running = refl
task_state_read TaskState.completed = refl
task_state_read TaskState.failed = refl
task_state_read TaskState.cancelled = refl
task_state_read TaskState.rejected = refl
task_state_read (TaskState.unknown n) = refl

task_priority_read :
    (s : TaskPriority)
    → find_named task_priority_name task_priority_values (task_priority_name s)
      ≡ known_task_priority s
unfolding find_named task_priority_name
task_priority_read TaskPriority.low = refl
task_priority_read TaskPriority.normal = refl
task_priority_read TaskPriority.high = refl
task_priority_read (TaskPriority.unknown n) = refl

task_queue_result_read :
    (s : Value TaskQueueResult)
    → find_named task_queue_result_name task_queue_result_values (task_queue_result_name s)
      ≡ known s
unfolding find_named task_queue_result_name
task_queue_result_read (member TaskQueueResult.ok) = refl
task_queue_result_read (member TaskQueueResult.error_invalid_argument) = refl
task_queue_result_read (member TaskQueueResult.error_allocation) = refl
task_queue_result_read (member TaskQueueResult.error_full) = refl
task_queue_result_read (member TaskQueueResult.error_empty) = refl
task_queue_result_read (unknown n) = refl

concurrent_task_queue_result_read :
    (s : Value ConcurrentTaskQueueResult)
    → find_named concurrent_task_queue_result_name concurrent_task_queue_result_values
        (concurrent_task_queue_result_name s)
      ≡ known s
unfolding find_named concurrent_task_queue_result_name
concurrent_task_queue_result_read (member ConcurrentTaskQueueResult.ok) = refl
concurrent_task_queue_result_read (member ConcurrentTaskQueueResult.error_invalid_argument) = refl
concurrent_task_queue_result_read (member ConcurrentTaskQueueResult.error_allocation) = refl
concurrent_task_queue_result_read (member ConcurrentTaskQueueResult.error_system) = refl
concurrent_task_queue_result_read (member ConcurrentTaskQueueResult.error_full) = refl
concurrent_task_queue_result_read (member ConcurrentTaskQueueResult.error_empty) = refl
concurrent_task_queue_result_read (member ConcurrentTaskQueueResult.error_shutdown) = refl
concurrent_task_queue_result_read (unknown n) = refl

scheduler_result_read :
    (s : Value SchedulerResult)
    → find_named scheduler_result_name scheduler_result_values (scheduler_result_name s) ≡ known s
unfolding find_named scheduler_result_name
scheduler_result_read (member SchedulerResult.ok) = refl
scheduler_result_read (member SchedulerResult.error_invalid_argument) = refl
scheduler_result_read (member SchedulerResult.error_invalid_state) = refl
scheduler_result_read (member SchedulerResult.error_allocation) = refl
scheduler_result_read (member SchedulerResult.error_queue_full) = refl
scheduler_result_read (member SchedulerResult.error_shutdown) = refl
scheduler_result_read (member SchedulerResult.error_system) = refl
scheduler_result_read (unknown n) = refl

scheduler_health_read :
    (s : Value SchedulerHealth)
    → find_named scheduler_health_name scheduler_health_values (scheduler_health_name s) ≡ known s
unfolding find_named scheduler_health_name
scheduler_health_read (member SchedulerHealth.healthy) = refl
scheduler_health_read (member SchedulerHealth.degraded) = refl
scheduler_health_read (member SchedulerHealth.stopping) = refl
scheduler_health_read (member SchedulerHealth.stopped) = refl
scheduler_health_read (member SchedulerHealth.failed) = refl
scheduler_health_read (unknown n) = refl

scheduler_fault_point_read :
    (s : FaultPoint)
    → find_named scheduler_fault_point_name scheduler_fault_point_values
        (scheduler_fault_point_name s)
      ≡ known_scheduler_fault_point s
unfolding find_named scheduler_fault_point_name
scheduler_fault_point_read FaultPoint.nowhere = refl
scheduler_fault_point_read FaultPoint.allocation = refl
scheduler_fault_point_read FaultPoint.worker_creation = refl
scheduler_fault_point_read FaultPoint.worker_startup = refl
scheduler_fault_point_read FaultPoint.worker_join = refl
scheduler_fault_point_read (FaultPoint.unknown n) = refl

behind_the_end : {A : Type 0} (xs : List A) (n : ℕ) → length xs ≤ n → get_elem? xs n ≡ none
behind_the_end [] n h = refl
behind_the_end (x ∷ xs) zero h = absurd (omega (arith, h))
behind_the_end (x ∷ xs) (suc n) h = behind_the_end xs n (omega (arith, h))

issue_unknown : (n : ℕ) → scheduler_validation_issue_name (unknown (suc n)) ≡ "UNKNOWN"
unfolding scheduler_validation_issue_name
issue_unknown n =
    let p : get_elem? names (n + 29) ≡ none = behind_the_end names (n + 29) (omega arith) in
    ap (λ (o : Option String). elim o [ some name ↦ name | none ↦ "UNKNOWN" ]) p

issue_read :
    (s : Value Issue)
    → find_named scheduler_validation_issue_name issue_values (scheduler_validation_issue_name s)
      ≡ known s
unfolding find_named scheduler_validation_issue_name
issue_read (member Issue.snapshot_version_unsupported) = refl
issue_read (member Issue.consistency_unsupported) = refl
issue_read (member Issue.accounting_overflow) = refl
issue_read (member Issue.queue_size_exceeds_capacity) = refl
issue_read (member Issue.queue_high_water_exceeds_capacity) = refl
issue_read (member Issue.queue_size_exceeds_high_water) = refl
issue_read (member Issue.created_exceeds_configured) = refl
issue_read (member Issue.ready_exceeds_created) = refl
issue_read (member Issue.active_exceeds_created) = refl
issue_read (member Issue.joined_exceeds_created) = refl
issue_read (member Issue.active_joined_exceed_created) = refl
issue_read (member Issue.running_exceeds_active) = refl
issue_read (member Issue.callback_outcomes_exceed_starts) = refl
issue_read (member Issue.accepted_exceeds_submitted) = refl
issue_read (member Issue.rejected_exceeds_submitted) = refl
issue_read (member Issue.dequeued_exceeds_accepted) = refl
issue_read (member Issue.callback_starts_exceed_dequeued) = refl
issue_read (member Issue.lifecycle_flags_invalid) = refl
issue_read (member Issue.quiescent_mode_not_applicable) = refl
issue_read (member Issue.submission_balance_mismatch) = refl
issue_read (member Issue.accepted_dequeued_mismatch) = refl
issue_read (member Issue.dequeued_callback_mismatch) = refl
issue_read (member Issue.callback_balance_mismatch) = refl
issue_read (member Issue.quiescent_queue_not_empty) = refl
issue_read (member Issue.quiescent_callback_running) = refl
issue_read (member Issue.quiescent_worker_active) = refl
issue_read (member Issue.stopped_workers_not_joined) = refl
issue_read (member Issue.startup_failures_exceed_configured) = refl
issue_read (unknown zero) = refl
issue_read (unknown (suc n)) = rw (issue_unknown n) refl

-- A printed name can be read back, for each of the eight enums and any value of its type: among the members
-- of the enum, the name finds the member that it was printed for, and nothing where the value names no
-- member.
pub names_read_back :
    (s : TaskState) (p : TaskPriority) (q : Value TaskQueueResult)
    (c : Value ConcurrentTaskQueueResult) (r : Value SchedulerResult) (h : Value SchedulerHealth)
    (f : FaultPoint) (i : Value Issue)
    → (find_named task_state_name task_state_values (task_state_name s) ≡ known_task_state s)
      × (find_named task_priority_name task_priority_values (task_priority_name p)
          ≡ known_task_priority p)
      × (find_named task_queue_result_name task_queue_result_values (task_queue_result_name q)
          ≡ known q)
      × (find_named concurrent_task_queue_result_name concurrent_task_queue_result_values
            (concurrent_task_queue_result_name c)
          ≡ known c)
      × (find_named scheduler_result_name scheduler_result_values (scheduler_result_name r)
          ≡ known r)
      × (find_named scheduler_health_name scheduler_health_values (scheduler_health_name h)
          ≡ known h)
      × (find_named scheduler_fault_point_name scheduler_fault_point_values
            (scheduler_fault_point_name f)
          ≡ known_scheduler_fault_point f)
      × (find_named scheduler_validation_issue_name issue_values (scheduler_validation_issue_name i)
          ≡ known i)
names_read_back s p q c r h f i = (
  task_state_read s,
  task_priority_read p,
  task_queue_result_read q,
  concurrent_task_queue_result_read c,
  scheduler_result_read r,
  scheduler_health_read h,
  scheduler_fault_point_read f,
  issue_read i,
)
