-- ===== src/Names/Distinct/Tests.antt =====
-- One name of each enum of src/ that has names.
use concurrent_task_scheduli.Base.{◌≡◌, some}
use concurrent_task_scheduli.Task.{TaskState, TaskPriority}
use concurrent_task_scheduli.TaskQueue.{TaskQueueResult}
use concurrent_task_scheduli.ConcurrentQueue.{ConcurrentTaskQueueResult}
use concurrent_task_scheduli.Scheduler.{SchedulerResult}
use concurrent_task_scheduli.Fault.{FaultPoint}
use concurrent_task_scheduli.Validation.{Issue}
use concurrent_task_scheduli.Validation.Health.{SchedulerHealth}
use concurrent_task_scheduli.Names.{
  member, task_state_name, task_priority_name, task_queue_result_name,
  concurrent_task_queue_result_name, scheduler_result_name, scheduler_health_name,
  scheduler_fault_point_name, scheduler_validation_issue_name,
}
use concurrent_task_scheduli.Names.Distinct.{names_read_back}
use concurrent_task_scheduli.Names.Values.{
  find_named, task_state_values, task_priority_values, task_queue_result_values,
  concurrent_task_queue_result_values, scheduler_result_values, scheduler_health_values,
  scheduler_fault_point_values, issue_values,
}

names_read_back_example :
    (find_named task_state_name task_state_values (task_state_name TaskState.queued)
      ≡ some TaskState.queued)
    × (find_named task_priority_name task_priority_values (task_priority_name TaskPriority.high)
        ≡ some TaskPriority.high)
    × (find_named task_queue_result_name task_queue_result_values
          (task_queue_result_name (member TaskQueueResult.error_full))
        ≡ some (member TaskQueueResult.error_full))
    × (find_named concurrent_task_queue_result_name concurrent_task_queue_result_values
          (concurrent_task_queue_result_name (member ConcurrentTaskQueueResult.error_shutdown))
        ≡ some (member ConcurrentTaskQueueResult.error_shutdown))
    × (find_named scheduler_result_name scheduler_result_values
          (scheduler_result_name (member SchedulerResult.error_system))
        ≡ some (member SchedulerResult.error_system))
    × (find_named scheduler_health_name scheduler_health_values
          (scheduler_health_name (member SchedulerHealth.degraded))
        ≡ some (member SchedulerHealth.degraded))
    × (find_named scheduler_fault_point_name scheduler_fault_point_values
          (scheduler_fault_point_name FaultPoint.worker_join)
        ≡ some FaultPoint.worker_join)
    × (find_named scheduler_validation_issue_name issue_values
          (scheduler_validation_issue_name (member Issue.lifecycle_flags_invalid))
        ≡ some (member Issue.lifecycle_flags_invalid))
names_read_back_example =
    names_read_back TaskState.queued TaskPriority.high (member TaskQueueResult.error_full)
      (member ConcurrentTaskQueueResult.error_shutdown) (member SchedulerResult.error_system)
      (member SchedulerHealth.degraded) FaultPoint.worker_join
      (member Issue.lifecycle_flags_invalid)
