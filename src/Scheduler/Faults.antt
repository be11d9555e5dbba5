-- ===== src/Scheduler/Faults.antt =====
-- The calls of src/scheduler.c that give a scheduler its fault plan, in a build that injects faults.
pub mod Creation
mod Tests
use concurrent_task_scheduli.Base.{
  ℕ, Bool, true, false, Option, none, some, ◌&&◌, if◌then◌else◌, not,
}
use concurrent_task_scheduli.Sync.{SchedSyncResult, has_failed}
use concurrent_task_scheduli.Fault.{
  FaultPoint, FaultPlan, configure, scheduler_fault_plan_configure, scheduler_fault_plan_reset,
  scheduler_fault_plan_capture,
}
use concurrent_task_scheduli.Scheduler.{initialized, is_state}
use concurrent_task_scheduli.Scheduler.Engine.{Engine}

-- The plan is a field of the scheduler, so its pointer is not NULL.
abbrev with_plan : Engine → Option FaultPlan → Engine
with_plan e none = e
with_plan e (some plan) = record e { fault_plan = plan }

-- A scheduler whose pointer `implementation` is NULL is `none`.
unfoldable pub scheduler_fault_configure :
    SchedSyncResult
    → SchedSyncResult
    → Option (Option Engine)
    → FaultPoint
    → ℕ
    → Bool × Option (Option Engine)
unfolding scheduler_fault_plan_configure
scheduler_fault_configure lock unlock none point trigger_occurrence = (false, none)
scheduler_fault_configure lock unlock (some none) point trigger_occurrence = (false, some none)
scheduler_fault_configure lock unlock (some (some e)) point trigger_occurrence =
    let (configured, plan) =
      scheduler_fault_plan_configure (some e.fault_plan) point trigger_occurrence in
    if has_failed lock
    then (false, some (some e))
    else if is_state e.lifecycle.state initialized
    then (configured && not (has_failed unlock), some (some (with_plan e plan)))
    else (false, some (some e))

unfoldable pub scheduler_fault_reset :
    SchedSyncResult → SchedSyncResult → Option (Option Engine) → Bool × Option (Option Engine)
unfolding scheduler_fault_plan_reset
scheduler_fault_reset lock unlock none = (false, none)
scheduler_fault_reset lock unlock (some none) = (false, some none)
scheduler_fault_reset lock unlock (some (some e)) =
    if has_failed lock then (false, some (some e)) else (
      not (has_failed unlock),
      some (some (with_plan e (scheduler_fault_plan_reset (some e.fault_plan)))),
    )

-- The snapshot that is written, if the call succeeds; `out` says whether the argument `snapshot` is not
-- NULL.
unfoldable pub scheduler_fault_capture_plan : Option (Option Engine) → Bool → Option FaultPlan
unfolding scheduler_fault_plan_capture
scheduler_fault_capture_plan (some (some e)) out =
    scheduler_fault_plan_capture (some e.fault_plan) out
scheduler_fault_capture_plan scheduler out = none
