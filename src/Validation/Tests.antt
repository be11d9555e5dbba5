-- ===== src/Validation/Tests.antt =====
-- Snapshots of a scheduler under the checks of src/scheduler_validation.c and src/scheduler.c.
use concurrent_task_scheduli.Base.{◌≤◌, ◌≡◌, ◌≢◌, ◌↔◌, refl, true, false, some, arith, inr}
use mathlib.Core.Option
use concurrent_task_scheduli.Snapshot.{
  SchedulerSnapshot, SnapshotState, scheduler_snapshot_validate_quiescent,
}
use concurrent_task_scheduli.Validation.{
  quiescent, ValidationResult, all_checks, record_issue, empty_result, lifecycle_flags_valid,
  scheduler_snapshot_validate, validate_structural, validate_accounting_bounds, validate_quiescent,
  quiescent_mode_applicable,
}
use concurrent_task_scheduli.Validation.Report.{failures, Reports, validate-Reports}
use concurrent_task_scheduli.Validation.Agreement.{Fits}
use concurrent_task_scheduli.Validation.Plain.{quiescent_agrees}
use concurrent_task_scheduli.Validation.Health.{
  SchedulerHealth, healthy, scheduler_snapshot_derive_health, IsBroken, IsClean, derive_health_lem,
}

-- Two workers have run five of six submitted tasks, one of them without success, and are joined.
abbrev pub after_join : SchedulerSnapshot
after_join = record {
  version = 1;
  consistency = 1;
  overflow_detected = false;
  state = SnapshotState.stopped;
  submissions_open = false;
  shutdown_started = true;
  configured_worker_count = 2;
  submitted_count = 6;
  accepted_count = 5;
  rejected_count = 1;
  created_worker_count = 2;
  ready_worker_count = 0;
  active_worker_count = 0;
  joined_worker_count = 2;
  dequeued_count = 5;
  callback_started_count = 5;
  callback_succeeded_count = 4;
  callback_failed_count = 1;
  currently_running_count = 0;
  queue_capacity = 4;
  queue_current_size = 0;
  queue_high_water_mark = 3;
  worker_startup_failure_count = 0;
  worker_runtime_failure_count = 0;
  join_failure_count = 0;
}

-- A worker is missing.
abbrev lost_worker : SchedulerSnapshot
lost_worker = record after_join { joined_worker_count = 1 }

lost_worker_found :
    Option.map
      (λ r. r.violation_count)
      (scheduler_snapshot_validate (some lost_worker) quiescent true)
    ≡ some 1
unfolding scheduler_snapshot_validate validate_structural validate_accounting_bounds
    quiescent_mode_applicable validate_quiescent record_issue
lost_worker_found = refl

after_join-Fits : Fits after_join
after_join-Fits = omega arith

validate-Reports_example :
    (r : ValidationResult) × (scheduler_snapshot_validate (some lost_worker) quiescent true
      ≡ some r)
    × Reports (failures (all_checks quiescent lost_worker)) r
    × (r.snapshot_version ≡ 1)
validate-Reports_example = validate-Reports quiescent lost_worker (inr refl)

quiescent_agrees_example : ((empty_result quiescent 1).violation_count ≡ 0) ↔ (
    (scheduler_snapshot_validate_quiescent (some after_join) ≡ true)
    × (lifecycle_flags_valid after_join ≡ true)
    × (0 ≤ 2))
unfolding scheduler_snapshot_validate quiescent_mode_applicable validate_structural
    validate_accounting_bounds validate_quiescent
quiescent_agrees_example =
    quiescent_agrees after_join {r = empty_result quiescent 1} after_join-Fits refl refl refl

derive_health_lem_example :
    ((scheduler_snapshot_derive_health (some after_join) (some (empty_result quiescent 1))
        ≡ some SchedulerHealth.failed)
      ↔ IsBroken after_join (empty_result quiescent 1))
    × ((scheduler_snapshot_derive_health (some after_join) (some (empty_result quiescent 1))
          ≡ some healthy)
        ↔ ((¬ IsBroken after_join (empty_result quiescent 1))
            × (after_join.state ≢ SnapshotState.shutting_down)
            × (after_join.state ≢ SnapshotState.stopped)
            × IsClean after_join (empty_result quiescent 1)))
derive_health_lem_example = derive_health_lem after_join (empty_result quiescent 1) refl
