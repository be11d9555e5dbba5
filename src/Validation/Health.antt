-- ===== src/Validation/Health.antt =====
-- `scheduler_snapshot_derive_health` of src/scheduler_validation.c.
use concurrent_task_scheduli.Base.{
  ◌≡◌, ◌≢◌, ◌⊎◌, ◌↔◌, false, ◌||◌, Option, none, some, ◌/=◌, if◌then◌else◌, arith,
}
use concurrent_task_scheduli.Snapshot.{SchedulerSnapshot, SnapshotState, shutting_down, is_state}
use concurrent_task_scheduli.Validation.{ValidationResult}

pub data SchedulerHealth : Type 0 where
  healthy degraded stopping stopped failed : SchedulerHealth

-- The health that is written, if the call succeeds; the argument `health` is not NULL.
unfoldable pub scheduler_snapshot_derive_health :
    Option SchedulerSnapshot → Option ValidationResult → Option SchedulerHealth
scheduler_snapshot_derive_health none r = none
scheduler_snapshot_derive_health (some s) none = none
scheduler_snapshot_derive_health (some s) (some r) =
    if r.snapshot_version /= s.version
    then none
    else if is_state s.state SnapshotState.failed || r.violation_count /= 0
    then some SchedulerHealth.failed
    else if is_state s.state shutting_down
    then some stopping
    else if is_state s.state SnapshotState.stopped
    then some SchedulerHealth.stopped
    else if r.validation_incomplete
        || r.advisory_count /= 0
        || s.callback_failed_count /= 0
        || s.worker_startup_failure_count /= 0
        || s.worker_runtime_failure_count /= 0
        || s.join_failure_count /= 0
    then some degraded
    else some healthy

-- When a snapshot is taken for failed: its state is FAILED, or the validation found a violation.
abbrev pub IsBroken : SchedulerSnapshot → ValidationResult → Type 0
IsBroken s r = (s.state ≡ SnapshotState.failed) ⊎ (r.violation_count ≢ 0)

abbrev pub IsClean : SchedulerSnapshot → ValidationResult → Type 0
IsClean s r =
    (r.validation_incomplete ≡ false)
    × (r.advisory_count ≡ 0)
    × (s.callback_failed_count ≡ 0)
    × (s.worker_startup_failure_count ≡ 0)
    × (s.worker_runtime_failure_count ≡ 0)
    × (s.join_failure_count ≡ 0)

-- With the result of the snapshot's own version, the health is FAILED exactly for a broken snapshot, and
-- HEALTHY exactly where the snapshot is not broken, the scheduler is neither shutting down nor stopped,
-- the validation is complete and without advisories, and no failure is counted.
pub derive_health_lem :
    (s : SchedulerSnapshot) (r : ValidationResult)
    → r.snapshot_version ≡ s.version
    → ((scheduler_snapshot_derive_health (some s) (some r) ≡ some SchedulerHealth.failed)
        ↔ IsBroken s r)
      × ((scheduler_snapshot_derive_health (some s) (some r) ≡ some healthy) ↔ (
          (¬ IsBroken s r)
          × (s.state ≢ shutting_down)
          × (s.state ≢ SnapshotState.stopped)
          × IsClean s r))
unfolding scheduler_snapshot_derive_health
derive_health_lem s r v =
    ((λ e. ground arith, λ b. ground arith), (λ e. ground arith, λ b. ground arith))
