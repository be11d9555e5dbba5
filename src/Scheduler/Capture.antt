-- ===== src/Scheduler/Capture.antt =====
-- `scheduler_capture_snapshot` of src/scheduler.c.
pub mod Sound
mod Tests
use concurrent_task_scheduli.Base.{
  ℕ, Bool, true, false, not, ◌||◌, ◌&&◌, Option, none, some, List, if◌then◌else◌,
}
use concurrent_task_scheduli.Sync.{SchedSyncResult, has_failed}
use concurrent_task_scheduli.ConcurrentQueue
use concurrent_task_scheduli.ConcurrentQueue.{
  ConcurrentTaskQueue, RuntimeSnapshot, concurrent_task_queue_capture_runtime_snapshot,
}
use concurrent_task_scheduli.Snapshot
use concurrent_task_scheduli.Snapshot.{SnapshotState, SchedulerSnapshot}
use concurrent_task_scheduli.Scheduler.{
  SchedulerState, initialized, starting, running, shutting_down, stopped, failed, is_state,
  Lifecycle,
}
use concurrent_task_scheduli.Scheduler.Crew.{Crew, no_crew}
use concurrent_task_scheduli.Scheduler.Worker.{Phase, WorkerContext, Totals, none_yet, add_workers}

abbrev pub snapshot_state_from_internal : SchedulerState → SnapshotState
snapshot_state_from_internal initialized = SnapshotState.initialized
snapshot_state_from_internal starting = SnapshotState.starting
snapshot_state_from_internal running = SnapshotState.running
snapshot_state_from_internal shutting_down = SnapshotState.shutting_down
snapshot_state_from_internal stopped = SnapshotState.stopped
snapshot_state_from_internal failed = SnapshotState.failed

-- What the capture finds: each part as it is while the capture holds its mutex, so the three parts
-- may be of three moments. `slots` are those of the started workers, the last one first.
pub record Found : Type 0 where
  pub worker_count : ℕ
  pub lifecycle : Lifecycle
  pub worker_sync_initialized : Bool
  pub crew : Crew
  pub join_failure_count : ℕ
  pub released : Totals
  pub slots : List (Phase × WorkerContext)
  pub queue : Option ConcurrentTaskQueue

pub record CaptureAnswers : Type 0 where
  pub lifecycle_lock : SchedSyncResult
  pub lifecycle_unlock : SchedSyncResult
  pub worker_lock : SchedSyncResult
  pub worker_unlock : SchedSyncResult
  pub queue : ConcurrentQueue.Answers

-- The worker part, all zero where the worker mutex is not set up.
abbrev workers_found : Found → Crew × Totals × ℕ
workers_found f =
    let calm = f.lifecycle.lifecycle_accounting_overflow in
    if f.worker_sync_initialized
    then (
      f.crew,
      add_workers f.slots
          (record f.released { overflow_detected = calm || f.crew.worker_accounting_overflow }),
      f.join_failure_count,
    )
    else (no_crew, record none_yet { overflow_detected = calm }, 0)

abbrev pub snapshot_of : Found → RuntimeSnapshot → SchedulerSnapshot
snapshot_of f q =
    let (crew, sums, join_failures) = workers_found f in
    record {
      version = Snapshot.snapshot_version;
      consistency = Snapshot.domain_exact;
      overflow_detected = sums.overflow_detected;
      state = snapshot_state_from_internal f.lifecycle.state;
      submissions_open = is_state f.lifecycle.state running;
      shutdown_started =
          is_state f.lifecycle.state shutting_down || is_state f.lifecycle.state stopped;
      configured_worker_count = f.worker_count;
      submitted_count = f.lifecycle.submitted_count;
      accepted_count = f.lifecycle.accepted_count;
      rejected_count = f.lifecycle.rejected_count;
      created_worker_count = crew.created_worker_count;
      ready_worker_count = crew.ready_worker_count;
      active_worker_count = crew.active_worker_count;
      joined_worker_count = crew.joined_worker_count;
      dequeued_count = sums.dequeued_count;
      callback_started_count = sums.callback_started_count;
      callback_succeeded_count = sums.callback_succeeded_count;
      callback_failed_count = sums.callback_failed_count;
      currently_running_count = sums.currently_running_count;
      queue_capacity = q.capacity;
      queue_current_size = q.current_size;
      queue_high_water_mark = q.high_water_mark;
      worker_startup_failure_count = crew.worker_startup_failure_count;
      worker_runtime_failure_count = crew.worker_runtime_failure_count;
      join_failure_count = join_failures;
    }

-- What is written through the argument `snapshot`, if the call succeeds; `out` says whether the
-- argument is not NULL. A scheduler whose pointer `implementation` is NULL is `none`.
unfoldable pub scheduler_capture_snapshot :
    CaptureAnswers → Option (Option Found) → Bool → Option SchedulerSnapshot
unfolding concurrent_task_queue_capture_runtime_snapshot
scheduler_capture_snapshot a (some (some f)) out =
    if not out
      || has_failed a.lifecycle_lock
      || has_failed a.lifecycle_unlock
      || (f.worker_sync_initialized && (has_failed a.worker_lock || has_failed a.worker_unlock))
    then none
    else elim (concurrent_task_queue_capture_runtime_snapshot a.queue f.queue) [
      | none ↦ none
      | some q ↦ some (snapshot_of f q)
    ]
scheduler_capture_snapshot a scheduler out = none
