-- ===== src/Snapshot.antt =====
-- The snapshot of src/internal/scheduler_observability.h, and its two plain checks of src/scheduler.c,
-- `scheduler_snapshot_validate_basic` and `scheduler_snapshot_validate_quiescent`.
use concurrent_task_scheduli.Base.{
  ℕ, ◌+◌, Bool, false, not, ◌||◌, ◌&&◌, Option, none, some, ltb, ◌==◌, ◌/=◌, if◌then◌else◌,
  sub_word,
}

-- `SchedulerSnapshotState`, with the integers that name no state.
pub data SnapshotState : Type 0 where
  initialized starting running shutting_down stopped failed : SnapshotState
  unknown : ℕ → SnapshotState

abbrev pub state_code : SnapshotState → ℕ
state_code initialized = 0
state_code starting = 1
state_code running = 2
state_code shutting_down = 3
state_code stopped = 4
state_code failed = 5
state_code (unknown n) = n + 6

abbrev pub is_state : SnapshotState → SnapshotState → Bool
is_state a b = state_code a == state_code b

-- `SchedulerSnapshot`. `consistency` is the integer behind the enum.
pub record SchedulerSnapshot : Type 0 where
  pub version : ℕ
  pub consistency : ℕ
  pub overflow_detected : Bool
  pub state : SnapshotState
  pub submissions_open : Bool
  pub shutdown_started : Bool
  pub configured_worker_count : ℕ
  pub submitted_count : ℕ
  pub accepted_count : ℕ
  pub rejected_count : ℕ
  pub created_worker_count : ℕ
  pub ready_worker_count : ℕ
  pub active_worker_count : ℕ
  pub joined_worker_count : ℕ
  pub dequeued_count : ℕ
  pub callback_started_count : ℕ
  pub callback_succeeded_count : ℕ
  pub callback_failed_count : ℕ
  pub currently_running_count : ℕ
  pub queue_capacity : ℕ
  pub queue_current_size : ℕ
  pub queue_high_water_mark : ℕ
  pub worker_startup_failure_count : ℕ
  pub worker_runtime_failure_count : ℕ
  pub join_failure_count : ℕ

-- CONCURRENT_SCHEDULER_SNAPSHOT_VERSION and SCHEDULER_SNAPSHOT_CONSISTENCY_DOMAIN_EXACT
abbrev pub snapshot_version : ℕ
snapshot_version = 1

abbrev pub domain_exact : ℕ
domain_exact = 1

unfoldable pub scheduler_snapshot_validate_basic : Option SchedulerSnapshot → Bool
scheduler_snapshot_validate_basic none = false
scheduler_snapshot_validate_basic (some s) = not (
    s.version /= snapshot_version
    || s.consistency /= domain_exact
    || ltb s.queue_capacity s.queue_current_size
    || ltb s.queue_capacity s.queue_high_water_mark
    || ltb s.queue_high_water_mark s.queue_current_size
    || ltb s.configured_worker_count s.created_worker_count
    || ltb s.created_worker_count s.ready_worker_count
    || ltb s.created_worker_count s.active_worker_count
    || ltb s.created_worker_count s.joined_worker_count
    || ltb s.active_worker_count s.currently_running_count
    || ltb s.submitted_count s.accepted_count
    || ltb s.submitted_count s.rejected_count
    || ltb s.dequeued_count s.callback_started_count
    || ltb s.callback_started_count s.callback_succeeded_count
    || ltb (sub_word s.callback_started_count s.callback_succeeded_count) s.callback_failed_count)

unfoldable pub scheduler_snapshot_validate_quiescent : Option SchedulerSnapshot → Bool
unfolding scheduler_snapshot_validate_basic
scheduler_snapshot_validate_quiescent none = false
scheduler_snapshot_validate_quiescent (some s) =
    if not (scheduler_snapshot_validate_basic (some s))
      || sub_word s.submitted_count s.accepted_count /= s.rejected_count
      || s.accepted_count /= s.dequeued_count
      || s.dequeued_count /= s.callback_started_count
      || sub_word s.callback_started_count s.callback_succeeded_count /= s.callback_failed_count
      || s.currently_running_count /= 0
      || s.queue_current_size /= 0
      || s.active_worker_count /= 0
    then false
    else not (is_state s.state stopped && s.joined_worker_count /= s.created_worker_count)
