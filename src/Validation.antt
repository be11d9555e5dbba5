-- ===== src/Validation.antt =====
-- src/scheduler_validation.c: what is wrong with a snapshot, and the health that follows.
pub mod Report
pub mod Agreement
pub mod Conditions
pub mod Basic
pub mod Plain
pub mod Health
pub mod Format
mod Tests
use concurrent_task_scheduli.Base.{
  ℕ, ◌+◌, Bool, true, false, not, ◌||◌, ◌&&◌, Option, none, some, List, [], ◌∷◌, ◌++◌, ltb, ◌==◌,
  ◌/=◌, if◌then◌else◌, add_word, sub_word,
}
use concurrent_task_scheduli.Snapshot.{
  SchedulerSnapshot, SnapshotState, initialized, starting, running, shutting_down, stopped, failed,
  unknown, state_code, is_state, snapshot_version, domain_exact,
}

pub data ValidationMode : Type 0 where
  live quiescent : ValidationMode
  unknown_mode : ℕ → ValidationMode

pub data Severity : Type 0 where
  informational advisory violation incomplete : Severity

pub data Issue : Type 0 where
  snapshot_version_unsupported consistency_unsupported accounting_overflow : Issue
  queue_size_exceeds_capacity queue_high_water_exceeds_capacity : Issue
  queue_size_exceeds_high_water created_exceeds_configured ready_exceeds_created : Issue
  active_exceeds_created joined_exceeds_created active_joined_exceed_created : Issue
  running_exceeds_active callback_outcomes_exceed_starts accepted_exceeds_submitted : Issue
  rejected_exceeds_submitted dequeued_exceeds_accepted callback_starts_exceed_dequeued : Issue
  lifecycle_flags_invalid quiescent_mode_not_applicable submission_balance_mismatch : Issue
  accepted_dequeued_mismatch dequeued_callback_mismatch callback_balance_mismatch : Issue
  quiescent_queue_not_empty quiescent_callback_running quiescent_worker_active : Issue
  stopped_workers_not_joined startup_failures_exceed_configured : Issue

-- `SchedulerValidationIssueRecord`
pub record IssueRecord : Type 0 where
  pub issue : Issue
  pub severity : Severity
  pub observed : ℕ
  pub expected : ℕ

abbrev pub issue_capacity : ℕ
issue_capacity = 16

-- `SchedulerValidationResult`. Of the array `issues` the list is the part that has been written, the
-- first `issue_count` cells.
pub record ValidationResult : Type 0 where
  pub mode : ValidationMode
  pub snapshot_version : ℕ
  pub issue_count : ℕ
  pub violation_count : ℕ
  pub advisory_count : ℕ
  pub validation_incomplete : Bool
  pub issues_truncated : Bool
  pub issues : List IssueRecord

unfoldable pub tally : Severity → ValidationResult → ValidationResult
tally violation r = record r { violation_count = add_word r.violation_count 1 }
tally advisory r = record r { advisory_count = add_word r.advisory_count 1 }
tally incomplete r = record r { validation_incomplete = true }
tally informational r = r

unfoldable pub record_issue : IssueRecord → ValidationResult → ValidationResult
unfolding tally
record_issue i r = tally i.severity (
    if ltb r.issue_count issue_capacity
    then record r { issues = r.issues ++ i ∷ []; issue_count = add_word r.issue_count 1 }
    else record r { issues_truncated = true })

-- A conditional call of `record_issue`.
pub record Check : Type 0 where
  pub fails : Bool
  pub found : IssueRecord

abbrev pub check : Bool → Issue → Severity → ℕ → ℕ → Check
check fails issue severity observed expected = record {
  fails = fails;
  found = record { issue = issue; severity = severity; observed = observed; expected = expected };
}

-- CHECK_GREATER and CHECK_U64: `left > right` is wrong. `size_as_u64` is the identity at 64 bits.
abbrev check_greater : ℕ → ℕ → Issue → Check
check_greater left right issue = check (ltb right left) issue violation left right

-- CHECK_EQUAL: `left != right` is wrong.
abbrev check_equal : ℕ → ℕ → Issue → Check
check_equal left right issue = check (left /= right) issue violation left right

-- A sequence of such calls, in order.
unfoldable pub run_checks : List Check → ValidationResult → ValidationResult
run_checks [] r = r
run_checks (c ∷ cs) r = run_checks cs (if c.fails then record_issue c.found r else r)

unfoldable pub lifecycle_flags_valid : SchedulerSnapshot → Bool
lifecycle_flags_valid s = elim s.state [
  | initialized ↦ not s.submissions_open && not s.shutdown_started
  | starting ↦ not s.submissions_open && not s.shutdown_started
  | failed ↦ not s.submissions_open && not s.shutdown_started
  | running ↦ s.submissions_open && not s.shutdown_started
  | shutting_down ↦ not s.submissions_open && s.shutdown_started
  | stopped ↦ not s.submissions_open && s.shutdown_started
  | unknown n ↦ false
]

unfoldable pub quiescent_mode_applicable : SchedulerSnapshot → Bool
quiescent_mode_applicable s =
    is_state s.state initialized
    || is_state s.state stopped
    || (is_state s.state failed
        && not s.submissions_open
        && s.currently_running_count == 0
        && s.active_worker_count == 0
        && s.queue_current_size == 0)

-- The calls of `validate_structural`.
unfoldable pub validate_structural : SchedulerSnapshot → List Check
unfolding lifecycle_flags_valid
validate_structural s =
    check_greater s.queue_current_size s.queue_capacity queue_size_exceeds_capacity
    ∷ check_greater s.queue_high_water_mark s.queue_capacity queue_high_water_exceeds_capacity
    ∷ check_greater s.queue_current_size s.queue_high_water_mark queue_size_exceeds_high_water
    ∷ check_greater s.created_worker_count s.configured_worker_count created_exceeds_configured
    ∷ check_greater s.ready_worker_count s.created_worker_count ready_exceeds_created
    ∷ check_greater s.active_worker_count s.created_worker_count active_exceeds_created
    ∷ check_greater s.joined_worker_count s.created_worker_count joined_exceeds_created
    ∷ check
        (ltb
          (sub_word s.created_worker_count (
            if ltb s.created_worker_count s.joined_worker_count
            then s.created_worker_count
            else s.joined_worker_count))
          s.active_worker_count)
        active_joined_exceed_created violation
        (add_word s.active_worker_count s.joined_worker_count) s.created_worker_count
    ∷ check_greater s.currently_running_count s.active_worker_count running_exceeds_active
    ∷ check_greater s.worker_startup_failure_count s.configured_worker_count
        startup_failures_exceed_configured
    ∷ check (not (lifecycle_flags_valid s)) lifecycle_flags_invalid violation (state_code s.state) 0
    ∷ []

unfoldable pub add_exceeds : ℕ → ℕ → ℕ → Bool
add_exceeds left right limit = ltb limit left || ltb (sub_word limit left) right

-- The calls of `validate_accounting_bounds`.
unfoldable pub validate_accounting_bounds : SchedulerSnapshot → List Check
unfolding add_exceeds
validate_accounting_bounds s =
    check (add_exceeds s.callback_succeeded_count s.callback_failed_count s.callback_started_count)
      callback_outcomes_exceed_starts violation s.callback_succeeded_count s.callback_started_count
    ∷ check_greater s.accepted_count s.submitted_count accepted_exceeds_submitted
    ∷ check_greater s.rejected_count s.submitted_count rejected_exceeds_submitted
    ∷ check_greater s.dequeued_count s.accepted_count dequeued_exceeds_accepted
    ∷ check_greater s.callback_started_count s.dequeued_count callback_starts_exceed_dequeued
    ∷ []

-- The calls of `validate_quiescent`.
unfoldable pub validate_quiescent : SchedulerSnapshot → List Check
validate_quiescent s =
    check_equal s.submitted_count (add_word s.accepted_count s.rejected_count)
      submission_balance_mismatch
    ∷ check_equal s.accepted_count s.dequeued_count accepted_dequeued_mismatch
    ∷ check_equal s.dequeued_count s.callback_started_count dequeued_callback_mismatch
    ∷ check_equal s.callback_started_count
        (add_word s.callback_succeeded_count s.callback_failed_count) callback_balance_mismatch
    ∷ check_equal s.queue_current_size 0 quiescent_queue_not_empty
    ∷ check_equal s.currently_running_count 0 quiescent_callback_running
    ∷ check_equal s.active_worker_count 0 quiescent_worker_active
    ∷ check (is_state s.state stopped && s.joined_worker_count /= s.created_worker_count)
        stopped_workers_not_joined violation s.joined_worker_count s.created_worker_count
    ∷ []

-- The calls that `scheduler_snapshot_validate` makes itself before these.
abbrev pub validate_header : SchedulerSnapshot → List Check
validate_header s =
    check (s.version /= snapshot_version) snapshot_version_unsupported violation s.version
      snapshot_version
    ∷ check (s.consistency /= domain_exact) consistency_unsupported violation s.consistency
        domain_exact
    ∷ check s.overflow_detected accounting_overflow incomplete 1 0
    ∷ []

-- What `scheduler_snapshot_validate` does last, in its mode QUIESCENT.
abbrev pub not_applicable : SchedulerSnapshot → List Check
not_applicable s =
    check true quiescent_mode_not_applicable incomplete (state_code s.state) (state_code stopped)
    ∷ []

abbrev pub validate_mode : ValidationMode → SchedulerSnapshot → List Check
validate_mode quiescent s =
    if not (quiescent_mode_applicable s)
    then not_applicable s
    else if not s.overflow_detected
    then validate_quiescent s
    else []
validate_mode m s = []

unfoldable pub all_checks : ValidationMode → SchedulerSnapshot → List Check
all_checks mode s =
    validate_header s
    ++ (validate_structural s
        ++ ((if not s.overflow_detected then validate_accounting_bounds s else [])
            ++ validate_mode mode s))

abbrev pub empty_result : ValidationMode → ℕ → ValidationResult
empty_result mode version = record {
  mode = mode;
  snapshot_version = version;
  issue_count = 0;
  violation_count = 0;
  advisory_count = 0;
  validation_incomplete = false;
  issues_truncated = false;
  issues = [];
}

abbrev is_mode : ValidationMode → Bool
is_mode (unknown_mode n) = false
is_mode m = true

-- The result that is written, if the call succeeds; `out` says whether the argument `result` is not NULL.
unfoldable pub scheduler_snapshot_validate :
    Option SchedulerSnapshot → ValidationMode → Bool → Option ValidationResult
unfolding all_checks run_checks
scheduler_snapshot_validate none mode out = none
scheduler_snapshot_validate (some s) mode out =
    if not out || not (is_mode mode)
    then none
    else some (run_checks (all_checks mode s) (empty_result mode s.version))
