-- ===== src/Fault.antt =====
-- src/scheduler_fault_injection.c: a plan that makes one call of the scheduler fail, at a given
-- occurrence. The plan's fields are atomic; one thread at a time asks it.
mod Trigger
mod Tests
use concurrent_task_scheduli.Base.{
  ℕ, ◌+◌, Bool, true, false, not, ◌||◌, Option, none, some, ◌==◌, if◌then◌else◌, word_max, add_word,
  through,
}

-- `SchedulerFaultPoint`, with the integers that name no point.
pub data FaultPoint : Type 0 where
  nowhere allocation worker_creation worker_startup worker_join : FaultPoint
  unknown : ℕ → FaultPoint

abbrev pub point_code : FaultPoint → ℕ
point_code nowhere = 0
point_code allocation = 1
point_code worker_creation = 2
point_code worker_startup = 3
point_code worker_join = 4
point_code (unknown n) = n + 5

abbrev pub is_point : FaultPoint → FaultPoint → Bool
is_point a b = point_code a == point_code b

-- `SchedulerFaultPlan`; `SchedulerFaultPlanSnapshot` has the same fields.
pub record FaultPlan : Type 0 where
  pub point : FaultPoint
  pub trigger_occurrence : ℕ
  pub observed_occurrence : ℕ
  pub enabled : Bool
  pub triggered : Bool
  pub occurrence_overflow : Bool

pub scheduler_fault_point_supported : FaultPoint → Bool
scheduler_fault_point_supported point =
    is_point point allocation || is_point point worker_creation || is_point point worker_join

abbrev pub idle_plan : FaultPlan
idle_plan = record {
  point = nowhere;
  trigger_occurrence = 0;
  observed_occurrence = 0;
  enabled = false;
  triggered = false;
  occurrence_overflow = false;
}

unfoldable pub scheduler_fault_plan_init : Option FaultPlan → Option FaultPlan
scheduler_fault_plan_init none = none
scheduler_fault_plan_init (some plan) = some idle_plan

-- `scheduler_fault_plan_configure` on a plan that is not NULL.
unfoldable pub configure : FaultPoint → ℕ → FaultPlan → Bool × FaultPlan
unfolding scheduler_fault_point_supported
configure point trigger_occurrence plan =
    if not (scheduler_fault_point_supported point) || trigger_occurrence == 0
    then (false, plan)
    else (
      true,
      record {
        point = point;
        trigger_occurrence = trigger_occurrence;
        observed_occurrence = 0;
        enabled = true;
        triggered = false;
        occurrence_overflow = false;
      },
    )

unfoldable pub scheduler_fault_plan_configure :
    Option FaultPlan → FaultPoint → ℕ → Bool × Option FaultPlan
unfolding configure
scheduler_fault_plan_configure plan point trigger_occurrence =
    through plan false (configure point trigger_occurrence)

unfoldable pub scheduler_fault_plan_reset : Option FaultPlan → Option FaultPlan
scheduler_fault_plan_reset none = none
scheduler_fault_plan_reset (some plan) = some idle_plan

-- `scheduler_fault_should_trigger` on a plan that is not NULL.
unfoldable pub should_trigger : FaultPoint → FaultPlan → Bool × FaultPlan
should_trigger point plan =
    let observed = add_word plan.observed_occurrence 1 in
    if not plan.enabled || not (is_point plan.point point) || plan.triggered
    then (false, plan)
    else if plan.observed_occurrence == word_max
    then (false, record plan { occurrence_overflow = true })
    else if observed == plan.trigger_occurrence
    then (true, record plan { observed_occurrence = observed; triggered = true })
    else (false, record plan { observed_occurrence = observed })

unfoldable pub scheduler_fault_should_trigger :
    Option FaultPlan → FaultPoint → Bool × Option FaultPlan
unfolding should_trigger
scheduler_fault_should_trigger plan point = through plan false (should_trigger point)

-- The snapshot that is written, if the call succeeds; `out` says whether the argument `snapshot` is not
-- NULL.
unfoldable pub scheduler_fault_plan_capture : Option FaultPlan → Bool → Option FaultPlan
scheduler_fault_plan_capture none out = none
scheduler_fault_plan_capture (some plan) out = if out then some plan else none
