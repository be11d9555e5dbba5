-- ===== src/Fault/Tests.antt =====
-- Plans of src/scheduler_fault_injection.c at work.
use concurrent_task_scheduli.Base.{◌≡◌, refl, true, false, some, none, List, [], ◌∷◌, arith, inr}
use concurrent_task_scheduli.Fault.{
  FaultPoint, allocation, worker_join, worker_startup, FaultPlan, idle_plan,
  scheduler_fault_plan_configure, scheduler_fault_should_trigger, scheduler_fault_plan_capture,
}
use concurrent_task_scheduli.Fault.Trigger.{ask_all, fires_at, configured_plan_fires}

second_join : FaultPlan
second_join = record {
  point = worker_join;
  trigger_occurrence = 2;
  observed_occurrence = 0;
  enabled = true;
  triggered = false;
  occurrence_overflow = false;
}

abbrev questions : List FaultPoint
questions = worker_join ∷ allocation ∷ worker_join ∷ worker_join ∷ []

answers : ask_all (some second_join) questions ≡ false ∷ false ∷ true ∷ false ∷ []
unfolding second_join ask_all scheduler_fault_should_trigger
answers = refl

unsupported :
    scheduler_fault_plan_configure (some idle_plan) worker_startup 1 ≡ (false, some idle_plan)
unfolding scheduler_fault_plan_configure
unsupported = refl

capture_null : scheduler_fault_plan_capture (some idle_plan) false ≡ none
unfolding scheduler_fault_plan_capture
capture_null = refl

configured_plan_fires_example :
    (plan' : FaultPlan) × (scheduler_fault_plan_configure (some idle_plan) worker_join 2
      ≡ (true, some plan'))
    × ((ps : List FaultPoint) → ask_all (some plan') ps ≡ fires_at worker_join 2 ps)
configured_plan_fires_example =
    configured_plan_fires idle_plan worker_join 2 (inr (inr refl)) (omega arith) (omega arith)
