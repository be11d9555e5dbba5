-- ===== src/Scheduler/Faults/Tests.antt =====
-- Faults of a scheduler of src/scheduler.c with two workers.
use concurrent_task_scheduli.Base.{suc, ◌≡◌, refl, true, false, none, some, arith}
use concurrent_task_scheduli.Sync
use concurrent_task_scheduli.Fault.{
  idle_plan, worker_creation, allocation, scheduler_fault_plan_configure,
  scheduler_fault_plan_reset,
}
use concurrent_task_scheduli.Scheduler.{error_system, running}
use concurrent_task_scheduli.Scheduler.Engine.{Engine}
use concurrent_task_scheduli.Scheduler.Start.{StartAnswers, scheduler_start}
use concurrent_task_scheduli.Scheduler.Start.Tests.{one_worker_only, new_engine, nothing_else}
use concurrent_task_scheduli.Scheduler.Faults.{
  scheduler_fault_configure, scheduler_fault_reset, scheduler_fault_capture_plan,
}
use concurrent_task_scheduli.Scheduler.Faults.Creation.{injected_creation_fails}

abbrev all_well : StartAnswers
all_well = record one_worker_only {
  spawn =
      λ i. record { lock = Sync.ok; create = Sync.ok; unlock = Sync.ok; meanwhile = nothing_else };
}

injected_creation_fails_example :
    (e' : Engine) × (f : Engine) × (scheduler_fault_configure Sync.ok Sync.ok
        (some (some new_engine))
        worker_creation
        2
      ≡ (true, some (some e')))
    × (scheduler_start true all_well (some (some e')) ≡ (some error_system, some (some f)))
    × (suc f.crew.created_worker_count ≡ 2)
injected_creation_fails_example =
    injected_creation_fails all_well new_engine 2
      (record { state = refl; threads = refl; contexts = refl; created = refl; started = refl })
      (record {
        lock = refl;
        unlock = refl;
        threads = refl;
        contexts = refl;
        mutex = refl;
        condition = refl;
        sync_lock = refl;
        sync_unlock = refl;
        few = omega arith;
      })
      (record { locks = λ i. refl; creates = λ i. refl; unlocks = λ i. refl }) (omega arith)
      (omega arith)

-- A scheduler that runs keeps its plan, whatever is asked for, until the plan is reset.
abbrev up : Engine
up = record new_engine {
  lifecycle = record new_engine.lifecycle { state = running };
  fault_plan = record idle_plan { point = allocation; trigger_occurrence = 1; enabled = true };
}

configure_running :
    scheduler_fault_configure Sync.ok Sync.ok (some (some up)) worker_creation 1
    ≡ (false, some (some up))
unfolding scheduler_fault_configure scheduler_fault_plan_configure
configure_running = refl

reset_running :
    scheduler_fault_reset Sync.ok Sync.ok (some (some up))
    ≡ (true, some (some (record up { fault_plan = idle_plan })))
unfolding scheduler_fault_reset scheduler_fault_plan_reset
reset_running = refl

capture_unready : scheduler_fault_capture_plan (some none) true ≡ none
unfolding scheduler_fault_capture_plan
capture_unready = refl
