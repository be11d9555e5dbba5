-- ===== src/Scheduler/Capture/Tests.antt =====
-- A capture of src/scheduler.c while one worker is in a call.
use concurrent_task_scheduli.Base.{
  ◌≤◌, ◌≡◌, refl, inl, true, false, some, List, [], ◌∷◌, map, arith, Bool,
}
use concurrent_task_scheduli.TaskQueue.Inv.{blank, blank-Holds}
use concurrent_task_scheduli.ConcurrentQueue.System
use concurrent_task_scheduli.Snapshot.{SchedulerSnapshot, scheduler_snapshot_validate_basic}
use concurrent_task_scheduli.Scheduler.{running}
use concurrent_task_scheduli.Scheduler.Shutdown.{start_gate, put_state}
use concurrent_task_scheduli.Scheduler.Calls
use concurrent_task_scheduli.Scheduler.Calls.{Calls, starts, starts_end}
use concurrent_task_scheduli.Scheduler.Crew
use concurrent_task_scheduli.Scheduler.Crew.{
  Threads, nobody, no_crew, creates, begins, note_created, note_ready,
}
use concurrent_task_scheduli.Scheduler.Worker.{
  after_stores, advance, increment_single_writer_atomic,
}
use concurrent_task_scheduli.Scheduler.Worker.Balance.{count, in_call}
use concurrent_task_scheduli.Scheduler.Capture.{scheduler_capture_snapshot}
use concurrent_task_scheduli.Scheduler.Capture.Sound.{all_answer, found, capture_passes_basic}

abbrev opened : Calls
opened = record Calls.begin { lifecycle = put_state running Calls.begin.lifecycle }

opened_reached : Calls.Reach 4 Calls.begin opened
unfolding start_gate
opened_reached =
    Calls.next (Calls.next Calls.here (starts refl)) (starts_end running refl (inl refl))

abbrev one_serving : Threads
one_serving = record nobody {
  crew = record no_crew {
    started_worker_count = 1;
    created_worker_count = 1;
    ready_worker_count = 1;
    active_worker_count = 1;
  };
  serving = 1;
}

one_serving_reached : Crew.Reach 1 nobody one_serving
unfolding note_created note_ready
one_serving_reached = Crew.next (Crew.next Crew.here (creates (omega arith))) (begins refl)

abbrev in_second_call : List (List Bool)
in_second_call = (true ∷ true ∷ true ∷ true ∷ true ∷ true ∷ true ∷ true ∷ []) ∷ []

in_second_call-one : count in_call (map after_stores in_second_call) ≤ 1
unfolding count after_stores advance increment_single_writer_atomic
in_second_call-one = omega arith

capture_passes_basic_example :
    (s : SchedulerSnapshot) × (scheduler_capture_snapshot all_answer
        (some (some (found 1 opened one_serving 0 in_second_call (System.begin (blank 1) 3))))
        true
      ≡ some s)
    × (s.overflow_detected ≡ false → scheduler_snapshot_validate_basic (some s) ≡ true)
capture_passes_basic_example =
    capture_passes_basic {threads = 4} {n = 3} {tr = true} (omega arith) opened_reached
      (omega arith) one_serving_reached (blank-Holds 1 (omega arith) (omega arith)) (omega arith)
      System.here 0 in_second_call in_second_call-one
