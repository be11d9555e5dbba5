-- ===== src/Scheduler/Whole/Tests.antt =====
-- One worker of src/scheduler.c serves one task, is told of the shutdown, ends and is joined.
use concurrent_task_scheduli.Base.{
  ℕ, ◌+◌, ◌<◌, if◌then◌else◌, get_elem?, ◌≡◌, refl, inl, true, false, some, [], ◌∷◌, arith,
}
use concurrent_task_scheduli.TaskQueue.{enqueue, dequeue, is_empty, is_full}
use concurrent_task_scheduli.TaskQueue.Inv.{blank, blank-Holds}
use concurrent_task_scheduli.ConcurrentQueue.{shutdown}
use concurrent_task_scheduli.ConcurrentQueue.Put.{try_put}
use concurrent_task_scheduli.ConcurrentQueue.Take.{attempt_take}
use concurrent_task_scheduli.ConcurrentQueue.System
use concurrent_task_scheduli.ConcurrentQueue.System.{Place, Consuming, unsent, unheard}
use concurrent_task_scheduli.Snapshot.{SchedulerSnapshot, scheduler_snapshot_validate_quiescent}
use concurrent_task_scheduli.Validation.{ValidationResult, quiescent, scheduler_snapshot_validate}
use concurrent_task_scheduli.Scheduler.{ok, running, shutting_down, increment_saturating}
use concurrent_task_scheduli.Scheduler.Submit.{enter, leave, settle}
use concurrent_task_scheduli.Scheduler.Shutdown.{start_gate, shutdown_gate, must_wait}
use concurrent_task_scheduli.Scheduler.Calls
use concurrent_task_scheduli.Scheduler.Crew.{
  no_crew, nobody, note_created, note_ready, note_exit, note_joined,
}
use concurrent_task_scheduli.Scheduler.Worker.{
  after_stores, advance, increment_single_writer_atomic,
}
use concurrent_task_scheduli.Scheduler.Capture.{scheduler_capture_snapshot}
use concurrent_task_scheduli.Scheduler.Capture.Sound.{all_answer}
use concurrent_task_scheduli.Scheduler.Whole.{
  slot, Stage, serving, told, ended, Worker, answer, new_worker, Whole, calls_move, puts, leaves,
  queue_moves, fetches, stores, creates, begins, exits, joins, Reach, here, next, begin,
}
use concurrent_task_scheduli.Scheduler.Whole.Settled.{settled, found_stopped}
use concurrent_task_scheduli.Scheduler.Whole.Quiet.{joined_is_quiescent, tasks_accounted}
use concurrent_task_scheduli.Scheduler.Whole.Team.{sum}
use concurrent_task_scheduli.Scheduler.Whole.Tasks.{has_left, fetched_by}

-- The scheduler runs, and one submission has put its task 7 in.
abbrev opened : Whole
opened = record (begin (blank 1) 2) {
  calls = record Calls.begin { lifecycle = record Calls.begin.lifecycle { state = running } };
  workers = record new_worker { stage = serving } ∷ [];
  crew = record nobody {
    crew = record no_crew {
      started_worker_count = 1;
      created_worker_count = 1;
      ready_worker_count = 1;
      active_worker_count = 1;
    };
    serving = 1;
  };
}

opened_reached : Reach 4 1 true (begin (blank 1) 2) opened
unfolding start_gate note_created note_ready
opened_reached =
    next
      (next
        (next (next here (calls_move (Calls.starts refl) (omega arith))) (creates (omega arith)))
        (begins 0 new_worker refl refl refl))
      (calls_move (Calls.starts_end running refl (inl refl)) (omega arith))

-- The task is accepted, and the worker has it.
abbrev fed : Whole
fed = record opened {
  calls = record opened.calls {
    lifecycle = record opened.calls.lifecycle { submitted_count = 1; accepted_count = 1 };
  };
  queue = record opened.queue {
    shared = record opened.queue.shared { high_water_mark = 1 };
    accepted = 7 ∷ [];
    taken = 7 ∷ [];
  };
  workers = record new_worker { stage = serving; holding = true; fetched = 1 } ∷ [];
}

fed_reached : Reach 4 1 true (begin (blank 1) 2) fed
unfolding enter leave settle increment_saturating attempt_take is_empty is_full try_put enqueue
    dequeue answer after_stores System.count
fed_reached =
    next
      (next
        (next (next opened_reached (calls_move (Calls.enters (omega arith) refl) (omega arith)))
          (puts 7 (System.put_tries 1 7 refl refl (unheard refl)) refl refl (omega arith)))
        (leaves ok refl refl refl (omega arith)))
      (fetches 0 (record new_worker { stage = serving }) refl
        (record { stage = refl; phase = refl; free = refl }) refl (Consuming.calls _) refl
        (unheard refl))

abbrev at_work : Stage → Worker
at_work stage = record {
  stage = stage;
  history = true ∷ true ∷ true ∷ true ∷ true ∷ [];
  holding = false;
  fetched = 1;
}

abbrev served : Whole
served = record fed { workers = at_work serving ∷ [] }

served_reached : Reach 4 1 true (begin (blank 1) 2) served
unfolding after_stores advance increment_single_writer_atomic
served_reached =
    next
      (next
        (next
          (next (next fed_reached (stores 0 _ true refl refl refl))
            (stores 0 _ true refl refl refl))
          (stores 0 _ true refl refl refl))
        (stores 0 _ true refl refl refl))
      (stores 0 _ true refl refl refl)

abbrev over : Whole
over = record served {
  calls = record served.calls {
    lifecycle = record served.calls.lifecycle { state = shutting_down };
  };
  queue = record served.queue { shared = record served.queue.shared { shutdown_requested = true } };
  workers = at_work ended ∷ [];
  crew = record nobody {
    crew = record no_crew {
      started_worker_count = 1;
      created_worker_count = 1;
      ready_worker_count = 1;
      joined_worker_count = 1;
    };
    joined_well = 1;
  };
}

over_reached : Reach 4 1 true (begin (blank 1) 2) over
unfolding after_stores advance increment_single_writer_atomic shutdown_gate shutdown attempt_take
    is_empty answer note_exit note_joined
over_reached =
    next
      (next
        (next
          (next (next served_reached (calls_move Calls.shuts_down (omega arith)))
            (queue_moves System.shuts_down refl refl))
          (fetches 0 (at_work serving) refl (record { stage = refl; phase = refl; free = refl })
            refl (Consuming.calls _) refl unsent))
        (exits 0 (at_work told) refl refl refl))
      (joins refl)

nobody_submits : must_wait over.calls.lifecycle ≡ false
unfolding must_wait
nobody_submits = refl

joined_is_quiescent_example :
    (s : SchedulerSnapshot) × (scheduler_capture_snapshot all_answer
        (some (some (found_stopped (settled 1 over))))
        true
      ≡ some s)
    × (s.overflow_detected ≡ false
        → (scheduler_snapshot_validate_quiescent (some s) ≡ true)
          × ((v : ValidationResult) × (scheduler_snapshot_validate (some s) quiescent true ≡ some v)
              × (v.violation_count ≡ 0)))
joined_is_quiescent_example =
    joined_is_quiescent {n = 2} (omega arith) (omega arith)
      (blank-Holds 1 (omega arith) (omega arith)) (omega arith) over_reached nobody_submits refl
      refl refl (omega arith)

-- The worker holds the task and has not counted it.
tasks_accounted_example :
    (fed.calls.lifecycle.lifecycle_accounting_overflow ≡ false
      → fed.calls.lifecycle.accepted_count + fed.answered
        ≡ sum fetched_by fed.workers + fed.queue.shared.queue.size)
    × ((i : ℕ) (w : Worker)
        → get_elem? fed.workers i ≡ some w
        → (slot w).accounting_overflow ≡ false
        → (slot w).dequeued_count + (if w.holding then 1 else 0) ≡ w.fetched)
    × (0 < sum has_left fed.workers
        → (fed.queue.shared.shutdown_requested ≡ true) × (fed.queue.shared.queue.size ≡ 0))
tasks_accounted_example =
    tasks_accounted {n = 2} (omega arith) (omega arith) (blank-Holds 1 (omega arith) (omega arith))
      (omega arith) fed_reached
