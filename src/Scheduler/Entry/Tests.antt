-- ===== src/Scheduler/Entry/Tests.antt =====
-- Workers of src/scheduler.c: one serves two tasks and ends, one finds that the queue's lock fails.
use concurrent_task_scheduli.Base.{
  ℕ, ◌+◌, ◌≡◌, ◌≢◌, ◌⊎◌, refl, Bool, true, false, none, some, [], ◌∷◌, map, length, arith, add_word,
  ◌==◌,
}
use concurrent_task_scheduli.Sync
use concurrent_task_scheduli.Sync.{has_failed}
use concurrent_task_scheduli.TaskQueue.Inv.{blank, blank-Holds, longer, longer-Holds, shorter}
use concurrent_task_scheduli.ConcurrentQueue.{Shared, live, fresh, shutdown, all_ok, error_shutdown}
use concurrent_task_scheduli.ConcurrentQueue.{concurrent_task_queue_shutdown}
use concurrent_task_scheduli.TaskQueue.{is_empty, is_full, dequeue}
use concurrent_task_scheduli.Scheduler.{increment_saturating}
use concurrent_task_scheduli.Scheduler.Worker.{cleared, advance, increment_single_writer_atomic}
use concurrent_task_scheduli.ConcurrentQueue.Take.{
  take_loop, attempt_take, concurrent_task_queue_dequeue,
}
use concurrent_task_scheduli.Scheduler.Crew.{
  no_crew, result_ok, result_queue, note_ready, record_worker_exit, note_exit, note_failure,
}
use concurrent_task_scheduli.Scheduler.Engine.{Engine, shut_queue_down}
use concurrent_task_scheduli.Scheduler.Join.{set_up}
use concurrent_task_scheduli.Scheduler.Entry.{
  run_worker, work_loop, fetch, take_answer, finish_round, serve, react, count_call, exit_with,
  Context, Round, scheduler_worker_entry,
}
use concurrent_task_scheduli.Scheduler.Entry.Served.{new_context, scheduler_worker_entry-counts}
use concurrent_task_scheduli.Scheduler.Entry.Drains.{
  quiet, alone, IsClosing, scheduler_worker_entry-drains,
}
use concurrent_task_scheduli.Scheduler.Entry.Ends.{failures_shown, last_answer}

-- Tasks 3 and 5 are left in the queue.
abbrev closing : Shared
closing = record (fresh (longer (longer (blank 2) 3) 5)) { shutdown_requested = true }

abbrev engine : Engine
engine = set_up (live closing) 1

engine-IsClosing : IsClosing engine (3 ∷ 5 ∷ [])
engine-IsClosing = record {
  shared = closing;
  queue = refl;
  holds =
      longer-Holds (longer-Holds (blank-Holds 2 (omega arith) (omega arith)) 3 (omega arith)) 5
        (omega arith);
  closed = refl;
}

abbrev fails_on_5 : ℕ → Bool
fails_on_5 task = task == 3

scheduler_worker_entry-drains_example :
    (f : Engine) × (y : Context) × (scheduler_worker_entry true alone
        (map (quiet fails_on_5) ([] ∷ [] ∷ [] ∷ []))
        (some (new_context engine 0))
      ≡ (some result_ok, some y))
    × (y.scheduler ≡ some f)
    × (y.executed ≡ 3 ∷ 5 ∷ [])
    × IsClosing f []
    × (f.crew.active_worker_count ≡ engine.crew.active_worker_count)
    × (f.crew.ready_worker_count ≡ add_word engine.crew.ready_worker_count 1)
scheduler_worker_entry-drains_example =
    scheduler_worker_entry-drains true fails_on_5 ([] ∷ [] ∷ [] ∷ []) (3 ∷ 5 ∷ []) engine 0
      engine-IsClosing (omega arith) (omega arith) (omega arith)

-- One round: task 3 is executed, and the worker is still in its loop.
abbrev after_one : Context
after_one = record {
  scheduler = some (record engine {
    queue = live (record closing { queue = shorter closing.queue });
    crew = record no_crew { ready_worker_count = 1; active_worker_count = 1 };
  });
  worker_index = 0;
  slot = record cleared {
    dequeued_count = 1;
    callback_started_count = 1;
    callback_succeeded_count = 1;
  };
  executed = 3 ∷ [];
}

one_served :
    scheduler_worker_entry true alone (quiet fails_on_5 [] ∷ []) (some (new_context engine 0))
    ≡ (none, some after_one)
unfolding scheduler_worker_entry run_worker work_loop fetch take_answer finish_round serve react
    note_ready count_call advance increment_single_writer_atomic concurrent_task_queue_dequeue
    take_loop attempt_take is_empty is_full dequeue
one_served = refl

scheduler_worker_entry-counts_example :
    (after_one.slot.currently_running_count ≡ 0)
    × (after_one.slot.accounting_overflow ≡ false
        → (after_one.slot.dequeued_count ≡ length after_one.executed)
          × (after_one.slot.callback_started_count ≡ length after_one.executed)
          × (after_one.slot.callback_succeeded_count + after_one.slot.callback_failed_count
              ≡ length after_one.executed))
scheduler_worker_entry-counts_example =
    scheduler_worker_entry-counts true alone (quiet fails_on_5 [] ∷ []) engine 0 one_served

-- The lock of the queue fails in the first round.
abbrev unlucky : Round
unlucky = record (quiet fails_on_5 []) { queue = record all_ok { lock = Sync.error_system } }

abbrev given_up : Context
given_up = record (new_context engine 0) {
  scheduler = some (record engine {
    crew = record no_crew {
      ready_worker_count = 1;
      worker_runtime_failure_count = 1;
      worker_infrastructure_failure = true;
    };
  });
}

gives_up :
    scheduler_worker_entry true alone (unlucky ∷ []) (some (new_context engine 0))
    ≡ (some result_queue, some given_up)
unfolding scheduler_worker_entry run_worker work_loop fetch take_answer finish_round react exit_with
    note_ready record_worker_exit note_exit note_failure increment_saturating shut_queue_down
    concurrent_task_queue_dequeue concurrent_task_queue_shutdown shutdown
gives_up = refl

failures_shown_example :
    (f : Engine) × (given_up.scheduler ≡ some f)
    × (result_queue ≢ result_ok
        → (has_failed Sync.ok ≡ true) ⊎ (f.crew.worker_infrastructure_failure ≡ true))
    × (result_queue ≡ result_ok
        → (has_failed Sync.ok ≡ false)
          × (has_failed Sync.ok ≡ false)
          × (last_answer true (unlucky ∷ []) (record engine { crew = note_ready engine.crew })
              ≡ some error_shutdown)
          × (has_failed Sync.ok ≡ false))
failures_shown_example =
    failures_shown true alone (unlucky ∷ []) engine (new_context engine 0) (omega arith) refl refl
      gives_up
