-- ===== src/Scheduler/Tests.antt =====
-- Runs of src/scheduler.c on concrete schedulers.
use concurrent_task_scheduli.Base.{
  ℕ, ◌+◌, ◌≤◌, ◌≡◌, refl, inl, Bool, true, false, some, List, [], ◌∷◌, arith, map, not, ◌&&◌,
  if◌then◌else◌,
}
use concurrent_task_scheduli.Sync
use concurrent_task_scheduli.Sync.{has_failed}
use concurrent_task_scheduli.ConcurrentQueue.{live, bare, all_ok}
use concurrent_task_scheduli.ConcurrentQueue
use concurrent_task_scheduli.TaskQueue.{enqueue, is_empty}
use concurrent_task_scheduli.TaskQueue.Inv.{blank}
use concurrent_task_scheduli.ConcurrentQueue.Put.{concurrent_task_queue_try_enqueue, try_put}
use concurrent_task_scheduli.Scheduler.{
  ok, error_shutdown, error_system, running, is_state, shutting_down, stopped, Lifecycle,
  Implementation, increment_saturating,
}
use concurrent_task_scheduli.Scheduler.Submit.{
  enter, leave, settle, register, register_submitter, scheduler_try_submit, deregister_submitter,
}
use concurrent_task_scheduli.Scheduler.Shutdown.{start_gate, shutdown_gate, must_wait}
use concurrent_task_scheduli.Scheduler.Accounts.{
  OneMore, is_ok, alone, register_submitter_lem, scheduler_try_submit_lem,
}
use concurrent_task_scheduli.Scheduler.Calls.{
  Calls, enters, turns_away, leaves, starts, starts_end, shuts_down, Reach, here, next, begin,
}
use concurrent_task_scheduli.Scheduler.Calls.Inv.{is_closed}
use concurrent_task_scheduli.Scheduler.Calls.Promises.{submissions_counted, shutdown_drains}
use concurrent_task_scheduli.Scheduler.Crew
use concurrent_task_scheduli.Scheduler.Crew.{
  Threads, no_crew, nobody, creates, begins, ends_well, ends_badly, joins_well, result_queue,
  note_created, note_ready, note_exit, note_failure, note_joined,
}
use concurrent_task_scheduli.Scheduler.Crew.Counted.{workers_counted}
use concurrent_task_scheduli.Scheduler.Worker.{
  Totals, none_yet, after_stores, add_workers, add_worker, add_saturating, advance,
  increment_single_writer_atomic,
}
use concurrent_task_scheduli.Scheduler.Worker.Balance.{
  workers_add_up, count, to_start, to_end, in_call,
}

abbrev at_work : ℕ → ℕ → ℕ → Lifecycle
at_work active submitted accepted = record {
  state = running;
  active_submitter_count = active;
  submitted_count = submitted;
  accepted_count = accepted;
  rejected_count = 0;
  lifecycle_accounting_overflow = false;
}

-- Two submissions; the first is accepted, the second is still in the queue when the shutdown begins.
abbrev closing : Calls
closing = record {
  lifecycle = record (at_work 1 2 1) { state = shutting_down };
  submitting = 1;
  begun = 0;
  joining = 0;
}

closing_reached : Reach 4 begin closing
unfolding enter leave settle start_gate shutdown_gate
closing_reached =
    next
      (next
        (next
          (next (next (next here (starts refl)) (starts_end running refl (inl refl)))
            (enters (omega arith) refl))
          (enters (omega arith) refl))
        (leaves ok refl refl))
      shuts_down

-- A third is turned away, and the second is refused by the queue.
abbrev closed : Calls
closed = record {
  lifecycle = record (at_work 0 3 1) { state = shutting_down; rejected_count = 2 };
  submitting = 0;
  begun = 0;
  joining = 0;
}

closed_reached : Reach 4 closing closed
unfolding enter leave settle
closed_reached =
    next (next here (turns_away {r = error_shutdown} refl (λ e. ground (arith, e))))
      (leaves error_shutdown refl refl)

submissions_counted_example :
    (closing.lifecycle.active_submitter_count ≡ closing.submitting)
    × (closing.lifecycle.lifecycle_accounting_overflow ≡ false
        → closing.lifecycle.submitted_count
          ≡ closing.lifecycle.accepted_count + closing.lifecycle.rejected_count
            + closing.submitting)
    × (closing.lifecycle.state ≡ stopped → closing.submitting ≡ 0)
submissions_counted_example = submissions_counted (omega arith) closing_reached

shutdown_drains_example :
    (is_closed closed.lifecycle.state ≡ true)
    × (closed.lifecycle.accepted_count + closed.submitting
        ≤ closing.lifecycle.accepted_count + closing.submitting)
    × (must_wait closing.lifecycle ≡ false
        → (closed.submitting ≡ 0)
          × (closed.lifecycle.accepted_count ≡ closing.lifecycle.accepted_count))
shutdown_drains_example = shutdown_drains (omega arith) closing_reached refl closed_reached

abbrev at_hand : Implementation
at_hand = record { queue = live (ConcurrentQueue.fresh (blank 1)); lifecycle = at_work 0 2 2 }

-- The unlock fails, and the submitter stays registered.
abbrev stuck : Implementation
stuck = record at_hand { lifecycle = at_work 1 3 2 }

stuck_registered :
    register_submitter Sync.ok Sync.error_system (some (some at_hand)) (some 9)
    ≡ (error_system, some (some stuck))
unfolding register_submitter register enter
stuck_registered = refl

register_submitter_lem_example :
    (is_ok error_system ≡ (
      not (has_failed Sync.ok)
      && is_state at_hand.lifecycle.state running
      && not (has_failed Sync.error_system)))
    × (stuck.lifecycle.active_submitter_count
        ≡ at_hand.lifecycle.active_submitter_count
          + (if not (has_failed Sync.ok) && is_state at_hand.lifecycle.state running then 1 else 0))
    × (stuck.queue ≡ at_hand.queue)
register_submitter_lem_example =
    register_submitter_lem Sync.ok Sync.error_system at_hand 9 (omega arith) stuck_registered

-- The task goes in, although the last unlock fails.
abbrev served : Implementation
served = record {
  queue =
      live
        (record (ConcurrentQueue.fresh
          (record { items = some (some 9 ∷ []); capacity = 1; size = 1; head = 0; tail = 0 })) {
            high_water_mark = 1;
          });
  lifecycle = at_work 0 3 3;
}

served_submitted :
    scheduler_try_submit
      (alone all_ok Sync.ok Sync.error_system)
      true
      (some (some at_hand))
      (some 9)
    ≡ (error_system, some (some served))
unfolding scheduler_try_submit register_submitter register enter deregister_submitter leave settle
    concurrent_task_queue_try_enqueue try_put enqueue is_empty
served_submitted = refl

scheduler_try_submit_lem_example : OneMore at_hand.lifecycle served.lifecycle true
unfolding concurrent_task_queue_try_enqueue try_put enqueue is_empty
scheduler_try_submit_lem_example =
    scheduler_try_submit_lem all_ok Sync.ok Sync.error_system true at_hand 9 (ground arith) refl
      served_submitted

-- One worker has served a task and is in its second call; another has just taken a task out; a third
-- has seen its callback fail.
abbrev shifts : List (List Bool)
shifts =
    (true ∷ true ∷ true ∷ true ∷ true ∷ true ∷ true ∷ true ∷ [])
    ∷ (true ∷ [])
    ∷ (false ∷ false ∷ false ∷ false ∷ [])
    ∷ []

abbrev sums : Totals
sums = record {
  dequeued_count = 4;
  callback_started_count = 3;
  callback_succeeded_count = 1;
  callback_failed_count = 1;
  currently_running_count = 2;
  overflow_detected = false;
}

sums_captured : add_workers (map after_stores shifts) none_yet ≡ sums
unfolding add_workers add_worker add_saturating after_stores advance increment_single_writer_atomic
sums_captured = refl

workers_add_up_example :
    (sums.dequeued_count ≡ sums.callback_started_count + count to_start (map after_stores shifts))
    × (sums.callback_started_count
        ≡ sums.callback_succeeded_count
          + sums.callback_failed_count
          + count to_end (map after_stores shifts))
    × (sums.currently_running_count ≡ count in_call (map after_stores shifts))
workers_add_up_example = workers_add_up shifts sums_captured refl

-- Of two workers, one has ended well and is joined, the other has failed.
abbrev halved : Threads
halved = record {
  crew = record no_crew {
    started_worker_count = 2;
    created_worker_count = 2;
    ready_worker_count = 2;
    joined_worker_count = 1;
    worker_runtime_failure_count = 1;
    worker_infrastructure_failure = true;
  };
  created = 0;
  serving = 0;
  ended_well = 0;
  ended_badly = 1;
  joined_well = 1;
  joined_badly = 0;
}

halved_reached : Crew.Reach 2 nobody halved
unfolding note_created note_ready note_exit note_failure note_joined increment_saturating
halved_reached =
    Crew.next
      (Crew.next
        (Crew.next
          (Crew.next
            (Crew.next (Crew.next (Crew.next Crew.here (creates (omega arith))) (begins refl))
              (creates (omega arith)))
            (ends_well refl))
          (begins refl))
        (ends_badly result_queue refl refl))
      (joins_well refl)

workers_counted_example :
    (halved.crew.active_worker_count ≡ halved.serving)
    × (halved.crew.joined_worker_count ≡ halved.joined_well)
    × (halved.crew.created_worker_count ≤ 2)
    × (halved.crew.ready_worker_count ≤ halved.crew.created_worker_count)
    × (halved.crew.active_worker_count + halved.crew.joined_worker_count
        ≤ halved.crew.created_worker_count)
    × (halved.crew.worker_accounting_overflow ≡ false
        → halved.crew.worker_runtime_failure_count ≡ halved.ended_badly + halved.joined_badly)
    × (halved.crew.worker_infrastructure_failure ≡ false
        → halved.ended_badly + halved.joined_badly ≡ 0)
workers_counted_example = workers_counted (omega arith) halved_reached
