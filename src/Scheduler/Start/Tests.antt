-- ===== src/Scheduler/Start/Tests.antt =====
-- Starts of a scheduler of src/scheduler.c with two workers.
use concurrent_task_scheduli.Base.{
  ◌≢◌, ◌≡◌, refl, true, false, Option, none, some, List, [], ◌∷◌, arith, ◌==◌, if◌then◌else◌,
}
use concurrent_task_scheduli.Sync
use concurrent_task_scheduli.Sync.{SchedSyncResult}
use concurrent_task_scheduli.ConcurrentQueue
use concurrent_task_scheduli.ConcurrentQueue.{
  ConcurrentTaskQueue, bare, live, ShutdownAnswers, concurrent_task_queue_shutdown, shutdown,
}
use concurrent_task_scheduli.TaskQueue.Inv.{blank}
use concurrent_task_scheduli.Scheduler.{
  ok, error_system, failed, SchedulerResult, increment_saturating,
}
use concurrent_task_scheduli.Scheduler.Crew.{
  result_ok, no_crew, note_created, note_startup_failure, note_joined, note_released,
}
use concurrent_task_scheduli.Scheduler.Worker.{add_saturating}
use concurrent_task_scheduli.Scheduler.Engine.{
  Engine, Meanwhile, during, asks_fault, set_scheduler_state, shut_queue_down,
}
use concurrent_task_scheduli.Scheduler.Shutdown.{start_gate}
use concurrent_task_scheduli.Scheduler.Release.{
  ReleaseAnswers, release_workers, settle_workers, join_from, join_one, note_return, add_slots,
  add_slot,
}
use concurrent_task_scheduli.Scheduler.Start.{
  StartAnswers, scheduler_start, start_steps, pass_gate, allocate, set_up_sync, spawn_from,
  spawn_one, give_up, back_to,
}
use concurrent_task_scheduli.Scheduler.Start.Ending.{IsFresh}
use concurrent_task_scheduli.Scheduler.Start.Total.{
  StartEnd, scheduler_start_lem, failed_start_destructible,
}
use concurrent_task_scheduli.Scheduler.Join.{set_up, scheduler_destroy}
use concurrent_task_scheduli.Scheduler.Start.Returns.{
  Stir, gets_ready, exits, stirred, no_wait, in_wait, start_returns,
}

abbrev pub nothing_else : Meanwhile
nothing_else = record { queue = λ q. q; lifecycle = λ s. s; crew = λ c. c; slots = λ s. s }

abbrev pub joins_all : ReleaseAnswers
joins_all = record {
  joins = λ i. record {
    meanwhile = nothing_else;
    join = Sync.ok;
    returned = result_ok;
    lock = Sync.ok;
    unlock = Sync.ok;
  };
  lock = Sync.ok;
  unlock = Sync.ok;
}

-- The creation of the second worker fails.
abbrev pub one_worker_only : StartAnswers
one_worker_only = record {
  lock = Sync.ok;
  unlock = Sync.ok;
  meanwhile = nothing_else;
  threads_ok = true;
  contexts_ok = true;
  worker_mutex = Sync.ok;
  worker_condition = Sync.ok;
  sync_lock = Sync.ok;
  sync_unlock = Sync.ok;
  spawn = λ i. record {
    lock = Sync.ok;
    create = if i == 0 then Sync.ok else Sync.error_system;
    unlock = Sync.ok;
    meanwhile = nothing_else;
  };
  ready_lock = Sync.ok;
  pauses = [];
  ready_unlock = Sync.ok;
  run_lock = Sync.ok;
  run_unlock = Sync.ok;
  shutdown = record {
    lock = Sync.ok;
    broadcast_not_empty = Sync.ok;
    broadcast_not_full = Sync.ok;
    unlock = Sync.ok;
  };
  release = joins_all;
  state_lock = Sync.ok;
  state_unlock = Sync.ok;
}

abbrev pub open_queue : ConcurrentTaskQueue
open_queue = live (ConcurrentQueue.fresh (blank 1))

abbrev pub new_engine : Engine
new_engine = set_up open_queue 2

new_engine-IsFresh : IsFresh new_engine
new_engine-IsFresh = record {
  state = refl;
  threads = refl;
  contexts = refl;
  created = refl;
  started = refl;
}

scheduler_start_lem_example :
    (r : Option SchedulerResult) × (e' : Engine) × (scheduler_start false one_worker_only
        (some (some new_engine))
      ≡ (r, some (some e')))
    × StartEnd new_engine r e'
scheduler_start_lem_example =
    scheduler_start_lem false one_worker_only new_engine new_engine-IsFresh refl refl refl

-- The first worker is joined, and the scheduler has failed.
abbrev undone : Engine
undone = record new_engine {
  queue = live (record (ConcurrentQueue.fresh (blank 1)) { shutdown_requested = true });
  lifecycle = record new_engine.lifecycle { state = failed };
  crew = record no_crew {
    created_worker_count = 1;
    joined_worker_count = 1;
    worker_startup_failure_count = 1;
  };
  worker_sync_initialized = true;
}

undone_started :
    scheduler_start false one_worker_only (some (some new_engine))
    ≡ (some error_system, some (some undone))
unfolding scheduler_start start_steps pass_gate start_gate allocate set_up_sync spawn_from spawn_one
    give_up back_to during asks_fault set_scheduler_state shut_queue_down
    concurrent_task_queue_shutdown shutdown note_created note_startup_failure increment_saturating
    release_workers join_from join_one note_return note_joined settle_workers add_slots add_slot
    add_saturating note_released
undone_started = refl

failed_start_destructible_example :
    scheduler_destroy Sync.ok Sync.ok (some (some undone)) ≡ (ok, some none)
failed_start_destructible_example =
    failed_start_destructible false one_worker_only new_engine new_engine-IsFresh refl refl refl
      (record { joins = λ i. refl; lock = refl; unlock = refl }) refl undone_started (λ e. cc)
      Sync.ok Sync.ok refl refl

-- Both workers are created; the first wait is woken in vain, and in the second both get ready and one
-- exits.
abbrev both_ready : List Stir
both_ready = gets_ready ∷ gets_ready ∷ exits result_ok ∷ []

abbrev two_workers : StartAnswers
two_workers = record one_worker_only {
  spawn =
      λ i. record { lock = Sync.ok; create = Sync.ok; unlock = Sync.ok; meanwhile = nothing_else };
  pauses =
      record { others = nothing_else; waited = Sync.ok }
      ∷ record { others = record nothing_else { crew = stirred both_ready }; waited = Sync.ok }
      ∷ [];
}

start_returns_example : (scheduler_start false two_workers (some (some new_engine))).0 ≢ none
unfolding stirred
start_returns_example =
    start_returns false two_workers new_engine (λ i. []) 2 (omega arith) refl
      (record {
        before = λ c. refl;
        created = λ i c. refl;
        waiting = in_wait [] (λ c. refl) (in_wait both_ready (λ c. refl) no_wait);
      })
