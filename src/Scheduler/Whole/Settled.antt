-- ===== src/Scheduler/Whole/Settled.antt =====
-- What the last locked part of `release_workers` of src/scheduler.c leaves of a scheduler, and what a
-- capture sees of it.
use concurrent_task_scheduli.Base.{
  ℕ, ◌+◌, ◌≡◌, refl, ap, Bool, true, false, some, List, [], length, arith, ◌||◌,
}
use mathlib.Core.Path.{subst}
use concurrent_task_scheduli.ConcurrentQueue.{live}
use concurrent_task_scheduli.Snapshot.{SchedulerSnapshot}
use concurrent_task_scheduli.Scheduler.{stopped}
use concurrent_task_scheduli.Scheduler.Shutdown.{put_state}
use concurrent_task_scheduli.Scheduler.Crew.{note_released}
use concurrent_task_scheduli.Scheduler.Worker.{WorkerContext, add_workers}
use concurrent_task_scheduli.Scheduler.Engine.{Engine}
use concurrent_task_scheduli.Scheduler.Join.{set_up}
use concurrent_task_scheduli.Scheduler.Release.{slots_of, settle_workers}
use concurrent_task_scheduli.Scheduler.Release.Added.{Added, settle_workers-Added}
use concurrent_task_scheduli.Scheduler.Capture.{Found, snapshot_of}
use concurrent_task_scheduli.Scheduler.Whole.{Whole, slots}
use concurrent_task_scheduli.Scheduler.Whole.Team.{sum}
use concurrent_task_scheduli.Scheduler.Whole.Muster.{Mustered}
use concurrent_task_scheduli.Scheduler.Whole.Tasks.{IsHandedOut, has_left}
use concurrent_task_scheduli.Scheduler.Whole.Slots.{
  AllCalm, add_slots-AllCalm, slots-Words, length-slots, slots-Settled,
}

-- The scheduler when `release_workers` comes to its last locked part.
abbrev pub joined : ℕ → Whole → Engine
joined workers y = record (set_up (live y.queue.shared) workers) {
  lifecycle = y.calls.lifecycle;
  crew = y.crew.crew;
  worker_contexts = some (slots y.workers);
  worker_sync_initialized = true;
}

abbrev pub settled : ℕ → Whole → Engine
settled workers y = settle_workers (joined workers y)

-- What a capture finds in a scheduler that is stopped: no slot is left.
abbrev pub found_stopped : Engine → Found
found_stopped e = record {
  worker_count = e.worker_count;
  lifecycle = put_state stopped e.lifecycle;
  worker_sync_initialized = e.worker_sync_initialized;
  crew = e.crew;
  join_failure_count = e.join_failure_count;
  released = record {
    dequeued_count = e.sums.dequeued_count;
    callback_started_count = e.sums.callback_started_count;
    callback_succeeded_count = e.sums.successful_callback_count;
    callback_failed_count = e.sums.failed_callback_count;
    currently_running_count = 0;
    overflow_detected = false;
  };
  slots = [];
  queue = some e.queue;
}

-- What the last locked part of `release_workers` leaves: the four sums are those of the tasks.
pub record IsSettled (tasks : ℕ) (e : Engine) : Type 0 where
  pub dequeued : e.sums.dequeued_count ≡ tasks
  pub started : e.sums.callback_started_count ≡ tasks
  pub outcomes : e.sums.successful_callback_count + e.sums.failed_callback_count ≡ tasks

settled-AllCalm :
    (e : Engine) (cs : List WorkerContext)
    → e.worker_contexts ≡ some cs
    → e.crew.started_worker_count ≡ length cs
    → (settle_workers e).crew.worker_accounting_overflow ≡ false
    → AllCalm cs
unfolding settle_workers
settled-AllCalm e cs a b calm =
    add_slots-AllCalm cs e.sums e.crew.worker_accounting_overflow (rw (ap slots_of a, b) at calm)

pub settled-IsSettled :
    (workers : ℕ) (y : Whole)
    → IsHandedOut y.workers y.queue
    → Mustered workers y
    → y.crew.created ≡ 0
    → y.crew.serving ≡ 0
    → (settled workers y).crew.worker_accounting_overflow ≡ false
    → IsSettled (length y.queue.taken) (settled workers y)
      × (sum has_left y.workers ≡ length y.workers)
settled-IsSettled workers y g m a b calm =
    let cs = slots y.workers in
    let started : y.crew.crew.started_worker_count ≡ length cs =
      omega (arith, m, length-slots y.workers) in
    let quiet = settled-AllCalm (joined workers y) cs refl started calm in
    let all = slots-Settled y.workers g.steady (omega (arith, m)) (omega (arith, m)) quiet in
    let added =
      settle_workers-Added (joined workers y) refl (slots-Words y.workers) (omega arith) calm in
    let exact =
      subst (λ k. Added k cs (joined workers y).sums (settled workers y).sums) started added in
    (
      record {
        dequeued = omega (arith, exact, all, g);
        started = omega (arith, exact, all, g);
        outcomes = omega (arith, exact, all, g);
      },
      all.left,
    )

-- The snapshot that a capture takes of a stopped scheduler.
abbrev pub snapshot_after : ℕ → Whole → SchedulerSnapshot
snapshot_after workers y = snapshot_of (found_stopped (settled workers y)) (record {
  capacity = y.queue.shared.queue.capacity;
  current_size = y.queue.shared.queue.size;
  high_water_mark = y.queue.shared.high_water_mark;
})

both_false : (a b : Bool) → (a || b) ≡ false → (a ≡ false) × (b ≡ false)
both_false a b h = ground arith

pub snapshot-overflow :
    (workers : ℕ) (y : Whole)
    → (snapshot_after workers y).overflow_detected ≡ false
    → (y.calls.lifecycle.lifecycle_accounting_overflow ≡ false)
      × ((settled workers y).crew.worker_accounting_overflow ≡ false)
unfolding settle_workers add_workers note_released
snapshot-overflow workers y calm = both_false _ _ calm
