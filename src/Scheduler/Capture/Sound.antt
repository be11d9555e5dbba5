-- ===== src/Scheduler/Capture/Sound.antt =====
-- A snapshot that `scheduler_capture_snapshot` of src/scheduler.c takes passes the plain basic check.
use concurrent_task_scheduli.Base.{
  ℕ, ◌≤◌, ◌<◌, ◌≡◌, refl, Bool, true, false, some, List, [], map, arith, word_mod, ◌||◌,
}
use concurrent_task_scheduli.Sync
use concurrent_task_scheduli.TaskQueue.{TaskQueue}
use concurrent_task_scheduli.TaskQueue.Inv.{Holds}
use concurrent_task_scheduli.ConcurrentQueue.{
  live, all_ok, RuntimeSnapshot, concurrent_task_queue_capture_runtime_snapshot,
}
use concurrent_task_scheduli.ConcurrentQueue.System
use concurrent_task_scheduli.ConcurrentQueue.System.{System}
use concurrent_task_scheduli.ConcurrentQueue.System.Promises.{tasks_in_order}
use concurrent_task_scheduli.Snapshot.{SchedulerSnapshot, scheduler_snapshot_validate_basic}
use concurrent_task_scheduli.Validation.Basic.{basic_complete}
use concurrent_task_scheduli.Scheduler.Calls
use concurrent_task_scheduli.Scheduler.Calls.{Calls}
use concurrent_task_scheduli.Scheduler.Calls.Promises.{submissions_counted}
use concurrent_task_scheduli.Scheduler.Crew
use concurrent_task_scheduli.Scheduler.Crew.{Threads, nobody}
use concurrent_task_scheduli.Scheduler.Crew.Counted.{workers_counted}
use concurrent_task_scheduli.Scheduler.Worker.{none_yet, after_stores}
use concurrent_task_scheduli.Scheduler.Worker.Balance.{
  count, in_call, add_workers-Sum, add_workers-calm,
}
use concurrent_task_scheduli.Scheduler.Capture.{
  Found, CaptureAnswers, scheduler_capture_snapshot, snapshot_of,
}

abbrev pub all_answer : CaptureAnswers
all_answer = record {
  lifecycle_lock = Sync.ok;
  lifecycle_unlock = Sync.ok;
  worker_lock = Sync.ok;
  worker_unlock = Sync.ok;
  queue = all_ok;
}

-- What a capture finds before the workers are released: submissions, workers and queue in states that
-- they reach, each at its own moment.
abbrev pub found : ℕ → Calls → Threads → ℕ → List (List Bool) → System → Found
found workers y z join_failures hs w = record {
  worker_count = workers;
  lifecycle = y.lifecycle;
  worker_sync_initialized = true;
  crew = z.crew;
  join_failure_count = join_failures;
  released = none_yet;
  slots = map after_stores hs;
  queue = some (live w.shared);
}

-- A capture whose locks succeed returns a snapshot, and unless the snapshot says that a counter has
-- overflowed, it passes the basic check: for any reached states of the submissions, the workers and the
-- queue, each at its own moment, before the workers are released, where no worker stores into its slot
-- during the capture and those that stand in a call are among the active ones.
pub capture_passes_basic :
    {threads workers n : ℕ} {y : Calls} {z : Threads} {q : TaskQueue} {w : System} {tr : Bool}
    → threads < word_mod
    → Calls.Reach threads Calls.begin y
    → workers < word_mod
    → Crew.Reach workers nobody z
    → Holds q []
    → n < word_mod
    → System.Reach tr (System.begin q n) w
    → (join_failures : ℕ) (hs : List (List Bool)) → count in_call (map after_stores hs) ≤ z.serving
    → (s : SchedulerSnapshot) × (scheduler_capture_snapshot all_answer
          (some (some (found workers y z join_failures hs w)))
          true
        ≡ some s)
      × (s.overflow_detected ≡ false → scheduler_snapshot_validate_basic (some s) ≡ true)
unfolding scheduler_capture_snapshot concurrent_task_queue_capture_runtime_snapshot
    scheduler_snapshot_validate_basic
capture_passes_basic {workers = m} {n = n} {y = y} {z = z} {w = w} {tr = b} lt r lw c h ln g k hs
      busy =
    let o = y.lifecycle.lifecycle_accounting_overflow || z.crew.worker_accounting_overflow in
    let marks : RuntimeSnapshot = record {
      capacity = w.shared.queue.capacity;
      current_size = w.shared.queue.size;
      high_water_mark = w.shared.high_water_mark;
    } in
    let snapshot = snapshot_of (found m y z k hs w) marks in
    let sum = add_workers-Sum o hs in
    let subs = submissions_counted lt r in
    let crew = workers_counted lw c in
    let (ts, held, order, low, high) = tasks_in_order b n h ln g in
    (
      snapshot,
      refl,
      λ e.
          let calm =
            add_workers-calm (map after_stores hs) (record none_yet { overflow_detected = o }) e in
          let parts = sum.exact e in
          let (active, balance, still) = subs in
          let even = balance (ground (arith, calm)) in
          let (serving, joined, few, ready, rest, failures, flagged) = crew in
          basic_complete snapshot sum.small_started (record {
            version = refl;
            consistency = refl;
            size = omega (arith, low, high);
            high = high;
            mark = low;
            created = few;
            ready = ready;
            active = omega (arith, rest);
            joined = omega (arith, rest);
            running = omega (arith, parts, busy, serving);
            accepted = omega (arith, even);
            rejected = omega (arith, even);
            started = omega (arith, parts);
            outcomes = omega (arith, parts);
          }),
    )
