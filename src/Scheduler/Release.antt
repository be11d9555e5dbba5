-- ===== src/Scheduler/Release.antt =====
-- `release_workers` of src/scheduler.c: it joins the started threads, adds up their slots and frees the
-- arrays.
pub mod Kept
pub mod Created
pub mod Freed
pub mod Added
use concurrent_task_scheduli.Base.{
  ℕ, zero, suc, Bool, true, false, not, ◌||◌, ◌&&◌, Option, none, some, List, [], ◌∷◌, get_elem?,
  set, if◌then◌else◌,
}
use concurrent_task_scheduli.Sync.{SchedSyncResult, has_failed}
use concurrent_task_scheduli.Fault.{worker_join}
use concurrent_task_scheduli.Scheduler.{SchedulerResult, ok, error_system, increment_saturating}
use concurrent_task_scheduli.Scheduler.Crew.{
  WorkerResult, result_synchronization, is_result_ok, Crew, note_joined, note_released,
}
use concurrent_task_scheduli.Scheduler.Worker.{WorkerContext, add_saturating}
use concurrent_task_scheduli.Scheduler.Engine.{Engine, Sums, Meanwhile, during, asks_fault}

-- One join: what the other threads do until it returns, its result, what the thread has returned, and
-- the lock and unlock that follow.
pub record JoinAnswers : Type 0 where
  pub meanwhile : Meanwhile
  pub join : SchedSyncResult
  pub returned : WorkerResult
  pub lock : SchedSyncResult
  pub unlock : SchedSyncResult

pub record ReleaseAnswers : Type 0 where
  pub joins : ℕ → JoinAnswers
  pub lock : SchedSyncResult
  pub unlock : SchedSyncResult

-- Where the loop over the threads stands: `result` is not OK, and `all_joined`.
pub record Joining : Type 0 where
  pub engine : Engine
  pub has_error : Bool
  pub all_joined : Bool

-- A failed join is counted under the worker mutex, if its lock succeeds.
unfoldable pub count_join_failure : SchedSyncResult → Engine → Engine
unfolding increment_saturating
count_join_failure lock e =
    let (n, o) = increment_saturating e.join_failure_count e.crew.worker_accounting_overflow in
    if has_failed lock then e else record e {
      join_failure_count = n;
      crew = record e.crew { worker_accounting_overflow = o };
    }

-- `sched_thread_destroy`
abbrev pub clear_thread : ℕ → Option (List Bool) → Option (List Bool)
clear_thread i none = none
clear_thread i (some ts) = some (set ts i false)

abbrev pub has_thread : ℕ → Option (List Bool) → Bool
has_thread i none = false
has_thread i (some ts) = elim (get_elem? ts i) [ none ↦ false | some t ↦ t ]

-- A thread that is joined: what it has returned, or a fault, decides.
unfoldable pub note_return : Bool → JoinAnswers → Joining → Joining
unfolding count_join_failure note_joined asks_fault
note_return injecting a j =
    let (fault, asked) = asks_fault injecting worker_join j.engine in
    let e = if fault then count_join_failure a.lock asked else asked in
    let good = not fault && is_result_ok a.returned in
    record {
      engine =
          if good && not (has_failed a.lock)
          then record e { crew = note_joined a.returned e.crew }
          else e;
      has_error = j.has_error || not good || has_failed a.lock || has_failed a.unlock;
      all_joined = j.all_joined;
    }

unfoldable pub join_one : Bool → ℕ → JoinAnswers → Joining → Joining
unfolding count_join_failure note_return during
join_one injecting i a j =
    let back = record j { engine = during a.meanwhile j.engine } in
    let done = note_return injecting a back in
    if not (has_thread i j.engine.threads)
    then j
    else if has_failed a.join
    then record {
      engine = count_join_failure a.lock back.engine;
      has_error = true;
      all_joined = false;
    }
    else record done {
      engine = record done.engine { threads = clear_thread i done.engine.threads };
    }

-- The loop over the threads: `n` rounds from the index `i` on.
unfoldable pub join_from : Bool → (ℕ → JoinAnswers) → ℕ → ℕ → Joining → Joining
unfolding join_one
join_from injecting a zero i j = j
join_from injecting a (suc n) i j = join_from injecting a n (suc i) (join_one injecting i (a i) j)

-- One slot is added to the sums; the overflow flag is that of the crew.
unfoldable pub add_slot : WorkerContext → Sums × Bool → Sums × Bool
unfolding add_saturating
add_slot c (s, o) =
    let (d, o1) = add_saturating s.dequeued_count c.dequeued_count o in
    let (b, o2) = add_saturating s.callback_started_count c.callback_started_count o1 in
    let (g, o3) = add_saturating s.successful_callback_count c.callback_succeeded_count o2 in
    let (f, o4) = add_saturating s.failed_callback_count c.callback_failed_count o3 in
    (
      record {
        dequeued_count = d;
        callback_started_count = b;
        successful_callback_count = g;
        failed_callback_count = f;
      },
      if c.accounting_overflow then true else o4,
    )

-- The loop over the slots.
unfoldable pub add_slots : ℕ → List WorkerContext → Sums × Bool → Sums × Bool
unfolding add_slot
add_slots zero cs s = s
add_slots (suc n) [] s = s
add_slots (suc n) (c ∷ cs) s = add_slots n cs (add_slot c s)

abbrev pub slots_of : Option (List WorkerContext) → List WorkerContext
slots_of none = []
slots_of (some cs) = cs

-- The last locked part, once all threads are joined.
unfoldable pub settle_workers : Engine → Engine
unfolding add_slots note_released
settle_workers e =
    let (s, o) =
      add_slots e.crew.started_worker_count (slots_of e.worker_contexts)
        (e.sums, e.crew.worker_accounting_overflow) in
    record e {
      sums = s;
      crew = record (note_released e.crew) { worker_accounting_overflow = o };
      threads = none;
      worker_contexts = none;
    }

unfoldable pub release_workers : Bool → ReleaseAnswers → Engine → SchedulerResult × Engine
unfolding join_from settle_workers
release_workers injecting a e =
    let j =
      join_from injecting a.joins e.crew.started_worker_count 0
        (record { engine = e; has_error = false; all_joined = true }) in
    if not j.all_joined || has_failed a.lock then (error_system, j.engine) else (
      if j.has_error || j.engine.crew.worker_infrastructure_failure || has_failed a.unlock
          then error_system
          else ok,
      settle_workers j.engine,
    )
