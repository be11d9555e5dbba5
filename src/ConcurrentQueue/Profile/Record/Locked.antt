-- ===== src/ConcurrentQueue/Profile/Record/Locked.antt =====
-- The locked parts of `concurrent_task_queue_enqueue` and `concurrent_task_queue_dequeue` of
-- src/concurrent_task_queue.c in the profiling build, and the snapshot of the profile.
use concurrent_task_scheduli.Base.{
  ℕ, Bool, false, not, ◌||◌, Option, none, some, List, ltb, if◌then◌else◌,
}
use concurrent_task_scheduli.Sync.{SchedSyncResult, has_failed}
use concurrent_task_scheduli.ConcurrentQueue.{Shared, shutdown}
use concurrent_task_scheduli.ConcurrentQueue.Put.{attempt_put, must_wait_put, leave_not_full}
use concurrent_task_scheduli.ConcurrentQueue.Take.{attempt_take, must_wait_take, leave_not_empty}
use concurrent_task_scheduli.ConcurrentQueue.Profile.{profiling_add, profiling_elapsed, Occupancy}
use concurrent_task_scheduli.ConcurrentQueue.Profile.Record.{
  Side, Workers, max_workers, Profile, Tally, note_waiting, add_at, Entry, has_waited, readings,
  note_entry, note_done, note_sleep,
}

pub record Profiled : Type 0 where
  pub shared : Shared
  pub profile : Profile

abbrev pub side_tally : Side → Profile → Tally
side_tally d p = record {
  side = d;
  timing_failed = p.timing_failed;
  counter_overflow = p.occupancy.counter_overflow;
}

-- One locked part of `concurrent_task_queue_enqueue`, from its lock or the return of its wait to its next wait
-- or its unlock; and what is written into the profile.
unfoldable pub put_tally :
    Bool → Entry → Option ℕ → ℕ → Shared → ℕ → Tally × Occupancy → Tally × Occupancy
unfolding note_entry note_waiting note_done
put_tally transition e next task s frequency (t, p) =
    let s1 = if has_waited e then leave_not_full s else s in
    let t1 = note_entry frequency (must_wait_put s1) e t in
    let (q, s2) = attempt_put transition (some task) s1 in
    elim q [
      | none ↦ (note_sleep next t1, p)
      | some r ↦
          if r.inserted
          then note_done (has_waited e) r.signals s2.queue.size s2.queue.capacity (t1, p)
          else (t1, p)
    ]

unfoldable pub put_shared : Bool → Entry → ℕ → Shared → Shared
put_shared transition e task s =
    (attempt_put transition (some task) (if has_waited e then leave_not_full s else s)).1

abbrev pub flag_of : Tally × Occupancy → Occupancy
flag_of (t, p) = record p { counter_overflow = t.counter_overflow }

unfoldable pub put_part : Bool → Entry → Option ℕ → ℕ → Profiled → Profiled
unfolding put_tally put_shared
put_part transition e next task y =
    let p = y.profile in
    let done =
      put_tally transition e next task y.shared p.timer_frequency
        (side_tally p.enqueue p, p.occupancy) in
    record {
      shared = put_shared transition e task y.shared;
      profile = record p {
        enqueue = done.0.side;
        occupancy = flag_of done;
        timing_failed = done.0.timing_failed;
      };
    }

-- A worker's cell is added to, and the flag follows.
abbrev pub at_worker : ℕ → ℕ → List ℕ → Tally → List ℕ × Tally
at_worker worker value cells t =
    let (cells', o) = add_at worker value (cells, t.counter_overflow) in
    (cells', record t { counter_overflow = o })

-- The ticks of a lock or of a wait, which also go to the worker.
unfoldable pub ticks_of : ℕ → Entry → Workers × Tally → Workers × Tally
unfolding add_at
ticks_of worker e (w, t) =
    let (start, end, f) = readings e t.timing_failed in
    let (ticks, failed) = profiling_elapsed start end t.timing_failed in
    let timed = record t {
      timing_failed = if ltb worker max_workers then failed else t.timing_failed;
    } in
    let (waits, t1) = at_worker worker ticks w.dequeue_wait_ticks timed in
    let (locks, t2) = at_worker worker ticks w.dequeue_lock_ticks timed in
    if has_waited e
    then (record w { dequeue_wait_ticks = waits }, t1)
    else (record w { dequeue_lock_ticks = locks }, t2)

-- One locked part of `concurrent_task_queue_dequeue`, by the thread whose index is `worker`. Where two counters of
-- the source are written here in another order, their order does not show.
unfoldable pub take_tally :
    Bool
    → ℕ
    → Entry
    → Option ℕ
    → Shared
    → ℕ
    → (Tally × Occupancy) × Workers
    → (Tally × Occupancy) × Workers
unfolding note_entry note_waiting note_done ticks_of add_at
take_tally transition worker e next s frequency ((t, p), w) =
    let s1 = if has_waited e then leave_not_empty s else s in
    let (w1, t1) = ticks_of worker e (w, note_entry frequency (must_wait_take s1) e t) in
    let (q, s2) = attempt_take transition s1 in
    let (waits, slept) = at_worker worker 1 w1.dequeue_wait_count (note_sleep next t1) in
    elim q [
      | none ↦ ((slept, p), record w1 { dequeue_wait_count = waits })
      | some r ↦
          let (t2, p2) =
            note_done (has_waited e) r.signals s2.queue.size s2.queue.capacity (t1, p) in
          let (tasks, t3) = at_worker worker 1 w1.tasks t2 in
          elim r.removed [
            | none ↦ ((t1, p), w1)
            | some task ↦ ((t3, p2), record w1 { tasks = tasks })
          ]
    ]

unfoldable pub take_shared : Bool → Entry → Shared → Shared
take_shared transition e s =
    (attempt_take transition (if has_waited e then leave_not_empty s else s)).1

unfoldable pub take_part : Bool → ℕ → Entry → Option ℕ → Profiled → Profiled
unfolding take_tally take_shared
take_part transition worker e next y =
    let p = y.profile in
    let (done, workers) =
      take_tally transition worker e next y.shared p.timer_frequency
        ((side_tally p.dequeue p, p.occupancy), p.workers) in
    record {
      shared = take_shared transition e y.shared;
      profile = record p {
        dequeue = done.0.side;
        occupancy = flag_of done;
        timing_failed = done.0.timing_failed;
        workers = workers;
      };
    }

-- `concurrent_task_queue_shutdown` under the lock.
unfoldable pub shutdown_part : Profiled → Profiled
unfolding shutdown
shutdown_part y =
    let p = y.profile in
    let (n, o) = profiling_add p.shutdown_broadcasts 2 p.occupancy.counter_overflow in
    record {
      shared = shutdown y.shared;
      profile = record p {
        shutdown_broadcasts = n;
        occupancy = record p.occupancy { counter_overflow = o };
      };
    }

-- What is written through the argument `snapshot`, whose being NULL `out` denies; the call may fail
-- although it is written. A queue whose pointer `implementation` is NULL is `some none`.
unfoldable pub concurrent_task_queue_profiling_snapshot :
    SchedSyncResult
    → SchedSyncResult
    → Option (Option Profiled)
    → ℕ
    → Bool
    → (Bool × Option Profile) × Option (Option Profiled)
concurrent_task_queue_profiling_snapshot lock unlock (some (some y)) worker_count out =
    let p = record y.profile { worker_count = worker_count } in
    if not out || ltb max_workers worker_count || has_failed lock
    then ((false, none), some (some y))
    else ((not (has_failed unlock), some p), some (some (record y { profile = p })))
concurrent_task_queue_profiling_snapshot lock unlock queue worker_count out = ((false, none), queue)
