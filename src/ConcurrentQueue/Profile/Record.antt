-- ===== src/ConcurrentQueue/Profile/Record.antt =====
-- What `concurrent_task_queue_enqueue` and `concurrent_task_queue_dequeue` of src/concurrent_task_queue.c record in the
-- profiling build.
pub mod Sides
pub mod Even
pub mod Locked
pub mod Parts
pub mod Gains
pub mod Moves
pub mod Steps
pub mod Reached
use concurrent_task_scheduli.Base.{
  ℕ, Bool, true, false, not, ◌||◌, Option, none, some, List, ltb, get_elem?, set, replicate,
  if◌then◌else◌,
}
use concurrent_task_scheduli.Sync.{SchedSyncResult, has_failed}
use concurrent_task_scheduli.ConcurrentQueue.{Shared, shutdown}
use concurrent_task_scheduli.ConcurrentQueue.Put.{Put, attempt_put, must_wait_put, leave_not_full}
use concurrent_task_scheduli.ConcurrentQueue.Take.{
  Take, attempt_take, must_wait_take, leave_not_empty,
}
use concurrent_task_scheduli.ConcurrentQueue.Profile.{
  profiling_now, profiling_add, profiling_increment, profiling_elapsed,
  profiling_inferred_contended, Timing, profiling_record_duration, Occupancy,
  profiling_record_occupancy,
}

-- The fields of SchedulerProfilingSnapshot that begin with `enqueue_`, or with `dequeue_`; `observations` is
-- `queue_full_observations` or `queue_empty_observations`, and the signals are those of `not_empty` or of
-- `not_full`.
pub record Side : Type 0 where
  pub attempts : ℕ
  pub immediate_successes : ℕ
  pub lock_attempts : ℕ
  pub lock_wait_ticks : ℕ
  pub lock_max_wait_ticks : ℕ
  pub inferred_contended : ℕ
  pub wait_count : ℕ
  pub wait_ticks : ℕ
  pub wait_max_ticks : ℕ
  pub wait_returns : ℕ
  pub predicate_false_wakeups : ℕ
  pub successes_after_wait : ℕ
  pub observations : ℕ
  pub signals : ℕ
  pub avoided_signals : ℕ

-- The four arrays of SCHEDULER_PROFILING_MAX_WORKERS counters.
pub record Workers : Type 0 where
  pub tasks : List ℕ
  pub dequeue_wait_count : List ℕ
  pub dequeue_wait_ticks : List ℕ
  pub dequeue_lock_ticks : List ℕ

abbrev pub max_workers : ℕ
max_workers = 64

-- SchedulerProfilingSnapshot. Its flag `counter_overflow` is that of `occupancy`.
pub record Profile : Type 0 where
  pub enqueue : Side
  pub dequeue : Side
  pub shutdown_broadcasts : ℕ
  pub occupancy : Occupancy
  pub workers : Workers
  pub worker_count : ℕ
  pub timer_frequency : ℕ
  pub timing_failed : Bool

-- A side with the flags `timing_failed` and `counter_overflow`.
pub record Tally : Type 0 where
  pub side : Side
  pub timing_failed : Bool
  pub counter_overflow : Bool

-- After the mutex is locked; both readings of the timer are numbers here.
unfoldable pub note_locked : ℕ → ℕ → ℕ → Tally → Tally
note_locked frequency start end t =
    let d = t.side in
    let (attempts, o1) = profiling_increment d.attempts t.counter_overflow in
    let (locks, o2) = profiling_increment d.lock_attempts o1 in
    let ticks = profiling_record_duration start end (record {
      total = d.lock_wait_ticks;
      maximum = d.lock_max_wait_ticks;
      timing_failed = t.timing_failed;
      counter_overflow = o2;
    }) in
    let (contended, failed) =
      profiling_inferred_contended frequency start end ticks.timing_failed in
    let (many, o3) : ℕ × Bool =
      if contended
      then profiling_increment d.inferred_contended ticks.counter_overflow
      else (d.inferred_contended, ticks.counter_overflow) in
    record {
      side = record d {
        attempts = attempts;
        lock_attempts = locks;
        lock_wait_ticks = ticks.total;
        lock_max_wait_ticks = ticks.maximum;
        inferred_contended = many;
      };
      timing_failed = failed;
      counter_overflow = o3;
    }

-- Before a wait.
unfoldable pub note_waiting : Tally → Tally
note_waiting t =
    let (seen, o1) = profiling_increment t.side.observations t.counter_overflow in
    let (waits, o2) = profiling_increment t.side.wait_count o1 in
    record t {
      side = record t.side { observations = seen; wait_count = waits };
      counter_overflow = o2;
    }

-- After a wait; `still` says that the caller must wait again.
unfoldable pub note_returned : Bool → ℕ → ℕ → Tally → Tally
note_returned still start end t =
    let d = t.side in
    let (returns, o1) = profiling_increment d.wait_returns t.counter_overflow in
    let ticks = profiling_record_duration start end (record {
      total = d.wait_ticks;
      maximum = d.wait_max_ticks;
      timing_failed = t.timing_failed;
      counter_overflow = o1;
    }) in
    let (wakeups, o2) : ℕ × Bool =
      if still
      then profiling_increment d.predicate_false_wakeups ticks.counter_overflow
      else (d.predicate_false_wakeups, ticks.counter_overflow) in
    record {
      side = record d {
        wait_returns = returns;
        wait_ticks = ticks.total;
        wait_max_ticks = ticks.maximum;
        predicate_false_wakeups = wakeups;
      };
      timing_failed = ticks.timing_failed;
      counter_overflow = o2;
    }

unfoldable pub note_success : Bool → Tally → Tally
note_success waited t =
    let (after, o1) = profiling_increment t.side.successes_after_wait t.counter_overflow in
    let (immediate, o2) = profiling_increment t.side.immediate_successes t.counter_overflow in
    if waited
    then record t { side = record t.side { successes_after_wait = after }; counter_overflow = o1 }
    else record t {
      side = record t.side { immediate_successes = immediate };
      counter_overflow = o2;
    }

-- Whether the signal was sent; `sched_condition_signal` may have failed.
unfoldable pub note_signal : Bool → Tally → Tally
note_signal sent t =
    let (signals, o1) = profiling_increment t.side.signals t.counter_overflow in
    let (avoided, o2) = profiling_increment t.side.avoided_signals t.counter_overflow in
    if sent
    then record t { side = record t.side { signals = signals }; counter_overflow = o1 }
    else record t { side = record t.side { avoided_signals = avoided }; counter_overflow = o2 }

-- A worker's cell of one of the arrays; other threads have an index that is out of them.
unfoldable pub add_at : ℕ → ℕ → List ℕ × Bool → List ℕ × Bool
add_at worker value (cells, overflow) = elim (get_elem? cells worker) [
  | none ↦ (cells, overflow)
  | some n ↦
      let (n', o) = profiling_add n value overflow in
      if ltb worker max_workers then (set cells worker n', o) else (cells, overflow)
]

-- The caller has just locked the mutex, or its wait that began at `start` has returned. A reading of the
-- timer that fails is `none`.
pub data Entry : Type 0 where
  calls : (start end : Option ℕ) → Entry
  returns : (start : ℕ) (end : Option ℕ) → Entry

abbrev pub has_waited : Entry → Bool
has_waited (calls start end) = false
has_waited (returns start end) = true

-- The two readings as `profiling_now` gives them, and the flag after them.
abbrev pub readings : Entry → Bool → ℕ × ℕ × Bool
readings (calls start end) failed =
    let (a, f) = profiling_now start failed in let (b, f') = profiling_now end f in (a, b, f')
readings (returns start end) failed = let (b, f) = profiling_now end failed in (start, b, f)

unfoldable pub note_entry : ℕ → Bool → Entry → Tally → Tally
unfolding note_locked note_returned
note_entry frequency still e t =
    let (start, end, failed) = readings e t.timing_failed in
    let now = record t { timing_failed = failed } in
    if has_waited e then note_returned still start end now else note_locked frequency start end now

-- A task went in or out; the queue now holds `size` tasks.
unfoldable pub note_done : Bool → Bool → ℕ → ℕ → Tally × Occupancy → Tally × Occupancy
unfolding note_success note_signal
note_done waited sent size capacity (t, p) =
    let t1 = note_success waited t in
    let p1 =
      profiling_record_occupancy size capacity
        (record p { counter_overflow = t1.counter_overflow }) in
    let t2 = note_signal sent (record t1 { counter_overflow = p1.counter_overflow }) in (t2, p1)

-- Before a wait; `next` is the reading of the timer there.
abbrev pub note_sleep : Option ℕ → Tally → Tally
note_sleep next t =
    let t1 = note_waiting t in record t1 { timing_failed = (profiling_now next t1.timing_failed).1 }

abbrev pub no_counts : Side
no_counts = record {
  attempts = 0;
  immediate_successes = 0;
  lock_attempts = 0;
  lock_wait_ticks = 0;
  lock_max_wait_ticks = 0;
  inferred_contended = 0;
  wait_count = 0;
  wait_ticks = 0;
  wait_max_ticks = 0;
  wait_returns = 0;
  predicate_false_wakeups = 0;
  successes_after_wait = 0;
  observations = 0;
  signals = 0;
  avoided_signals = 0;
}

-- What `concurrent_task_queue_init` sets: zeros, and the timer's frequency.
abbrev pub blank_profile : ℕ → Profile
blank_profile frequency = record {
  enqueue = no_counts;
  dequeue = no_counts;
  shutdown_broadcasts = 0;
  occupancy = record {
    occupancy_sample_count = 0;
    occupancy_sample_sum = 0;
    occupancy_min = 0;
    occupancy_max = 0;
    occupancy_zero_observations = 0;
    occupancy_full_observations = 0;
    counter_overflow = false;
  };
  workers = record {
    tasks = replicate max_workers 0;
    dequeue_wait_count = replicate max_workers 0;
    dequeue_wait_ticks = replicate max_workers 0;
    dequeue_lock_ticks = replicate max_workers 0;
  };
  worker_count = 0;
  timer_frequency = frequency;
  timing_failed = false;
}
