-- ===== src/Scheduler/Worker.antt =====
-- A worker of src/scheduler.c: the counters that `scheduler_worker_entry` keeps in its own slot, one
-- atomic store at a time, and how a snapshot adds up the slots.
pub mod Balance
use concurrent_task_scheduli.Base.{
  ℕ, Bool, true, false, List, [], ◌∷◌, ◌==◌, ltb, if◌then◌else◌, add_word, sub_word, word_max,
}

pub record WorkerContext : Type 0 where
  pub dequeued_count : ℕ
  pub callback_started_count : ℕ
  pub callback_succeeded_count : ℕ
  pub callback_failed_count : ℕ
  pub currently_running_count : ℕ
  pub accounting_overflow : Bool

-- calloc
abbrev pub cleared : WorkerContext
cleared = record {
  dequeued_count = 0;
  callback_started_count = 0;
  callback_succeeded_count = 0;
  callback_failed_count = 0;
  currently_running_count = 0;
  accounting_overflow = false;
}

-- `scheduler_observability_increment_single_writer_atomic`: whether it has counted, the counter, and
-- the overflow flag.
unfoldable pub increment_single_writer_atomic : ℕ → Bool → Bool × ℕ × Bool
increment_single_writer_atomic counter overflow =
    if counter == word_max then (false, counter, true) else (true, add_word counter 1, overflow)

-- Where a worker stands in its loop: it waits for a task; it has counted the task, the start, the call
-- (`running_accounted` is kept) or the outcome.
pub data Phase : Type 0 where
  fetching noted begun : Phase
  calling returned : Bool → Phase

-- The next store. `succeeded` says whether the callback returns zero, where it does.
unfoldable pub advance : Bool → Phase × WorkerContext → Phase × WorkerContext
unfolding increment_single_writer_atomic
advance succeeded (fetching, c) =
    let (k, n, o) = increment_single_writer_atomic c.dequeued_count c.accounting_overflow in
    (noted, record c { dequeued_count = n; accounting_overflow = o })
advance succeeded (noted, c) =
    let (k, n, o) = increment_single_writer_atomic c.callback_started_count c.accounting_overflow in
    (begun, record c { callback_started_count = n; accounting_overflow = o })
advance succeeded (begun, c) =
    let (k, n, o) =
      increment_single_writer_atomic c.currently_running_count c.accounting_overflow in
    (calling k, record c { currently_running_count = n; accounting_overflow = o })
advance true (calling a, c) =
    let (k, n, o) =
      increment_single_writer_atomic c.callback_succeeded_count c.accounting_overflow in
    (returned a, record c { callback_succeeded_count = n; accounting_overflow = o })
advance false (calling a, c) =
    let (k, n, o) = increment_single_writer_atomic c.callback_failed_count c.accounting_overflow in
    (returned a, record c { callback_failed_count = n; accounting_overflow = o })
advance succeeded (returned true, c) =
    (fetching, record c { currently_running_count = sub_word c.currently_running_count 1 })
advance succeeded (returned false, c) = (fetching, c)

-- A worker after one store per entry of the list, the last one first.
unfoldable pub after_stores : List Bool → Phase × WorkerContext
unfolding advance
after_stores [] = (fetching, cleared)
after_stores (succeeded ∷ before) = advance succeeded (after_stores before)

-- The target and the overflow flag.
unfoldable pub add_saturating : ℕ → ℕ → Bool → ℕ × Bool
add_saturating target value overflow =
    if ltb (sub_word word_max target) value
    then (word_max, true)
    else (add_word target value, overflow)

-- The part of a snapshot that `scheduler_capture_snapshot` sums up from the slots.
pub record Totals : Type 0 where
  pub dequeued_count : ℕ
  pub callback_started_count : ℕ
  pub callback_succeeded_count : ℕ
  pub callback_failed_count : ℕ
  pub currently_running_count : ℕ
  pub overflow_detected : Bool

-- Before any worker is released, the sums start from nothing.
abbrev pub none_yet : Totals
none_yet = record {
  dequeued_count = 0;
  callback_started_count = 0;
  callback_succeeded_count = 0;
  callback_failed_count = 0;
  currently_running_count = 0;
  overflow_detected = false;
}

-- One slot, in which nothing is stored between the loads.
unfoldable pub add_worker : WorkerContext → Totals → Totals
unfolding add_saturating
add_worker c t =
    let (d, o1) = add_saturating t.dequeued_count c.dequeued_count t.overflow_detected in
    let (b, o2) = add_saturating t.callback_started_count c.callback_started_count o1 in
    let (s, o3) = add_saturating t.callback_succeeded_count c.callback_succeeded_count o2 in
    let (f, o4) = add_saturating t.callback_failed_count c.callback_failed_count o3 in
    let (r, o5) = add_saturating t.currently_running_count c.currently_running_count o4 in
    record {
      dequeued_count = d;
      callback_started_count = b;
      callback_succeeded_count = s;
      callback_failed_count = f;
      currently_running_count = r;
      overflow_detected = if c.accounting_overflow then true else o5;
    }

-- All the slots, the last in the list first.
unfoldable pub add_workers : List (Phase × WorkerContext) → Totals → Totals
unfolding add_worker
add_workers [] t = t
add_workers ((p, c) ∷ ws) t = add_worker c (add_workers ws t)
