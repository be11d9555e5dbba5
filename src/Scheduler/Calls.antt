-- ===== src/Scheduler/Calls.antt =====
-- Any number of calls of src/scheduler.c on one scheduler at once, interleaved wherever the lifecycle
-- mutex is free. The calls of the synchronization layer succeed here.
pub mod Inv
pub mod Promises
use concurrent_task_scheduli.Base.{ℕ, zero, suc, ◌+◌, ◌<◌, ◌≡◌, ◌≢◌, ◌⊎◌, Bool, false, none}
use concurrent_task_scheduli.Sync
use concurrent_task_scheduli.Scheduler.{
  SchedulerResult, ok, SchedulerState, initialized, running, stopped, failed, Lifecycle,
}
use concurrent_task_scheduli.Scheduler.Submit.{enter, leave}
use concurrent_task_scheduli.Scheduler.Shutdown.{
  put_state, start_gate, shutdown_gate, join_gate, must_wait,
}

-- How many calls are between their locked parts: submissions between `register_submitter` and
-- `deregister_submitter`, starts after the first locked part, and joins that have seen the last
-- submitter leave.
pub record Calls : Type 0 where
  pub lifecycle : Lifecycle
  pub submitting : ℕ
  pub begun : ℕ
  pub joining : ℕ

-- One locked part of one call; at most `threads` threads submit at a time.
pub data Step (threads : ℕ) (y : Calls) : Calls → Type 0 where
  enters :
      {s : Lifecycle}
      → y.submitting < threads
      → enter y.lifecycle ≡ (ok, s)
      → Step threads y (record y { lifecycle = s; submitting = suc y.submitting })
  turns_away :
      {s : Lifecycle} {r : SchedulerResult}
      → enter y.lifecycle ≡ (r, s)
      → r ≢ ok
      → Step threads y (record y { lifecycle = s })
  -- The queue has answered, and the result is `r`.
  leaves :
      (r : SchedulerResult) {r' : SchedulerResult} {s : Lifecycle} {n : ℕ}
      → y.submitting ≡ suc n
      → leave Sync.ok r y.lifecycle ≡ (r', s)
      → Step threads y (record y { lifecycle = s; submitting = n })
  starts :
      {s : Lifecycle}
      → start_gate y.lifecycle ≡ (ok, s)
      → Step threads y (record y { lifecycle = s; begun = suc y.begun })
  -- A start succeeds, is undone or fails.
  starts_end :
      (st : SchedulerState) {n : ℕ}
      → y.begun ≡ suc n
      → (st ≡ running) ⊎ (st ≡ initialized) ⊎ (st ≡ failed)
      → Step threads y (record y { lifecycle = put_state st y.lifecycle; begun = n })
  shuts_down : Step threads y (record y { lifecycle = (shutdown_gate y.lifecycle).1 })
  joins :
      join_gate y.lifecycle ≡ none
      → must_wait y.lifecycle ≡ false
      → Step threads y (record y { joining = suc y.joining })
  -- The workers are joined, or some are not.
  joins_end :
      (st : SchedulerState) {n : ℕ}
      → y.joining ≡ suc n
      → (st ≡ stopped) ⊎ (st ≡ failed)
      → Step threads y (record y { lifecycle = put_state st y.lifecycle; joining = n })

pub data Reach (threads : ℕ) (y : Calls) : Calls → Type 0 where
  here : Reach threads y y
  next : {z w : Calls} → Reach threads y z → Step threads z w → Reach threads y w

-- `scheduler_init` has just set the scheduler up.
abbrev pub begin : Calls
begin = record {
  lifecycle = record {
    state = initialized;
    active_submitter_count = 0;
    submitted_count = 0;
    accepted_count = 0;
    rejected_count = 0;
    lifecycle_accounting_overflow = false;
  };
  submitting = 0;
  begun = 0;
  joining = 0;
}
