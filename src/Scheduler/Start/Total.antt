-- ===== src/Scheduler/Start/Total.antt =====
-- How `scheduler_start` of src/scheduler.c ends, on every branch, and that a failed start can be undone.
use concurrent_task_scheduli.Base.{
  ◌≤◌, ◌≡◌, ◌≢◌, ◌⊎◌, inl, inr, refl, ap, Bool, false, Option, none, some, arith,
}
use mathlib.Core.Path.{subst}
use concurrent_task_scheduli.Sync.{SchedSyncResult, has_failed}
use concurrent_task_scheduli.Scheduler.{SchedulerResult, ok, initialized, starting, running, failed}
use concurrent_task_scheduli.Scheduler.Engine.{Engine, Outcome, goes, waits, ends}
use concurrent_task_scheduli.Scheduler.Join.{destroy_engine, scheduler_destroy}
use concurrent_task_scheduli.Scheduler.Start.Loops.{start_steps-Ends}
use concurrent_task_scheduli.Scheduler.Start.Ending.{
  Manned, Undone, Empty, IsClean, as_before, has_failed_state, Ends, passes, stays, succeeds, fails,
  IsFresh,
}
use concurrent_task_scheduli.Scheduler.Start.{StartAnswers, scheduler_start}

-- The call's result.
abbrev call_end : Outcome → Option SchedulerResult × Option (Option Engine)
call_end (goes e) = (none, some (some e))
call_end (waits e) = (none, some (some e))
call_end (ends r e) = (some r, some (some e))

-- What a call of `scheduler_start` on `w` comes to: it still waits for the workers, has started them, or
-- has failed.
pub data StartEnd (w : Engine) : Option SchedulerResult → Engine → Type 0 where
  still_starting :
      {e : Engine} → e.lifecycle.state ≡ starting → Manned w.worker_count e → StartEnd w none e
  has_started :
      {e : Engine}
      → e.lifecycle.state ≡ running
      → Manned w.worker_count e
      → w.worker_count ≤ e.crew.ready_worker_count
      → StartEnd w (some ok) e
  not_started :
      {r : SchedulerResult} {e : Engine}
      → r ≢ ok
      → ((e.lifecycle.state ≡ initialized) × Empty w e) ⊎ (e.lifecycle.state ≡ failed)
      → StartEnd w (some r) e

Undone-state :
    {a : StartAnswers} {w e : Engine}
    → Undone a w e
    → ((e.lifecycle.state ≡ initialized) × Empty w e) ⊎ (e.lifecycle.state ≡ failed)
Undone-state (as_before s h) = inl (s, h)
Undone-state (has_failed_state s f) = inr s

concluded :
    {a : StartAnswers} {w : Engine} {o : Outcome}
    → Ends a w (λ e. ⊥) o
    → (r : Option SchedulerResult) × (e' : Engine) × (call_end o ≡ (r, some (some e')))
      × StartEnd w r e'
concluded (passes x) = elim x [ ]
concluded (stays {e = e} s m) = (none, e, refl, still_starting s m)
concluded (succeeds {e = e} s m r) = (some ok, e, refl, has_started s m r)
concluded (fails {r = r} {e = e} d u) = (some r, e, refl, not_started d (Undone-state u))

call_parts :
    {r s : Option SchedulerResult} {e f : Engine}
    → ◌≡◌ {A = Option SchedulerResult × Option (Option Engine)}
        (r, some (some e))
        (s, some (some f))
    → (r ≡ s) × (e ≡ f)
call_parts h = (ap (λ x. x.0) h, cc h)

-- A start that has failed, whatever its result.
failure-Undone :
    {a : StartAnswers} {w : Engine} {o : Outcome} {r : SchedulerResult} {e : Engine}
    → Ends a w (λ e. ⊥) o
    → call_end o ≡ (some r, some (some e))
    → r ≢ ok
    → Undone a w e
failure-Undone (passes x) h d = elim x [ ]
failure-Undone (stays s m) h d = cc
failure-Undone (succeeds s m r) h d = absurd (d (cc))
failure-Undone {a = a} {w = w} (fails d' u) h d = subst (Undone a w) (call_parts h).1 u

Undone-destroyed :
    {a : StartAnswers} {w e : Engine}
    → Undone a w e
    → IsClean a
    → w.lifecycle.active_submitter_count ≡ 0
    → (l u : SchedSyncResult) → has_failed l ≡ false
    → has_failed u ≡ false
    → scheduler_destroy l u (some (some e)) ≡ (ok, some none)
unfolding scheduler_destroy destroy_engine
Undone-destroyed (as_before s h) clean idle l u lk uk =
    ground (arith, s, h.threads, h.contexts, h.active, idle, lk, uk)
Undone-destroyed (has_failed_state s f) clean idle l u lk uk =
    let h = f clean in ground (arith, s, h.threads, h.contexts, h.active, idle, lk, uk)

module _ (b : Bool) (a : StartAnswers) (e : Engine) (fresh : IsFresh e)
    (lock : has_failed a.lock ≡ false) (unlock : has_failed a.unlock ≡ false)
    (sets : has_failed a.state_lock ≡ false) where
  -- The start of a scheduler that has never been started, where the first lock and unlock succeed, and
  -- so does the lock under which a failure sets the state; any other call of the platform or the
  -- allocator may fail. While the call has no result, it waits in STARTING with all its workers
  -- created. Where the result is OK, the scheduler is RUNNING and all its workers are created and
  -- ready. Where it is another, the scheduler is INITIALIZED with no arrays and as many active
  -- submitters as before, or it is FAILED.
  pub scheduler_start_lem :
      (r : Option SchedulerResult) × (e' : Engine) × (scheduler_start b a (some (some e))
        ≡ (r, some (some e')))
      × StartEnd e r e'
  unfolding scheduler_start
  scheduler_start_lem = concluded (start_steps-Ends b a sets e lock unlock fresh)

  -- The start of a scheduler that has never been started and has no active submitter, which fails past
  -- its first lock and unlock, and sets the state under a lock that succeeds: where the joins that
  -- undo the start and their lock succeed, and so does the start's last unlock,
  -- `scheduler_destroy`, whose lock and unlock succeed, then gives OK and frees the scheduler.
  pub failed_start_destructible :
      IsClean a
      → e.lifecycle.active_submitter_count ≡ 0
      → {r : SchedulerResult} {e' : Engine}
      → scheduler_start b a (some (some e)) ≡ (some r, some (some e'))
      → r ≢ ok
      → (l u : SchedSyncResult) → has_failed l ≡ false
      → has_failed u ≡ false
      → scheduler_destroy l u (some (some e')) ≡ (ok, some none)
  unfolding scheduler_start
  failed_start_destructible clean idle {r} {e'} h bad l u lk uk =
      Undone-destroyed (failure-Undone (start_steps-Ends b a sets e lock unlock fresh) h bad) clean
        idle l u lk uk
