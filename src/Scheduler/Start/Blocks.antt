-- ===== src/Scheduler/Start/Blocks.antt =====
-- How each block of `scheduler_start` of src/scheduler.c ends.
use concurrent_task_scheduli.Base.{
  ℕ, ◌<◌, ◌≡◌, ◌≢◌, refl, ◌∙◌, sym, Bool, false, none, arith, word_mod, word_max, ◌/◌, ◌||◌, ◌&&◌,
  not, ltb,
}
use concurrent_task_scheduli.Sync.{has_failed}
use concurrent_task_scheduli.Fault.{allocation}
use concurrent_task_scheduli.Scheduler.{
  SchedulerResult, ok, error_allocation, error_system, initialized, starting, running, failed,
}
use concurrent_task_scheduli.Scheduler.Engine.{
  Engine, set_scheduler_state, asks_fault, drop_arrays, shut_queue_down,
}
use concurrent_task_scheduli.Scheduler.Release.{release_workers}
use concurrent_task_scheduli.Scheduler.Release.Kept.{release_workers-Calm}
use concurrent_task_scheduli.Scheduler.Release.Freed.{release_workers-freed}
use concurrent_task_scheduli.Scheduler.Start.Ending.{
  Empty, IsClean, as_before, has_failed_state, Ends, passes, fails, Ends-if, Starting, Spawned,
  asks_fault-Starting,
}
use concurrent_task_scheduli.Scheduler.Start.{
  StartAnswers, thread_size, context_size, back_to, give_up, allocate, set_up_sync,
}

alloc-ne-ok : error_allocation ≢ ok
alloc-ne-ok e = cc

system-ne-ok : error_system ≢ ok
system-ne-ok e = cc

pub starting-ne-running : starting ≢ running
starting-ne-running e = cc

small_count :
    (c : ℕ)
    → (ltb (word_max / thread_size) c || ltb (word_max / context_size) c) ≡ false
    → c < word_mod
small_count c h = ground (arith, h)

module _ (b : Bool) (a : StartAnswers) (sets : has_failed a.state_lock ≡ false) where
  back_to-fails :
      {w : Engine} {P : Engine → Type 0} (r : SchedulerResult) (e : Engine)
      → r ≢ ok
      → (IsClean a → Empty w e)
      → Ends a w P (back_to b a failed r e)
  unfolding back_to set_scheduler_state
  back_to-fails r e d f = fails d (
      has_failed_state (ground (arith, sets)) (λ c.
        let h = f c in
        record {
          threads = ground (arith, h.threads);
          contexts = ground (arith, h.contexts);
          active = ground (arith, h.active);
        }))

  -- A start that gives up while no submitter is let in, where its calls succeed.
  pub give_up-Undone :
      {w : Engine} {P : Engine → Type 0} (e : Engine)
      → (IsClean a
          → (e.lifecycle.state ≢ running)
            × (e.lifecycle.active_submitter_count ≡ w.lifecycle.active_submitter_count))
      → Ends a w P (give_up b a e)
  unfolding give_up shut_queue_down
  give_up-Undone e calm =
      let quiet = shut_queue_down a.shutdown e in
      back_to-fails error_system (release_workers b a.release quiet).1 system-ne-ok (λ c.
        let (threads, contexts) = release_workers-freed b a.release quiet c.joins c.lock in
        let same = release_workers-Calm b a.release quiet in
        let (halted, active) = calm c in
        record { threads = threads; contexts = contexts; active = same.active halted ∙ active })

  pub give_up-Starting :
      {w : Engine} {P : Engine → Type 0} {i : ℕ} (e : Engine)
      → Starting w i e
      → Ends a w P (give_up b a e)
  give_up-Starting e s =
      give_up-Undone e (λ c. (λ h. starting-ne-running (sym s.state ∙ h), s.active))

  back_to-before :
      {w : Engine} {P : Engine → Type 0} (r : SchedulerResult) (e : Engine)
      → r ≢ ok
      → Empty w e
      → Ends a w P (back_to b a initialized r e)
  unfolding back_to set_scheduler_state
  back_to-before r e d h = fails d (
      as_before (ground (arith, sets)) (record {
        threads = ground (arith, h.threads);
        contexts = ground (arith, h.contexts);
        active = ground (arith, h.active);
      }))

  pub allocate-Starting :
      (w e : Engine)
      → Starting w 0 e
      → e.threads ≡ none
      → e.worker_contexts ≡ none
      → Ends a w (λ e'. Starting w 0 e' × (w.worker_count < word_mod)) (allocate b a e)
  unfolding allocate
  allocate-Starting w e s t c =
      let (f1, e1) = asks_fault b allocation e in
      let (f2, e2) = asks_fault b allocation e1 in
      let s2 = asks_fault-Starting b allocation e1 (asks_fault-Starting b allocation e s) in
      Ends-if
        (ltb (word_max / thread_size) e.worker_count
          || ltb (word_max / context_size) e.worker_count)
        (λ h.
          back_to-before error_allocation e alloc-ne-ok
            (record { threads = t; contexts = c; active = s.active }))
        (λ small.
          Ends-if (not (not f1 && a.threads_ok && not f2 && a.contexts_ok))
            (λ h.
              back_to-before error_allocation (drop_arrays e2) alloc-ne-ok
                (record { threads = refl; contexts = refl; active = s2.active }))
            (λ h. passes (
              record {
                state = s2.state;
                workers = s2.workers;
                active = s2.active;
                created = s2.created;
                started = s2.started;
              },
              rw (← s.workers) (small_count e.worker_count small),
            )))

  pub set_up_sync-Spawned :
      {w : Engine} (e : Engine) → Starting w 0 e → Ends a w (Spawned w 0) (set_up_sync b a e)
  unfolding set_up_sync
  set_up_sync-Spawned e s =
      Ends-if (has_failed a.worker_mutex || has_failed a.worker_condition)
        (λ h.
          back_to-before error_system (drop_arrays e) system-ne-ok
            (record { threads = refl; contexts = refl; active = s.active }))
        (λ h.
          Ends-if (has_failed a.sync_lock)
            (λ l.
              back_to-fails error_system (drop_arrays e) system-ne-ok
                (λ c. record { threads = refl; contexts = refl; active = s.active }))
            (λ l.
              Ends-if (has_failed a.sync_unlock)
                (λ u. give_up-Starting {i = 0} _ (record {
                  state = s.state;
                  workers = s.workers;
                  active = s.active;
                  created = s.created;
                  started = s.started;
                }))
                (λ u. passes (record {
                  base = record {
                    state = s.state;
                    workers = s.workers;
                    active = s.active;
                    created = s.created;
                    started = s.started;
                  };
                  set_up = refl;
                }))))
