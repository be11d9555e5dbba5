-- ===== src/Scheduler/Calls/Promises.antt =====
-- What src/scheduler.c promises to any number of callers, in every state that they reach from a scheduler
-- that has just been set up.
use concurrent_task_scheduli.Base.{ℕ, ◌+◌, ◌≤◌, ◌<◌, ◌≡◌, true, false, arith, word_mod}
use concurrent_task_scheduli.Scheduler.{stopped}
use concurrent_task_scheduli.Scheduler.Shutdown.{must_wait}
use concurrent_task_scheduli.Scheduler.Calls.{Calls, Reach, begin}
use concurrent_task_scheduli.Scheduler.Calls.Inv.{is_closed, reached-Inv, Reach-Ebbing}

module _ {threads : ℕ} {y : Calls} (lt : threads < word_mod) (r : Reach threads begin y) where
  -- `active_submitter_count` is the number of submissions in flight; as long as no counter has
  -- overflowed, every submission that has begun is accepted, rejected or in flight; and a stopped
  -- scheduler has none in flight.
  pub submissions_counted :
      (y.lifecycle.active_submitter_count ≡ y.submitting)
      × (y.lifecycle.lifecycle_accounting_overflow ≡ false
          → y.lifecycle.submitted_count
            ≡ y.lifecycle.accepted_count + y.lifecycle.rejected_count + y.submitting)
      × (y.lifecycle.state ≡ stopped → y.submitting ≡ 0)
  submissions_counted =
      let inv = reached-Inv lt r in (inv.counted.active, inv.counted.balance, inv.quiet)

  -- Once the scheduler is shutting down, stopped or failed, it stays one of these, and nothing is
  -- accepted any more but submissions that are in flight by then; and once the loop of shutdown or join
  -- has found no submitter, none is in flight again and the number of the accepted ones is final.
  pub shutdown_drains :
      is_closed y.lifecycle.state ≡ true
      → {z : Calls} → Reach threads y z
      → (is_closed z.lifecycle.state ≡ true)
        × (z.lifecycle.accepted_count + z.submitting ≤ y.lifecycle.accepted_count + y.submitting)
        × (must_wait y.lifecycle ≡ false
            → (z.submitting ≡ 0) × (z.lifecycle.accepted_count ≡ y.lifecycle.accepted_count))
  unfolding must_wait
  shutdown_drains up more =
      let inv = reached-Inv lt r in
      let ebb = Reach-Ebbing lt inv up more in
      (ebb.closed, ebb.no_more, ground (arith, ebb, inv.counted))
