-- ===== src/Scheduler/Profiling.antt =====
-- The profile of a whole scheduler: `scheduler_profiling_snapshot` of src/scheduler.c.
mod Tests
use mathlib.Core.Path.{subst}
use concurrent_task_scheduli.Base.{
  ℕ, ◌≡◌, refl, Bool, true, false, not, ◌||◌, Option, none, some, arith, if◌then◌else◌,
}
use concurrent_task_scheduli.Sync.{SchedSyncResult}
use concurrent_task_scheduli.Scheduler.{SchedulerState, stopped, is_state}
use concurrent_task_scheduli.ConcurrentQueue.Profile.Record.{Profile}
use concurrent_task_scheduli.ConcurrentQueue.Profile.Record.Locked.{
  Profiled, concurrent_task_queue_profiling_snapshot,
}
use concurrent_task_scheduli.ConcurrentQueue.Profile.Record.Reached.{
  Recorded, Consistent, profile_adds_up,
}

-- The fields of SchedulerImplementation that the call reads; the queue is `none` where its pointer
-- `implementation` is NULL.
pub record Profiling : Type 0 where
  pub state : SchedulerState
  pub worker_count : ℕ
  pub queue : Option Profiled

-- The result, what is written through the argument `snapshot`, whose being NULL `out` denies, and the
-- queue; a scheduler whose pointer `implementation` is NULL is `some none`.
unfoldable pub scheduler_profiling_snapshot :
    SchedSyncResult
    → SchedSyncResult
    → Option (Option Profiling)
    → Bool
    → (Bool × Option Profile) × Option (Option Profiled)
scheduler_profiling_snapshot lock unlock (some (some i)) out =
    if not out || not (is_state i.state stopped)
    then ((false, none), some i.queue)
    else concurrent_task_queue_profiling_snapshot lock unlock (some i.queue) i.worker_count out
scheduler_profiling_snapshot lock unlock scheduler out = ((false, none), none)

-- Only a stopped scheduler shows its profile, which is its queue's.
shown_lem :
    (lock unlock : SchedSyncResult) (i : Profiling) {p : Profile}
    → (scheduler_profiling_snapshot lock unlock (some (some i)) true).0.1 ≡ some p
    → (is_state i.state stopped ≡ true)
      × ((concurrent_task_queue_profiling_snapshot lock unlock
            (some i.queue)
            i.worker_count
            true).0.1
          ≡ some p)
unfolding scheduler_profiling_snapshot
shown_lem lock unlock i h = ground (arith, h)

-- Let the queue of a scheduler have been through any locked parts of blocking insertions and removals, a
-- shutdown and snapshots, in any order and with any readings of the timer, no wait having failed. If the
-- scheduler shows its profile, it is stopped, and if no counter of the profile has overflowed, the profile is
-- consistent. For producers and consumers alike, every attempt has locked the mutex, every wait has been
-- observed, the waits are the returned ones and the callers that wait now, every success has sent or avoided
-- a signal, successes and waiting callers are no more than the attempts, and wake-ups in vain no more than the
-- returned waits. The samples are as many as the successes of both sides, and the insertions are the
-- removals and the tasks in the queue.
stopped_profile_adds_up :
    {tr : Bool} {y : Profiled} (lock unlock : SchedSyncResult) (i : Profiling) {p : Profile}
    → Recorded tr y
    → i.queue ≡ some y
    → (scheduler_profiling_snapshot lock unlock (some (some i)) true).0.1 ≡ some p
    → p.occupancy.counter_overflow ≡ false
    → (is_state i.state stopped ≡ true) × Consistent y.shared p
stopped_profile_adds_up {tr} {y} lock unlock i {p} r same shown calm =
    let (halted, queue_shown) = shown_lem lock unlock i shown in
    (
      halted,
      profile_adds_up lock unlock i.worker_count r
          (subst
            (λ q.
              (concurrent_task_queue_profiling_snapshot lock unlock (some q) i.worker_count
                true).0.1
              ≡ some p)
            same queue_shown)
          calm,
    )
