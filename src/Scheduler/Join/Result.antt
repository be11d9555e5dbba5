-- ===== src/Scheduler/Join/Result.antt =====
-- What `scheduler_join` of src/scheduler.c leaves for `scheduler_destroy`.
use concurrent_task_scheduli.Base.{
  ℕ, ◌<◌, ◌≡◌, ◌≢◌, ◌⊎◌, refl, Bool, true, false, Option, none, some, List, [], ◌∷◌, arith,
  if◌then◌else◌, ◌||◌,
}
use concurrent_task_scheduli.Sync.{SchedSyncResult, has_failed}
use concurrent_task_scheduli.ConcurrentQueue.{ConcurrentTaskQueueResult, concurrent_task_queue_init}
use concurrent_task_scheduli.Scheduler.{
  SchedulerResult, ok, error_invalid_argument, error_allocation, error_invalid_state, error_system,
  shutting_down, stopped, failed, Lifecycle,
}
use concurrent_task_scheduli.Scheduler.Shutdown.{
  put_state, join_gate, Pause, drained, drain, must_wait,
}
use concurrent_task_scheduli.Scheduler.Engine.{Engine, set_scheduler_state}
use concurrent_task_scheduli.Scheduler.Release.{release_workers, has_thread}
use concurrent_task_scheduli.Scheduler.Release.Kept.{release_workers-Calm}
use concurrent_task_scheduli.Scheduler.Release.Freed.{release_workers-freed, release_workers-failed}
use concurrent_task_scheduli.Scheduler.Start.Ending.{IsFresh}
use concurrent_task_scheduli.Scheduler.Join.{
  InitAnswers, scheduler_init, set_up, queue_made, no_queue, map_queue_init_result, JoinCallAnswers,
  join_workers, join_engine, scheduler_join, destroy_engine, scheduler_destroy,
}

drain_drained :
    (ps : List Pause) (s : Lifecycle) → s.active_submitter_count ≡ 0 → drain ps s ≡ (drained, s)
unfolding drain must_wait
drain_drained [] s h = ground (arith, h)
drain_drained (p ∷ ps) s h = ground (arith, h)

-- A scheduler that is shut down or has failed to start, with no submitter left.
pub record IsOver (e : Engine) : Type 0 where
  pub state : (e.lifecycle.state ≡ shutting_down) ⊎ (e.lifecycle.state ≡ failed)
  pub idle : e.lifecycle.active_submitter_count ≡ 0

module _ (b : Bool) (a : JoinCallAnswers) (e : Engine) (over : IsOver e)
    (lock : has_failed a.lock ≡ false) (unlock : has_failed a.unlock ≡ false)
    (state_lock : has_failed a.state_lock ≡ false)
    (state_unlock : has_failed a.state_unlock ≡ false) where
  join_engine_goes : join_engine b a e ≡ (some (join_workers b a e).0, (join_workers b a e).1)
  unfolding join_engine join_gate
  join_engine_goes =
      ground (arith, over.state, lock, unlock, drain_drained a.pauses e.lifecycle over.idle)

  -- A join of a scheduler that is SHUTTING_DOWN or FAILED, with no active submitter, whose calls of the
  -- lifecycle mutex succeed. Where every join of a thread succeeds, and the last lock of
  -- `release_workers` does, the call gives the result of `release_workers`, the scheduler is
  -- STOPPED, and `scheduler_destroy`, whose lock and unlock succeed, then gives OK and frees it.
  pub joined_destructible :
      ((i : ℕ) → has_failed (a.release.joins i).join ≡ false)
      → has_failed a.release.lock ≡ false
      → (l u : SchedSyncResult) → has_failed l ≡ false
      → has_failed u ≡ false
      → (e' : Engine) × (scheduler_join b a (some (some e))
          ≡ (some (release_workers b a.release e).0, some (some e')))
        × (e'.lifecycle.state ≡ stopped)
        × (scheduler_destroy l u (some (some e')) ≡ (ok, some none))
  unfolding scheduler_join join_workers set_scheduler_state scheduler_destroy destroy_engine
  joined_destructible joins rl l u lk uk =
      let e1 = (release_workers b a.release e).1 in
      let (threads, contexts) = release_workers-freed b a.release e joins rl in
      let same = release_workers-Calm b a.release e in
      let still : e1.lifecycle.active_submitter_count ≡ 0 = ground (arith, same.active, over) in
      (
        record e1 { lifecycle = put_state stopped e1.lifecycle },
        rw join_engine_goes (ground (arith, threads, state_lock, state_unlock)),
        refl,
        ground (arith, threads, contexts, still, lk, uk),
      )

  -- A join of a scheduler that is SHUTTING_DOWN or FAILED, with no active submitter, whose calls of the
  -- lifecycle mutex succeed. Where the join of one started thread fails: the result is SYSTEM, the
  -- scheduler is FAILED and keeps the thread, and `scheduler_destroy`, whose lock succeeds, refuses
  -- it with INVALID_STATE and leaves it as it is.
  pub unjoined_kept :
      (k : ℕ)
      → k < e.crew.started_worker_count
      → has_thread k e.threads ≡ true
      → has_failed (a.release.joins k).join ≡ true
      → (l u : SchedSyncResult) → has_failed l ≡ false
      → (e' : Engine) × (scheduler_join b a (some (some e)) ≡ (some error_system, some (some e')))
        × (e'.lifecycle.state ≡ failed)
        × (has_thread k e'.threads ≡ true)
        × (scheduler_destroy l u (some (some e')) ≡ (error_invalid_state, some (some e')))
  unfolding scheduler_join join_workers set_scheduler_state scheduler_destroy destroy_engine
  unjoined_kept k lt live f l u lk =
      let e1 = (release_workers b a.release e).1 in
      let (r, kept) = release_workers-failed b a.release e k lt live f in
      (
        record e1 { lifecycle = put_state failed e1.lifecycle },
        rw join_engine_goes (ground (arith, kept, state_lock, state_unlock)),
        refl,
        kept,
        ground (arith, kept, lk),
      )

-- What a call of `scheduler_init` on the pointer `old` comes to.
pub data InitEnd (worker_count : ℕ)
    : Option (Option Engine) → SchedulerResult × Option (Option Engine) → Type 0 where
  initialises :
      {e : Engine}
      → IsFresh e
      → e.worker_count ≡ worker_count
      → e.lifecycle.active_submitter_count ≡ 0
      → InitEnd worker_count (some none) (ok, some (some e))
  refuses :
      {r : SchedulerResult} {old : Option (Option Engine)}
      → r ≢ ok
      → InitEnd worker_count old (r, old)

module _ {n : ℕ} {old : Option (Option Engine)} where
  InitEnd-if :
      (c : Bool) {x y : SchedulerResult × Option (Option Engine)}
      → InitEnd n old x
      → InitEnd n old y
      → InitEnd n old (if c then x else y)
  InitEnd-if true p q = p
  InitEnd-if false p q = q

  gives : (r : SchedulerResult) → r ≢ ok → InitEnd n old (r, old)
  gives r d = refuses d

  InitEnd-queue :
      (q : ConcurrentTaskQueueResult) {x : SchedulerResult × Option (Option Engine)}
      → InitEnd n old x
      → InitEnd n old (elim q [
        | ConcurrentTaskQueueResult.ok ↦ x
        | failure ↦ (map_queue_init_result failure, old)
      ])
  InitEnd-queue ConcurrentTaskQueueResult.ok p = p
  InitEnd-queue ConcurrentTaskQueueResult.error_invalid_argument p = refuses (λ e. cc)
  InitEnd-queue ConcurrentTaskQueueResult.error_allocation p = refuses (λ e. cc)
  InitEnd-queue ConcurrentTaskQueueResult.error_full p = refuses (λ e. cc)
  InitEnd-queue ConcurrentTaskQueueResult.error_empty p = refuses (λ e. cc)
  InitEnd-queue ConcurrentTaskQueueResult.error_shutdown p = refuses (λ e. cc)
  InitEnd-queue ConcurrentTaskQueueResult.error_system p = refuses (λ e. cc)

-- `scheduler_init` either succeeds, and then nothing was set up before, and the scheduler has the number
-- of workers asked for, no submitter, no thread and no slot; or it gives an error, in whichever way
-- it fails, and the pointer is as it was.
pub scheduler_init_lem :
    (a : InitAnswers) (old : Option (Option Engine)) (queue_capacity worker_count : ℕ)
    (callback : Bool)
    → InitEnd worker_count old (scheduler_init a old queue_capacity worker_count callback)
unfolding scheduler_init
scheduler_init_lem a none queue_capacity worker_count callback = refuses (λ e. cc)
scheduler_init_lem a (some (some x)) queue_capacity worker_count callback =
    InitEnd-if _ (gives error_invalid_argument (λ e. cc)) (gives error_invalid_state (λ e. cc))
scheduler_init_lem a (some none) queue_capacity worker_count callback =
    let q = (concurrent_task_queue_init a.queue (some no_queue) queue_capacity).0 in
    let made = set_up (queue_made a queue_capacity) worker_count in
    let fresh : IsFresh made = record {
      state = refl;
      threads = refl;
      contexts = refl;
      created = refl;
      started = refl;
    } in
    let rest : InitEnd worker_count (some none) (
        if has_failed a.mutex || has_failed a.condition
        then (error_system, some none)
        else (ok, some (some made))) =
      InitEnd-if _ (gives error_system (λ e. cc)) (initialises fresh refl refl) in
    InitEnd-if _ (gives error_invalid_argument (λ e. cc))
      (InitEnd-if _ (gives error_allocation (λ e. cc)) (InitEnd-queue q rest))
