-- ===== src/Scheduler/Start.antt =====
-- `scheduler_start` of src/scheduler.c, each block of the source a series of steps.
pub mod Ending
pub mod Blocks
pub mod Loops
pub mod Total
pub mod Returns
pub mod Tests
use concurrent_task_scheduli.Base.{
  ℕ, zero, suc, ◌/◌, Bool, true, false, not, ◌||◌, ◌&&◌, Option, none, some, List, [], ◌∷◌, set,
  replicate, ltb, if◌then◌else◌, word_max,
}
use concurrent_task_scheduli.Sync.{SchedSyncResult, has_failed}
use concurrent_task_scheduli.Fault.{allocation, worker_creation}
use concurrent_task_scheduli.ConcurrentQueue.{ShutdownAnswers}
use concurrent_task_scheduli.Scheduler.{
  SchedulerResult, ok, error_invalid_argument, error_invalid_state, error_allocation, error_system,
  SchedulerState, initialized, starting, running, failed, is_state,
}
use concurrent_task_scheduli.Scheduler.Shutdown.{put_state, start_gate}
use concurrent_task_scheduli.Scheduler.Crew.{Crew, note_created, note_startup_failure}
use concurrent_task_scheduli.Scheduler.Worker.{WorkerContext, cleared}
use concurrent_task_scheduli.Scheduler.Release.{ReleaseAnswers, release_workers}
use concurrent_task_scheduli.Scheduler.Engine.{
  Engine, Meanwhile, during, Outcome, goes, waits, ends, Steps, ◌>>◌, set_scheduler_state,
  shut_queue_down, asks_fault, drop_arrays,
}

-- The creation of one worker, and what the other threads do from its unlock on.
pub record SpawnAnswers : Type 0 where
  pub lock : SchedSyncResult
  pub create : SchedSyncResult
  pub unlock : SchedSyncResult
  pub meanwhile : Meanwhile

-- One wait for the workers to be ready.
pub record ReadyPause : Type 0 where
  pub others : Meanwhile
  pub waited : SchedSyncResult

-- What the platform and the allocator answer to the calls of `scheduler_start`, in their order; those
-- from `shutdown` on are of the calls that undo a failed start.
pub record StartAnswers : Type 0 where
  pub lock : SchedSyncResult
  pub unlock : SchedSyncResult
  pub meanwhile : Meanwhile
  pub threads_ok : Bool
  pub contexts_ok : Bool
  pub worker_mutex : SchedSyncResult
  pub worker_condition : SchedSyncResult
  pub sync_lock : SchedSyncResult
  pub sync_unlock : SchedSyncResult
  pub spawn : ℕ → SpawnAnswers
  pub ready_lock : SchedSyncResult
  pub pauses : List ReadyPause
  pub ready_unlock : SchedSyncResult
  pub run_lock : SchedSyncResult
  pub run_unlock : SchedSyncResult
  pub shutdown : ShutdownAnswers
  pub release : ReleaseAnswers
  pub state_lock : SchedSyncResult
  pub state_unlock : SchedSyncResult

-- The sizes in bytes of a SchedThread and of a WorkerContext.
abbrev pub thread_size : ℕ
thread_size = 8

abbrev pub context_size : ℕ
context_size = 128

-- `injecting` is the build's CONCURRENT_SCHEDULER_ENABLE_FAULT_INJECTION.
module _ (injecting : Bool) (a : StartAnswers) where
  -- The start ends with a result, and the state is set.
  unfoldable pub back_to : SchedulerState → SchedulerResult → Steps
  unfolding set_scheduler_state
  back_to state r e = ends r (set_scheduler_state a.state_lock a.state_unlock state e).1

  -- The start fails when threads may exist.
  unfoldable pub give_up : Steps
  unfolding back_to
  give_up e =
      back_to failed error_system
        (release_workers injecting a.release (shut_queue_down a.shutdown e)).1

  unfoldable pub pass_gate : Steps
  unfolding start_gate
  pass_gate e =
      let (r, s) = start_gate e.lifecycle in
      let passed = record e { lifecycle = s } in
      elim r [
        | ok ↦
            (if has_failed a.lock
              then ends error_system e
              else if has_failed a.unlock
              then ends error_system passed
              else goes (during a.meanwhile passed))
        | other ↦ if has_failed a.lock then ends error_system e else ends other e
      ]

  unfoldable pub allocate : Steps
  unfolding asks_fault
  allocate e =
      let (f1, e1) = asks_fault injecting allocation e in
      let (f2, e2) = asks_fault injecting allocation e1 in
      if ltb (word_max / thread_size) e.worker_count || ltb (word_max / context_size) e.worker_count
      then back_to initialized error_allocation e
      else if not (not f1 && a.threads_ok && not f2 && a.contexts_ok)
      then back_to initialized error_allocation (drop_arrays e2)
      else goes (record e2 {
        threads = some (replicate e.worker_count false);
        worker_contexts = some (replicate e.worker_count cleared);
      })

  unfoldable pub set_up_sync : Steps
  set_up_sync e =
      if has_failed a.worker_mutex || has_failed a.worker_condition
      then back_to initialized error_system (drop_arrays e)
      else if has_failed a.sync_lock
      then back_to failed error_system (drop_arrays e)
      else if has_failed a.sync_unlock
      then give_up (record e { worker_sync_initialized = true })
      else goes (record e { worker_sync_initialized = true })

  abbrev pub set_thread : ℕ → Option (List Bool) → Option (List Bool)
  set_thread i none = none
  set_thread i (some ts) = some (set ts i true)

  unfoldable pub spawn_one : ℕ → Steps
  unfolding asks_fault
  spawn_one i e =
      let (f, e1) = asks_fault injecting worker_creation e in
      let made = record e1 { threads = set_thread i e1.threads; crew = note_created e1.crew } in
      if has_failed (a.spawn i).lock
      then give_up e
      else if f || has_failed (a.spawn i).create
      then give_up (record e1 { crew = note_startup_failure e1.crew })
      else if has_failed (a.spawn i).unlock
      then give_up made
      else goes (during (a.spawn i).meanwhile made)

  -- `n` workers, from the index `i` on.
  unfoldable pub spawn_from : ℕ → ℕ → Steps
  unfolding spawn_one
  spawn_from zero i e = goes e
  spawn_from (suc n) i e = (spawn_one i >> spawn_from n (suc i)) e

  -- The loop that waits until all the workers are ready.
  unfoldable pub ready_loop : List ReadyPause → Steps
  unfolding during
  ready_loop [] e = if ltb e.crew.ready_worker_count e.worker_count then waits e else goes e
  ready_loop (p ∷ ps) e =
      let back = during p.others e in
      let rest = ready_loop ps back in
      if not (ltb e.crew.ready_worker_count e.worker_count)
      then goes e
      else if has_failed p.waited
      then give_up back
      else rest

  unfoldable pub await_ready : Steps
  unfolding ready_loop
  await_ready e =
      if has_failed a.ready_lock
      then give_up e
      else (ready_loop a.pauses >> λ e'. if has_failed a.ready_unlock then give_up e' else goes e')
          e

  unfoldable pub go_running : Steps
  go_running e =
      let up = record e { lifecycle = put_state running e.lifecycle } in
      if has_failed a.run_lock
      then give_up e
      else if has_failed a.run_unlock
      then give_up up
      else ends ok up

  unfoldable pub start_steps : Steps
  start_steps e =
      (do pass_gate; allocate; set_up_sync; spawn_from e.worker_count 0; await_ready; go_running) e

-- The result is `none` while the caller waits.
unfoldable pub scheduler_start :
    Bool → StartAnswers → Option (Option Engine) → Option SchedulerResult × Option (Option Engine)
unfolding start_steps
scheduler_start injecting a none = (some error_invalid_argument, none)
scheduler_start injecting a (some none) = (some error_invalid_state, some none)
scheduler_start injecting a (some (some e)) = elim (start_steps injecting a e) [
  | goes e' ↦ (none, some (some e'))
  | waits e' ↦ (none, some (some e'))
  | ends r e' ↦ (some r, some (some e'))
]
