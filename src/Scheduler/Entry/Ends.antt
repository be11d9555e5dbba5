-- ===== src/Scheduler/Entry/Ends.antt =====
-- No failure of a worker of src/scheduler.c goes unseen.
use concurrent_task_scheduli.Base.{
  ℕ, ◌<◌, ◌≡◌, ◌≢◌, ◌⊎◌, refl, inl, inr, ap, Bool, true, false, Option, none, some, List, [], ◌∷◌,
  arith, ltb, Bool-cases, if◌then◌else◌, Pointer,
}
use mathlib.Core.Path.{subst}
use concurrent_task_scheduli.Sync.{SchedSyncResult, has_failed}
use concurrent_task_scheduli.ConcurrentQueue.{
  ConcurrentTaskQueueResult, ok, error_invalid_argument, error_allocation, error_system, error_full,
  error_empty, error_shutdown, ConcurrentTaskQueue,
}
use concurrent_task_scheduli.ConcurrentQueue.Take.{concurrent_task_queue_dequeue}
use concurrent_task_scheduli.Scheduler.{increment_saturating}
use concurrent_task_scheduli.Scheduler.Crew.{
  Crew, WorkerResult, result_ok, result_synchronization, result_queue, note_ready, note_failure,
  note_exit, record_worker_exit,
}
use concurrent_task_scheduli.Scheduler.Engine.{Engine, shut_queue_down}
use concurrent_task_scheduli.Scheduler.Entry.{
  Context, Round, EntryAnswers, exit_with, serve, fetch, take_answer, react, queue_after,
  finish_round, work_loop, run_worker, scheduler_worker_entry,
}

-- Whether the queue has handed over a task.
abbrev is_served : Option ConcurrentTaskQueueResult → Option Pointer → Bool
is_served (some ok) (some (some task)) = true
is_served r task = false

-- The answer of the queue on which the worker leaves its loop: the first that is not OK with a task, if no
-- call of the queue is still waiting before.
unfoldable pub last_answer : Bool → List Round → Engine → Option ConcurrentTaskQueueResult
last_answer tr [] e = none
last_answer tr (round ∷ rounds) e =
    let now = round.others e in
    let ((r, task), q) =
      concurrent_task_queue_dequeue tr round.queue round.wakes (some now.queue) true in
    let rest = last_answer tr rounds (record now { queue = queue_after now.queue q }) in
    if is_served r task then rest else r

-- A result of OK means `P` and that the unlock has not failed; any other shows in the crew, unless the
-- last unlock has failed.
abbrev Seen : SchedSyncResult → Type 0 → WorkerResult → Crew → Type 0
Seen unlock P r c =
    (r ≢ result_ok → (has_failed unlock ≡ true) ⊎ (c.worker_infrastructure_failure ≡ true))
    × (r ≡ result_ok → P × (has_failed unlock ≡ false))

record_worker_exit_lem :
    (lock unlock : SchedSyncResult) (r : WorkerResult) (c : Crew)
    → has_failed lock ≡ false
    → let (r', c') = record_worker_exit lock unlock r c in
      (r' ≢ result_ok → (has_failed unlock ≡ true) ⊎ (c'.worker_infrastructure_failure ≡ true))
      × (r' ≡ result_ok → (r ≡ result_ok) × (has_failed unlock ≡ false))
unfolding record_worker_exit note_exit note_failure increment_saturating
record_worker_exit_lem lock unlock r c up = ground (arith, up)

-- The same of a worker that has come to its end.
data Shows (a : EntryAnswers) (P : Type 0) : Option WorkerResult × Context → Type 0 where
  at_work : {x : Context} → Shows a P (none, x)
  at_end :
      {x : Context} {r : WorkerResult} {e : Engine}
      → x.scheduler ≡ some e
      → Seen a.exit_unlock P r e.crew
      → Shows a P (some r, x)

exit_with-Shows :
    (a : EntryAnswers) {P : Type 0} (r : WorkerResult) (e : Engine) (x : Context)
    → has_failed a.exit_lock ≡ false
    → (r ≡ result_ok → P)
    → Shows a P (exit_with a r e x)
unfolding exit_with
exit_with-Shows a r e x up good =
    let (bad, well) =
      record_worker_exit_lem a.exit_lock a.exit_unlock r (a.before_exit e).crew up in
    at_end refl (bad, λ h. (good (well h).0, (well h).1))

queue_failed : {P : Type 0} → result_queue ≡ result_ok → P
queue_failed h = absurd cc

sync_failed : {P : Type 0} → result_synchronization ≡ result_ok → P
sync_failed h = absurd cc

Shows-map :
    {a : EntryAnswers} {P Q : Type 0} {o : Option WorkerResult × Context}
    → (P → Q)
    → Shows a P o
    → Shows a Q o
Shows-map f at_work = at_work
Shows-map f (at_end h (bad, well)) = at_end h (bad, λ e. (f (well e).0, (well e).1))

module _ (a : EntryAnswers) (up : has_failed a.exit_lock ≡ false) where
  finish_round-Shows :
      (execute : ℕ → Bool) (again : Engine → Context → Option WorkerResult × Context) (now : Engine)
      (x : Context) (rest : Option ConcurrentTaskQueueResult) (r : Option ConcurrentTaskQueueResult)
      (task : Option Pointer) (q : Option ConcurrentTaskQueue)
      → ((y : Context)
          → Shows a
              (rest ≡ some error_shutdown)
              (again (record now { queue = queue_after now.queue q }) y))
      → Shows a
          ((if is_served r task then rest else r) ≡ some error_shutdown)
          (let (k, e) = take_answer now ((r, task), q) in finish_round a execute again k e x)
  unfolding finish_round take_answer react
  finish_round-Shows execute again now x rest none task q h = at_work
  finish_round-Shows execute again now x rest (some error_shutdown) task q h =
      exit_with-Shows a result_ok _ x up (λ e. refl)
  finish_round-Shows execute again now x rest (some ok) (some (some task)) q h =
      h (serve execute task _ x)
  finish_round-Shows execute again now x rest (some ok) (some none) q h =
      exit_with-Shows a result_queue _ x up queue_failed
  finish_round-Shows execute again now x rest (some ok) none q h =
      exit_with-Shows a result_queue _ x up queue_failed
  finish_round-Shows execute again now x rest (some error_invalid_argument) task q h =
      exit_with-Shows a result_queue _ x up queue_failed
  finish_round-Shows execute again now x rest (some error_allocation) task q h =
      exit_with-Shows a result_queue _ x up queue_failed
  finish_round-Shows execute again now x rest (some error_system) task q h =
      exit_with-Shows a result_queue _ x up queue_failed
  finish_round-Shows execute again now x rest (some error_full) task q h =
      exit_with-Shows a result_queue _ x up queue_failed
  finish_round-Shows execute again now x rest (some error_empty) task q h =
      exit_with-Shows a result_queue _ x up queue_failed

  work_loop-Shows :
      (tr : Bool) (rounds : List Round) (e : Engine) (x : Context)
      → Shows a (last_answer tr rounds e ≡ some error_shutdown) (work_loop tr a rounds e x)
  unfolding work_loop fetch last_answer
  work_loop-Shows tr [] e x = at_work
  work_loop-Shows tr (round ∷ rounds) e x =
      let now = round.others e in
      let ((r, task), q) =
        concurrent_task_queue_dequeue tr round.queue round.wakes (some now.queue) true in
      let after = record now { queue = queue_after now.queue q } in
      finish_round-Shows round.execute (work_loop tr a rounds) now x (last_answer tr rounds after) r
        task q (λ y. work_loop-Shows tr rounds after y)

  -- What has failed before the loop.
  run_worker-Shows :
      (tr : Bool) (rounds : List Round) (e : Engine) (x : Context)
      → has_failed a.lock ≡ false
      → Shows a
          ((has_failed a.broadcast ≡ false)
            × (has_failed a.unlock ≡ false)
            × (last_answer tr rounds (record e { crew = note_ready e.crew }) ≡ some error_shutdown))
          (run_worker tr a rounds e x)
  unfolding run_worker
  run_worker-Shows tr rounds e x first =
      let ready = record e { crew = note_ready e.crew } in
      elim (Bool-cases (has_failed a.broadcast)) [
        | inl v ↦ rw (first, v) (exit_with-Shows a result_synchronization ready x up sync_failed)
        | inr v ↦ elim (Bool-cases (has_failed a.unlock)) [
          | inl w ↦
              rw (first, v, w)
                (exit_with-Shows a result_synchronization (shut_queue_down a.shutdown ready) x up
                  sync_failed)
          | inr w ↦
              rw (first, v, w)
                (Shows-map (λ l. (refl, refl, l)) (work_loop-Shows tr rounds ready x))
        ]
      ]

Shows-end :
    {a : EntryAnswers} {P : Type 0} {x : Context} {r : WorkerResult}
    → Shows a P (some r, x)
    → (e : Engine) × (x.scheduler ≡ some e) × Seen a.exit_unlock P r e.crew
Shows-end (at_end {e = e} h s) = (e, h, s)

abbrev context_of : Context → Option Context → Context
context_of x none = x
context_of x (some y) = y

-- A worker of a scheduler whose index is right and whose first lock and last lock succeed, whatever
-- else fails, however many rounds it makes and whatever the others do: when it has come to its end with
-- OK, nothing has failed, that is, the broadcast and both unlocks have succeeded, and it left its loop on the
-- queue's answer SHUTDOWN after answers of OK with a task; and any other result shows as a failure in
-- the crew, unless the last unlock has failed.
pub failures_shown :
    (tr : Bool) (a : EntryAnswers) (rounds : List Round) (e : Engine) (x : Context)
    {r : WorkerResult} {y : Context}
    → x.worker_index < e.worker_count
    → has_failed a.lock ≡ false
    → has_failed a.exit_lock ≡ false
    → scheduler_worker_entry tr a rounds (some (record x { scheduler = some e })) ≡ (some r, some y)
    → (f : Engine) × (y.scheduler ≡ some f)
      × (r ≢ result_ok
          → (has_failed a.exit_unlock ≡ true) ⊎ (f.crew.worker_infrastructure_failure ≡ true))
      × (r ≡ result_ok
          → (has_failed a.broadcast ≡ false)
            × (has_failed a.unlock ≡ false)
            × (last_answer tr rounds (record e { crew = note_ready e.crew }) ≡ some error_shutdown)
            × (has_failed a.exit_unlock ≡ false))
unfolding scheduler_worker_entry
failures_shown tr a rounds e x {r} {y} inside first up h =
    let fits : ltb x.worker_index e.worker_count ≡ true = ground (arith, inside) in
    let z = record x { scheduler = some e } in
    let done = run_worker tr a rounds e z in
    let same : ◌≡◌ {A = Option WorkerResult × Option Context} (done.0, some done.1)
        (some r, some y) =
      rw fits at h in
    let both : done ≡ (some r, y) = ap (λ p. (p.0, context_of y p.1)) same in
    let (f, g, (s, t)) = Shows-end (
      subst
        (Shows a (
          (has_failed a.broadcast ≡ false)
          × (has_failed a.unlock ≡ false)
          × (last_answer tr rounds (record e { crew = note_ready e.crew }) ≡ some error_shutdown)))
        both (run_worker-Shows a up tr rounds e z first)) in
    (f, g, s, λ ok'. let ((b, u, l), x') = t ok' in (b, u, l, x'))
