-- ===== src/Scheduler/Entry.antt =====
-- The worker thread of src/scheduler.c: `scheduler_worker_entry` from its first check to its last call of
-- `record_worker_exit`.
pub mod Served
pub mod Drains
pub mod Ends
mod Tests
use concurrent_task_scheduli.Base.{
  ℕ, Bool, true, Option, none, some, List, [], ◌∷◌, ◌++◌, ltb, if◌then◌else◌, Pointer,
}
use concurrent_task_scheduli.Sync.{SchedSyncResult, has_failed}
use concurrent_task_scheduli.ConcurrentQueue
use concurrent_task_scheduli.ConcurrentQueue.{
  ConcurrentTaskQueueResult, ok, error_shutdown, ConcurrentTaskQueue, Wake, ShutdownAnswers,
}
use concurrent_task_scheduli.ConcurrentQueue.Take.{concurrent_task_queue_dequeue}
use concurrent_task_scheduli.Scheduler.Crew.{
  WorkerResult, result_ok, result_invalid_context, result_synchronization, result_queue, note_ready,
  record_worker_exit,
}
use concurrent_task_scheduli.Scheduler.Worker.{WorkerContext, fetching, advance}
use concurrent_task_scheduli.Scheduler.Engine.{Engine, shut_queue_down}

-- What the worker does with the queue's answer: it leaves its loop for good, it leaves it since the queue
-- has failed, or it serves a task.
pub data Reaction : Type 0 where
  leaves fails : Reaction
  serves : ℕ → Reaction

-- `none` is a task that the queue has not written.
unfoldable pub react : ConcurrentTaskQueueResult → Option Pointer → Reaction
react error_shutdown task = leaves
react ok (some (some task)) = serves task
react result task = fails

-- The argument of the thread: the pointers `scheduler` and `worker_index` of its slot, and the
-- counters of the slot, which no other thread writes. `executed` lists the tasks on which the callback was
-- called, the oldest first.
pub record Context : Type 0 where
  pub scheduler : Option Engine
  pub worker_index : ℕ
  pub slot : WorkerContext
  pub executed : List ℕ

-- One round of the loop: what the other threads have done until the worker locks the queue, what the
-- queue's calls and waits answer, and whether the callback returns zero on a task.
pub record Round : Type 0 where
  pub others : Engine → Engine
  pub queue : ConcurrentQueue.Answers
  pub wakes : List Wake
  pub execute : ℕ → Bool

pub record EntryAnswers : Type 0 where
  pub lock : SchedSyncResult
  pub broadcast : SchedSyncResult
  pub unlock : SchedSyncResult
  pub shutdown : ShutdownAnswers
  -- What the other threads do until `record_worker_exit` locks.
  pub before_exit : Engine → Engine
  pub exit_lock : SchedSyncResult
  pub exit_unlock : SchedSyncResult

-- The five stores into the slot around a call of the callback that returns zero or not.
unfoldable pub count_call : Bool → WorkerContext → WorkerContext
unfolding advance
count_call b c = (advance b (advance b (advance b (advance b (advance b (fetching, c)))))).1

-- A call of `record_worker_exit`.
unfoldable pub exit_with :
    EntryAnswers → WorkerResult → Engine → Context → Option WorkerResult × Context
unfolding record_worker_exit
exit_with a r e x =
    let back = a.before_exit e in
    let (r', crew) = record_worker_exit a.exit_lock a.exit_unlock r back.crew in
    (some r', record x { scheduler = some (record back { crew = crew }) })

-- What is in the queue's place after a call of the queue.
abbrev pub queue_after : ConcurrentTaskQueue → Option ConcurrentTaskQueue → ConcurrentTaskQueue
queue_after old none = old
queue_after old (some q) = q

unfoldable pub serve : (ℕ → Bool) → ℕ → Engine → Context → Context
serve execute task e x = record x {
  scheduler = some e;
  slot = count_call (execute task) x.slot;
  executed = x.executed ++ task ∷ [];
}

-- What the worker makes of the outcome of `concurrent_task_queue_dequeue`: its reaction, if the call does not
-- wait any more, and the scheduler after it.
unfoldable pub take_answer :
    Engine
    → (Option ConcurrentTaskQueueResult × Option Pointer) × Option ConcurrentTaskQueue
    → Option Reaction × Engine
unfolding react
take_answer e ((none, task), q) = (none, record e { queue = queue_after e.queue q })
take_answer e ((some r, task), q) =
    (some (react r task), record e { queue = queue_after e.queue q })

unfoldable pub fetch : Bool → Round → Engine → Option Reaction × Engine
unfolding take_answer
fetch transition round e =
    let now = round.others e in
    take_answer now
      (concurrent_task_queue_dequeue transition round.queue round.wakes (some now.queue) true)

-- The rest of a round; `again` is the loop from the next round on.
unfoldable pub finish_round :
    EntryAnswers
    → (ℕ → Bool)
    → (Engine → Context → Option WorkerResult × Context)
    → Option Reaction
    → Engine
    → Context
    → Option WorkerResult × Context
unfolding exit_with serve
finish_round a execute again none e x = (none, record x { scheduler = some e })
finish_round a execute again (some leaves) e x = exit_with a result_ok e x
finish_round a execute again (some fails) e x =
    exit_with a result_queue (shut_queue_down a.shutdown e) x
finish_round a execute again (some (serves task)) e x = again e (serve execute task e x)

-- The loop, one round per entry of the list; where the list is used up, the worker is still in it.
unfoldable pub work_loop :
    Bool → EntryAnswers → List Round → Engine → Context → Option WorkerResult × Context
unfolding fetch finish_round
work_loop transition a [] e x = (none, record x { scheduler = some e })
work_loop transition a (round ∷ rounds) e x =
    let (r, e') = fetch transition round e in
    finish_round a round.execute (work_loop transition a rounds) r e' x

-- From the first lock on, for a worker whose context is right.
unfoldable pub run_worker :
    Bool → EntryAnswers → List Round → Engine → Context → Option WorkerResult × Context
unfolding exit_with work_loop note_ready
run_worker transition a rounds e x =
    let ready = record e { crew = note_ready e.crew } in
    if has_failed a.lock
    then (some result_synchronization, x)
    else if has_failed a.broadcast
    then exit_with a result_synchronization ready x
    else if has_failed a.unlock
    then exit_with a result_synchronization (shut_queue_down a.shutdown ready) x
    else work_loop transition a rounds ready x

-- The result is `none` while the worker is in its loop.
unfoldable pub scheduler_worker_entry :
    Bool → EntryAnswers → List Round → Option Context → Option WorkerResult × Option Context
unfolding run_worker
scheduler_worker_entry transition a rounds none = (some result_invalid_context, none)
scheduler_worker_entry transition a rounds (some x) = elim x.scheduler [
  | none ↦ (some result_invalid_context, some x)
  | some e ↦
      let (r, y) = run_worker transition a rounds e x in
      if ltb x.worker_index e.worker_count
      then (r, some y)
      else (some result_invalid_context, some x)
]
