-- ===== src/Scheduler/Whole.antt =====
-- A whole scheduler of src/scheduler.c at work, from its start to the end of its join: its submitters, its
-- queue and its workers, interleaved wherever no mutex is held. The platform's calls succeed, and the
-- scheduler is joined once.
pub mod Parts
pub mod Team
pub mod Books
pub mod Muster
pub mod Tasks
pub mod Slots
pub mod Settled
pub mod Over
pub mod Quiet
mod Tests
use concurrent_task_scheduli.Base.{
  ℕ, suc, ◌≤◌, ◌<◌, ◌≡◌, Bool, true, false, not, ◌||◌, none, some, List, [], ◌∷◌, ◌++◌, map,
  get_elem?, set, if◌then◌else◌,
}
use concurrent_task_scheduli.Sync
use concurrent_task_scheduli.TaskQueue.{TaskQueue}
use concurrent_task_scheduli.ConcurrentQueue.{Shared}
use concurrent_task_scheduli.ConcurrentQueue.Take.{Take, attempt_take}
use concurrent_task_scheduli.ConcurrentQueue.System
use concurrent_task_scheduli.ConcurrentQueue.System.{
  Place, System, Signal, Consuming, is_putter_asleep, wakes_putter, log_take,
}
use concurrent_task_scheduli.Scheduler.{SchedulerResult, Lifecycle}
use concurrent_task_scheduli.Scheduler.Submit.{leave}
use concurrent_task_scheduli.Scheduler.Accounts.{is_ok}
use concurrent_task_scheduli.Scheduler.Calls
use concurrent_task_scheduli.Scheduler.Calls.{Calls}
use concurrent_task_scheduli.Scheduler.Crew
use concurrent_task_scheduli.Scheduler.Crew.{
  Threads, nobody, note_created, note_ready, note_exit, note_joined, result_ok,
}
use concurrent_task_scheduli.Scheduler.Entry
use concurrent_task_scheduli.Scheduler.Entry.{react, fails, serves}
use concurrent_task_scheduli.Scheduler.Worker.{Phase, fetching, WorkerContext, after_stores}

-- A thread that `scheduler_start` has created: before its first locked part, in its loop, told by the
-- queue that it is shut down, after `record_worker_exit`.
pub data Stage : Type 0 where
  created serving told ended : Stage

-- `history` lists the stores into its slot, the last one first; `holding` says that it has a task it has
-- not counted, and `fetched` how many tasks the queue has given to it.
pub record Worker : Type 0 where
  pub stage : Stage
  pub history : List Bool
  pub holding : Bool
  pub fetched : ℕ

abbrev pub is_serving : Stage → Bool
is_serving serving = true
is_serving s = false

abbrev pub is_fetching : Phase → Bool
is_fetching fetching = true
is_fetching p = false

abbrev pub phase : Worker → Phase
phase w = (after_stores w.history).0

abbrev pub slot : Worker → WorkerContext
slot w = (after_stores w.history).1

-- The worker stands before its call of `concurrent_task_queue_dequeue`.
pub record IsAsking (w : Worker) : Type 0 where
  pub stage : w.stage ≡ serving
  pub phase : is_fetching (phase w) ≡ true
  pub free : w.holding ≡ false

-- What the worker does with the queue's answer: it has a task, or leaves its loop. As the calls succeed,
-- the queue does not fail.
unfoldable pub answer : Take → Worker → Worker
unfolding react
answer t w = elim (react t.result t.removed) [
  | Entry.leaves ↦ record w { stage = told }
  | fails ↦ record w { stage = told }
  | serves task ↦ record w { holding = true; fetched = suc w.fetched }
]

abbrev pub new_worker : Worker
new_worker = record { stage = created; history = []; holding = false; fetched = 0 }

-- `answered` is the number of submissions that the queue has answered with OK and that are not yet
-- counted as accepted.
pub record Whole : Type 0 where
  pub calls : Calls
  pub answered : ℕ
  pub queue : System
  pub workers : List Worker
  pub crew : Threads

-- One locked part, or one store of a worker. At most `threads` threads submit at a time, `workers` is
-- `worker_count`, and `transition` is as in the queue. The worker of index `i` is the queue's thread `i`.
pub data Step (threads workers : ℕ) (transition : Bool) (y : Whole) : Whole → Type 0 where
  -- Any locked part of a call but the last one of a submission.
  calls_move :
      {c : Calls}
      → Calls.Step threads y.calls c
      → y.calls.submitting ≤ c.submitting
      → Step threads workers transition y (record y { calls = c })
  -- The queue takes the task of a submission.
  puts :
      (task : ℕ) {q : System}
      → System.Step transition y.queue q
      → q.accepted ≡ y.queue.accepted ++ task ∷ []
      → q.taken ≡ y.queue.taken
      → y.answered < y.calls.submitting
      → Step threads workers transition y (record y { queue = q; answered = suc y.answered })
  -- The last locked part of a submission, which the queue has answered if its result is OK.
  leaves :
      (r : SchedulerResult) {r' : SchedulerResult} {s : Lifecycle} {n k : ℕ}
      → y.calls.submitting ≡ suc n
      → leave Sync.ok r y.calls.lifecycle ≡ (r', s)
      → y.answered ≡ (if is_ok r then suc k else k)
      → k ≤ n
      → Step threads workers transition y
          (record y { calls = record y.calls { lifecycle = s; submitting = n }; answered = k })
  -- A wait, a wake-up, a refused submission or the shutdown at the queue.
  queue_moves :
      {q : System}
      → System.Step transition y.queue q
      → q.accepted ≡ y.queue.accepted
      → q.taken ≡ y.queue.taken
      → Step threads workers transition y (record y { queue = q })
  -- A worker's call of `concurrent_task_queue_dequeue` ends.
  fetches :
      (i : ℕ) (w : Worker) {p : Place} {s s' : Shared} {t : Take} {ps : List Place}
      → get_elem? y.workers i ≡ some w
      → IsAsking w
      → get_elem? y.queue.threads i ≡ some p
      → Consuming p y.queue.shared s
      → attempt_take transition s ≡ (some t, s')
      → Signal is_putter_asleep wakes_putter (set y.queue.threads i Place.outside) t.signals ps
      → Step threads workers transition y (record y {
        queue = record y.queue { shared = s'; threads = ps; taken = log_take t y.queue.taken };
        workers = set y.workers i (answer t w);
      })
  -- A worker that has a task stores into its slot; `b` says whether the callback returns zero.
  stores :
      (i : ℕ) (w : Worker) (b : Bool)
      → get_elem? y.workers i ≡ some w
      → w.stage ≡ serving
      → (not (is_fetching (phase w)) || w.holding) ≡ true
      → Step threads workers transition y (record y {
        workers = set y.workers i (record w { history = b ∷ w.history; holding = false });
      })
  -- `scheduler_start` creates a thread.
  creates :
      y.crew.crew.created_worker_count < workers
      → Step threads workers transition y (record y {
        workers = y.workers ++ new_worker ∷ [];
        crew = record y.crew { crew = note_created y.crew.crew; created = suc y.crew.created };
      })
  begins :
      (i : ℕ) (w : Worker) {n : ℕ}
      → get_elem? y.workers i ≡ some w
      → w.stage ≡ created
      → y.crew.created ≡ suc n
      → Step threads workers transition y (record y {
        workers = set y.workers i (record w { stage = serving });
        crew = record y.crew {
          crew = note_ready y.crew.crew;
          created = n;
          serving = suc y.crew.serving;
        };
      })
  -- `record_worker_exit`.
  exits :
      (i : ℕ) (w : Worker) {n : ℕ}
      → get_elem? y.workers i ≡ some w
      → w.stage ≡ told
      → y.crew.serving ≡ suc n
      → Step threads workers transition y (record y {
        workers = set y.workers i (record w { stage = ended });
        crew = record y.crew {
          crew = (note_exit result_ok y.crew.crew).1;
          serving = n;
          ended_well = suc y.crew.ended_well;
        };
      })
  -- `release_workers` joins one.
  joins :
      {n : ℕ}
      → y.crew.ended_well ≡ suc n
      → Step threads workers transition y (record y {
        crew = record y.crew {
          crew = note_joined result_ok y.crew.crew;
          ended_well = n;
          joined_well = suc y.crew.joined_well;
        };
      })

pub data Reach (threads workers : ℕ) (transition : Bool) (y : Whole) : Whole → Type 0 where
  here : Reach threads workers transition y y
  next :
      {z w : Whole}
      → Reach threads workers transition y z
      → Step threads workers transition z w
      → Reach threads workers transition y w

-- `scheduler_init` has just set the scheduler up; `n` threads may call its queue.
abbrev pub begin : TaskQueue → ℕ → Whole
begin q n = record {
  calls = Calls.begin;
  answered = 0;
  queue = System.begin q n;
  workers = [];
  crew = nobody;
}

-- The slots, in the order of the array `worker_contexts`.
abbrev pub slots : List Worker → List WorkerContext
slots ws = map slot ws
