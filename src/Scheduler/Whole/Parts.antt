-- ===== src/Scheduler/Whole/Parts.antt =====
-- The parts of a scheduler of src/scheduler.c at work are the submissions, the queue and the workers
-- that the other modules speak of.
use concurrent_task_scheduli.Base.{ℕ, Bool}
use concurrent_task_scheduli.TaskQueue.{TaskQueue}
use concurrent_task_scheduli.ConcurrentQueue.System
use concurrent_task_scheduli.Scheduler.Calls
use concurrent_task_scheduli.Scheduler.Crew
use concurrent_task_scheduli.Scheduler.Crew.{nobody}
use concurrent_task_scheduli.Scheduler.Whole.{
  Whole, Step, calls_move, puts, leaves, queue_moves, fetches, stores, creates, begins, exits,
  joins, Reach, here, next, begin,
}

module _ {threads workers : ℕ} {tr : Bool} where
  calls-Step :
      {y z : Whole}
      → Step threads workers tr y z
      → Calls.Reach threads Calls.begin y.calls
      → Calls.Reach threads Calls.begin z.calls
  calls-Step (calls_move s h) r = Calls.next r s
  calls-Step (puts t s a b h) r = r
  calls-Step (leaves o e w a h) r = Calls.next r (Calls.leaves o e w)
  calls-Step (queue_moves s a b) r = r
  calls-Step (fetches i w g a e c v n) r = r
  calls-Step (stores i w b g u v) r = r
  calls-Step (creates h) r = r
  calls-Step (begins i w g u e) r = r
  calls-Step (exits i w g u e) r = r
  calls-Step (joins e) r = r

  queue-Step :
      (n : ℕ) {y z : Whole} {q : TaskQueue}
      → Step threads workers tr y z
      → System.Reach tr (System.begin q n) y.queue
      → System.Reach tr (System.begin q n) z.queue
  queue-Step n (calls_move s h) r = r
  queue-Step n (puts t s a b h) r = System.next r s
  queue-Step n (leaves o e w a h) r = r
  queue-Step n (queue_moves s a b) r = System.next r s
  queue-Step n (fetches i w g a e c v k) r = System.next r (System.take_ends i e c v k)
  queue-Step n (stores i w b g u v) r = r
  queue-Step n (creates h) r = r
  queue-Step n (begins i w g u e) r = r
  queue-Step n (exits i w g u e) r = r
  queue-Step n (joins e) r = r

  crew-Step :
      {y z : Whole}
      → Step threads workers tr y z
      → Crew.Reach workers nobody y.crew
      → Crew.Reach workers nobody z.crew
  crew-Step (calls_move s h) r = r
  crew-Step (puts t s a b h) r = r
  crew-Step (leaves o e w a h) r = r
  crew-Step (queue_moves s a b) r = r
  crew-Step (fetches i w g a e c v n) r = r
  crew-Step (stores i w b g u v) r = r
  crew-Step (creates h) r = Crew.next r (Crew.creates h)
  crew-Step (begins i w g u e) r = Crew.next r (Crew.begins e)
  crew-Step (exits i w g u e) r = Crew.next r (Crew.ends_well e)
  crew-Step (joins e) r = Crew.next r (Crew.joins_well e)

  module _ (n : ℕ) {q : TaskQueue} where
    pub calls_reached :
        {y : Whole}
        → Reach threads workers tr (begin q n) y
        → Calls.Reach threads Calls.begin y.calls
    calls_reached here = Calls.here
    calls_reached (next r s) = calls-Step s (calls_reached r)

    pub queue_reached :
        {y : Whole}
        → Reach threads workers tr (begin q n) y
        → System.Reach tr (System.begin q n) y.queue
    queue_reached here = System.here
    queue_reached (next r s) = queue-Step n s (queue_reached r)

    pub crew_reached :
        {y : Whole} → Reach threads workers tr (begin q n) y → Crew.Reach workers nobody y.crew
    crew_reached here = Crew.here
    crew_reached (next r s) = crew-Step s (crew_reached r)
