-- ===== src/Scheduler/Whole/Quiet.antt =====
-- A scheduler of src/scheduler.c whose workers have ended and are joined is quiescent: the checks of
-- scheduler_validation.c and scheduler.c find nothing to report.
use concurrent_task_scheduli.Base.{
  get_elem?, if◌then◌else◌, ◌+◌, ℕ, ◌<◌, ◌≡◌, inl, inr, refl, Bool, true, false, some, List, [],
  length, arith, word_mod,
}
use concurrent_task_scheduli.TaskQueue.{TaskQueue}
use concurrent_task_scheduli.TaskQueue.Inv.{Holds}
use concurrent_task_scheduli.ConcurrentQueue.{concurrent_task_queue_capture_runtime_snapshot}
use concurrent_task_scheduli.ConcurrentQueue.System.{System}
use concurrent_task_scheduli.ConcurrentQueue.System.Safety.{IsSound, Reach-IsSound}
use concurrent_task_scheduli.Snapshot.{SchedulerSnapshot, scheduler_snapshot_validate_quiescent}
use concurrent_task_scheduli.Validation.{ValidationResult, quiescent, scheduler_snapshot_validate}
use concurrent_task_scheduli.Scheduler.Shutdown.{must_wait}
use concurrent_task_scheduli.Scheduler.Calls.{Calls}
use concurrent_task_scheduli.Scheduler.Calls.Inv.{Counted, reached-Inv}
use concurrent_task_scheduli.Scheduler.Crew.Counted.{Reach-Counted}
use concurrent_task_scheduli.Scheduler.Release.{settle_workers}
use concurrent_task_scheduli.Scheduler.Capture.{scheduler_capture_snapshot}
use concurrent_task_scheduli.Scheduler.Capture.Sound.{all_answer}
use concurrent_task_scheduli.Scheduler.Whole.{slot, Worker, Whole, Reach, here, next, begin}
use concurrent_task_scheduli.Scheduler.Whole.Parts.{calls_reached, queue_reached, crew_reached}
use concurrent_task_scheduli.Scheduler.Whole.Team.{sum, get-IsSteady}
use concurrent_task_scheduli.Scheduler.Whole.Books.{Booked, Step-Booked}
use concurrent_task_scheduli.Scheduler.Whole.Muster.{Mustered, Step-Mustered, begin-Mustered}
use concurrent_task_scheduli.Scheduler.Whole.Tasks.{
  IsHandedOut, IsDrained, fetched_by, Step-IsHandedOut, begin-IsHandedOut, has_left, length_lem,
}
use concurrent_task_scheduli.Scheduler.Whole.Settled.{
  settled, found_stopped, settled-IsSettled, snapshot_after, snapshot-overflow,
}
use concurrent_task_scheduli.Scheduler.Whole.Over.{IsOver, verdict}

module _ {threads workers : ℕ} {tr : Bool} (n : ℕ) {q : TaskQueue} (lt : threads < word_mod)
    (lw : workers < word_mod) (h : Holds q []) (ln : n < word_mod) where
  reached-Booked : {y : Whole} → Reach threads workers tr (begin q n) y → Booked y
  reached-Booked here = ground arith
  reached-Booked (next {z = z} r s) =
      Step-Booked (reached-Inv lt (calls_reached n r)).counted.small_accepted s (reached-Booked r)

  reached-Mustered : {y : Whole} → Reach threads workers tr (begin q n) y → Mustered workers y
  reached-Mustered here = begin-Mustered workers q n
  reached-Mustered (next r s) = Step-Mustered lw s (reached-Mustered r)

  reached-IsSound : {y : Whole} → Reach threads workers tr (begin q n) y → IsSound y.queue
  reached-IsSound r = Reach-IsSound h ln (queue_reached n r)

  reached-IsHandedOut :
      {y : Whole} → Reach threads workers tr (begin q n) y → IsHandedOut y.workers y.queue
  reached-IsHandedOut here = begin-IsHandedOut q n
  reached-IsHandedOut (next r s) = Step-IsHandedOut s (reached-IsSound r) (reached-IsHandedOut r)

none_submitting :
    (y : Calls) {threads : ℕ}
    → Counted threads y.submitting y.lifecycle
    → must_wait y.lifecycle ≡ false
    → y.submitting ≡ 0
unfolding must_wait
none_submitting y c e = ground (arith, c, e)

drained :
    {ws : List Worker} {z : System}
    → IsHandedOut ws z
    → sum has_left ws ≡ length ws
    → 0 < length ws
    → IsDrained z
drained g left some_worker = elim g.drained [
  | inl none_left ↦ absurd (omega (arith, none_left, left, some_worker))
  | inr d ↦ d
]

module _ {threads workers : ℕ} {tr : Bool} {n : ℕ} {q : TaskQueue} {y : Whole}
    (lt : threads < word_mod) (lw : workers < word_mod) (h : Holds q []) (ln : n < word_mod)
    (r : Reach threads workers tr (begin q n) y) (alone : must_wait y.calls.lifecycle ≡ false)
    (all_begun : y.crew.created ≡ 0) (all_ended : y.crew.serving ≡ 0)
    (all_joined : y.crew.ended_well ≡ 0) (some_created : 0 < y.crew.crew.created_worker_count) where
  reached-IsOver :
      (snapshot_after workers y).overflow_detected ≡ false → IsOver workers (length y.queue.taken) y
  reached-IsOver calm =
      let (quiet, quiet_crew) = snapshot-overflow workers y calm in
      let c = (reached-Inv lt (calls_reached n r)).counted in
      let still = none_submitting y.calls c alone in
      let b = reached-Booked n lt lw h ln r in
      let m = reached-Mustered n lt lw h ln r in
      let g = reached-IsHandedOut n lt lw h ln r in
      let (sums, left) = settled-IsSettled workers y g m all_begun all_ended quiet_crew in
      let d = drained g left (omega (arith, m, some_created)) in
      let crew = Reach-Counted lw (crew_reached n r) in
      let (ts, inv) = reached-IsSound n lt lw h ln r in
      let size = length_lem {q = y.queue} (ts, inv) in
      let accepted = b.accepted quiet in
      let balance = c.balance quiet in
      record {
        small = omega (arith, accepted, b.answers, still, d, c.small_accepted);
        accepted = omega (arith, accepted, b.answers, still, d);
        submitted = omega (arith, accepted, b.answers, still, d, balance);
        fits = c.small_submitted;
        sums = sums;
        created = crew.few;
        active = omega (arith, crew, all_ended);
        joined = omega (arith, crew, m, all_begun, all_ended, all_joined);
        startup = m.startup;
        empty = omega (arith, size, d);
        mark = inv.high_mark;
      }

  -- At any moment of a scheduler at work at which no submission is in flight, at least one worker was
  -- created, and all that were have begun, ended and been joined: the last locked part of
  -- `release_workers` leaves a scheduler of which a capture, once the state is STOPPED, returns a
  -- snapshot; and unless that says that a counter has overflowed, it passes the quiescent check, and the
  -- validation in the mode QUIESCENT finds no violation in it.
  pub joined_is_quiescent :
      (s : SchedulerSnapshot) × (scheduler_capture_snapshot all_answer
          (some (some (found_stopped (settled workers y))))
          true
        ≡ some s)
      × (s.overflow_detected ≡ false
          → (scheduler_snapshot_validate_quiescent (some s) ≡ true)
            × ((v : ValidationResult) × (scheduler_snapshot_validate (some s) quiescent true
                  ≡ some v)
                × (v.violation_count ≡ 0)))
  unfolding scheduler_capture_snapshot concurrent_task_queue_capture_runtime_snapshot settle_workers
  joined_is_quiescent =
      (snapshot_after workers y, refl, λ calm. verdict lw (reached-IsOver calm) calm)

module _ {threads workers : ℕ} {tr : Bool} {n : ℕ} {q : TaskQueue} {y : Whole}
    (lt : threads < word_mod) (lw : workers < word_mod) (h : Holds q []) (ln : n < word_mod)
    (r : Reach threads workers tr (begin q n) y) where
  -- At every moment of a scheduler at work: as long as no counter of submissions has overflowed, the
  -- tasks counted as accepted, or about to be, are as many as the queue holds and the workers were given;
  -- each worker whose slot has not overflowed has counted the tasks it was given, but for the one it
  -- has just taken; and once a worker has left its loop, the queue is shut down and empty.
  pub tasks_accounted :
      (y.calls.lifecycle.lifecycle_accounting_overflow ≡ false
        → y.calls.lifecycle.accepted_count + y.answered
          ≡ sum fetched_by y.workers + y.queue.shared.queue.size)
      × ((i : ℕ) (w : Worker)
          → get_elem? y.workers i ≡ some w
          → (slot w).accounting_overflow ≡ false
          → (slot w).dequeued_count + (if w.holding then 1 else 0) ≡ w.fetched)
      × (0 < sum has_left y.workers
          → (y.queue.shared.shutdown_requested ≡ true) × (y.queue.shared.queue.size ≡ 0))
  tasks_accounted =
      let b = reached-Booked n lt lw h ln r in
      let g = reached-IsHandedOut n lt lw h ln r in
      let size = length_lem {q = y.queue} (reached-IsSound n lt lw h ln r) in
      (
        λ calm. omega (arith, b.accepted calm, g, size),
        λ i w e. (get-IsSteady y.workers i g.steady e).exact,
        λ some_left. elim g.drained [
          | inl none_left ↦ absurd (omega (arith, none_left, some_left))
          | inr d ↦ (d.closed, omega (arith, d, size))
        ],
      )
