-- ===== src/Scheduler/Whole/Over.antt =====
-- A snapshot of a scheduler of src/scheduler.c at which all is over passes the checks of
-- scheduler_validation.c and scheduler.c.
use concurrent_task_scheduli.Base.{
  ℕ, ◌+◌, ◌≤◌, ◌<◌, ◌≡◌, inr, refl, true, false, some, arith, word_mod, add_word,
}
use concurrent_task_scheduli.Snapshot.{scheduler_snapshot_validate_quiescent}
use concurrent_task_scheduli.Validation.{
  ValidationResult, quiescent, scheduler_snapshot_validate, lifecycle_flags_valid,
  quiescent_mode_applicable,
}
use concurrent_task_scheduli.Validation.Agreement.{Fits}
use concurrent_task_scheduli.Validation.Basic.{All, plain_complete}
use concurrent_task_scheduli.Validation.Plain.{quiescent_agrees}
use concurrent_task_scheduli.Validation.Report.{validate-Reports}
use concurrent_task_scheduli.Scheduler.Crew.{note_released}
use concurrent_task_scheduli.Scheduler.Worker.{add_workers}
use concurrent_task_scheduli.Scheduler.Release.{settle_workers}
use concurrent_task_scheduli.Scheduler.Whole.{Whole}
use concurrent_task_scheduli.Scheduler.Whole.Settled.{settled, IsSettled, snapshot_after}

-- What is known of the parts when all is over and nothing has overflowed; `tasks` were accepted.
pub record IsOver (workers tasks : ℕ) (y : Whole) : Type 0 where
  pub small : tasks < word_mod
  pub accepted : y.calls.lifecycle.accepted_count ≡ tasks
  pub submitted : y.calls.lifecycle.submitted_count ≡ tasks + y.calls.lifecycle.rejected_count
  pub fits : y.calls.lifecycle.submitted_count < word_mod
  pub sums : IsSettled tasks (settled workers y)
  pub created : y.crew.crew.created_worker_count ≤ workers
  pub active : y.crew.crew.active_worker_count ≡ 0
  pub joined : y.crew.crew.joined_worker_count ≡ y.crew.crew.created_worker_count
  pub startup : y.crew.crew.worker_startup_failure_count ≡ 0
  pub empty : y.queue.shared.queue.size ≡ 0
  pub mark : y.queue.shared.high_water_mark ≤ y.queue.shared.queue.capacity

IsOver-Fits :
    {workers tasks : ℕ} {y : Whole}
    → workers < word_mod
    → IsOver workers tasks y
    → Fits (snapshot_after workers y)
unfolding settle_workers add_workers note_released
IsOver-Fits lw o = record {
  submitted = o.fits;
  accepted = omega (arith, o);
  rejected = omega (arith, o);
  started = omega (arith, o.sums, o.small);
  succeeded = omega (arith, o.sums, o.small);
  failed = omega (arith, o.sums, o.small);
  created = omega (arith, o, lw);
}

word_sum : (a b c : ℕ) → c < word_mod → c ≡ a + b → c ≡ add_word a b
word_sum a b c lt e = ground arith

IsOver-All :
    {workers tasks : ℕ} {y : Whole} → IsOver workers tasks y → All (snapshot_after workers y)
unfolding settle_workers add_workers note_released lifecycle_flags_valid
IsOver-All {workers} {tasks} {y} o =
    let e = settled workers y in
    record {
      version = refl;
      consistency = refl;
      structured = record {
        size = omega (arith, o);
        high = o.mark;
        mark = omega (arith, o);
        created = o.created;
        ready = omega arith;
        active = omega (arith, o);
        joined = omega (arith, o);
        both = omega (arith, o);
        running = omega arith;
        startup = omega (arith, o);
        flags = refl;
      };
      bounded = record {
        outcomes = omega (arith, o.sums);
        accepted = omega (arith, o);
        rejected = omega (arith, o);
        dequeued = omega (arith, o.sums, o.accepted);
        started = omega (arith, o.sums);
      };
      quiet = record {
        balance = word_sum _ _ _ o.fits (omega (arith, o));
        taken = omega (arith, o.sums, o.accepted);
        begun = omega (arith, o.sums);
        ended =
            word_sum e.sums.successful_callback_count e.sums.failed_callback_count
              e.sums.callback_started_count (omega (arith, o.sums, o.small))
              (omega (arith, o.sums));
        empty = o.empty;
        idle = refl;
        inactive = o.active;
        all_joined = ground (arith, o.joined);
      };
    }

is_applicable :
    (workers : ℕ) (y : Whole) → quiescent_mode_applicable (snapshot_after workers y) ≡ true
unfolding quiescent_mode_applicable
is_applicable workers y = refl

-- What the two checks say.
pub verdict :
    {workers tasks : ℕ} {y : Whole}
    → workers < word_mod
    → IsOver workers tasks y
    → (snapshot_after workers y).overflow_detected ≡ false
    → let s = snapshot_after workers y in
      (scheduler_snapshot_validate_quiescent (some s) ≡ true)
      × ((v : ValidationResult) × (scheduler_snapshot_validate (some s) quiescent true ≡ some v)
          × (v.violation_count ≡ 0))
verdict {workers} {y = y} lw o calm =
    let s = snapshot_after workers y in
    let all = IsOver-All o in
    let f = IsOver-Fits lw o in
    let plain = plain_complete s f all in
    let (v, e, report, version) = validate-Reports quiescent s (inr refl) in
    let agrees = quiescent_agrees s f calm (is_applicable workers y) e in
    (plain, (v, e, agrees.1 (plain, all.structured.flags, all.structured.startup)))
