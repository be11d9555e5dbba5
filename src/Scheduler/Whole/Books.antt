-- ===== src/Scheduler/Whole/Books.antt =====
-- What the counters of submissions, workers and tasks of a scheduler of src/scheduler.c at work have to
-- do with each other.
use concurrent_task_scheduli.Base.{
  ℕ, ◌+◌, ◌≤◌, ◌≡◌, ap, Bool, false, [], ◌∷◌, length, length-append, if◌then◌else◌, arith, word_mod,
  ◌<◌,
}
use concurrent_task_scheduli.Sync
use concurrent_task_scheduli.Scheduler.{SchedulerResult, Lifecycle, increment_saturating}
use concurrent_task_scheduli.Scheduler.Submit.{enter, settle, leave}
use concurrent_task_scheduli.Scheduler.Shutdown.{start_gate, shutdown_gate}
use concurrent_task_scheduli.Scheduler.Accounts.{is_ok}
use concurrent_task_scheduli.Scheduler.Calls
use concurrent_task_scheduli.Scheduler.Calls.{Calls}
use concurrent_task_scheduli.Scheduler.Whole.{
  Whole, Step, calls_move, puts, leaves, queue_moves, fetches, stores, creates, begins, exits,
  joins,
}

-- Without an overflow, as many tasks are counted as accepted, or about to be, as the queue has taken.
pub record Booked (y : Whole) : Type 0 where
  pub answers : y.answered ≤ y.calls.submitting
  pub accepted :
      y.calls.lifecycle.lifecycle_accounting_overflow ≡ false
      → y.calls.lifecycle.accepted_count + y.answered ≡ length y.queue.accepted

-- The part of a lifecycle that only the end of a submission changes.
record IsKept (s s' : Lifecycle) : Type 0 where
  calm : s'.lifecycle_accounting_overflow ≡ false → s.lifecycle_accounting_overflow ≡ false
  same : s'.accepted_count ≡ s.accepted_count

enter-IsKept : {s s' : Lifecycle} {r : SchedulerResult} → enter s ≡ (r, s') → IsKept s s'
unfolding enter increment_saturating
enter-IsKept e = ground arith

leave-accepted :
    (r : SchedulerResult) {r' : SchedulerResult} (s : Lifecycle) {s' : Lifecycle}
    → s.accepted_count < word_mod
    → leave Sync.ok r s ≡ (r', s')
    → s'.lifecycle_accounting_overflow ≡ false
    → (s.lifecycle_accounting_overflow ≡ false)
      × (s'.accepted_count ≡ s.accepted_count + (if is_ok r then 1 else 0))
unfolding leave settle increment_saturating
leave-accepted r s lt e calm = ground arith

calls-IsKept :
    {threads : ℕ} {y z : Calls}
    → Calls.Step threads y z
    → y.submitting ≤ z.submitting
    → IsKept y.lifecycle z.lifecycle
unfolding start_gate shutdown_gate
calls-IsKept (Calls.enters room e) h = enter-IsKept e
calls-IsKept (Calls.turns_away e bad) h = enter-IsKept e
calls-IsKept (Calls.leaves r e w) h = absurd (omega arith)
calls-IsKept (Calls.starts e) h = ground arith
calls-IsKept (Calls.starts_end st e d) h = ground arith
calls-IsKept (Calls.shuts_down) h = ground arith
calls-IsKept (Calls.joins e w) h = ground arith
calls-IsKept (Calls.joins_end st e d) h = ground arith

pub Step-Booked :
    {threads workers : ℕ} {tr : Bool} {y z : Whole}
    → y.calls.lifecycle.accepted_count < word_mod
    → Step threads workers tr y z
    → Booked y
    → Booked z
Step-Booked lt (calls_move s h) b = let k = calls-IsKept s h in ground (arith, k, b, h)
Step-Booked {y = y} lt (puts t {q = q} s a e h) b =
    let l = ap length a in
    let m = length-append y.queue.accepted (t ∷ []) in ground (arith, b, h, l, m)
Step-Booked {y = y} lt (leaves r e w a h) b = record {
  answers = h;
  accepted =
      λ calm. let k = leave-accepted r y.calls.lifecycle lt w calm in ground (arith, k, a, b);
}
Step-Booked lt (queue_moves s a e) b = let l = ap length a in ground (arith, b, l)
Step-Booked lt (fetches i w g a e c v n) b = record { answers = b.answers; accepted = b.accepted }
Step-Booked lt (stores i w b g u v) k = record { answers = k.answers; accepted = k.accepted }
Step-Booked lt (creates h) b = record { answers = b.answers; accepted = b.accepted }
Step-Booked lt (begins i w g u e) b = record { answers = b.answers; accepted = b.accepted }
Step-Booked lt (exits i w g u e) b = record { answers = b.answers; accepted = b.accepted }
Step-Booked lt (joins e) b = record { answers = b.answers; accepted = b.accepted }
