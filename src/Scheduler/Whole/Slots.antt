-- ===== src/Scheduler/Whole/Slots.antt =====
-- What the slots of src/scheduler.c hold when all workers have ended.
use concurrent_task_scheduli.Base.{ℕ, ◌+◌, ◌≡◌, Bool, false, List, [], ◌∷◌, length, arith}
use concurrent_task_scheduli.Scheduler.Worker.{WorkerContext, add_saturating}
use concurrent_task_scheduli.Scheduler.Worker.Balance.{after_stores-Balanced}
use concurrent_task_scheduli.Scheduler.Engine.{Sums}
use concurrent_task_scheduli.Scheduler.Release.{add_slot, add_slots}
use concurrent_task_scheduli.Scheduler.Release.Added.{
  total, Words, no_slot, one_slot, add_slots-calm,
}
use concurrent_task_scheduli.Scheduler.Whole.{Worker, slot, slots}
use concurrent_task_scheduli.Scheduler.Whole.Team.{sum, IsSteady, AllSteady}
use concurrent_task_scheduli.Scheduler.Whole.Muster.{is_new, is_active}
use concurrent_task_scheduli.Scheduler.Whole.Tasks.{has_left, fetched_by}

-- No slot has overflowed.
abbrev pub AllCalm : List WorkerContext → Type 0
AllCalm [] = Unit {0}
AllCalm (c ∷ cs) = (c.accounting_overflow ≡ false) × AllCalm cs

add_slot-calm :
    (c : WorkerContext) (s : Sums) (o : Bool)
    → (add_slot c (s, o)).1 ≡ false
    → c.accounting_overflow ≡ false
unfolding add_slot add_saturating
add_slot-calm c s o h = ground (arith, h)

pub add_slots-AllCalm :
    (cs : List WorkerContext) (s : Sums) (o : Bool)
    → (add_slots (length cs) cs (s, o)).1 ≡ false
    → AllCalm cs
unfolding add_slots
add_slots-AllCalm [] s o h = tt
add_slots-AllCalm (c ∷ cs) s o h =
    let next = add_slot c (s, o) in
    (
      add_slot-calm c s o (add_slots-calm (length cs) cs next.0 next.1 h),
      add_slots-AllCalm cs next.0 next.1 h,
    )

pub slots-Words : (ws : List Worker) → Words (slots ws)
slots-Words [] = no_slot
slots-Words (w ∷ ws) =
    let b = (after_stores-Balanced w.history).small in
    one_slot b.dequeued b.started b.succeeded b.failed (slots-Words ws)

pub length-slots : (ws : List Worker) → length (slots ws) ≡ length ws
length-slots [] = omega arith
length-slots (w ∷ ws) = omega (arith, length-slots ws)

abbrev dequeued_in : WorkerContext → ℕ
dequeued_in c = c.dequeued_count

-- A worker that has ended has counted each task it was given as dequeued, and its callback as started and
-- as succeeded or failed.
pub record IsSettled (w : Worker) (c : WorkerContext) : Type 0 where
  pub dequeued : c.dequeued_count ≡ w.fetched
  pub started : c.callback_started_count ≡ w.fetched
  pub outcomes : c.callback_succeeded_count + c.callback_failed_count ≡ w.fetched

slot-IsSettled :
    {w : Worker}
    → IsSteady w
    → is_new w + is_active w ≡ 0
    → (slot w).accounting_overflow ≡ false
    → IsSettled w (slot w)
slot-IsSettled {w} s e calm =
    let b = after_stores-Balanced w.history in ground (arith, s, e, calm, b)

-- The same for all of them together.
pub record Settled (ws : List Worker) : Type 0 where
  pub dequeued : total (λ c. c.dequeued_count) (length (slots ws)) (slots ws) ≡ sum fetched_by ws
  pub started :
      total (λ c. c.callback_started_count) (length (slots ws)) (slots ws) ≡ sum fetched_by ws
  pub outcomes :
      total (λ c. c.callback_succeeded_count) (length (slots ws)) (slots ws)
        + total (λ c. c.callback_failed_count) (length (slots ws)) (slots ws)
      ≡ sum fetched_by ws
  pub left : sum has_left ws ≡ length ws

pub slots-Settled :
    (ws : List Worker)
    → AllSteady ws
    → sum is_new ws ≡ 0
    → sum is_active ws ≡ 0
    → AllCalm (slots ws)
    → Settled ws
unfolding sum total
slots-Settled [] a n m c = omega arith
slots-Settled (w ∷ ws) a n m c =
    let rest = slots-Settled ws a.1 (omega (arith, n)) (omega (arith, m)) c.1 in
    let one = slot-IsSettled a.0 (omega (arith, n, m)) c.0 in
    let gone : has_left w ≡ 1 = ground (arith, n, m) in
    record {
      dequeued = omega (arith, rest, one);
      started = omega (arith, rest, one);
      outcomes = omega (arith, rest, one);
      left = omega (arith, rest, gone);
    }
