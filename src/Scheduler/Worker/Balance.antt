-- ===== src/Scheduler/Worker/Balance.antt =====
-- The counters of the workers of src/scheduler.c add up.
use concurrent_task_scheduli.Base.{
  ℕ, ◌+◌, ◌<◌, ◌≡◌, Bool, true, false, List, [], ◌∷◌, map, arith, word_mod,
}
use concurrent_task_scheduli.Scheduler.Worker.{
  WorkerContext, increment_single_writer_atomic, Phase, noted, begun, calling, returned, advance,
  after_stores, add_saturating, Totals, none_yet, add_worker, add_workers,
}

-- A task that is counted and whose callback is not counted as started.
abbrev pub to_start : Phase → ℕ
to_start noted = 1
to_start p = 0

-- A callback that is counted as started and has no outcome yet.
abbrev pub to_end : Phase → ℕ
to_end begun = 1
to_end (calling a) = 1
to_end p = 0

-- A callback that is counted as running.
abbrev pub in_call : Phase → ℕ
in_call (calling a) = 1
in_call (returned a) = 1
in_call p = 0

unfoldable pub count : (Phase → ℕ) → List (Phase × WorkerContext) → ℕ
count w [] = 0
count w ((p, c) ∷ ws) = w p + count w ws

pub record Small (c : WorkerContext) : Type 0 where
  pub dequeued : c.dequeued_count < word_mod
  pub started : c.callback_started_count < word_mod
  pub succeeded : c.callback_succeeded_count < word_mod
  pub failed : c.callback_failed_count < word_mod

pub accounted : Phase → Bool
accounted (calling a) = a
accounted (returned a) = a
accounted p = true

pub record Balanced (p : Phase) (c : WorkerContext) : Type 0 where
  pub small : Small c
  pub running : c.currently_running_count ≡ in_call p
  pub counted : accounted p ≡ true
  pub starts :
      c.accounting_overflow ≡ false → c.dequeued_count ≡ c.callback_started_count + to_start p
  pub ends :
      c.accounting_overflow ≡ false
      → c.callback_started_count ≡ c.callback_succeeded_count + c.callback_failed_count + to_end p

advance-Balanced :
    (b : Bool) (p : Phase) (c : WorkerContext)
    → Balanced p c
    → Balanced (advance b (p, c)).0 (advance b (p, c)).1
unfolding advance increment_single_writer_atomic accounted
advance-Balanced b p c v = ground (arith, v)

pub after_stores-Balanced : (bs : List Bool) → Balanced (after_stores bs).0 (after_stores bs).1
unfolding after_stores accounted
after_stores-Balanced [] = ground arith
after_stores-Balanced (b ∷ bs) =
    advance-Balanced b (after_stores bs).0 (after_stores bs).1 (after_stores-Balanced bs)

pub record Sum (ws : List (Phase × WorkerContext)) (t : Totals) : Type 0 where
  pub small_dequeued : t.dequeued_count < word_mod
  pub small_started : t.callback_started_count < word_mod
  pub small_succeeded : t.callback_succeeded_count < word_mod
  pub small_failed : t.callback_failed_count < word_mod
  pub small_running : t.currently_running_count < word_mod
  pub exact :
      t.overflow_detected ≡ false
      → (t.dequeued_count ≡ t.callback_started_count + count to_start ws)
        × (t.callback_started_count
            ≡ t.callback_succeeded_count + t.callback_failed_count + count to_end ws)
        × (t.currently_running_count ≡ count in_call ws)

add_worker-Sum :
    {ws : List (Phase × WorkerContext)} {t : Totals} (p : Phase) (c : WorkerContext)
    → Balanced p c
    → Sum ws t
    → Sum ((p, c) ∷ ws) (add_worker c t)
unfolding add_worker add_saturating count
add_worker-Sum p c v s = ground (arith, v, s)

pub add_workers-Sum :
    (o : Bool) (hs : List (List Bool))
    → Sum
        (map after_stores hs)
        (add_workers (map after_stores hs) (record none_yet { overflow_detected = o }))
unfolding add_workers count
add_workers-Sum o [] = ground arith
add_workers-Sum o (h ∷ hs) =
    add_worker-Sum (after_stores h).0 (after_stores h).1 (after_stores-Balanced h)
      (add_workers-Sum o hs)

-- An overflow that is flagged before stays flagged.
pub add_workers-calm :
    (ws : List (Phase × WorkerContext)) (t : Totals)
    → (add_workers ws t).overflow_detected ≡ false
    → t.overflow_detected ≡ false
unfolding add_workers add_worker add_saturating
add_workers-calm [] t e = e
add_workers-calm ((p, c) ∷ ws) t e = add_workers-calm ws t (ground (arith, e))

-- Whatever the workers have done so far (one list of stores for each), a capture during which they store
-- nothing adds up as long as no overflow is flagged: a task that is counted as dequeued is counted as
-- started or about to be; a callback that is counted as started is counted as succeeded or failed or has
-- no outcome yet; and as many are counted as running as workers stand between the two stores of a call.
pub workers_add_up :
    (hs : List (List Bool)) {t : Totals}
    → add_workers (map after_stores hs) none_yet ≡ t
    → t.overflow_detected ≡ false
    → (t.dequeued_count ≡ t.callback_started_count + count to_start (map after_stores hs))
      × (t.callback_started_count
          ≡ t.callback_succeeded_count
            + t.callback_failed_count
            + count to_end (map after_stores hs))
      × (t.currently_running_count ≡ count in_call (map after_stores hs))
workers_add_up hs e calm = (rw e at (add_workers-Sum false hs)).exact calm
