-- ===== src/Scheduler/Whole/Team.antt =====
-- The workers of one scheduler of src/scheduler.c as a list: sums over them, and what holds of each.
use concurrent_task_scheduli.Base.{
  ℕ, zero, suc, ◌+◌, ◌<◌, ◌≡◌, Bool, true, false, not, ◌||◌, some, List, [], ◌∷◌, ◌++◌, get_elem?,
  set, if◌then◌else◌, arith, word_mod,
}
use concurrent_task_scheduli.ConcurrentQueue.Take.{Take}
use concurrent_task_scheduli.Scheduler.Worker.{
  Phase, WorkerContext, increment_single_writer_atomic, advance, after_stores,
}
use concurrent_task_scheduli.Scheduler.Worker.Balance.{after_stores-Balanced}
use concurrent_task_scheduli.Scheduler.Whole.{
  Stage, serving, Worker, is_serving, is_fetching, phase, slot, IsAsking, answer, new_worker,
}

unfoldable pub sum : (Worker → ℕ) → List Worker → ℕ
sum f [] = 0
sum f (w ∷ ws) = f w + sum f ws

pub sum-set :
    (f : Worker → ℕ) (ws : List Worker) (i : ℕ) (w w' : Worker)
    → get_elem? ws i ≡ some w
    → sum f (set ws i w') + f w ≡ sum f ws + f w'
unfolding sum
sum-set f [] i w w' e = ground arith
sum-set f (v ∷ ws) zero w w' e = ground arith
sum-set f (v ∷ ws) (suc i) w w' e = omega (arith, sum-set f ws i w w' e)

pub sum-append :
    (f : Worker → ℕ) (ws : List Worker) (w : Worker) → sum f (ws ++ w ∷ []) ≡ sum f ws + f w
unfolding sum
sum-append f [] w = omega arith
sum-append f (v ∷ ws) w = omega (arith, sum-append f ws w)

-- A worker that is not in its loop, or is about to ask the queue, has an outcome for each task it has
-- counted; and it has counted the tasks that the queue has given to it, but for the one it holds.
pub record IsSteady (w : Worker) : Type 0 where
  pub idle : is_serving w.stage ≡ false → (is_fetching (phase w) ≡ true) × (w.holding ≡ false)
  pub held : w.holding ≡ true → is_fetching (phase w) ≡ true
  pub exact :
      (slot w).accounting_overflow ≡ false
      → (slot w).dequeued_count + (if w.holding then 1 else 0) ≡ w.fetched

abbrev pub AllSteady : List Worker → Type 0
AllSteady [] = Unit {0}
AllSteady (w ∷ ws) = IsSteady w × AllSteady ws

pub get-IsSteady :
    (ws : List Worker) (i : ℕ) {w : Worker} → AllSteady ws → get_elem? ws i ≡ some w → IsSteady w
get-IsSteady [] i a e = ground arith
get-IsSteady (v ∷ ws) zero a e = ground (arith, a)
get-IsSteady (v ∷ ws) (suc i) a e = get-IsSteady ws i a.1 e

pub set-AllSteady :
    (ws : List Worker) (i : ℕ) {w : Worker} → AllSteady ws → IsSteady w → AllSteady (set ws i w)
set-AllSteady [] i a s = tt
set-AllSteady (v ∷ ws) zero a s = (s, a.1)
set-AllSteady (v ∷ ws) (suc i) a s = (a.0, set-AllSteady ws i a.1 s)

pub append-AllSteady :
    (ws : List Worker) {w : Worker} → AllSteady ws → IsSteady w → AllSteady (ws ++ w ∷ [])
append-AllSteady [] a s = (s, tt)
append-AllSteady (v ∷ ws) a s = (a.0, append-AllSteady ws a.1 s)

pub new-IsSteady : IsSteady new_worker
unfolding after_stores
new-IsSteady = ground arith

-- The queue answers a worker that asks.
pub answer-IsSteady : (t : Take) {w : Worker} → IsAsking w → IsSteady w → IsSteady (answer t w)
unfolding answer
answer-IsSteady t a s = ground (arith, a, s)

-- One store moves the counter of tasks exactly where the worker stands before its call of the queue.
store_dequeued :
    (b : Bool) (p : Phase) (c : WorkerContext)
    → c.dequeued_count < word_mod
    → (advance b (p, c)).1.accounting_overflow ≡ false
    → (c.accounting_overflow ≡ false)
      × ((advance b (p, c)).1.dequeued_count ≡ c.dequeued_count + (if is_fetching p then 1 else 0))
unfolding advance increment_single_writer_atomic
store_dequeued b p c lt calm = ground arith

pub store-IsSteady :
    (b : Bool) {w : Worker}
    → w.stage ≡ serving
    → (not (is_fetching (phase w)) || w.holding) ≡ true
    → IsSteady w
    → IsSteady (record w { history = b ∷ w.history; holding = false })
unfolding after_stores
store-IsSteady b {w} u h s = record {
  idle = λ e. ground (arith, u, e);
  held = λ e. ground (arith, e);
  exact = λ e.
      let small = (after_stores-Balanced w.history).small.dequeued in
      let d = store_dequeued b (phase w) (slot w) small e in ground (arith, d, h, s);
}

pub stage-IsSteady :
    (st : Stage) {w : Worker}
    → is_serving w.stage ≡ false
    → IsSteady w
    → IsSteady (record w { stage = st })
stage-IsSteady st u s = ground (arith, u, s)
