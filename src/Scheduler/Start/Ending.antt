-- ===== src/Scheduler/Start/Ending.antt =====
-- How a start of src/scheduler.c may end, and what holds while it goes on.
use concurrent_task_scheduli.Base.{
  ℕ, ◌≤◌, ◌≡◌, ◌≢◌, refl, Bool, true, false, none, arith, if◌then◌else◌,
}
use concurrent_task_scheduli.Sync.{has_failed}
use concurrent_task_scheduli.Fault.{FaultPoint}
use concurrent_task_scheduli.Scheduler.{SchedulerResult, ok, initialized, starting, running, failed}
use concurrent_task_scheduli.Scheduler.Engine.{
  Engine, Meanwhile, during, Outcome, goes, waits, ends, Steps, asks_fault,
}
use concurrent_task_scheduli.Scheduler.Start.{StartAnswers}

-- A scheduler whose `n` workers are all created.
pub record Manned (n : ℕ) (e : Engine) : Type 0 where
  pub created : e.crew.created_worker_count ≡ n
  pub started : e.crew.started_worker_count ≡ n
  pub set_up : e.worker_sync_initialized ≡ true

-- The scheduler holds no arrays, and has as many active submitters as `w`.
pub record Empty (w e : Engine) : Type 0 where
  pub threads : e.threads ≡ none
  pub contexts : e.worker_contexts ≡ none
  pub active : e.lifecycle.active_submitter_count ≡ w.lifecycle.active_submitter_count

-- Every thread that a failed start has to join is joined, the release's lock succeeds, and so does the
-- last unlock of the start.
pub record IsClean (a : StartAnswers) : Type 0 where
  pub joins : (i : ℕ) → has_failed (a.release.joins i).join ≡ false
  pub lock : has_failed a.release.lock ≡ false
  pub unlock : has_failed a.run_unlock ≡ false

-- A start of `w` that has failed: the state is as before, or FAILED.
pub data Undone (a : StartAnswers) (w e : Engine) : Type 0 where
  as_before : e.lifecycle.state ≡ initialized → Empty w e → Undone a w e
  has_failed_state : e.lifecycle.state ≡ failed → (IsClean a → Empty w e) → Undone a w e

-- How some steps of a start of `w` end, where `P` holds if they go on.
pub data Ends (a : StartAnswers) (w : Engine) (P : Engine → Type 0) : Outcome → Type 0 where
  passes : {e : Engine} → P e → Ends a w P (goes e)
  stays :
      {e : Engine} → e.lifecycle.state ≡ starting → Manned w.worker_count e → Ends a w P (waits e)
  succeeds :
      {e : Engine}
      → e.lifecycle.state ≡ running
      → Manned w.worker_count e
      → w.worker_count ≤ e.crew.ready_worker_count
      → Ends a w P (ends ok e)
  fails : {r : SchedulerResult} {e : Engine} → r ≢ ok → Undone a w e → Ends a w P (ends r e)

module _ {a : StartAnswers} {w : Engine} {P : Engine → Type 0} where
  -- Steps that may follow others.
  pub Ends-next :
      {Q : Engine → Type 0} (k : Steps) {o : Outcome}
      → Ends a w P o
      → ((e : Engine) → P e → Ends a w Q (k e))
      → Ends a w Q (elim o [ goes e ↦ k e | waits e ↦ waits e | ends r e ↦ ends r e ])
  Ends-next k (passes {e = e} p) f = f e p
  Ends-next k (stays s m) f = stays s m
  Ends-next k (succeeds s m r) f = succeeds s m r
  Ends-next k (fails d u) f = fails d u

  pub Ends-if :
      (c : Bool) {x y : Outcome}
      → (c ≡ true → Ends a w P x)
      → (c ≡ false → Ends a w P y)
      → Ends a w P (if c then x else y)
  Ends-if true p q = p refl
  Ends-if false p q = q refl

-- The scheduler while a start of `w` goes on, with `i` workers created.
pub record Starting (w : Engine) (i : ℕ) (e : Engine) : Type 0 where
  pub state : e.lifecycle.state ≡ starting
  pub workers : e.worker_count ≡ w.worker_count
  pub active : e.lifecycle.active_submitter_count ≡ w.lifecycle.active_submitter_count
  pub created : e.crew.created_worker_count ≡ i
  pub started : e.crew.started_worker_count ≡ i

pub during-Starting :
    {w : Engine} {i : ℕ} (m : Meanwhile) (e : Engine) → Starting w i e → Starting w i (during m e)
unfolding during
during-Starting m e s = record {
  state = s.state;
  workers = s.workers;
  active = ground (arith, s.active, s.state);
  created = s.created;
  started = s.started;
}

pub asks_fault-Starting :
    {w : Engine} {i : ℕ} (b : Bool) (p : FaultPoint) (e : Engine)
    → Starting w i e
    → Starting w i (asks_fault b p e).1
unfolding asks_fault
asks_fault-Starting b p e s = ground (arith, s)

-- The same with the worker mutex set up.
pub record Spawned (w : Engine) (i : ℕ) (e : Engine) : Type 0 where
  pub base : Starting w i e
  pub set_up : e.worker_sync_initialized ≡ true

pub during-Spawned :
    {w : Engine} {i : ℕ} (m : Meanwhile) (e : Engine) → Spawned w i e → Spawned w i (during m e)
unfolding during
during-Spawned m e s = record { base = during-Starting m e s.base; set_up = s.set_up }

pub asks_fault-Spawned :
    {w : Engine} {i : ℕ} (b : Bool) (p : FaultPoint) (e : Engine)
    → Spawned w i e
    → Spawned w i (asks_fault b p e).1
unfolding asks_fault
asks_fault-Spawned b p e s = ground (arith, s)

pub Spawned-Manned :
    {w : Engine} {e : Engine} → Spawned w w.worker_count e → Manned w.worker_count e
Spawned-Manned s = record { created = s.base.created; started = s.base.started; set_up = s.set_up }

-- A scheduler that has just been set up.
pub record IsFresh (e : Engine) : Type 0 where
  pub state : e.lifecycle.state ≡ initialized
  pub threads : e.threads ≡ none
  pub contexts : e.worker_contexts ≡ none
  pub created : e.crew.created_worker_count ≡ 0
  pub started : e.crew.started_worker_count ≡ 0

pub during-threads : (m : Meanwhile) (e : Engine) → (during m e).threads ≡ e.threads
unfolding during
during-threads m e = refl

pub during-contexts :
    (m : Meanwhile) (e : Engine) → e.worker_contexts ≡ none → (during m e).worker_contexts ≡ none
unfolding during
during-contexts m e h = ground (arith, h)
