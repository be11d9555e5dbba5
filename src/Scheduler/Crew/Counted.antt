-- ===== src/Scheduler/Crew/Counted.antt =====
-- The counters of the worker mutex of src/scheduler.c count the workers.
use concurrent_task_scheduli.Base.{ℕ, ◌+◌, ◌≤◌, ◌<◌, ◌≡◌, false, arith, word_mod}
use concurrent_task_scheduli.Scheduler.{increment_saturating}
use concurrent_task_scheduli.Scheduler.Crew.{
  note_created, note_startup_failure, note_ready, note_failure, note_exit, note_joined,
  note_released, Threads, Step, creates, creates_none, begins, ends_well, ends_badly, joins_well,
  joins_badly, releases, Reach, here, next, nobody,
}

pub record Counted (workers : ℕ) (y : Threads) : Type 0 where
  pub all :
      y.crew.created_worker_count
      ≡ y.created + y.serving + y.ended_well + y.ended_badly + y.joined_well + y.joined_badly
  pub few : y.crew.created_worker_count ≤ workers
  pub active : y.crew.active_worker_count ≡ y.serving
  pub ready : y.crew.ready_worker_count + y.created ≤ y.crew.created_worker_count
  pub joined : y.crew.joined_worker_count ≡ y.joined_well
  pub small : y.crew.worker_runtime_failure_count < word_mod
  pub failures :
      y.crew.worker_accounting_overflow ≡ false
      → y.crew.worker_runtime_failure_count ≡ y.ended_badly + y.joined_badly
  pub flagged : y.crew.worker_infrastructure_failure ≡ false → y.ended_badly + y.joined_badly ≡ 0

Step-Counted :
    {workers : ℕ} {y z : Threads}
    → workers < word_mod
    → Counted workers y
    → Step workers y z
    → Counted workers z
unfolding note_created note_startup_failure note_ready note_failure note_exit note_joined
    note_released increment_saturating
Step-Counted lt c (creates room) = ground (arith, c)
Step-Counted lt c creates_none = ground (arith, c)
Step-Counted lt c (begins e) = ground (arith, c)
Step-Counted lt c (ends_well e) = ground (arith, c)
Step-Counted lt c (ends_badly r e bad) = ground (arith, c)
Step-Counted lt c (joins_well e) = ground (arith, c)
Step-Counted lt c (joins_badly r e bad) = ground (arith, c)
Step-Counted lt c (releases e f g h) = ground (arith, c)

nobody-Counted : (workers : ℕ) → Counted workers nobody
nobody-Counted workers = ground arith

pub Reach-Counted :
    {workers : ℕ} {y : Threads} → workers < word_mod → Reach workers nobody y → Counted workers y
Reach-Counted {workers} lt here = nobody-Counted workers
Reach-Counted lt (next r s) = Step-Counted lt (Reach-Counted lt r) s

-- In every state that the workers of one scheduler reach, the active ones are those that serve, the
-- joined ones those that were joined after a good end, at most `worker_count` are created, and no more
-- are ready, or active and joined together, than created. Each bad end counts as one failure as long as
-- no counter overflows, and without the failure flag there was none.
pub workers_counted :
    {workers : ℕ} {y : Threads}
    → workers < word_mod
    → Reach workers nobody y
    → (y.crew.active_worker_count ≡ y.serving)
      × (y.crew.joined_worker_count ≡ y.joined_well)
      × (y.crew.created_worker_count ≤ workers)
      × (y.crew.ready_worker_count ≤ y.crew.created_worker_count)
      × (y.crew.active_worker_count + y.crew.joined_worker_count ≤ y.crew.created_worker_count)
      × (y.crew.worker_accounting_overflow ≡ false
          → y.crew.worker_runtime_failure_count ≡ y.ended_badly + y.joined_badly)
      × (y.crew.worker_infrastructure_failure ≡ false → y.ended_badly + y.joined_badly ≡ 0)
workers_counted lt r =
    let c = Reach-Counted lt r in
    (c.active, c.joined, c.few, omega (arith, c), omega (arith, c), c.failures, c.flagged)
