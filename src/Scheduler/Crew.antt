-- ===== src/Scheduler/Crew.antt =====
-- The workers of src/scheduler.c as the worker mutex sees them: how `scheduler_start` counts a thread it
-- creates, `scheduler_worker_entry` one that begins, `record_worker_exit` one that ends, and
-- `release_workers` one that is joined.
pub mod Counted
use concurrent_task_scheduli.Base.{
  ℕ, suc, ◌<◌, ◌≡◌, Bool, true, false, ◌==◌, if◌then◌else◌, add_word, sub_word,
}
use concurrent_task_scheduli.Sync.{SchedSyncResult, has_failed}
use concurrent_task_scheduli.Scheduler.{increment_saturating}

pub data WorkerResult : Type 0 where
  result_ok result_invalid_context result_synchronization result_queue : WorkerResult

abbrev pub is_result_ok : WorkerResult → Bool
is_result_ok result_ok = true
is_result_ok r = false

-- The fields of SchedulerImplementation that the worker mutex protects, besides the arrays of threads and slots and
-- the sums of the slots.
pub record Crew : Type 0 where
  pub started_worker_count : ℕ
  pub created_worker_count : ℕ
  pub ready_worker_count : ℕ
  pub active_worker_count : ℕ
  pub joined_worker_count : ℕ
  pub worker_startup_failure_count : ℕ
  pub worker_runtime_failure_count : ℕ
  pub worker_accounting_overflow : Bool
  pub worker_infrastructure_failure : Bool

-- A thread is created.
unfoldable pub note_created : Crew → Crew
note_created c = record c {
  started_worker_count = add_word c.started_worker_count 1;
  created_worker_count = add_word c.created_worker_count 1;
}

-- Creating a thread has failed.
unfoldable pub note_startup_failure : Crew → Crew
unfolding increment_saturating
note_startup_failure c =
    let (n, o) = increment_saturating c.worker_startup_failure_count c.worker_accounting_overflow in
    record c { worker_startup_failure_count = n; worker_accounting_overflow = o }

-- `scheduler_worker_entry` in its first locked part.
unfoldable pub note_ready : Crew → Crew
note_ready c = record c {
  active_worker_count = add_word c.active_worker_count 1;
  ready_worker_count = add_word c.ready_worker_count 1;
}

-- A runtime failure of a worker.
unfoldable pub note_failure : Crew → Crew
unfolding increment_saturating
note_failure c =
    let (n, o) = increment_saturating c.worker_runtime_failure_count c.worker_accounting_overflow in
    record c {
      worker_runtime_failure_count = n;
      worker_accounting_overflow = o;
      worker_infrastructure_failure = true;
    }

-- `record_worker_exit` under the lock.
unfoldable pub note_exit : WorkerResult → Crew → WorkerResult × Crew
unfolding note_failure
note_exit r c =
    let less = record c { active_worker_count = sub_word c.active_worker_count 1 } in
    if c.active_worker_count == 0
    then (result_synchronization, note_failure (note_failure c))
    else (r, if is_result_ok r then less else note_failure less)

unfoldable pub record_worker_exit :
    SchedSyncResult → SchedSyncResult → WorkerResult → Crew → WorkerResult × Crew
unfolding note_exit
record_worker_exit lock unlock r c =
    let (r', c') = note_exit r c in
    if has_failed lock
    then (result_synchronization, c)
    else (if has_failed unlock then result_synchronization else r', c')

-- `release_workers` has joined a thread that ended with the result `r`.
unfoldable pub note_joined : WorkerResult → Crew → Crew
note_joined r c =
    if is_result_ok r
    then record c { joined_worker_count = add_word c.joined_worker_count 1 }
    else c

-- `release_workers` in its last locked part.
unfoldable pub note_released : Crew → Crew
note_released c = record c { started_worker_count = 0; ready_worker_count = 0 }

-- calloc
abbrev pub no_crew : Crew
no_crew = record {
  started_worker_count = 0;
  created_worker_count = 0;
  ready_worker_count = 0;
  active_worker_count = 0;
  joined_worker_count = 0;
  worker_startup_failure_count = 0;
  worker_runtime_failure_count = 0;
  worker_accounting_overflow = false;
  worker_infrastructure_failure = false;
}

-- The threads: created and not begun, serving, ended well or badly and not joined, joined.
pub record Threads : Type 0 where
  pub crew : Crew
  pub created : ℕ
  pub serving : ℕ
  pub ended_well : ℕ
  pub ended_badly : ℕ
  pub joined_well : ℕ
  pub joined_badly : ℕ

-- One locked part; the platform's calls succeed but for the creation of threads. `workers` is
-- `worker_count`.
pub data Step (workers : ℕ) (y : Threads) : Threads → Type 0 where
  creates :
      y.crew.created_worker_count < workers
      → Step workers y (record y { crew = note_created y.crew; created = suc y.created })
  creates_none : Step workers y (record y { crew = note_startup_failure y.crew })
  begins :
      {n : ℕ}
      → y.created ≡ suc n
      → Step workers y (record y { crew = note_ready y.crew; created = n; serving = suc y.serving })
  ends_well :
      {n : ℕ}
      → y.serving ≡ suc n
      → Step workers y (record y {
        crew = (note_exit result_ok y.crew).1;
        serving = n;
        ended_well = suc y.ended_well;
      })
  ends_badly :
      {n : ℕ} (r : WorkerResult)
      → y.serving ≡ suc n
      → is_result_ok r ≡ false
      → Step workers y
          (record y { crew = (note_exit r y.crew).1; serving = n; ended_badly = suc y.ended_badly })
  joins_well :
      {n : ℕ}
      → y.ended_well ≡ suc n
      → Step workers y (record y {
        crew = note_joined result_ok y.crew;
        ended_well = n;
        joined_well = suc y.joined_well;
      })
  joins_badly :
      {n : ℕ} (r : WorkerResult)
      → y.ended_badly ≡ suc n
      → is_result_ok r ≡ false
      → Step workers y (record y {
        crew = note_joined r y.crew;
        ended_badly = n;
        joined_badly = suc y.joined_badly;
      })
  releases :
      y.created ≡ 0
      → y.serving ≡ 0
      → y.ended_well ≡ 0
      → y.ended_badly ≡ 0
      → Step workers y (record y { crew = note_released y.crew })

abbrev pub nobody : Threads
nobody = record {
  crew = no_crew;
  created = 0;
  serving = 0;
  ended_well = 0;
  ended_badly = 0;
  joined_well = 0;
  joined_badly = 0;
}

pub data Reach (workers : ℕ) (y : Threads) : Threads → Type 0 where
  here : Reach workers y y
  next : {z w : Threads} → Reach workers y z → Step workers z w → Reach workers y w
