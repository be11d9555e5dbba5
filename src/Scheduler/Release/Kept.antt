-- ===== src/Scheduler/Release/Kept.antt =====
-- What `release_workers` of src/scheduler.c leaves as it is, and when it frees the arrays.
use concurrent_task_scheduli.Base.{
  ℕ, zero, suc, ◌≡◌, ◌≢◌, refl, Bool, true, false, arith, if◌then◌else◌,
}
use concurrent_task_scheduli.Sync.{SchedSyncResult}
use concurrent_task_scheduli.Fault.{FaultPoint, worker_join}
use concurrent_task_scheduli.Scheduler.{running}
use concurrent_task_scheduli.Scheduler.Crew.{Crew, note_joined}
use concurrent_task_scheduli.Scheduler.Engine.{Engine, Meanwhile, during, asks_fault}
use concurrent_task_scheduli.Scheduler.Release.{
  JoinAnswers, ReleaseAnswers, Joining, count_join_failure, note_return, join_one, join_from,
  settle_workers, release_workers,
}

-- The state stays, and so does the number of active submitters unless the scheduler runs.
pub record Calm (e e' : Engine) : Type 0 where
  pub state : e'.lifecycle.state ≡ e.lifecycle.state
  pub active :
      e.lifecycle.state ≢ running
      → e'.lifecycle.active_submitter_count ≡ e.lifecycle.active_submitter_count
  pub workers : e'.worker_count ≡ e.worker_count
  pub set_up : e'.worker_sync_initialized ≡ e.worker_sync_initialized

pub Calm-trans : {d e f : Engine} → Calm d e → Calm e f → Calm d f
Calm-trans x y = ground (arith, x, y)

pub during-Calm : (m : Meanwhile) (e : Engine) → Calm e (during m e)
unfolding during
during-Calm m e = record {
  state = refl;
  active = λ h. ground (arith, h);
  workers = refl;
  set_up = refl;
}

pub asks_fault-Calm : (b : Bool) (p : FaultPoint) (e : Engine) → Calm e (asks_fault b p e).1
unfolding asks_fault
asks_fault-Calm true p e = record {
  state = refl;
  active = λ h. refl;
  workers = refl;
  set_up = refl;
}
asks_fault-Calm false p e = record {
  state = refl;
  active = λ h. refl;
  workers = refl;
  set_up = refl;
}

count_join_failure-Calm : (l : SchedSyncResult) (e : Engine) → Calm e (count_join_failure l e)
unfolding count_join_failure
count_join_failure-Calm l e = ground arith

pub Calm-if : (b : Bool) {d e f : Engine} → Calm d e → Calm d f → Calm d (if b then e else f)
Calm-if true x y = x
Calm-if false x y = y

pub Calm-refl : (e : Engine) → Calm e e
Calm-refl e = record { state = refl; active = λ h. refl; workers = refl; set_up = refl }

crew-Calm : {d e : Engine} (c : Crew) → Calm d e → Calm d (record e { crew = c })
crew-Calm c x = record {
  state = x.state;
  active = x.active;
  workers = x.workers;
  set_up = x.set_up;
}

note_return-Calm :
    (b : Bool) (a : JoinAnswers) (j : Joining) → Calm j.engine (note_return b a j).engine
unfolding note_return
note_return-Calm b a j =
    let (fault, asked) = asks_fault b worker_join j.engine in
    let first = asks_fault-Calm b worker_join j.engine in
    let second = Calm-if fault (Calm-trans first (count_join_failure-Calm a.lock asked)) first in
    Calm-if _ (crew-Calm (note_joined a.returned _) second) second

join_one-Calm :
    (b : Bool) (i : ℕ) (a : JoinAnswers) (j : Joining) → Calm j.engine (join_one b i a j).engine
unfolding join_one
join_one-Calm b i a j = ground (
  arith,
  Calm-refl j.engine,
  Calm-trans (during-Calm a.meanwhile j.engine)
      (count_join_failure-Calm a.lock (during a.meanwhile j.engine)),
  Calm-trans (during-Calm a.meanwhile j.engine)
      (note_return-Calm b a (record j { engine = during a.meanwhile j.engine })),
)

join_from-Calm :
    (b : Bool) (a : ℕ → JoinAnswers) (n i : ℕ) (j : Joining)
    → Calm j.engine (join_from b a n i j).engine
unfolding join_from
join_from-Calm b a zero i j = Calm-refl j.engine
join_from-Calm b a (suc n) i j =
    Calm-trans (join_one-Calm b i (a i) j) (join_from-Calm b a n (suc i) (join_one b i (a i) j))

pub release_workers-Calm :
    (b : Bool) (a : ReleaseAnswers) (e : Engine) → Calm e (release_workers b a e).1
unfolding release_workers settle_workers
release_workers-Calm b a e = ground (
  arith,
  join_from-Calm b a.joins e.crew.started_worker_count 0
      (record { engine = e; has_error = false; all_joined = true }),
)
