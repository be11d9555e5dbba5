-- ===== src/Scheduler/Release/Created.antt =====
-- `release_workers` of src/scheduler.c does not change how many workers were created.
use concurrent_task_scheduli.Base.{ℕ, zero, suc, ◌≡◌, ◌∙◌, refl, Bool, true, false, arith}
use concurrent_task_scheduli.Scheduler.Crew.{note_joined, note_released}
use concurrent_task_scheduli.Scheduler.Engine.{Engine, during, asks_fault}
use concurrent_task_scheduli.Scheduler.Release.{
  JoinAnswers, ReleaseAnswers, Joining, count_join_failure, note_return, join_one, join_from,
  settle_workers, release_workers,
}

join_one-created :
    (b : Bool) (i : ℕ) (a : JoinAnswers) (j : Joining)
    → (join_one b i a j).engine.crew.created_worker_count ≡ j.engine.crew.created_worker_count
unfolding join_one note_return count_join_failure note_joined asks_fault during
join_one-created b i a j = ground arith

join_from-created :
    (b : Bool) (a : ℕ → JoinAnswers) (n i : ℕ) (j : Joining)
    → (join_from b a n i j).engine.crew.created_worker_count ≡ j.engine.crew.created_worker_count
unfolding join_from
join_from-created b a zero i j = refl
join_from-created b a (suc n) i j =
    join_from-created b a n (suc i) (join_one b i (a i) j) ∙ join_one-created b i (a i) j

pub release_workers-created :
    (b : Bool) (a : ReleaseAnswers) (e : Engine)
    → (release_workers b a e).1.crew.created_worker_count ≡ e.crew.created_worker_count
unfolding release_workers settle_workers note_released
release_workers-created b a e =
    let k =
      join_from-created b a.joins e.crew.started_worker_count 0
        (record { engine = e; has_error = false; all_joined = true }) in
    ground (arith, k)
