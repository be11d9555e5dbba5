-- ===== src/Scheduler/Profiling/Tests.antt =====
-- A scheduler of one worker that has executed two tasks in the profiling build, and is stopped.
use concurrent_task_scheduli.Base.{ℕ, ◌<◌, ◌≡◌, refl, Bool, true, false, none, some, [], ◌∷◌, arith}
use concurrent_task_scheduli.Sync.{SchedSyncResult}
use concurrent_task_scheduli.TaskQueue.{TaskQueue, enqueue, dequeue, is_empty, is_full}
use concurrent_task_scheduli.Scheduler.{stopped, is_state}
use concurrent_task_scheduli.Scheduler.Profiling.{
  Profiling, scheduler_profiling_snapshot, stopped_profile_adds_up,
}
use concurrent_task_scheduli.ConcurrentQueue.Put.{attempt_put}
use concurrent_task_scheduli.ConcurrentQueue.Take.{attempt_take, leave_not_empty}
use concurrent_task_scheduli.ConcurrentQueue.Profile.{
  profiling_add, profiling_inferred_contended, profiling_record_duration,
  profiling_record_occupancy,
}
use concurrent_task_scheduli.ConcurrentQueue.Profile.Record.{calls, returns}
use concurrent_task_scheduli.ConcurrentQueue.Profile.Record.Locked.{
  Profiled, put_part, take_part, shutdown_part, concurrent_task_queue_profiling_snapshot,
}
use concurrent_task_scheduli.ConcurrentQueue.Profile.Record.Gains.{Fits}
use concurrent_task_scheduli.ConcurrentQueue.Profile.Record.Reached.{
  opened_queue, Recorded, starts, puts, takes, shuts_down, Consistent,
}

abbrev one_cell : TaskQueue
one_cell = record { items = some (none ∷ []); capacity = 1; size = 0; head = 0; tail = 0 }

-- A worker waits on the empty queue.
abbrev asleep : Profiled
asleep = take_part true 0 (calls (some 1) (some 2)) (some 3) (opened_queue one_cell 10000000)

-- A task comes, the worker takes it, another comes and goes, and the queue is shut down.
abbrev woken : Profiled
woken = put_part true (calls (some 4) (some 5)) none 7 asleep

abbrev busy : Profiled
busy = take_part true 0 (returns 3 (some 6)) none woken

abbrev worked : Profiled
worked = shutdown_part (
    take_part true 0 (calls (some 10) (some 11)) none
      (put_part true (calls (some 7) (some 9)) none 8 busy))

one_cell-Fits : Fits one_cell
unfolding Fits
one_cell-Fits = ground arith

one_sleeps : woken.shared.waiting_consumers ≡ 1
unfolding put_part take_part attempt_put attempt_take is_empty is_full enqueue dequeue
one_sleeps = refl

not_waited : {b : Bool} {n : ℕ} → b ≡ false → b ≡ true → 0 < n
not_waited h h' = ground (arith, h, h')

worked-Recorded : Recorded true worked
worked-Recorded =
    let sleeps : Recorded true asleep =
      takes 0 _ _ (not_waited refl) (starts 10000000 one_cell-Fits refl) in
    let wakes : Recorded true woken = puts _ _ _ (not_waited refl) sleeps in
    let works : Recorded true busy =
      takes 0 _ _ (λ h. let p = one_sleeps in ground (arith, p)) wakes in
    shuts_down (takes 0 _ _ (not_waited refl) (puts _ _ _ (not_waited refl) works))

abbrev at_rest : Profiling
at_rest = record { state = stopped; worker_count = 1; queue = some worked }

stopped_profile_adds_up_example :
    (is_state stopped stopped ≡ true)
    × Consistent worked.shared (record worked.profile { worker_count = 1 })
unfolding scheduler_profiling_snapshot concurrent_task_queue_profiling_snapshot put_part take_part
    shutdown_part attempt_put attempt_take leave_not_empty is_empty is_full enqueue dequeue
    profiling_add profiling_inferred_contended profiling_record_duration profiling_record_occupancy
stopped_profile_adds_up_example =
    stopped_profile_adds_up SchedSyncResult.ok SchedSyncResult.ok at_rest worked-Recorded refl refl
      refl
