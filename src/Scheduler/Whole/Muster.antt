-- ===== src/Scheduler/Whole/Muster.antt =====
-- The crew's counts of a scheduler of src/scheduler.c at work are counts over its workers.
use concurrent_task_scheduli.Base.{
  ℕ, ◌+◌, ◌<◌, ◌≡◌, some, List, [], ◌∷◌, length, length-append, length-set, get_elem?, set, false,
  Bool, ◌≤◌, arith, word_mod,
}
use concurrent_task_scheduli.TaskQueue.{TaskQueue}
use concurrent_task_scheduli.ConcurrentQueue.Take.{Take}
use concurrent_task_scheduli.Scheduler.{increment_saturating}
use concurrent_task_scheduli.Scheduler.Crew.{note_created, note_ready, note_exit, note_joined}
use concurrent_task_scheduli.Scheduler.Whole.{
  begin, created, serving, told, ended, Worker, IsAsking, answer, new_worker, Whole, Step,
  calls_move, puts, leaves, queue_moves, fetches, stores, creates, begins, exits, joins,
}
use concurrent_task_scheduli.Scheduler.Whole.Team.{sum, sum-set, sum-append}

abbrev pub is_new : Worker → ℕ
is_new w = elim w.stage [ created ↦ 1 | serving ↦ 0 | told ↦ 0 | ended ↦ 0 ]

-- It has begun and has not left `record_worker_exit`.
abbrev pub is_active : Worker → ℕ
is_active w = elim w.stage [ created ↦ 0 | serving ↦ 1 | told ↦ 1 | ended ↦ 0 ]

pub record Mustered (workers : ℕ) (y : Whole) : Type 0 where
  pub few : y.crew.crew.created_worker_count ≡ length y.workers
  pub room : length y.workers ≤ workers
  pub started : y.crew.crew.started_worker_count ≡ length y.workers
  pub waiting : sum is_new y.workers ≡ y.crew.created
  pub active : sum is_active y.workers ≡ y.crew.serving
  pub startup : y.crew.crew.worker_startup_failure_count ≡ 0
  pub good : y.crew.ended_badly + y.crew.joined_badly ≡ 0

-- A worker of the list is changed.
module _ {workers : ℕ} {y : Whole} (lt : workers < word_mod) (m : Mustered workers y) (i : ℕ)
    {w : Worker} (e : get_elem? y.workers i ≡ some w) where
  abbrev put : Worker → List Worker
  put v = set y.workers i v

  tallies :
      (v : Worker)
      → (length (put v) ≡ length y.workers)
        × (sum is_new (put v) + is_new w ≡ sum is_new y.workers + is_new v)
        × (sum is_active (put v) + is_active w ≡ sum is_active y.workers + is_active v)
  tallies v = (
    length-set y.workers i v,
    sum-set is_new y.workers i w v e,
    sum-set is_active y.workers i w v e,
  )

answer-counts :
    (t : Take) {w : Worker}
    → IsAsking w
    → (is_new (answer t w) ≡ is_new w) × (is_active (answer t w) ≡ is_active w)
unfolding answer
answer-counts t a = ground (arith, a)

pub Step-Mustered :
    {threads workers : ℕ} {tr : Bool} {y z : Whole}
    → workers < word_mod
    → Step threads workers tr y z
    → Mustered workers y
    → Mustered workers z
unfolding note_created note_ready note_exit note_joined increment_saturating
Step-Mustered lt (calls_move s h) m = ground (arith, m)
Step-Mustered lt (puts t s a e h) m = ground (arith, m)
Step-Mustered lt (leaves r e w a h) m = ground (arith, m)
Step-Mustered lt (queue_moves s a e) m = ground (arith, m)
Step-Mustered lt (fetches i w {t = t} g a e c v n) m =
    let k = answer-counts t a in let l = tallies lt m i g (answer t w) in omega (arith, m, k, l)
Step-Mustered lt (stores i w b g u v) m =
    let l = tallies lt m i g (record w { history = b ∷ w.history; holding = false }) in
    omega (arith, m, l)
Step-Mustered {y = y} lt (creates h) m =
    let l = length-append y.workers (new_worker ∷ []) in
    let a = sum-append is_new y.workers new_worker in
    let b = sum-append is_active y.workers new_worker in ground (arith, m, l, a, b, h)
Step-Mustered lt (begins i w g u e) m =
    let l = tallies lt m i g (record w { stage = serving }) in ground (arith, m, l, u, e)
Step-Mustered lt (exits i w g u e) m =
    let l = tallies lt m i g (record w { stage = ended }) in ground (arith, m, l, u, e)
Step-Mustered lt (joins e) m = ground (arith, m)

pub begin-Mustered : (workers : ℕ) (q : TaskQueue) (n : ℕ) → Mustered workers (begin q n)
unfolding sum
begin-Mustered workers q n = ground arith
