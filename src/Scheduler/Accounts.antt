-- ===== src/Scheduler/Accounts.antt =====
-- How one submission of src/scheduler.c is counted, with the failures of the synchronization layer.
use concurrent_task_scheduli.Base.{
  ℕ, ◌+◌, ◌≤◌, ◌<◌, ◌≡◌, if◌then◌else◌, Bool, true, false, some, arith, word_max, not, ◌&&◌, ◌||◌,
  ◌==◌,
}
use concurrent_task_scheduli.Sync
use concurrent_task_scheduli.Sync.{SchedSyncResult, has_failed}
use concurrent_task_scheduli.ConcurrentQueue.{ConcurrentTaskQueueResult, Answers}
use concurrent_task_scheduli.ConcurrentQueue.Put.{concurrent_task_queue_try_enqueue}
use concurrent_task_scheduli.Scheduler.{
  SchedulerResult, ok, running, is_state, Lifecycle, Implementation, increment_saturating,
  map_try_enqueue_result,
}
use concurrent_task_scheduli.Scheduler.Submit.{
  SubmitAnswers, register, enter, settle, leave, register_submitter, deregister_submitter,
  scheduler_try_submit,
}

abbrev pub is_ok : SchedulerResult → Bool
is_ok ok = true
is_ok r = false

-- `register_submitter` with a task on a scheduler that is set up and has fewer than 2 ^ 64 - 1 active
-- submitters. It succeeds exactly where both locks do and the scheduler runs. One more submitter is
-- active exactly where the lock succeeds and the scheduler runs, otherwise their number stays: so where
-- only the unlock fails, the submitter stays registered although its caller is told otherwise. The queue is
-- left alone.
pub register_submitter_lem :
    (lock unlock : SchedSyncResult) (i : Implementation) (task : ℕ)
    → i.lifecycle.active_submitter_count < word_max
    → {r : SchedulerResult} {j : Implementation}
    → register_submitter lock unlock (some (some i)) (some task) ≡ (r, some (some j))
    → (is_ok r
        ≡ (not (has_failed lock) && is_state i.lifecycle.state running && not (has_failed unlock)))
      × (j.lifecycle.active_submitter_count
          ≡ i.lifecycle.active_submitter_count
            + (if not (has_failed lock) && is_state i.lifecycle.state running then 1 else 0))
      × (j.queue ≡ i.queue)
unfolding register_submitter register enter increment_saturating
register_submitter_lem lock unlock i task room e = ground (arith, e)

-- The counters are 64-bit numbers, and one more submitter can be counted.
pub record AreWords (s : Lifecycle) : Type 0 where
  pub submitted : s.submitted_count ≤ word_max
  pub accepted : s.accepted_count ≤ word_max
  pub rejected : s.rejected_count ≤ word_max
  pub active : s.active_submitter_count < word_max

-- A submission whose locks succeed, with nothing else going on. What the queue's part of the platform, the
-- last broadcast and the last unlock answer is left open.
abbrev pub alone : Answers → SchedSyncResult → SchedSyncResult → SubmitAnswers
alone queue broadcast last_unlock = record {
  lock = Sync.ok;
  unlock = Sync.ok;
  before_queue = λ i. i;
  queue = queue;
  after_queue = λ i. i;
  relock = Sync.ok;
  broadcast = broadcast;
  last_unlock = last_unlock;
}

abbrev queue_answer : Answers → Bool → Implementation → ℕ → ConcurrentTaskQueueResult
queue_answer answers transition i task =
    (concurrent_task_queue_try_enqueue transition answers (some i.queue) (some task)).0

-- One more, as far as a counter goes.
abbrev pub one_more : ℕ → ℕ
one_more n = if n == word_max then word_max else n + 1

-- How the counters stand before and after one submission, and whether one that should have gone up was at
-- its greatest value.
pub record OneMore (s s' : Lifecycle) (taken : Bool) : Type 0 where
  pub submitted : s'.submitted_count ≡ one_more s.submitted_count
  pub accepted : s'.accepted_count ≡ (if taken then one_more s.accepted_count else s.accepted_count)
  pub rejected : s'.rejected_count ≡ (if taken then s.rejected_count else one_more s.rejected_count)
  pub overflow : s'.lifecycle_accounting_overflow ≡ (
      s.lifecycle_accounting_overflow
      || s.submitted_count == word_max
      || (if taken then s.accepted_count else s.rejected_count) == word_max)
  pub active : s'.active_submitter_count ≡ s.active_submitter_count
  pub state : s'.state ≡ s.state

settled :
    (b : SchedSyncResult) (c : SchedulerResult) {s : Lifecycle}
    → AreWords s
    → s.state ≡ running
    → OneMore s (leave b c (enter s).1).1 (is_ok c)
unfolding enter leave settle increment_saturating
settled b c room up = ground arith

-- On a running scheduler whose counters are 64-bit numbers, with fewer than 2 ^ 64 - 1 active submitters, a
-- `scheduler_try_submit` that is alone counts one more submission: as accepted if the queue answers OK, as rejected otherwise, whatever the
-- last broadcast and unlock answer. A counter at its greatest value stays there, and the flag of the
-- overflow is then set, and not otherwise. Afterwards as many submitters are active as before.
pub scheduler_try_submit_lem :
    (q : Answers) (b u : SchedSyncResult) (transition : Bool) (i : Implementation) (task : ℕ)
    → AreWords i.lifecycle
    → i.lifecycle.state ≡ running
    → {r : SchedulerResult} {j : Implementation}
    → scheduler_try_submit (alone q b u) transition (some (some i)) (some task) ≡ (r, some (some j))
    → OneMore i.lifecycle j.lifecycle
        (is_ok (map_try_enqueue_result (queue_answer q transition i task)))
unfolding scheduler_try_submit register_submitter register deregister_submitter
scheduler_try_submit_lem q b u transition i task room up e =
    let done =
      settled b (map_try_enqueue_result (queue_answer q transition i task)) {s = i.lifecycle} room
        up in
    ground (arith, done, e)
