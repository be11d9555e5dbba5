-- ===== src/Scheduler/Entry/Served.antt =====
-- What a worker of src/scheduler.c has counted in its slot.
use concurrent_task_scheduli.Base.{
  ℕ, suc, ◌+◌, ◌<◌, ◌≡◌, ◌⊎◌, ap, Bool, true, false, none, some, List, [], ◌∷◌, ◌++◌, sym,
  Bool-cases, inl, inr, length, length-append, arith, word_mod, Option, ltb, if◌then◌else◌,
}
use mathlib.Core.Path.{subst}
use concurrent_task_scheduli.Sync.{has_failed}
use concurrent_task_scheduli.Scheduler.Crew.{
  WorkerResult, result_invalid_context, note_ready, result_synchronization, result_ok, result_queue,
}
use concurrent_task_scheduli.Scheduler.Worker.{
  WorkerContext, cleared, advance, increment_single_writer_atomic,
}
use concurrent_task_scheduli.Scheduler.Engine.{Engine, shut_queue_down}
use concurrent_task_scheduli.Scheduler.Entry.{
  Reaction, leaves, fails, serves, Context, Round, EntryAnswers, count_call, exit_with, serve,
  fetch, finish_round, work_loop, run_worker, scheduler_worker_entry,
}

-- The slot of a worker between two tasks, after `n` of them.
record Tallied (n : ℕ) (c : WorkerContext) : Type 0 where
  small_dequeued : c.dequeued_count < word_mod
  small_started : c.callback_started_count < word_mod
  small_succeeded : c.callback_succeeded_count < word_mod
  small_failed : c.callback_failed_count < word_mod
  running : c.currently_running_count ≡ 0
  dequeued : c.accounting_overflow ≡ false → c.dequeued_count ≡ n
  started : c.accounting_overflow ≡ false → c.callback_started_count ≡ n
  outcomes :
      c.accounting_overflow ≡ false → c.callback_succeeded_count + c.callback_failed_count ≡ n

count_call-Tallied :
    (b : Bool) {n : ℕ} {c : WorkerContext} → Tallied n c → Tallied (suc n) (count_call b c)
unfolding count_call advance increment_single_writer_atomic
count_call-Tallied true t = ground (arith, t)
count_call-Tallied false t = ground (arith, t)

abbrev IsTallied : Context → Type 0
IsTallied x = Tallied (length x.executed) x.slot

serve-IsTallied :
    (execute : ℕ → Bool) (task : ℕ) (e : Engine) (x : Context)
    → IsTallied x
    → IsTallied (serve execute task e x)
unfolding serve
serve-IsTallied execute task e x t =
    let l : length (x.executed ++ task ∷ []) ≡ suc (length x.executed) =
      omega (arith, length-append x.executed (task ∷ [])) in
    subst (λ k. Tallied k (count_call (execute task) x.slot)) (sym l)
      (count_call-Tallied (execute task) t)

exit_with-IsTallied :
    (a : EntryAnswers) (r : WorkerResult) (e : Engine) (x : Context)
    → IsTallied x
    → IsTallied (exit_with a r e x).1
unfolding exit_with
exit_with-IsTallied a r e x t = t

finish_round-IsTallied :
    (a : EntryAnswers) (execute : ℕ → Bool)
    (again : Engine → Context → Option WorkerResult × Context)
    → ((e : Engine) (x : Context) → IsTallied x → IsTallied (again e x).1)
    → (r : Option Reaction) (e : Engine) (x : Context) → IsTallied x
    → IsTallied (finish_round a execute again r e x).1
unfolding finish_round
finish_round-IsTallied a execute again h none e x t = t
finish_round-IsTallied a execute again h (some leaves) e x t = exit_with-IsTallied a result_ok e x t
finish_round-IsTallied a execute again h (some fails) e x t =
    exit_with-IsTallied a result_queue (shut_queue_down a.shutdown e) x t
finish_round-IsTallied a execute again h (some (serves task)) e x t =
    h e (serve execute task e x) (serve-IsTallied execute task e x t)

work_loop-IsTallied :
    (tr : Bool) (a : EntryAnswers) (rounds : List Round) (e : Engine) (x : Context)
    → IsTallied x
    → IsTallied (work_loop tr a rounds e x).1
unfolding work_loop
work_loop-IsTallied tr a [] e x t = t
work_loop-IsTallied tr a (round ∷ rounds) e x t =
    let (r, e') = fetch tr round e in
    finish_round-IsTallied a round.execute (work_loop tr a rounds) (work_loop-IsTallied tr a rounds)
      r e' x t

-- A worker whose slot is cleared and that has executed nothing.
abbrev pub new_context : Engine → ℕ → Context
new_context e i = record { scheduler = some e; worker_index = i; slot = cleared; executed = [] }

run_worker-IsTallied :
    (tr : Bool) (a : EntryAnswers) (rounds : List Round) (e : Engine) (x : Context)
    → IsTallied x
    → IsTallied (run_worker tr a rounds e x).1
unfolding run_worker
run_worker-IsTallied tr a rounds e x t =
    let ready = record e { crew = note_ready e.crew } in
    let p = exit_with-IsTallied a result_synchronization ready x t in
    let q = exit_with-IsTallied a result_synchronization (shut_queue_down a.shutdown ready) x t in
    let r = work_loop-IsTallied tr a rounds ready x t in
    elim (Bool-cases (has_failed a.lock)) [
      | inl u ↦ rw u t
      | inr u ↦ elim (Bool-cases (has_failed a.broadcast)) [
        | inl v ↦ rw (u, v) p
        | inr v ↦ elim (Bool-cases (has_failed a.unlock)) [
          | inl w ↦ rw (u, v, w) q
          | inr w ↦ rw (u, v, w) r
        ]
      ]
    ]

abbrev context_of : Context → Option Context → Context
context_of x none = x
context_of x (some y) = y

-- What the check of the context leaves.
checked :
    (ok_context : Bool) (k l : Option WorkerResult) {r : Option WorkerResult} (x y z : Context)
    → ◌≡◌ {A = Option WorkerResult × Option Context}
        (if ok_context then (k, some y) else (l, some x))
        (r, some z)
    → (z ≡ x) ⊎ (z ≡ y)
checked true k l x y z e = inr (ap (λ p. context_of z p.1) (sym e))
checked false k l x y z e = inl (ap (λ p. context_of z p.1) (sym e))

new-IsTallied : (e : Engine) (i : ℕ) → IsTallied (new_context e i)
new-IsTallied e i = ground arith

-- Of a new worker, whatever the others do and whatever the queue and the platform answer, whether it has
-- come to its end or is still in its loop: as long as its slot has not overflowed, it has counted each
-- task on which it has called the callback once as dequeued, once as started and once as succeeded or
-- failed; and none as running any more.
pub scheduler_worker_entry-counts :
    (tr : Bool) (a : EntryAnswers) (rounds : List Round) (e : Engine) (i : ℕ) {y : Context}
    {r : Option WorkerResult}
    → scheduler_worker_entry tr a rounds (some (new_context e i)) ≡ (r, some y)
    → (y.slot.currently_running_count ≡ 0)
      × (y.slot.accounting_overflow ≡ false
          → (y.slot.dequeued_count ≡ length y.executed)
            × (y.slot.callback_started_count ≡ length y.executed)
            × (y.slot.callback_succeeded_count + y.slot.callback_failed_count ≡ length y.executed))
unfolding scheduler_worker_entry
scheduler_worker_entry-counts tr a rounds e i {y} h =
    let x = new_context e i in
    let done = run_worker tr a rounds e x in
    let t : IsTallied y =
      elim (checked (ltb i e.worker_count) done.0 (some result_invalid_context) x done.1 y h) [
        | inl same ↦ subst IsTallied (sym same) (new-IsTallied e i)
        | inr same ↦
            subst IsTallied (sym same) (run_worker-IsTallied tr a rounds e x (new-IsTallied e i))
      ] in
    (t.running, λ calm. (t.dequeued calm, t.started calm, t.outcomes calm))
