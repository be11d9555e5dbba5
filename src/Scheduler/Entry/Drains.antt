-- ===== src/Scheduler/Entry/Drains.antt =====
-- A worker of src/scheduler.c that is alone with a queue that is shut down serves what is left in it.
use concurrent_task_scheduli.Base.{
  ℕ, ◌<◌, ◌≡◌, refl, ◌∙◌, sym, ap, Bool, true, false, Option, some, List, [], ◌∷◌, ◌++◌, length,
  map, sub_word, arith, Pointer, append_assoc, append-nil, ◌==◌, word_max, add_word, ltb,
}
use mathlib.Core.Path.{subst}
use concurrent_task_scheduli.Sync
use concurrent_task_scheduli.TaskQueue.{is_empty}
use concurrent_task_scheduli.TaskQueue.Inv.{Holds, shorter-Holds}
use concurrent_task_scheduli.ConcurrentQueue.{
  ConcurrentTaskQueueResult, Shared, ok, error_shutdown, live, all_ok, Wake, done,
}
use concurrent_task_scheduli.ConcurrentQueue.Take.{
  Take, refused_take, attempt_take, take_loop, concurrent_task_queue_dequeue,
}
use concurrent_task_scheduli.ConcurrentQueue.System.Locked.{
  attempt_take-some, attempt_take_succeeds,
}
use concurrent_task_scheduli.Scheduler.Crew.{Crew, note_ready, result_ok, record_worker_exit}
use concurrent_task_scheduli.Scheduler.Engine.{Engine}
use concurrent_task_scheduli.Scheduler.Entry.Served.{new_context}
use concurrent_task_scheduli.Scheduler.Entry.{
  leaves, serves, react, Context, Round, EntryAnswers, exit_with, serve, fetch, take_answer,
  finish_round, work_loop, run_worker, scheduler_worker_entry,
}

-- The wait of a queue that is shut down is not come to.
take_loop_lem :
    (tr : Bool) (ws : List Wake) (s : Shared) {s' : Shared} {t : Take}
    → attempt_take tr s ≡ (some t, s')
    → take_loop tr ws s ≡ (done t, s')
unfolding take_loop
take_loop_lem tr [] s e = ground (arith, e)
take_loop_lem tr (w ∷ ws) s e = ground (arith, e)

dequeue_lem :
    (tr : Bool) (ws : List Wake) (s : Shared) {s' : Shared} {t : Take}
    → attempt_take tr s ≡ (some t, s')
    → concurrent_task_queue_dequeue tr all_ok ws (some (live s)) true
      ≡ ((some t.result, t.removed), some (live s'))
unfolding concurrent_task_queue_dequeue
dequeue_lem tr ws s e = ground (arith, take_loop_lem tr ws s e)

-- A round in which nobody else does anything and the queue's calls succeed.
abbrev pub quiet : (ℕ → Bool) → List Wake → Round
quiet execute wakes = record { others = λ e. e; queue = all_ok; wakes = wakes; execute = execute }

-- A thread that is alone, its calls successful.
abbrev pub alone : EntryAnswers
alone = record {
  lock = Sync.ok;
  broadcast = Sync.ok;
  unlock = Sync.ok;
  shutdown = record {
    lock = Sync.ok;
    broadcast_not_empty = Sync.ok;
    broadcast_not_full = Sync.ok;
    unlock = Sync.ok;
  };
  before_exit = λ e. e;
  exit_lock = Sync.ok;
  exit_unlock = Sync.ok;
}

-- The queue of the scheduler is shut down and holds these tasks.
pub record IsClosing (e : Engine) (ts : List ℕ) : Type 0 where
  pub shared : Shared
  pub queue : e.queue ≡ live shared
  pub holds : Holds shared.queue ts
  pub closed : shared.shutdown_requested ≡ true

attempt_take-empty :
    (tr : Bool) (s : Shared)
    → Holds s.queue []
    → s.shutdown_requested ≡ true
    → attempt_take tr s ≡ (some (refused_take error_shutdown), s)
unfolding attempt_take is_empty
attempt_take-empty tr s h up = ground (arith, h)

fetch_lem :
    (tr : Bool) (execute : ℕ → Bool) (ws : List Wake) (e : Engine) (s : Shared) {s' : Shared}
    {t : Take}
    → e.queue ≡ live s
    → attempt_take tr s ≡ (some t, s')
    → fetch tr (quiet execute ws) e
      ≡ (some (react t.result t.removed), record e { queue = live s' })
unfolding fetch take_answer
fetch_lem tr execute ws e s {s'} {t} same h =
    let d : concurrent_task_queue_dequeue tr all_ok ws (some e.queue) true
        ≡ ((some t.result, t.removed), some (live s')) =
      rw same (dequeue_lem tr ws s h) in
    ap (take_answer e) d

react-serves :
    {r : ConcurrentTaskQueueResult} {p : Option Pointer} {u : ℕ}
    → r ≡ ok
    → p ≡ some (some u)
    → react r p ≡ serves u
unfolding react
react-serves a b = ground (arith, a, b)

-- What is fetched: the oldest task, or that there is none.
fetch-task :
    (tr : Bool) (execute : ℕ → Bool) (ws : List Wake) (e : Engine) {u : ℕ} {ts : List ℕ}
    → IsClosing e (u ∷ ts)
    → (f : Engine) × (fetch tr (quiet execute ws) e ≡ (some (serves u), f))
      × IsClosing f ts
      × (f.crew ≡ e.crew)
unfolding fetch
fetch-task tr execute ws e {u} {ts} c =
    let s = c.shared in
    let (t, a, a', d) = attempt_take_succeeds tr s c.holds in
    let s' = (attempt_take tr s).1 in
    let both : attempt_take tr s ≡ (some t, s') = ap (λ o. (o, s')) a in
    let out = attempt_take-some tr s c.holds both in
    let f : Engine = record e { queue = live s' } in
    (
      f,
      fetch_lem tr execute ws e s c.queue both ∙ ap (λ r. (some r, f)) (react-serves a' d),
      record {
        shared = s';
        queue = refl;
        holds = subst (λ q. Holds q ts) (sym out.queue) (shorter-Holds c.holds);
        closed = out.shutdown ∙ c.closed;
      },
      refl,
    )

fetch_none :
    (tr : Bool) (execute : ℕ → Bool) (ws : List Wake) (e : Engine)
    → IsClosing e []
    → fetch tr (quiet execute ws) e ≡ (some leaves, e)
unfolding react
fetch_none tr execute ws e c =
    fetch_lem tr execute ws e c.shared c.queue (attempt_take-empty tr c.shared c.holds c.closed)
    ∙ ap (λ q. (some leaves, record e { queue = q })) (sym c.queue)

abbrev pub one_less : Crew → Crew
one_less c = record c { active_worker_count = sub_word c.active_worker_count 1 }

abbrev less_active : Engine → Engine
less_active e = record e { crew = one_less e.crew }

-- The worker has left its loop since the queue was closed and empty, and left the scheduler `f`.
pub record HasLeft (e f : Engine) (x y : Context) (ts : List ℕ) : Type 0 where
  pub scheduler : y.scheduler ≡ some f
  pub executed : y.executed ≡ x.executed ++ ts
  pub queue : IsClosing f []
  pub crew : f.crew ≡ one_less e.crew

exit_with_lem :
    (e : Engine) (x : Context)
    → 0 < e.crew.active_worker_count
    → exit_with alone result_ok e x
      ≡ (some result_ok, record x { scheduler = some (less_active e) })
unfolding exit_with record_worker_exit
exit_with_lem e x h =
    let busy : (e.crew.active_worker_count == 0) ≡ false = ground (arith, h) in rw busy refl

work_loop-HasLeft :
    (tr : Bool) (execute : ℕ → Bool) (wss : List (List Wake)) (ts : List ℕ) (e : Engine)
    (x : Context)
    → IsClosing e ts
    → 0 < e.crew.active_worker_count
    → length ts < length wss
    → (f : Engine) × (y : Context) × (work_loop tr alone (map (quiet execute) wss) e x
        ≡ (some result_ok, y))
      × HasLeft e f x y ts
unfolding work_loop finish_round serve
work_loop-HasLeft tr execute [] ts e x c h lt = absurd (omega (arith, lt))
work_loop-HasLeft tr execute (ws ∷ wss) [] e x c h lt =
    let g = fetch_none tr execute ws e c in
    let f : Engine = less_active e in
    let y : Context = record x { scheduler = some f } in
    (
      f,
      y,
      ap (λ p. finish_round alone execute (work_loop tr alone (map (quiet execute) wss)) p.0 p.1 x)
            g
          ∙ exit_with_lem e x h,
      record {
        scheduler = refl;
        executed = sym (append-nil x.executed);
        queue = record { shared = c.shared; queue = c.queue; holds = c.holds; closed = c.closed };
        crew = refl;
      },
    )
work_loop-HasLeft tr execute (ws ∷ wss) (u ∷ ts) e x c h lt =
    let (f, g, d, same) = fetch-task tr execute ws e c in
    let (f', y, ends, left) =
      work_loop-HasLeft tr execute wss ts f (serve execute u f x) d
        (subst (λ k. 0 < k.active_worker_count) (sym same) h) (omega (arith, lt)) in
    (
      f',
      y,
      ap (λ p. finish_round alone execute (work_loop tr alone (map (quiet execute) wss)) p.0 p.1 x)
            g
          ∙ ends,
      record {
        scheduler = left.scheduler;
        executed = left.executed ∙ append_assoc x.executed (u ∷ []) ts;
        queue = left.queue;
        crew = left.crew ∙ ap one_less same;
      },
    )

sub-add_word : (n : ℕ) → n < word_max → sub_word (add_word n 1) 1 ≡ n
sub-add_word n lt = ground (arith, lt)

-- A worker that starts with the queue shut down, its calls successful and nobody else at work, executes
-- exactly the tasks that are left, in their order, and then ends with the result OK: the queue is empty,
-- as many workers are active as before and one more is ready. It comes back: one round for each task and
-- one more is enough.
pub scheduler_worker_entry-drains :
    (tr : Bool) (execute : ℕ → Bool) (wss : List (List Wake)) (ts : List ℕ) (e : Engine) (i : ℕ)
    → IsClosing e ts
    → i < e.worker_count
    → e.crew.active_worker_count < word_max
    → length ts < length wss
    → (f : Engine) × (y : Context) × (scheduler_worker_entry tr alone
          (map (quiet execute) wss)
          (some (new_context e i))
        ≡ (some result_ok, some y))
      × (y.scheduler ≡ some f)
      × (y.executed ≡ ts)
      × IsClosing f []
      × (f.crew.active_worker_count ≡ e.crew.active_worker_count)
      × (f.crew.ready_worker_count ≡ add_word e.crew.ready_worker_count 1)
unfolding scheduler_worker_entry run_worker note_ready
scheduler_worker_entry-drains tr execute wss ts e i c inside lt enough =
    let ready : Engine = record e { crew = note_ready e.crew } in
    let x = new_context e i in
    let c' : IsClosing ready ts = record {
      shared = c.shared;
      queue = c.queue;
      holds = c.holds;
      closed = c.closed;
    } in
    let (f, y, ends, left) =
      work_loop-HasLeft tr execute wss ts ready x c' (omega (arith, lt)) enough in
    let fits : ltb i e.worker_count ≡ true = ground (arith, inside) in
    (
      f,
      y,
      rw (fits, ends) refl,
      left.scheduler,
      left.executed,
      left.queue,
      ap (λ k. k.active_worker_count) left.crew ∙ sub-add_word e.crew.active_worker_count lt,
      ap (λ k. k.ready_worker_count) left.crew,
    )
