-- ===== src/Task/Work.antt =====
-- `task_init` and `task_consume_work` of src/task.c: the work counter over the calls on a task.
use concurrent_task_scheduli.Base.{
  ℕ, ◌+◌, ◌≤◌, ◌<◌, ◌≡◌, ◌≢◌, ◌∙◌, ◌-◌, refl, Bool, true, false, some, List, [], ◌∷◌, arith,
  word_mod, if◌then◌else◌, ◌⊎◌,
}
use concurrent_task_scheduli.Task.{
  Task, TaskState, TaskPriority, running, completed, transition, consume, init, task_init,
  task_consume_work, task_state_is_valid, task_transition_is_valid, task_priority_is_valid,
}

-- What holds of a task from `task_init` on.
pub record IsValid (t : Task) : Type 0 where
  pub has_work : 0 < t.total_work
  pub small : t.total_work < word_mod
  pub within : t.remaining_work ≤ t.total_work
  pub finished : t.remaining_work ≡ 0 → t.state ≡ completed

-- The calls that change a task.
pub data Call : Type 0 where
  move : TaskState → Call
  work : ℕ → Call

unfoldable pub apply : Call → Task → Bool × Task
apply (move s) t = transition s t
apply (work n) t = consume n t

-- The work units that a call hands in.
abbrev pub units : Call → ℕ
units (move s) = 0
units (work n) = n

-- The calls in order: the work units of those that succeed, and the task after all of them.
unfoldable pub apply_all : Task → List Call → ℕ × Task
apply_all t [] = (0, t)
apply_all t (c ∷ cs) =
    let (done, t') = apply c t in
    let (n, last) = apply_all t' cs in if done then (units c + n, last) else (n, last)

transition-IsValid : {t : Task} (s : TaskState) → IsValid t → IsValid (transition s t).1
unfolding transition task_state_is_valid task_transition_is_valid
transition-IsValid s v = ground arith

consume-IsValid : {t : Task} (n : ℕ) → IsValid t → IsValid (consume n t).1
unfolding consume
consume-IsValid n v = ground arith

-- The three cases of `task_consume_work` on a task: the last units finish a running task, fewer are
-- taken off its counter, and anything else changes nothing.
task_consume_work_lem :
    (n : ℕ) {t : Task}
    → IsValid t
    → (t.state ≡ running
        → 0 < n
        → n ≡ t.remaining_work
        → task_consume_work (some t) n
          ≡ (true, some (record t { state = completed; remaining_work = 0 })))
      × (t.state ≡ running
          → 0 < n
          → n < t.remaining_work
          → task_consume_work (some t) n
            ≡ (true, some (record t { remaining_work = t.remaining_work - n })))
      × ((t.state ≢ running) ⊎ (n ≡ 0) ⊎ (t.remaining_work < n)
          → task_consume_work (some t) n ≡ (false, some t))
unfolding task_consume_work consume
task_consume_work_lem n v = (λ s p e. ground arith, λ s p e. ground arith, λ d. ground arith)

-- What a call does to the counter and to the rest of a valid task.
record Effect (c : Call) (t : Task) (done : Bool) (t' : Task) : Type 0 where
  kept : IsValid t'
  taken : (if done then units c else 0) + t'.remaining_work ≡ t.remaining_work
  same_id : t'.id ≡ t.id
  same_priority : t'.priority ≡ t.priority
  same_total : t'.total_work ≡ t.total_work

apply-Effect : (c : Call) {t : Task} → IsValid t → Effect c t (apply c t).0 (apply c t).1
unfolding apply transition consume task_state_is_valid task_transition_is_valid
apply-Effect (move s) v = ground arith
apply-Effect (work n) v = ground arith

-- The same over any series of calls.
record Total (t : Task) (n : ℕ) (last : Task) : Type 0 where
  kept : IsValid last
  taken : n + last.remaining_work ≡ t.remaining_work
  same_id : last.id ≡ t.id
  same_priority : last.priority ≡ t.priority
  same_total : last.total_work ≡ t.total_work

apply_all-Total :
    (cs : List Call) {t : Task} → IsValid t → Total t (apply_all t cs).0 (apply_all t cs).1
unfolding apply_all
apply_all-Total [] v = record {
  kept = v;
  taken = omega arith;
  same_id = refl;
  same_priority = refl;
  same_total = refl;
}
apply_all-Total (c ∷ cs) {t} v =
    ground (arith, apply-Effect c v, apply_all-Total cs (apply-Effect c v).kept)

init-IsValid :
    (id : ℕ) (p : TaskPriority) (w : ℕ) (old : Task) {t : Task}
    → w < word_mod
    → init id p w old ≡ (true, t)
    → IsValid t × (t.remaining_work ≡ w) × (t.total_work ≡ w) × (t.id ≡ id) × (t.priority ≡ p)
unfolding init task_priority_is_valid
init-IsValid id p w old h e = ground arith

-- A task that `task_init` has set up with `w` units of work (a 64-bit number), after any series of
-- state changes and work requests: the units of the requests that succeeded and those that remain
-- make up `w`, the task is completed once none remain, and its id, priority and total are as set up.
pub work_conserved :
    (id : ℕ) (p : TaskPriority) (w : ℕ) (old : Task) {t : Task} (cs : List Call)
    → w < word_mod
    → task_init (some old) id p w ≡ (true, some t)
    → let (n, last) = apply_all t cs in
      (n + last.remaining_work ≡ w)
      × (n ≡ w → last.state ≡ completed)
      × (last.id ≡ id)
      × (last.priority ≡ p)
      × (last.total_work ≡ w)
unfolding task_init
work_conserved id p w old {t} cs h e = (
  omega (arith, total.taken, start.1),
  λ q. total.kept.finished (omega (arith, total.taken, start.1)),
  total.same_id ∙ start.3,
  total.same_priority ∙ start.4,
  total.same_total ∙ start.2,
)
  where
    begun : init id p w old ≡ (true, t)
    begun = ground arith

    start : IsValid t × (t.remaining_work ≡ w) × (t.total_work ≡ w) × (t.id ≡ id) × (t.priority ≡ p)
    start = init-IsValid id p w old h begun

    total : Total t (apply_all t cs).0 (apply_all t cs).1
    total = apply_all-Total cs start.0
