-- ===== src/Task/Tests.antt =====
-- Runs of src/task.c on concrete tasks.
use concurrent_task_scheduli.Base.{
  ◌+◌, ◌≤◌, ◌≡◌, refl, true, false, none, some, List, [], ◌∷◌, arith,
}
use concurrent_task_scheduli.Task.{
  Task, created, queued, running, completed, cancelled, unknown, TaskPriority, high, task_init,
  task_transition_state, task_consume_work,
}
use concurrent_task_scheduli.Task.Lifecycle.{
  Allowed, task_transition_state_lem, request_all, requests_at_most_three,
}
use concurrent_task_scheduli.Task.Work.{IsValid, Call, move, work, apply, apply_all, work_conserved}

abbrev fresh : Task
fresh = record { id = 7; priority = high; state = created; total_work = 10; remaining_work = 10 }

abbrev in_hand : Task
in_hand = record { id = 7; priority = high; state = running; total_work = 10; remaining_work = 4 }

-- 3 units, then 7; what is asked for too early or is too much is refused.
abbrev day : List Call
day = work 3 ∷ move queued ∷ move running ∷ work 3 ∷ work 8 ∷ work 7 ∷ move cancelled ∷ []

init_fresh : task_init (some in_hand) 7 high 10 ≡ (true, some fresh)
unfolding task_init
init_fresh = refl

init_no_priority : task_init (some in_hand) 7 (TaskPriority.unknown 0) 10 ≡ (false, some in_hand)
unfolding task_init
init_no_priority = refl

day_total : (apply_all fresh day).0 ≡ 10
unfolding apply_all apply task_consume_work
day_total = refl

in_hand-IsValid : IsValid in_hand
in_hand-IsValid = ground arith

task_transition_state_lem_example :
    (Allowed running completed
      → task_transition_state (some in_hand) completed
        ≡ (true, some (record in_hand { state = completed })))
    × (¬ Allowed running completed
        → task_transition_state (some in_hand) completed ≡ (false, some in_hand))
    × (task_transition_state none completed ≡ (false, none))
task_transition_state_lem_example = task_transition_state_lem completed in_hand

requests_at_most_three_example :
    (request_all fresh (queued ∷ queued ∷ running ∷ unknown 2 ∷ completed ∷ running ∷ [])).0 ≤ 3
requests_at_most_three_example =
    requests_at_most_three (queued ∷ queued ∷ running ∷ unknown 2 ∷ completed ∷ running ∷ []) fresh

work_conserved_example :
    let (n, last) = apply_all fresh day in
    (n + last.remaining_work ≡ 10)
    × (n ≡ 10 → last.state ≡ completed)
    × (last.id ≡ 7)
    × (last.priority ≡ high)
    × (last.total_work ≡ 10)
work_conserved_example = work_conserved 7 high 10 in_hand day (omega arith) init_fresh
