-- ===== src/Task/Lifecycle.antt =====
-- The life cycle of a task, stated on its own, and `task_transition_state` of src/task.c against it.
use concurrent_task_scheduli.Base.{
  ℕ, ◌+◌, ◌≤◌, ◌≡◌, refl, ◌⊎◌, true, false, none, some, List, [], ◌∷◌, arith, Bool-cases, inl, inr,
  if◌then◌else◌,
}
use concurrent_task_scheduli.Task.{
  Task, TaskState, created, queued, running, completed, failed, cancelled, rejected, unknown,
  task_transition_is_valid, task_state_is_valid, transition, task_transition_state,
}

-- The moves that the life cycle of a task has.
pub data Allowed : TaskState → TaskState → Type 0 where
  enqueue : Allowed created queued
  refuse : Allowed created rejected
  drop : Allowed created cancelled
  start : Allowed queued running
  withdraw : Allowed queued cancelled
  finish : Allowed running completed
  fail : Allowed running failed

-- Each move leads further on; four of the states are final.
abbrev pub rank : TaskState → ℕ
rank created = 0
rank queued = 1
rank running = 2
rank s = 3

accepted-Allowed : (a b : TaskState) → task_transition_is_valid a b ≡ true → Allowed a b
unfolding task_transition_is_valid
accepted-Allowed created queued h = enqueue
accepted-Allowed created rejected h = refuse
accepted-Allowed created cancelled h = drop
accepted-Allowed queued running h = start
accepted-Allowed queued cancelled h = withdraw
accepted-Allowed running completed h = finish
accepted-Allowed running failed h = fail
accepted-Allowed created (unknown n) h = ground arith
accepted-Allowed queued (unknown n) h = ground arith
accepted-Allowed running (unknown n) h = ground arith
accepted-Allowed a b h = cc

Allowed-accepted : {a b : TaskState} → Allowed a b → task_transition_is_valid a b ≡ true
unfolding task_transition_is_valid
Allowed-accepted enqueue = refl
Allowed-accepted refuse = refl
Allowed-accepted drop = refl
Allowed-accepted start = refl
Allowed-accepted withdraw = refl
Allowed-accepted finish = refl
Allowed-accepted fail = refl

Allowed-named : {a b : TaskState} → Allowed a b → task_state_is_valid b ≡ true
unfolding task_state_is_valid
Allowed-named enqueue = refl
Allowed-named refuse = refl
Allowed-named drop = refl
Allowed-named start = refl
Allowed-named withdraw = refl
Allowed-named finish = refl
Allowed-named fail = refl

pub transition-Allowed :
    (s : TaskState) (t : Task) → Allowed t.state s → transition s t ≡ (true, record t { state = s })
unfolding transition
transition-Allowed s t a = rw (Allowed-named a, Allowed-accepted a)

transition_refused : (s : TaskState) (t : Task) → ¬ Allowed t.state s → transition s t ≡ (false, t)
unfolding transition
transition_refused s t n = elim (Bool-cases (task_transition_is_valid t.state s)) [
  | inl e ↦ absurd (n (accepted-Allowed t.state s e))
  | inr e ↦ ground (arith, e)
]

-- A call of `task_transition_state` returns true exactly for a move of the life cycle, and then
-- changes the state and nothing else; any other request, and a NULL task, changes nothing and
-- returns false.
pub task_transition_state_lem :
    (s : TaskState) (t : Task)
    → (Allowed t.state s → task_transition_state (some t) s ≡ (true, some (record t { state = s })))
      × (¬ Allowed t.state s → task_transition_state (some t) s ≡ (false, some t))
      × (task_transition_state none s ≡ (false, none))
unfolding task_transition_state
task_transition_state_lem s t =
    (λ a. rw (transition-Allowed s t a), λ n. rw (transition_refused s t n), refl)

rank-Allowed : {a b : TaskState} → Allowed a b → rank a + 1 ≤ rank b
rank-Allowed enqueue = omega arith
rank-Allowed refuse = omega arith
rank-Allowed drop = omega arith
rank-Allowed start = omega arith
rank-Allowed withdraw = omega arith
rank-Allowed finish = omega arith
rank-Allowed fail = omega arith

-- How many of a series of requests succeed, and the task after them.
pub request_all : Task → List TaskState → ℕ × Task
request_all t [] = (0, t)
request_all t (s ∷ ss) =
    let (done, t') = transition s t in
    let (n, last) = request_all t' ss in if done then (n + 1, last) else (n, last)

transition-rank :
    (s : TaskState) (t : Task)
    → (transition s t ≡ (false, t))
      ⊎ ((transition s t ≡ (true, record t { state = s })) × (rank t.state + 1 ≤ rank s))
transition-rank s t = elim (Bool-cases (task_transition_is_valid t.state s)) [
  | inl e ↦ inr (
    transition-Allowed s t (accepted-Allowed t.state s e),
    rank-Allowed (accepted-Allowed t.state s e),
  )
  | inr e ↦ inl (transition_refused s t (λ a. cc (Allowed-accepted a)))
]

-- However a task is asked to change state, the rank of its state pays for each change.
requests_within_rank :
    (ss : List TaskState) (t : Task)
    → let (n, last) = request_all t ss in n + rank t.state ≤ rank last.state
unfolding request_all
requests_within_rank [] t = omega arith
requests_within_rank (s ∷ ss) t = elim (transition-rank s t) [
  | inl same ↦ rw same (requests_within_rank ss t)
  | inr (moved, up) ↦ rw moved (omega (arith, up, requests_within_rank ss (record t { state = s })))
]

rank-le : (s : TaskState) → rank s ≤ 3
rank-le created = omega arith
rank-le queued = omega arith
rank-le running = omega arith
rank-le s = omega arith

-- However often `task_transition_state` is called and for whatever states, it succeeds at most three
-- times on one task.
pub requests_at_most_three : (ss : List TaskState) (t : Task) → (request_all t ss).0 ≤ 3
requests_at_most_three ss t =
    omega (arith, requests_within_rank ss t, rank-le (request_all t ss).1.state)
