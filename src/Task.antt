-- ===== src/Task.antt =====
-- src/task.c: a task, its work counter and its life cycle.
mod Lifecycle
mod Work
mod Tests
use concurrent_task_scheduli.Base.{
  ℕ, ◌+◌, Bool, true, false, not, ◌||◌, ◌&&◌, Option, none, some, ltb, ◌==◌, ◌/=◌, if◌then◌else◌,
  sub_word, through,
}

-- `TaskState`. `unknown` stands for the values of the C enum's integer type that name no state.
pub data TaskState : Type 0 where
  created queued running completed failed cancelled rejected : TaskState
  unknown : ℕ → TaskState

-- The integer behind a state.
abbrev pub state_code : TaskState → ℕ
state_code created = 0
state_code queued = 1
state_code running = 2
state_code completed = 3
state_code failed = 4
state_code cancelled = 5
state_code rejected = 6
state_code (unknown n) = n + 7

-- `TaskPriority`, with the values that name no priority.
pub data TaskPriority : Type 0 where
  low normal high : TaskPriority
  unknown : ℕ → TaskPriority

pub record Task : Type 0 where
  pub id : ℕ
  pub priority : TaskPriority
  pub state : TaskState
  pub total_work : ℕ
  pub remaining_work : ℕ

abbrev pub is_state : TaskState → TaskState → Bool
is_state a b = state_code a == state_code b

pub task_transition_is_valid : TaskState → TaskState → Bool
task_transition_is_valid created next =
    is_state next queued || is_state next cancelled || is_state next rejected
task_transition_is_valid queued next = is_state next running || is_state next cancelled
task_transition_is_valid running next = is_state next completed || is_state next failed
task_transition_is_valid completed next = false
task_transition_is_valid failed next = false
task_transition_is_valid cancelled next = false
task_transition_is_valid rejected next = false
task_transition_is_valid (unknown n) next = false

pub task_state_is_valid : TaskState → Bool
task_state_is_valid (unknown n) = false
task_state_is_valid s = true

pub task_priority_is_valid : TaskPriority → Bool
task_priority_is_valid (unknown n) = false
task_priority_is_valid p = true

-- `task_init` on storage that is not NULL; what the storage held does not matter.
pub init : ℕ → TaskPriority → ℕ → Task → Bool × Task
unfolding task_priority_is_valid
init id priority total_work task =
    if not (task_priority_is_valid priority) || total_work == 0
    then (false, task)
    else (true, fresh)
  where
    fresh : Task
    fresh = record {
      id = id;
      priority = priority;
      state = created;
      total_work = total_work;
      remaining_work = total_work;
    }

unfoldable pub task_init : Option Task → ℕ → TaskPriority → ℕ → Bool × Option Task
unfolding init
task_init task id priority total_work = through task false (init id priority total_work)

pub task_is_complete : Option Task → Bool
task_is_complete none = false
task_is_complete (some task) = task.remaining_work == 0

-- `task_transition_state` on a task that is not NULL.
pub transition : TaskState → Task → Bool × Task
unfolding task_state_is_valid task_transition_is_valid
transition new_state task =
    if not (task_state_is_valid new_state) || not (task_transition_is_valid task.state new_state)
    then (false, task)
    else (true, record task { state = new_state })

pub task_transition_state : Option Task → TaskState → Bool × Option Task
unfolding transition
task_transition_state task new_state = through task false (transition new_state)

-- The three conditions of `task_consume_work` on a task that is not NULL.
pub consume : ℕ → Task → Bool × Task
unfolding transition
consume work_units task =
    if work_units == 0
      || not (task_state_is_valid task.state)
      || not (is_state task.state running)
      || task.remaining_work == 0
      || ltb task.remaining_work work_units
    then (false, task)
    else if work_units == task.remaining_work
    then (let (done, t) = transition completed task in
        if done then (true, record t { remaining_work = 0 }) else (false, t))
    else (true, record task { remaining_work = sub_word task.remaining_work work_units })

unfoldable pub task_consume_work : Option Task → ℕ → Bool × Option Task
unfolding consume
task_consume_work task work_units = through task false (consume work_units)
