-- ===== src/TaskQueue/Fifo.antt =====
-- What src/task_queue.c promises: a bounded first-in, first-out queue of tasks, oldest first.
use concurrent_task_scheduli.Base.{
  ℕ, Option, none, some, List, [], ◌∷◌, ◌++◌, ◌==◌, if◌then◌else◌, length, Pointer,
}
use concurrent_task_scheduli.TaskQueue.{TaskQueueResult, ok, error_full, error_empty}

-- A request of a client, and what it sees.
pub data Request : Type 0 where
  put : ℕ → Request
  get : Request
  look : Request

abbrev pub Reply : Type 0
Reply = TaskQueueResult × Option Pointer

abbrev pub enqueue : ℕ → ℕ → List ℕ → TaskQueueResult × List ℕ
enqueue capacity task ts = if length ts == capacity then (error_full, ts) else (ok, ts ++ task ∷ [])

abbrev pub dequeue : List ℕ → Reply × List ℕ
dequeue [] = ((error_empty, none), [])
dequeue (t ∷ ts) = ((ok, some (some t)), ts)

abbrev pub peek : List ℕ → Reply
peek [] = (error_empty, none)
peek (t ∷ ts) = (ok, some (some t))

unfoldable pub run : ℕ → List ℕ → List Request → List Reply
run capacity ts [] = []
run capacity ts (put t ∷ rs) =
    let (r, ts') = enqueue capacity t ts in (r, none) ∷ run capacity ts' rs
run capacity ts (get ∷ rs) = let (r, ts') = dequeue ts in r ∷ run capacity ts' rs
run capacity ts (look ∷ rs) = peek ts ∷ run capacity ts rs
