-- ===== src/TaskQueue/Tests.antt =====
-- Runs of src/task_queue.c on concrete queues.
use concurrent_task_scheduli.Base.{
  ℕ, zero, suc, get_elem?, ◌≡◌, refl, true, Option, none, some, List, [], ◌∷◌, arith,
}
use concurrent_task_scheduli.TaskQueue.{
  TaskQueue, ok, error_full, error_empty, error_invalid_argument, task_queue_init,
  task_queue_destroy, task_queue_enqueue, task_queue_dequeue, task_queue_peek,
}
use concurrent_task_scheduli.TaskQueue.Inv.{Holds, nth_index}
use concurrent_task_scheduli.TaskQueue.Refine.{run, client_sees_fifo}
use concurrent_task_scheduli.TaskQueue.Fifo
use concurrent_task_scheduli.TaskQueue.Fifo.{Request, Reply, put, get, look}

-- Room for two, with the oldest task in the last cell.
abbrev wrapped : TaskQueue
wrapped = record { items = some (none ∷ some 5 ∷ []); capacity = 2; size = 1; head = 1; tail = 0 }

abbrev calls : List Request
calls = look ∷ put 6 ∷ put 7 ∷ get ∷ get ∷ get ∷ []

calls_replies :
    run (some wrapped) calls
    ≡ (ok, some (some 5))
      ∷ (ok, none)
      ∷ (error_full, none)
      ∷ (ok, some (some 5))
      ∷ (ok, some (some 6))
      ∷ (error_empty, none)
      ∷ []
unfolding run task_queue_enqueue task_queue_dequeue task_queue_peek
calls_replies = refl

destroyed_refuses :
    run (task_queue_destroy (some wrapped)) (put 1 ∷ get ∷ [])
    ≡ (error_invalid_argument, none) ∷ (error_invalid_argument, none) ∷ []
unfolding run task_queue_destroy task_queue_enqueue task_queue_dequeue
destroyed_refuses = refl

wrapped_held :
    (k t : ℕ)
    → get_elem? (5 ∷ []) k ≡ some t
    → get_elem? (none ∷ some 5 ∷ []) (nth_index 2 1 k) ≡ some (some t)
wrapped_held zero t e = ground arith
wrapped_held (suc k) t e = cc

wrapped-Holds : Holds wrapped (5 ∷ [])
wrapped-Holds = record {
  allocated = refl;
  cells = refl;
  some_room = omega arith;
  bounded = omega arith;
  sized = refl;
  fits = omega arith;
  head_in = omega arith;
  tail_in = omega arith;
  meets = refl;
  held = wrapped_held;
}

client_sees_fifo_example :
    (queue : Option TaskQueue) × (task_queue_init true (some wrapped) 3 ≡ (ok, queue))
    × ((rs : List Request) → run queue rs ≡ Fifo.run 3 [] rs)
client_sees_fifo_example = client_sees_fifo 3 wrapped (omega arith) (omega arith)
