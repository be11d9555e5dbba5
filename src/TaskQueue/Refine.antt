-- ===== src/TaskQueue/Refine.antt =====
-- The operations of src/task_queue.c do what the bounded queue of TaskQueue.Fifo does.
use concurrent_task_scheduli.Base.{
  ℕ, ◌≤◌, ◌<◌, ◌≡◌, ◌∙◌, refl, Bool, true, false, Option, none, some, List, [], ◌∷◌, arith, ◌==◌,
  length, Bool-cases, inl, inr, ==_iff, ap, ◌⊎◌,
}
use concurrent_task_scheduli.TaskQueue.{
  TaskQueue, ok, error_full, error_empty, error_invalid_argument, error_allocation, max_capacity,
  init, enqueue, dequeue, peek, is_empty, is_full, task_queue_init, task_queue_enqueue,
  task_queue_dequeue, task_queue_peek,
}
use concurrent_task_scheduli.TaskQueue.Inv.{
  Holds, Holds-accepted, init-Holds, longer, shorter, longer-Holds, shorter-Holds, oldest,
}
use concurrent_task_scheduli.TaskQueue.Fifo
use concurrent_task_scheduli.TaskQueue.Fifo.{Request, Reply, put, get, look}

pub enqueue_full :
    {q : TaskQueue} {ts : List ℕ}
    → Holds q ts
    → (t : ℕ) → q.size ≡ q.capacity
    → enqueue (some t) q ≡ (error_full, q)
unfolding enqueue
enqueue_full {q} h t e = ground (arith, Holds-accepted h)

pub enqueue_room :
    {q : TaskQueue} {ts : List ℕ}
    → Holds q ts
    → (t : ℕ) → q.size < q.capacity
    → enqueue (some t) q ≡ (ok, longer q t)
unfolding enqueue
enqueue_room h t room = ground (arith, Holds-accepted h)

pub dequeue-some :
    {q : TaskQueue} {t : ℕ} {ts : List ℕ}
    → Holds q (t ∷ ts)
    → dequeue true q ≡ ((ok, some (some t)), shorter q)
unfolding dequeue
dequeue-some h = ground (arith, Holds-accepted h, oldest h)

pub dequeue_empty : {q : TaskQueue} → Holds q [] → dequeue true q ≡ ((error_empty, none), q)
unfolding dequeue
dequeue_empty h = ground (arith, Holds-accepted h)

-- `task_queue_enqueue` on a valid queue: the result and the tasks afterwards are those of the bounded
-- queue, and the capacity stays.
enqueue_refines :
    {q : TaskQueue} {ts : List ℕ}
    → Holds q ts
    → (t : ℕ)
    → let (r, q') = enqueue (some t) q in
      let (s, ts') = Fifo.enqueue q.capacity t ts in
      (r ≡ s) × Holds q' ts' × (q'.capacity ≡ q.capacity)
enqueue_refines {q} {ts} h t = elim (Bool-cases (length ts == q.capacity)) [
  | inl full ↦
      rw (full, enqueue_full h t (omega (arith, (==_iff _ _).0 full, h.sized))) (refl, h, refl)
  | inr room ↦
      rw (room, enqueue_room h t (ground (arith, h)))
        (refl, longer-Holds h t (ground (arith, h)), refl)
]

pub dequeue_refines :
    {q : TaskQueue} (ts : List ℕ)
    → Holds q ts
    → let (r, q') = dequeue true q in
      let (s, ts') = Fifo.dequeue ts in (r ≡ s) × Holds q' ts' × (q'.capacity ≡ q.capacity)
dequeue_refines [] h = rw (dequeue_empty h) (refl, h, refl)
dequeue_refines (t ∷ ts) h = rw (dequeue-some h) (refl, shorter-Holds h, refl)

pub peek_refines : {q : TaskQueue} (ts : List ℕ) → Holds q ts → peek true q ≡ Fifo.peek ts
unfolding peek
peek_refines [] h = ground (arith, Holds-accepted h)
peek_refines (t ∷ ts) h = ground (arith, Holds-accepted h, oldest h)

-- The calls of a client on a queue that is not NULL, in order, with what each returns.
unfoldable pub run : Option TaskQueue → List Request → List Reply
run q [] = []
run q (put t ∷ rs) = let (r, q') = task_queue_enqueue q (some t) in (r, none) ∷ run q' rs
run q (get ∷ rs) = let (r, q') = task_queue_dequeue q true in r ∷ run q' rs
run q (look ∷ rs) = task_queue_peek q true ∷ run q rs

run_refines :
    (rs : List Request) {q : TaskQueue} {ts : List ℕ}
    → Holds q ts
    → run (some q) rs ≡ Fifo.run q.capacity ts rs
unfolding run Fifo.run task_queue_enqueue task_queue_dequeue task_queue_peek
run_refines [] h = refl
run_refines (put t ∷ rs) {q} {ts} h =
    let e = enqueue_refines h t in rw (run_refines rs e.1, e.2, e.0)
run_refines (get ∷ rs) {q} {ts} h =
    let e = dequeue_refines ts h in rw (run_refines rs e.1, e.2, e.0)
run_refines (look ∷ rs) {q} {ts} h = rw (run_refines rs h, peek_refines ts h)

-- For each capacity from 1 to SIZE_MAX / 8, `task_queue_init` succeeds where the memory is found, and
-- no client tells the queue that it sets up from an empty bounded first-in, first-out queue: every
-- series of calls of enqueue, dequeue and peek gets the same replies.
pub client_sees_fifo :
    (capacity : ℕ) (old : TaskQueue)
    → 0 < capacity
    → capacity ≤ max_capacity
    → (queue : Option TaskQueue) × (task_queue_init true (some old) capacity ≡ (ok, queue))
      × ((rs : List Request) → run queue rs ≡ Fifo.run capacity [] rs)
unfolding task_queue_init
client_sees_fifo capacity old p m =
    let (q, made, h, c) = init-Holds capacity old p m in
    (some q, rw made, λ rs. run_refines rs h ∙ ap (λ k. Fifo.run k [] rs) c)

-- Without a queue, with a capacity of 0 or above SIZE_MAX / 8, or where the memory is not found,
-- `task_queue_init` says which of these it is and leaves the queue as it was.
task_queue_init_refused :
    (calloc_ok : Bool) (queue : Option TaskQueue) (capacity : ℕ)
    → (task_queue_init calloc_ok none capacity ≡ (error_invalid_argument, none))
      × ((capacity ≡ 0) ⊎ (max_capacity < capacity)
          → task_queue_init calloc_ok queue capacity ≡ (error_invalid_argument, queue))
      × ((old : TaskQueue)
          → 0 < capacity
          → capacity ≤ max_capacity
          → task_queue_init false (some old) capacity ≡ (error_allocation, some old))
unfolding task_queue_init init
task_queue_init_refused calloc_ok none capacity = (refl, λ d. refl, λ old p m. ground arith)
task_queue_init_refused calloc_ok (some q) capacity =
    (refl, λ d. ground arith, λ old p m. ground arith)

-- A valid queue is full or empty exactly where the bounded queue is.
pub is_full_lem :
    {q : TaskQueue} {ts : List ℕ}
    → Holds q ts
    → (is_full q ≡ (length ts == q.capacity)) × (is_empty q ≡ (length ts == 0))
unfolding is_full is_empty
is_full_lem h = (ground (arith, h), ground (arith, h))
