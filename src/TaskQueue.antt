-- ===== src/TaskQueue.antt =====
-- src/task_queue.c: a bounded queue of task pointers over a circular array.
pub mod Inv
pub mod Refine
pub mod Fifo
mod Tests
use concurrent_task_scheduli.Base.{
  ℕ, ◌+◌, ◌-◌, ◌/◌, ◌^◌, Bool, true, false, not, ◌||◌, ◌&&◌, Option, none, some, List, [], ltb,
  ◌==◌, ◌/=◌, if◌then◌else◌, word_max, add_word, sub_word, Pointer, through, get_elem?, set,
  replicate,
}

pub data TaskQueueResult : Type 0 where
  ok error_invalid_argument error_allocation error_full error_empty : TaskQueueResult

-- `items` is `none` where the pointer is NULL.
pub record TaskQueue : Type 0 where
  pub items : Option (List Pointer)
  pub capacity : ℕ
  pub size : ℕ
  pub head : ℕ
  pub tail : ℕ

-- The cells behind `items`; there are none behind NULL.
abbrev pub cells_of : Option (List Pointer) → List Pointer
cells_of none = []
cells_of (some xs) = xs

-- `items[i]`; NULL also for a read out of range, which valid queues never make.
abbrev pub read_cell : List Pointer → ℕ → Pointer
read_cell xs i = elim (get_elem? xs i) [ none ↦ none | some p ↦ p ]

abbrev write_cell : Option (List Pointer) → ℕ → Pointer → Option (List Pointer)
write_cell none i p = none
write_cell (some xs) i p = some (set xs i p)

abbrev pub is_null {ℓ} : {A : Type ℓ} → Option A → Bool
is_null none = true
is_null (some a) = false

-- SIZE_MAX / sizeof(Task *), with pointers of 8 bytes
abbrev pub max_capacity : ℕ
max_capacity = word_max / 8

-- `task_queue_init` on storage that is not NULL. `calloc_ok` says whether `calloc` finds the memory;
-- the cells that it returns are NULL.
pub init : Bool → ℕ → TaskQueue → TaskQueueResult × TaskQueue
init calloc_ok capacity queue =
    if capacity == 0 || ltb max_capacity capacity
    then (error_invalid_argument, queue)
    else if calloc_ok
    then (ok, fresh)
    else (error_allocation, queue)
  where
    fresh : TaskQueue
    fresh = record {
      items = some (replicate capacity none);
      capacity = capacity;
      size = 0;
      head = 0;
      tail = 0;
    }

pub task_queue_init : Bool → Option TaskQueue → ℕ → TaskQueueResult × Option TaskQueue
unfolding init
task_queue_init calloc_ok queue capacity =
    through queue error_invalid_argument (init calloc_ok capacity)

-- `task_queue_destroy` on a queue that is not NULL.
abbrev pub destroyed : TaskQueue
destroyed = record { items = none; capacity = 0; size = 0; head = 0; tail = 0 }

pub task_queue_destroy : Option TaskQueue → Option TaskQueue
task_queue_destroy none = none
task_queue_destroy (some queue) = some destroyed

-- The checks that enqueue, dequeue and peek make before they touch the array.
pub is_refused : TaskQueue → Bool
is_refused queue =
    is_null queue.items
    || queue.capacity == 0
    || ltb queue.capacity queue.size
    || not (ltb queue.head queue.capacity)
    || not (ltb queue.tail queue.capacity)

-- The index after `i`: back to 0 after the last.
pub next_index : ℕ → ℕ → ℕ
next_index capacity i = if i == sub_word capacity 1 then 0 else add_word i 1

-- `task_queue_enqueue` on a queue that is not NULL.
unfoldable pub enqueue : Pointer → TaskQueue → TaskQueueResult × TaskQueue
unfolding is_refused next_index
enqueue task queue =
    if is_null task || is_refused queue
    then (error_invalid_argument, queue)
    else if queue.size == queue.capacity
    then (error_full, queue)
    else (ok, inserted)
  where
    inserted : TaskQueue
    inserted = record queue {
      items = write_cell queue.items queue.tail task;
      tail = next_index queue.capacity queue.tail;
      size = add_word queue.size 1;
    }

pub task_queue_enqueue : Option TaskQueue → Pointer → TaskQueueResult × Option TaskQueue
unfolding enqueue
task_queue_enqueue queue task = through queue error_invalid_argument (enqueue task)

-- `task_queue_dequeue` on a queue that is not NULL. `out` says whether the argument `task` is not NULL;
-- the option is what is written through it.
unfoldable pub dequeue : Bool → TaskQueue → (TaskQueueResult × Option Pointer) × TaskQueue
unfolding is_refused next_index
dequeue out queue =
    if not out || is_refused queue
    then ((error_invalid_argument, none), queue)
    else if queue.size == 0
    then ((error_empty, none), queue)
    else if is_null (read_cell (cells_of queue.items) queue.head)
    then ((error_invalid_argument, none), queue)
    else ((ok, some (read_cell (cells_of queue.items) queue.head)), removed)
  where
    removed : TaskQueue
    removed = record queue {
      items = write_cell queue.items queue.head none;
      head = next_index queue.capacity queue.head;
      size = sub_word queue.size 1;
    }

pub task_queue_dequeue :
    Option TaskQueue → Bool → (TaskQueueResult × Option Pointer) × Option TaskQueue
unfolding dequeue
task_queue_dequeue queue out = through queue (error_invalid_argument, none) (dequeue out)

-- `task_queue_peek` on a queue that is not NULL; it changes nothing.
unfoldable pub peek : Bool → TaskQueue → TaskQueueResult × Option Pointer
unfolding is_refused
peek out queue =
    if not out || is_refused queue
    then (error_invalid_argument, none)
    else if queue.size == 0
    then (error_empty, none)
    else if is_null (read_cell (cells_of queue.items) queue.head)
    then (error_invalid_argument, none)
    else (ok, some (read_cell (cells_of queue.items) queue.head))

pub task_queue_peek : Option TaskQueue → Bool → TaskQueueResult × Option Pointer
unfolding peek
task_queue_peek none out = (error_invalid_argument, none)
task_queue_peek (some queue) out = peek out queue

-- The queries on a queue that is not NULL.
unfoldable pub is_empty : TaskQueue → Bool
is_empty queue = queue.size == 0

unfoldable pub is_full : TaskQueue → Bool
is_full queue =
    queue.capacity /= 0 && not (ltb queue.capacity queue.size) && queue.size == queue.capacity

pub task_queue_is_empty : Option TaskQueue → Bool
unfolding is_empty
task_queue_is_empty none = true
task_queue_is_empty (some queue) = is_empty queue

pub task_queue_is_full : Option TaskQueue → Bool
unfolding is_full
task_queue_is_full none = false
task_queue_is_full (some queue) = is_full queue

pub task_queue_size : Option TaskQueue → ℕ
task_queue_size none = 0
task_queue_size (some queue) = queue.size

pub task_queue_capacity : Option TaskQueue → ℕ
task_queue_capacity none = 0
task_queue_capacity (some queue) = queue.capacity
