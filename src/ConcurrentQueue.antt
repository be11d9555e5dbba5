-- ===== src/ConcurrentQueue.antt =====
-- src/concurrent_task_queue.c without its profiling: a task queue behind a mutex, with two conditions
-- on which consumers and producers wait. Here: the state, and the calls that set it up, shut it down
-- and read it. Insertions and removals are in the children Put and Take.
pub mod Put
pub mod Take
pub mod System
pub mod Profile
use concurrent_task_scheduli.Base.{
  ℕ, Bool, true, false, not, ◌||◌, ◌&&◌, Option, none, some, ltb, ◌==◌, if◌then◌else◌, Pointer,
}
use concurrent_task_scheduli.Sync
use concurrent_task_scheduli.Sync.{SchedSyncResult, has_failed}
use concurrent_task_scheduli.TaskQueue
use concurrent_task_scheduli.TaskQueue.{
  TaskQueue, TaskQueueResult, enqueue, dequeue, peek, is_empty, is_full, is_null,
}

pub data ConcurrentTaskQueueResult : Type 0 where
  ok error_invalid_argument error_allocation error_system : ConcurrentTaskQueueResult
  error_full error_empty error_shutdown : ConcurrentTaskQueueResult

-- What the mutex protects: the member `queue`, and the fields of ConcurrentTaskQueueImplementation
-- besides the mutex and the conditions.
pub record Shared : Type 0 where
  pub queue : TaskQueue
  pub shutdown_requested : Bool
  pub waiting_consumers : ℕ
  pub waiting_producers : ℕ
  pub high_water_mark : ℕ

-- `bare` where the pointer `implementation` is NULL.
pub data ConcurrentTaskQueue : Type 0 where
  bare : TaskQueue → ConcurrentTaskQueue
  live : Shared → ConcurrentTaskQueue

-- What the platform answers to the calls of one operation: to the lock, to the signal if one is sent,
-- and to the unlock.
pub record Answers : Type 0 where
  pub lock : SchedSyncResult
  pub signal : SchedSyncResult
  pub unlock : SchedSyncResult

abbrev pub all_ok : Answers
all_ok = record { lock = Sync.ok; signal = Sync.ok; unlock = Sync.ok }

pub map_task_queue_result : TaskQueueResult → ConcurrentTaskQueueResult
map_task_queue_result TaskQueueResult.ok = ok
map_task_queue_result TaskQueueResult.error_invalid_argument = error_invalid_argument
map_task_queue_result TaskQueueResult.error_allocation = error_allocation
map_task_queue_result r = error_system

pub map_sync_result : SchedSyncResult → ConcurrentTaskQueueResult
map_sync_result Sync.ok = ok
map_sync_result Sync.error_invalid_argument = error_invalid_argument
map_sync_result Sync.error_system = error_system

-- What the allocator and the platform answer to `concurrent_task_queue_init`.
pub record InitAnswers : Type 0 where
  pub items_ok : Bool
  pub implementation_ok : Bool
  pub mutex : SchedSyncResult
  pub not_empty : SchedSyncResult
  pub not_full : SchedSyncResult

abbrev pub fresh : TaskQueue → Shared
fresh q = record {
  queue = q;
  shutdown_requested = false;
  waiting_consumers = 0;
  waiting_producers = 0;
  high_water_mark = 0;
}

abbrev zeroed : TaskQueue
zeroed = record { items = none; capacity = 0; size = 0; head = 0; tail = 0 }

-- `concurrent_task_queue_init`; on failure nothing is written through `queue`.
unfoldable pub concurrent_task_queue_init :
    InitAnswers
    → Option ConcurrentTaskQueue
    → ℕ
    → ConcurrentTaskQueueResult × Option ConcurrentTaskQueue
unfolding map_task_queue_result map_sync_result
concurrent_task_queue_init a none capacity = (error_invalid_argument, none)
concurrent_task_queue_init a (some old) capacity =
    let (r, q) = TaskQueue.init a.items_ok capacity zeroed in
    if capacity == 0 || ltb TaskQueue.max_capacity capacity
    then (error_invalid_argument, some old)
    else elim r [
      | TaskQueueResult.ok ↦
          (if not a.implementation_ok
            then (error_allocation, some old)
            else if has_failed a.mutex
            then (map_sync_result a.mutex, some old)
            else if has_failed a.not_empty
            then (map_sync_result a.not_empty, some old)
            else if has_failed a.not_full
            then (map_sync_result a.not_full, some old)
            else (ok, some (live (fresh q))))
      | failure ↦ (map_task_queue_result failure, some old)
    ]

pub concurrent_task_queue_destroy : Option ConcurrentTaskQueue → Option ConcurrentTaskQueue
concurrent_task_queue_destroy none = none
concurrent_task_queue_destroy (some q) = some (bare TaskQueue.destroyed)

-- `concurrent_task_queue_shutdown` under the lock; what the two broadcasts and the unlock answer only
-- shows in the result.
unfoldable pub shutdown : Shared → Shared
shutdown s = record s { shutdown_requested = true }

pub record ShutdownAnswers : Type 0 where
  pub lock : SchedSyncResult
  pub broadcast_not_empty : SchedSyncResult
  pub broadcast_not_full : SchedSyncResult
  pub unlock : SchedSyncResult

unfoldable pub concurrent_task_queue_shutdown :
    ShutdownAnswers
    → Option ConcurrentTaskQueue
    → ConcurrentTaskQueueResult × Option ConcurrentTaskQueue
unfolding shutdown
concurrent_task_queue_shutdown a none = (error_invalid_argument, none)
concurrent_task_queue_shutdown a (some (bare q)) = (error_invalid_argument, some (bare q))
concurrent_task_queue_shutdown a (some (live s)) =
    if has_failed a.lock then (error_system, some (live s)) else (
      if has_failed a.broadcast_not_empty || has_failed a.broadcast_not_full || has_failed a.unlock
          then error_system
          else ok,
      some (live (shutdown s)),
    )

-- What one wait is for its caller: the other threads' work while the mutex is free, and the result of
-- `sched_condition_wait`.
pub record Wake : Type 0 where
  pub others : Shared → Shared
  pub waited : SchedSyncResult

-- Where a loop that waits has come to: it still waits, a wait has failed, or the work is done.
pub data Progress (A : Type 0) : Type 0 where
  waiting : Progress A
  wait_failed : Progress A
  done : A → Progress A

-- The queries. A lock that fails gives the value for no queue; what the unlock answers is ignored.
module _ (lock : SchedSyncResult) where
  pub concurrent_task_queue_is_empty : Option ConcurrentTaskQueue → Bool
  concurrent_task_queue_is_empty (some (live s)) =
      if has_failed lock then true else is_empty s.queue
  concurrent_task_queue_is_empty q = true

  pub concurrent_task_queue_is_full : Option ConcurrentTaskQueue → Bool
  concurrent_task_queue_is_full (some (live s)) = if has_failed lock then false else is_full s.queue
  concurrent_task_queue_is_full q = false

  pub concurrent_task_queue_size : Option ConcurrentTaskQueue → ℕ
  concurrent_task_queue_size (some (live s)) = if has_failed lock then 0 else s.queue.size
  concurrent_task_queue_size q = 0

  pub concurrent_task_queue_capacity : Option ConcurrentTaskQueue → ℕ
  concurrent_task_queue_capacity (some (live s)) = if has_failed lock then 0 else s.queue.capacity
  concurrent_task_queue_capacity q = 0

-- `ConcurrentTaskQueueRuntimeSnapshot` of src/internal/scheduler_observability.h.
pub record RuntimeSnapshot : Type 0 where
  pub capacity : ℕ
  pub current_size : ℕ
  pub high_water_mark : ℕ

-- The snapshot that is written through the argument, if the call succeeds.
unfoldable pub concurrent_task_queue_capture_runtime_snapshot :
    Answers → Option ConcurrentTaskQueue → Option RuntimeSnapshot
concurrent_task_queue_capture_runtime_snapshot a (some (live s)) =
    if has_failed a.lock || has_failed a.unlock
    then none
    else some (record {
      capacity = s.queue.capacity;
      current_size = s.queue.size;
      high_water_mark = s.high_water_mark;
    })
concurrent_task_queue_capture_runtime_snapshot a q = none
