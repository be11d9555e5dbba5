-- ===== src/Lib.antt =====
-- The concurrent task scheduling engine, a C library: tasks, a bounded queue of tasks, the same queue
-- shared by threads, a scheduler whose workers run the tasks of such a queue, and the snapshots by which
-- the scheduler is observed and checked. Paths are from the repository's root.
--
-- How the parts interact: the scheduler (src/scheduler.c) owns a concurrent queue
-- (src/concurrent_task_queue.c), which is a task queue (src/task_queue.c) behind a mutex and two
-- conditions. A submission registers itself under the scheduler's lifecycle mutex, puts the task into the
-- queue, and leaves again under that mutex; shutdown closes the queue and waits for the submitters to
-- leave; workers take tasks out and count what their callbacks return. A snapshot collects the counters,
-- src/scheduler_validation.c judges it. A task (src/task.c) is a record of its own, which the queue never
-- looks into.
--
-- The files:
-- - Base: Booleans, lists, 64-bit words (`add_word`, `sub_word` wrap around) and pointers (`none` for
--   NULL) as all modules use them.
-- - Task: src/task.c and include/concurrent_scheduler/task.h. `Task` is the struct, `task_init`,
--   `task_transition_state` and `task_consume_work` have the C names; the values of an enum's type
--   that name no member are the constructor `unknown`.
-- - TaskQueue: src/task_queue.c. `TaskQueue` is the struct, `items` a list of cells; each operation has
--   its C name, and a shorter one (`enqueue`, `dequeue`, `peek`, `init`) where the queue is not NULL. Whether
--   calloc finds memory is an input. Fifo is the bounded queue that it should be.
-- - ConcurrentQueue: src/concurrent_task_queue.c. `Shared` is what the mutex protects; Put and Take are
--   the four operations that insert and remove. The locked part of each is a function of `Shared`
--   (`try_put`, `attempt_put`, `try_take`, `attempt_take`). A blocking operation is a loop over a list of
--   waits (`Wake`): each says what the other threads did meanwhile and what the wait answered; there is no
--   fuel, as a call whose list is used up still waits. The build flag for transition signaling is the
--   parameter `transition`.
-- - ConcurrentQueue.Profile: how the profiling build of src/concurrent_task_queue.c records a duration and an
--   occupancy of the queue, in functions of the same names. Its child Record has what the blocking
--   operations record: the groups of counters that are recorded together are functions (`note_locked`,
--   `note_waiting`, `note_returned`, `note_success`, `note_signal`), and `put_part` and `take_part` are the code from
--   the lock, or the return of a wait, to the next wait or the unlock. The readings of the timer are inputs.
-- - ConcurrentQueue.System: threads on one queue, as a relation between states whose steps are the
--   locked parts, signals, broadcasts and spurious wake-ups. Here the platform's calls succeed.
-- - Sync: the results of src/platform/sync.h. To the other models the platform is no more than that: each
--   operation takes the answers of the calls it makes. Sync.Windows has src/platform/windows/sync_windows.c
--   itself: the operations have their C names; what malloc and the calls of Windows answer is an input,
--   and the calls made are part of the outcome.
-- - Names: the functions from enum values to printed names; a value that names no member is `unknown`.
-- - Fault: src/scheduler_fault_injection.c, its occurrence counter by counter; one thread at a time.
-- - Snapshot: the structs of src/internal/scheduler_observability.h, and the two plain checks of
--   src/scheduler.c.
-- - Validation: src/scheduler_validation.c: the list of checks in the order of the code, the record of
--   what fails, and the health. Validation.Format has `scheduler_validation_format`; what vsnprintf makes
--   of a format, and what it does with a text and a buffer, are parameters.
-- - Scheduler: src/scheduler.c. `Lifecycle` is what the lifecycle mutex protects, `Engine` the whole of
--   SchedulerImplementation as the thread sees it that starts, joins or destroys it. Submit has
--   `register_submitter`, `deregister_submitter` and the two submissions, Shutdown `scheduler_shutdown`,
--   Start `scheduler_start` block by block, Release `release_workers`, Join `scheduler_init`,
--   `scheduler_join` and `scheduler_destroy`. What other threads do between two locked parts is an input
--   (`Meanwhile`, `Pause`), as are the answers of the platform and the allocator; a loop over waits runs
--   over a list of them and needs no fuel. Calls is a relation between states of any number of
--   submissions at once; it bounds the submitting threads by a number below 2 ^ 64, as each needs a
--   thread. Worker has the counters of a worker's slot, one atomic store at a time, and their sum in
--   a snapshot; Crew has the counters under the worker mutex, and the threads' steps as a relation;
--   Entry has the whole `scheduler_worker_entry`, over the list of what its removals give.
--   Capture has `scheduler_capture_snapshot`, which finds each of its three parts at its own moment.
--   Faults has the calls that configure, reset and capture the fault plan, Profiling
--   `scheduler_profiling_snapshot`. Whole is a relation between states of a scheduler at work, with its
--   submissions, its queue and its workers; here the platform's calls succeed, and one thread joins.
--
-- Not modelled: the benchmarks, and two threads that join one scheduler at once. A wait that fails is not
-- among the steps of a profiled queue. A task is a number where only its pointer matters. Memory
-- order does not show: what a mutex protects changes in locked parts only, and an atomic counter is
-- stored by one thread.
pub mod Base
pub mod Task
pub mod TaskQueue
pub mod Sync
pub mod ConcurrentQueue
pub mod Fault
pub mod Names
pub mod Snapshot
pub mod Validation
pub mod Scheduler
