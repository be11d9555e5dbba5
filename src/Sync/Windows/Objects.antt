-- ===== src/Sync/Windows/Objects.antt =====
-- Programs over src/platform/windows/sync_windows.c: series of its operations on a mutex, a condition and
-- a thread.
use concurrent_task_scheduli.Base.{◌≡◌, Bool, true, false, not, Option, none, some, List, [], ◌++◌}
use concurrent_task_scheduli.Sync.Windows.{
  NativeCall, SchedMutex, SchedCondition, SchedThread, sched_mutex_init, sched_mutex_destroy,
  sched_mutex_lock, sched_mutex_unlock, sched_condition_init, sched_condition_destroy,
  sched_condition_wait, sched_condition_signal, sched_condition_broadcast, windows_thread_entry,
  sched_thread_create, sched_thread_join, sched_thread_destroy,
}

-- A mutex, a condition and a thread of one program.
pub record Objects (C R : Type 0) : Type 0 where
  pub mutex : SchedMutex
  pub condition : SchedCondition
  pub thread : SchedThread C R

-- The operations, with what Windows answers them.
pub data Operation (C R : Type 0) : Type 0 where
  mutex_init : (allocated initialized : Bool) → Operation C R
  mutex_destroy mutex_lock mutex_unlock : Operation C R
  condition_init : (allocated : Bool) → Operation C R
  condition_destroy condition_signal condition_broadcast : Operation C R
  condition_wait : (slept : Bool) → Operation C R
  thread_create :
      (zero_result : R) (allocated allocated_start begun : Bool)
      → Option (C → R)
      → C
      → Operation C R
  thread_runs : Operation C R
  thread_join : (waited : Bool) → Option R → Operation C R
  thread_destroy : Operation C R

abbrev pub get {ℓ} : {A : Type ℓ} → A → Option A → A
get a none = a
get a (some b) = b

module _ {C R : Type 0} where
  unfoldable pub perform : Operation C R → Objects C R → Objects C R × List NativeCall
  perform (mutex_init a i) o =
      let d = sched_mutex_init a i (some o.mutex) in
      (record o { mutex = get o.mutex d.object }, d.calls)
  perform mutex_destroy o =
      let (m, cs) = sched_mutex_destroy (some o.mutex) in (record o { mutex = get o.mutex m }, cs)
  perform mutex_lock o = (o, (sched_mutex_lock (some o.mutex)).calls)
  perform mutex_unlock o = (o, (sched_mutex_unlock (some o.mutex)).calls)
  perform (condition_init a) o =
      let d = sched_condition_init a (some o.condition) in
      (record o { condition = get o.condition d.object }, d.calls)
  perform condition_destroy o =
      let (c, cs) = sched_condition_destroy (some o.condition) in
      (record o { condition = get o.condition c }, cs)
  perform condition_signal o = (o, (sched_condition_signal (some o.condition)).calls)
  perform condition_broadcast o = (o, (sched_condition_broadcast (some o.condition)).calls)
  perform (condition_wait s) o =
      (o, (sched_condition_wait s (some o.condition) (some o.mutex)).calls)
  perform (thread_create z a s b f c) o =
      let d = sched_thread_create z a s b (some o.thread) f c in
      (record o { thread = get o.thread d.object }, d.calls)
  perform thread_runs o = (
    record o { thread = elim o.thread [ none ↦ none | some s ↦ some (windows_thread_entry s) ] },
    [],
  )
  perform (thread_join w r) o = (o, (sched_thread_join w (some o.thread) r).0.calls)
  perform thread_destroy o =
      let (t, cs) = sched_thread_destroy (some o.thread) in
      (record o { thread = get o.thread t }, cs)

  -- An object is set up only where it is not.
  unfoldable pub fits : Operation C R → Objects C R → Bool
  fits (mutex_init a i) o = not o.mutex
  fits (condition_init a) o = not o.condition
  fits (thread_create z a s b f c) o = elim o.thread [ none ↦ true | some s ↦ false ]
  fits op o = true

  -- A series of operations, with all their calls.
  pub data Series : Objects C R → List NativeCall → Objects C R → Type 0 where
    nothing : {o : Objects C R} → Series o [] o
    next :
        {o o' : Objects C R} {cs : List NativeCall} (op : Operation C R)
        → fits op o ≡ true
        → Series (perform op o).0 cs o'
        → Series o ((perform op o).1 ++ cs) o'
