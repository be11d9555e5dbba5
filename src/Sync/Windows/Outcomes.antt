-- ===== src/Sync/Windows/Outcomes.antt =====
-- What the operations of src/platform/windows/sync_windows.c give back.
use concurrent_task_scheduli.Base.{◌≡◌, refl, Bool, true, false, Option, none, some, List, [], ◌∷◌}
use concurrent_task_scheduli.Sync.{ok, error_invalid_argument, error_system}
use concurrent_task_scheduli.Sync.Windows.{
  NativeCall, Done, done, SchedMutex, SchedCondition, SchedThread, sched_mutex_init,
  sched_mutex_lock, sched_mutex_unlock, sched_condition_init, sched_condition_wait,
  sched_condition_signal, sched_condition_broadcast, windows_thread_entry, sched_thread_create,
  sched_thread_join,
}

-- How an operation on `before` may end: it succeeds by its calls; it refuses its arguments before any call;
-- or a call fails, and the object is as it was.
pub data IsSound {ℓ} {A : Type ℓ} (before : Option A) : Done A → Type ℓ where
  succeeds :
      {a : A} {c : NativeCall} {cs : List NativeCall} → IsSound before (done ok (some a) (c ∷ cs))
  refuses : IsSound before (done error_invalid_argument before [])
  fails :
      {c : NativeCall} {cs : List NativeCall} → IsSound before (done error_system before (c ∷ cs))

mutex_init-IsSound :
    (allocated initialized : Bool) (m : Option SchedMutex)
    → IsSound m (sched_mutex_init allocated initialized m)
unfolding sched_mutex_init
mutex_init-IsSound allocated initialized none = refuses
mutex_init-IsSound false initialized (some m) = fails
mutex_init-IsSound true false (some m) = fails
mutex_init-IsSound true true (some m) = succeeds

condition_init-IsSound :
    (allocated : Bool) (c : Option SchedCondition) → IsSound c (sched_condition_init allocated c)
unfolding sched_condition_init
condition_init-IsSound allocated none = refuses
condition_init-IsSound false (some c) = fails
condition_init-IsSound true (some c) = succeeds

lock-IsSound : (m : Option SchedMutex) → IsSound m (sched_mutex_lock m)
unfolding sched_mutex_lock
lock-IsSound none = refuses
lock-IsSound (some false) = refuses
lock-IsSound (some true) = succeeds

unlock-IsSound : (m : Option SchedMutex) → IsSound m (sched_mutex_unlock m)
unfolding sched_mutex_unlock
unlock-IsSound none = refuses
unlock-IsSound (some false) = refuses
unlock-IsSound (some true) = succeeds

signal-IsSound : (c : Option SchedCondition) → IsSound c (sched_condition_signal c)
unfolding sched_condition_signal
signal-IsSound none = refuses
signal-IsSound (some false) = refuses
signal-IsSound (some true) = succeeds

broadcast-IsSound : (c : Option SchedCondition) → IsSound c (sched_condition_broadcast c)
unfolding sched_condition_broadcast
broadcast-IsSound none = refuses
broadcast-IsSound (some false) = refuses
broadcast-IsSound (some true) = succeeds

wait-IsSound :
    (slept : Bool) (c : Option SchedCondition) (m : Option SchedMutex)
    → IsSound c (sched_condition_wait slept c m)
unfolding sched_condition_wait
wait-IsSound slept none m = refuses
wait-IsSound slept (some false) m = refuses
wait-IsSound slept (some true) none = refuses
wait-IsSound slept (some true) (some false) = refuses
wait-IsSound true (some true) (some true) = succeeds
wait-IsSound false (some true) (some true) = fails

module _ {C R : Type 0} where
  create-IsSound :
      (z : R) (allocated allocated_start begun : Bool) (t : Option (SchedThread C R))
      (f : Option (C → R)) (c : C)
      → IsSound t (sched_thread_create z allocated allocated_start begun t f c)
  unfolding sched_thread_create
  create-IsSound z a s b none f c = refuses
  create-IsSound z a s b (some t) none c = refuses
  create-IsSound z true true true (some t) (some f) c = succeeds
  create-IsSound z true true false (some t) (some f) c = fails
  create-IsSound z true false b (some t) (some f) c = fails
  create-IsSound z false s b (some t) (some f) c = fails

  join-IsSound :
      (waited : Bool) (t : Option (SchedThread C R)) (r : Option R)
      → IsSound t (sched_thread_join waited t r).0
  unfolding sched_thread_join
  join-IsSound waited none r = refuses
  join-IsSound waited (some none) r = refuses
  join-IsSound true (some (some start)) r = succeeds
  join-IsSound false (some (some start)) r = fails

  -- Each of the nine operations that give a result succeeds, having made its calls; or it refuses its
  -- arguments, with no call made; or it gives SYSTEM after its calls. Unless it succeeds, the
  -- object is as it was.
  operations-IsSound :
      (m : Option SchedMutex) (c : Option SchedCondition) (t : Option (SchedThread C R))
      (f : Option (C → R)) (context : C) (z : R) (r : Option R) (x y w : Bool)
      → IsSound m (sched_mutex_init x y m)
        × IsSound m (sched_mutex_lock m)
        × IsSound m (sched_mutex_unlock m)
        × IsSound c (sched_condition_init x c)
        × IsSound c (sched_condition_wait x c m)
        × IsSound c (sched_condition_signal c)
        × IsSound c (sched_condition_broadcast c)
        × IsSound t (sched_thread_create z x y w t f context)
        × IsSound t (sched_thread_join x t r).0
  operations-IsSound m c t f context z r x y w = (
    mutex_init-IsSound x y m,
    lock-IsSound m,
    unlock-IsSound m,
    condition_init-IsSound x c,
    wait-IsSound x c m,
    signal-IsSound c,
    broadcast-IsSound c,
    create-IsSound z x y w t f context,
    join-IsSound x t r,
  )

  -- The thread has run.
  abbrev pub has_run : Option (SchedThread C R) → Option (SchedThread C R)
  has_run none = none
  has_run (some none) = some none
  has_run (some (some start)) = some (some (windows_thread_entry start))

  -- Where a thread has been created, has run, and is joined, each with success: the join hands over what
  -- the thread's function gives for its context.
  pub thread_result_delivered :
      (f : C → R) (context : C) (z r : R) (t : SchedThread C R) (x y w waited : Bool)
      → (sched_thread_create z x y w (some t) (some f) context).result ≡ ok
      → (sched_thread_join waited
          (has_run (sched_thread_create z x y w (some t) (some f) context).object)
          (some r)).0.result
        ≡ ok
      → (sched_thread_join waited
          (has_run (sched_thread_create z x y w (some t) (some f) context).object)
          (some r)).1
        ≡ some (f context)
  unfolding sched_thread_create sched_thread_join windows_thread_entry
  thread_result_delivered f context z r t true true true true h k = refl
  thread_result_delivered f context z r t true true true false h k = cc
  thread_result_delivered f context z r t true true false waited h k = cc
  thread_result_delivered f context z r t true false w waited h k = cc
  thread_result_delivered f context z r t false y w waited h k = cc
