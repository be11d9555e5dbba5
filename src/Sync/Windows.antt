-- ===== src/Sync/Windows.antt =====
-- src/platform/windows/sync_windows.c: mutexes, conditions and threads over the calls of Windows. What a
-- call answers is an input; which calls an operation makes, in their order, is part of its outcome.
pub mod Objects
pub mod Balance
pub mod Outcomes
mod Tests
use concurrent_task_scheduli.Base.{
  ℕ, Bool, true, false, not, ◌||◌, Option, none, some, List, [], ◌∷◌, if◌then◌else◌,
}
use concurrent_task_scheduli.Sync.{SchedSyncResult, ok, error_invalid_argument, error_system}

-- The calls of the allocator and of Windows; a Boolean says whether the call succeeds.
pub data NativeCall : Type 0 where
  malloc : Bool → NativeCall
  free : NativeCall
  initialize_critical_section : Bool → NativeCall
  delete_critical_section enter_critical_section leave_critical_section : NativeCall
  initialize_condition_variable : NativeCall
  sleep_condition_variable : Bool → NativeCall
  wake_condition_variable wake_all_condition_variable : NativeCall
  begin_thread : Bool → NativeCall
  wait_for_single_object : Bool → NativeCall
  close_handle : NativeCall

-- What an operation on an object does: its result, the object after it, its calls.
pub record Done {ℓ} (A : Type ℓ) : Type ℓ where
  pub result : SchedSyncResult
  pub object : Option A
  pub calls : List NativeCall

abbrev pub done {ℓ} : {A : Type ℓ} → SchedSyncResult → Option A → List NativeCall → Done A
done r a cs = record { result = r; object = a; calls = cs }

-- SchedMutex and SchedCondition: whether the member `implementation` is not NULL.
abbrev pub SchedMutex : Type 0
SchedMutex = Bool

abbrev pub SchedCondition : Type 0
SchedCondition = Bool

-- `allocated` and `initialized` are what malloc and InitializeCriticalSectionEx answer.
unfoldable pub sched_mutex_init : Bool → Bool → Option SchedMutex → Done SchedMutex
sched_mutex_init allocated initialized none = done error_invalid_argument none []
sched_mutex_init allocated initialized (some m) =
    if not allocated
    then done error_system (some m) (malloc false ∷ [])
    else if not initialized
    then done error_system (some m) (malloc true ∷ initialize_critical_section false ∷ free ∷ [])
    else done ok (some true) (malloc true ∷ initialize_critical_section true ∷ [])

unfoldable pub sched_mutex_destroy : Option SchedMutex → Option SchedMutex × List NativeCall
sched_mutex_destroy none = (none, [])
sched_mutex_destroy (some false) = (some false, [])
sched_mutex_destroy (some true) = (some false, delete_critical_section ∷ free ∷ [])

-- An operation on an object that needs nothing but that it is set up, and makes one call.
abbrev on_live : NativeCall → Option Bool → Done Bool
on_live call none = done error_invalid_argument none []
on_live call (some false) = done error_invalid_argument (some false) []
on_live call (some true) = done ok (some true) (call ∷ [])

unfoldable pub sched_mutex_lock : Option SchedMutex → Done SchedMutex
sched_mutex_lock mutex = on_live enter_critical_section mutex

unfoldable pub sched_mutex_unlock : Option SchedMutex → Done SchedMutex
sched_mutex_unlock mutex = on_live leave_critical_section mutex

unfoldable pub sched_condition_init : Bool → Option SchedCondition → Done SchedCondition
sched_condition_init allocated none = done error_invalid_argument none []
sched_condition_init allocated (some c) =
    if not allocated
    then done error_system (some c) (malloc false ∷ [])
    else done ok (some true) (malloc true ∷ initialize_condition_variable ∷ [])

unfoldable pub sched_condition_destroy :
    Option SchedCondition → Option SchedCondition × List NativeCall
sched_condition_destroy none = (none, [])
sched_condition_destroy (some false) = (some false, [])
sched_condition_destroy (some true) = (some false, free ∷ [])

abbrev is_live : Option Bool → Bool
is_live none = false
is_live (some b) = b

-- `slept` is what SleepConditionVariableCS answers. The mutex stays set up.
unfoldable pub sched_condition_wait :
    Bool → Option SchedCondition → Option SchedMutex → Done SchedCondition
sched_condition_wait slept condition mutex =
    if not (is_live condition) || not (is_live mutex)
    then done error_invalid_argument condition []
    else done (if slept then ok else error_system) condition (sleep_condition_variable slept ∷ [])

unfoldable pub sched_condition_signal : Option SchedCondition → Done SchedCondition
sched_condition_signal condition = on_live wake_condition_variable condition

unfoldable pub sched_condition_broadcast : Option SchedCondition → Done SchedCondition
sched_condition_broadcast condition = on_live wake_all_condition_variable condition

-- The record that a thread and its creator share. `C` is the type of a thread's context, `R` that of
-- its result.
pub record WindowsThreadStart (C R : Type 0) : Type 0 where
  pub function : C → R
  pub user_context : C
  pub result : R

-- The member `implementation` of SchedThread: NULL, or a WindowsThread, of which `start` matters.
abbrev pub SchedThread : Type 0 → Type 0 → Type 0
SchedThread C R = Option (WindowsThreadStart C R)

module _ {C R : Type 0} where
  -- What the thread does, on its own time.
  unfoldable pub windows_thread_entry : WindowsThreadStart C R → WindowsThreadStart C R
  windows_thread_entry start = record start { result = start.function start.user_context }

  -- `begun` is what _beginthreadex answers; `zero_result` is the result 0.
  unfoldable pub sched_thread_create :
      R
      → (allocated allocated_start begun : Bool) → Option (SchedThread C R)
      → Option (C → R)
      → C
      → Done (SchedThread C R)
  sched_thread_create zero_result allocated allocated_start begun none function context =
      done error_invalid_argument none []
  sched_thread_create zero_result allocated allocated_start begun (some t) none context =
      done error_invalid_argument (some t) []
  sched_thread_create zero_result allocated allocated_start begun (some t) (some f) context =
      let start : WindowsThreadStart C R = record {
        function = f;
        user_context = context;
        result = zero_result;
      } in
      if not allocated
      then done error_system (some t) (malloc false ∷ [])
      else if not allocated_start
      then done error_system (some t) (malloc true ∷ malloc false ∷ free ∷ [])
      else if not begun
      then done error_system (some t)
          (malloc true ∷ malloc true ∷ begin_thread false ∷ free ∷ free ∷ [])
      else done ok (some (some start)) (malloc true ∷ malloc true ∷ begin_thread true ∷ [])

  -- `waited`: WaitForSingleObject gives WAIT_OBJECT_0. The second part is what `result` points to
  -- after the call, where it is not NULL.
  unfoldable pub sched_thread_join :
      Bool → Option (SchedThread C R) → Option R → Done (SchedThread C R) × Option R
  sched_thread_join waited none result = (done error_invalid_argument none [], result)
  sched_thread_join waited (some none) result = (done error_invalid_argument (some none) [], result)
  sched_thread_join waited (some (some start)) result =
      if not waited
      then (done error_system (some (some start)) (wait_for_single_object false ∷ []), result)
      else (
        done ok (some (some start)) (wait_for_single_object true ∷ []),
        elim result [ none ↦ none | some r ↦ some start.result ],
      )

  unfoldable pub sched_thread_destroy :
      Option (SchedThread C R) → Option (SchedThread C R) × List NativeCall
  sched_thread_destroy none = (none, [])
  sched_thread_destroy (some none) = (some none, [])
  sched_thread_destroy (some (some start)) = (some none, close_handle ∷ free ∷ free ∷ [])
