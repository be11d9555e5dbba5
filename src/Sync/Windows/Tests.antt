-- ===== src/Sync/Windows/Tests.antt =====
-- A program over src/platform/windows/sync_windows.c.
use concurrent_task_scheduli.Base.{ℕ, ◌≡◌, refl, true, false, none, some, suc, List, [], ◌∷◌}
use concurrent_task_scheduli.Sync.Windows.{
  NativeCall, malloc, free, initialize_critical_section, begin_thread, sched_mutex_init,
  sched_thread_create, sched_thread_join,
}
use concurrent_task_scheduli.Sync.Windows.Objects.{
  Objects, mutex_init, thread_create, perform, fits, nothing, next, Series,
}
use concurrent_task_scheduli.Sync.Windows.Balance.{after_calls, needs, nothing_leaks}
use concurrent_task_scheduli.Sync.Windows.Outcomes.{has_run, thread_result_delivered}

abbrev no_objects : Objects ℕ ℕ
no_objects = record { mutex = false; condition = false; thread = none }

-- A mutex is set up, a thread is not created for want of memory, and then it is.
abbrev at_work : Objects ℕ ℕ
at_work = record {
  mutex = true;
  condition = false;
  thread = some (record { function = λ n. suc n; user_context = 4; result = 0 });
}

abbrev calls_made : List NativeCall
calls_made =
    malloc true
    ∷ initialize_critical_section true
    ∷ malloc true
    ∷ malloc false
    ∷ free
    ∷ malloc true
    ∷ malloc true
    ∷ begin_thread true
    ∷ []

at_work_reached : Series no_objects calls_made at_work
unfolding perform fits sched_mutex_init sched_thread_create
at_work_reached = next (mutex_init true true) refl (
    next (thread_create 0 true false false (some (λ n. suc n)) 4) refl
      (next (thread_create 0 true true true (some (λ n. suc n)) 4) refl nothing))

nothing_leaks_example : after_calls calls_made (needs no_objects) ≡ some (needs at_work)
nothing_leaks_example = nothing_leaks at_work_reached

thread_result_delivered_example :
    (sched_thread_join true
      (has_run
        (sched_thread_create {C = ℕ} {R = ℕ} 0 true true true
          (some none)
          (some (λ n. suc n))
          4).object)
      (some 7)).1
    ≡ some 5
unfolding sched_thread_create sched_thread_join
thread_result_delivered_example =
    thread_result_delivered (λ n. suc n) 4 0 7 none true true true true refl refl
