-- ===== src/Sync/Windows/Balance.antt =====
-- Memory, critical sections and handles that src/platform/windows/sync_windows.c holds.
use concurrent_task_scheduli.Base.{
  ℕ, zero, suc, ◌+◌, ◌*◌, ◌++◌, ◌≡◌, refl, ◌∙◌, ap, Bool, true, false, Option, none, some, List, [],
  ◌∷◌, arith,
}
use concurrent_task_scheduli.Sync.Windows.{
  NativeCall, malloc, free, initialize_critical_section, delete_critical_section, begin_thread,
  close_handle, SchedThread, sched_mutex_init, sched_mutex_destroy, sched_mutex_lock,
  sched_mutex_unlock, sched_condition_init, sched_condition_destroy, sched_condition_wait,
  sched_condition_signal, sched_condition_broadcast, sched_thread_create, sched_thread_join,
  sched_thread_destroy,
}
use concurrent_task_scheduli.Sync.Windows.Objects.{
  Objects, Operation, mutex_init, mutex_destroy, mutex_lock, mutex_unlock, condition_init,
  condition_destroy, condition_wait, condition_signal, condition_broadcast, thread_create,
  thread_runs, thread_join, thread_destroy, perform, fits, Series, nothing, next,
}

-- What is held at a time.
pub record Holdings : Type 0 where
  pub blocks : ℕ
  pub sections : ℕ
  pub handles : ℕ

-- One less, if there is one.
abbrev pred? : ℕ → Option ℕ
pred? zero = none
pred? (suc n) = some n

-- One call; it is `none` to give back what is not held.
unfoldable pub after_call : NativeCall → Holdings → Option Holdings
after_call (malloc true) h = some (record h { blocks = suc h.blocks })
after_call free h = elim (pred? h.blocks) [ none ↦ none | some n ↦ some (record h { blocks = n }) ]
after_call (initialize_critical_section true) h = some (record h { sections = suc h.sections })
after_call delete_critical_section h = elim (pred? h.sections) [
  | none ↦ none
  | some n ↦ some (record h { sections = n })
]
after_call (begin_thread true) h = some (record h { handles = suc h.handles })
after_call close_handle h = elim (pred? h.handles) [
  | none ↦ none
  | some n ↦ some (record h { handles = n })
]
after_call c h = some h

unfoldable pub after_calls : List NativeCall → Holdings → Option Holdings
after_calls [] h = some h
after_calls (c ∷ cs) h = elim (after_call c h) [ none ↦ none | some h' ↦ after_calls cs h' ]

abbrev bit : Bool → ℕ
bit false = 0
bit true = 1

abbrev go_on : List NativeCall → Option Holdings → Option Holdings
go_on ds none = none
go_on ds (some h) = after_calls ds h

after_calls-append :
    (cs ds : List NativeCall) (h : Holdings)
    → after_calls (cs ++ ds) h ≡ go_on ds (after_calls cs h)
unfolding after_calls
after_calls-append [] ds h = refl
after_calls-append (c ∷ cs) ds h =
    elim (after_call c h)
      as (λ x.
        elim x as (λ y. Option Holdings) [ none ↦ none | some h' ↦ after_calls (cs ++ ds) h' ]
        ≡ go_on ds
            (elim x as (λ y. Option Holdings) [ none ↦ none | some h' ↦ after_calls cs h' ])) [
              | none ↦ refl
              | some h' ↦ after_calls-append cs ds h'
            ]

module _ {C R : Type 0} where
  abbrev thread_count : SchedThread C R → ℕ
  thread_count none = 0
  thread_count (some start) = 1

  -- What the objects that are set up need.
  abbrev pub needs : Objects C R → Holdings
  needs o = record {
    blocks = bit o.mutex + (bit o.condition + 2 * thread_count o.thread);
    sections = bit o.mutex;
    handles = thread_count o.thread;
  }

  perform_balanced :
      (op : Operation C R) (o : Objects C R)
      → fits op o ≡ true
      → after_calls (perform op o).1 (needs o) ≡ some (needs (perform op o).0)
  unfolding after_calls after_call perform fits sched_mutex_init sched_mutex_destroy
      sched_mutex_lock sched_mutex_unlock sched_condition_init sched_condition_destroy
      sched_condition_wait sched_condition_signal sched_condition_broadcast sched_thread_create
      sched_thread_join sched_thread_destroy
  perform_balanced (mutex_init a i) o h = ground (arith, h)
  perform_balanced mutex_destroy o h = ground (arith, h)
  perform_balanced mutex_lock o h = ground (arith, h)
  perform_balanced mutex_unlock o h = ground (arith, h)
  perform_balanced (condition_init a) o h = ground (arith, h)
  perform_balanced condition_destroy o h = ground (arith, h)
  perform_balanced (condition_wait s) o h = ground (arith, h)
  perform_balanced condition_signal o h = ground (arith, h)
  perform_balanced condition_broadcast o h = ground (arith, h)
  perform_balanced (thread_create z a s b f c) o h = ground (arith, h)
  perform_balanced thread_runs o h = ground (arith, h)
  perform_balanced (thread_join w r) o h = ground (arith, h)
  perform_balanced thread_destroy o h = ground (arith, h)

  -- Any series of operations, whatever Windows and the allocator answer, in which an object is set up only
  -- while it is not: its calls never give back what is not held, and what they leave held is exactly
  -- what the objects need that are set up at its end. So nothing leaks, a failed operation included.
  pub nothing_leaks :
      {o o' : Objects C R} {cs : List NativeCall}
      → Series o cs o'
      → after_calls cs (needs o) ≡ some (needs o')
  unfolding after_calls
  nothing_leaks nothing = refl
  nothing_leaks (next {o = o} {o' = o'} {cs = cs} op h s) =
      let before = perform_balanced op o h in
      after_calls-append (perform op o).1 cs (needs o) ∙ ap (go_on cs) before ∙ nothing_leaks s
