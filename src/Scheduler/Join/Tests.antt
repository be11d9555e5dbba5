-- ===== src/Scheduler/Join/Tests.antt =====
-- A scheduler of src/scheduler.c with two workers, set up, joined and destroyed.
use concurrent_task_scheduli.Base.{
  ◌≢◌, ℕ, ◌≡◌, refl, inl, true, false, none, some, List, [], ◌∷◌, arith, ◌==◌, if◌then◌else◌,
}
use concurrent_task_scheduli.Sync
use concurrent_task_scheduli.Sync.{SchedSyncResult}
use concurrent_task_scheduli.Scheduler.{
  ok, error_system, error_shutdown, error_invalid_state, failed, shutting_down, stopped,
}
use concurrent_task_scheduli.Scheduler.Crew.{result_ok, no_crew, note_released}
use concurrent_task_scheduli.Scheduler.Worker.{WorkerContext, cleared, add_saturating}
use concurrent_task_scheduli.Scheduler.Engine.{Engine}
use concurrent_task_scheduli.Scheduler.Release.{
  has_thread, ReleaseAnswers, release_workers, settle_workers, add_slots, add_slot,
}
use concurrent_task_scheduli.Scheduler.Release.Added.{
  Added, one_slot, no_slot, settle_workers-Added,
}
use concurrent_task_scheduli.Scheduler.Join.{
  InitAnswers, JoinCallAnswers, scheduler_init, scheduler_join, scheduler_destroy,
}
use concurrent_task_scheduli.Scheduler.Join.Returns.{
  Move, comes, departs, moved, all_gone, in_wait, join_returns,
}
use concurrent_task_scheduli.Scheduler.Join.Result.{
  InitEnd, scheduler_init_lem, joined_destructible, unjoined_kept,
}
use concurrent_task_scheduli.Scheduler.Start.Tests.{nothing_else, joins_all, new_engine}

-- The join of the thread `k` fails, if there is one.
abbrev joins_but : ℕ → ReleaseAnswers
joins_but k = record {
  joins = λ i. record {
    meanwhile = nothing_else;
    join = if i == k then Sync.error_system else Sync.ok;
    returned = result_ok;
    lock = Sync.ok;
    unlock = Sync.ok;
  };
  lock = Sync.ok;
  unlock = Sync.ok;
}

abbrev joins_all_ok : JoinCallAnswers
joins_all_ok = record {
  lock = Sync.ok;
  pauses = [];
  unlock = Sync.ok;
  release = joins_all;
  state_lock = Sync.ok;
  state_unlock = Sync.ok;
}

abbrev joins_but_first : JoinCallAnswers
joins_but_first = record {
  lock = Sync.ok;
  pauses = [];
  unlock = Sync.ok;
  release = joins_but 0;
  state_lock = Sync.ok;
  state_unlock = Sync.ok;
}

-- Two workers that have served and end, after a shutdown.
abbrev served : WorkerContext
served = record cleared { dequeued_count = 3 }

abbrev ending : Engine
ending = record new_engine {
  lifecycle = record new_engine.lifecycle { state = shutting_down };
  crew = record no_crew { started_worker_count = 2; created_worker_count = 2 };
  threads = some (true ∷ true ∷ []);
  worker_contexts = some (served ∷ served ∷ []);
  worker_sync_initialized = true;
}

joined_destructible_example :
    (e' : Engine) × (scheduler_join false joins_all_ok (some (some ending))
      ≡ (some (release_workers false joins_all ending).0, some (some e')))
    × (e'.lifecycle.state ≡ stopped)
    × (scheduler_destroy Sync.ok Sync.ok (some (some e')) ≡ (ok, some none))
joined_destructible_example =
    joined_destructible false joins_all_ok ending (record { state = inl refl; idle = refl }) refl
      refl refl refl (λ i. refl) refl Sync.ok Sync.ok refl refl

unjoined_kept_example :
    (e' : Engine) × (scheduler_join false joins_but_first (some (some ending))
      ≡ (some error_system, some (some e')))
    × (e'.lifecycle.state ≡ failed)
    × (has_thread 0 e'.threads ≡ true)
    × (scheduler_destroy Sync.ok Sync.ok (some (some e')) ≡ (error_invalid_state, some (some e')))
unjoined_kept_example =
    unjoined_kept false joins_but_first ending (record { state = inl refl; idle = refl }) refl refl
      refl refl 0 (omega arith) refl refl Sync.ok Sync.ok refl

abbrev init_answers : InitAnswers
init_answers = record {
  implementation_ok = true;
  queue = record {
    items_ok = true;
    implementation_ok = true;
    mutex = Sync.ok;
    not_empty = Sync.ok;
    not_full = Sync.ok;
  };
  mutex = Sync.ok;
  condition = Sync.ok;
}

scheduler_init_lem_example :
    InitEnd 2 (some none) (scheduler_init init_answers (some none) 1 2 true)
scheduler_init_lem_example = scheduler_init_lem init_answers (some none) 1 2 true

settle_workers-Added_example :
    Added 2 (served ∷ served ∷ []) ending.sums (settle_workers ending).sums
unfolding settle_workers add_slots add_slot add_saturating note_released
settle_workers-Added_example =
    settle_workers-Added ending refl
      (one_slot (omega arith) (omega arith) (omega arith) (omega arith)
        (one_slot (omega arith) (omega arith) (omega arith) (omega arith) no_slot))
      (record {
        dequeued = omega arith;
        started = omega arith;
        succeeded = omega arith;
        failed = omega arith;
      })
      refl

-- Two submitters are left; the first wait is woken in vain, and in the second both leave and a third is turned
-- away.
abbrev busy : Engine
busy = record ending { lifecycle = record ending.lifecycle { active_submitter_count = 2 } }

abbrev both_leave : List Move
both_leave = departs Sync.ok ok ∷ comes ∷ departs Sync.ok error_shutdown ∷ []

abbrev waits_twice : JoinCallAnswers
waits_twice = record joins_all_ok {
  pauses =
      record { others = moved []; waited = Sync.ok }
      ∷ record { others = moved both_leave; waited = Sync.ok }
      ∷ [];
}

join_returns_example : (scheduler_join false waits_twice (some (some busy))).0 ≢ none
join_returns_example =
    join_returns false waits_twice busy {n = 2} (omega arith)
      (in_wait [] (λ s. refl) (in_wait both_leave (λ s. refl) all_gone))
