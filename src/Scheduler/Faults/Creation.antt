-- ===== src/Scheduler/Faults/Creation.antt =====
-- A configured failure of the creation of a worker makes `scheduler_start` of src/scheduler.c fail.
use concurrent_task_scheduli.Base.{
  ℕ, zero, suc, ◌+◌, ◌≤◌, ◌<◌, ◌≡◌, ◌∙◌, refl, ap, Bool, true, false, ◌/◌, some, arith, word_mod,
  word_max, add_word, replicate,
}
use native.Mathlib.Decide.{dec_lt}
use concurrent_task_scheduli.Scheduler.Worker.{cleared}
use concurrent_task_scheduli.Sync.{SchedSyncResult, has_failed}
use concurrent_task_scheduli.Fault.{worker_creation, should_trigger, scheduler_fault_plan_configure}
use concurrent_task_scheduli.Scheduler.{
  failed, error_system, initialized, starting, increment_saturating,
}
use concurrent_task_scheduli.Scheduler.Shutdown.{start_gate, put_state}
use concurrent_task_scheduli.Scheduler.Crew.{note_created, note_startup_failure}
use concurrent_task_scheduli.Scheduler.Engine.{
  Steps, Engine, Outcome, goes, waits, ends, during, asks_fault, set_scheduler_state,
  shut_queue_down,
}
use concurrent_task_scheduli.Scheduler.Release.{release_workers}
use concurrent_task_scheduli.Scheduler.Start.{
  StartAnswers, context_size, set_thread, back_to, give_up, pass_gate, allocate, set_up_sync,
  spawn_one, spawn_from, start_steps, scheduler_start,
}
use concurrent_task_scheduli.Scheduler.Start.Ending.{IsFresh}
use concurrent_task_scheduli.Scheduler.Release.Created.{release_workers-created}
use concurrent_task_scheduli.Scheduler.Faults.{scheduler_fault_configure}

-- Giving up does not change how many workers were created.
give_up-created :
    (b : Bool) (a : StartAnswers) (e : Engine)
    → (f : Engine) × (give_up b a e ≡ ends error_system f)
      × (f.crew.created_worker_count ≡ e.crew.created_worker_count)
unfolding give_up back_to set_scheduler_state shut_queue_down
give_up-created b a e =
    let r = release_workers b a.release (shut_queue_down a.shutdown e) in
    (
      (set_scheduler_state a.state_lock a.state_unlock failed r.1).1,
      refl,
      ground (arith, release_workers-created b a.release (shut_queue_down a.shutdown e)),
    )

-- The scheduler while a start goes on, `i` workers created and as many creations asked about; the `k`-th
-- is to fail.
pub record Armed (k workers i : ℕ) (e : Engine) : Type 0 where
  pub point : e.fault_plan.point ≡ worker_creation
  pub trigger : e.fault_plan.trigger_occurrence ≡ k
  pub observed : e.fault_plan.observed_occurrence ≡ i
  pub enabled : e.fault_plan.enabled ≡ true
  pub untriggered : e.fault_plan.triggered ≡ false
  pub created : e.crew.created_worker_count ≡ i
  pub workers_set : e.worker_count ≡ workers

-- What `◌>>◌` does after the first steps.
abbrev go_on : Steps → Outcome → Outcome
go_on steps o = elim o [ goes e ↦ steps e | waits e ↦ waits e | ends r e ↦ ends r e ]

-- The creation of each worker would succeed.
pub record CanSpawn (a : StartAnswers) : Type 0 where
  pub locks : (i : ℕ) → has_failed (a.spawn i).lock ≡ false
  pub creates : (i : ℕ) → has_failed (a.spawn i).create ≡ false
  pub unlocks : (i : ℕ) → has_failed (a.spawn i).unlock ≡ false

module _ (a : StartAnswers) (can : CanSpawn a) {k workers : ℕ} (small : k < word_mod) where
  spawn_one-goes :
      (i : ℕ) (e : Engine)
      → Armed k workers i e
      → suc i < k
      → (f : Engine) × (spawn_one true a i e ≡ goes f) × Armed k workers (suc i) f
  unfolding spawn_one asks_fault should_trigger note_created during
  spawn_one-goes i e m lt =
      let plan = record e.fault_plan {
        observed_occurrence = add_word e.fault_plan.observed_occurrence 1;
      } in
      let made = record e {
        fault_plan = plan;
        crew = note_created e.crew;
        threads = set_thread true a i e.threads;
      } in
      (
        during (a.spawn i).meanwhile made,
        ground (arith, m, can.locks i, can.creates i, can.unlocks i),
        ground (arith, m),
      )

  spawn_one-fails :
      (i : ℕ) (e : Engine)
      → Armed k workers i e
      → suc i ≡ k
      → (f : Engine) × (spawn_one true a i e ≡ ends error_system f)
        × (f.crew.created_worker_count ≡ i)
  unfolding spawn_one asks_fault should_trigger note_startup_failure increment_saturating
  spawn_one-fails i e m same =
      let plan = record e.fault_plan {
        observed_occurrence = add_word e.fault_plan.observed_occurrence 1;
        triggered = true;
      } in
      let d : Engine = record e { fault_plan = plan; crew = note_startup_failure e.crew } in
      let (f, gives, kept) = give_up-created true a d in
      let there : spawn_one true a i e ≡ give_up true a d = ground (arith, m, can.locks i, same) in
      (f, there ∙ gives, kept ∙ m.created)

  -- From `i` created workers on, `n` more wanted.
  spawn_from-fails :
      (n i : ℕ) (e : Engine)
      → Armed k workers i e
      → i < k
      → k ≤ i + n
      → (f : Engine) × (spawn_from true a n i e ≡ ends error_system f)
        × (suc f.crew.created_worker_count ≡ k)
  unfolding spawn_from
  spawn_from-fails zero i e m lt enough = absurd (omega (arith, lt, enough))
  spawn_from-fails (suc n) i e m lt enough = elim (dec_lt (suc i) k) [
    | yes more ↦
        let (d, goes_on, m') = spawn_one-goes i e m more in
        let (f, stops, kept) = spawn_from-fails n (suc i) d m' more (omega (arith, enough)) in
        (f, ap (go_on (spawn_from true a n (suc i))) goes_on ∙ stops, kept)
    | no last ↦
        let same : suc i ≡ k = omega (arith, last, lt) in
        let (f, stops, kept) = spawn_one-fails i e m same in
        (f, ap (go_on (spawn_from true a n (suc i))) stops, ap suc kept ∙ same)
  ]

-- The calls of a start before the creation of the workers succeed.
pub record CanBegin (a : StartAnswers) (workers : ℕ) : Type 0 where
  pub lock : has_failed a.lock ≡ false
  pub unlock : has_failed a.unlock ≡ false
  pub threads : a.threads_ok ≡ true
  pub contexts : a.contexts_ok ≡ true
  pub mutex : has_failed a.worker_mutex ≡ false
  pub condition : has_failed a.worker_condition ≡ false
  pub sync_lock : has_failed a.sync_lock ≡ false
  pub sync_unlock : has_failed a.sync_unlock ≡ false
  pub few : workers ≤ word_max / context_size

module _ (a : StartAnswers) {k workers : ℕ} (can : CanBegin a workers) where
  pass_gate-goes :
      (e : Engine)
      → Armed k workers 0 e
      → e.lifecycle.state ≡ initialized
      → (f : Engine) × (pass_gate true a e ≡ goes f) × Armed k workers 0 f
  unfolding pass_gate start_gate during
  pass_gate-goes e m s =
      let passed : Engine = record e { lifecycle = put_state starting e.lifecycle } in
      (during a.meanwhile passed, ground (arith, s, can), ground (arith, m))

  allocate-goes :
      (e : Engine)
      → Armed k workers 0 e
      → (f : Engine) × (allocate true a e ≡ goes f) × Armed k workers 0 f
  unfolding allocate asks_fault should_trigger
  allocate-goes e m =
      let f : Engine = record e {
        threads = some (replicate e.worker_count false);
        worker_contexts = some (replicate e.worker_count cleared);
      } in
      (f, ground (arith, m, can), ground (arith, m))

  set_up_sync-goes :
      (e : Engine)
      → Armed k workers 0 e
      → (f : Engine) × (set_up_sync true a e ≡ goes f) × Armed k workers 0 f
  unfolding set_up_sync
  set_up_sync-goes e m =
      (record e { worker_sync_initialized = true }, ground (arith, can), ground (arith, m))

start_stops :
    (a : StartAnswers) (e e1 e2 e3 f : Engine)
    → pass_gate true a e ≡ goes e1
    → allocate true a e1 ≡ goes e2
    → set_up_sync true a e2 ≡ goes e3
    → spawn_from true a e.worker_count 0 e3 ≡ ends error_system f
    → scheduler_start true a (some (some e)) ≡ (some error_system, some (some f))
unfolding scheduler_start start_steps
start_stops a e e1 e2 e3 f g1 g2 g3 g4 = ground (arith, g1, g2, g3, g4)

-- On a scheduler that has just been set up, `scheduler_fault_configure`, whose lock and unlock succeed, takes
-- the failure of the `k`-th creation of a worker, for `k` from 1 to the number of workers. In a build that
-- injects faults a start then comes back with the result SYSTEM_ERROR, with `k - 1` workers created, if
-- every call of it succeeds up to there; whatever the calls that undo it answer.
pub injected_creation_fails :
    (a : StartAnswers) (e : Engine) (k : ℕ)
    → IsFresh e
    → CanBegin a e.worker_count
    → CanSpawn a
    → 0 < k
    → k ≤ e.worker_count
    → (e' : Engine) × (f : Engine) × (scheduler_fault_configure SchedSyncResult.ok
          SchedSyncResult.ok
          (some (some e))
          worker_creation
          k
        ≡ (true, some (some e')))
      × (scheduler_start true a (some (some e')) ≡ (some error_system, some (some f)))
      × (suc f.crew.created_worker_count ≡ k)
unfolding scheduler_fault_configure scheduler_fault_plan_configure
injected_creation_fails a e k fresh can spawn pos inside =
    let small : k < word_mod = omega (arith, inside, can.few) in
    let e' : Engine = record e {
      fault_plan = record {
        point = worker_creation;
        trigger_occurrence = k;
        observed_occurrence = 0;
        enabled = true;
        triggered = false;
        occurrence_overflow = false;
      };
    } in
    let m : Armed k e.worker_count 0 e' = record {
      point = refl;
      trigger = refl;
      observed = refl;
      enabled = refl;
      untriggered = refl;
      created = fresh.created;
      workers_set = refl;
    } in
    let (e1, g1, m1) = pass_gate-goes a can e' m fresh.state in
    let (e2, g2, m2) = allocate-goes a can e1 m1 in
    let (e3, g3, m3) = set_up_sync-goes a can e2 m2 in
    let (f, g4, kept) =
      spawn_from-fails a spawn small e.worker_count 0 e3 m3 pos (omega (arith, inside)) in
    (e', f, ground (arith, fresh.state, pos), start_stops a e' e1 e2 e3 f g1 g2 g3 g4, kept)
