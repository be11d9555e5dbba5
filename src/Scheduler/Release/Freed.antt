-- ===== src/Scheduler/Release/Freed.antt =====
-- When `release_workers` of src/scheduler.c frees the arrays, and when it must keep them.
use concurrent_task_scheduli.Base.{
  ℕ, zero, suc, ◌<◌, ◌≤◌, ◌+◌, ◌≡◌, ◌≢◌, refl, Bool, true, false, Option, none, some, List, arith,
  get_elem?-set_ne, ◌∙◌, sym,
}
use mathlib.Core.Path.{subst}
use native.Mathlib.Decide.{ℕ_discrete}
use concurrent_task_scheduli.Sync.{SchedSyncResult, has_failed}
use concurrent_task_scheduli.Fault.{FaultPoint, worker_join}
use concurrent_task_scheduli.Scheduler.{error_system}
use concurrent_task_scheduli.Scheduler.Engine.{Engine, during, asks_fault}
use concurrent_task_scheduli.Scheduler.Release.{
  JoinAnswers, ReleaseAnswers, Joining, has_thread, clear_thread, count_join_failure, note_return,
  join_one, join_from, settle_workers, release_workers,
}

join_one-all :
    (b : Bool) (i : ℕ) (a : JoinAnswers) (j : Joining)
    → has_failed a.join ≡ false
    → (join_one b i a j).all_joined ≡ j.all_joined
unfolding join_one note_return
join_one-all b i a j h = ground (arith, h)

join_from-all :
    (b : Bool) (a : ℕ → JoinAnswers)
    → ((i : ℕ) → has_failed (a i).join ≡ false)
    → (n i : ℕ) (j : Joining) → (join_from b a n i j).all_joined ≡ j.all_joined
unfolding join_from
join_from-all b a h zero i j = refl
join_from-all b a h (suc n) i j =
    join_from-all b a h n (suc i) (join_one b i (a i) j) ∙ join_one-all b i (a i) j (h i)

-- If every join succeeds, and the last lock does, both arrays are freed.
pub release_workers-freed :
    (b : Bool) (a : ReleaseAnswers) (e : Engine)
    → ((i : ℕ) → has_failed (a.joins i).join ≡ false)
    → has_failed a.lock ≡ false
    → ((release_workers b a e).1.threads ≡ none)
      × ((release_workers b a e).1.worker_contexts ≡ none)
unfolding release_workers settle_workers
release_workers-freed b a e h l = ground (
  arith,
  l,
  join_from-all b a.joins h e.crew.started_worker_count 0
      (record { engine = e; has_error = false; all_joined = true }),
)

has_thread-clear :
    (i k : ℕ) (ts : Option (List Bool)) → k ≢ i → has_thread k (clear_thread i ts) ≡ has_thread k ts
has_thread-clear i k none h = refl
has_thread-clear i k (some ts) h = rw (get_elem?-set_ne ts i k false (λ e. h (sym e)), has_thread)

count_join_failure-threads :
    (l : SchedSyncResult) (e : Engine) → (count_join_failure l e).threads ≡ e.threads
unfolding count_join_failure
count_join_failure-threads l e = ground arith

asks_fault-threads :
    (b : Bool) (p : FaultPoint) (e : Engine) → (asks_fault b p e).1.threads ≡ e.threads
unfolding asks_fault
asks_fault-threads b p e = ground arith

note_return-threads :
    (b : Bool) (a : JoinAnswers) (j : Joining)
    → (note_return b a j).engine.threads ≡ j.engine.threads
unfolding note_return
note_return-threads b a j =
    let (fault, asked) = asks_fault b worker_join j.engine in
    ground
      (arith, asks_fault-threads b worker_join j.engine, count_join_failure-threads a.lock asked)

join_one-other :
    (b : Bool) (i k : ℕ) (a : JoinAnswers) (j : Joining)
    → k ≢ i
    → has_thread k (join_one b i a j).engine.threads ≡ has_thread k j.engine.threads
unfolding join_one during
join_one-other b i k a j h =
    let back = record j { engine = during a.meanwhile j.engine } in
    ground (
      arith,
      count_join_failure-threads a.lock (during a.meanwhile j.engine),
      note_return-threads b a back,
      has_thread-clear i k (note_return b a back).engine.threads,
    )

-- A live thread whose join fails stays, and the loop remembers it.
join_one-failed :
    (b : Bool) (i : ℕ) (a : JoinAnswers) (j : Joining)
    → has_thread i j.engine.threads ≡ true
    → has_failed a.join ≡ true
    → ((join_one b i a j).all_joined ≡ false)
      × (has_thread i (join_one b i a j).engine.threads ≡ true)
unfolding join_one during
join_one-failed b i a j t f =
    ground (arith, t, f, count_join_failure-threads a.lock (during a.meanwhile j.engine))

join_one-broken :
    (b : Bool) (i : ℕ) (a : JoinAnswers) (j : Joining)
    → j.all_joined ≡ false
    → (join_one b i a j).all_joined ≡ false
unfolding join_one note_return
join_one-broken b i a j h = ground (arith, h)

-- A loop that has stuck at the thread `k`.
record Stuck (k : ℕ) (j : Joining) : Type 0 where
  broken : j.all_joined ≡ false
  kept : has_thread k j.engine.threads ≡ true

join_from-Stuck :
    (b : Bool) (a : ℕ → JoinAnswers) (n i k : ℕ) (j : Joining)
    → k < i
    → Stuck k j
    → Stuck k (join_from b a n i j)
unfolding join_from
join_from-Stuck b a zero i k j lt s = s
join_from-Stuck b a (suc n) i k j lt s =
    join_from-Stuck b a n (suc i) k (join_one b i (a i) j) (omega arith) (record {
      broken = join_one-broken b i (a i) j s.broken;
      kept = join_one-other b i k (a i) j (λ e. omega (arith, e)) ∙ s.kept;
    })

join_from-failed :
    (b : Bool) (a : ℕ → JoinAnswers) (n i k : ℕ) (j : Joining)
    → i ≤ k
    → k < i + n
    → has_thread k j.engine.threads ≡ true
    → has_failed (a k).join ≡ true
    → Stuck k (join_from b a n i j)
unfolding join_from
join_from-failed b a zero i k j le lt t f = absurd (omega arith)
join_from-failed b a (suc n) i k j le lt t f = elim (ℕ_discrete k i) [
  | yes e ↦
      (let at_k = λ (m : ℕ). Stuck k (join_from b a n (suc m) (join_one b m (a m) j)) in
        let (broken, kept) = join_one-failed b k (a k) j t f in
        subst at_k e (
          join_from-Stuck b a n (suc k) k (join_one b k (a k) j) (omega arith)
            (record { broken = broken; kept = kept })))
  | no d ↦
      join_from-failed b a n (suc i) k (join_one b i (a i) j) (omega (arith, d)) (omega arith)
        (join_one-other b i k (a i) j d ∙ t) f
]

-- If the join of a started thread fails, the release fails and keeps the thread.
pub release_workers-failed :
    (b : Bool) (a : ReleaseAnswers) (e : Engine) (k : ℕ)
    → k < e.crew.started_worker_count
    → has_thread k e.threads ≡ true
    → has_failed (a.joins k).join ≡ true
    → ((release_workers b a e).0 ≡ error_system)
      × (has_thread k (release_workers b a e).1.threads ≡ true)
unfolding release_workers
release_workers-failed b a e k lt t f =
    let begun : Joining = record { engine = e; has_error = false; all_joined = true } in
    let s =
      join_from-failed b a.joins e.crew.started_worker_count 0 k begun (omega arith) (omega arith) t
        f in
    ground (arith, s)
