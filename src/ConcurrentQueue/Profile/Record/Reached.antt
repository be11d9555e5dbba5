-- ===== src/ConcurrentQueue/Profile/Record/Reached.antt =====
-- The profile of src/concurrent_task_queue.c, whatever a queue has been through.
use mathlib.Core.Path.{subst}
use concurrent_task_scheduli.Base.{
  ℕ, ◌<◌, ◌≡◌, refl, sym, Bool, true, false, Option, some, arith, not, ◌||◌, ltb, if◌then◌else◌,
}
use concurrent_task_scheduli.Sync.{SchedSyncResult, has_failed}
use concurrent_task_scheduli.TaskQueue.{TaskQueue}
use concurrent_task_scheduli.ConcurrentQueue.{Shared, fresh}
use concurrent_task_scheduli.ConcurrentQueue.Profile.Record.{
  Profile, blank_profile, max_workers, Entry, has_waited,
}
use concurrent_task_scheduli.ConcurrentQueue.Profile.Record.Locked.{
  Profiled, put_part, take_part, shutdown_part, concurrent_task_queue_profiling_snapshot,
}
use concurrent_task_scheduli.ConcurrentQueue.Profile.Record.Sides.{Exact}
use concurrent_task_scheduli.ConcurrentQueue.Profile.Record.Even.{Even-flag}
use concurrent_task_scheduli.ConcurrentQueue.Profile.Record.Gains.{Fits}
use concurrent_task_scheduli.ConcurrentQueue.Profile.Record.Steps.{
  Ledger, AddsUp, put_part-AddsUp, take_part-AddsUp, shutdown_part-AddsUp,
}

abbrev pub opened_queue : TaskQueue → ℕ → Profiled
opened_queue q frequency = record { shared = fresh q; profile = blank_profile frequency }

opened_queue-AddsUp :
    (q : TaskQueue) (frequency : ℕ) → Fits q → q.size ≡ 0 → AddsUp (opened_queue q frequency)
opened_queue-AddsUp q frequency fits empty = ground (arith, fits, empty)

-- A queue at work, from `concurrent_task_queue_init` on: its blocking insertions and removals, one locked
-- part at a time and in any order, its shutdown, and the snapshots of its profile. No wait fails.
pub data Recorded (tr : Bool) : Profiled → Type 0 where
  starts :
      {q : TaskQueue} (frequency : ℕ) → Fits q → q.size ≡ 0 → Recorded tr (opened_queue q frequency)
  puts :
      {y : Profiled} (e : Entry) (next : Option ℕ) (task : ℕ)
      → (has_waited e ≡ true → 0 < y.shared.waiting_producers)
      → Recorded tr y
      → Recorded tr (put_part tr e next task y)
  takes :
      {y : Profiled} (worker : ℕ) (e : Entry) (next : Option ℕ)
      → (has_waited e ≡ true → 0 < y.shared.waiting_consumers)
      → Recorded tr y
      → Recorded tr (take_part tr worker e next y)
  shuts_down : {y : Profiled} → Recorded tr y → Recorded tr (shutdown_part y)
  shows :
      {y y' : Profiled} (lock unlock : SchedSyncResult) (workers : ℕ) (out : Bool)
      → Recorded tr y
      → (concurrent_task_queue_profiling_snapshot lock unlock (some (some y)) workers out).1
        ≡ some (some y')
      → Recorded tr y'

recounted-AddsUp :
    (y : Profiled) (n : ℕ)
    → AddsUp y
    → AddsUp (record y { profile = record y.profile { worker_count = n } })
recounted-AddsUp y n v = record {
  fits = v.fits;
  ledger = λ h. let l = v.ledger h in record { sampled = l.sampled; held = l.held };
  producers = Even-flag v.producers refl (λ h. h) (λ h. refl);
  consumers = Even-flag v.consumers refl (λ h. h) (λ h. refl);
  samples = v.samples;
}

either_kept :
    (b : Bool) (u u' : Bool × Option Profile) (y z : Profiled) {y' : Profiled}
    → AddsUp y
    → AddsUp z
    → let shown : (Bool × Option Profile) × Option (Option Profiled) =
        if b then (u, some (some y)) else (u', some (some z)) in
      shown.1 ≡ some (some y') → AddsUp y'
either_kept true u u' y z {y'} v w h = let same : y ≡ y' = cc h in subst AddsUp same v
either_kept false u u' y z {y'} v w h = let same : z ≡ y' = cc h in subst AddsUp same w

snapshot-AddsUp :
    (lock unlock : SchedSyncResult) (workers : ℕ) (out : Bool) (y : Profiled) {y' : Profiled}
    → AddsUp y
    → (concurrent_task_queue_profiling_snapshot lock unlock (some (some y)) workers out).1
      ≡ some (some y')
    → AddsUp y'
unfolding concurrent_task_queue_profiling_snapshot
snapshot-AddsUp lock unlock workers out y v h =
    either_kept (not out || ltb max_workers workers || has_failed lock) _ _ _ _ v
      (recounted-AddsUp y workers v) h

-- What is shown is the profile, with the number of workers.
snapshot_lem :
    (lock unlock : SchedSyncResult) (workers : ℕ) (y : Profiled) {p : Profile}
    → (concurrent_task_queue_profiling_snapshot lock unlock (some (some y)) workers true).0.1
      ≡ some p
    → record y.profile { worker_count = workers } ≡ p
unfolding concurrent_task_queue_profiling_snapshot
snapshot_lem lock unlock workers y h = ground (arith, h)

Recorded-AddsUp : {tr : Bool} {y : Profiled} → Recorded tr y → AddsUp y
Recorded-AddsUp (starts {q} frequency fits empty) = opened_queue-AddsUp q frequency fits empty
Recorded-AddsUp {tr} (puts {y} e next task waits r) =
    put_part-AddsUp tr e next task y waits (Recorded-AddsUp r)
Recorded-AddsUp {tr} (takes {y} worker e next waits r) =
    take_part-AddsUp tr worker e next y waits (Recorded-AddsUp r)
Recorded-AddsUp (shuts_down {y} r) = shutdown_part-AddsUp y (Recorded-AddsUp r)
Recorded-AddsUp (shows {y} lock unlock workers out r h) =
    snapshot-AddsUp lock unlock workers out y (Recorded-AddsUp r) h

-- What a snapshot shows of a queue in state `s`: of either side, every attempt has locked the mutex, every
-- wait has been counted twice, as an observation and as a wait, and has returned or is a caller that waits
-- now, and every success has signalled or avoided it.
pub record Consistent (s : Shared) (p : Profile) : Type 0 where
  producers : Exact s.waiting_producers 0 0 p.enqueue
  consumers : Exact s.waiting_consumers 0 0 p.dequeue
  ledger : Ledger s p

consistent :
    {y : Profiled} (n : ℕ)
    → AddsUp y
    → y.profile.occupancy.counter_overflow ≡ false
    → Consistent y.shared (record y.profile { worker_count = n })
consistent n v h = record {
  producers = v.producers.exact h;
  consumers = v.consumers.exact h;
  ledger = let l = v.ledger h in record { sampled = l.sampled; held = l.held };
}

pub profile_adds_up :
    {tr : Bool} {y : Profiled} (lock unlock : SchedSyncResult) (workers : ℕ) {p : Profile}
    → Recorded tr y
    → (concurrent_task_queue_profiling_snapshot lock unlock (some (some y)) workers true).0.1
      ≡ some p
    → p.occupancy.counter_overflow ≡ false
    → Consistent y.shared p
profile_adds_up {tr} {y} lock unlock workers {p} r shown calm =
    let v = Recorded-AddsUp r in
    let same = snapshot_lem lock unlock workers y shown in
    subst (Consistent y.shared) same
      (consistent workers v (subst (λ q. q.occupancy.counter_overflow ≡ false) (sym same) calm))
