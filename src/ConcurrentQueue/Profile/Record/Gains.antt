-- ===== src/ConcurrentQueue/Profile/Record/Gains.antt =====
-- How the counters of successes, the samples and the length of a queue of src/concurrent_task_queue.c move
-- together.
use concurrent_task_scheduli.Base.{
  ℕ, ◌+◌, ◌≤◌, ◌<◌, ◌≡◌, refl, Bool, false, Option, none, some, arith, word_mod, if◌then◌else◌,
  Pointer,
}
use concurrent_task_scheduli.TaskQueue.{TaskQueue, enqueue, dequeue}
use concurrent_task_scheduli.ConcurrentQueue.{Shared}
use concurrent_task_scheduli.ConcurrentQueue.Put.{Put, insert, attempt_put}
use concurrent_task_scheduli.ConcurrentQueue.Take.{Take, remove, attempt_take}
use concurrent_task_scheduli.ConcurrentQueue.Profile.{
  Occupancy, profiling_add, profiling_elapsed, profiling_record_duration,
  profiling_record_occupancy,
}
use concurrent_task_scheduli.ConcurrentQueue.Profile.Record.{
  Side, Tally, Workers, Entry, calls, returns, readings, note_locked, note_waiting, note_returned,
  note_success, note_signal, note_entry, note_done, note_sleep,
}
use concurrent_task_scheduli.ConcurrentQueue.Profile.Record.Locked.{at_worker, ticks_of}
use concurrent_task_scheduli.ConcurrentQueue.Profile.Record.Sides.{Small}
use concurrent_task_scheduli.ConcurrentQueue.Profile.Record.Even.{occupancy_lem, add_at-calm}

abbrev pub successes : Side → ℕ
successes d = d.immediate_successes + d.successes_after_wait

-- `n` tasks more; nothing is said once a counter has overflowed.
pub record Gained (n : ℕ) (a b : Tally) : Type 0 where
  pub calm : b.counter_overflow ≡ false → a.counter_overflow ≡ false
  pub exact : b.counter_overflow ≡ false → successes b.side ≡ successes a.side + n

note_locked-Gained : (f a b : ℕ) (t : Tally) → Gained 0 t (note_locked f a b t)
unfolding note_locked profiling_record_duration profiling_elapsed profiling_add
note_locked-Gained f a b t = ground arith

note_returned-Gained : (still : Bool) (a b : ℕ) (t : Tally) → Gained 0 t (note_returned still a b t)
unfolding note_returned profiling_record_duration profiling_elapsed profiling_add
note_returned-Gained still a b t = ground arith

note_sleep-Gained : (next : Option ℕ) (t : Tally) → Gained 0 t (note_sleep next t)
unfolding note_waiting profiling_add
note_sleep-Gained next t = ground arith

note_success-Gained :
    (waited : Bool) (t : Tally) → Small t.side → Gained 1 t (note_success waited t)
unfolding note_success profiling_add
note_success-Gained waited t e = let p = e.immediate in let q = e.after_wait in ground (arith, p, q)

note_signal-Gained : (sent : Bool) (t : Tally) → Gained 0 t (note_signal sent t)
unfolding note_signal profiling_add
note_signal-Gained sent t = ground arith

unfoldable pub Fits : TaskQueue → Type 0
Fits q = (q.size ≤ q.capacity) × (q.capacity < word_mod)

abbrev pub inserts : Option Put → ℕ
inserts none = 0
inserts (some r) = if r.inserted then 1 else 0

abbrev pub removes : Option Take → ℕ
removes none = 0
removes (some r) = elim r.removed [ none ↦ 0 | some task ↦ 1 ]

pub attempt_put-size :
    (tr : Bool) (task : ℕ) (s : Shared)
    → Fits s.queue
    → let (q, s') = attempt_put tr (some task) s in
      Fits s'.queue × (s'.queue.size ≡ s.queue.size + inserts q)
unfolding Fits attempt_put insert enqueue
attempt_put-size tr task s v = ground (arith, v)

pub attempt_take-size :
    (tr : Bool) (s : Shared)
    → Fits s.queue
    → let (q, s') = attempt_take tr s in Fits s'.queue × (s.queue.size ≡ s'.queue.size + removes q)
unfolding Fits attempt_take remove dequeue
attempt_take-size tr s v = ground (arith, v)

pub record Moved (n : ℕ) (x y : Tally × Occupancy) : Type 0 where
  pub tallies : Gained n x.0 y.0
  pub samples :
      y.0.counter_overflow ≡ false → y.1.occupancy_sample_count ≡ x.1.occupancy_sample_count + n

note_done-Moved :
    (waited sent : Bool) (size capacity : ℕ) (t : Tally) (p : Occupancy)
    → Small t.side
    → p.occupancy_sample_count < word_mod
    → Moved 1 (t, p) (note_done waited sent size capacity (t, p))
unfolding note_done
note_done-Moved waited sent size capacity t p e small =
    let t1 = note_success waited t in
    let start = record p { counter_overflow = t1.counter_overflow } in
    let p1 = occupancy_lem size capacity start small in
    let o = (profiling_record_occupancy size capacity start).counter_overflow in
    let a = note_success-Gained waited t e in
    let b = note_signal-Gained sent (record t1 { counter_overflow = o }) in
    record {
      tallies = record {
        calm = λ h. a.calm (p1.1 (b.calm h)).0;
        exact =
            λ h. let x = b.exact h in let y = a.exact (p1.1 (b.calm h)).0 in ground (arith, x, y);
      };
      samples = λ h. (p1.1 (b.calm h)).1;
    }

pub note_entry-Gained :
    (f : ℕ) (still : Bool) (e : Entry) (t : Tally) → Gained 0 t (note_entry f still e t)
unfolding note_entry
note_entry-Gained f still (calls start end) t =
    let g =
      note_locked-Gained f _ _
        (record t { timing_failed = (readings (calls start end) t.timing_failed).2 }) in
    record { calm = g.calm; exact = g.exact }
note_entry-Gained f still (returns start end) t =
    let g =
      note_returned-Gained still start _
        (record t { timing_failed = (readings (returns start end) t.timing_failed).2 }) in
    record { calm = g.calm; exact = g.exact }

pub Gained-Moved :
    {n : ℕ} (t t1 : Tally) (p : Occupancy) (r : Tally × Occupancy)
    → Gained 0 t t1
    → Moved n (t1, p) r
    → Moved n (t, p) r
Gained-Moved t t1 p r g m = record {
  tallies = record {
    calm = λ h. g.calm (m.tallies.calm h);
    exact = λ h.
        let x = m.tallies.exact h in let y = g.exact (m.tallies.calm h) in ground (arith, x, y);
  };
  samples = m.samples;
}

stays : {t t' : Tally} {p : Occupancy} → Gained 0 t t' → Moved 0 (t, p) (t', p)
stays g = record { tallies = g; samples = λ h. ground arith }

Moved-flag :
    {n : ℕ} (x : Tally × Occupancy) (t t' : Tally) (p : Occupancy)
    → t'.side ≡ t.side
    → (t'.counter_overflow ≡ false → t.counter_overflow ≡ false)
    → Moved n x (t, p)
    → Moved n x (t', p)
Moved-flag x t t' p same calm m = record {
  tallies = record {
    calm = λ h. m.tallies.calm (calm h);
    exact = λ h. rw same (m.tallies.exact (calm h));
  };
  samples = λ h. m.samples (calm h);
}

pub put_tail-Moved :
    (waited : Bool) (q : Option Put) (next : Option ℕ) (size capacity : ℕ) (t : Tally)
    (p : Occupancy)
    → Small t.side
    → p.occupancy_sample_count < word_mod
    → Moved
        (inserts q)
        (t, p)
        (elim q [
          | none ↦ (note_sleep next t, p)
          | some r ↦ if r.inserted then note_done waited r.signals size capacity (t, p) else (t, p)
        ])
put_tail-Moved waited none next size capacity t p e small = stays (note_sleep-Gained next t)
put_tail-Moved waited (some r) next size capacity t p e small =
    let d = note_done-Moved waited r.signals size capacity t p e small in ground (arith, d)

pub ticks_of-Gained :
    (worker : ℕ) (e : Entry) (w : Workers) (t : Tally) → Gained 0 t (ticks_of worker e (w, t)).1
unfolding ticks_of
ticks_of-Gained worker (calls start end) w t = record {
  calm = λ h. add_at-calm worker _ _ _ h;
  exact = λ h. ground arith;
}
ticks_of-Gained worker (returns start end) w t = record {
  calm = λ h. add_at-calm worker _ _ _ h;
  exact = λ h. ground arith;
}

removed-Moved :
    (x : Option Pointer) {y a b : Tally × Occupancy} (w w' : Workers)
    → Moved 0 y a
    → Moved 1 y b
    → Moved
        (elim x as (λ z. ℕ) [ none ↦ 0 | some task ↦ 1 ])
        y
        (elim x as (λ z. (Tally × Occupancy) × Workers) [ none ↦ (a, w) | some task ↦ (b, w') ]).0
removed-Moved none w w' a b = a
removed-Moved (some task) w w' a b = b

pub take_tail-Moved :
    (waited : Bool) (q : Option Take) (next : Option ℕ) (size capacity worker : ℕ)
    → (t : Tally) (p : Occupancy) (w : Workers) → Small t.side
    → p.occupancy_sample_count < word_mod
    → let (waits, slept) = at_worker worker 1 w.dequeue_wait_count (note_sleep next t) in
      Moved
        (removes q)
        (t, p)
        (elim q as (λ y. (Tally × Occupancy) × Workers) [
          | none ↦ ((slept, p), record w { dequeue_wait_count = waits })
          | some r ↦
              let (t2, p2) = note_done waited r.signals size capacity (t, p) in
              let (tasks, t3) = at_worker worker 1 w.tasks t2 in
              elim r.removed [
                | none ↦ ((t, p), w)
                | some task ↦ ((t3, p2), record w { tasks = tasks })
              ]
        ]).0
take_tail-Moved waited none next size capacity worker t p w e small =
    let calm = add_at-calm worker 1 w.dequeue_wait_count (note_sleep next t).counter_overflow in
    Moved-flag (t, p) (note_sleep next t) _ p refl calm (stays (note_sleep-Gained next t))
take_tail-Moved waited (some r) next size capacity worker t p w e small =
    let (t2, p2) = note_done waited r.signals size capacity (t, p) in
    let calm = add_at-calm worker 1 w.tasks t2.counter_overflow in
    removed-Moved r.removed _ _ (stays (record { calm = λ h. h; exact = λ h. ground arith })) (
      Moved-flag (t, p) t2 _ p2 refl calm
        (note_done-Moved waited r.signals size capacity t p e small))
