-- ===== src/ConcurrentQueue/Profile/Record/Steps.antt =====
-- What each locked part of a queue of src/concurrent_task_queue.c keeps true of its profile.
use concurrent_task_scheduli.Base.{
  ℕ, ◌+◌, ◌<◌, ◌≡◌, refl, Bool, true, false, Option, arith, word_mod,
}
use concurrent_task_scheduli.ConcurrentQueue.{Shared, shutdown}
use concurrent_task_scheduli.ConcurrentQueue.Put.{leave_not_full}
use concurrent_task_scheduli.ConcurrentQueue.Take.{leave_not_empty}
use concurrent_task_scheduli.ConcurrentQueue.Profile.{profiling_add}
use concurrent_task_scheduli.ConcurrentQueue.Profile.Record.{
  Profile, Entry, calls, returns, has_waited,
}
use concurrent_task_scheduli.ConcurrentQueue.Profile.Record.Locked.{
  side_tally, Profiled, put_shared, put_part, take_shared, take_part, shutdown_part,
}
use concurrent_task_scheduli.ConcurrentQueue.Profile.Record.Sides.{Even}
use concurrent_task_scheduli.ConcurrentQueue.Profile.Record.Even.{
  Even-flag, rebase, attempt_put-waiters, attempt_take-waiters,
}
use concurrent_task_scheduli.ConcurrentQueue.Profile.Record.Gains.{successes, Fits}
use concurrent_task_scheduli.ConcurrentQueue.Profile.Record.Moves.{
  put_tally-Moved, take_tally-Moved, put_shared-size, take_shared-size,
}
use concurrent_task_scheduli.ConcurrentQueue.Profile.Record.Parts.{put_tally-Kept, take_tally-Kept}

-- What holds of a profile `p` whose queue is in state `s`, as long as no counter has overflowed.
pub record Ledger (s : Shared) (p : Profile) : Type 0 where
  pub sampled : p.occupancy.occupancy_sample_count ≡ successes p.enqueue + successes p.dequeue
  pub held : successes p.enqueue ≡ successes p.dequeue + s.queue.size

pub record AddsUp (y : Profiled) : Type 0 where
  pub fits : Fits y.shared.queue
  pub ledger : y.profile.occupancy.counter_overflow ≡ false → Ledger y.shared y.profile
  pub producers :
      Even y.shared.waiting_producers 0 0 y.profile.occupancy.counter_overflow
        (side_tally y.profile.enqueue y.profile)
  pub consumers :
      Even y.shared.waiting_consumers 0 0 y.profile.occupancy.counter_overflow
        (side_tally y.profile.dequeue y.profile)
  pub samples : y.profile.occupancy.occupancy_sample_count < word_mod

put_shared-waiters :
    (tr : Bool) (e : Entry) (task : ℕ) (s : Shared)
    → (put_shared tr e task s).waiting_consumers ≡ s.waiting_consumers
unfolding put_shared leave_not_full
put_shared-waiters tr (calls start end) task s = (attempt_put-waiters tr task s).0
put_shared-waiters tr (returns start end) task s =
    (attempt_put-waiters tr task (leave_not_full s)).0

take_shared-waiters :
    (tr : Bool) (e : Entry) (s : Shared)
    → (take_shared tr e s).waiting_producers ≡ s.waiting_producers
unfolding take_shared leave_not_empty
take_shared-waiters tr (calls start end) s = (attempt_take-waiters tr s).0
take_shared-waiters tr (returns start end) s = (attempt_take-waiters tr (leave_not_empty s)).0

pub put_part-AddsUp :
    (tr : Bool) (e : Entry) (next : Option ℕ) (task : ℕ) (y : Profiled)
    → (has_waited e ≡ true → 0 < y.shared.waiting_producers)
    → AddsUp y
    → AddsUp (put_part tr e next task y)
unfolding put_part
put_part-AddsUp tr e next task y waits v =
    let p = y.profile in
    let m =
      put_tally-Moved tr e next task y.shared p.timer_frequency (side_tally p.enqueue p) p.occupancy
        waits v.producers v.samples in
    let size = put_shared-size tr e task y.shared v.fits in
    let k =
      put_tally-Kept tr e next task y.shared p.timer_frequency (side_tally p.enqueue p) p.occupancy
        waits v.producers v.samples in
    record {
      fits = size.0;
      ledger = λ h.
          let l = v.ledger (k.even.calm h) in
          let gained = m.tallies.exact h in
          let samples = m.samples h in
          let held = size.1 in
          record {
            sampled = ground (arith, l.sampled, gained, samples);
            held = ground (arith, l.held, gained, held);
          };
      producers = rebase _ (Even-flag k.even refl (λ h. h) (λ h. refl));
      consumers =
          rebase _
            (Even-flag v.consumers refl k.even.calm (λ h. put_shared-waiters tr e task y.shared));
      samples = k.small;
    }

pub take_part-AddsUp :
    (tr : Bool) (worker : ℕ) (e : Entry) (next : Option ℕ) (y : Profiled)
    → (has_waited e ≡ true → 0 < y.shared.waiting_consumers)
    → AddsUp y
    → AddsUp (take_part tr worker e next y)
unfolding take_part
take_part-AddsUp tr worker e next y waits v =
    let p = y.profile in
    let m =
      take_tally-Moved tr worker e next y.shared p.timer_frequency (side_tally p.dequeue p)
        p.occupancy p.workers waits v.consumers v.samples in
    let size = take_shared-size tr e y.shared v.fits in
    let k =
      take_tally-Kept tr worker e next y.shared p.timer_frequency (side_tally p.dequeue p)
        p.occupancy p.workers waits v.consumers v.samples in
    record {
      fits = size.0;
      ledger = λ h.
          let l = v.ledger (k.even.calm h) in
          let gained = m.tallies.exact h in
          let samples = m.samples h in
          let held = size.1 in
          record {
            sampled = ground (arith, l.sampled, gained, samples);
            held = ground (arith, l.held, gained, held);
          };
      producers =
          rebase _
            (Even-flag v.producers refl k.even.calm (λ h. take_shared-waiters tr e y.shared));
      consumers = rebase _ (Even-flag k.even refl (λ h. h) (λ h. refl));
      samples = k.small;
    }

add_calm : (n v : ℕ) (o : Bool) → (profiling_add n v o).1 ≡ false → o ≡ false
unfolding profiling_add
add_calm n v o h = ground (arith, h)

pub shutdown_part-AddsUp : (y : Profiled) → AddsUp y → AddsUp (shutdown_part y)
unfolding shutdown_part shutdown
shutdown_part-AddsUp y v =
    let calm = add_calm y.profile.shutdown_broadcasts 2 y.profile.occupancy.counter_overflow in
    record {
      fits = v.fits;
      ledger = λ h. let l = v.ledger (calm h) in record { sampled = l.sampled; held = l.held };
      producers = rebase _ (Even-flag v.producers refl calm (λ h. refl));
      consumers = rebase _ (Even-flag v.consumers refl calm (λ h. refl));
      samples = v.samples;
    }
