-- ===== src/ConcurrentQueue/Profile/Record/Sides.antt =====
-- The counters of one side of the profile of src/concurrent_task_queue.c add up.
use concurrent_task_scheduli.Base.{ℕ, suc, ◌+◌, ◌≤◌, ◌<◌, ◌≡◌, Bool, false, arith, word_mod}
use concurrent_task_scheduli.ConcurrentQueue.Profile.{
  Timing, profiling_increment, profiling_add, profiling_elapsed, profiling_record_duration,
}
use concurrent_task_scheduli.ConcurrentQueue.Profile.Record.{
  Side, Tally, note_locked, note_waiting, note_returned, note_success, note_signal,
}

-- The counters are 64-bit numbers.
pub record Small (d : Side) : Type 0 where
  pub attempts : d.attempts < word_mod
  pub locks : d.lock_attempts < word_mod
  pub waits : d.wait_count < word_mod
  pub returned : d.wait_returns < word_mod
  pub wakeups : d.predicate_false_wakeups < word_mod
  pub seen : d.observations < word_mod
  pub immediate : d.immediate_successes < word_mod
  pub after_wait : d.successes_after_wait < word_mod
  pub sent : d.signals < word_mod
  pub avoided : d.avoided_signals < word_mod

-- `n` callers wait; `k` more have come and are neither done nor waiting, `m` are done and have not
-- signalled.
pub record Exact (n k m : ℕ) (d : Side) : Type 0 where
  pub locks : d.lock_attempts ≡ d.attempts
  pub waits : d.wait_count ≡ d.wait_returns + n
  pub seen : d.observations ≡ d.wait_count
  pub signals : d.immediate_successes + d.successes_after_wait ≡ d.signals + d.avoided_signals + m
  pub room : d.immediate_successes + d.successes_after_wait + n + k ≤ d.attempts
  pub wakeups : d.predicate_false_wakeups ≤ d.wait_returns

-- `o` is a flag of the time before.
pub record Even (n k m : ℕ) (o : Bool) (t : Tally) : Type 0 where
  pub small : Small t.side
  pub calm : t.counter_overflow ≡ false → o ≡ false
  pub exact : t.counter_overflow ≡ false → Exact n k m t.side

duration_calm :
    (a b : ℕ) (t : Timing)
    → (profiling_record_duration a b t).counter_overflow ≡ false
    → t.counter_overflow ≡ false
unfolding profiling_record_duration profiling_elapsed profiling_add
duration_calm a b t h = ground (arith, h)

increment_calm : (n : ℕ) (o : Bool) → (profiling_increment n o).1 ≡ false → o ≡ false
unfolding profiling_add
increment_calm n o h = ground (arith, h)

-- The first two counters; the rest does not matter here.
locked_twice :
    (d : Side) (o : Bool)
    → let (attempts, o1) = profiling_increment d.attempts o in
      let (locks, o2) = profiling_increment d.lock_attempts o1 in
      Small d
      → (attempts < word_mod)
        × (locks < word_mod)
        × (o2 ≡ false → (o ≡ false) × (attempts ≡ d.attempts + 1) × (locks ≡ d.lock_attempts + 1))
unfolding profiling_add
locked_twice d o e = ground (arith, e)

pub note_locked-Even :
    (f a b : ℕ) {n : ℕ} {o : Bool} (t : Tally) → Even n 0 0 o t → Even n 1 0 o (note_locked f a b t)
unfolding note_locked
note_locked-Even f a b t e =
    let d = t.side in
    let (attempts, o1) = profiling_increment d.attempts t.counter_overflow in
    let (locks, o2) = profiling_increment d.lock_attempts o1 in
    let start : Timing = record {
      total = d.lock_wait_ticks;
      maximum = d.lock_max_wait_ticks;
      timing_failed = t.timing_failed;
      counter_overflow = o2;
    } in
    let ticks = profiling_record_duration a b start in
    let calm = duration_calm a b start in
    let two = locked_twice d t.counter_overflow e.small in
    let more = increment_calm d.inferred_contended ticks.counter_overflow in
    record {
      small = ground (arith, e.small, two);
      calm = λ h. ground (arith, e, two, calm, more, h);
      exact = λ h. ground (arith, e, two, calm, more, h);
    }

pub note_waiting-Even :
    {n : ℕ} {o : Bool} (t : Tally) → Even n 1 0 o t → Even (suc n) 0 0 o (note_waiting t)
unfolding note_waiting profiling_add
note_waiting-Even t e = ground (arith, e.small, e)

pub note_returned-Even :
    (still : Bool) (a b : ℕ) {n : ℕ} {o : Bool} (t : Tally)
    → Even (suc n) 0 0 o t
    → Even n 1 0 o (note_returned still a b t)
unfolding note_returned profiling_add profiling_elapsed profiling_record_duration
note_returned-Even still a b t e = ground (arith, e.small, e)

pub note_success-Even :
    (waited : Bool) {n : ℕ} {o : Bool} (t : Tally)
    → Even n 1 0 o t
    → Even n 0 1 o (note_success waited t)
unfolding note_success profiling_add
note_success-Even waited t e = ground (arith, e.small, e)

pub note_signal-Even :
    (sent : Bool) {n : ℕ} {o : Bool} (t : Tally)
    → Even n 0 1 o t
    → Even n 0 0 o (note_signal sent t)
unfolding note_signal profiling_add
note_signal-Even sent t e = ground (arith, e.small, e)
