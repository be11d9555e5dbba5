-- ===== src/ConcurrentQueue/Profile.antt =====
-- The counters of the profiling build in src/concurrent_task_queue.c: how a duration and an occupancy of
-- the queue are recorded. The timer is Windows's, and its readings are inputs.
pub mod Samples
pub mod Durations
pub mod Record
mod Tests
use concurrent_task_scheduli.Base.{
  ℕ, ◌+◌, ◌-◌, ◌/◌, Bool, true, false, ◌||◌, Option, none, some, ltb, ◌==◌, if◌then◌else◌, word_max,
  add_word, sub_word,
}

-- `profiling_now` on a reading of the timer, `none` where there is none; the flag is `timing_failed`.
abbrev pub profiling_now : Option ℕ → Bool → ℕ × Bool
profiling_now none failed = (0, true)
profiling_now (some t) failed = (t, failed)

-- The target, and the flag `counter_overflow`.
unfoldable pub profiling_add : ℕ → ℕ → Bool → ℕ × Bool
profiling_add target value overflow =
    if ltb (sub_word word_max target) value
    then (target, true)
    else (add_word target value, overflow)

abbrev pub profiling_increment : ℕ → Bool → ℕ × Bool
profiling_increment target overflow = profiling_add target 1 overflow

-- The duration, and the flag `timing_failed`.
unfoldable pub profiling_elapsed : ℕ → ℕ → Bool → ℕ × Bool
profiling_elapsed start end failed =
    if ltb end start then (0, true) else (sub_word end start, failed)

unfoldable pub profiling_inferred_contended : ℕ → ℕ → ℕ → Bool → Bool × Bool
unfolding profiling_elapsed
profiling_inferred_contended timer_frequency start end failed =
    let threshold = timer_frequency / 1000000 in
    let at_least_one = if threshold == 0 then 1 else threshold in
    let (duration, f) = profiling_elapsed start end failed in (ltb at_least_one duration, f)

-- A pair of fields that holds durations, and the two flags.
pub record Timing : Type 0 where
  pub total : ℕ
  pub maximum : ℕ
  pub timing_failed : Bool
  pub counter_overflow : Bool

unfoldable pub profiling_record_duration : ℕ → ℕ → Timing → Timing
unfolding profiling_elapsed profiling_add
profiling_record_duration start end t =
    let (duration, f) = profiling_elapsed start end t.timing_failed in
    let (total, o) = profiling_add t.total duration t.counter_overflow in
    record {
      total = total;
      maximum = if ltb t.maximum duration then duration else t.maximum;
      timing_failed = f;
      counter_overflow = o;
    }

-- The fields of SchedulerProfilingSnapshot on the occupancy, and `counter_overflow`.
pub record Occupancy : Type 0 where
  pub occupancy_sample_count : ℕ
  pub occupancy_sample_sum : ℕ
  pub occupancy_min : ℕ
  pub occupancy_max : ℕ
  pub occupancy_zero_observations : ℕ
  pub occupancy_full_observations : ℕ
  pub counter_overflow : Bool

-- The number of tasks in the queue is `occupancy`.
unfoldable pub profiling_record_occupancy : (occupancy capacity : ℕ) → Occupancy → Occupancy
unfolding profiling_add
profiling_record_occupancy occupancy capacity p =
    let (count, o1) = profiling_increment p.occupancy_sample_count p.counter_overflow in
    let (sum, o2) = profiling_add p.occupancy_sample_sum occupancy o1 in
    let (zeros, o3) : ℕ × Bool =
      if occupancy == 0
      then profiling_increment p.occupancy_zero_observations o2
      else (p.occupancy_zero_observations, o2) in
    let (fulls, o4) : ℕ × Bool =
      if occupancy == capacity
      then profiling_increment p.occupancy_full_observations o3
      else (p.occupancy_full_observations, o3) in
    record {
      occupancy_sample_count = count;
      occupancy_sample_sum = sum;
      occupancy_min =
          if count == 1 || ltb occupancy p.occupancy_min then occupancy else p.occupancy_min;
      occupancy_max = if ltb p.occupancy_max occupancy then occupancy else p.occupancy_max;
      occupancy_zero_observations = zeros;
      occupancy_full_observations = fulls;
      counter_overflow = o4;
    }
