-- ===== src/ConcurrentQueue/Profile/Durations.antt =====
-- What src/concurrent_task_queue.c records of durations, against the list of the timer's readings.
use concurrent_task_scheduli.Base.{
  ℕ, ◌+◌, ◌-◌, ◌<◌, ◌≡◌, Bool, false, ◌||◌, List, [], ◌∷◌, map, arith, ltb, word_mod, if◌then◌else◌,
  sym,
}
use mathlib.Core.Path.{subst}
use mathlib.Core.List.{Memᴰ}
use concurrent_task_scheduli.ConcurrentQueue.Profile.{
  profiling_add, profiling_elapsed, Timing, profiling_record_duration,
}
use concurrent_task_scheduli.ConcurrentQueue.Profile.Samples.{
  Between, no_more, one_more, Between-wider, sum_of, either_Mem,
}

-- Two readings of the timer, as 64-bit words.
record Reading : Type 0 where
  start : ℕ
  end : ℕ
  is_word : end < word_mod

abbrev untimed : Timing
untimed = record { total = 0; maximum = 0; timing_failed = false; counter_overflow = false }

-- What is recorded once the durations are, the last one first.
unfoldable after_durations : List Reading → Timing
after_durations [] = untimed
after_durations (r ∷ before) = profiling_record_duration r.start r.end (after_durations before)

-- The ticks of a reading; a timer that runs backwards has made none.
abbrev ticks : Reading → ℕ
ticks r = r.end - r.start

unfoldable some_backwards : List Reading → Bool
some_backwards [] = false
some_backwards (r ∷ before) = ltb r.end r.start || some_backwards before

calm_before :
    (r : Reading) (t : Timing)
    → (profiling_record_duration r.start r.end t).counter_overflow ≡ false
    → t.counter_overflow ≡ false
unfolding profiling_record_duration profiling_elapsed profiling_add
calm_before r t h = ground (arith, h)

record_duration_lem :
    (r : Reading) (t : Timing)
    → t.total < word_mod
    → (profiling_record_duration r.start r.end t).counter_overflow ≡ false
    → ((profiling_record_duration r.start r.end t).total ≡ ticks r + t.total)
      × ((profiling_record_duration r.start r.end t).total < word_mod)
      × ((profiling_record_duration r.start r.end t).timing_failed
          ≡ (ltb r.end r.start || t.timing_failed))
      × ((profiling_record_duration r.start r.end t).maximum
          ≡ (if ltb t.maximum (ticks r) then ticks r else t.maximum))
unfolding profiling_record_duration profiling_elapsed profiling_add
record_duration_lem r t small h = ground (arith, r.is_word, small, h)

-- What is recorded describes the readings.
record Timed (rs : List Reading) (t : Timing) : Type 0 where
  total : t.total ≡ sum_of (map ticks rs)
  timing_failed : t.timing_failed ≡ some_backwards rs
  at_most : Between 0 t.maximum (map ticks rs)
  greatest : Memᴰ t.maximum (map ticks rs)

after_durations-total :
    (rs : List Reading)
    → (after_durations rs).counter_overflow ≡ false
    → ((after_durations rs).total ≡ sum_of (map ticks rs))
      × ((after_durations rs).total < word_mod)
      × ((after_durations rs).timing_failed ≡ some_backwards rs)
unfolding after_durations sum_of some_backwards
after_durations-total [] h = ground arith
after_durations-total (r ∷ before) h =
    let t = after_durations before in
    let (total, small, failed) = after_durations-total before (calm_before r t h) in
    let (total', small', failed', maximum') = record_duration_lem r t small h in
    (cc (total', total), small', cc (failed', failed))

after_durations-maximum :
    (r : Reading) (before : List Reading)
    → (after_durations (r ∷ before)).counter_overflow ≡ false
    → Between 0 (after_durations (r ∷ before)).maximum (map ticks (r ∷ before))
      × Memᴰ (after_durations (r ∷ before)).maximum (map ticks (r ∷ before))
unfolding after_durations
after_durations-maximum r [] h =
    let (total, small, failed, maximum) = record_duration_lem r untimed (omega arith) h in
    let same : (profiling_record_duration r.start r.end untimed).maximum ≡ ticks r =
      ground (arith, maximum) in
    (one_more (omega arith) (omega (arith, same)) no_more, Memᴰ.head same)
after_durations-maximum r (q ∷ before) h =
    let t = after_durations (q ∷ before) in
    let calm = calm_before r t h in
    let (within, greatest) = after_durations-maximum q before calm in
    let (total, small, failed) = after_durations-total (q ∷ before) calm in
    let (total', small', failed', maximum) = record_duration_lem r t small h in
    (
      one_more (omega arith) (ground (arith, maximum))
          (Between-wider (omega arith) (ground (arith, maximum)) within),
      subst (λ m. Memᴰ m (map ticks (r ∷ q ∷ before))) (sym maximum) (either_Mem _ greatest),
    )

-- Once at least one duration has been recorded, from nothing and between readings that are 64-bit words,
-- and the total has not overflowed: the total is the sum of the durations and the maximum the greatest
-- of them, where a timer that runs backwards makes a duration of 0, and `timing_failed` says whether
-- it ever has.
after_durations-Timed :
    (last : Reading) (before : List Reading)
    → (after_durations (last ∷ before)).counter_overflow ≡ false
    → Timed (last ∷ before) (after_durations (last ∷ before))
after_durations-Timed last before h =
    let (total, small, failed) = after_durations-total (last ∷ before) h in
    let (b, g) = after_durations-maximum last before h in
    record { total = total; timing_failed = failed; at_most = b; greatest = g }
