-- ===== src/ConcurrentQueue/Profile/Samples.antt =====
-- What src/concurrent_task_queue.c records of the queue's occupancy, against the list of the samples.
use concurrent_task_scheduli.Base.{
  ℕ, ◌+◌, ◌≤◌, ◌<◌, ◌≡◌, refl, Bool, true, false, List, [], ◌∷◌, arith, ◌==◌, word_mod, length, ltb,
  sym, if◌then◌else◌,
}
use mathlib.Core.Path.{subst}
use mathlib.Core.List.{Memᴰ}
use concurrent_task_scheduli.ConcurrentQueue.Profile.{
  profiling_add, Occupancy, profiling_record_occupancy,
}

-- A new queue's, after calloc.
abbrev pub unsampled : Occupancy
unsampled = record {
  occupancy_sample_count = 0;
  occupancy_sample_sum = 0;
  occupancy_min = 0;
  occupancy_max = 0;
  occupancy_zero_observations = 0;
  occupancy_full_observations = 0;
  counter_overflow = false;
}

-- What is recorded once the samples are taken, the last one first.
unfoldable pub after_samples : ℕ → List ℕ → Occupancy
after_samples capacity [] = unsampled
after_samples capacity (x ∷ before) =
    profiling_record_occupancy x capacity (after_samples capacity before)

unfoldable pub sum_of : List ℕ → ℕ
sum_of [] = 0
sum_of (x ∷ xs) = x + sum_of xs

unfoldable pub times_in : ℕ → List ℕ → ℕ
times_in y [] = 0
times_in y (x ∷ xs) = (if x == y then 1 else 0) + times_in y xs

-- All of the list lies between two bounds.
pub data Between (lo hi : ℕ) : List ℕ → Type 0 where
  no_more : Between lo hi []
  one_more : {x : ℕ} {xs : List ℕ} → lo ≤ x → x ≤ hi → Between lo hi xs → Between lo hi (x ∷ xs)

pub Between-wider :
    {lo hi lo' hi' : ℕ} {xs : List ℕ} → lo' ≤ lo → hi ≤ hi' → Between lo hi xs → Between lo' hi' xs
Between-wider h k no_more = no_more
Between-wider h k (one_more p q b) =
    one_more (omega (arith, h, p)) (omega (arith, k, q)) (Between-wider h k b)

-- The counters are words, and count the samples.
record Counted (capacity : ℕ) (xs : List ℕ) (p : Occupancy) : Type 0 where
  small_count : p.occupancy_sample_count < word_mod
  small_sum : p.occupancy_sample_sum < word_mod
  small_zeros : p.occupancy_zero_observations < word_mod
  small_fulls : p.occupancy_full_observations < word_mod
  count : p.occupancy_sample_count ≡ length xs
  sum : p.occupancy_sample_sum ≡ sum_of xs
  zeros : p.occupancy_zero_observations ≡ times_in 0 xs
  fulls : p.occupancy_full_observations ≡ times_in capacity xs

calm_before :
    (x capacity : ℕ) (p : Occupancy)
    → (profiling_record_occupancy x capacity p).counter_overflow ≡ false
    → p.counter_overflow ≡ false
unfolding profiling_record_occupancy profiling_add
calm_before x capacity p h = ground (arith, h)

record-Counted :
    (x capacity : ℕ) (xs : List ℕ) (p : Occupancy)
    → Counted capacity xs p
    → (profiling_record_occupancy x capacity p).counter_overflow ≡ false
    → Counted capacity (x ∷ xs) (profiling_record_occupancy x capacity p)
unfolding profiling_record_occupancy profiling_add sum_of times_in
record-Counted x capacity xs p c h = ground (arith, c, h)

-- What is recorded describes the samples.
pub record Sampled (capacity : ℕ) (xs : List ℕ) (p : Occupancy) : Type 0 where
  pub count : p.occupancy_sample_count ≡ length xs
  pub sum : p.occupancy_sample_sum ≡ sum_of xs
  pub zeros : p.occupancy_zero_observations ≡ times_in 0 xs
  pub fulls : p.occupancy_full_observations ≡ times_in capacity xs
  pub between : Between p.occupancy_min p.occupancy_max xs
  pub least : Memᴰ p.occupancy_min xs
  pub greatest : Memᴰ p.occupancy_max xs

-- The extremes after the first sample, and after another.
first_extremes :
    (x capacity : ℕ)
    → ((profiling_record_occupancy x capacity unsampled).occupancy_min ≡ x)
      × ((profiling_record_occupancy x capacity unsampled).occupancy_max ≡ x)
unfolding profiling_record_occupancy profiling_add
first_extremes x capacity = ground arith

next_extremes :
    (x capacity : ℕ) (p : Occupancy)
    → p.occupancy_sample_count < word_mod
    → 0 < p.occupancy_sample_count
    → (profiling_record_occupancy x capacity p).counter_overflow ≡ false
    → ((profiling_record_occupancy x capacity p).occupancy_min
        ≡ (if ltb x p.occupancy_min then x else p.occupancy_min))
      × ((profiling_record_occupancy x capacity p).occupancy_max
          ≡ (if ltb p.occupancy_max x then x else p.occupancy_max))
unfolding profiling_record_occupancy profiling_add
next_extremes x capacity p small some_before h = ground (arith, small, some_before, h)

pub either_Mem : (b : Bool) {x m : ℕ} {xs : List ℕ} → Memᴰ m xs → Memᴰ (if b then x else m) (x ∷ xs)
either_Mem true h = Memᴰ.head refl
either_Mem false h = Memᴰ.tail h

after_samples-Counted :
    (capacity : ℕ) (xs : List ℕ)
    → (after_samples capacity xs).counter_overflow ≡ false
    → Counted capacity xs (after_samples capacity xs)
unfolding after_samples sum_of times_in
after_samples-Counted capacity [] h = ground arith
after_samples-Counted capacity (x ∷ before) h =
    let p = after_samples capacity before in
    record-Counted x capacity before p
      (after_samples-Counted capacity before (calm_before x capacity p h)) h

after_samples-extremes :
    (capacity x : ℕ) (before : List ℕ)
    → (after_samples capacity (x ∷ before)).counter_overflow ≡ false
    → (Between
        (after_samples capacity (x ∷ before)).occupancy_min
        (after_samples capacity (x ∷ before)).occupancy_max
        (x ∷ before))
      × Memᴰ (after_samples capacity (x ∷ before)).occupancy_min (x ∷ before)
      × Memᴰ (after_samples capacity (x ∷ before)).occupancy_max (x ∷ before)
unfolding after_samples
after_samples-extremes capacity x [] h =
    let (lo, hi) = first_extremes x capacity in
    (one_more (omega (arith, lo)) (omega (arith, hi)) no_more, Memᴰ.head lo, Memᴰ.head hi)
after_samples-extremes capacity x (y ∷ before) h =
    let p = after_samples capacity (y ∷ before) in
    let calm = calm_before x capacity p h in
    let counted = after_samples-Counted capacity (y ∷ before) calm in
    let (within, least, greatest) = after_samples-extremes capacity y before calm in
    let (lo, hi) =
      next_extremes x capacity p counted.small_count (omega (arith, counted.count)) h in
    (
      one_more (ground (arith, lo)) (ground (arith, hi))
          (Between-wider (ground (arith, lo)) (ground (arith, hi)) within),
      subst (λ m. Memᴰ m (x ∷ y ∷ before)) (sym lo) (either_Mem _ least),
      subst (λ m. Memᴰ m (x ∷ y ∷ before)) (sym hi) (either_Mem _ greatest),
    )

-- Once a new queue of some capacity has recorded at least one sample of its occupancy, and no counter has
-- overflowed: the fields hold the number of the samples, their sum, how many of them are zero and how
-- many are the capacity, and their least and their greatest.
pub after_samples-Sampled :
    (capacity last : ℕ) (before : List ℕ)
    → (after_samples capacity (last ∷ before)).counter_overflow ≡ false
    → Sampled capacity (last ∷ before) (after_samples capacity (last ∷ before))
after_samples-Sampled capacity last before h =
    let c = after_samples-Counted capacity (last ∷ before) h in
    let (b, l, g) = after_samples-extremes capacity last before h in
    record {
      count = c.count;
      sum = c.sum;
      zeros = c.zeros;
      fulls = c.fulls;
      between = b;
      least = l;
      greatest = g;
    }
