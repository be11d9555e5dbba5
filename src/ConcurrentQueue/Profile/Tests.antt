-- ===== src/ConcurrentQueue/Profile/Tests.antt =====
-- The profile of a queue of src/concurrent_task_queue.c that holds two tasks, after three samples.
use concurrent_task_scheduli.Base.{refl, [], ◌∷◌}
use concurrent_task_scheduli.ConcurrentQueue.Profile.{profiling_add, profiling_record_occupancy}
use concurrent_task_scheduli.ConcurrentQueue.Profile.Samples.{
  Sampled, after_samples, after_samples-Sampled,
}

after_samples-Sampled_example : Sampled 2 (0 ∷ 2 ∷ 1 ∷ []) (after_samples 2 (0 ∷ 2 ∷ 1 ∷ []))
unfolding after_samples profiling_record_occupancy profiling_add
after_samples-Sampled_example = after_samples-Sampled 2 0 (2 ∷ 1 ∷ []) refl
