-- ===== src/ConcurrentQueue/Profile/Record/Moves.antt =====
-- What a locked part of a queue of src/concurrent_task_queue.c adds to the counters of successes, and to the
-- queue.
use concurrent_task_scheduli.Base.{
  ℕ, ◌+◌, ◌<◌, ◌≡◌, Bool, true, Option, some, word_mod, if◌then◌else◌,
}
use concurrent_task_scheduli.ConcurrentQueue.{Shared}
use concurrent_task_scheduli.ConcurrentQueue.Put.{attempt_put, must_wait_put, leave_not_full}
use concurrent_task_scheduli.ConcurrentQueue.Take.{attempt_take, must_wait_take, leave_not_empty}
use concurrent_task_scheduli.ConcurrentQueue.Profile.{Occupancy}
use concurrent_task_scheduli.ConcurrentQueue.Profile.Record.{
  Tally, Workers, Entry, calls, returns, has_waited, note_entry,
}
use concurrent_task_scheduli.ConcurrentQueue.Profile.Record.Locked.{
  ticks_of, put_tally, put_shared, take_tally, take_shared,
}
use concurrent_task_scheduli.ConcurrentQueue.Profile.Record.Sides.{Even}
use concurrent_task_scheduli.ConcurrentQueue.Profile.Record.Even.{note_entry-Even, ticks_of-Even}
use concurrent_task_scheduli.ConcurrentQueue.Profile.Record.Gains.{
  Moved, Gained-Moved, note_entry-Gained, ticks_of-Gained, put_tail-Moved, take_tail-Moved, inserts,
  removes, Fits, attempt_put-size, attempt_take-size,
}

abbrev pub put_gain : Bool → Entry → ℕ → Shared → ℕ
put_gain tr e task s =
    inserts (attempt_put tr (some task) (if has_waited e then leave_not_full s else s)).0

abbrev pub take_gain : Bool → Entry → Shared → ℕ
take_gain tr e s = removes (attempt_take tr (if has_waited e then leave_not_empty s else s)).0

pub put_tally-Moved :
    (tr : Bool) (e : Entry) (next : Option ℕ) (task : ℕ) (s : Shared) (f : ℕ) {o : Bool}
    → (t : Tally) (p : Occupancy) → (has_waited e ≡ true → 0 < s.waiting_producers)
    → Even s.waiting_producers 0 0 o t
    → p.occupancy_sample_count < word_mod
    → Moved (put_gain tr e task s) (t, p) (put_tally tr e next task s f (t, p))
unfolding put_tally
put_tally-Moved tr e next task s f t p waits v small =
    let s1 = if has_waited e then leave_not_full s else s in
    let t1 = note_entry f (must_wait_put s1) e t in
    let q = attempt_put tr (some task) s1 in
    Gained-Moved t t1 p _ (note_entry-Gained f (must_wait_put s1) e t) (
      put_tail-Moved (has_waited e) q.0 next q.1.queue.size q.1.queue.capacity t1 p
        (note_entry-Even f (must_wait_put s1) e t waits v).small small)

pub take_tally-Moved :
    (tr : Bool) (worker : ℕ) (e : Entry) (next : Option ℕ) (s : Shared) (f : ℕ) {o : Bool}
    → (t : Tally) (p : Occupancy) (w : Workers) → (has_waited e ≡ true → 0 < s.waiting_consumers)
    → Even s.waiting_consumers 0 0 o t
    → p.occupancy_sample_count < word_mod
    → Moved (take_gain tr e s) (t, p) (take_tally tr worker e next s f ((t, p), w)).0
unfolding take_tally
take_tally-Moved tr worker e next s f t p w waits v small =
    let s1 = if has_waited e then leave_not_empty s else s in
    let t1 = note_entry f (must_wait_take s1) e t in
    let q = attempt_take tr s1 in
    let (w2, t2) = ticks_of worker e (w, t1) in
    let e2 = ticks_of-Even worker e w t1 (note_entry-Even f (must_wait_take s1) e t waits v) in
    Gained-Moved t t1 p _ (note_entry-Gained f (must_wait_take s1) e t) (
      Gained-Moved t1 t2 p _ (ticks_of-Gained worker e w t1) (
        take_tail-Moved (has_waited e) q.0 next q.1.queue.size q.1.queue.capacity worker t2 p w2
          e2.small small))

pub put_shared-size :
    (tr : Bool) (e : Entry) (task : ℕ) (s : Shared)
    → Fits s.queue
    → let s' = put_shared tr e task s in
      Fits s'.queue × (s'.queue.size ≡ s.queue.size + put_gain tr e task s)
unfolding put_shared leave_not_full
put_shared-size tr (calls start end) task s v = attempt_put-size tr task s v
put_shared-size tr (returns start end) task s v = attempt_put-size tr task (leave_not_full s) v

pub take_shared-size :
    (tr : Bool) (e : Entry) (s : Shared)
    → Fits s.queue
    → let s' = take_shared tr e s in
      Fits s'.queue × (s.queue.size ≡ s'.queue.size + take_gain tr e s)
unfolding take_shared leave_not_empty
take_shared-size tr (calls start end) s v = attempt_take-size tr s v
take_shared-size tr (returns start end) s v = attempt_take-size tr (leave_not_empty s) v
