-- ===== src/ConcurrentQueue/Profile/Record/Even.antt =====
-- What one locked part of a queue of src/concurrent_task_queue.c does to the counters of the profile.
use concurrent_task_scheduli.Base.{
  ℕ, ◌+◌, ◌<◌, ◌≡◌, refl, Bool, true, false, Option, none, some, List, arith, word_mod, add_word,
  sub_word, if◌then◌else◌,
}
use concurrent_task_scheduli.ConcurrentQueue.{Shared}
use concurrent_task_scheduli.ConcurrentQueue.Put.{attempt_put}
use concurrent_task_scheduli.ConcurrentQueue.Take.{attempt_take}
use concurrent_task_scheduli.ConcurrentQueue.Profile.{
  profiling_add, Occupancy, profiling_record_occupancy,
}
use concurrent_task_scheduli.ConcurrentQueue.Profile.Record.{
  Tally, Workers, note_success, Entry, calls, returns, has_waited, note_entry, note_done,
  note_sleep, add_at,
}
use concurrent_task_scheduli.ConcurrentQueue.Profile.Record.Locked.{ticks_of}
use concurrent_task_scheduli.ConcurrentQueue.Profile.Record.Sides.{
  Small, Even, note_locked-Even, note_waiting-Even, note_returned-Even, note_success-Even,
  note_signal-Even,
}

-- Only the side and the flag of an overflow matter, and the flag may be set.
pub Even-flag :
    {n n' k m : ℕ} {o : Bool} {t t' : Tally}
    → Even n k m o t
    → t'.side ≡ t.side
    → (t'.counter_overflow ≡ false → t.counter_overflow ≡ false)
    → (t.counter_overflow ≡ false → n' ≡ n)
    → Even n' k m o t'
Even-flag {n} {n'} {k} {m} {o} {t} {t'} e same calm eq =
    let small : Small t'.side = rw same e.small in
    record {
      small = small;
      calm = λ h. e.calm (calm h);
      exact = λ h. let x = e.exact (calm h) in let p = eq (calm h) in rw (same, p) x;
    }

pub rebase : {n k m : ℕ} {o : Bool} (t : Tally) → Even n k m o t → Even n k m t.counter_overflow t
rebase t e = record { small = e.small; calm = λ h. h; exact = e.exact }

-- A caller that is refused leaves.
pub Even-leave : {n : ℕ} {o : Bool} (t : Tally) → Even n 1 0 o t → Even n 0 0 o t
Even-leave t e = record {
  small = e.small;
  calm = e.calm;
  exact = λ h. let x = e.exact h in ground (arith, x);
}

-- The waiting callers are fewer than the counter holds.
waits_lem :
    {n k m : ℕ} {o : Bool} (t : Tally) → Even n k m o t → t.counter_overflow ≡ false → n < word_mod
waits_lem t e h = let x = e.exact h in let p = e.small.waits in ground (arith, x.waits, p)

-- A caller comes; of those that wait, one may be back.
pub note_entry-Even :
    (f : ℕ) (still : Bool) (e : Entry) {w : ℕ} {o : Bool} (t : Tally)
    → (has_waited e ≡ true → 0 < w)
    → Even w 0 0 o t
    → Even (if has_waited e then sub_word w 1 else w) 1 0 o (note_entry f still e t)
unfolding note_entry
note_entry-Even f still (calls start end) t waits v =
    note_locked-Even f _ _ _ (Even-flag v refl (λ h. h) (λ h. refl))
note_entry-Even f still (returns start end) {w} t waits v =
    let p = waits refl in
    note_returned-Even still _ _ _
      (Even-flag v refl (λ h. h) (λ h. let q = waits_lem t v h in ground (arith, p, q)))

-- A caller begins to wait.
pub note_sleep-Even :
    (next : Option ℕ) {n : ℕ} {o : Bool} (t : Tally)
    → Even n 1 0 o t
    → Even (add_word n 1) 0 0 o (note_sleep next t)
note_sleep-Even next t v =
    let v' = note_waiting-Even t v in
    Even-flag v' refl (λ h. h) (λ h. let q = waits_lem _ v' h in ground (arith, q))

pub occupancy_lem :
    (size capacity : ℕ) (p : Occupancy)
    → p.occupancy_sample_count < word_mod
    → let p' = profiling_record_occupancy size capacity p in
      (p'.occupancy_sample_count < word_mod)
      × (p'.counter_overflow ≡ false
          → (p.counter_overflow ≡ false)
            × (p'.occupancy_sample_count ≡ p.occupancy_sample_count + 1))
unfolding profiling_record_occupancy profiling_add
occupancy_lem size capacity p small = ground (arith, small)

-- A task goes in or out; the sample is taken between the two counters.
pub note_done-Even :
    (waited sent : Bool) (size capacity : ℕ) {n : ℕ} {o : Bool} (t : Tally) (p : Occupancy)
    → Even n 1 0 o t
    → p.occupancy_sample_count < word_mod
    → let (t', p') = note_done waited sent size capacity (t, p) in
      Even n 0 0 o t' × (p'.occupancy_sample_count < word_mod)
unfolding note_done
note_done-Even waited sent size capacity t p e small =
    let t1 = note_success waited t in
    let start = record p { counter_overflow = t1.counter_overflow } in
    let p1 = occupancy_lem size capacity start small in
    let e1 = Even-flag (note_success-Even waited t e) refl (λ h. (p1.1 h).0) (λ h. refl) in
    (note_signal-Even sent _ e1, p1.0)

-- How many wait after a part that came to `q`.
abbrev pub waiting_after : {A : Type 0} → Option A → ℕ → ℕ
waiting_after q n = elim q [ none ↦ add_word n 1 | some r ↦ n ]

-- The waiting callers as the queue counts them.
pub attempt_put-waiters :
    (tr : Bool) (task : ℕ) (s : Shared)
    → let (q, s') = attempt_put tr (some task) s in
      (s'.waiting_consumers ≡ s.waiting_consumers)
      × (s'.waiting_producers ≡ waiting_after q s.waiting_producers)
unfolding attempt_put
attempt_put-waiters tr task s = ground arith

pub attempt_take-waiters :
    (tr : Bool) (s : Shared)
    → let (q, s') = attempt_take tr s in
      (s'.waiting_producers ≡ s.waiting_producers)
      × (s'.waiting_consumers ≡ waiting_after q s.waiting_consumers)
unfolding attempt_take
attempt_take-waiters tr s = ground arith

pub add_at-calm :
    (worker value : ℕ) (cells : List ℕ) (o : Bool)
    → (add_at worker value (cells, o)).1 ≡ false
    → o ≡ false
unfolding add_at profiling_add
add_at-calm worker value cells o h = ground (arith, h)

-- The ticks that go to a worker leave the side alone.
pub ticks_of-Even :
    (worker : ℕ) (e : Entry) (w : Workers) {n k m : ℕ} {o : Bool} (t : Tally)
    → Even n k m o t
    → Even n k m o (ticks_of worker e (w, t)).1
unfolding ticks_of
ticks_of-Even worker (calls start end) w t v =
    Even-flag v refl (λ h. add_at-calm worker _ _ _ h) (λ h. refl)
ticks_of-Even worker (returns start end) w t v =
    Even-flag v refl (λ h. add_at-calm worker _ _ _ h) (λ h. refl)
