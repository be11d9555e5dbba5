-- ===== src/ConcurrentQueue/Profile/Record/Parts.antt =====
-- What one locked part of a queue of src/concurrent_task_queue.c does to the whole profile.
use mathlib.Core.Path.{subst}
use concurrent_task_scheduli.Base.{
  ℕ, ◌<◌, ◌≡◌, refl, sym, Bool, true, false, Option, none, some, word_mod, sub_word, if◌then◌else◌,
  Pointer,
}
use concurrent_task_scheduli.ConcurrentQueue.{Shared}
use concurrent_task_scheduli.ConcurrentQueue.Put.{Put, attempt_put, must_wait_put, leave_not_full}
use concurrent_task_scheduli.ConcurrentQueue.Take.{
  Take, attempt_take, must_wait_take, leave_not_empty,
}
use concurrent_task_scheduli.ConcurrentQueue.Profile.{Occupancy}
use concurrent_task_scheduli.ConcurrentQueue.Profile.Record.{
  Tally, Workers, Entry, has_waited, note_entry, note_done, note_sleep,
}
use concurrent_task_scheduli.ConcurrentQueue.Profile.Record.Locked.{
  at_worker, ticks_of, put_tally, put_shared, take_tally, take_shared,
}
use concurrent_task_scheduli.ConcurrentQueue.Profile.Record.Sides.{Even}
use concurrent_task_scheduli.ConcurrentQueue.Profile.Record.Even.{
  Even-flag, Even-leave, note_entry-Even, note_sleep-Even, note_done-Even, attempt_put-waiters,
  attempt_take-waiters, waiting_after, add_at-calm, ticks_of-Even,
}

pub record Kept (n : ℕ) (o : Bool) (r : Tally × Occupancy) : Type 0 where
  pub even : Even n 0 0 o r.0
  pub small : r.1.occupancy_sample_count < word_mod

if-Kept :
    (b : Bool) {n : ℕ} {o : Bool} {x y : Tally × Occupancy}
    → Kept n o x
    → Kept n o y
    → Kept n o (if b then x else y)
if-Kept true a b = a
if-Kept false a b = b

put_tail-Kept :
    (waited : Bool) (q : Option Put) (next : Option ℕ) (size capacity : ℕ) {n : ℕ} {o : Bool}
    → (t : Tally) (p : Occupancy) → Even n 1 0 o t
    → p.occupancy_sample_count < word_mod
    → Kept (waiting_after q n) o (elim q [
      | none ↦ (note_sleep next t, p)
      | some r ↦ if r.inserted then note_done waited r.signals size capacity (t, p) else (t, p)
    ])
put_tail-Kept waited none next size capacity t p v small = record {
  even = note_sleep-Even next t v;
  small = small;
}
put_tail-Kept waited (some r) next size capacity t p v small =
    let (done, few) = note_done-Even waited r.signals size capacity t p v small in
    if-Kept r.inserted (record { even = done; small = few })
      (record { even = Even-leave t v; small = small })

leave_not_full-waiters :
    (back : Bool) (s : Shared)
    → (if back then sub_word s.waiting_producers 1 else s.waiting_producers)
      ≡ (if back then leave_not_full s else s).waiting_producers
unfolding leave_not_full
leave_not_full-waiters true s = refl
leave_not_full-waiters false s = refl

pub put_tally-Kept :
    (tr : Bool) (e : Entry) (next : Option ℕ) (task : ℕ) (s : Shared) (f : ℕ) {o : Bool}
    → (t : Tally) (p : Occupancy) → (has_waited e ≡ true → 0 < s.waiting_producers)
    → Even s.waiting_producers 0 0 o t
    → p.occupancy_sample_count < word_mod
    → Kept (put_shared tr e task s).waiting_producers o (put_tally tr e next task s f (t, p))
unfolding put_tally put_shared
put_tally-Kept tr e next task s f {o} t p waits v small =
    let s1 = if has_waited e then leave_not_full s else s in
    let v1 =
      subst (λ k. Even k 1 0 o (note_entry f (must_wait_put s1) e t))
        (leave_not_full-waiters (has_waited e) s)
        (note_entry-Even f (must_wait_put s1) e t waits v) in
    let q = attempt_put tr (some task) s1 in
    subst (λ k. Kept k o (put_tally tr e next task s f (t, p)))
      (sym (attempt_put-waiters tr task s1).1)
      (put_tail-Kept (has_waited e) q.0 next q.1.queue.size q.1.queue.capacity _ p v1 small)

removed-Kept :
    (x : Option Pointer) {n : ℕ} {o : Bool} {a b : Tally × Occupancy} (w w' : Workers)
    → Kept n o a
    → Kept n o b
    → Kept n o
        (elim x as (λ y. (Tally × Occupancy) × Workers) [ none ↦ (a, w) | some task ↦ (b, w') ]).0
removed-Kept none w w' a b = a
removed-Kept (some task) w w' a b = b

take_tail-Kept :
    (waited : Bool) (q : Option Take) (next : Option ℕ) (size capacity worker : ℕ) {n : ℕ}
    {o : Bool}
    → (t : Tally) (p : Occupancy) (w : Workers) → Even n 1 0 o t
    → p.occupancy_sample_count < word_mod
    → let (waits, slept) = at_worker worker 1 w.dequeue_wait_count (note_sleep next t) in
      Kept
        (waiting_after q n)
        o
        (elim q as (λ y. (Tally × Occupancy) × Workers) [
          | none ↦ ((slept, p), record w { dequeue_wait_count = waits })
          | some r ↦
              let (t2, p2) = note_done waited r.signals size capacity (t, p) in
              let (tasks, t3) = at_worker worker 1 w.tasks t2 in
              elim r.removed [
                | none ↦ ((t, p), w)
                | some task ↦ ((t3, p2), record w { tasks = tasks })
              ]
        ]).0
take_tail-Kept waited none next size capacity worker t p w v small = record {
  even = Even-flag (note_sleep-Even next t v) refl (λ h. add_at-calm worker _ _ _ h) (λ h. refl);
  small = small;
}
take_tail-Kept waited (some r) next size capacity worker t p w v small =
    let (done, few) = note_done-Even waited r.signals size capacity t p v small in
    removed-Kept r.removed _ _ (record { even = Even-leave t v; small = small })
      (record {
        even = Even-flag done refl (λ h. add_at-calm worker _ _ _ h) (λ h. refl);
        small = few;
      })

leave_not_empty-waiters :
    (back : Bool) (s : Shared)
    → (if back then sub_word s.waiting_consumers 1 else s.waiting_consumers)
      ≡ (if back then leave_not_empty s else s).waiting_consumers
unfolding leave_not_empty
leave_not_empty-waiters true s = refl
leave_not_empty-waiters false s = refl

pub take_tally-Kept :
    (tr : Bool) (worker : ℕ) (e : Entry) (next : Option ℕ) (s : Shared) (f : ℕ) {o : Bool}
    → (t : Tally) (p : Occupancy) (w : Workers) → (has_waited e ≡ true → 0 < s.waiting_consumers)
    → Even s.waiting_consumers 0 0 o t
    → p.occupancy_sample_count < word_mod
    → Kept (take_shared tr e s).waiting_consumers o (take_tally tr worker e next s f ((t, p), w)).0
unfolding take_tally take_shared
take_tally-Kept tr worker e next s f {o} t p w waits v small =
    let s1 = if has_waited e then leave_not_empty s else s in
    let t1 = note_entry f (must_wait_take s1) e t in
    let v1 =
      subst (λ k. Even k 1 0 o t1) (leave_not_empty-waiters (has_waited e) s)
        (note_entry-Even f (must_wait_take s1) e t waits v) in
    let q = attempt_take tr s1 in
    let (w2, t2) = ticks_of worker e (w, t1) in
    subst (λ k. Kept k o (take_tally tr worker e next s f ((t, p), w)).0)
      (sym (attempt_take-waiters tr s1).1)
      (take_tail-Kept (has_waited e) q.0 next q.1.queue.size q.1.queue.capacity worker t2 p w2
        (ticks_of-Even worker e w t1 v1) small)
