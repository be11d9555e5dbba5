-- ===== src/ConcurrentQueue/System/Inv.antt =====
-- What holds in every state of the threads on one queue of src/concurrent_task_queue.c.
use concurrent_task_scheduli.Base.{
  ℕ, ◌+◌, ◌≤◌, ◌<◌, ◌≡◌, Bool, false, some, List, [], ◌∷◌, ◌++◌, length, arith, word_mod, add_word,
  ◌⊎◌, get_elem?, set, append_assoc, inl, inr,
}
use concurrent_task_scheduli.TaskQueue.Inv.{Holds, longer-Holds}
use concurrent_task_scheduli.ConcurrentQueue.{Shared}
use concurrent_task_scheduli.ConcurrentQueue.Put.{Put, leave_not_full}
use concurrent_task_scheduli.ConcurrentQueue.System.{
  Place, count, wakes_taker, is_taker_asleep, is_putter_asleep, is_taker_woken, is_putter_woken,
  Signal, Producing, log_put,
}
use concurrent_task_scheduli.ConcurrentQueue.System.Counts.{
  putters-le, Signal-unsent, Signal-taker, Signalled, set-Moved,
}
use concurrent_task_scheduli.ConcurrentQueue.System.Locked.{PutIn, NotIn, PutEnd}

-- The queue holds the tasks that were accepted and not yet taken, in their order; the waiting threads
-- are counted; and no sleeper is forgotten: while a consumer sleeps there are at most as many tasks as
-- consumers woken, and while a producer sleeps at most as much room as producers woken. `l` and `j`
-- allow for a consumer or a producer that is on its way.
pub record Inv (l j : ℕ) (s : Shared) (ps : List Place) (accepted taken ts : List ℕ) : Type 0 where
  pub holds : Holds s.queue ts
  pub in_order : accepted ≡ taken ++ ts
  pub low_mark : s.queue.size ≤ s.high_water_mark
  pub high_mark : s.high_water_mark ≤ s.queue.capacity
  pub few : length ps < word_mod
  pub consumers : s.waiting_consumers ≡ count is_taker_asleep ps + count is_taker_woken ps
  pub producers : s.waiting_producers ≡ count is_putter_asleep ps + count is_putter_woken ps
  pub takers : (count is_taker_asleep ps ≡ 0) ⊎ (s.queue.size ≤ count is_taker_woken ps + l)
  pub putters :
      (count is_putter_asleep ps ≡ 0)
      ⊎ (s.queue.capacity ≤ s.queue.size + count is_putter_woken ps + j)
  pub closed :
      (s.shutdown_requested ≡ false)
      ⊎ ((count is_taker_asleep ps ≡ 0) × (count is_putter_asleep ps ≡ 0))

-- A producer has the mutex, and is not counted among the waiting any more.
pub producing :
    {s : Shared} {ps : List Place} {accepted taken ts : List ℕ}
    → Inv 0 0 s ps accepted taken ts
    → (i : ℕ) {p : Place} {t : ℕ} {a : Shared} → get_elem? ps i ≡ some p
    → Producing t p s a
    → Inv 0 1 a (set ps i Place.outside) accepted taken ts
unfolding leave_not_full
producing {ps = ps} inv i e (Producing.calls t s) =
    let m = set-Moved ps i Place.outside e in
    record {
      holds = inv.holds;
      in_order = inv.in_order;
      low_mark = inv.low_mark;
      high_mark = inv.high_mark;
      few = omega (arith, m, inv);
      consumers = omega (arith, m, inv);
      producers = omega (arith, m, inv);
      takers = ground (arith, m, inv);
      putters = ground (arith, m, inv);
      closed = ground (arith, m, inv);
    }
producing {ps = ps} inv i e (Producing.returns t s) =
    let m = set-Moved ps i Place.outside e in
    record {
      holds = inv.holds;
      in_order = inv.in_order;
      low_mark = inv.low_mark;
      high_mark = inv.high_mark;
      few = omega (arith, m, inv);
      consumers = omega (arith, m, inv);
      producers = omega (arith, m, inv, putters-le ps);
      takers = ground (arith, m, inv);
      putters = ground (arith, m, inv);
      closed = ground (arith, m, inv);
    }

module _ {a : Shared} {ps : List Place} {accepted taken ts : List ℕ}
    (inv : Inv 0 1 a ps accepted taken ts) where
  -- The producer goes to sleep, at a full queue that is not shut down.
  pub producer_sleeps :
      (i t : ℕ)
      → get_elem? ps i ≡ some Place.outside
      → a.shutdown_requested ≡ false
      → a.queue.size ≡ a.queue.capacity
      → Inv 0 0
          (record a { waiting_producers = add_word a.waiting_producers 1 })
          (set ps i (Place.put_asleep t))
          accepted
          taken
          ts
  producer_sleeps i t e up full =
      let m = set-Moved ps i (Place.put_asleep t) e in
      let n = putters-le (set ps i (Place.put_asleep t)) in
      record {
        holds = inv.holds;
        in_order = inv.in_order;
        low_mark = inv.low_mark;
        high_mark = inv.high_mark;
        few = omega (arith, m, inv);
        consumers = omega (arith, m, inv);
        producers = omega (arith, m, inv, n);
        takers = ground (arith, m, inv);
        putters = ground (arith, m, inv);
        closed = inl up;
      }

  -- The insertion has ended with the task in the queue.
  put_in :
      (transition : Bool) {t : ℕ} {p : Put} {b : Shared} {qs : List Place}
      → PutIn transition t a p b
      → Signalled is_taker_asleep is_taker_woken is_putter_asleep is_putter_woken p.signals ps qs
      → Inv 0 0 b qs (accepted ++ t ∷ []) taken (ts ++ t ∷ [])
  put_in transition {t} {p} {b} d g = record {
    holds = rw d.queue (longer-Holds inv.holds t d.room);
    in_order = rw inv.in_order (append_assoc taken ts (t ∷ []));
    low_mark = rw (d.queue, d.mark) (ground (arith, inv));
    high_mark = rw (d.queue, d.mark) (ground (arith, inv, d));
    few = omega (arith, g, inv);
    consumers = omega (arith, g, d, inv);
    producers = omega (arith, g, d, inv);
    takers = rw d.queue (ground (arith, g, d, inv));
    putters = rw d.queue (ground (arith, g, d, inv));
    closed = ground (arith, d);
  }

  -- The insertion has ended with nothing changed.
  put_refused :
      {p : Put} {b : Shared} {qs : List Place}
      → NotIn a p b
      → qs ≡ ps
      → Inv 0 0 b qs accepted taken ts
  put_refused d u =
      rw (d.same, u)
        record {
          holds = inv.holds;
          in_order = inv.in_order;
          low_mark = inv.low_mark;
          high_mark = inv.high_mark;
          few = inv.few;
          consumers = inv.consumers;
          producers = inv.producers;
          takers = inv.takers;
          putters = ground (arith, d, inv);
          closed = inv.closed;
        }

  pub put_end :
      (transition : Bool) {t : ℕ} {p : Put} {b : Shared} {qs : List Place}
      → PutEnd transition t a p b
      → Signal is_taker_asleep wakes_taker ps p.signals qs
      → (us : List ℕ) × Inv 0 0 b qs (log_put p t accepted) taken us
  put_end transition {t} (inl d) g =
      (ts ++ t ∷ [], rw d.inserted (put_in transition d (Signal-taker g)))
  put_end transition (inr d) g = (ts, rw d.refused (put_refused d (Signal-unsent g d.unsent)))
