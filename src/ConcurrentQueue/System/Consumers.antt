-- ===== src/ConcurrentQueue/System/Consumers.antt =====
-- The consumers' steps keep the invariant of ConcurrentQueue.System.Inv.
use concurrent_task_scheduli.Base.{
  ℕ, ◌≡◌, ◌∙◌, sym, Bool, false, some, List, [], ◌∷◌, ◌++◌, arith, add_word, get_elem?, set,
  append_assoc, inl,
}
use concurrent_task_scheduli.TaskQueue.Inv.{shorter-Holds}
use concurrent_task_scheduli.ConcurrentQueue.{Shared}
use concurrent_task_scheduli.ConcurrentQueue.Take.{Take, leave_not_empty}
use concurrent_task_scheduli.ConcurrentQueue.System.{
  Place, wakes_putter, is_taker_asleep, is_putter_asleep, is_taker_woken, is_putter_woken, Signal,
  Consuming, log_take,
}
use concurrent_task_scheduli.ConcurrentQueue.System.Counts.{
  takers-le, Signal-unsent, Signal-putter, Signalled, set-Moved,
}
use concurrent_task_scheduli.ConcurrentQueue.System.Locked.{TakenOut, NotOut, TakeEnd, kept, took}
use concurrent_task_scheduli.ConcurrentQueue.System.Inv.{Inv}

-- A consumer has the mutex, and is not counted among the waiting any more.
pub consuming :
    {s : Shared} {ps : List Place} {accepted taken ts : List ℕ}
    → Inv 0 0 s ps accepted taken ts
    → (i : ℕ) {p : Place} {a : Shared} → get_elem? ps i ≡ some p
    → Consuming p s a
    → Inv 1 0 a (set ps i Place.outside) accepted taken ts
unfolding leave_not_empty
consuming {ps = ps} inv i e (Consuming.calls s) =
    let m = set-Moved ps i Place.outside e in
    record {
      holds = inv.holds;
      in_order = inv.in_order;
      low_mark = inv.low_mark;
      high_mark = inv.high_mark;
      few = omega (arith, m, inv);
      consumers = omega (arith, m, inv);
      producers = omega (arith, m, inv);
      takers = ground (arith, m, inv);
      putters = ground (arith, m, inv);
      closed = ground (arith, m, inv);
    }
consuming {ps = ps} inv i e (Consuming.returns s) =
    let m = set-Moved ps i Place.outside e in
    record {
      holds = inv.holds;
      in_order = inv.in_order;
      low_mark = inv.low_mark;
      high_mark = inv.high_mark;
      few = omega (arith, m, inv);
      consumers = omega (arith, m, inv, takers-le ps);
      producers = omega (arith, m, inv);
      takers = ground (arith, m, inv);
      putters = ground (arith, m, inv);
      closed = ground (arith, m, inv);
    }

module _ {a : Shared} {ps : List Place} {accepted taken ts : List ℕ}
    (inv : Inv 1 0 a ps accepted taken ts) where
  -- The consumer goes to sleep, at an empty queue that is not shut down.
  pub consumer_sleeps :
      (i : ℕ)
      → get_elem? ps i ≡ some Place.outside
      → a.shutdown_requested ≡ false
      → a.queue.size ≡ 0
      → Inv 0 0
          (record a { waiting_consumers = add_word a.waiting_consumers 1 })
          (set ps i Place.take_asleep)
          accepted
          taken
          ts
  consumer_sleeps i e up empty =
      let m = set-Moved ps i Place.take_asleep e in
      let n = takers-le (set ps i Place.take_asleep) in
      record {
        holds = inv.holds;
        in_order = inv.in_order;
        low_mark = inv.low_mark;
        high_mark = inv.high_mark;
        few = omega (arith, m, inv);
        consumers = omega (arith, m, inv, n);
        producers = omega (arith, m, inv);
        takers = ground (arith, m, inv);
        putters = ground (arith, m, inv);
        closed = inl up;
      }

  -- The removal has ended with nothing changed.
  take_refused :
      {r : Take} {b : Shared} {qs : List Place}
      → NotOut a r b
      → qs ≡ ps
      → Inv 0 0 b qs accepted taken ts
  take_refused d u =
      rw (d.same, u)
        record {
          holds = inv.holds;
          in_order = inv.in_order;
          low_mark = inv.low_mark;
          high_mark = inv.high_mark;
          few = inv.few;
          consumers = inv.consumers;
          producers = inv.producers;
          takers = ground (arith, d, inv);
          putters = inv.putters;
          closed = inv.closed;
        }

-- The removal has ended with the oldest task out.
take_out :
    {a : Shared} {ps : List Place} {accepted taken ts : List ℕ} {u : ℕ}
    → Inv 1 0 a ps accepted taken (u ∷ ts)
    → (transition : Bool) {r : Take} {b : Shared} {qs : List Place} → TakenOut transition u a r b
    → Signalled is_putter_asleep is_putter_woken is_taker_asleep is_taker_woken r.signals ps qs
    → Inv 0 0 b qs accepted (taken ++ u ∷ []) ts
take_out {taken = taken} {ts = ts} {u = u} inv transition d g = record {
  holds = rw d.queue (shorter-Holds inv.holds);
  in_order = inv.in_order ∙ sym (append_assoc taken (u ∷ []) ts);
  low_mark = rw (d.queue, d.mark) (omega (arith, inv));
  high_mark = rw (d.queue, d.mark) (omega (arith, inv));
  few = omega (arith, g, inv);
  consumers = omega (arith, g, d, inv);
  producers = omega (arith, g, d, inv);
  takers = rw d.queue (ground (arith, g, d, inv, inv.holds.sized));
  putters = rw d.queue (ground (arith, g, d, inv, inv.holds.sized));
  closed = ground (arith, d, inv, g);
}

pub take_end :
    {a : Shared} {ps : List Place} {accepted taken ts : List ℕ}
    → Inv 1 0 a ps accepted taken ts
    → (transition : Bool) {r : Take} {b : Shared} {qs : List Place} → TakeEnd transition ts a r b
    → Signal is_putter_asleep wakes_putter ps r.signals qs
    → (us : List ℕ) × Inv 0 0 b qs accepted (log_take r taken) us
take_end {ts = ts} inv transition (kept d) g =
    (ts, rw d.kept (take_refused inv d (Signal-unsent g d.unsent)))
take_end {accepted = accepted} {taken = taken} inv transition (took u rest e d) g =
    (rest, rw d.removed (take_out (rw e at inv) transition d (Signal-putter g)))
