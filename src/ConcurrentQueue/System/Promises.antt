-- ===== src/ConcurrentQueue/System/Promises.antt =====
-- What the header of src/concurrent_task_queue.c promises to any number of threads, in every state that
-- they reach from a fresh queue.
use concurrent_task_scheduli.Base.{
  ℕ, suc, ◌+◌, ◌≤◌, ◌<◌, ◌≡◌, ◌∙◌, refl, Bool, true, false, some, List, [], ◌∷◌, ◌++◌, arith,
  word_mod, get_elem?, set, inl, inr, ap,
}
use native.Mathlib.Decide.{dec_lt}
use concurrent_task_scheduli.TaskQueue.{TaskQueue}
use concurrent_task_scheduli.TaskQueue.Inv.{Holds}
use concurrent_task_scheduli.ConcurrentQueue.{Shared, shutdown, ok}
use concurrent_task_scheduli.ConcurrentQueue.Put.{Put, attempt_put, leave_not_full}
use concurrent_task_scheduli.ConcurrentQueue.Take.{Take, attempt_take, leave_not_empty}
use concurrent_task_scheduli.ConcurrentQueue.System.{
  Place, System, Step, put_waits, put_ends, put_tries, take_waits, take_ends, take_tries, stirs,
  shuts_down, Reach, here, next, begin, count, is_taker_asleep, is_putter_asleep, is_taker_woken,
  is_putter_woken, Producing, Consuming, log_put,
}
use concurrent_task_scheduli.ConcurrentQueue.System.Locked.{
  PutEnd, TakeEnd, kept, took, attempt_put_ends, try_put_ends, try_take_ends, attempt_take_ends,
  attempt_put_waits, attempt_take_waits, attempt_take_succeeds, attempt_put_succeeds,
}
use concurrent_task_scheduli.ConcurrentQueue.System.Inv.{producing}
use concurrent_task_scheduli.ConcurrentQueue.System.Consumers.{consuming}
use concurrent_task_scheduli.ConcurrentQueue.System.Safety.{IsSound, Reach-IsSound, Step-IsSound}
use concurrent_task_scheduli.ConcurrentQueue.System.Unsignalled.{
  Unsignalled, puts, tries_to_put, takes, tries_to_take, unsent_put, unsent_take,
}

-- A thread that stands in a place of which there is at least one.
find :
    (w : Place → ℕ) (ps : List Place)
    → 0 < count w ps
    → (i : ℕ) × (p : Place) × (get_elem? ps i ≡ some p) × (0 < w p)
unfolding count
find w [] h = absurd (omega arith)
find w (p ∷ ps) h = elim (dec_lt 0 (w p)) [
  | yes g ↦ (0, p, refl, g)
  | no none_here ↦ let (i, p', e, g) = find w ps (omega arith) in (suc i, p', e, g)
]

woken_taker : {p : Place} → 0 < is_taker_woken p → p ≡ Place.take_woken
woken_taker h = ground arith

woken_putter : (p : Place) → 0 < is_putter_woken p → (t : ℕ) × (p ≡ Place.put_woken t)
woken_putter (Place.put_woken t) h = (t, refl)
woken_putter (Place.outside) h = absurd (omega arith)
woken_putter (Place.put_asleep t) h = absurd (omega arith)
woken_putter (Place.take_asleep) h = absurd (omega arith)
woken_putter (Place.take_woken) h = absurd (omega arith)

next_taker :
    (tr : Bool) {y : System}
    → IsSound y
    → 0 < count is_taker_asleep y.threads
    → 0 < y.shared.queue.size
    → (i : ℕ) × (t : Take) × (u : ℕ) × (get_elem? y.threads i ≡ some Place.take_woken)
      × ((attempt_take tr (leave_not_empty y.shared)).0 ≡ some t)
      × (t.result ≡ ok)
      × (t.removed ≡ some (some u))
unfolding leave_not_empty
next_taker tr {y = y} ([], inv) asleep task = absurd (omega (arith, inv.holds.sized))
next_taker tr {y} (u ∷ ts, inv) asleep task =
    let (i, p, e, g) = find is_taker_woken y.threads (omega (arith, inv.takers)) in
    let (t, a, b, c) = attempt_take_succeeds tr (leave_not_empty y.shared) inv.holds in
    (i, t, u, e ∙ ap some (woken_taker g), a, b, c)

next_putter :
    (tr : Bool) {y : System}
    → IsSound y
    → 0 < count is_putter_asleep y.threads
    → y.shared.queue.size < y.shared.queue.capacity
    → (i : ℕ) × (t : ℕ) × (p : Put) × (get_elem? y.threads i ≡ some (Place.put_woken t))
      × ((attempt_put tr (some t) (leave_not_full y.shared)).0 ≡ some p)
      × (p.result ≡ ok)
      × (p.inserted ≡ true)
unfolding leave_not_full
next_putter tr {y} (ts, inv) asleep room =
    let (i, p, e, g) = find is_putter_woken y.threads (omega (arith, inv.putters)) in
    let (t, is_t) = woken_putter p g in
    let up : y.shared.shutdown_requested ≡ false = ground (arith, inv.closed) in
    let (d, a, b, c) = attempt_put_succeeds tr (leave_not_full y.shared) inv.holds up room t in
    (i, t, d, e ∙ ap some is_t, a, b, c)

producing_shutdown :
    {t : ℕ} {p : Place} {s a : Shared}
    → Producing t p s a
    → a.shutdown_requested ≡ s.shutdown_requested
unfolding leave_not_full
producing_shutdown (Producing.calls t s) = refl
producing_shutdown (Producing.returns t s) = refl

pub consuming_shutdown :
    {p : Place} {s a : Shared} → Consuming p s a → a.shutdown_requested ≡ s.shutdown_requested
unfolding leave_not_empty
consuming_shutdown (Consuming.calls s) = refl
consuming_shutdown (Consuming.returns s) = refl

-- An insertion that ends at a queue that is shut down changes nothing.
PutEnd-closed :
    {tr : Bool} {t : ℕ} {s b : Shared} {p : Put} (ts : List ℕ)
    → s.shutdown_requested ≡ true
    → PutEnd tr t s p b
    → (b.shutdown_requested ≡ true) × (log_put p t ts ≡ ts)
PutEnd-closed ts up (inl d) = cc (d.open_queue)
PutEnd-closed ts up (inr d) = ground (arith, d)

TakeEnd-shutdown :
    {tr : Bool} {ts : List ℕ} {s b : Shared} {t : Take}
    → TakeEnd tr ts s t b
    → b.shutdown_requested ≡ s.shutdown_requested
TakeEnd-shutdown (kept d) = ap (λ x. x.shutdown_requested) d.same
TakeEnd-shutdown (took u rest e d) = d.shutdown

abbrev pub IsClosed : List ℕ → System → Type 0
IsClosed accepted z = (z.shared.shutdown_requested ≡ true) × (z.accepted ≡ accepted)

pub Step-IsClosed :
    {tr : Bool} {y z : System}
    → Step tr y z
    → IsSound y
    → y.shared.shutdown_requested ≡ true
    → IsClosed y.accepted z
unfolding shutdown
Step-IsClosed {tr} {y} (put_waits i {t = t} {s = s} e g w) (ts, inv) up =
    let (b, open_queue, full) = attempt_put_waits tr s (producing inv i e g).holds t w in
    cc (producing_shutdown g, open_queue)
Step-IsClosed {tr} {y} (put_ends i {t = t} {s = s} e g w n) (ts, inv) up =
    PutEnd-closed y.accepted (producing_shutdown g ∙ up)
      (attempt_put_ends tr s (producing inv i e g).holds t w)
Step-IsClosed {tr} {y} (put_tries i t e w n) (ts, inv) up =
    PutEnd-closed y.accepted up (try_put_ends tr y.shared inv.holds t w)
Step-IsClosed {tr} {y} (take_waits i {s = s} e g w) (ts, inv) up =
    let (b, open_queue, empty) = attempt_take_waits tr s w in cc (consuming_shutdown g, open_queue)
Step-IsClosed {tr} {y} (take_ends i {s = s} e g w n) (ts, inv) up = (
  TakeEnd-shutdown (attempt_take_ends tr s ts (consuming inv i e g).holds w)
      ∙ consuming_shutdown g
      ∙ up,
  refl,
)
Step-IsClosed {tr} {y} (take_tries i e w n) (ts, inv) up =
    (TakeEnd-shutdown (try_take_ends tr y.shared ts inv.holds w) ∙ up, refl)
Step-IsClosed (stirs i e) (ts, inv) up = (up, refl)
Step-IsClosed shuts_down (ts, inv) up = (refl, refl)

stays-IsSound : {tr : Bool} {y z : System} → IsSound y → Reach tr y z → IsSound z
stays-IsSound h here = h
stays-IsSound h (next r st) = Step-IsSound st (stays-IsSound h r)

stays-IsClosed :
    {tr : Bool} {y z : System}
    → IsSound y
    → y.shared.shutdown_requested ≡ true
    → Reach tr y z
    → IsClosed y.accepted z
stays-IsClosed h up here = (up, refl)
stays-IsClosed h up (next r st) =
    let (up', same) = stays-IsClosed h up r in
    let (up'', same') = Step-IsClosed st (stays-IsSound h r) up' in (up'', same' ∙ same)

module _ (tr : Bool) (n : ℕ) {q : TaskQueue} {y : System} (h : Holds q []) (lt : n < word_mod)
    (r : Reach tr (begin q n) y) where
  -- The queue holds exactly the tasks that were put in and not yet taken out, in the order in which
  -- they were put in: none is lost, doubled or overtaken. The size is at most the high water mark, and
  -- that at most the capacity.
  pub tasks_in_order :
      (ts : List ℕ) × Holds y.shared.queue ts
      × (y.accepted ≡ y.taken ++ ts)
      × (y.shared.queue.size ≤ y.shared.high_water_mark)
      × (y.shared.high_water_mark ≤ y.shared.queue.capacity)
  tasks_in_order =
      let (ts, inv) = Reach-IsSound h lt r in
      (ts, inv.holds, inv.in_order, inv.low_mark, inv.high_mark)

  -- The two counters of waiting threads count the threads that sleep or are woken and have not locked
  -- the mutex again.
  waiters_counted :
      (y.shared.waiting_consumers
        ≡ count is_taker_asleep y.threads + count is_taker_woken y.threads)
      × (y.shared.waiting_producers
          ≡ count is_putter_asleep y.threads + count is_putter_woken y.threads)
  waiters_counted = let (ts, inv) = Reach-IsSound h lt r in (inv.consumers, inv.producers)

  -- No consumer's wake-up is lost: where a consumer sleeps although there is a task, some consumer has
  -- been woken, and if it is the next to lock the mutex, it takes a task out.
  pub consumer_not_forgotten :
      0 < count is_taker_asleep y.threads
      → 0 < y.shared.queue.size
      → (i : ℕ) × (t : Take) × (u : ℕ) × (get_elem? y.threads i ≡ some Place.take_woken)
        × ((attempt_take tr (leave_not_empty y.shared)).0 ≡ some t)
        × (t.result ≡ ok)
        × (t.removed ≡ some (some u))
  consumer_not_forgotten asleep task = next_taker tr (Reach-IsSound h lt r) asleep task

  -- No producer's wake-up is lost: where a producer sleeps although there is room, some producer has been
  -- woken, and if it is the next to lock the mutex, it puts its task in.
  pub producer_not_forgotten :
      0 < count is_putter_asleep y.threads
      → y.shared.queue.size < y.shared.queue.capacity
      → (i : ℕ) × (t : ℕ) × (p : Put) × (get_elem? y.threads i ≡ some (Place.put_woken t))
        × ((attempt_put tr (some t) (leave_not_full y.shared)).0 ≡ some p)
        × (p.result ≡ ok)
        × (p.inserted ≡ true)
  producer_not_forgotten asleep room = next_putter tr (Reach-IsSound h lt r) asleep room

  -- Shutdown is for good: once it is requested, it stays so, no task is put in any more, and no thread
  -- sleeps.
  pub shutdown_is_final :
      y.shared.shutdown_requested ≡ true
      → {z : System} → Reach tr y z
      → (z.shared.shutdown_requested ≡ true)
        × (z.accepted ≡ y.accepted)
        × (count is_taker_asleep z.threads ≡ 0)
        × (count is_putter_asleep z.threads ≡ 0)
  shutdown_is_final up {z} more =
      let sound = Reach-IsSound h lt r in
      let (up', same) = stays-IsClosed sound up more in
      let (ts, inv) = stays-IsSound sound more in
      (up', same, ground (arith, inv.closed), ground (arith, inv.closed))

  -- A signal that transition signaling leaves out would have woken nobody: where a blocking or a
  -- non-blocking insertion succeeds and sends no signal, no consumer sleeps, and where a blocking or a
  -- non-blocking removal succeeds and sends none, no producer sleeps.
  pub skipped_signal_unheard :
      (i : ℕ) {p : Place} {w : Place → ℕ}
      → get_elem? y.threads i ≡ some p
      → Unsignalled tr p y.shared w
      → count w (set y.threads i Place.outside) ≡ 0
  skipped_signal_unheard i e (puts t {a = a} g w ins skip) =
      let (ts, inv) = Reach-IsSound h lt r in
      let mid = producing inv i e g in unsent_put (attempt_put_ends tr a mid.holds t w) ins skip mid
  skipped_signal_unheard i {p = p} e (tries_to_put t out w ins skip) =
      let (ts, inv) = Reach-IsSound h lt r in
      let mid = producing inv i (e ∙ ap some out) (Producing.calls t y.shared) in
      unsent_put (try_put_ends tr y.shared mid.holds t w) ins skip mid
  skipped_signal_unheard i e (takes x {a = a} g w out skip) =
      let (ts, inv) = Reach-IsSound h lt r in
      let mid = consuming inv i e g in
      unsent_take (attempt_take_ends tr a ts mid.holds w) out skip mid
  skipped_signal_unheard i e (tries_to_take x at w out skip) =
      let (ts, inv) = Reach-IsSound h lt r in
      let mid = consuming inv i (e ∙ ap some at) (Consuming.calls y.shared) in
      unsent_take (try_take_ends tr y.shared ts mid.holds w) out skip mid
