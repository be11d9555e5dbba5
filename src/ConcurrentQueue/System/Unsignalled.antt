-- ===== src/ConcurrentQueue/System/Unsignalled.antt =====
-- Insertions and removals of src/concurrent_task_queue.c that leave their signal out.
use concurrent_task_scheduli.Base.{ℕ, ◌≡◌, Bool, true, false, some, List, arith, inl, inr, Pointer}
use concurrent_task_scheduli.ConcurrentQueue.{Shared}
use concurrent_task_scheduli.ConcurrentQueue.Put.{Put, attempt_put, try_put}
use concurrent_task_scheduli.ConcurrentQueue.Take.{Take, attempt_take, try_take}
use concurrent_task_scheduli.ConcurrentQueue.System.{
  Place, count, is_taker_asleep, is_putter_asleep, Producing, Consuming,
}
use concurrent_task_scheduli.ConcurrentQueue.System.Locked.{PutEnd, TakeEnd, kept, took}
use concurrent_task_scheduli.ConcurrentQueue.System.Inv.{Inv}

pub unsent_put :
    {tr : Bool} {t l j : ℕ} {s b : Shared} {q : Put} {ps : List Place} {us vs ts : List ℕ}
    → PutEnd tr t s q b
    → q.inserted ≡ true
    → q.signals ≡ false
    → Inv l j s ps us vs ts
    → count is_taker_asleep ps ≡ 0
unsent_put {tr} (inl d) ins skip inv = ground (arith, d.signals, inv.consumers)
unsent_put (inr d) ins skip inv = cc (d.refused)

pub unsent_take :
    {tr : Bool} {l j : ℕ} {s b : Shared} {t : Take} {ps : List Place} {us vs ts : List ℕ}
    {x : Pointer}
    → TakeEnd tr ts s t b
    → t.removed ≡ some x
    → t.signals ≡ false
    → Inv l j s ps us vs ts
    → count is_putter_asleep ps ≡ 0
unsent_take (kept d) out skip inv = cc (d.kept)
unsent_take {tr} (took u rest e d) out skip inv = ground (arith, d.signals, inv.producers)

-- A thread at the place `p` puts a task in, or takes one out, by any of the four operations, and leaves the
-- signal out; the index says for whose sleep the signal would have been.
pub data Unsignalled (tr : Bool) (p : Place) (s : Shared) : (Place → ℕ) → Type 0 where
  puts :
      (t : ℕ) {a b : Shared} {q : Put}
      → Producing t p s a
      → attempt_put tr (some t) a ≡ (some q, b)
      → q.inserted ≡ true
      → q.signals ≡ false
      → Unsignalled tr p s is_taker_asleep
  tries_to_put :
      (t : ℕ) {b : Shared} {q : Put}
      → p ≡ Place.outside
      → try_put tr (some t) s ≡ (q, b)
      → q.inserted ≡ true
      → q.signals ≡ false
      → Unsignalled tr p s is_taker_asleep
  takes :
      (x : Pointer) {a b : Shared} {r : Take}
      → Consuming p s a
      → attempt_take tr a ≡ (some r, b)
      → r.removed ≡ some x
      → r.signals ≡ false
      → Unsignalled tr p s is_putter_asleep
  tries_to_take :
      (x : Pointer) {b : Shared} {r : Take}
      → p ≡ Place.outside
      → try_take tr s ≡ (r, b)
      → r.removed ≡ some x
      → r.signals ≡ false
      → Unsignalled tr p s is_putter_asleep
