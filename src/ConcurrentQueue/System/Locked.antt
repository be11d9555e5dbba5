-- ===== src/ConcurrentQueue/System/Locked.antt =====
-- What the locked parts of the operations of src/concurrent_task_queue.c do to a valid queue.
use concurrent_task_scheduli.Base.{
  ℕ, ◌+◌, ◌<◌, ◌≡◌, refl, Bool, true, false, not, ◌||◌, none, some, List, [], ◌∷◌, arith, ltb, ◌==◌,
  if◌then◌else◌, add_word, ◌⊎◌,
}
use concurrent_task_scheduli.TaskQueue.{is_empty, is_full}
use concurrent_task_scheduli.TaskQueue.Inv.{Holds, longer, shorter}
use concurrent_task_scheduli.TaskQueue.Refine.{enqueue_full, enqueue_room, dequeue-some}
use concurrent_task_scheduli.ConcurrentQueue.{Shared, ok}
use concurrent_task_scheduli.ConcurrentQueue.Put.{Put, try_put, attempt_put}
use concurrent_task_scheduli.ConcurrentQueue.Take.{Take, try_take, attempt_take}

-- An insertion that has ended: the task is in, or nothing has changed, since the queue is shut down
-- or full.
pub record PutIn (transition : Bool) (t : ℕ) (s : Shared) (p : Put) (s' : Shared) : Type 0 where
  pub inserted : p.inserted ≡ true
  pub open_queue : s.shutdown_requested ≡ false
  pub room : s.queue.size < s.queue.capacity
  pub queue : s'.queue ≡ longer s.queue t
  pub shutdown : s'.shutdown_requested ≡ s.shutdown_requested
  pub consumers : s'.waiting_consumers ≡ s.waiting_consumers
  pub producers : s'.waiting_producers ≡ s.waiting_producers
  pub mark :
      s'.high_water_mark
      ≡ (if ltb s.high_water_mark (s.queue.size + 1) then s.queue.size + 1 else s.high_water_mark)
  pub signals : p.signals ≡ (not transition || s.queue.size == 0 || ltb 0 s.waiting_consumers)

pub record NotIn (s : Shared) (p : Put) (s' : Shared) : Type 0 where
  pub refused : p.inserted ≡ false
  pub unsent : p.signals ≡ false
  pub same : s' ≡ s
  pub why : (s.shutdown_requested ≡ true) ⊎ (s.queue.size ≡ s.queue.capacity)

abbrev pub PutEnd : Bool → ℕ → Shared → Put → Shared → Type 0
PutEnd transition t s p s' = PutIn transition t s p s' ⊎ NotIn s p s'

module _ (transition : Bool) (s : Shared) {ts : List ℕ} (h : Holds s.queue ts) (t : ℕ) where
  pub attempt_put_waits :
      {s' : Shared}
      → attempt_put transition (some t) s ≡ (none, s')
      → (s' ≡ record s { waiting_producers = add_word s.waiting_producers 1 })
        × (s.shutdown_requested ≡ false)
        × (s.queue.size ≡ s.queue.capacity)
  unfolding attempt_put is_full
  attempt_put_waits e = ground (arith, h, enqueue_room h t)

  pub attempt_put_ends :
      {p : Put} {s' : Shared}
      → attempt_put transition (some t) s ≡ (some p, s')
      → PutEnd transition t s p s'
  unfolding attempt_put is_full is_empty
  attempt_put_ends e = ground (arith, h, enqueue_full h t, enqueue_room h t)

  pub try_put_ends :
      {p : Put} {s' : Shared} → try_put transition (some t) s ≡ (p, s') → PutEnd transition t s p s'
  unfolding try_put is_full is_empty
  try_put_ends e = ground (arith, h, enqueue_full h t, enqueue_room h t)

-- A removal that has ended: the oldest task is out, or nothing has changed, since there is none.
pub record TakenOut (transition : Bool) (u : ℕ) (s : Shared) (r : Take) (s' : Shared) : Type 0 where
  pub result : r.result ≡ ok
  pub removed : r.removed ≡ some (some u)
  pub queue : s'.queue ≡ shorter s.queue
  pub shutdown : s'.shutdown_requested ≡ s.shutdown_requested
  pub consumers : s'.waiting_consumers ≡ s.waiting_consumers
  pub producers : s'.waiting_producers ≡ s.waiting_producers
  pub mark : s'.high_water_mark ≡ s.high_water_mark
  pub signals :
      r.signals ≡ (not transition || s.queue.size == s.queue.capacity || ltb 0 s.waiting_producers)

pub record NotOut (s : Shared) (r : Take) (s' : Shared) : Type 0 where
  pub kept : r.removed ≡ none
  pub unsent : r.signals ≡ false
  pub same : s' ≡ s
  pub why : s.queue.size ≡ 0

pub data TakeEnd (transition : Bool) (ts : List ℕ) (s : Shared) (r : Take) (s' : Shared)
    : Type 0 where
  kept : NotOut s r s' → TakeEnd transition ts s r s'
  took :
      (u : ℕ) (rest : List ℕ)
      → ts ≡ u ∷ rest
      → TakenOut transition u s r s'
      → TakeEnd transition ts s r s'

module _ (transition : Bool) (s : Shared) where
  pub attempt_take_waits :
      {s' : Shared}
      → attempt_take transition s ≡ (none, s')
      → (s' ≡ record s { waiting_consumers = add_word s.waiting_consumers 1 })
        × (s.shutdown_requested ≡ false)
        × (s.queue.size ≡ 0)
  unfolding attempt_take is_empty
  attempt_take_waits e = ground arith

  attempt_take_none :
      Holds s.queue []
      → {r : Take} {s' : Shared} → attempt_take transition s ≡ (some r, s')
      → NotOut s r s'
  unfolding attempt_take is_empty
  attempt_take_none h e = ground (arith, h)

  pub attempt_take-some :
      {u : ℕ} {ts : List ℕ}
      → Holds s.queue (u ∷ ts)
      → {r : Take} {s' : Shared} → attempt_take transition s ≡ (some r, s')
      → TakenOut transition u s r s'
  unfolding attempt_take is_empty is_full
  attempt_take-some h e = ground (arith, h, dequeue-some h)

  try_take_none :
      Holds s.queue [] → {r : Take} {s' : Shared} → try_take transition s ≡ (r, s') → NotOut s r s'
  unfolding try_take is_empty
  try_take_none h e = ground (arith, h)

  try_take_some :
      {u : ℕ} {ts : List ℕ}
      → Holds s.queue (u ∷ ts)
      → {r : Take} {s' : Shared} → try_take transition s ≡ (r, s')
      → TakenOut transition u s r s'
  unfolding try_take is_empty is_full
  try_take_some h e = ground (arith, h, dequeue-some h)

  pub attempt_take_ends :
      (ts : List ℕ)
      → Holds s.queue ts
      → {r : Take} {s' : Shared} → attempt_take transition s ≡ (some r, s')
      → TakeEnd transition ts s r s'
  attempt_take_ends [] h e = kept (attempt_take_none h e)
  attempt_take_ends (u ∷ rest) h e = took u rest refl (attempt_take-some h e)

  pub try_take_ends :
      (ts : List ℕ)
      → Holds s.queue ts
      → {r : Take} {s' : Shared} → try_take transition s ≡ (r, s')
      → TakeEnd transition ts s r s'
  try_take_ends [] h e = kept (try_take_none h e)
  try_take_ends (u ∷ rest) h e = took u rest refl (try_take_some h e)

-- Where there is a task, or room, the attempt ends with success.
pub attempt_take_succeeds :
    (transition : Bool) (s : Shared) {u : ℕ} {ts : List ℕ}
    → Holds s.queue (u ∷ ts)
    → (t : Take) × ((attempt_take transition s).0 ≡ some t)
      × (t.result ≡ ok)
      × (t.removed ≡ some (some u))
unfolding attempt_take is_empty
attempt_take_succeeds transition s {u} h = (
  record {
    result = ok;
    removed = some (some u);
    signals = not transition || is_full s.queue || ltb 0 s.waiting_producers;
  },
  ground (arith, h, dequeue-some h),
  refl,
  refl,
)

pub attempt_put_succeeds :
    (transition : Bool) (s : Shared) {ts : List ℕ}
    → Holds s.queue ts
    → s.shutdown_requested ≡ false
    → s.queue.size < s.queue.capacity
    → (t : ℕ)
    → (p : Put) × ((attempt_put transition (some t) s).0 ≡ some p)
      × (p.result ≡ ok)
      × (p.inserted ≡ true)
unfolding attempt_put is_full
attempt_put_succeeds transition s h up room t = (
  record {
    result = ok;
    inserted = true;
    signals = not transition || is_empty s.queue || ltb 0 s.waiting_consumers;
  },
  ground (arith, h, enqueue_room h t room),
  refl,
  refl,
)
