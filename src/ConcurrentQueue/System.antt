-- ===== src/ConcurrentQueue/System.antt =====
-- Any number of threads on one queue of src/concurrent_task_queue.c, interleaved wherever the mutex is
-- free. The calls of the synchronization layer succeed here: the locked parts of the operations are
-- atomic, and a wait gives the mutex back.
pub mod Counts
pub mod Locked
pub mod Inv
pub mod Safety
pub mod Unsignalled
pub mod Promises
mod Tests
pub mod Consumers
use concurrent_task_scheduli.Base.{
  ℕ, suc, ◌+◌, ◌≤◌, ◌<◌, ◌≡◌, ◌≢◌, Bool, true, false, Option, none, some, List, [], ◌∷◌, ◌++◌, map,
  length, get_elem?, set, if◌then◌else◌, Pointer,
}
use concurrent_task_scheduli.TaskQueue
use concurrent_task_scheduli.TaskQueue.{TaskQueue}
use concurrent_task_scheduli.ConcurrentQueue.{Shared, fresh, shutdown}
use concurrent_task_scheduli.ConcurrentQueue.Put.{Put, try_put, attempt_put, leave_not_full}
use concurrent_task_scheduli.ConcurrentQueue.Take.{Take, try_take, attempt_take, leave_not_empty}

-- Where a thread stands: outside the queue, asleep in one of the two waits, or woken there and about to
-- lock the mutex again. A producer keeps its task.
pub data Place : Type 0 where
  outside : Place
  put_asleep put_woken : ℕ → Place
  take_asleep take_woken : Place

pub record System : Type 0 where
  pub shared : Shared
  pub threads : List Place
  pub accepted : List ℕ  -- the tasks put in, oldest first
  pub taken : List ℕ  -- the tasks taken out, oldest first

abbrev pub wakes_taker : Place → Place
wakes_taker take_asleep = take_woken
wakes_taker p = p

abbrev pub wakes_putter : Place → Place
wakes_putter (put_asleep t) = put_woken t
wakes_putter p = p

abbrev pub wakes_all : Place → Place
wakes_all take_asleep = take_woken
wakes_all (put_asleep t) = put_woken t
wakes_all p = p

abbrev pub is_taker_asleep : Place → ℕ
is_taker_asleep take_asleep = 1
is_taker_asleep p = 0

abbrev pub is_putter_asleep : Place → ℕ
is_putter_asleep (put_asleep t) = 1
is_putter_asleep p = 0

abbrev pub is_taker_woken : Place → ℕ
is_taker_woken take_woken = 1
is_taker_woken p = 0

abbrev pub is_putter_woken : Place → ℕ
is_putter_woken (put_woken t) = 1
is_putter_woken p = 0

-- How many threads stand in a given place.
unfoldable pub count : (Place → ℕ) → List Place → ℕ
count w [] = 0
count w (p ∷ ps) = w p + count w ps

-- `sched_condition_signal`, if it is called: one of the sleepers, whichever, wakes; nothing happens
-- where nobody sleeps.
pub data Signal (asleep : Place → ℕ) (wake : Place → Place) (ps : List Place)
    : Bool → List Place → Type 0 where
  unsent : Signal asleep wake ps false ps
  unheard : count asleep ps ≡ 0 → Signal asleep wake ps true ps
  heard :
      (i : ℕ) {p : Place}
      → get_elem? ps i ≡ some p
      → asleep p ≡ 1
      → Signal asleep wake ps true (set ps i (wake p))

abbrev pub log_put : Put → ℕ → List ℕ → List ℕ
log_put p t ts = if p.inserted then ts ++ t ∷ [] else ts

abbrev pub log_take : Take → List ℕ → List ℕ
log_take t ts = elim t.removed [ none ↦ ts | some p ↦ elim p [ none ↦ ts | some u ↦ ts ++ u ∷ [] ] ]

-- A thread at the place `p` goes on with an insertion of the task `t`: from outside it has just locked
-- the mutex, after a wait it has locked it again.
pub data Producing : ℕ → Place → Shared → Shared → Type 0 where
  calls : (t : ℕ) (s : Shared) → Producing t Place.outside s s
  returns : (t : ℕ) (s : Shared) → Producing t (Place.put_woken t) s (leave_not_full s)

pub data Consuming : Place → Shared → Shared → Type 0 where
  calls : (s : Shared) → Consuming Place.outside s s
  returns : (s : Shared) → Consuming Place.take_woken s (leave_not_empty s)

-- One step of one thread, or of the scheduler that wakes sleepers. `transition` as in Put and Take.
pub data Step (transition : Bool) (y : System) : System → Type 0 where
  -- `concurrent_task_queue_enqueue` comes to its wait.
  put_waits :
      (i : ℕ) {p : Place} {t : ℕ} {s s' : Shared}
      → get_elem? y.threads i ≡ some p
      → Producing t p y.shared s
      → attempt_put transition (some t) s ≡ (none, s')
      → Step transition y (record y { shared = s'; threads = set y.threads i (Place.put_asleep t) })
  -- `concurrent_task_queue_enqueue` ends.
  put_ends :
      (i : ℕ) {p : Place} {t : ℕ} {s s' : Shared} {q : Put} {ps : List Place}
      → get_elem? y.threads i ≡ some p
      → Producing t p y.shared s
      → attempt_put transition (some t) s ≡ (some q, s')
      → Signal is_taker_asleep wakes_taker (set y.threads i Place.outside) q.signals ps
      → Step transition y
          (record y { shared = s'; threads = ps; accepted = log_put q t y.accepted })
  -- `concurrent_task_queue_try_enqueue`.
  put_tries :
      (i t : ℕ) {s' : Shared} {q : Put} {ps : List Place}
      → get_elem? y.threads i ≡ some Place.outside
      → try_put transition (some t) y.shared ≡ (q, s')
      → Signal is_taker_asleep wakes_taker (set y.threads i Place.outside) q.signals ps
      → Step transition y
          (record y { shared = s'; threads = ps; accepted = log_put q t y.accepted })
  -- `concurrent_task_queue_dequeue` comes to its wait.
  take_waits :
      (i : ℕ) {p : Place} {s s' : Shared}
      → get_elem? y.threads i ≡ some p
      → Consuming p y.shared s
      → attempt_take transition s ≡ (none, s')
      → Step transition y (record y { shared = s'; threads = set y.threads i Place.take_asleep })
  -- `concurrent_task_queue_dequeue` ends.
  take_ends :
      (i : ℕ) {p : Place} {s s' : Shared} {t : Take} {ps : List Place}
      → get_elem? y.threads i ≡ some p
      → Consuming p y.shared s
      → attempt_take transition s ≡ (some t, s')
      → Signal is_putter_asleep wakes_putter (set y.threads i Place.outside) t.signals ps
      → Step transition y (record y { shared = s'; threads = ps; taken = log_take t y.taken })
  -- `concurrent_task_queue_try_dequeue`.
  take_tries :
      (i : ℕ) {s' : Shared} {t : Take} {ps : List Place}
      → get_elem? y.threads i ≡ some Place.outside
      → try_take transition y.shared ≡ (t, s')
      → Signal is_putter_asleep wakes_putter (set y.threads i Place.outside) t.signals ps
      → Step transition y (record y { shared = s'; threads = ps; taken = log_take t y.taken })
  -- A sleeper wakes that nobody has signalled.
  stirs :
      (i : ℕ) {p : Place}
      → get_elem? y.threads i ≡ some p
      → Step transition y (record y { threads = set y.threads i (wakes_all p) })
  -- `concurrent_task_queue_shutdown`: both broadcasts wake everybody.
  shuts_down :
      Step transition y (record y { shared = shutdown y.shared; threads = map wakes_all y.threads })

-- `n` threads on a queue that `concurrent_task_queue_init` has just set up.
abbrev pub all_outside : ℕ → List Place
all_outside ℕ.zero = []
all_outside (suc n) = Place.outside ∷ all_outside n

abbrev pub begin : TaskQueue → ℕ → System
begin q n = record { shared = fresh q; threads = all_outside n; accepted = []; taken = [] }

pub data Reach (transition : Bool) (y : System) : System → Type 0 where
  here : Reach transition y y
  next : {z w : System} → Reach transition y z → Step transition z w → Reach transition y w
