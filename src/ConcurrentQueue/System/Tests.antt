-- ===== src/ConcurrentQueue/System/Tests.antt =====
-- Three threads on a queue with room for one task, a step at a time.
use concurrent_task_scheduli.Base.{
  ℕ, ◌≤◌, ◌≡◌, refl, true, false, none, some, List, [], ◌∷◌, ◌++◌, arith, get_elem?, Pointer,
}
use concurrent_task_scheduli.TaskQueue.{enqueue, dequeue, is_empty, is_full}
use concurrent_task_scheduli.TaskQueue.Inv.{Holds, blank, blank-Holds}
use concurrent_task_scheduli.ConcurrentQueue.{Shared, shutdown, ok}
use concurrent_task_scheduli.ConcurrentQueue.Put.{Put, try_put, attempt_put, leave_not_full}
use concurrent_task_scheduli.ConcurrentQueue.Take.{Take, try_take, attempt_take, leave_not_empty}
use concurrent_task_scheduli.ConcurrentQueue.System.{
  Place, System, put_waits, put_tries, take_waits, take_tries, shuts_down, Reach, here, next, begin,
  count, is_taker_asleep, is_putter_asleep, Producing, Consuming, unheard, heard,
}
use concurrent_task_scheduli.ConcurrentQueue.System.Unsignalled.{puts}
use concurrent_task_scheduli.ConcurrentQueue.System.Promises.{
  tasks_in_order, consumer_not_forgotten, producer_not_forgotten, shutdown_is_final,
  skipped_signal_unheard,
}

abbrev one_cell : Pointer → ℕ → Shared
one_cell p n = record {
  queue = record { items = some (p ∷ []); capacity = 1; size = n; head = 0; tail = 0 };
  shutdown_requested = false;
  waiting_consumers = 0;
  waiting_producers = 0;
  high_water_mark = 1;
}

-- Threads 0 and 1 sleep for a task; thread 2 puts in task 9, and its signal wakes thread 0.
abbrev delivered : System
delivered = record {
  shared = record (one_cell (some 9) 1) { waiting_consumers = 2 };
  threads = Place.take_woken ∷ Place.take_asleep ∷ Place.outside ∷ [];
  accepted = 9 ∷ [];
  taken = [];
}

delivered_reached : Reach true (begin (blank 1) 3) delivered
unfolding attempt_take is_empty try_put enqueue
delivered_reached =
    next
      (next (next here (take_waits 0 refl (Consuming.calls _) refl))
        (take_waits 1 refl (Consuming.calls _) refl))
      (put_tries 2 9 refl refl (heard 0 refl refl))

-- Thread 0 puts in task 5; thread 1 sleeps at the full queue with task 6; thread 2 takes task 5 out,
-- which wakes thread 1; then thread 0 calls with task 7 before it.
abbrev released : System
released = record {
  shared = record (one_cell none 0) { waiting_producers = 2 };
  threads = Place.put_asleep 7 ∷ Place.put_woken 6 ∷ Place.outside ∷ [];
  accepted = 5 ∷ [];
  taken = 5 ∷ [];
}

released_reached : Reach true (begin (blank 1) 3) released
unfolding attempt_take is_empty is_full try_put enqueue dequeue attempt_put try_take count
released_reached =
    next
      (next
        (next (next here (put_tries 0 5 refl refl (unheard refl)))
          (put_waits 1 {t = 6} refl (Producing.calls 6 _) refl))
        (put_waits 0 {t = 7} refl (Producing.calls 7 _) refl))
      (take_tries 2 refl refl (heard 1 refl refl))

abbrev stopped : System
stopped = record {
  shared = record (one_cell (some 9) 1) { shutdown_requested = true; waiting_consumers = 2 };
  threads = Place.take_woken ∷ Place.take_woken ∷ Place.outside ∷ [];
  accepted = 9 ∷ [];
  taken = [];
}

stopped_reached : Reach true (begin (blank 1) 3) stopped
unfolding shutdown
stopped_reached = next delivered_reached shuts_down

abbrev fresh_queue : Holds (blank 1) []
fresh_queue = blank-Holds 1 (omega arith) (omega arith)

tasks_in_order_example :
    (ts : List ℕ) × Holds delivered.shared.queue ts × (9 ∷ [] ≡ [] ++ ts) × (1 ≤ 1) × (1 ≤ 1)
tasks_in_order_example = tasks_in_order true 3 fresh_queue (omega arith) delivered_reached

consumer_not_forgotten_example :
    (i : ℕ) × (t : Take) × (u : ℕ) × (get_elem? delivered.threads i ≡ some Place.take_woken)
    × ((attempt_take true (leave_not_empty delivered.shared)).0 ≡ some t)
    × (t.result ≡ ok)
    × (t.removed ≡ some (some u))
unfolding count
consumer_not_forgotten_example =
    consumer_not_forgotten true 3 fresh_queue (omega arith) delivered_reached (omega arith)
      (omega arith)

producer_not_forgotten_example :
    (i : ℕ) × (t : ℕ) × (p : Put) × (get_elem? released.threads i ≡ some (Place.put_woken t))
    × ((attempt_put true (some t) (leave_not_full released.shared)).0 ≡ some p)
    × (p.result ≡ ok)
    × (p.inserted ≡ true)
unfolding count
producer_not_forgotten_example =
    producer_not_forgotten true 3 fresh_queue (omega arith) released_reached (omega arith)
      (omega arith)

shutdown_is_final_example :
    (stopped.shared.shutdown_requested ≡ true)
    × (stopped.accepted ≡ 9 ∷ [])
    × (count is_taker_asleep stopped.threads ≡ 0)
    × (count is_putter_asleep stopped.threads ≡ 0)
shutdown_is_final_example =
    shutdown_is_final true 3 fresh_queue (omega arith) stopped_reached refl here

abbrev filled : Shared
filled = record (one_cell (some 9) 1) {
  queue = record { items = some (some 9 ∷ none ∷ []); capacity = 2; size = 1; head = 0; tail = 1 };
}

abbrev two_in : System
two_in = record { shared = filled; threads = Place.outside ∷ []; accepted = 9 ∷ []; taken = [] }

two_in_reached : Reach true (begin (blank 2) 1) two_in
unfolding try_put enqueue is_empty count
two_in_reached = next here (put_tries 0 9 refl refl (unheard refl))

-- With a task in the queue and nobody waiting, the second insertion sends no signal.
skipped_signal_unheard_example : count is_taker_asleep (Place.outside ∷ []) ≡ 0
unfolding attempt_put enqueue is_empty is_full
skipped_signal_unheard_example =
    skipped_signal_unheard true 1 (blank-Holds 2 (omega arith) (omega arith)) (omega arith)
      two_in_reached 0 refl (puts 4 (Producing.calls 4 _) refl refl refl)
