-- ===== src/ConcurrentQueue/System/Safety.antt =====
-- What holds in every reachable state of any number of threads on one queue of
-- src/concurrent_task_queue.c.
use concurrent_task_scheduli.Base.{
  ℕ, ◌<◌, ◌≡◌, refl, Bool, some, List, [], map, arith, word_mod, get_elem?, set, inl, inr,
}
use concurrent_task_scheduli.TaskQueue.{TaskQueue}
use concurrent_task_scheduli.TaskQueue.Inv.{Holds}
use concurrent_task_scheduli.ConcurrentQueue.{Shared, shutdown}
use concurrent_task_scheduli.ConcurrentQueue.System.{
  Place, System, Step, put_waits, put_ends, put_tries, take_waits, take_ends, take_tries, stirs,
  shuts_down, Reach, here, next, begin, wakes_all, Producing, Consuming,
}
use concurrent_task_scheduli.ConcurrentQueue.System.Counts.{
  set-Moved, map-wakes_all, count-all_outside, set_twice, get_elem?-set,
}
use concurrent_task_scheduli.ConcurrentQueue.System.Locked.{
  attempt_put_waits, attempt_put_ends, try_put_ends, attempt_take_waits, attempt_take_ends,
  try_take_ends,
}
use concurrent_task_scheduli.ConcurrentQueue.System.Inv.{Inv, producing, producer_sleeps, put_end}
use concurrent_task_scheduli.ConcurrentQueue.System.Consumers.{consuming, consumer_sleeps, take_end}

abbrev pub IsSound : System → Type 0
IsSound y = (ts : List ℕ) × Inv 0 0 y.shared y.threads y.accepted y.taken ts

stirs-Inv :
    {s : Shared} {ps : List Place} {accepted taken ts : List ℕ}
    → Inv 0 0 s ps accepted taken ts
    → (i : ℕ) (p : Place) → get_elem? ps i ≡ some p
    → Inv 0 0 s (set ps i (wakes_all p)) accepted taken ts
stirs-Inv {ps = ps} inv i p e =
    let m = set-Moved ps i (wakes_all p) e in
    record {
      holds = inv.holds;
      in_order = inv.in_order;
      low_mark = inv.low_mark;
      high_mark = inv.high_mark;
      few = omega (arith, m, inv);
      consumers = ground (arith, m, inv);
      producers = ground (arith, m, inv);
      takers = ground (arith, m, inv);
      putters = ground (arith, m, inv);
      closed = ground (arith, m, inv);
    }

shutdown-Inv :
    {s : Shared} {ps : List Place} {accepted taken ts : List ℕ}
    → Inv 0 0 s ps accepted taken ts
    → Inv 0 0 (shutdown s) (map wakes_all ps) accepted taken ts
unfolding shutdown
shutdown-Inv {ps = ps} inv =
    let m = map-wakes_all ps in
    record {
      holds = inv.holds;
      in_order = inv.in_order;
      low_mark = inv.low_mark;
      high_mark = inv.high_mark;
      few = omega (arith, m, inv);
      consumers = omega (arith, m, inv);
      producers = omega (arith, m, inv);
      takers = inl m.no_taker;
      putters = inl m.no_putter;
      closed = inr (m.no_taker, m.no_putter);
    }

pub Step-IsSound : {tr : Bool} {y z : System} → Step tr y z → IsSound y → IsSound z
Step-IsSound {tr} {y = y} (put_waits i {t = t} {s = s} e g w) (ts, inv) =
    let mid = producing inv i e g in
    let (b, up, full) = attempt_put_waits tr s mid.holds t w in
    (
      ts,
      rw b (
          rw (set_twice y.threads i Place.outside (Place.put_asleep t)) at
            (producer_sleeps mid i t (get_elem?-set y.threads i Place.outside e) up full)),
    )
Step-IsSound {tr} (put_ends i {t = t} {s = s} e g w n) (ts, inv) =
    let mid = producing inv i e g in put_end mid tr (attempt_put_ends tr s mid.holds t w) n
Step-IsSound {tr} {y = y} (put_tries i t e w n) (ts, inv) =
    let mid = producing inv i e (Producing.calls t y.shared) in
    put_end mid tr (try_put_ends tr y.shared mid.holds t w) n
Step-IsSound {tr} {y = y} (take_waits i {s = s} e g w) (ts, inv) =
    let mid = consuming inv i e g in
    let (b, up, empty) = attempt_take_waits tr s w in
    (
      ts,
      rw b (
          rw (set_twice y.threads i Place.outside Place.take_asleep) at
            (consumer_sleeps mid i (get_elem?-set y.threads i Place.outside e) up empty)),
    )
Step-IsSound {tr} (take_ends i {s = s} e g w n) (ts, inv) =
    let mid = consuming inv i e g in take_end mid tr (attempt_take_ends tr s ts mid.holds w) n
Step-IsSound {tr} {y = y} (take_tries i e w n) (ts, inv) =
    let mid = consuming inv i e (Consuming.calls y.shared) in
    take_end mid tr (try_take_ends tr y.shared ts mid.holds w) n
Step-IsSound (stirs i {p = p} e) (ts, inv) = (ts, stirs-Inv inv i p e)
Step-IsSound shuts_down (ts, inv) = (ts, shutdown-Inv inv)

begin-IsSound : {q : TaskQueue} (n : ℕ) → Holds q [] → n < word_mod → IsSound (begin q n)
begin-IsSound n h lt =
    let c = count-all_outside n in
    (
      [],
      record {
        holds = h;
        in_order = refl;
        low_mark = omega (arith, h);
        high_mark = omega (arith, h);
        few = omega (arith, c);
        consumers = omega (arith, c);
        producers = omega (arith, c);
        takers = inl c.0;
        putters = inl c.2;
        closed = inl refl;
      },
    )

pub Reach-IsSound :
    {tr : Bool} {q : TaskQueue} {n : ℕ} {y : System}
    → Holds q []
    → n < word_mod
    → Reach tr (begin q n) y
    → IsSound y
Reach-IsSound {n = n} h lt here = begin-IsSound n h lt
Reach-IsSound h lt (next r st) = Step-IsSound st (Reach-IsSound h lt r)
