-- ===== src/Scheduler/Whole/Tasks.antt =====
-- The tasks that the queue of a scheduler of src/scheduler.c has given out are those that its workers
-- have, and a worker leaves its loop only when there is none left.
use concurrent_task_scheduli.Base.{
  ℕ, ◌+◌, ◌≤◌, ◌≡◌, refl, ◌⊎◌, inl, inr, ap, Bool, true, false, some, List, [], ◌∷◌, length,
  length-append, get_elem?, set, arith,
}
use concurrent_task_scheduli.TaskQueue.{TaskQueue, is_empty}
use concurrent_task_scheduli.ConcurrentQueue.{Shared, error_shutdown}
use concurrent_task_scheduli.ConcurrentQueue.Take.{Take, attempt_take, leave_not_empty}
use concurrent_task_scheduli.ConcurrentQueue.System
use concurrent_task_scheduli.ConcurrentQueue.System.{System, Place, Consuming, log_take}
use concurrent_task_scheduli.ConcurrentQueue.System.Locked.{kept, took, attempt_take_ends}
use concurrent_task_scheduli.ConcurrentQueue.System.Safety.{IsSound, Step-IsSound}
use concurrent_task_scheduli.ConcurrentQueue.System.Consumers.{consuming}
use concurrent_task_scheduli.ConcurrentQueue.System.Promises.{Step-IsClosed}
use concurrent_task_scheduli.Scheduler.Whole.{
  created, serving, told, ended, Worker, IsAsking, answer, new_worker, Whole, Step, calls_move,
  puts, leaves, queue_moves, fetches, stores, creates, begins, exits, joins,
}
use concurrent_task_scheduli.Scheduler.Whole.Team.{
  sum, sum-set, sum-append, AllSteady, IsSteady, get-IsSteady, set-AllSteady, append-AllSteady,
  new-IsSteady, answer-IsSteady, store-IsSteady, stage-IsSteady,
}

-- It has left its loop.
abbrev pub has_left : Worker → ℕ
has_left w = elim w.stage [ created ↦ 0 | serving ↦ 0 | told ↦ 1 | ended ↦ 1 ]

abbrev pub fetched_by : Worker → ℕ
fetched_by w = w.fetched

-- The queue is shut down, and every task it has accepted is taken out.
pub record IsDrained (q : System) : Type 0 where
  pub closed : q.shared.shutdown_requested ≡ true
  pub empty : length q.accepted ≡ length q.taken

pub record IsHandedOut (ws : List Worker) (q : System) : Type 0 where
  pub steady : AllSteady ws
  pub fetched : sum fetched_by ws ≡ length q.taken
  pub drained : (sum has_left ws ≡ 0) ⊎ IsDrained q

-- What the queue has accepted and not given out is in it.
pub length_lem : {q : System} → IsSound q → length q.taken + q.shared.queue.size ≡ length q.accepted
length_lem {q} (ts, inv) =
    let l = length-append q.taken ts in
    let m = ap length inv.in_order in omega (arith, l, m, inv.holds.sized)

told_at_shutdown :
    (tr : Bool) (s : Shared) {s' : Shared} {t : Take}
    → attempt_take tr s ≡ (some t, s')
    → s.queue.size ≡ 0
    → (s.shutdown_requested ≡ true) × (t.result ≡ error_shutdown)
unfolding attempt_take is_empty
told_at_shutdown tr s e h = ground arith

-- What the end of a worker's call of the queue changes.
pub record Answered (y : System) (z : System) (t : Take) (w : Worker) : Type 0 where
  pub more : (answer t w).fetched + length y.taken ≡ w.fetched + length z.taken
  pub grows : length y.taken ≤ length z.taken
  pub told : has_left (answer t w) ≡ 0 ⊎ IsDrained z

consuming_size : {p : Place} {s a : Shared} → Consuming p s a → a.queue.size ≡ s.queue.size
unfolding leave_not_empty
consuming_size (Consuming.calls s) = refl
consuming_size (Consuming.returns s) = refl

answered :
    (tr : Bool) (y : System) {s s' : Shared} {t : Take} {p : Place} (ps : List Place) (i : ℕ)
    (w : Worker)
    → IsAsking w
    → IsSound y
    → get_elem? y.threads i ≡ some p
    → Consuming p y.shared s
    → attempt_take tr s ≡ (some t, s')
    → Answered y (record y { shared = s'; threads = ps; taken = log_take t y.taken }) t w
unfolding answer
answered tr y {s} {s'} {t} ps i w a (ts, inv) e c v =
    elim (attempt_take_ends tr s ts (consuming inv i e c).holds v) [
      | kept d ↦
          let up = told_at_shutdown tr s v d.why in
          let all = length_lem {q = y} (ts, inv) in
          let same = consuming_size c in ground (arith, d, up, all, same)
      | took u rest same d ↦ let l = length-append y.taken (u ∷ []) in ground (arith, d, l, a)
    ]

-- A step of the queue that keeps what was given out keeps a drained queue drained, and so does one that
-- gives something out, since there is nothing.
IsDrained-stays :
    {tr : Bool} {q z : System}
    → IsSound q
    → System.Step tr q z
    → length q.taken ≤ length z.taken
    → IsDrained q
    → IsDrained z
IsDrained-stays {q = q} {z = z} sound st h d =
    let (up, same) = Step-IsClosed st sound d.closed in
    let all = length_lem {q = z} (Step-IsSound st sound) in
    let l = ap length same in record { closed = up; empty = omega (arith, all, l, h, d) }

-- The queue moves, and gives nothing out.
moved :
    {tr : Bool} {ws : List Worker} {q z : System}
    → IsSound q
    → System.Step tr q z
    → z.taken ≡ q.taken
    → IsHandedOut ws q
    → IsHandedOut ws z
moved sound st same m =
    let l = ap length same in
    record {
      steady = m.steady;
      fetched = omega (arith, l, m);
      drained = elim m.drained [
        | inl none_left ↦ inl none_left
        | inr d ↦ inr (IsDrained-stays sound st (omega (arith, l)) d)
      ];
    }

module _ {ws : List Worker} {q : System} (m : IsHandedOut ws q) (i : ℕ) {w : Worker}
    (e : get_elem? ws i ≡ some w) where
  -- A worker of the list is changed, and the queue is not.
  changed :
      (v : Worker)
      → IsSteady v
      → v.fetched ≡ w.fetched
      → has_left v ≡ has_left w
      → IsHandedOut (set ws i v) q
  changed v s f g =
      let k = sum-set fetched_by ws i w v e in
      let l = sum-set has_left ws i w v e in
      record {
        steady = set-AllSteady ws i m.steady s;
        fetched = omega (arith, k, f, m);
        drained = ground (arith, l, g, m);
      }

  -- The queue answers a worker.
  served :
      {tr : Bool} {z : System} (t : Take)
      → IsSound q
      → System.Step tr q z
      → IsAsking w
      → Answered q z t w
      → IsHandedOut (set ws i (answer t w)) z
  served t sound st ask a =
      let v = answer t w in
      let k = sum-set fetched_by ws i w v e in
      let l = sum-set has_left ws i w v e in
      record {
        steady = set-AllSteady ws i m.steady (answer-IsSteady t ask (get-IsSteady ws i m.steady e));
        fetched = omega (arith, k, a, m);
        drained = elim (m.drained) [
          | inr d ↦ inr (IsDrained-stays sound st a.grows d)
          | inl none_left ↦ elim (a.told) [
            | inr d ↦ inr d
            | inl stays ↦ inl (ground (arith, l, stays, none_left))
          ]
        ];
      }

pub Step-IsHandedOut :
    {threads workers : ℕ} {tr : Bool} {y z : Whole}
    → Step threads workers tr y z
    → IsSound y.queue
    → IsHandedOut y.workers y.queue
    → IsHandedOut z.workers z.queue
Step-IsHandedOut (calls_move s h) sound m = m
Step-IsHandedOut (puts t s a e h) sound m = moved sound s e m
Step-IsHandedOut (leaves r e w a h) sound m = m
Step-IsHandedOut (queue_moves s a e) sound m = moved sound s e m
Step-IsHandedOut {tr = tr} {y = y} (fetches i w {t = t} {ps = ps} g a e c v n) sound m =
    served m i g t sound (System.take_ends i e c v n) a (answered tr y.queue ps i w a sound e c v)
Step-IsHandedOut {y = y} (stores i w b g u v) sound m =
    changed m i g (record w { history = b ∷ w.history; holding = false })
      (store-IsSteady b u v (get-IsSteady y.workers i m.steady g)) refl refl
Step-IsHandedOut {y = y} (creates h) sound m =
    let a = sum-append fetched_by y.workers new_worker in
    let b = sum-append has_left y.workers new_worker in
    record {
      steady = append-AllSteady y.workers m.steady new-IsSteady;
      fetched = omega (arith, a, m);
      drained = ground (arith, b, m);
    }
Step-IsHandedOut {y = y} (begins i w g u e) sound m =
    changed m i g (record w { stage = serving })
      (stage-IsSteady serving (ground (arith, u)) (get-IsSteady y.workers i m.steady g)) refl
      (ground (arith, u))
Step-IsHandedOut {y = y} (exits i w g u e) sound m =
    changed m i g (record w { stage = ended })
      (stage-IsSteady ended (ground (arith, u)) (get-IsSteady y.workers i m.steady g)) refl
      (ground (arith, u))
Step-IsHandedOut (joins e) sound m = m

pub begin-IsHandedOut : (q : TaskQueue) (n : ℕ) → IsHandedOut [] (System.begin q n)
unfolding sum
begin-IsHandedOut q n = ground arith
