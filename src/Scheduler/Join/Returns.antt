-- ===== src/Scheduler/Join/Returns.antt =====
-- When the wait of `scheduler_join` in src/scheduler.c ends.
use concurrent_task_scheduli.Base.{
  ℕ, zero, suc, ◌+◌, ◌≤◌, ◌≡◌, ◌≢◌, Bool, false, none, some, List, [], ◌∷◌, arith,
}
use concurrent_task_scheduli.Sync.{SchedSyncResult}
use concurrent_task_scheduli.Scheduler.{
  Lifecycle, SchedulerResult, running, is_state, increment_saturating,
}
use concurrent_task_scheduli.Scheduler.Submit.{enter, leave, settle}
use concurrent_task_scheduli.Scheduler.Shutdown.{Pause, waits, drain, must_wait, join_gate}
use concurrent_task_scheduli.Scheduler.Engine.{Engine}
use concurrent_task_scheduli.Scheduler.Join.{JoinCallAnswers, join_engine, scheduler_join}

-- A locked part of a submission of another thread: it comes, or it leaves with the queue's result, its
-- broadcast having the other result.
pub data Move : Type 0 where
  comes : Move
  departs : SchedSyncResult → SchedulerResult → Move

unfoldable pub moved : List Move → Lifecycle → Lifecycle
moved [] s = s
moved (comes ∷ ms) s = moved ms (enter s).1
moved (departs broadcast r ∷ ms) s = moved ms (leave broadcast r s).1

abbrev pub departures : List Move → ℕ
departures [] = 0
departures (comes ∷ ms) = departures ms
departures (departs broadcast r ∷ ms) = suc (departures ms)

-- Waits in which `n` submitters leave, any number of them in one wait. Nothing is said of the waits after the
-- last has left.
pub data Leaves : ℕ → List Pause → Type 0 where
  all_gone : {ps : List Pause} → Leaves zero ps
  in_wait :
      {n : ℕ} {p : Pause} {ps : List Pause} (ms : List Move)
      → ((s : Lifecycle) → p.others s ≡ moved ms s)
      → Leaves n ps
      → Leaves (departures ms + n) (p ∷ ps)

enter-closed :
    (s : Lifecycle)
    → is_state s.state running ≡ false
    → let s' = (enter s).1 in
      (is_state s'.state running ≡ false) × (s'.active_submitter_count ≡ s.active_submitter_count)
unfolding enter increment_saturating
enter-closed s h = ground (arith, h)

leave-fewer :
    (b : SchedSyncResult) (r : SchedulerResult) (s : Lifecycle) {k : ℕ}
    → s.active_submitter_count ≤ suc k
    → let s' = (leave b r s).1 in (s'.state ≡ s.state) × (s'.active_submitter_count ≤ k)
unfolding leave settle increment_saturating
leave-fewer b r s h = ground (arith, h)

moved-fewer :
    (ms : List Move) (s : Lifecycle) {k : ℕ}
    → is_state s.state running ≡ false
    → s.active_submitter_count ≤ departures ms + k
    → let s' = moved ms s in (is_state s'.state running ≡ false) × (s'.active_submitter_count ≤ k)
unfolding moved
moved-fewer [] s h le = (h, omega (arith, le))
moved-fewer (comes ∷ ms) s h le =
    let (h', same) = enter-closed s h in moved-fewer ms (enter s).1 h' (omega (arith, le, same))
moved-fewer (departs b r ∷ ms) s h le =
    let (same, fewer) = leave-fewer b r s (omega (arith, le)) in
    moved-fewer ms (leave b r s).1 (rw same h) fewer

drain_ends :
    {n : ℕ} {ps : List Pause} (s : Lifecycle)
    → is_state s.state running ≡ false
    → s.active_submitter_count ≤ n
    → Leaves n ps
    → (drain ps s).0 ≢ waits
unfolding drain must_wait
drain_ends {ps = []} s h le all_gone = ground (arith, le)
drain_ends {ps = p ∷ ps} s h le all_gone = ground (arith, le)
drain_ends {ps = p ∷ ps} s h le (in_wait {n} ms same l) =
    let (h', le') = moved-fewer ms s h le in
    let rest : (drain ps (p.others s)).0 ≢ waits = rw (same s) (drain_ends (moved ms s) h' le' l) in
    ground (arith, rest)

join_engine_ends :
    (b : Bool) (a : JoinCallAnswers) (e : Engine)
    → (is_state e.lifecycle.state running ≡ false → (drain a.pauses e.lifecycle).0 ≢ waits)
    → (join_engine b a e).0 ≢ none
unfolding join_engine join_gate
join_engine_ends b a e h = ground (arith, h)

-- Where in the course of its waits at least as many submitters leave as are active, any number of them in
-- one wait, a join ends with a result, whatever its calls answer and whatever the state. Other submitters
-- may come meanwhile. The submitters come and leave by the locked parts of the code, and nothing else
-- happens to the lifecycle during the waits.
pub join_returns :
    (b : Bool) (a : JoinCallAnswers) (e : Engine) {n : ℕ}
    → e.lifecycle.active_submitter_count ≤ n
    → Leaves n a.pauses
    → (scheduler_join b a (some (some e))).0 ≢ none
unfolding scheduler_join
join_returns b a e le l = join_engine_ends b a e (λ h. drain_ends e.lifecycle h le l)
