-- ===== src/Scheduler/Calls/Inv.antt =====
-- What holds in every reachable state of the calls on one scheduler of src/scheduler.c, and that each
-- locked part keeps it.
use concurrent_task_scheduli.Base.{
  ℕ, suc, ◌+◌, ◌≤◌, ◌<◌, ◌≡◌, ◌≢◌, ◌⊎◌, Bool, true, false, arith, word_mod,
}
use concurrent_task_scheduli.Sync
use concurrent_task_scheduli.Scheduler.{
  SchedulerResult, ok, SchedulerState, starting, running, shutting_down, stopped, failed, Lifecycle,
  increment_saturating,
}
use concurrent_task_scheduli.Scheduler.Submit.{enter, settle, leave}
use concurrent_task_scheduli.Scheduler.Shutdown.{start_gate, shutdown_gate, join_gate, must_wait}
use concurrent_task_scheduli.Scheduler.Calls.{
  Calls, Step, enters, turns_away, leaves, starts, starts_end, shuts_down, joins, joins_end, Reach,
  here, next, begin,
}

-- The states after a shutdown or a failed start.
abbrev pub is_closed : SchedulerState → Bool
is_closed shutting_down = true
is_closed stopped = true
is_closed failed = true
is_closed st = false

-- The counters of submissions.
pub record Counted (threads n : ℕ) (s : Lifecycle) : Type 0 where
  pub active : s.active_submitter_count ≡ n
  pub few : n ≤ threads
  pub balance :
      s.lifecycle_accounting_overflow ≡ false
      → s.submitted_count ≡ s.accepted_count + s.rejected_count + n
  pub small_submitted : s.submitted_count < word_mod
  pub small_accepted : s.accepted_count < word_mod
  pub small_rejected : s.rejected_count < word_mod

enter-Counted :
    {threads n : ℕ} {s s' : Lifecycle}
    → threads < word_mod
    → Counted threads n s
    → n < threads
    → enter s ≡ (ok, s')
    → Counted threads (suc n) s'
      × (s.state ≡ running)
      × (s'.state ≡ running)
      × (s'.accepted_count ≡ s.accepted_count)
unfolding enter increment_saturating
enter-Counted lt c room e = ground arith

turned_away-Counted :
    {threads n : ℕ} {s s' : Lifecycle} {r : SchedulerResult}
    → Counted threads n s
    → enter s ≡ (r, s')
    → r ≢ ok
    → Counted threads n s' × (s'.state ≡ s.state) × (s'.accepted_count ≡ s.accepted_count)
unfolding enter increment_saturating
turned_away-Counted c e bad = ground arith

leave-Counted :
    {threads n : ℕ} {s s' : Lifecycle} {r' : SchedulerResult}
    → (r : SchedulerResult) → threads < word_mod
    → Counted threads (suc n) s
    → leave Sync.ok r s ≡ (r', s')
    → Counted threads n s'
      × (s'.state ≡ s.state)
      × (s.accepted_count ≤ s'.accepted_count)
      × (s'.accepted_count ≤ s.accepted_count + 1)
unfolding leave settle increment_saturating
leave-Counted r lt c e = ground arith

-- The counters are right; at most one start is under way, and then the state says so; submissions are
-- in flight only once the scheduler has run; and where a join has seen the last submitter leave, or the
-- scheduler is stopped, there is none.
pub record Inv (threads : ℕ) (y : Calls) : Type 0 where
  pub counted : Counted threads y.submitting y.lifecycle
  pub one_start : (y.begun ≡ 0) ⊎ ((y.begun ≡ 1) × (y.lifecycle.state ≡ starting))
  pub after_run :
      (y.submitting ≡ 0) ⊎ (y.lifecycle.state ≡ running) ⊎ (is_closed y.lifecycle.state ≡ true)
  pub joined : (y.joining ≡ 0) ⊎ ((is_closed y.lifecycle.state ≡ true) × (y.submitting ≡ 0))
  pub quiet : y.lifecycle.state ≡ stopped → y.submitting ≡ 0

-- What a step leaves of a closed scheduler.
pub record Ebbing (y z : Calls) : Type 0 where
  pub closed : is_closed z.lifecycle.state ≡ true
  pub more : y.lifecycle.accepted_count ≤ z.lifecycle.accepted_count
  pub no_more :
      z.lifecycle.accepted_count + z.submitting ≤ y.lifecycle.accepted_count + y.submitting

abbrev Good : ℕ → Calls → Calls → Type 0
Good threads y z = Inv threads z × (is_closed y.lifecycle.state ≡ true → Ebbing y z)

pub Step-Good :
    {threads : ℕ} {y z : Calls}
    → threads < word_mod
    → Inv threads y
    → Step threads y z
    → Good threads y z
unfolding start_gate shutdown_gate join_gate must_wait
Step-Good lt inv (enters room e) =
    let (c, a, b, k) = enter-Counted lt inv.counted room e in ground (arith, a, b, k, c, inv)
Step-Good lt inv (turns_away e bad) =
    let (c, a, k) = turned_away-Counted inv.counted e bad in ground (arith, a, k, c, inv)
Step-Good lt inv (leaves r e w) =
    let (c, a, k, l) = leave-Counted r lt (rw e at inv.counted) w in ground (arith, a, k, l, c, inv)
Step-Good lt inv (starts e) = ground (arith, inv)
Step-Good lt inv (starts_end st e d) = ground (arith, inv)
Step-Good lt inv shuts_down = ground (arith, inv)
Step-Good lt inv (joins e w) = ground (arith, inv)
Step-Good lt inv (joins_end st e d) = ground (arith, inv)

begin-Inv : (threads : ℕ) → Inv threads begin
begin-Inv threads = ground arith

pub Reach-Inv :
    {threads : ℕ} {y z : Calls}
    → threads < word_mod
    → Inv threads y
    → Reach threads y z
    → Inv threads z
Reach-Inv lt inv here = inv
Reach-Inv lt inv (next r s) = (Step-Good lt (Reach-Inv lt inv r) s).0

pub reached-Inv :
    {threads : ℕ} {y : Calls} → threads < word_mod → Reach threads begin y → Inv threads y
reached-Inv {threads} lt r = Reach-Inv lt (begin-Inv threads) r

pub Reach-Ebbing :
    {threads : ℕ} {y z : Calls}
    → threads < word_mod
    → Inv threads y
    → is_closed y.lifecycle.state ≡ true
    → Reach threads y z
    → Ebbing y z
Reach-Ebbing lt inv up here = record { closed = up; more = omega arith; no_more = omega arith }
Reach-Ebbing lt inv up (next r s) =
    let before = Reach-Ebbing lt inv up r in
    let step = (Step-Good lt (Reach-Inv lt inv r) s).1 before.closed in
    record {
      closed = step.closed;
      more = omega (arith, before, step);
      no_more = omega (arith, before, step);
    }
