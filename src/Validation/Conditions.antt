-- ===== src/Validation/Conditions.antt =====
-- What the checks of src/scheduler_validation.c ask of a snapshot, in true sums and orders.
use concurrent_task_scheduli.Base.{
  ℕ, ◌+◌, ◌≤◌, ◌<◌, ◌≡◌, ◌∙◌, sym, ap, true, false, not, ◌&&◌, ltb, ◌/=◌, if◌then◌else◌, arith,
  word_mod, sub_word, add_word, not_ltb→le, le→not_ltb, not_/=→eq, eq→not_/=, not-false,
}
use concurrent_task_scheduli.Snapshot.{SchedulerSnapshot, stopped, is_state}
use concurrent_task_scheduli.Validation.{
  validate_structural, validate_accounting_bounds, validate_quiescent, lifecycle_flags_valid,
}
use concurrent_task_scheduli.Validation.Agreement.{Fits, add_exceeds_lem, AllPass}

-- What the checks of `validate_structural` ask of the counters.
pub record IsStructured (s : SchedulerSnapshot) : Type 0 where
  pub size : s.queue_current_size ≤ s.queue_capacity
  pub high : s.queue_high_water_mark ≤ s.queue_capacity
  pub mark : s.queue_current_size ≤ s.queue_high_water_mark
  pub created : s.created_worker_count ≤ s.configured_worker_count
  pub ready : s.ready_worker_count ≤ s.created_worker_count
  pub active : s.active_worker_count ≤ s.created_worker_count
  pub joined : s.joined_worker_count ≤ s.created_worker_count
  pub both : s.active_worker_count + s.joined_worker_count ≤ s.created_worker_count
  pub running : s.currently_running_count ≤ s.active_worker_count
  pub startup : s.worker_startup_failure_count ≤ s.configured_worker_count
  pub flags : lifecycle_flags_valid s ≡ true

-- What the checks of `validate_accounting_bounds` ask.
pub record IsBounded (s : SchedulerSnapshot) : Type 0 where
  pub outcomes : s.callback_succeeded_count + s.callback_failed_count ≤ s.callback_started_count
  pub accepted : s.accepted_count ≤ s.submitted_count
  pub rejected : s.rejected_count ≤ s.submitted_count
  pub dequeued : s.dequeued_count ≤ s.accepted_count
  pub started : s.callback_started_count ≤ s.dequeued_count

-- What the checks of `validate_quiescent` ask.
pub record IsQuiet (s : SchedulerSnapshot) : Type 0 where
  pub balance : s.submitted_count ≡ add_word s.accepted_count s.rejected_count
  pub taken : s.accepted_count ≡ s.dequeued_count
  pub begun : s.dequeued_count ≡ s.callback_started_count
  pub ended : s.callback_started_count ≡ add_word s.callback_succeeded_count s.callback_failed_count
  pub empty : s.queue_current_size ≡ 0
  pub idle : s.currently_running_count ≡ 0
  pub inactive : s.active_worker_count ≡ 0
  pub all_joined :
      (is_state s.state stopped && s.joined_worker_count /= s.created_worker_count) ≡ false

both_le : (a j c : ℕ) → c < word_mod → j ≤ c → a ≤ sub_word c (if ltb c j then c else j) → a + j ≤ c
both_le a j c w h k = ground arith

le_both : (a j c : ℕ) → c < word_mod → a + j ≤ c → a ≤ sub_word c (if ltb c j then c else j)
le_both a j c w h = ground arith

pub structural_sound :
    (s : SchedulerSnapshot) → Fits s → AllPass (validate_structural s) → IsStructured s
unfolding validate_structural
structural_sound s f (a, (b, (c, (d, (e, (g, (h, (i, (j, (k, (l, u))))))))))) = record {
  size = not_ltb→le a;
  high = not_ltb→le b;
  mark = not_ltb→le c;
  created = not_ltb→le d;
  ready = not_ltb→le e;
  active = not_ltb→le g;
  joined = not_ltb→le h;
  both =
      both_le s.active_worker_count s.joined_worker_count s.created_worker_count f.created
        (not_ltb→le h) (not_ltb→le i);
  running = not_ltb→le j;
  startup = not_ltb→le k;
  flags = not-false (lifecycle_flags_valid s) l;
}

pub structural_complete :
    (s : SchedulerSnapshot) → Fits s → IsStructured s → AllPass (validate_structural s)
unfolding validate_structural
structural_complete s f x = (
  le→not_ltb x.size,
  (
    le→not_ltb x.high,
    (
      le→not_ltb x.mark,
      (
        le→not_ltb x.created,
        (
          le→not_ltb x.ready,
          (
            le→not_ltb x.active,
            (
              le→not_ltb x.joined,
              (
                le→not_ltb (
                    le_both s.active_worker_count s.joined_worker_count s.created_worker_count
                      f.created x.both),
                (le→not_ltb x.running, (le→not_ltb x.startup, (ap not x.flags, tt))),
              ),
            ),
          ),
        ),
      ),
    ),
  ),
)

pub bounds_sound :
    (s : SchedulerSnapshot) → Fits s → AllPass (validate_accounting_bounds s) → IsBounded s
unfolding validate_accounting_bounds
bounds_sound s f (a, (b, (c, (d, (e, u))))) = record {
  outcomes = not_ltb→le (
      sym (
        add_exceeds_lem s.callback_succeeded_count s.callback_failed_count s.callback_started_count
          f.started)
      ∙ a);
  accepted = not_ltb→le b;
  rejected = not_ltb→le c;
  dequeued = not_ltb→le d;
  started = not_ltb→le e;
}

pub bounds_complete :
    (s : SchedulerSnapshot) → Fits s → IsBounded s → AllPass (validate_accounting_bounds s)
unfolding validate_accounting_bounds
bounds_complete s f x = (
  add_exceeds_lem s.callback_succeeded_count s.callback_failed_count s.callback_started_count
        f.started
      ∙ le→not_ltb x.outcomes,
  (
    le→not_ltb x.accepted,
    (le→not_ltb x.rejected, (le→not_ltb x.dequeued, (le→not_ltb x.started, tt))),
  ),
)

pub IsQuiet-sound : (s : SchedulerSnapshot) → AllPass (validate_quiescent s) → IsQuiet s
unfolding validate_quiescent
IsQuiet-sound s (a, (b, (c, (d, (e, (g, (h, (i, u)))))))) = record {
  balance = not_/=→eq a;
  taken = not_/=→eq b;
  begun = not_/=→eq c;
  ended = not_/=→eq d;
  empty = not_/=→eq e;
  idle = not_/=→eq g;
  inactive = not_/=→eq h;
  all_joined = i;
}

pub quiet_complete : (s : SchedulerSnapshot) → IsQuiet s → AllPass (validate_quiescent s)
unfolding validate_quiescent
quiet_complete s x = (
  eq→not_/= x.balance,
  (
    eq→not_/= x.taken,
    (
      eq→not_/= x.begun,
      (
        eq→not_/= x.ended,
        (eq→not_/= x.empty, (eq→not_/= x.idle, (eq→not_/= x.inactive, (x.all_joined, tt)))),
      ),
    ),
  ),
)
