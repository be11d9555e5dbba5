-- ===== src/Validation/Basic.antt =====
-- What the plain checks of src/scheduler.c ask of a snapshot, in true sums and orders.
use concurrent_task_scheduli.Base.{
  ℕ, ◌+◌, ◌≤◌, ◌<◌, ◌≡◌, Bool, true, false, not, ◌||◌, some, if◌then◌else◌, arith, word_mod,
  sub_word, add_word, not_/=→eq,
}
use concurrent_task_scheduli.Snapshot.{
  SchedulerSnapshot, scheduler_snapshot_validate_basic, scheduler_snapshot_validate_quiescent,
  snapshot_version, domain_exact,
}
use concurrent_task_scheduli.Validation.{lifecycle_flags_valid}
use concurrent_task_scheduli.Validation.Agreement.{Fits}
use concurrent_task_scheduli.Validation.Conditions.{IsStructured, IsBounded, IsQuiet}

-- What `scheduler_snapshot_validate_basic` asks.
pub record IsBasic (s : SchedulerSnapshot) : Type 0 where
  pub version : s.version ≡ snapshot_version
  pub consistency : s.consistency ≡ domain_exact
  pub size : s.queue_current_size ≤ s.queue_capacity
  pub high : s.queue_high_water_mark ≤ s.queue_capacity
  pub mark : s.queue_current_size ≤ s.queue_high_water_mark
  pub created : s.created_worker_count ≤ s.configured_worker_count
  pub ready : s.ready_worker_count ≤ s.created_worker_count
  pub active : s.active_worker_count ≤ s.created_worker_count
  pub joined : s.joined_worker_count ≤ s.created_worker_count
  pub running : s.currently_running_count ≤ s.active_worker_count
  pub accepted : s.accepted_count ≤ s.submitted_count
  pub rejected : s.rejected_count ≤ s.submitted_count
  pub started : s.callback_started_count ≤ s.dequeued_count
  pub outcomes : s.callback_succeeded_count + s.callback_failed_count ≤ s.callback_started_count

outcomes_le : (a b c : ℕ) → c < word_mod → a ≤ c → b ≤ sub_word c a → a + b ≤ c
outcomes_le a b c w h k = ground arith

le_outcomes : (a b c : ℕ) → c < word_mod → a + b ≤ c → b ≤ sub_word c a
le_outcomes a b c w h = ground arith

pub basic_complete :
    (s : SchedulerSnapshot)
    → s.callback_started_count < word_mod
    → IsBasic s
    → scheduler_snapshot_validate_basic (some s) ≡ true
unfolding scheduler_snapshot_validate_basic
basic_complete s lt x = ground (arith, x)

IsBasic-sound :
    (s : SchedulerSnapshot) → Fits s → scheduler_snapshot_validate_basic (some s) ≡ true → IsBasic s
unfolding scheduler_snapshot_validate_basic
IsBasic-sound s f h = ground arith

pub to_basic :
    {s : SchedulerSnapshot}
    → (s.version ≡ snapshot_version) × (s.consistency ≡ domain_exact)
    → IsStructured s
    → IsBounded s
    → IsBasic s
to_basic h x y = ground (arith, h, x, y)

-- All that the mode QUIESCENT asks, where it applies.
pub record All (s : SchedulerSnapshot) : Type 0 where
  pub version : s.version ≡ snapshot_version
  pub consistency : s.consistency ≡ domain_exact
  pub structured : IsStructured s
  pub bounded : IsBounded s
  pub quiet : IsQuiet s

pub plain_complete :
    (s : SchedulerSnapshot) → Fits s → All s → scheduler_snapshot_validate_quiescent (some s) ≡ true
unfolding scheduler_snapshot_validate_quiescent
plain_complete s f a =
    rw
      (
        basic_complete s f.started (to_basic (a.version, a.consistency) a.structured a.bounded),
        a.quiet.all_joined,
      )
      (ground (arith, f, a.bounded, a.quiet))

plain-IsBasic :
    (s : SchedulerSnapshot)
    → scheduler_snapshot_validate_quiescent (some s) ≡ true
    → scheduler_snapshot_validate_basic (some s) ≡ true
unfolding scheduler_snapshot_validate_quiescent
plain-IsBasic s p = ground arith

-- What the early return of `scheduler_snapshot_validate_quiescent` has ruled out where it is not taken.
all_clear :
    (a b c d e g h i j : Bool)
    → (if a || b || c || d || e || g || h || i then false else not j) ≡ true
    → (b ≡ false)
      × (c ≡ false)
      × (d ≡ false)
      × (e ≡ false)
      × (g ≡ false)
      × (h ≡ false)
      × (i ≡ false)
      × (j ≡ false)
all_clear a b c d e g h i j k = ground arith

sum_of_difference : (a b c : ℕ) → a < word_mod → b ≤ a → sub_word a b ≡ c → a ≡ add_word b c
sum_of_difference a b c w h e = ground arith

plain-IsQuiet :
    (s : SchedulerSnapshot)
    → Fits s
    → IsBasic s
    → scheduler_snapshot_validate_quiescent (some s) ≡ true
    → IsQuiet s
unfolding scheduler_snapshot_validate_quiescent
plain-IsQuiet s f x p =
    let (b, c, d, e, g, h, i, j) = all_clear _ _ _ _ _ _ _ _ _ p in
    record {
      balance =
          sum_of_difference s.submitted_count s.accepted_count s.rejected_count f.submitted
            x.accepted (not_/=→eq b);
      taken = not_/=→eq c;
      begun = not_/=→eq d;
      ended =
          sum_of_difference s.callback_started_count s.callback_succeeded_count
            s.callback_failed_count f.started (omega (arith, x.outcomes)) (not_/=→eq e);
      empty = not_/=→eq h;
      idle = not_/=→eq g;
      inactive = not_/=→eq i;
      all_joined = j;
    }

pub plain_sound :
    (s : SchedulerSnapshot)
    → Fits s
    → scheduler_snapshot_validate_quiescent (some s) ≡ true
    → lifecycle_flags_valid s ≡ true
    → s.worker_startup_failure_count ≤ s.configured_worker_count
    → All s
plain_sound s f p flags startup =
    let x = IsBasic-sound s f (plain-IsBasic s p) in
    let q = plain-IsQuiet s f x p in
    record {
      version = x.version;
      consistency = x.consistency;
      structured = ground (arith, x, q);
      bounded = ground (arith, x, q);
      quiet = q;
    }
