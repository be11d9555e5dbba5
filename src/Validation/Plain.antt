-- ===== src/Validation/Plain.antt =====
-- The two ways in which the code checks a snapshot agree: src/scheduler_validation.c, which lists what
-- is wrong, and the plain checks of src/scheduler.c.
use concurrent_task_scheduli.Base.{
  ◌+◌, ◌≤◌, ◌≡◌, ◌∙◌, sym, ap, refl, true, false, not, some, [], ◌++◌, if◌then◌else◌, arith, inl,
  inr, ◌↔◌, ◌⊎◌,
}
use concurrent_task_scheduli.Snapshot.{
  SchedulerSnapshot, scheduler_snapshot_validate_basic, scheduler_snapshot_validate_quiescent,
  snapshot_version, domain_exact,
}
use concurrent_task_scheduli.Validation.{
  ValidationMode, live, quiescent, ValidationResult, all_checks, validate_header,
  validate_structural, validate_accounting_bounds, validate_quiescent, quiescent_mode_applicable,
  not_applicable, lifecycle_flags_valid, scheduler_snapshot_validate,
}
use concurrent_task_scheduli.Validation.Report.{validate-Reports, count, failures}
use concurrent_task_scheduli.Validation.Agreement.{
  Fits, AllPass, violations, violations-append, no_violations-AllPass, AllPass-no_violations,
}
use concurrent_task_scheduli.Validation.Conditions.{
  structural_sound, structural_complete, bounds_sound, bounds_complete, IsQuiet-sound,
  quiet_complete,
}
use concurrent_task_scheduli.Validation.Basic.{
  basic_complete, to_basic, All, plain_complete, plain_sound,
}

no_checks : violations [] ≡ 0
unfolding count failures
no_checks = refl

header_sound :
    (s : SchedulerSnapshot)
    → violations (validate_header s) ≡ 0
    → (s.version ≡ snapshot_version) × (s.consistency ≡ domain_exact)
unfolding count failures
header_sound s e = (ground arith, ground arith)

header_complete :
    (s : SchedulerSnapshot)
    → s.version ≡ snapshot_version
    → s.consistency ≡ domain_exact
    → violations (validate_header s) ≡ 0
unfolding count failures
header_complete s v c = ground arith

module _ (s : SchedulerSnapshot) (complete : s.overflow_detected ≡ false) where
  live_checks :
      all_checks live s
      ≡ validate_header s ++ (validate_structural s ++ (validate_accounting_bounds s ++ []))
  unfolding all_checks
  live_checks =
      ap
        (λ b.
          validate_header s
          ++ (validate_structural s
              ++ ((if not b then validate_accounting_bounds s else []) ++ [])))
        complete

  live_parts :
      violations (all_checks live s)
      ≡ violations (validate_header s)
        + violations (validate_structural s)
        + violations (validate_accounting_bounds s)
  live_parts = omega (
    arith,
    ap violations live_checks,
    violations-append (validate_header s)
        (validate_structural s ++ (validate_accounting_bounds s ++ [])),
    violations-append (validate_structural s) (validate_accounting_bounds s ++ []),
    violations-append (validate_accounting_bounds s) [],
    no_checks,
  )

  quiescent_checks :
      quiescent_mode_applicable s ≡ true
      → all_checks quiescent s
        ≡ validate_header s
          ++ (validate_structural s ++ (validate_accounting_bounds s ++ validate_quiescent s))
  unfolding all_checks
  quiescent_checks applicable =
      ap
        (λ b.
          validate_header s
          ++ (validate_structural s
              ++ ((if not s.overflow_detected then validate_accounting_bounds s else [])
                  ++ (if not b
                      then not_applicable s
                      else if not s.overflow_detected
                      then validate_quiescent s
                      else []))))
        applicable
      ∙ ap
          (λ b.
            validate_header s
            ++ (validate_structural s
                ++ ((if not b then validate_accounting_bounds s else [])
                    ++ (if not b then validate_quiescent s else []))))
          complete

  quiescent_parts :
      quiescent_mode_applicable s ≡ true
      → violations (all_checks quiescent s)
        ≡ violations (validate_header s)
          + violations (validate_structural s)
          + violations (validate_accounting_bounds s)
          + violations (validate_quiescent s)
  quiescent_parts applicable = omega (
    arith,
    ap violations (quiescent_checks applicable),
    violations-append (validate_header s)
        (validate_structural s ++ (validate_accounting_bounds s ++ validate_quiescent s)),
    violations-append (validate_structural s)
        (validate_accounting_bounds s ++ validate_quiescent s),
    violations-append (validate_accounting_bounds s) (validate_quiescent s),
  )

-- The number of violations in a result is that of the checks.
counted :
    (mode : ValidationMode) (s : SchedulerSnapshot) {r : ValidationResult}
    → (mode ≡ live) ⊎ (mode ≡ quiescent)
    → scheduler_snapshot_validate (some s) mode true ≡ some r
    → r.violation_count ≡ violations (all_checks mode s)
counted mode s m e = let (r', e', p, v) = validate-Reports mode s m in ground (arith, p.violations)

structural_AllPass :
    (s : SchedulerSnapshot)
    → violations (validate_structural s) ≡ 0
    → AllPass (validate_structural s)
unfolding validate_structural
structural_AllPass s e =
    no_violations-AllPass _
      (refl, (refl, (refl, (refl, (refl, (refl, (refl, (refl, (refl, (refl, (refl, tt))))))))))) e

bounds_AllPass :
    (s : SchedulerSnapshot)
    → violations (validate_accounting_bounds s) ≡ 0
    → AllPass (validate_accounting_bounds s)
unfolding validate_accounting_bounds
bounds_AllPass s e = no_violations-AllPass _ (refl, (refl, (refl, (refl, (refl, tt))))) e

quiet_AllPass :
    (s : SchedulerSnapshot) → violations (validate_quiescent s) ≡ 0 → AllPass (validate_quiescent s)
unfolding validate_quiescent
quiet_AllPass s e =
    no_violations-AllPass _ (refl, (refl, (refl, (refl, (refl, (refl, (refl, (refl, tt)))))))) e

module _ (s : SchedulerSnapshot) (f : Fits s) (complete : s.overflow_detected ≡ false)
    (applicable : quiescent_mode_applicable s ≡ true) where
  quiet_parts : violations (all_checks quiescent s) ≡ 0 → All s
  quiet_parts e = record {
    version = (header_sound s (omega (arith, parts))).0;
    consistency = (header_sound s (omega (arith, parts))).1;
    structured = structural_sound s f (structural_AllPass s (omega (arith, parts)));
    bounded = bounds_sound s f (bounds_AllPass s (omega (arith, parts)));
    quiet = IsQuiet-sound s (quiet_AllPass s (omega (arith, parts)));
  }
    where
      parts :
          violations (all_checks quiescent s)
          ≡ violations (validate_header s)
            + violations (validate_structural s)
            + violations (validate_accounting_bounds s)
            + violations (validate_quiescent s)
      parts = quiescent_parts s complete applicable

  quiet_whole : All s → violations (all_checks quiescent s) ≡ 0
  quiet_whole a = omega (
    arith,
    quiescent_parts s complete applicable,
    header_complete s a.version a.consistency,
    AllPass-no_violations (validate_structural s) (structural_complete s f a.structured),
    AllPass-no_violations (validate_accounting_bounds s) (bounds_complete s f a.bounded),
    AllPass-no_violations (validate_quiescent s) (quiet_complete s a.quiet),
  )

-- A snapshot of 64-bit counters without overflow in which the validation in the mode LIVE finds no
-- violation passes the plain basic check.
live_implies_basic :
    (s : SchedulerSnapshot) {r : ValidationResult}
    → Fits s
    → s.overflow_detected ≡ false
    → scheduler_snapshot_validate (some s) live true ≡ some r
    → r.violation_count ≡ 0
    → scheduler_snapshot_validate_basic (some s) ≡ true
live_implies_basic s f complete e none_found =
    let zero_all : violations (all_checks live s) ≡ 0 =
      sym (counted live s (inl refl) e) ∙ none_found in
    let zero_header : violations (validate_header s) ≡ 0 = omega (arith, live_parts s complete) in
    let zero_structural : violations (validate_structural s) ≡ 0 =
      omega (arith, live_parts s complete) in
    let zero_bounds : violations (validate_accounting_bounds s) ≡ 0 =
      omega (arith, live_parts s complete) in
    basic_complete s f.started (
      to_basic (header_sound s zero_header)
        (structural_sound s f (structural_AllPass s zero_structural))
        (bounds_sound s f (bounds_AllPass s zero_bounds)))

-- In the mode QUIESCENT, on a snapshot of 64-bit counters without overflow to which the mode applies,
-- the validation finds no violation exactly if the plain quiescent check passes, the flags fit the state,
-- and there are at most as many startup failures as configured workers.
pub quiescent_agrees :
    (s : SchedulerSnapshot) {r : ValidationResult}
    → Fits s
    → s.overflow_detected ≡ false
    → quiescent_mode_applicable s ≡ true
    → scheduler_snapshot_validate (some s) quiescent true ≡ some r
    → (r.violation_count ≡ 0) ↔ (
        (scheduler_snapshot_validate_quiescent (some s) ≡ true)
        × (lifecycle_flags_valid s ≡ true)
        × (s.worker_startup_failure_count ≤ s.configured_worker_count))
quiescent_agrees s {r} f complete applicable e = (
  λ none_found.
      let all : All s =
        quiet_parts s f complete applicable (sym (counted quiescent s (inr refl) e) ∙ none_found) in
      (plain_complete s f all, all.structured.flags, all.structured.startup),
  λ (plain, flags, startup).
      counted quiescent s (inr refl) e
      ∙ quiet_whole s f complete applicable (plain_sound s f plain flags startup),
)
