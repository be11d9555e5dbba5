-- ===== src/Validation/Report.antt =====
-- The result of `scheduler_snapshot_validate` of src/scheduler_validation.c is the report on the checks
-- that fail.
use concurrent_task_scheduli.Base.{
  ℕ, suc, ◌+◌, ◌≤◌, ◌<◌, ◌≡◌, ◌∙◌, refl, ap, ◌⊎◌, inl, inr, Bool-cases, not, Bool, true, false,
  some, List, [], ◌∷◌, ◌++◌, ltb, if◌then◌else◌, length, length-append, append-nil, append_assoc,
  arith, word_mod,
}
use Prim.Native.Nat.{min}
use concurrent_task_scheduli.Snapshot.{SchedulerSnapshot}
use concurrent_task_scheduli.Validation.{
  ValidationMode, live, quiescent, unknown_mode, Severity, advisory, violation, incomplete,
  IssueRecord, ValidationResult, issue_capacity, record_issue, Check, run_checks, all_checks,
  not_applicable, quiescent_mode_applicable, validate_quiescent, validate_mode, validate_structural,
  validate_accounting_bounds, empty_result, scheduler_snapshot_validate,
}

-- The records of the checks that fail, in order.
unfoldable pub failures : List Check → List IssueRecord
failures [] = []
failures (c ∷ cs) = if c.fails then c.found ∷ failures cs else failures cs

abbrev pub is_violation : Severity → ℕ
is_violation violation = 1
is_violation s = 0

abbrev pub is_advisory : Severity → ℕ
is_advisory advisory = 1
is_advisory s = 0

abbrev pub is_incomplete : Severity → Bool
is_incomplete incomplete = true
is_incomplete s = false

-- How many records there are of a severity.
unfoldable pub count : (Severity → ℕ) → List IssueRecord → ℕ
count w [] = 0
count w (i ∷ is) = w i.severity + count w is

pub any_incomplete : List IssueRecord → Bool
any_incomplete [] = false
any_incomplete (i ∷ is) = if is_incomplete i.severity then true else any_incomplete is

abbrev pub take : ℕ → List IssueRecord → List IssueRecord
take ℕ.zero xs = []
take (suc n) [] = []
take (suc n) (x ∷ xs) = x ∷ take n xs

take-append_short :
    (n : ℕ) (ds : List IssueRecord) (i : IssueRecord)
    → length ds < n
    → take n (ds ++ i ∷ []) ≡ take n ds ++ i ∷ []
take-append_short ℕ.zero ds i h = absurd (omega arith)
take-append_short (suc ℕ.zero) [] i h = refl
take-append_short (suc (suc n)) [] i h = refl
take-append_short (suc n) (d ∷ ds) i h = ap (λ l. d ∷ l) (take-append_short n ds i (omega arith))

take-append_long :
    (n : ℕ) (ds : List IssueRecord) (i : IssueRecord)
    → n ≤ length ds
    → take n (ds ++ i ∷ []) ≡ take n ds
take-append_long ℕ.zero ds i h = refl
take-append_long (suc n) [] i h = absurd (omega arith)
take-append_long (suc n) (d ∷ ds) i h = ap (λ l. d ∷ l) (take-append_long n ds i (omega arith))

count-append :
    (w : Severity → ℕ) (ds : List IssueRecord) (i : IssueRecord)
    → count w (ds ++ i ∷ []) ≡ count w ds + w i.severity
unfolding count
count-append w [] i = omega arith
count-append w (d ∷ ds) i = omega (arith, count-append w ds i)

any_incomplete-append :
    (ds : List IssueRecord) (i : IssueRecord)
    → any_incomplete (ds ++ i ∷ []) ≡ (if is_incomplete i.severity then true else any_incomplete ds)
unfolding any_incomplete
any_incomplete-append [] i = refl
any_incomplete-append (d ∷ ds) i = ground (arith, any_incomplete-append ds i)

count-le :
    (w : Severity → ℕ) (ds : List IssueRecord) → ((s : Severity) → w s ≤ 1) → count w ds ≤ length ds
unfolding count
count-le w [] h = omega arith
count-le w (d ∷ ds) h = omega (arith, h d.severity, count-le w ds h)

violations-le : (ds : List IssueRecord) → count is_violation ds ≤ length ds
violations-le ds = count-le is_violation ds (λ s. ground arith)

advisories-le : (ds : List IssueRecord) → count is_advisory ds ≤ length ds
advisories-le ds = count-le is_advisory ds (λ s. ground arith)

-- `r` reports on the failures `ds`: it keeps the first 16 records, and counts all.
pub record Reports (ds : List IssueRecord) (r : ValidationResult) : Type 0 where
  pub recorded : r.issues ≡ take issue_capacity ds
  pub number : r.issue_count ≡ min issue_capacity (length ds)
  pub truncated : r.issues_truncated ≡ ltb issue_capacity (length ds)
  pub violations : r.violation_count ≡ count is_violation ds
  pub advisories : r.advisory_count ≡ count is_advisory ds
  pub unfinished : r.validation_incomplete ≡ any_incomplete ds

record_issue-Reports :
    {ds : List IssueRecord} {r : ValidationResult} (i : IssueRecord)
    → Reports ds r
    → length ds + 1 < word_mod
    → Reports (ds ++ i ∷ []) (record_issue i r)
unfolding record_issue
record_issue-Reports {ds} {r} i p small = record {
  recorded = ground (arith, p, take-append_short 16 ds i, take-append_long 16 ds i);
  number = ground (arith, p, length-append ds (i ∷ []));
  truncated = ground (arith, p, length-append ds (i ∷ []));
  violations = ground (arith, p, count-append is_violation ds i, violations-le ds);
  advisories = ground (arith, p, count-append is_advisory ds i, advisories-le ds);
  unfinished = ground (arith, p, any_incomplete-append ds i);
}

run_checks-Reports :
    (cs : List Check) {ds : List IssueRecord} {r : ValidationResult}
    → Reports ds r
    → length ds + length cs < word_mod
    → Reports (ds ++ failures cs) (run_checks cs r)
unfolding run_checks failures
run_checks-Reports [] {ds} p small = rw append-nil p
run_checks-Reports (c ∷ cs) {ds} {r} p small = elim (Bool-cases c.fails) [
  | inl bad ↦
      rw (bad, ← append_assoc ds (c.found ∷ []) (failures cs))
        (run_checks-Reports cs (record_issue-Reports c.found p (omega arith))
          (omega (arith, length-append ds (c.found ∷ []))))
  | inr good ↦ rw good (run_checks-Reports cs p (omega arith))
]

length-if :
    (b : Bool) (xs ys : List Check) (n : ℕ)
    → length xs ≤ n
    → length ys ≤ n
    → length (if b then xs else ys) ≤ n
length-if true xs ys n h k = h
length-if false xs ys n h k = k

length-validate_quiescent : (s : SchedulerSnapshot) → length (validate_quiescent s) ≤ 8
unfolding validate_quiescent
length-validate_quiescent s = omega arith

length-validate_mode :
    (mode : ValidationMode) (s : SchedulerSnapshot) → length (validate_mode mode s) ≤ 8
length-validate_mode live s = omega arith
length-validate_mode (unknown_mode n) s = omega arith
length-validate_mode quiescent s =
    length-if (not (quiescent_mode_applicable s)) (not_applicable s)
      (if not s.overflow_detected then validate_quiescent s else []) 8 (omega arith)
      (length-if (not s.overflow_detected) (validate_quiescent s) [] 8 (length-validate_quiescent s)
        (omega arith))

length-structural : (s : SchedulerSnapshot) → length (validate_structural s) ≤ 11
unfolding validate_structural
length-structural s = omega arith

length-bounds : (s : SchedulerSnapshot) → length (validate_accounting_bounds s) ≤ 5
unfolding validate_accounting_bounds
length-bounds s = omega arith

-- There are 27 checks at most.
length-all_checks :
    (mode : ValidationMode) (s : SchedulerSnapshot) → length (all_checks mode s) ≤ 27
unfolding all_checks
length-all_checks mode s =
    let bounds : List Check =
      if not s.overflow_detected then validate_accounting_bounds s else [] in
    omega (
      arith,
      length-append (validate_structural s) (bounds ++ validate_mode mode s),
      length-append bounds (validate_mode mode s),
      length-structural s,
      length-if (not s.overflow_detected) (validate_accounting_bounds s) [] 5 (length-bounds s)
          (omega arith),
      length-validate_mode mode s,
    )

empty-Reports : (mode : ValidationMode) (v : ℕ) → Reports [] (empty_result mode v)
unfolding count any_incomplete
empty-Reports mode v = record {
  recorded = refl;
  number = refl;
  truncated = refl;
  violations = refl;
  advisories = refl;
  unfinished = refl;
}

version-record_issue :
    (i : IssueRecord) (r : ValidationResult)
    → (record_issue i r).snapshot_version ≡ r.snapshot_version
unfolding record_issue
version-record_issue i r = ground arith

version-run_checks :
    (cs : List Check) (r : ValidationResult)
    → (run_checks cs r).snapshot_version ≡ r.snapshot_version
unfolding run_checks
version-run_checks [] r = refl
version-run_checks (c ∷ cs) r = elim (Bool-cases c.fails) [
  | inl bad ↦
      rw bad (version-run_checks cs (record_issue c.found r) ∙ version-record_issue c.found r)
  | inr good ↦ rw good (version-run_checks cs r)
]

-- In the two modes a validation succeeds, whatever the snapshot, and its result reports on the checks
-- that fail: it holds the first 16 of their records in order, it says whether there are more, and it
-- counts the violations and advisories of all of them and says whether one leaves it incomplete.
pub validate-Reports :
    (mode : ValidationMode) (s : SchedulerSnapshot)
    → (mode ≡ live) ⊎ (mode ≡ quiescent)
    → (r : ValidationResult) × (scheduler_snapshot_validate (some s) mode true ≡ some r)
      × Reports (failures (all_checks mode s)) r
      × (r.snapshot_version ≡ s.version)
unfolding scheduler_snapshot_validate
validate-Reports mode s m = (
  run_checks (all_checks mode s) (empty_result mode s.version),
  ground arith,
  run_checks-Reports (all_checks mode s) (empty-Reports mode s.version)
      (omega (arith, length-all_checks mode s)),
  version-run_checks (all_checks mode s) (empty_result mode s.version),
)
