-- ===== src/Validation/Format/Tests.antt =====
-- A result of src/scheduler_validation.c with one issue, formatted into a buffer of six bytes.
use Prim.Native.String.{String}
use concurrent_task_scheduli.Base.{ℕ, ◌≡◌, refl, false, Option, some, List, [], ◌∷◌, length, arith}
use concurrent_task_scheduli.Validation.{
  live, violation, snapshot_version_unsupported, ValidationResult,
}
use concurrent_task_scheduli.Validation.Tests.{after_join}
use concurrent_task_scheduli.Validation.Format.{null, bytes, scheduler_validation_format}
use concurrent_task_scheduli.Validation.Format.Whole.{
  IsPrint, print_into, issues_text, formatted_at_once,
}

abbrev standard_print : List ℕ → List ℕ → List ℕ × Option ℕ
standard_print t bs = (print_into t bs, some (length t))

standard_print-IsPrint : IsPrint standard_print
unfolding IsPrint
standard_print-IsPrint t bs = refl

-- The formats, shortened to their numbers.
abbrev short_head : String → ℕ → ℕ → ℕ → ℕ → ℕ → ℕ → List ℕ
short_head mode version issues violations advisories is_incomplete truncated =
    version ∷ issues ∷ violations ∷ []

abbrev short_issue : String → ℕ → ℕ → ℕ → List ℕ
short_issue name severity observed expected = severity ∷ observed ∷ expected ∷ []

abbrev one_issue : ValidationResult
one_issue = record {
  mode = live;
  snapshot_version = 9;
  issue_count = 1;
  violation_count = 1;
  advisory_count = 0;
  validation_incomplete = false;
  issues_truncated = false;
  issues =
      record {
        issue = snapshot_version_unsupported;
        severity = violation;
        observed = 9;
        expected = 7;
      }
      ∷ [];
}

abbrev six_bytes : List ℕ
six_bytes = 50 ∷ 50 ∷ 50 ∷ 50 ∷ 50 ∷ 50 ∷ []

formatted_at_once_example :
    (scheduler_validation_format standard_print short_head short_issue
        (some after_join)
        (some one_issue)
        (bytes six_bytes)
      ≡ (some 6, bytes (9 ∷ 1 ∷ 1 ∷ 3 ∷ 9 ∷ 0 ∷ [])))
    × (scheduler_validation_format standard_print short_head short_issue
          (some after_join)
          (some one_issue)
          (null 0)
        ≡ (some 6, null 0))
unfolding print_into issues_text
formatted_at_once_example =
    formatted_at_once standard_print short_head short_issue standard_print-IsPrint after_join
      one_issue six_bytes (omega arith)
