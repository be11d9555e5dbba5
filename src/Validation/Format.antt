-- ===== src/Validation/Format.antt =====
-- `scheduler_validation_format` of src/scheduler_validation.c: a text in a buffer, part by part. The calls
-- of vsnprintf are parameters: what it makes of a format and its arguments, and what it does with a
-- text and the bytes it may write.
pub mod Whole
mod Tests
use Prim.Native.String.{String}
use concurrent_task_scheduli.Base.{
  ℕ, zero, suc, ◌+◌, ◌-◌, Bool, true, false, Option, none, some, List, [], ◌∷◌, ◌++◌, length, set,
  ltb, ◌==◌, if◌then◌else◌, add_word,
}
use concurrent_task_scheduli.Snapshot.{SchedulerSnapshot}
use concurrent_task_scheduli.Validation.{
  ValidationMode, live, Severity, informational, advisory, violation, incomplete, IssueRecord,
  ValidationResult,
}
use concurrent_task_scheduli.Names.{member, scheduler_validation_issue_name}

-- The first bytes of a buffer, and the others.
abbrev pub take : ℕ → List ℕ → List ℕ
take zero bs = []
take (suc n) [] = []
take (suc n) (b ∷ bs) = b ∷ take n bs

abbrev pub drop : ℕ → List ℕ → List ℕ
drop zero bs = bs
drop (suc n) [] = []
drop (suc n) (b ∷ bs) = drop n bs

abbrev severity_code : Severity → ℕ
severity_code informational = 1
severity_code advisory = 2
severity_code violation = 3
severity_code incomplete = 4

abbrev flag_code : Bool → ℕ
flag_code true = 1
flag_code false = 0

abbrev mode_name : ValidationMode → String
mode_name live = "LIVE"
mode_name m = "QUIESCENT"

abbrev pub int_max : ℕ
int_max = 2147483647

-- The arguments `buffer` and `buffer_size`: NULL with a size, or the bytes of a buffer of their number.
pub data Buffer : Type 0 where
  null : ℕ → Buffer
  bytes : List ℕ → Buffer

-- `print` is vsnprintf on a text: the bytes that it may write after the call, and the count that it
-- returns, `none` where it is negative. `head_text` and `issue_text` are what it makes of the two
-- formats: of the mode's name, the version, the counts and the two flags, and of an issue's name,
-- its severity and its two values.
module _ (print : List ℕ → List ℕ → List ℕ × Option ℕ)
    (head_text : String → ℕ → ℕ → ℕ → ℕ → ℕ → ℕ → List ℕ)
    (issue_text : String → ℕ → ℕ → ℕ → List ℕ) where
  -- The buffer and `required`.
  unfoldable pub append_format : List ℕ → List ℕ × ℕ → List ℕ × ℕ
  append_format text (buffer, required) =
      let offset = if ltb required (length buffer) then required else length buffer in
      let (area, count) = print text (drop offset buffer) in
      (take offset buffer ++ area, elim count [ none ↦ required | some n ↦ add_word required n ])

  abbrev pub head_of : ValidationResult → List ℕ
  head_of r =
      head_text (mode_name r.mode) r.snapshot_version r.issue_count r.violation_count
        r.advisory_count (flag_code r.validation_incomplete) (flag_code r.issues_truncated)

  abbrev pub text_of : IssueRecord → List ℕ
  text_of i =
      issue_text (scheduler_validation_issue_name (member i.issue)) (severity_code i.severity)
        i.observed i.expected

  -- The loop over the issues.
  unfoldable pub append_issues : ℕ → List IssueRecord → List ℕ × ℕ → List ℕ × ℕ
  append_issues zero is s = s
  append_issues (suc n) [] s = s
  append_issues (suc n) (i ∷ is) s = append_issues n is (append_format (text_of i) s)

  -- The whole text in a buffer, with its last byte, and `required`.
  abbrev pub format_into : ValidationResult → List ℕ → List ℕ × ℕ
  format_into r buffer =
      let (b, required) =
        append_issues r.issue_count r.issues (append_format (head_of r) (buffer, 0)) in
      (
        if length buffer == 0 then b else set b (length buffer - 1) 0,
        if ltb int_max required then int_max else required,
      )

  -- The result is `none` for -1.
  unfoldable pub scheduler_validation_format :
      Option SchedulerSnapshot → Option ValidationResult → Buffer → Option ℕ × Buffer
  unfolding append_issues
  scheduler_validation_format none result buffer = (none, buffer)
  scheduler_validation_format (some s) none buffer = (none, buffer)
  scheduler_validation_format (some s) (some r) (null (suc n)) = (none, null (suc n))
  scheduler_validation_format (some s) (some r) (null zero) = (some (format_into r []).1, null zero)
  scheduler_validation_format (some s) (some r) (bytes buffer) =
      let (b, n) = format_into r buffer in (some n, bytes b)
