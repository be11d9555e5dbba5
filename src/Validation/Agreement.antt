-- ===== src/Validation/Agreement.antt =====
-- The two ways in which the code checks a snapshot agree: src/scheduler_validation.c, which lists what
-- is wrong, and the plain checks of src/scheduler.c.
use concurrent_task_scheduli.Base.{
  ℕ, ◌+◌, ◌<◌, ◌≡◌, refl, false, List, [], ◌∷◌, ◌++◌, ltb, arith, word_mod, Bool-cases, inl, inr,
}
use concurrent_task_scheduli.Snapshot.{SchedulerSnapshot}
use concurrent_task_scheduli.Validation.{violation, Check, add_exceeds}
use concurrent_task_scheduli.Validation.Report.{failures, count, is_violation}

-- The counters of a snapshot are 64-bit numbers.
pub record Fits (s : SchedulerSnapshot) : Type 0 where
  pub submitted : s.submitted_count < word_mod
  pub accepted : s.accepted_count < word_mod
  pub rejected : s.rejected_count < word_mod
  pub started : s.callback_started_count < word_mod
  pub succeeded : s.callback_succeeded_count < word_mod
  pub failed : s.callback_failed_count < word_mod
  pub created : s.created_worker_count < word_mod

-- `add_exceeds` compares with the true sum, although it never forms it.
pub add_exceeds_lem :
    (left right limit : ℕ)
    → limit < word_mod
    → add_exceeds left right limit ≡ ltb limit (left + right)
unfolding add_exceeds
add_exceeds_lem left right limit h = ground arith

-- Every check of a list passes.
abbrev pub AllPass : List Check → Type 0
AllPass [] = Unit {0}
AllPass (c ∷ cs) = (c.fails ≡ false) × AllPass cs

-- Every check of a list is a violation, if it fails.
abbrev pub AllViolations : List Check → Type 0
AllViolations [] = Unit {0}
AllViolations (c ∷ cs) = (c.found.severity ≡ violation) × AllViolations cs

abbrev pub violations : List Check → ℕ
violations cs = count is_violation (failures cs)

pub violations-append : (cs ds : List Check) → violations (cs ++ ds) ≡ violations cs + violations ds
unfolding count failures
violations-append [] ds = omega arith
violations-append (c ∷ cs) ds = ground (arith, violations-append cs ds)

pub no_violations-AllPass : (cs : List Check) → AllViolations cs → violations cs ≡ 0 → AllPass cs
unfolding count failures
no_violations-AllPass [] v e = tt
no_violations-AllPass (c ∷ cs) v e = elim (Bool-cases c.fails) [
  | inl bad ↦ absurd (ground (arith, v))
  | inr good ↦ (good, no_violations-AllPass cs v.1 (ground (arith, good, e)))
]

pub AllPass-no_violations : (cs : List Check) → AllPass cs → violations cs ≡ 0
unfolding count failures
AllPass-no_violations [] p = refl
AllPass-no_violations (c ∷ cs) p = ground (arith, p, AllPass-no_violations cs p.1)
