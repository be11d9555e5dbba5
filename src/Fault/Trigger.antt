-- ===== src/Fault/Trigger.antt =====
-- When a plan of src/scheduler_fault_injection.c triggers.
use concurrent_task_scheduli.Base.{
  ℕ, ◌-◌, ◌<◌, ◌≡◌, ◌∙◌, refl, Bool, true, false, Option, none, some, List, [], ◌∷◌, map, arith,
  ◌==◌, if◌then◌else◌, word_mod, ◌⊎◌, ap, Bool-cases, inl, inr, add_word,
}
use concurrent_task_scheduli.Fault.{
  FaultPoint, allocation, worker_creation, worker_join, is_point, FaultPlan,
  scheduler_fault_plan_configure, scheduler_fault_should_trigger, scheduler_fault_plan_reset,
  scheduler_fault_plan_init,
}

-- The answers to a series of questions, and whether a plan is NULL.
unfoldable pub ask_all : Option FaultPlan → List FaultPoint → List Bool
ask_all plan [] = []
ask_all plan (p ∷ ps) =
    let (answer, plan') = scheduler_fault_should_trigger plan p in answer ∷ ask_all plan' ps

-- `true` at the `k`-th question about `point`, and `false` elsewhere.
unfoldable pub fires_at : FaultPoint → ℕ → List FaultPoint → List Bool
fires_at point k [] = []
fires_at point k (p ∷ ps) =
    if is_point point p then (k == 1) ∷ fires_at point (k - 1) ps else false ∷ fires_at point k ps

-- A question that is not answered by yes any more.
never : List FaultPoint → List Bool
never [] = []
never (p ∷ ps) = false ∷ never ps

fires_at-zero : (point : FaultPoint) (ps : List FaultPoint) → fires_at point 0 ps ≡ never ps
unfolding fires_at never
fires_at-zero point [] = refl
fires_at-zero point (p ∷ ps) = ground (arith, fires_at-zero point ps)

ask_all_done :
    (plan : FaultPlan) (ps : List FaultPoint)
    → plan.triggered ≡ true
    → ask_all (some plan) ps ≡ never ps
unfolding ask_all never scheduler_fault_should_trigger
ask_all_done plan [] e = refl
ask_all_done plan (p ∷ ps) e = ground (arith, ask_all_done plan ps)

ask_all-fires_at :
    (ps : List FaultPoint) (plan : FaultPlan)
    → plan.enabled ≡ true
    → plan.triggered ≡ false
    → plan.observed_occurrence < plan.trigger_occurrence
    → plan.trigger_occurrence < word_mod
    → ask_all (some plan) ps
      ≡ fires_at plan.point (plan.trigger_occurrence - plan.observed_occurrence) ps
unfolding ask_all fires_at scheduler_fault_should_trigger
ask_all-fires_at [] plan on off lt w = refl
ask_all-fires_at (p ∷ ps) plan on off lt w = elim (Bool-cases (is_point plan.point p)) [
  | inr other ↦ ground (arith, ask_all-fires_at ps plan on off lt w)
  | inl same ↦ elim (Bool-cases (add_word observed 1 == plan.trigger_occurrence)) [
    | inl now ↦ ground (
      arith,
      ask_all_done (record plan { observed_occurrence = add_word observed 1; triggered = true }) ps,
      fires_at-zero plan.point ps,
    )
    | inr later ↦ ground (
      arith,
      ask_all-fires_at ps (record plan { observed_occurrence = add_word observed 1 }) on off
          (ground arith) w,
      gap,
    )
  ]
]
  where
    observed : ℕ
    observed = plan.observed_occurrence

    gap : plan.trigger_occurrence - add_word observed 1 ≡ plan.trigger_occurrence - observed - 1
    gap = omega arith

from_start : (k : ℕ) → k - 0 ≡ k
from_start k = omega arith

-- A plan that has been configured with a supported point and an occurrence `k` from 1 on (a 64-bit
-- number) answers yes to the `k`-th question about that point, and no to every other question.
pub configured_plan_fires :
    (plan : FaultPlan) (point : FaultPoint) (k : ℕ)
    → (point ≡ allocation) ⊎ (point ≡ worker_creation) ⊎ (point ≡ worker_join)
    → 0 < k
    → k < word_mod
    → (plan' : FaultPlan) × (scheduler_fault_plan_configure (some plan) point k
        ≡ (true, some plan'))
      × ((ps : List FaultPoint) → ask_all (some plan') ps ≡ fires_at point k ps)
unfolding scheduler_fault_plan_configure
configured_plan_fires plan point k supported pos small =
    let plan' : FaultPlan = record {
      point = point;
      trigger_occurrence = k;
      observed_occurrence = 0;
      enabled = true;
      triggered = false;
      occurrence_overflow = false;
    } in
    (
      plan',
      ground arith,
      λ ps.
          ask_all-fires_at ps plan' refl refl pos small
          ∙ ap (λ n. fires_at point n ps) (from_start k),
    )

-- Nothing triggers on a plan that is NULL, has just been set up, or has been reset.
idle_plan_silent :
    (plan : FaultPlan) (ps : List FaultPoint)
    → (ask_all none ps ≡ map (λ p. false) ps)
      × (ask_all (scheduler_fault_plan_init (some plan)) ps ≡ map (λ p. false) ps)
      × (ask_all (scheduler_fault_plan_reset (some plan)) ps ≡ map (λ p. false) ps)
unfolding ask_all scheduler_fault_should_trigger scheduler_fault_plan_init
    scheduler_fault_plan_reset
idle_plan_silent plan [] = (refl, refl, refl)
idle_plan_silent plan (p ∷ ps) =
    let (a, b, c) = idle_plan_silent plan ps in
    (ap (λ l. false ∷ l) a, ap (λ l. false ∷ l) b, ap (λ l. false ∷ l) c)
