-- ===== src/Scheduler/Release/Added.antt =====
-- `release_workers` of src/scheduler.c adds up the slots without loss.
use concurrent_task_scheduli.Base.{
  ap, sym, ℕ, zero, suc, ◌+◌, ◌<◌, ◌≡◌, Bool, false, some, List, [], ◌∷◌, arith, word_mod,
}
use mathlib.Core.Path.{subst}
use concurrent_task_scheduli.Scheduler.Crew.{note_released}
use concurrent_task_scheduli.Scheduler.Worker.{WorkerContext, add_saturating}
use concurrent_task_scheduli.Scheduler.Engine.{Engine, Sums}
use concurrent_task_scheduli.Scheduler.Release.{add_slot, add_slots, slots_of, settle_workers}

-- The sum of a counter over the first `n` slots.
unfoldable pub total : (WorkerContext → ℕ) → ℕ → List WorkerContext → ℕ
total f zero cs = 0
total f (suc n) [] = 0
total f (suc n) (c ∷ cs) = f c + total f n cs

-- The slots' counters are 64-bit words.
pub data Words : List WorkerContext → Type 0 where
  no_slot : Words []
  one_slot :
      {c : WorkerContext} {cs : List WorkerContext}
      → c.dequeued_count < word_mod
      → c.callback_started_count < word_mod
      → c.callback_succeeded_count < word_mod
      → c.callback_failed_count < word_mod
      → Words cs
      → Words (c ∷ cs)

pub record Small (s : Sums) : Type 0 where
  pub dequeued : s.dequeued_count < word_mod
  pub started : s.callback_started_count < word_mod
  pub succeeded : s.successful_callback_count < word_mod
  pub failed : s.failed_callback_count < word_mod

-- `s'` is `s` with the first `n` slots added.
pub record Added (n : ℕ) (cs : List WorkerContext) (s s' : Sums) : Type 0 where
  pub dequeued : s'.dequeued_count ≡ s.dequeued_count + total (λ c. c.dequeued_count) n cs
  pub started :
      s'.callback_started_count
      ≡ s.callback_started_count + total (λ c. c.callback_started_count) n cs
  pub succeeded :
      s'.successful_callback_count
      ≡ s.successful_callback_count + total (λ c. c.callback_succeeded_count) n cs
  pub failed :
      s'.failed_callback_count ≡ s.failed_callback_count + total (λ c. c.callback_failed_count) n cs

pub add_slots-calm :
    (n : ℕ) (cs : List WorkerContext) (s : Sums) (o : Bool)
    → (add_slots n cs (s, o)).1 ≡ false
    → o ≡ false
unfolding add_slots add_slot add_saturating
add_slots-calm zero cs s o h = h
add_slots-calm (suc n) [] s o h = h
add_slots-calm (suc n) (c ∷ cs) s o h =
    let next = add_slot c (s, o) in let k = add_slots-calm n cs next.0 next.1 h in ground (arith, k)

-- One slot, where nothing overflows.
add_slot-Added :
    (c : WorkerContext) (s : Sums) (o : Bool)
    → Small s
    → c.dequeued_count < word_mod
    → c.callback_started_count < word_mod
    → c.callback_succeeded_count < word_mod
    → c.callback_failed_count < word_mod
    → (add_slot c (s, o)).1 ≡ false
    → Small (add_slot c (s, o)).0 × Added 1 (c ∷ []) s (add_slot c (s, o)).0
unfolding add_slot add_saturating total
add_slot-Added c s o m h1 h2 h3 h4 e = ground (arith, m)

add_slots-Added :
    (n : ℕ) {cs : List WorkerContext} (s : Sums) (o : Bool)
    → Words cs
    → Small s
    → (add_slots n cs (s, o)).1 ≡ false
    → Added n cs s (add_slots n cs (s, o)).0
unfolding add_slots total
add_slots-Added zero s o w m h = omega arith
add_slots-Added (suc n) s o no_slot m h = omega arith
add_slots-Added (suc n) s o (one_slot {c = c} {cs = cs} h1 h2 h3 h4 w) m h =
    let next = add_slot c (s, o) in
    let k = add_slots-calm n cs next.0 next.1 h in
    let (m', first) = add_slot-Added c s o m h1 h2 h3 h4 k in
    let rest = add_slots-Added n next.0 next.1 w m' h in omega (arith, first, rest)

-- The last part of `release_workers`, on slots and sums that are 64-bit words: where no overflow is
-- flagged after it, each of the scheduler's four sums has grown by exactly what the slots of the started
-- workers hold.
pub settle_workers-Added :
    (e : Engine) {cs : List WorkerContext}
    → e.worker_contexts ≡ some cs
    → Words cs
    → Small e.sums
    → (settle_workers e).crew.worker_accounting_overflow ≡ false
    → Added e.crew.started_worker_count cs e.sums (settle_workers e).sums
unfolding settle_workers note_released
settle_workers-Added e {cs} h w m calm =
    let n = e.crew.started_worker_count in
    let o = e.crew.worker_accounting_overflow in
    let same = ap slots_of h in
    let quiet = subst (λ xs. (add_slots n xs (e.sums, o)).1 ≡ false) same calm in
    subst (λ xs. Added n cs e.sums (add_slots n xs (e.sums, o)).0) (sym same)
      (add_slots-Added n e.sums o w m quiet)
