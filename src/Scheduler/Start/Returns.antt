-- ===== src/Scheduler/Start/Returns.antt =====
-- When the wait of `scheduler_start` in src/scheduler.c ends.
use concurrent_task_scheduli.Base.{
  ℕ, zero, suc, ◌+◌, ◌<◌, ◌≡◌, ◌≢◌, refl, Bool, true, false, none, some, List, [], ◌∷◌, arith, ◌==◌,
  ◌&&◌, word_mod,
}
use concurrent_task_scheduli.Fault.{worker_creation}
use concurrent_task_scheduli.Scheduler.Shutdown.{start_gate}
use concurrent_task_scheduli.Scheduler.{increment_saturating}
use concurrent_task_scheduli.Scheduler.Crew.{
  Crew, WorkerResult, note_created, note_ready, note_exit, note_failure,
}
use concurrent_task_scheduli.Scheduler.Engine.{
  Engine, Meanwhile, during, Outcome, goes, waits, ends, Steps, ◌>>◌, asks_fault,
}
use concurrent_task_scheduli.Scheduler.Start.{
  StartAnswers, ReadyPause, back_to, give_up, pass_gate, allocate, set_up_sync, set_thread,
  spawn_one, spawn_from, ready_loop, await_ready, go_running, start_steps, scheduler_start,
}

-- A locked part of a worker: it gets ready, or it exits with a result.
pub data Stir : Type 0 where
  gets_ready : Stir
  exits : WorkerResult → Stir

unfoldable pub stirred : List Stir → Crew → Crew
stirred [] c = c
stirred (gets_ready ∷ ss) c = stirred ss (note_ready c)
stirred (exits r ∷ ss) c = stirred ss (note_exit r c).1

abbrev pub readied : List Stir → ℕ
readied [] = 0
readied (gets_ready ∷ ss) = suc (readied ss)
readied (exits r ∷ ss) = readied ss

-- Waits in which `n` workers get ready, any number of them in one wait.
pub data Readies : ℕ → List ReadyPause → Type 0 where
  no_wait : Readies zero []
  in_wait :
      {n : ℕ} {p : ReadyPause} {ps : List ReadyPause} (ss : List Stir)
      → ((c : Crew) → p.others.crew c ≡ stirred ss c)
      → Readies n ps
      → Readies (readied ss + n) (p ∷ ps)

-- How many get ready after the creations of `n` workers from the index `i` on.
abbrev pub readied_between : (ℕ → List Stir) → ℕ → ℕ → ℕ
readied_between between zero i = 0
readied_between between (suc n) i = readied (between i) + readied_between between n (suc i)

-- What the workers do to the crew while a scheduler of `n` workers is started: `between` after each
-- creation, and the rest, which is `k` workers getting ready, during the waits. Before the creations
-- there are none.
pub record Stirs (a : StartAnswers) (between : ℕ → List Stir) (k : ℕ) : Type 0 where
  pub before : (c : Crew) → a.meanwhile.crew c ≡ c
  pub created : (i : ℕ) (c : Crew) → (a.spawn i).meanwhile.crew c ≡ stirred (between i) c
  pub waiting : Readies k a.pauses

stirred-ready :
    (ss : List Stir) (c : Crew)
    → c.ready_worker_count + readied ss < word_mod
    → (stirred ss c).ready_worker_count ≡ c.ready_worker_count + readied ss
unfolding stirred note_ready note_exit note_failure increment_saturating
stirred-ready [] c lt = omega arith
stirred-ready (gets_ready ∷ ss) c lt =
    let one : (note_ready c).ready_worker_count ≡ c.ready_worker_count + 1 = omega (arith, lt) in
    let rest = stirred-ready ss (note_ready c) (omega (arith, lt, one)) in omega (arith, rest, one)
stirred-ready (exits r ∷ ss) c lt =
    let same : (note_exit r c).1.ready_worker_count ≡ c.ready_worker_count = ground arith in
    let rest = stirred-ready ss (note_exit r c).1 (omega (arith, lt, same)) in
    omega (arith, rest, same)

-- Whether steps of a start have not waited, and where they go on, the scheduler has `n` workers, of which all
-- but `k` are ready.
abbrev moves : ℕ → ℕ → Outcome → Bool
moves n k (goes e) = e.worker_count == n && e.crew.ready_worker_count + k == n
moves n k (waits e) = false
moves n k (ends r e) = true

-- Whether a call has come to its end.
abbrev has_ended : Outcome → Bool
has_ended (goes e) = false
has_ended (waits e) = false
has_ended (ends r e) = true

-- Whether steps have not waited.
abbrev goes_on : Outcome → Bool
goes_on (goes e) = true
goes_on (waits e) = false
goes_on (ends r e) = true

-- What `moves` says of where the steps go on.
record Has (n k : ℕ) (e : Engine) : Type 0 where
  workers : e.worker_count ≡ n
  ready : e.crew.ready_worker_count + k ≡ n

moves-next :
    (n k l : ℕ) (f : Steps) (o : Outcome)
    → moves n k o ≡ true
    → ((e : Engine) → Has n k e → moves n l (f e) ≡ true)
    → moves n l (elim o [ goes e ↦ f e | waits e ↦ waits e | ends r e ↦ ends r e ]) ≡ true
moves-next n k l f (goes e) h g = g e (ground (arith, h))
moves-next n k l f (waits e) h g = h
moves-next n k l f (ends r e) h g = refl

during-Has :
    (n k : ℕ) (m : Meanwhile) (ss : List Stir) (e : Engine)
    → n < word_mod
    → ((c : Crew) → m.crew c ≡ stirred ss c)
    → Has n (readied ss + k) e
    → Has n k (during m e)
unfolding during
during-Has n k m ss e lt same h =
    let more = stirred-ready ss e.crew (omega (arith, lt, h.ready)) in
    let ready : (m.crew e.crew).ready_worker_count ≡ e.crew.ready_worker_count + readied ss =
      rw (same e.crew) more in
    record { workers = h.workers; ready = omega (arith, h.ready, ready) }

asks_fault-Has :
    (b : Bool) {n k : ℕ} (e : Engine) → Has n k e → Has n k (asks_fault b worker_creation e).1
unfolding asks_fault
asks_fault-Has b e h = ground (arith, h)

module _ (b : Bool) (a : StartAnswers) (n k : ℕ) (e : Engine) (h : Has n k e) where
  moves-pass_gate : ((c : Crew) → a.meanwhile.crew c ≡ c) → moves n k (pass_gate b a e) ≡ true
  unfolding pass_gate start_gate during
  moves-pass_gate same =
      let ready : (a.meanwhile.crew e.crew).ready_worker_count ≡ e.crew.ready_worker_count =
        rw (same e.crew) refl in
      ground (arith, h, ready)

  moves-allocate : moves n k (allocate b a e) ≡ true
  unfolding allocate asks_fault back_to
  moves-allocate = ground (arith, h)

  moves-set_up_sync : moves n k (set_up_sync b a e) ≡ true
  unfolding set_up_sync back_to give_up
  moves-set_up_sync = ground (arith, h)

go_running-has_ended :
    (b : Bool) (a : StartAnswers) (e : Engine) → has_ended (go_running b a e) ≡ true
unfolding go_running give_up back_to
go_running-has_ended b a e = ground arith

module _ (b : Bool) (a : StartAnswers) (n : ℕ) (lt : n < word_mod) where
  moves-spawn_one :
      (k i : ℕ) (ss : List Stir) (e : Engine)
      → ((c : Crew) → (a.spawn i).meanwhile.crew c ≡ stirred ss c)
      → Has n (readied ss + k) e
      → moves n k (spawn_one b a i e) ≡ true
  unfolding spawn_one give_up back_to note_created
  moves-spawn_one k i ss e same h =
      let e1 = (asks_fault b worker_creation e).1 in
      let h1 = asks_fault-Has b e h in
      let made = record e1 { threads = set_thread b a i e1.threads; crew = note_created e1.crew } in
      let m = (a.spawn i).meanwhile in
      let done =
        during-Has n k m ss made lt same (record { workers = h1.workers; ready = h1.ready }) in
      let goes_well : moves n k (goes (during m made)) ≡ true = ground (arith, done) in
      ground (arith, goes_well)

  moves-spawn_from :
      (between : ℕ → List Stir) (k m i : ℕ) (e : Engine)
      → ((i : ℕ) (c : Crew) → (a.spawn i).meanwhile.crew c ≡ stirred (between i) c)
      → Has n (readied_between between m i + k) e
      → moves n k (spawn_from b a m i e) ≡ true
  unfolding spawn_from
  moves-spawn_from between k zero i e same h = ground (arith, h)
  moves-spawn_from between k (suc m) i e same h =
      let l = readied_between between m (suc i) + k in
      moves-next n l k (spawn_from b a m (suc i)) (spawn_one b a i e)
        (moves-spawn_one l i (between i) e (same i)
          (record { workers = h.workers; ready = omega (arith, h.ready) }))
        (λ e' h'. moves-spawn_from between k m (suc i) e' same h')

  -- Where the loop goes on, all workers are ready.
  moves-ready_loop :
      {k : ℕ} {ps : List ReadyPause} (e : Engine)
      → Has n k e
      → Readies k ps
      → goes_on (ready_loop b a ps e) ≡ true
  unfolding ready_loop give_up back_to
  moves-ready_loop {ps = []} e h no_wait = ground (arith, h)
  moves-ready_loop {ps = p ∷ ps} e h (in_wait {n = k} ss same r) =
      let rest = moves-ready_loop (during p.others e) (during-Has n k p.others ss e lt same h) r in
      ground (arith, rest)

  moves-await_ready :
      {k : ℕ} (e : Engine) → Has n k e → Readies k a.pauses → goes_on (await_ready b a e) ≡ true
  unfolding await_ready give_up back_to
  moves-await_ready e h r = let g = moves-ready_loop e h r in ground (arith, g)

ended-next :
    (n k : ℕ) (f : Steps) (o : Outcome)
    → moves n k o ≡ true
    → ((e : Engine) → Has n k e → has_ended (f e) ≡ true)
    → has_ended (elim o [ goes e ↦ f e | waits e ↦ waits e | ends r e ↦ ends r e ]) ≡ true
ended-next n k f (goes e) h g = g e (ground (arith, h))
ended-next n k f (waits e) h g = cc
ended-next n k f (ends r e) h g = refl

ended-last :
    (f : Steps) (o : Outcome)
    → goes_on o ≡ true
    → ((e : Engine) → has_ended (f e) ≡ true)
    → has_ended (elim o [ goes e ↦ f e | waits e ↦ waits e | ends r e ↦ ends r e ]) ≡ true
ended-last f (goes e) h g = g e
ended-last f (waits e) h g = cc
ended-last f (ends r e) h g = refl

start_steps-has_ended :
    (b : Bool) (a : StartAnswers) (e : Engine) (between : ℕ → List Stir) (k : ℕ)
    → e.worker_count < word_mod
    → e.crew.ready_worker_count + (readied_between between e.worker_count 0 + k) ≡ e.worker_count
    → Stirs a between k
    → has_ended (start_steps b a e) ≡ true
unfolding start_steps
start_steps-has_ended b a e between k lt total s =
    let n = e.worker_count in
    let l = readied_between between n 0 + k in
    let run = λ (x : Engine). go_running b a x in
    let ready = λ (x : Engine). (await_ready b a >> run) x in
    let spawn = λ (x : Engine). (spawn_from b a n 0 >> ready) x in
    let sync = λ (x : Engine). (set_up_sync b a >> spawn) x in
    let h0 : Has n l e = record { workers = refl; ready = total } in
    ended-next n l (allocate b a >> sync) (pass_gate b a e) (moves-pass_gate b a n l e h0 s.before)
      (λ e1 h1. ended-next n l sync (allocate b a e1) (moves-allocate b a n l e1 h1) (λ e2 h2.
        ended-next n l spawn (set_up_sync b a e2) (moves-set_up_sync b a n l e2 h2) (λ e3 h3.
          ended-next n k ready (spawn_from b a n 0 e3)
            (moves-spawn_from b a n lt between k n 0 e3 s.created h3)
            (λ e4 h4.
              ended-last run (await_ready b a e4) (moves-await_ready b a n lt e4 h4 s.waiting)
                (λ e5. go_running-has_ended b a e5)))))

-- Where in the course of a start of fewer than 2 ^ 64 workers, after the creations and during its waits,
-- exactly those workers get ready that are not yet, any number of them at a time, while some may exit, the
-- start ends with a result, whatever its calls answer and whatever the state. The workers get ready and
-- exit by the locked parts of the code, and nothing else happens to the crew.
pub start_returns :
    (b : Bool) (a : StartAnswers) (e : Engine) (between : ℕ → List Stir) (k : ℕ)
    → e.worker_count < word_mod
    → e.crew.ready_worker_count + (readied_between between e.worker_count 0 + k) ≡ e.worker_count
    → Stirs a between k
    → (scheduler_start b a (some (some e))).0 ≢ none
unfolding scheduler_start
start_returns b a e between k lt total s =
    let ended = start_steps-has_ended b a e between k lt total s in ground (arith, ended)
