-- ===== src/Scheduler/Start/Loops.antt =====
-- How the loops and the last part of `scheduler_start` of src/scheduler.c end.
use concurrent_task_scheduli.Base.{
  ℕ, zero, suc, ◌+◌, ◌≤◌, ◌<◌, ◌≡◌, ◌≢◌, refl, ◌∙◌, sym, Bool, true, false, none, List, [], ◌∷◌,
  arith, if◌then◌else◌, word_mod, ◌||◌, not, ltb, not_ltb→le,
}
use mathlib.Core.Path.{subst}
use concurrent_task_scheduli.Sync.{has_failed}
use concurrent_task_scheduli.Fault.{worker_creation}
use concurrent_task_scheduli.Scheduler.{initialized, starting}
use concurrent_task_scheduli.Scheduler.Shutdown.{put_state, start_gate}
use concurrent_task_scheduli.Scheduler.Crew.{note_created}
use concurrent_task_scheduli.Scheduler.Engine.{Engine, during, goes, ◌>>◌, asks_fault}
use concurrent_task_scheduli.Scheduler.Start.Ending.{
  Ends, passes, stays, succeeds, Ends-next, Ends-if, Starting, Spawned, IsFresh, during-Starting,
  during-Spawned, asks_fault-Spawned, Spawned-Manned, during-threads, during-contexts,
}
use concurrent_task_scheduli.Scheduler.Start.{
  StartAnswers, ReadyPause, give_up, pass_gate, allocate, set_up_sync, spawn_one, spawn_from,
  ready_loop, await_ready, go_running, start_steps,
}
use concurrent_task_scheduli.Scheduler.Start.Blocks.{
  starting-ne-running, give_up-Undone, give_up-Starting, allocate-Starting, set_up_sync-Spawned,
}

true-ne-false : true ≢ false
true-ne-false e = cc

not-true : {c : Bool} → not c ≡ true → c ≡ false
not-true h = ground (arith, h)

module _ (b : Bool) (a : StartAnswers) (sets : has_failed a.state_lock ≡ false) where
  spawn_one-Spawned :
      {w : Engine} (i : ℕ) (e : Engine)
      → suc i < word_mod
      → Spawned w i e
      → Ends a w (Spawned w (suc i)) (spawn_one b a i e)
  unfolding spawn_one note_created
  spawn_one-Spawned i e lt s =
      let (f, e1) = asks_fault b worker_creation e in
      let s1 = asks_fault-Spawned b worker_creation e s in
      Ends-if (has_failed (a.spawn i).lock) (λ h. give_up-Starting b a sets e s.base)
        (λ h.
          Ends-if (f || has_failed (a.spawn i).create)
            (λ k.
              give_up-Undone b a sets _
                (λ c. (λ g. starting-ne-running (sym s1.base.state ∙ g), s1.base.active)))
            (λ k.
              Ends-if (has_failed (a.spawn i).unlock)
                (λ u.
                  give_up-Undone b a sets _
                    (λ c. (λ g. starting-ne-running (sym s1.base.state ∙ g), s1.base.active)))
                (λ u. passes (
                  during-Spawned _ _ (record {
                    base = record {
                      state = s1.base.state;
                      workers = s1.base.workers;
                      active = s1.base.active;
                      created = omega (arith, s1.base.created, lt);
                      started = omega (arith, s1.base.started, lt);
                    };
                    set_up = s1.set_up;
                  })))))

  spawn_from-Spawned :
      {w : Engine} (k i : ℕ) (e : Engine)
      → w.worker_count < word_mod
      → i + k ≡ w.worker_count
      → Spawned w i e
      → Ends a w (Spawned w w.worker_count) (spawn_from b a k i e)
  unfolding spawn_from
  spawn_from-Spawned {w} zero i e lt h s =
      let same : i ≡ w.worker_count = omega (arith, h) in passes (subst (λ m. Spawned w m e) same s)
  spawn_from-Spawned (suc k) i e lt h s =
      Ends-next (spawn_from b a k (suc i)) (spawn_one-Spawned i e (omega (arith, lt, h)) s)
        (λ e' s'. spawn_from-Spawned k (suc i) e' lt (omega (arith, h)) s')

  ready_loop-Spawned :
      {w : Engine} (ps : List ReadyPause) (e : Engine)
      → Spawned w w.worker_count e
      → Ends a w
          (λ e'. Spawned w w.worker_count e' × (w.worker_count ≤ e'.crew.ready_worker_count))
          (ready_loop b a ps e)
  unfolding ready_loop
  ready_loop-Spawned [] e s =
      Ends-if (ltb e.crew.ready_worker_count e.worker_count)
        (λ h. stays s.base.state (Spawned-Manned s))
        (λ h. passes (s, rw (← s.base.workers) (not_ltb→le h)))
  ready_loop-Spawned (p ∷ ps) e s =
      Ends-if (not (ltb e.crew.ready_worker_count e.worker_count))
        (λ h. passes (s, rw (← s.base.workers) (not_ltb→le (not-true h))))
        (λ h.
          Ends-if (has_failed p.waited)
            (λ w. give_up-Starting b a sets (during p.others e) (during-Spawned p.others e s).base)
            (λ w. ready_loop-Spawned ps (during p.others e) (during-Spawned p.others e s)))

  await_ready-Spawned :
      {w : Engine} (e : Engine)
      → Spawned w w.worker_count e
      → Ends a w
          (λ e'. Spawned w w.worker_count e' × (w.worker_count ≤ e'.crew.ready_worker_count))
          (await_ready b a e)
  unfolding await_ready
  await_ready-Spawned e s =
      Ends-if (has_failed a.ready_lock) (λ h. give_up-Starting b a sets e s.base)
        (λ h.
          Ends-next (λ e'. if has_failed a.ready_unlock then give_up b a e' else goes e')
            (ready_loop-Spawned a.pauses e s)
            (λ e' s'.
              Ends-if (has_failed a.ready_unlock) (λ u. give_up-Starting b a sets e' s'.0.base)
                (λ u. passes s')))

  go_running-Ends :
      {w : Engine} {P : Engine → Type 0} (e : Engine)
      → Spawned w w.worker_count e
      → w.worker_count ≤ e.crew.ready_worker_count
      → Ends a w P (go_running b a e)
  unfolding go_running
  go_running-Ends e s r =
      Ends-if (has_failed a.run_lock) (λ h. give_up-Starting b a sets e s.base)
        (λ h.
          Ends-if (has_failed a.run_unlock)
            (λ u. give_up-Undone b a sets _ (λ c. absurd (true-ne-false (sym u ∙ c.unlock))))
            (λ u.
              succeeds refl
                (record { created = s.base.created; started = s.base.started; set_up = s.set_up })
                r))

  -- A scheduler that has never been started.
  pass_gate_goes :
      (e : Engine)
      → has_failed a.lock ≡ false
      → has_failed a.unlock ≡ false
      → e.lifecycle.state ≡ initialized
      → pass_gate b a e
        ≡ goes (during a.meanwhile (record e { lifecycle = put_state starting e.lifecycle }))
  unfolding pass_gate start_gate
  pass_gate_goes e l u up = ground (arith, l, u, up)

  pass_gate-Starting :
      (e : Engine)
      → has_failed a.lock ≡ false
      → has_failed a.unlock ≡ false
      → IsFresh e
      → Ends a e
          (λ e'. Starting e 0 e' × (e'.threads ≡ none) × (e'.worker_contexts ≡ none))
          (pass_gate b a e)
  pass_gate-Starting e l u f =
      let passed = record e { lifecycle = put_state starting e.lifecycle } in
      rw (pass_gate_goes e l u f.state) (
        passes (
          during-Starting a.meanwhile passed (record {
            state = refl;
            workers = refl;
            active = refl;
            created = f.created;
            started = f.started;
          }),
          during-threads a.meanwhile passed ∙ f.threads,
          during-contexts a.meanwhile passed f.contexts,
        ))

  pub start_steps-Ends :
      (e : Engine)
      → has_failed a.lock ≡ false
      → has_failed a.unlock ≡ false
      → IsFresh e
      → Ends a e (λ e'. ⊥) (start_steps b a e)
  unfolding start_steps
  start_steps-Ends e l u f =
      let n = e.worker_count in
      let run = λ (x : Engine). go_running b a x in
      let ready = λ (x : Engine). (await_ready b a >> run) x in
      let spawn = λ (x : Engine). (spawn_from b a n 0 >> ready) x in
      let sync = λ (x : Engine). (set_up_sync b a >> spawn) x in
      Ends-next (allocate b a >> sync) (pass_gate-Starting e l u f) (λ e1 (s1, t1, c1).
        Ends-next sync (allocate-Starting b a sets e e1 s1 t1 c1) (λ e2 (s2, lt).
          Ends-next spawn (set_up_sync-Spawned b a sets e2 s2) (λ e3 s3.
            Ends-next ready (spawn_from-Spawned n 0 e3 lt (omega arith) s3) (λ e4 s4.
              Ends-next run (await_ready-Spawned e4 s4)
                (λ e5 (s5, r5). go_running-Ends e5 s5 r5)))))
