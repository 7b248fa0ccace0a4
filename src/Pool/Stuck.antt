-- ===== src/Pool/Stuck.antt =====
-- Stop, and the worker that it joins.
use bigpipe_cpp.Base.{
  ℕ, ◌+◌, ◌≡◌, refl, sym, subst, ap, ◌∙◌, Bool, true, false, inl, inr, Bool-cases, List, [], ◌∷◌,
  Option, if◌then◌else◌, update, ℕ_discrete, All,
}
use mathlib.Core.Logic.{ite}
use bigpipe_cpp.Queue.Ring.{CircularBuffer, CircularBufferLaws}
use bigpipe_cpp.Queue.Monitor.{Pc, outside, call_take, enter, spurious}
use bigpipe_cpp.Queue.Monitor.Consumers.{takes}
use bigpipe_cpp.Pool.{
  Worker, testing, in_take, busy, Stopper, idle, in_loop, Pool, PoolEvent, loop_test, enter_section,
  wake_up, task_returns, put_task, call_stop, join, after_section, on_queue, test_running, finish,
  begin_stop, join_worker, has_exited, is_outside, step, run,
}
use bigpipe_cpp.Pool.Drained.{IsDrained, step-IsDrained}

either_way : {A : Type 0} (b : Bool) (a : A) → (if b then a else a) ≡ a
either_way true a = refl
either_way false a = refl

module _ {T : Type 0} where
  -- Any event but a call of PutTask.
  abbrev pub no_task : PoolEvent T → Bool
  no_task (put_task t) = false
  no_task _ = true

  after_section-in_take :
      (q : Worker) (p : Pc (Option T)) → q ≡ in_take → takes p ≡ true → after_section q p ≡ in_take
  after_section-in_take in_take outside e h = cc
  after_section-in_take _ _ e h = e

module _ {T B : Type 0} {r : CircularBuffer (Option T) B} (laws : CircularBufferLaws r)
    (j : ℕ) where
  -- Stop joins worker `j`, which is in take, on an empty queue with nobody in put.
  pub record IsStuck (p : Pool T B) : Type 0 where
    pub joining : p.stopper ≡ in_loop j
    pub taking : p.worker j ≡ in_take
    pub stalled : IsDrained laws (p.max_threads + 2) j p.queue

  moved_worker :
      (f : ℕ → Worker) (i : ℕ) (q : Worker)
      → (i ≡ j → q ≡ in_take)
      → f j ≡ in_take
      → update f i q j ≡ in_take
  moved_worker f i q h e = elim (ℕ_discrete i j) as (λ d. ite d q (f j) ≡ in_take) [
    | yes self ↦ h self
    | no other ↦ e
  ]

  test_running-IsStuck :
      (i : ℕ) (p : Pool T B) (q : Worker)
      → p.worker i ≡ q
      → IsStuck p
      → IsStuck (test_running r i p q)
  test_running-IsStuck i p testing e v = elim (Bool-cases p.is_running) [
    | inl on ↦ rw on (record {
      joining = v.joining;
      taking = moved_worker p.worker i in_take (λ self. refl) v.taking;
      stalled = step-IsDrained laws (p.max_threads + 2) j (call_take i) p.queue refl v.stalled;
    })
    | inr off ↦ rw off (record {
      joining = v.joining;
      taking = moved_worker p.worker i _ (λ self. let here = v.taking in cc) v.taking;
      stalled = v.stalled;
    })
  ]
  test_running-IsStuck i p _ e v = v

  finish-IsStuck :
      (i : ℕ) (p : Pool T B) (q : Worker) → p.worker i ≡ q → IsStuck p → IsStuck (finish r i p q)
  finish-IsStuck i p busy e v = record {
    joining = v.joining;
    taking = moved_worker p.worker i _ (λ self. let here = v.taking in cc) v.taking;
    stalled = v.stalled;
  }
  finish-IsStuck i p _ e v = v

  join_worker-waits :
      (p : Pool T B) (q : Stopper) → q ≡ in_loop j → p.worker j ≡ in_take → join_worker r p q ≡ p
  join_worker-waits p (in_loop k) e h =
      let same : k ≡ j = cc in
      let still : has_exited (p.worker k) ≡ false =
        ap (λ i. has_exited (p.worker i)) same ∙ ap has_exited h in
      rw still (either_way (is_outside (p.queue.pc (p.max_threads + 1))) p)
  join_worker-waits p _ e h = refl

  begin_stop-again : (p : Pool T B) (q : Stopper) → q ≡ in_loop j → begin_stop r p q ≡ p
  begin_stop-again p idle e = cc
  begin_stop-again p _ e = refl

  pub step-IsStuck :
      (e : PoolEvent T) (p : Pool T B) → no_task e ≡ true → IsStuck p → IsStuck (step r e p)
  unfolding step
  step-IsStuck (loop_test i) p h v = test_running-IsStuck i p (p.worker i) refl v
  step-IsStuck (enter_section i w) p h v =
      let q = step-IsDrained laws (p.max_threads + 2) j (enter i w) p.queue refl v.stalled in
      record {
        joining = v.joining;
        taking =
            moved_worker p.worker i _
              (λ self.
                after_section-in_take (p.worker i) _ (ap p.worker self ∙ v.taking)
                  (ap (λ k. takes ((on_queue r (enter i w) p).pc k)) self ∙ q.in_take))
              v.taking;
        stalled = q;
      }
  step-IsStuck (wake_up i) p h v = record {
    joining = v.joining;
    taking = v.taking;
    stalled = step-IsDrained laws (p.max_threads + 2) j (spurious i) p.queue refl v.stalled;
  }
  step-IsStuck (task_returns i) p h v = finish-IsStuck i p (p.worker i) refl v
  step-IsStuck (put_task t) p h v = cc
  step-IsStuck call_stop p h v = subst IsStuck (sym (begin_stop-again p p.stopper v.joining)) v
  step-IsStuck join p h v = subst IsStuck (sym (join_worker-waits p p.stopper v.joining v.taking)) v

  -- Where Stop joins a worker that is in take, on an empty queue with nobody in put, it never returns:
  -- whatever the workers do, and however often they wake up for no reason, it still joins the same
  -- worker, as long as nobody calls PutTask.
  pub run-IsStuck :
      (es : List (PoolEvent T)) (p : Pool T B)
      → All (λ e. no_task e ≡ true) es
      → IsStuck p
      → IsStuck (run r es p)
  unfolding run
  run-IsStuck [] p h v = v
  run-IsStuck (e ∷ es) p h v = run-IsStuck es (step r e p) h.1 (step-IsStuck e p h.0 v)
