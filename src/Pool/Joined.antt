-- ===== src/Pool/Joined.antt =====
-- What has become of the workers once Stop has returned.
use bigpipe_cpp.Base.{
  ℕ, suc, ◌+◌, ◌<◌, ◌≡◌, refl, ap, ◌∙◌, inl, inr, false, Bool-cases, ltb, List, [], ◌∷◌, arith,
  Option, some,
}
use bigpipe_cpp.Queue.Ring.{CircularBuffer}
use bigpipe_cpp.Queue.Monitor.Consumers.{takes}
use bigpipe_cpp.Queue.Monitor.Roles.{enter-IsSame, spurious-IsSame, call_put-IsSame}
use bigpipe_cpp.Pool.{
  Worker, testing, busy, exited, Stopper, idle, in_loop, stopped, Pool, PoolEvent, loop_test,
  enter_section, wake_up, task_returns, put_task, call_stop, join, new_pool, start, test_running,
  finish, begin_stop, join_worker, step, run,
}
use bigpipe_cpp.Pool.Tidy.{is_joined, IsTidy, step-IsTidy, run-IsTidy, start-IsTidy}

module _ {T B : Type 0} (r : CircularBuffer (Option T) B) (size : ℕ) where
  -- Once Stop has returned nobody is in take.
  left_take :
      (p : Pool T B) (i : ℕ) → p.stopper ≡ stopped → IsTidy r size p → takes (p.queue.pc i) ≡ false
  left_take p i e v = elim (Bool-cases (takes (p.queue.pc i))) [
    | inl inside_take ↦
        let role = v.role i inside_take in
        elim (Bool-cases (ltb i p.max_threads)) [
          | inl inside ↦
              let gone = v.gone i (ap (λ s. is_joined p.max_threads s i) e ∙ inside) in cc
          | inr beyond ↦ let young = v.few i beyond in cc
        ]
    | inr out ↦ out
  ]

  -- A step that Stop has been through already.
  abbrev IsLater : Pool T B → Pool T B → Type 0
  IsLater p q = (q.stopper ≡ stopped) × (q.queue.delivered ≡ p.queue.delivered)

  test_running-IsLater :
      (i : ℕ) (p : Pool T B) (w : Worker)
      → p.worker i ≡ w
      → p.stopper ≡ stopped
      → IsTidy r size p
      → IsLater p (test_running r i p w)
  test_running-IsLater i p testing e h v = elim (Bool-cases (ltb i p.max_threads)) [
    | inl inside ↦ let gone = v.gone i (ap (λ s. is_joined p.max_threads s i) h ∙ inside) in cc
    | inr beyond ↦ let young = v.few i beyond in cc
  ]
  test_running-IsLater i p _ e h v = (h, refl)

  finish-IsLater :
      (i : ℕ) (p : Pool T B) (w : Worker) → p.stopper ≡ stopped → IsLater p (finish r i p w)
  finish-IsLater i p busy h = (h, refl)
  finish-IsLater i p _ h = (h, refl)

  begin_stop-IsLater :
      (p : Pool T B) (s : Stopper) → p.stopper ≡ s → s ≡ stopped → IsLater p (begin_stop r p s)
  begin_stop-IsLater p idle e h = cc
  begin_stop-IsLater p _ e h = (e ∙ h, refl)

  join_worker-IsLater :
      (p : Pool T B) (s : Stopper) → p.stopper ≡ s → s ≡ stopped → IsLater p (join_worker r p s)
  join_worker-IsLater p (in_loop k) e h = cc
  join_worker-IsLater p _ e h = (e ∙ h, refl)

  step-IsLater :
      (e : PoolEvent T) (p : Pool T B)
      → p.stopper ≡ stopped
      → IsTidy r size p
      → IsLater p (step r e p)
  unfolding step
  step-IsLater (loop_test i) p h v = test_running-IsLater i p (p.worker i) refl h v
  step-IsLater (enter_section i w) p h v = (
    h,
    (enter-IsSame r (p.max_threads + 2) (suc i) i w p.queue (omega arith)
        (left_take p i h v)).silent,
  )
  step-IsLater (wake_up i) p h v = (h, (spurious-IsSame r (p.max_threads + 2) i i p.queue).silent)
  step-IsLater (task_returns i) p h v = finish-IsLater i p (p.worker i) h
  step-IsLater (put_task t) p h v = (
    h,
    (call_put-IsSame r (p.max_threads + 2) (suc p.max_threads) p.max_threads (some t) p.queue
        (omega arith)).silent,
  )
  step-IsLater call_stop p h v = begin_stop-IsLater p p.stopper refl h
  step-IsLater join p h v = join_worker-IsLater p p.stopper refl h

  run-IsLater :
      (es : List (PoolEvent T)) (p : Pool T B)
      → p.stopper ≡ stopped
      → IsTidy r size p
      → IsLater p (run r es p)
  unfolding run
  run-IsLater [] p h v = (h, refl)
  run-IsLater (e ∷ es) p h v =
      let (h', same) = step-IsLater e p h v in
      let (h'', later) = run-IsLater es (step r e p) h' (step-IsTidy r size e p v) in
      (h'', later ∙ same)

  -- Where Stop has returned, every worker has left its loop, and stays out of it whatever happens
  -- later: no task is taken any more, not even one that is put then.
  pub run-stopped :
      (max_tasks : ℕ) (es later : List (PoolEvent T)) (p : Pool T B)
      → p ≡ run r es (start r (new_pool r max_tasks size))
      → p.stopper ≡ stopped
      → ((i : ℕ) → i < size → (run r later p).worker i ≡ exited)
        × ((run r later p).queue.delivered ≡ p.queue.delivered)
  run-stopped max_tasks es later p reached h =
      let v : IsTidy r size p =
        rw reached (run-IsTidy r size es _ (start-IsTidy r size max_tasks)) in
      let (h', same) = run-IsLater later p h v in
      let w = run-IsTidy r size later p v in
      (
        λ i inside.
            w.gone i
              (ap (λ s. is_joined (run r later p).max_threads s i) h' ∙ ground (arith, w.sized)),
        same,
      )
