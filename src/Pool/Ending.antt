-- ===== src/Pool/Ending.antt =====
-- How Stop ends, for a pool with one worker.
use bigpipe_cpp.Base.{
  ℕ, suc, ◌+◌, ◌≡◌, refl, sym, ap, subst, ◌∙◌, inl, inr, Bool, true, false, Bool-cases, ltb, List,
  [], ◌∷◌, arith, length, Option, if◌then◌else◌,
}
use bigpipe_cpp.Queue.Ring.{CircularBuffer, CircularBufferLaws}
use bigpipe_cpp.Queue.Laws.{take_section_lem}
use bigpipe_cpp.Queue.Monitor.{Pc, outside, taking, take_waiting, enter}
use bigpipe_cpp.Queue.Monitor.Consumers.{takes}
use bigpipe_cpp.Queue.Monitor.Lone.{is_asleep}
use bigpipe_cpp.Queue.Monitor.Roles.{puts, enter-SameRole, enter_idle, take-delivers}
use bigpipe_cpp.Pool.{
  Worker, unborn, testing, in_take, busy, exited, Stopper, in_loop, stopped, Pool, PoolEvent,
  loop_test, enter_section, task_returns, join, after_section, has_exited, is_outside, on_queue,
  new_pool, start, test_running, finish, join_worker, step, run,
}
use bigpipe_cpp.Pool.Tidy.{is_in_take, IsTidy, step-IsTidy, start-IsTidy}
use bigpipe_cpp.Pool.Alone.{IsAlone, two, is_unborn, is_stopping, is_looping, update_self}
use bigpipe_cpp.Pool.Single.{
  outside_of, in_take_lem, idle_ready, stays_lem, step-IsAlone, start-IsAlone,
}

-- One turn of the worker: it leaves take, its task returns, and it tests IsRunning.
abbrev pub turn : {T : Type 0} → ℕ → List (PoolEvent T)
turn w = enter_section 0 w ∷ task_returns 0 ∷ loop_test 0 ∷ []

-- At the head of the loop or past it.
abbrev is_between : Worker → Bool
is_between testing = true
is_between exited = true
is_between _ = false

module _ {T : Type 0} where
  outside_roles : (q : Pc (Option T)) → is_outside q ≡ true → (takes q ≡ false) × (puts q ≡ false)
  outside_roles outside h = (refl, refl)
  outside_roles _ h = cc

  taking_lem : (q : Pc (Option T)) → takes q ≡ true → is_asleep q ≡ false → q ≡ taking
  taking_lem taking t a = refl
  taking_lem take_waiting t a = cc
  taking_lem _ t a = cc

module _ {T B : Type 0} {r : CircularBuffer (Option T) B} (laws : CircularBufferLaws r) where
  if_false :
      (P : Pool T B → Type 0) (b : Bool) (p q : Pool T B) → b ≡ false → P q → P (if b then p else q)
  if_false P true p q e h = cc
  if_false P false p q e h = h

  -- Stop waits in join.
  record IsJoining (p : Pool T B) : Type 0 where
    in_stop : p.stopper ≡ in_loop 0
    low : p.is_running ≡ false
    returned : is_outside (p.queue.pc (p.max_threads + 1)) ≡ true
    sized : p.max_threads ≡ 1

  enter-IsJoining : (w : ℕ) (p : Pool T B) → IsJoining p → IsJoining (step r (enter_section 0 w) p)
  unfolding step
  enter-IsJoining w p j =
      let same =
        enter-SameRole r (p.max_threads + 2) (p.max_threads + 1) 0 w p.queue
          (λ h. absurd (omega arith)) in
      let (t, u) = outside_roles (p.queue.pc (p.max_threads + 1)) j.returned in
      record {
        in_stop = j.in_stop;
        low = j.low;
        returned = ap is_outside (outside_of _ (same.0 ∙ t) (same.1 ∙ u));
        sized = j.sized;
      }

  -- After its critical section the worker is out of take.
  enter-awake :
      (w : ℕ) (p : Pool T B)
      → IsAlone laws p
      → IsJoining p
      → is_in_take ((step r (enter_section 0 w) p).worker 0) ≡ false
  unfolding step
  enter-awake w p v j =
      let n = p.max_threads + 2 in
      let q = on_queue r (enter 0 w) p in
      let at = update_self p.worker 0 (after_section (p.worker 0) (q.pc 0)) in
      elim (Bool-cases (is_in_take (p.worker 0))) [
        | inl inside ↦
            let here = in_take_lem (p.worker 0) inside in
            let stocked =
              v.supplied (ap is_looping j.in_stop)
                (outside_roles (p.queue.pc (p.max_threads + 1)) j.returned).1 inside in
            let ready = taking_lem (p.queue.pc 0) (v.taker ∙ inside) (v.lone.awake stocked) in
            elim (take-delivers r n 0 w p.queue (two p.max_threads) ready) [
              | inl (waited, _, _) ↦ absurd (elim (take_section_lem laws p.queue.ring) [
                | inl (_, nothing) ↦ omega (arith, stocked, ap length nothing)
                | inr (_, _, left, _, _) ↦ let clash = waited in cc
              ])
              | inr (_, _, _, role, _) ↦
                  let out = outside_of (q.pc 0) role.0 role.1 in
                  let next : after_section (p.worker 0) (q.pc 0) ≡ busy = rw (here, out) in
                  ap is_in_take (at ∙ next)
            ]
        | inr idle ↦
            let same =
              enter_idle r n 0 w p.queue (idle_ready (p.queue.pc 0) (v.taker ∙ idle) v.quiet) in
            ap is_in_take (
              at
              ∙ ap (λ s. after_section (p.worker 0) (s.pc 0)) same
              ∙ stays_lem (p.worker 0) (p.queue.pc 0) v.taker)
            ∙ idle
      ]

  finish-is_between :
      (p : Pool T B) (w : Worker)
      → p.worker 0 ≡ w
      → is_in_take w ≡ false
      → is_unborn w ≡ false
      → IsJoining p
      → IsJoining (finish r 0 p w) × (is_between ((finish r 0 p w).worker 0) ≡ true)
  finish-is_between p busy e h b j = (
    record { in_stop = j.in_stop; low = j.low; returned = j.returned; sized = j.sized },
    ap is_between (update_self p.worker 0 testing),
  )
  finish-is_between p in_take e h b j = cc
  finish-is_between p unborn e h b j = cc
  finish-is_between p _ e h b j = (j, ap is_between e)

  test_running-exited :
      (p : Pool T B) (w : Worker)
      → p.worker 0 ≡ w
      → is_between w ≡ true
      → IsJoining p
      → IsJoining (test_running r 0 p w) × ((test_running r 0 p w).worker 0 ≡ exited)
  test_running-exited p testing e h j =
      if_false (λ q. IsJoining q × (q.worker 0 ≡ exited)) p.is_running _ _ j.low
        (
          record { in_stop = j.in_stop; low = j.low; returned = j.returned; sized = j.sized },
          update_self p.worker 0 exited,
        )
  test_running-exited p exited e h j = (j, e)
  test_running-exited p _ e h j = cc

  join_worker-stopped :
      (p : Pool T B) (s : Stopper)
      → p.stopper ≡ s
      → p.worker 0 ≡ exited
      → IsJoining p
      → (join_worker r p s).stopper ≡ stopped
  join_worker-stopped p (in_loop k) e left j =
      let first : k ≡ 0 = cc in
      let gone : has_exited (p.worker k) ≡ true =
        ap (λ i. has_exited (p.worker i)) first ∙ ap has_exited left in
      let last : ltb (suc k) p.max_threads ≡ false = ground (arith, j.sized) in
      rw (j.returned, gone, last)
  join_worker-stopped p _ e left j = let here = j.in_stop in cc

  abbrev Both : Pool T B → Type 0
  Both p = IsTidy r 1 p × IsAlone laws p

  step-Both : (e : PoolEvent T) (p : Pool T B) → Both p → Both (step r e p)
  step-Both e p v = (step-IsTidy r 1 e p v.0, step-IsAlone laws e p v.0 v.1)

  run-Both : (es : List (PoolEvent T)) (p : Pool T B) → Both p → Both (run r es p)
  unfolding run
  run-Both [] p v = v
  run-Both (e ∷ es) p v = run-Both es (step r e p) (step-Both e p v)

  turn-stopped :
      (w : ℕ) (p : Pool T B)
      → Both p
      → IsJoining p
      → (step r join (run r (turn w) p)).stopper ≡ stopped
  unfolding run step
  turn-stopped w p v j =
      let v₁ = step-Both (enter_section 0 w) p v in
      let j₁ = enter-IsJoining w p j in
      let (j₂, between) =
        finish-is_between (step r (enter_section 0 w) p) _ refl (enter-awake w p v.1 j) v₁.1.born
          j₁ in
      let (j₃, out) = test_running-exited _ _ refl between j₂ in join_worker-stopped _ _ refl out j₃

  -- Stop of a pool with one worker ends. On any schedule from the start, once the put of Stop has
  -- returned, one turn of the worker, in which the task that it runs returns, brings it out of its
  -- loop, and Stop returns at its next step.
  pub run-start-turn :
      (max_tasks : ℕ) (es : List (PoolEvent T)) (w : ℕ) (p : Pool T B)
      → p ≡ run r es (start r (new_pool r max_tasks 1))
      → p.stopper ≡ in_loop 0
      → is_outside (p.queue.pc (p.max_threads + 1)) ≡ true
      → (step r join (run r (turn w) p)).stopper ≡ stopped
  run-start-turn max_tasks es w p reached here out =
      let v : Both p =
        subst Both (sym reached)
          (run-Both es _ (start-IsTidy r 1 max_tasks, start-IsAlone laws max_tasks)) in
      turn-stopped w p v (record {
        in_stop = here;
        low = v.1.down (ap is_stopping here);
        returned = out;
        sized = v.0.sized;
      })
