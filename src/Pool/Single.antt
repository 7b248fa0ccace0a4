-- ===== src/Pool/Single.antt =====
-- The critical sections of a pool with one worker.
use bigpipe_cpp.Base.{
  ℕ, ◌+◌, ◌≡◌, refl, sym, ap, subst, ◌∙◌, ◌≢◌, inl, inr, true, false, Bool-cases, arith, length,
  Option, some, update, ℕ_discrete,
}
use bigpipe_cpp.Queue.Ring.{CircularBuffer, CircularBufferLaws}
use bigpipe_cpp.Queue.Laws.{take_section_lem}
use bigpipe_cpp.Queue.Monitor.{Pc, outside, putting, put_waiting, taking, call_put, enter, spurious}
use bigpipe_cpp.Queue.Monitor.Consumers.{takes}
use bigpipe_cpp.Queue.Monitor.Lone.{start-IsLone}
use bigpipe_cpp.Queue.Monitor.Roles.{
  puts, is_ready, enter-SameRole, spurious-IsSame, call_put-IsSame, enter_idle, take-delivers,
}
use bigpipe_cpp.Queue.Monitor.Supply.{
  stock, enter-stock, call_put-stock, spurious-stock, put-stocked,
}
use bigpipe_cpp.Pool.{
  Worker, in_take, busy, Pool, PoolEvent, loop_test, enter_section, wake_up, task_returns, put_task,
  call_stop, join, after_section, on_queue, new_pool, start, step,
}
use bigpipe_cpp.Pool.Tidy.{is_in_take, IsTidy}
use bigpipe_cpp.Pool.Alone.{
  IsAlone, two, is_unborn, update_self, update_other, move-IsAlone, other-IsAlone, on_queue-IsLone,
  test_running-IsAlone, finish-IsAlone, begin_stop-IsAlone, join_worker-IsAlone,
}

pub in_take_lem : (w : Worker) → is_in_take w ≡ true → w ≡ in_take
in_take_lem in_take h = refl
in_take_lem _ h = cc

module _ {T : Type 0} where
  pub outside_of : (q : Pc (Option T)) → takes q ≡ false → puts q ≡ false → q ≡ outside
  outside_of outside t u = refl
  outside_of (putting x) t u = cc
  outside_of (put_waiting x) t u = cc
  outside_of _ t u = cc

  pub idle_ready : (q : Pc (Option T)) → takes q ≡ false → puts q ≡ false → is_ready q ≡ false
  idle_ready (putting x) t u = u
  idle_ready taking t u = t
  idle_ready _ t u = refl

  -- A worker that is in take with its thread comes out with it.
  pub stays_lem : (w : Worker) (q : Pc (Option T)) → takes q ≡ is_in_take w → after_section w q ≡ w
  stays_lem in_take outside e = cc
  stays_lem _ q e = refl

module _ {T B : Type 0} {r : CircularBuffer (Option T) B} (laws : CircularBufferLaws r) where
  after_enter : ℕ → ℕ → Pool T B → ℕ → Worker
  after_enter i w p =
      update p.worker i (after_section (p.worker i) ((on_queue r (enter i w) p).pc i))

  -- A section that is none.
  idle-IsAlone :
      (i w : ℕ) (p : Pool T B) (f : ℕ → Worker)
      → is_ready (p.queue.pc i) ≡ false
      → f 0 ≡ p.worker 0
      → IsAlone laws p
      → IsAlone laws (record p { queue = on_queue r (enter i w) p; worker = f })
  idle-IsAlone i w p f h at v =
      let same = enter_idle r (p.max_threads + 2) i w p.queue h in
      other-IsAlone laws p (on_queue r (enter i w) p) f at (ap (λ q. takes (q.pc 0)) same)
        (ap (λ q. puts (q.pc 0)) same) (ap (λ q. puts (q.pc (p.max_threads + 1))) same)
        (on_queue-IsLone laws (enter i w) p refl v)
        (omega (arith, ap (stock laws (p.max_threads + 2)) same)) v

  -- The worker's take.
  take-IsAlone :
      (w : ℕ) (p : Pool T B)
      → p.queue.pc 0 ≡ taking
      → IsAlone laws p
      → IsAlone laws (step r (enter_section 0 w) p)
  unfolding step
  take-IsAlone w p e v =
      let n = p.max_threads + 2 in
      let q = on_queue r (enter 0 w) p in
      let here = in_take_lem (p.worker 0) (sym v.taker ∙ ap takes e) in
      let same = enter-SameRole r n (p.max_threads + 1) 0 w p.queue (λ h. absurd (omega arith)) in
      let next : Worker = after_section (p.worker 0) (q.pc 0) in
      let at = update_self p.worker 0 next in
      let lone = on_queue-IsLone laws (enter 0 w) p refl v in
      elim (take-delivers r n 0 w p.queue (two p.max_threads) e) [
        | inl (waited, sleeps, _) ↦
            move-IsAlone laws p q _ in_take (at ∙ rw (here, sleeps)) (ap takes sleeps)
              (ap puts sleeps) refl same.1 lone
              (λ h u t.
                let stocked = v.supplied h u (ap is_in_take here) in
                absurd (elim (take_section_lem laws p.queue.ring) [
                  | inl (_, nothing) ↦ omega (arith, stocked, ap length nothing)
                  | inr (_, _, left, _, _) ↦ let clash = waited in cc
                ]))
              v
        | inr (ring', x, left, role, _) ↦
            let out = outside_of (q.pc 0) role.0 role.1 in
            move-IsAlone laws p q _ busy (at ∙ rw (here, out)) role.0 role.1 refl same.1 lone
              (λ h u t. cc) v
      ]

  own_idle-IsAlone :
      (w : ℕ) (p : Pool T B)
      → is_ready (p.queue.pc 0) ≡ false
      → IsAlone laws p
      → IsAlone laws (step r (enter_section 0 w) p)
  unfolding step
  own_idle-IsAlone w p h v =
      let same = enter_idle r (p.max_threads + 2) 0 w p.queue h in
      idle-IsAlone 0 w p _ h
        (update_self p.worker 0 _
          ∙ ap (λ q. after_section (p.worker 0) (q.pc 0)) same
          ∙ stays_lem (p.worker 0) (p.queue.pc 0) v.taker)
        v

  own_enter-IsAlone :
      (w : ℕ) (p : Pool T B) (q : Pc (Option T))
      → p.queue.pc 0 ≡ q
      → IsAlone laws p
      → IsAlone laws (step r (enter_section 0 w) p)
  own_enter-IsAlone w p taking e v = take-IsAlone w p e v
  own_enter-IsAlone w p (putting x) e v = let clash = v.quiet in cc
  own_enter-IsAlone w p _ e v = own_idle-IsAlone w p (ap is_ready e) v

  -- The thread that calls Stop.
  stop_enter-IsAlone :
      (w : ℕ) (p : Pool T B)
      → IsAlone laws p
      → IsAlone laws (step r (enter_section (p.max_threads + 1) w) p)
  unfolding step
  stop_enter-IsAlone w p v =
      let n = p.max_threads + 2 in
      let i = p.max_threads + 1 in
      let apart : i ≢ 0 = λ h. absurd (omega arith) in
      let at =
        update_other p.worker i 0 (after_section (p.worker i) ((on_queue r (enter i w) p).pc i))
          apart in
      let role = enter-SameRole r n 0 i w p.queue apart in
      elim (Bool-cases (puts (p.queue.pc i))) [
        | inl in_put ↦ record {
          lone = on_queue-IsLone laws (enter i w) p refl v;
          taker = role.0 ∙ v.taker ∙ ap is_in_take (sym at);
          quiet = role.1 ∙ v.quiet;
          born = ap is_unborn at ∙ v.born;
          first = v.first;
          early = λ h. let none_yet = v.early h in cc;
          down = v.down;
          supplied = λ h u t. put-stocked laws n i w p.queue in_put u;
        }
        | inr quiet ↦
            idle-IsAlone i w p _ (idle_ready (p.queue.pc i) (v.lone.others i apart) quiet) at v
      ]

  third_enter-IsAlone :
      (i w : ℕ) (p : Pool T B)
      → i ≢ 0
      → i ≢ p.max_threads + 1
      → IsAlone laws p
      → IsAlone laws (step r (enter_section i w) p)
  unfolding step
  third_enter-IsAlone i w p apart third v =
      let n = p.max_threads + 2 in
      let own = enter-SameRole r n 0 i w p.queue apart in
      let stop = enter-SameRole r n (p.max_threads + 1) i w p.queue third in
      other-IsAlone laws p _ _ (update_other p.worker i 0 _ apart) own.0 own.1 stop.1
        (on_queue-IsLone laws (enter i w) p refl v)
        (enter-stock laws n i w p.queue (v.lone.others i apart)) v

  pub step-IsAlone :
      (e : PoolEvent T) (p : Pool T B) → IsTidy r 1 p → IsAlone laws p → IsAlone laws (step r e p)
  unfolding step
  step-IsAlone (loop_test i) p tidy v = test_running-IsAlone laws i p (p.worker i) refl tidy v
  step-IsAlone (enter_section i w) p tidy v = elim (ℕ_discrete i 0) [
    | yes own ↦
        subst (λ k. IsAlone laws (step r (enter_section k w) p)) (sym own)
          (own_enter-IsAlone w p (p.queue.pc 0) refl v)
    | no apart ↦ elim (ℕ_discrete i (p.max_threads + 1)) [
      | yes stop ↦
          subst (λ k. IsAlone laws (step r (enter_section k w) p)) (sym stop)
            (stop_enter-IsAlone w p v)
      | no third ↦ third_enter-IsAlone i w p apart third v
    ]
  ]
  step-IsAlone (wake_up i) p tidy v =
      let n = p.max_threads + 2 in
      let own = spurious-IsSame r n 0 i p.queue in
      let stop = spurious-IsSame r n (p.max_threads + 1) i p.queue in
      other-IsAlone laws p _ p.worker refl own.taker own.putter stop.putter
        (on_queue-IsLone laws (spurious i) p refl v)
        (omega (arith, spurious-stock laws n i p.queue)) v
  step-IsAlone (task_returns i) p tidy v = finish-IsAlone laws i p (p.worker i) refl tidy v
  step-IsAlone (put_task t) p tidy v =
      let n = p.max_threads + 2 in
      let own =
        call_put-IsSame r n 0 p.max_threads (some t) p.queue
          (λ h. absurd (omega (arith, tidy.sized))) in
      let stop =
        call_put-IsSame r n (p.max_threads + 1) p.max_threads (some t) p.queue
          (λ h. absurd (omega arith)) in
      other-IsAlone laws p _ p.worker refl own.taker own.putter stop.putter
        (on_queue-IsLone laws (call_put p.max_threads (some t)) p refl v)
        (omega (arith, call_put-stock laws n p.max_threads (some t) p.queue)) v
  step-IsAlone call_stop p tidy v = begin_stop-IsAlone laws p p.stopper refl tidy v
  step-IsAlone join p tidy v = join_worker-IsAlone laws p p.stopper refl tidy v

  pub start-IsAlone : (max_tasks : ℕ) → IsAlone laws (start r (new_pool r max_tasks 1))
  unfolding start new_pool
  start-IsAlone max_tasks = record {
    lone = start-IsLone laws 3 0 (two 1) max_tasks;
    taker = refl;
    quiet = refl;
    born = refl;
    first = refl;
    early = λ h. refl;
    down = λ h. cc;
    supplied = λ h u t. cc;
  }
