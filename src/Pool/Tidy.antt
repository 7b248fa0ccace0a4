-- ===== src/Pool/Tidy.antt =====
-- Where the workers are, and which of them Stop has joined.
use bigpipe_cpp.Base.{
  ℕ, suc, ◌+◌, ◌≡◌, refl, sym, ap, ◌∙◌, ◌≢◌, inl, inr, Bool, true, false, Bool-cases, ltb, List, [],
  ◌∷◌, arith, Option, some, none, update, ℕ_discrete, if◌then◌else◌,
}
use mathlib.Core.Logic.{ite}
use bigpipe_cpp.Queue.Ring.{CircularBuffer}
use bigpipe_cpp.Queue.Monitor.{
  Pc, outside, putting, put_waiting, taking, take_waiting, not_empty, after_put, run_section,
  System, Event, call_put, call_take, enter, spurious, begin,
}
use bigpipe_cpp.Queue.Monitor
use bigpipe_cpp.Queue.Monitor.Consumers.{takes}
use bigpipe_cpp.Queue.Monitor.Roles.{enter-SameRole, spurious-IsSame, call_take-SameRole}
use bigpipe_cpp.Pool.{
  Worker, unborn, testing, in_take, busy, exited, Stopper, idle, in_loop, stopped, Pool, PoolEvent,
  loop_test, enter_section, wake_up, task_returns, put_task, call_stop, join, after_section,
  is_outside, has_exited, on_queue, new_pool, start, test_running, finish, stop_from, begin_stop,
  join_worker, step, run,
}
use bigpipe_cpp.Queue.Monitor.Takers.{call_put_takes, enter_takes}

abbrev pub is_in_take : Worker → Bool
is_in_take in_take = true
is_in_take _ = false

-- The workers that Stop has joined.
abbrev pub is_joined : ℕ → Stopper → ℕ → Bool
is_joined max_threads idle i = false
is_joined max_threads (in_loop k) i = ltb i k
is_joined max_threads stopped i = ltb i max_threads

has_exited_lem : (w : Worker) → has_exited w ≡ true → w ≡ exited
has_exited_lem exited h = refl
has_exited_lem _ h = cc

module _ {T : Type 0} where
  still_in_take :
      (w : Worker) (q : Pc (Option T))
      → is_in_take w ≡ true
      → takes q ≡ true
      → is_in_take (after_section w q) ≡ true
  still_in_take in_take outside e h = cc
  still_in_take _ q e h = e

  still_unborn : (w : Worker) (q : Pc (Option T)) → w ≡ unborn → after_section w q ≡ unborn
  still_unborn in_take q e = cc
  still_unborn _ q e = e

  still_exited : (w : Worker) (q : Pc (Option T)) → w ≡ exited → after_section w q ≡ exited
  still_exited in_take q e = cc
  still_exited _ q e = e

module _ {T B : Type 0} (r : CircularBuffer (Option T) B) (size : ℕ) where
  -- Only a worker in take is in take of the queue, only the workers are born, and those that Stop has
  -- joined have exited.
  pub record IsTidy (p : Pool T B) : Type 0 where
    pub sized : p.max_threads ≡ size
    pub role : (i : ℕ) → takes (p.queue.pc i) ≡ true → is_in_take (p.worker i) ≡ true
    pub few : (i : ℕ) → ltb i p.max_threads ≡ false → p.worker i ≡ unborn
    pub gone : (i : ℕ) → is_joined p.max_threads p.stopper i ≡ true → p.worker i ≡ exited

  queue-IsTidy :
      (p : Pool T B) (q : System (Option T) B)
      → ((k : ℕ) → takes (q.pc k) ≡ takes (p.queue.pc k))
      → IsTidy p
      → IsTidy (record p { queue = q })
  queue-IsTidy p q same v = record {
    sized = v.sized;
    role = λ i h. v.role i (sym (same i) ∙ h);
    few = v.few;
    gone = v.gone;
  }

  -- A step of worker `i`, which neither brings it to life nor back.
  worker-IsTidy :
      (p : Pool T B) (q : System (Option T) B) (i : ℕ) (w : Worker)
      → ((k : ℕ) → i ≢ k → takes (q.pc k) ≡ takes (p.queue.pc k))
      → (takes (q.pc i) ≡ true → is_in_take w ≡ true)
      → (p.worker i ≡ unborn → w ≡ unborn)
      → (p.worker i ≡ exited → w ≡ exited)
      → IsTidy p
      → IsTidy (record p { queue = q; worker = update p.worker i w })
  worker-IsTidy p q i w others own young old v = record {
    sized = v.sized;
    role = λ k h. elim (ℕ_discrete i k) as (λ d. is_in_take (ite d w (p.worker k)) ≡ true) [
      | yes self ↦ own (ap (λ j. takes (q.pc j)) self ∙ h)
      | no other ↦ v.role k (sym (others k other) ∙ h)
    ];
    few = λ k h. elim (ℕ_discrete i k) as (λ d. ite d w (p.worker k) ≡ unborn) [
      | yes self ↦ young (ap p.worker self ∙ v.few k h)
      | no other ↦ v.few k h
    ];
    gone = λ k h. elim (ℕ_discrete i k) as (λ d. ite d w (p.worker k) ≡ exited) [
      | yes self ↦ old (ap p.worker self ∙ v.gone k h)
      | no other ↦ v.gone k h
    ];
  }

  if_IsTidy : (b : Bool) (p q : Pool T B) → IsTidy p → IsTidy q → IsTidy (if b then p else q)
  if_IsTidy true p q v w = v
  if_IsTidy false p q v w = w

  test_running-IsTidy :
      (i : ℕ) (p : Pool T B) (w : Worker)
      → p.worker i ≡ w
      → IsTidy p
      → IsTidy (test_running r i p w)
  test_running-IsTidy i p testing e v =
      if_IsTidy p.is_running _ _
        (worker-IsTidy p _ i in_take
          (λ k h. (call_take-SameRole r (p.max_threads + 2) k i p.queue h).0) (λ h. refl) (λ h. cc)
          (λ h. cc) v)
        (worker-IsTidy p p.queue i exited (λ k h. refl) (λ h. let t = v.role i h in cc) (λ h. cc)
          (λ h. refl) v)
  test_running-IsTidy i p _ e v = v

  finish-IsTidy :
      (i : ℕ) (p : Pool T B) (w : Worker) → p.worker i ≡ w → IsTidy p → IsTidy (finish r i p w)
  finish-IsTidy i p busy e v =
      worker-IsTidy p p.queue i testing (λ k h. refl) (λ h. let t = v.role i h in cc) (λ h. cc)
        (λ h. cc) v
  finish-IsTidy i p _ e v = v

  enter-IsTidy : (i w : ℕ) (p : Pool T B) → IsTidy p → IsTidy (step r (enter_section i w) p)
  unfolding step
  enter-IsTidy i w p v =
      let q = on_queue r (enter i w) p in
      worker-IsTidy p q i (after_section (p.worker i) (q.pc i))
        (λ k h. (enter-SameRole r (p.max_threads + 2) k i w p.queue h).0)
        (λ h.
          still_in_take (p.worker i) (q.pc i)
            (v.role i (enter_takes r (p.max_threads + 2) i w p.queue h)) h)
        (still_unborn (p.worker i) (q.pc i)) (still_exited (p.worker i) (q.pc i)) v

  stop_from-IsTidy :
      (k : ℕ) (p : Pool T B)
      → ((i : ℕ) → ltb i k ≡ true → p.worker i ≡ exited)
      → IsTidy p
      → IsTidy (stop_from r k p)
  stop_from-IsTidy k p past v = elim (Bool-cases (ltb k p.max_threads)) [
    | inl more ↦ rw more (record {
      sized = v.sized;
      role = λ i h.
          v.role i
            (sym (call_put_takes r (p.max_threads + 2) (p.max_threads + 1) none p.queue i) ∙ h);
      few = v.few;
      gone = past;
    })
    | inr over ↦ rw over (record {
      sized = v.sized;
      role = v.role;
      few = v.few;
      gone = λ i h. past i (ground arith);
    })
  ]

  begin_stop-IsTidy : (p : Pool T B) (s : Stopper) → IsTidy p → IsTidy (begin_stop r p s)
  begin_stop-IsTidy p idle v =
      stop_from-IsTidy 0 (record p { is_running = false }) (λ i h. ground arith)
        (record { sized = v.sized; role = v.role; few = v.few; gone = v.gone })
  begin_stop-IsTidy p _ v = v

  join_worker-IsTidy :
      (p : Pool T B) (s : Stopper) → p.stopper ≡ s → IsTidy p → IsTidy (join_worker r p s)
  join_worker-IsTidy p (in_loop k) e v =
      if_IsTidy (is_outside (p.queue.pc (p.max_threads + 1))) _ _
        (elim (Bool-cases (has_exited (p.worker k))) [
          | inl left ↦ rw left (
              stop_from-IsTidy (suc k) p
                (λ i h. elim (ℕ_discrete i k) [
                  | yes last ↦ ap p.worker last ∙ has_exited_lem (p.worker k) left
                  | no before ↦ v.gone i (ap (λ s. is_joined p.max_threads s i) e ∙ ground arith)
                ])
                v)
          | inr stays ↦ rw stays v
        ])
        v
  join_worker-IsTidy p _ e v = v

  pub step-IsTidy : (e : PoolEvent T) (p : Pool T B) → IsTidy p → IsTidy (step r e p)
  unfolding step
  step-IsTidy (loop_test i) p v = test_running-IsTidy i p (p.worker i) refl v
  step-IsTidy (enter_section i w) p v = enter-IsTidy i w p v
  step-IsTidy (wake_up i) p v =
      queue-IsTidy p _ (λ k. (spurious-IsSame r (p.max_threads + 2) k i p.queue).taker) v
  step-IsTidy (task_returns i) p v = finish-IsTidy i p (p.worker i) refl v
  step-IsTidy (put_task t) p v =
      queue-IsTidy p _ (call_put_takes r (p.max_threads + 2) p.max_threads (some t) p.queue) v
  step-IsTidy call_stop p v = begin_stop-IsTidy p p.stopper v
  step-IsTidy join p v = join_worker-IsTidy p p.stopper refl v

  pub run-IsTidy : (es : List (PoolEvent T)) (p : Pool T B) → IsTidy p → IsTidy (run r es p)
  unfolding run
  run-IsTidy [] p v = v
  run-IsTidy (e ∷ es) p v = run-IsTidy es (step r e p) (step-IsTidy e p v)

  pub start-IsTidy : (max_tasks : ℕ) → IsTidy (start r (new_pool r max_tasks size))
  unfolding start new_pool Monitor.start
  start-IsTidy max_tasks = record {
    sized = refl;
    role = λ i h. cc;
    few = λ i h. rw h;
    gone = λ i h. cc;
  }
