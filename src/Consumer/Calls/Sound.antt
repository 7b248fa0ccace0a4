-- ===== src/Consumer/Calls/Sound.antt =====
-- The assert of AsyncCall, and the lifetime of the message that a task refers to.
use bigpipe_cpp.Base.{
  ℕ, ◌≡◌, refl, ap, ◌∙◌, Bool, true, false, Bool-cases, ◌==◌, ◌&&◌, inl, inr, Option, none, some,
  Outcome, done, fail, dangling_reference, List, [], ◌∷◌, arith, if◌then◌else◌,
}
use bigpipe_cpp.Folly.{Folly}
use bigpipe_cpp.Proto.{Files}
use bigpipe_cpp.Proto.Reqmsg.{RequestMessage, no_message}
use bigpipe_cpp.Proto.Reqmsg
use bigpipe_cpp.Queue.Ring.{CircularBuffer}
use bigpipe_cpp.Pool.{
  Pool, PoolEvent, Worker, testing, busy, Stopper, idle, in_loop, loop_test, enter_section, wake_up,
  task_returns, put_task, call_stop, join, new_pool, is_outside, test_running, finish, stop_from,
  join_worker, has_exited,
}
use bigpipe_cpp.Pool
use bigpipe_cpp.Consumer.{Consumed, eof, payload, empty}
use bigpipe_cpp.Consumer.Calls.{
  Loop, consuming, calling, left_loop, assert_failed, uncaught, Calls, CallsEvent, consume,
  call_returns, pool_step, stop_loop, stop_client, read_message, start_calls, test_loop, async_call,
  received, end_call, pool_event, stop_pool, consumed, step, run,
}
use bigpipe_cpp.Consumer.Calls

abbrev pub is_calling : Loop → Bool
is_calling calling = true
is_calling _ = false

-- The thread of ConsumeLoop is still there.
abbrev pub is_alive : Loop → Bool
is_alive Loop.testing = true
is_alive consuming = true
is_alive calling = true
is_alive _ = false

abbrev pub has_failed : Loop → Bool
has_failed assert_failed = true
has_failed _ = false

-- Any event of the pool but a call of Stop.
abbrev no_stop : {T : Type 0} → PoolEvent T → Bool
no_stop call_stop = false
no_stop _ = true

module _ {T B : Type 0} (r : CircularBuffer (Option T) B) where
  test_running_flag :
      (i : ℕ) (p : Pool T B) (w : Worker) → (test_running r i p w).is_running ≡ p.is_running
  test_running_flag i p testing = ground arith
  test_running_flag i p _ = refl

  finish_flag : (i : ℕ) (p : Pool T B) (w : Worker) → (finish r i p w).is_running ≡ p.is_running
  finish_flag i p busy = refl
  finish_flag i p _ = refl

  join_worker_flag : (p : Pool T B) (q : Stopper) → (join_worker r p q).is_running ≡ p.is_running
  join_worker_flag p (in_loop k) = ground arith
  join_worker_flag p _ = refl

  -- Only Stop takes IsRunning of the pool down.
  step_flag :
      (e : PoolEvent T) (p : Pool T B)
      → no_stop e ≡ true
      → (Pool.step r e p).is_running ≡ p.is_running
  unfolding Pool.step
  step_flag (loop_test i) p h = test_running_flag i p (p.worker i)
  step_flag (task_returns i) p h = finish_flag i p (p.worker i)
  step_flag join p h = join_worker_flag p p.stopper
  step_flag call_stop p h = cc
  step_flag _ p h = refl

module _ {B : Type 0} (r : CircularBuffer (Option ℕ) B) where
  -- The pool runs while the thread of ConsumeLoop is there, and the message of a round exists only
  -- during the call.
  pub record IsSound (s : Calls B) : Type 0 where
    pub alive : is_alive s.loop ≡ true → s.pool.is_running ≡ true
    pub scoped : is_calling s.loop ≡ false → s.reqmsg ≡ none
    pub passed : has_failed s.loop ≡ false

  test_loop-IsSound : (s : Calls B) (l : Loop) → s.loop ≡ l → IsSound s → IsSound (test_loop r s l)
  test_loop-IsSound s Loop.testing e v =
      let on = v.alive (ap is_alive e) in
      let empty = v.scoped (ap is_calling e) in
      elim (Bool-cases s.is_running) [
        | inl go ↦ rw go (record { alive = λ _. on; scoped = λ _. empty; passed = refl })
        | inr halt ↦ rw halt (record { alive = λ _. on; scoped = λ _. empty; passed = refl })
      ]
  test_loop-IsSound s _ e v = v

  if-IsSound : (b : Bool) (s t : Calls B) → b ≡ true → IsSound s → IsSound (if b then s else t)
  if-IsSound true s t h v = v
  if-IsSound false s t h v = cc

  received-IsSound :
      (s : Calls B) (o : RequestMessage × Outcome Bool)
      → s.loop ≡ consuming
      → IsSound s
      → IsSound (received r s o)
  unfolding async_call
  received-IsSound s (m, done true) e v =
      let on = v.alive (ap is_alive e) in
      if-IsSound s.pool.is_running _ _ on (record {
        alive = λ _. step_flag r (put_task s.round) s.pool refl ∙ on;
        scoped = λ h. cc;
        passed = refl;
      })
  received-IsSound s (m, done false) e v = record {
    alive = λ _. v.alive (ap is_alive e);
    scoped = λ _. v.scoped (ap is_calling e);
    passed = refl;
  }
  received-IsSound s (m, fail x) e v = record {
    alive = λ h. cc;
    scoped = λ _. v.scoped (ap is_calling e);
    passed = refl;
  }

  end_call-IsSound : (s : Calls B) (l : Loop) → s.loop ≡ l → IsSound s → IsSound (end_call r s l)
  end_call-IsSound s calling e v =
      elim (Bool-cases (is_outside (s.pool.queue.pc s.pool.max_threads))) [
        | inl over ↦
            rw over
              (record { alive = λ _. v.alive (ap is_alive e); scoped = λ _. refl; passed = refl })
        | inr wait ↦ rw wait v
      ]
  end_call-IsSound s _ e v = v

  pool-IsSound :
      (s : Calls B) (e : PoolEvent ℕ)
      → no_stop e ≡ true
      → IsSound s
      → IsSound (record s { pool = Pool.step r e s.pool })
  pool-IsSound s e h v = record {
    alive = λ a. step_flag r e s.pool h ∙ v.alive a;
    scoped = v.scoped;
    passed = v.passed;
  }

  pool_event-IsSound : (s : Calls B) (e : PoolEvent ℕ) → IsSound s → IsSound (pool_event r s e)
  pool_event-IsSound s (put_task k) v = v
  pool_event-IsSound s call_stop v = v
  pool_event-IsSound s (loop_test i) v = pool-IsSound s (loop_test i) refl v
  pool_event-IsSound s (enter_section i w) v = pool-IsSound s (enter_section i w) refl v
  pool_event-IsSound s (wake_up i) v = pool-IsSound s (wake_up i) refl v
  pool_event-IsSound s (task_returns i) v = pool-IsSound s (task_returns i) refl v
  pool_event-IsSound s join v = pool-IsSound s join refl v

  stop_pool-IsSound : (s : Calls B) (l : Loop) → s.loop ≡ l → IsSound s → IsSound (stop_pool r s l)
  stop_pool-IsSound s left_loop e v = record {
    alive = λ h. let gone = ap is_alive e in cc;
    scoped = v.scoped;
    passed = v.passed;
  }
  stop_pool-IsSound s _ e v = v

module _ {D W B : Type 0} (f : Folly D W) (files : Files) (r : CircularBuffer (Option ℕ) B) where
  consumed-IsSound :
      (s : Calls B) (l : Loop) (c : Consumed)
      → s.loop ≡ l
      → IsSound r s
      → IsSound r (consumed f files r s l c)
  consumed-IsSound s consuming eof e v = record {
    alive = λ h. cc;
    scoped = λ _. v.scoped (ap is_calling e);
    passed = refl;
  }
  consumed-IsSound s consuming (empty (done none)) e v = record {
    alive = λ h. cc;
    scoped = λ _. v.scoped (ap is_calling e);
    passed = refl;
  }
  consumed-IsSound s consuming (empty (fail x)) e v = record {
    alive = λ h. cc;
    scoped = λ _. v.scoped (ap is_calling e);
    passed = refl;
  }
  consumed-IsSound s consuming (empty (done (some text))) e v =
      received-IsSound r s (Reqmsg.from_json f files text no_message) e v
  consumed-IsSound s consuming (payload text) e v =
      received-IsSound r s (Reqmsg.from_json f files text no_message) e v
  consumed-IsSound s _ c e v = v

  step-IsSound : (e : CallsEvent) (s : Calls B) → IsSound r s → IsSound r (step f files r e s)
  unfolding step
  step-IsSound Calls.loop_test s v = test_loop-IsSound r s s.loop refl v
  step-IsSound (consume c) s v = consumed-IsSound s s.loop c refl v
  step-IsSound call_returns s v = end_call-IsSound r s s.loop refl v
  step-IsSound (pool_step e) s v = pool_event-IsSound r s e v
  step-IsSound stop_loop s v = record { alive = v.alive; scoped = v.scoped; passed = v.passed }
  step-IsSound stop_client s v = stop_pool-IsSound r s s.loop refl v

  run-IsSound : (es : List CallsEvent) (s : Calls B) → IsSound r s → IsSound r (run f files r es s)
  unfolding run
  run-IsSound [] s v = v
  run-IsSound (e ∷ es) s v = run-IsSound es (step f files r e s) (step-IsSound e s v)

  start-IsSound : (workers : ℕ) → IsSound r (start_calls r workers)
  unfolding start_calls Pool.start
  start-IsSound workers = record { alive = λ _. refl; scoped = λ _. refl; passed = refl }

  read_dangling :
      (s : Calls B) (k : ℕ) → s.reqmsg ≡ none → read_message s k ≡ fail dangling_reference
  unfolding read_message
  read_dangling s k e = ground arith

  -- However the thread of ConsumeLoop, the pool's workers and the two calls of Stop are scheduled,
  -- the assert of AsyncCall never fails: from Start on, the pool runs as long as the thread of
  -- ConsumeLoop has not left its loop, and the message of a round exists only while the thread is
  -- inside AsyncCall.
  pub run-start_calls-IsSound :
      (workers : ℕ) (es : List CallsEvent) → IsSound r (run f files r es (start_calls r workers))
  run-start_calls-IsSound workers es =
      run-IsSound es (start_calls r workers) (start-IsSound workers)

  -- The task of round `k` can read its message only while the thread of ConsumeLoop is still inside
  -- the AsyncCall of that very round; at any other time, on any schedule, it finds the message
  -- destroyed.
  pub read_message-dangling :
      (workers : ℕ) (es : List CallsEvent) (s : Calls B) (k : ℕ)
      → s ≡ run f files r es (start_calls r workers)
      → is_calling s.loop && (k == s.round) ≡ false
      → read_message s k ≡ fail dangling_reference
  unfolding read_message
  read_message-dangling workers es s k e out =
      let sound : IsSound r s = rw e (run-start_calls-IsSound workers es) in
      elim (Bool-cases (is_calling s.loop)) [
        | inl calls ↦ let other : (k == s.round) ≡ false = rw calls at out in rw other refl
        | inr over ↦ read_dangling s k (sound.scoped over)
      ]
