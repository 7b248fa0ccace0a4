-- ===== src/Pool.antt =====
-- base/ThreadPool.hpp, class ThreadPool, over the threads of Queue.Monitor. Worker `i` is thread `i` of
-- the queue, the thread that calls PutTask is thread `max_threads`, and the one that calls Stop comes
-- after it. A task is `some t`; the empty function, which Stop puts, is `none`.
mod Drained
mod Tidy
mod Alone
mod Single
pub mod Ending
pub mod Joined
pub mod Stuck
mod Tests
use bigpipe_cpp.Base.{
  ℕ, suc, ◌+◌, Bool, true, false, ltb, List, [], ◌∷◌, Option, none, some, update, if◌then◌else◌,
}
use bigpipe_cpp.Queue.Ring.{CircularBuffer}
use bigpipe_cpp.Queue.{queue_size}
use bigpipe_cpp.Queue.Monitor.{Pc, outside, System, Event, call_put, call_take, enter, spurious}
use bigpipe_cpp.Queue.Monitor

-- Where a worker is in RunInLoop.
pub data Worker : Type 0 where
  unborn : Worker
  testing : Worker  -- about to test IsRunning
  in_take : Worker
  busy : Worker  -- runs its task
  exited : Worker

-- Where Stop is: `in_loop k` has put an empty task for worker `k`, or is about to, and then joins it.
pub data Stopper : Type 0 where
  idle : Stopper
  in_loop : ℕ → Stopper
  stopped : Stopper

pub record Pool (T B : Type 0) : Type 0 where
  pub is_running : Bool
  pub max_threads : ℕ
  pub queue : System (Option T) B
  pub worker : ℕ → Worker
  pub stopper : Stopper

-- `enter i w` is a critical section of the queue, as there.
pub data PoolEvent (T : Type 0) : Type 0 where
  loop_test : (i : ℕ) → PoolEvent T
  enter_section : (i w : ℕ) → PoolEvent T
  wake_up : (i : ℕ) → PoolEvent T
  task_returns : (i : ℕ) → PoolEvent T
  put_task : T → PoolEvent T
  call_stop : PoolEvent T
  join : PoolEvent T

module _ {T : Type 0} where
  -- A worker whose thread has come out of take runs what it has taken.
  abbrev pub after_section : Worker → Pc (Option T) → Worker
  after_section in_take outside = busy
  after_section p _ = p

  abbrev pub is_outside : Pc (Option T) → Bool
  is_outside outside = true
  is_outside _ = false

abbrev pub has_exited : Worker → Bool
has_exited exited = true
has_exited _ = false

module _ {T B : Type 0} (r : CircularBuffer (Option T) B) where
  -- The workers, the caller of PutTask and the caller of Stop.
  abbrev pub on_queue : Event (Option T) → Pool T B → System (Option T) B
  on_queue e p = Monitor.step r (p.max_threads + 2) e p.queue

  unfoldable pub new_pool : ℕ → ℕ → Pool T B
  unfolding Monitor.start
  new_pool max_tasks max_threads = record {
    is_running = false;
    max_threads = max_threads;
    queue = Monitor.start r (max_threads + 2) max_tasks;
    worker = λ _. unborn;
    stopper = idle;
  }

  -- Start: the flag, then the threads.
  unfoldable pub start : Pool T B → Pool T B
  start p = record p {
    is_running = true;
    worker = λ i. if ltb i p.max_threads then testing else p.worker i;
  }

  -- The test at the head of RunInLoop.
  abbrev pub test_running : ℕ → Pool T B → Worker → Pool T B
  test_running i p testing =
      if p.is_running
      then record p { queue = on_queue (call_take i) p; worker = update p.worker i in_take }
      else record p { worker = update p.worker i exited }
  test_running i p _ = p

  abbrev pub finish : ℕ → Pool T B → Worker → Pool T B
  finish i p busy = record p { worker = update p.worker i testing }
  finish i p _ = p

  -- The head of the loop in Stop, at worker `k`: put an empty task.
  abbrev pub stop_from : ℕ → Pool T B → Pool T B
  stop_from k p =
      if ltb k p.max_threads
      then record p { queue = on_queue (call_put (p.max_threads + 1) none) p; stopper = in_loop k }
      else record p { stopper = stopped }

  abbrev pub begin_stop : Pool T B → Stopper → Pool T B
  begin_stop p idle = stop_from 0 (record p { is_running = false })
  begin_stop p _ = p

  -- Once its put has returned, Stop goes on when the worker has exited.
  abbrev pub join_worker : Pool T B → Stopper → Pool T B
  join_worker p (in_loop k) =
      if is_outside (p.queue.pc (p.max_threads + 1))
      then (if has_exited (p.worker k) then stop_from (suc k) p else p)
      else p
  join_worker p _ = p

  -- An event that cannot happen changes nothing.
  unfoldable pub step : PoolEvent T → Pool T B → Pool T B
  step (loop_test i) p = test_running i p (p.worker i)
  step (enter_section i w) p =
      let q = on_queue (enter i w) p in
      record p { queue = q; worker = update p.worker i (after_section (p.worker i) (q.pc i)) }
  step (wake_up i) p = record p { queue = on_queue (spurious i) p }
  step (task_returns i) p = finish i p (p.worker i)
  step (put_task t) p = record p { queue = on_queue (call_put p.max_threads (some t)) p }
  step call_stop p = begin_stop p p.stopper
  step join p = join_worker p p.stopper

  unfoldable pub run : List (PoolEvent T) → Pool T B → Pool T B
  run [] p = p
  run (e ∷ es) p = run es (step e p)

  -- The destructor calls Stop on a pool that runs.
  unfoldable pub destroy : Pool T B → Pool T B
  unfolding step
  destroy p = if p.is_running then step call_stop p else p

  unfoldable pub pending_tasks : Pool T B → ℕ
  unfolding queue_size
  pending_tasks p = queue_size r p.queue.ring
