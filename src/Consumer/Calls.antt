-- ===== src/Consumer/Calls.antt =====
-- Start, ConsumeLoop and Stop of KafkaConsumer with AsyncClient::AsyncCall, over the thread pool. The
-- message of a round is a local variable of ConsumeLoop; the task that AsyncCall puts refers to it,
-- and is named by the number of its round. PutTask is called by the thread of ConsumeLoop alone.
pub mod Sound
mod Tests
use bigpipe_cpp.Base.{
  ℕ, suc, ◌+◌, Bool, true, false, ◌==◌, Option, none, some, Outcome, done, fail, Fault,
  dangling_reference, List, [], ◌∷◌, if◌then◌else◌,
}
use bigpipe_cpp.Folly.{Folly}
use bigpipe_cpp.Proto.{Files}
use bigpipe_cpp.Proto.Reqmsg.{RequestMessage, no_message}
use bigpipe_cpp.Proto.Reqmsg
use bigpipe_cpp.Queue.Ring.{CircularBuffer}
use bigpipe_cpp.Pool.{Pool, PoolEvent, put_task, call_stop, new_pool, is_outside}
use bigpipe_cpp.Pool
use bigpipe_cpp.Consumer.{Consumed, eof, payload, empty}

-- Where the thread of ConsumeLoop is.
pub data Loop : Type 0 where
  testing : Loop  -- about to test IsRunning
  consuming : Loop
  calling : Loop  -- in AsyncCall
  left_loop : Loop
  assert_failed : Loop
  uncaught : Fault → Loop

pub record Calls (B : Type 0) : Type 0 where
  pub pool : Pool ℕ B
  pub is_running : Bool
  pub loop : Loop
  pub round : ℕ
  pub reqmsg : Option RequestMessage  -- while it exists

-- `pool_step` is any event of the pool's workers and of its Stop once it is called.
pub data CallsEvent : Type 0 where
  loop_test : CallsEvent
  consume : Consumed → CallsEvent
  call_returns : CallsEvent
  pool_step : PoolEvent ℕ → CallsEvent
  stop_loop : CallsEvent
  stop_client : CallsEvent

-- What a call of the task of round `k` finds behind its reference.
unfoldable pub read_message : {B : Type 0} → Calls B → ℕ → Outcome RequestMessage
read_message s k =
    if k == s.round
    then elim s.reqmsg [ none ↦ fail dangling_reference | some m ↦ done m ]
    else fail dangling_reference

module _ {B : Type 0} (r : CircularBuffer (Option ℕ) B) where
  -- AsyncClient::Start, where it comes back though it ends without its `return`, then the thread. The
  -- pool holds 20 tasks.
  unfoldable pub start_calls : ℕ → Calls B
  unfolding new_pool Pool.start
  start_calls workers = record {
    pool = Pool.start r (new_pool r 20 workers);
    is_running = true;
    loop = testing;
    round = 0;
    reqmsg = none;
  }

  abbrev pub test_loop : Calls B → Loop → Calls B
  test_loop s testing = record s { loop = if s.is_running then consuming else left_loop }
  test_loop s _ = s

  -- AsyncCall: the assert, then PutTask.
  unfoldable pub async_call : RequestMessage → Calls B → Calls B
  async_call m s =
      if s.pool.is_running
      then record s {
        pool = Pool.step r (put_task s.round) s.pool;
        loop = calling;
        reqmsg = some m;
      }
      else record s { loop = assert_failed }

  -- A round, by what FromJSON makes of the payload.
  abbrev pub received : Calls B → RequestMessage × Outcome Bool → Calls B
  received s (m, done true) = async_call m s
  received s (m, done false) = record s { loop = testing }
  received s (m, fail e) = record s { loop = uncaught e }

  -- The end of a round: the local message is destroyed once PutTask has returned.
  abbrev pub end_call : Calls B → Loop → Calls B
  end_call s calling =
      if is_outside (s.pool.queue.pc s.pool.max_threads)
      then record s { loop = testing; round = suc s.round; reqmsg = none }
      else s
  end_call s _ = s

  -- The events of the pool that are its workers' and its Stop's own.
  abbrev pub pool_event : Calls B → PoolEvent ℕ → Calls B
  pool_event s (put_task k) = s
  pool_event s call_stop = s
  pool_event s e = record s { pool = Pool.step r e s.pool }

  -- Stop joins the thread of ConsumeLoop before it stops the client.
  abbrev pub stop_pool : Calls B → Loop → Calls B
  stop_pool s left_loop = record s { pool = Pool.step r call_stop s.pool }
  stop_pool s _ = s

module _ {D W B : Type 0} (f : Folly D W) (files : Files) (r : CircularBuffer (Option ℕ) B) where
  abbrev pub consumed : Calls B → Loop → Consumed → Calls B
  consumed s consuming eof = record s { loop = left_loop }
  consumed s consuming (empty (done none)) = record s { loop = left_loop }
  consumed s consuming (empty (fail e)) = record s { loop = uncaught e }
  consumed s consuming (empty (done (some text))) =
      received r s (Reqmsg.from_json f files text no_message)
  consumed s consuming (payload text) = received r s (Reqmsg.from_json f files text no_message)
  consumed s _ c = s

  -- An event that cannot happen changes nothing.
  unfoldable pub step : CallsEvent → Calls B → Calls B
  unfolding async_call
  step loop_test s = test_loop r s s.loop
  step (consume c) s = consumed s s.loop c
  step call_returns s = end_call r s s.loop
  step (pool_step e) s = pool_event r s e
  step stop_loop s = record s { is_running = false }
  step stop_client s = stop_pool r s s.loop

  unfoldable pub run : List CallsEvent → Calls B → Calls B
  run [] s = s
  run (e ∷ es) s = run es (step e s)
