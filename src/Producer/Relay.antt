-- ===== src/Producer/Relay.antt =====
-- Start, Pushing and Stop of KafkaProducer as threads. Thread 0 of the queue is the one that runs
-- Pushing, thread 1 calls Start and Stop, and the others are the HTTP handlers, which put requests.
-- IsRunning has no initial value, so the first one is a parameter.
pub mod Relayed
mod Sections
pub mod Order
mod Ending
mod Supplied
mod Turn
pub mod Stop
pub mod Hung
pub mod Origin
mod Tests
use bigpipe_cpp.Base.{
  ℕ, ◌+◌, Bool, true, false, ◌==◌, ltb, List, [], ◌∷◌, ◌++◌, Option, none, some, Outcome, done,
  fail, Fault, String, if◌then◌else◌,
}
use bigpipe_cpp.Folly.{Folly}
use bigpipe_cpp.Proto.Reqmsg.{RequestMessage, no_message}
use bigpipe_cpp.Queue.Ring.{CircularBuffer}
use bigpipe_cpp.Queue.{Section, waits, leaves, take_section}
use bigpipe_cpp.Queue.Monitor.{
  Pc, outside, taking, System, Event, call_put, call_take, enter, spurious,
}
use bigpipe_cpp.Queue.Monitor
use bigpipe_cpp.Config.{Topics}
use bigpipe_cpp.Producer.{Produced, push_one}

-- Where the thread of Pushing is.
pub data Pusher : Type 0 where
  unborn : Pusher
  testing : Pusher  -- about to test IsRunning
  in_take : Pusher
  pushing : RequestMessage → Pusher  -- has taken a message
  exited : Pusher
  faulted : RequestMessage → Fault → Pusher

-- Where the thread is that calls Start and Stop.
pub data Keeper : Type 0 where
  fresh : Keeper
  created : Keeper  -- in Start: the thread is there, IsRunning is not yet set
  started : Keeper
  stopping : Keeper  -- in Stop: puts the empty message, then joins
  joined : Keeper

pub record Relay (B : Type 0) : Type 0 where
  pub is_running : Bool
  pub queue : System RequestMessage B
  pub pusher : Pusher
  pub keeper : Keeper
  pub topics : Topics
  pub produced : List Produced

-- `enter_section i w` is a critical section of the queue; `push rd taken` is the rest of a round, with
-- what `rd()` gives in it, and how the client of Kafka takes the message.
pub data RelayEvent : Type 0 where
  create_thread : RelayEvent
  raise_flag : RelayEvent
  loop_test : RelayEvent
  enter_section : (i w : ℕ) → RelayEvent
  wake_up : (i : ℕ) → RelayEvent
  push : (rd : ℕ) → Outcome (Unit {0}) → RelayEvent
  request : (h : ℕ) → RequestMessage → RelayEvent
  call_stop : RelayEvent
  join : RelayEvent

abbrev pub to_list : Option Produced → List Produced
to_list none = []
to_list (some p) = p ∷ []

-- The call of produce at the end of a round, which takes the message or throws.
abbrev pub handed :
    Outcome (Unit {0}) → Outcome (Topics × Option Produced) → Outcome (Topics × Option Produced)
handed (fail e) (done (topics, some p)) = fail e
handed _ o = o

abbrev pub has_exited : Pusher → Bool
has_exited exited = true
has_exited _ = false

abbrev pub is_outside : Pc RequestMessage → Bool
is_outside outside = true
is_outside _ = false

module _ {B : Type 0} where
  -- The message that take returns to the thread of Pushing.
  abbrev pub received : Pusher → Pc RequestMessage → Section (B × RequestMessage) → Pusher
  received in_take taking (leaves (ring, m)) = pushing m
  received p _ _ = p

  -- The end of a round of Pushing.
  abbrev pub settle : RequestMessage → Relay B → Outcome (Topics × Option Produced) → Relay B
  settle m s (done (topics, o)) = record s {
    topics = topics;
    produced = s.produced ++ to_list o;
    pusher = testing;
  }
  settle m s (fail e) = record s { pusher = faulted m e }

  -- Start: the thread first, and then the flag.
  abbrev pub create : Relay B → Keeper → Relay B
  create s fresh = record s { pusher = testing; keeper = created }
  create s _ = s

  abbrev pub raise : Relay B → Keeper → Relay B
  raise s created = record s { is_running = true; keeper = started }
  raise s _ = s

  abbrev pub join_pusher : Relay B → Keeper → Relay B
  join_pusher s stopping =
      if is_outside (s.queue.pc 1)
      then (if has_exited s.pusher then record s { keeper = joined } else s)
      else s
  join_pusher s _ = s

module _ {B : Type 0} (r : CircularBuffer RequestMessage B) (handlers : ℕ) where
  abbrev pub on_queue : Event RequestMessage → Relay B → System RequestMessage B
  on_queue e s = Monitor.step r (handlers + 2) e s.queue

  unfoldable pub new_relay : Bool → ℕ → Topics → Relay B
  unfolding Monitor.start
  new_relay flag max_size topics = record {
    is_running = flag;
    queue = Monitor.start r (handlers + 2) max_size;
    pusher = unborn;
    keeper = fresh;
    topics = topics;
    produced = [];
  }

  -- The head of the loop in Pushing.
  abbrev pub test_running : Relay B → Pusher → Relay B
  test_running s testing =
      if s.is_running
      then record s { queue = on_queue (call_take 0) s; pusher = in_take }
      else record s { pusher = exited }
  test_running s _ = s

  -- Stop: the flag, the empty message, and the join.
  abbrev pub begin_stop : Relay B → Keeper → Relay B
  begin_stop s started = record s {
    is_running = false;
    queue = on_queue (call_put 1 no_message) s;
    keeper = stopping;
  }
  begin_stop s _ = s

module _ {D W B : Type 0} (f : Folly D W) (str_hash : String → ℕ)
    (r : CircularBuffer RequestMessage B) (handlers : ℕ) where
  abbrev pub end_round : ℕ → Outcome (Unit {0}) → Relay B → Pusher → Relay B
  end_round rd taken s (pushing m) = settle m s (handed taken (push_one f str_hash rd m s.topics))
  end_round rd taken s _ = s

  -- An event that cannot happen changes nothing.
  unfoldable pub step : RelayEvent → Relay B → Relay B
  step create_thread s = create s s.keeper
  step raise_flag s = raise s s.keeper
  step loop_test s = test_running r handlers s s.pusher
  step (enter_section i w) s = record s {
    queue = on_queue r handlers (enter i w) s;
    pusher =
        if i == 0 then received s.pusher (s.queue.pc 0) (take_section r s.queue.ring) else s.pusher;
  }
  step (wake_up i) s = record s { queue = on_queue r handlers (spurious i) s }
  step (push rd taken) s = end_round rd taken s s.pusher
  step (request h m) s = record s { queue = on_queue r handlers (call_put (h + 2) m) s }
  step call_stop s = begin_stop r handlers s s.keeper
  step join s = join_pusher s s.keeper

  unfoldable pub run : List RelayEvent → Relay B → Relay B
  run [] s = s
  run (e ∷ es) s = run es (step e s)
