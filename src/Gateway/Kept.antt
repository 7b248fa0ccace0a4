-- ===== src/Gateway/Kept.antt =====
-- The steps of the relay that leave the handlers as they are (kafka/producer.hpp).
use bigpipe_cpp.Base.{
  ℕ, ◌+◌, Bool, true, false, List, Option, Outcome, done, fail, String, if◌then◌else◌,
}
use bigpipe_cpp.Folly.{Folly}
use bigpipe_cpp.Proto.{Files}
use bigpipe_cpp.Proto.Reqmsg.{RequestMessage, no_message}
use bigpipe_cpp.Queue.Ring.{CircularBuffer}
use bigpipe_cpp.Queue.Monitor.Puts.{call_put-IsBegun, call_take-IsBegun}
use bigpipe_cpp.Config.{Topics}
use bigpipe_cpp.Producer.{Produced, push_one}
use bigpipe_cpp.Producer.Relay.{
  Pusher, testing, pushing, Keeper, fresh, created, started, stopping, Relay, has_exited,
  is_outside, settle, handed, create, raise, join_pusher, test_running, begin_stop, end_round,
}
use bigpipe_cpp.Gateway.{Handler}
use bigpipe_cpp.Gateway.Account.{IsAnswered, take-IsAnswered, stop-IsAnswered}

module _ {D W B : Type 0} (f : Folly D W) (files : Files) (str_hash : String → ℕ)
    (what : String → String) (r : CircularBuffer RequestMessage B) (handlers max_size : ℕ)
    (Q : ℕ → List (String × String) → String → Type 0) where
  module _ (handler : ℕ → Handler) (answers : List (ℕ × List String)) where
    -- The relay of such a queue.
    abbrev pub Keeps : Relay B → Type 0
    Keeps s = IsAnswered f files what r max_size Q s.queue handler answers

    if_Keeps : (b : Bool) (s t : Relay B) → Keeps s → Keeps t → Keeps (if b then s else t)
    if_Keeps true s t v w = v
    if_Keeps false s t v w = w

    pub create-Keeps : (s : Relay B) (k : Keeper) → Keeps s → Keeps (create s k)
    create-Keeps s fresh v = v
    create-Keeps s _ v = v

    pub raise-Keeps : (s : Relay B) (k : Keeper) → Keeps s → Keeps (raise s k)
    raise-Keeps s created v = v
    raise-Keeps s _ v = v

    pub test_running-Keeps :
        (s : Relay B) (p : Pusher) → Keeps s → Keeps (test_running r handlers s p)
    test_running-Keeps s testing v =
        if_Keeps s.is_running _ _
          (take-IsAnswered f files what r max_size Q (handlers + 2) s.queue _ handler answers v
            (call_take-IsBegun r (handlers + 2) 0 s.queue))
          v
    test_running-Keeps s _ v = v

    settle-Keeps :
        (m : RequestMessage) (s : Relay B) (o : Outcome (Topics × Option Produced))
        → Keeps s
        → Keeps (settle m s o)
    settle-Keeps m s (done (topics, o)) v = v
    settle-Keeps m s (fail e) v = v

    pub end_round-Keeps :
        (rd : ℕ) (taken : Outcome (Unit {0})) (s : Relay B) (p : Pusher)
        → Keeps s
        → Keeps (end_round f str_hash r handlers rd taken s p)
    end_round-Keeps rd taken s (pushing m) v =
        settle-Keeps m s (handed taken (push_one f str_hash rd m s.topics)) v
    end_round-Keeps rd taken s _ v = v

    pub begin_stop-Keeps : (s : Relay B) (k : Keeper) → Keeps s → Keeps (begin_stop r handlers s k)
    begin_stop-Keeps s started v =
        stop-IsAnswered f files what r max_size Q (handlers + 2) s.queue _ handler answers v
          (call_put-IsBegun r (handlers + 2) 1 no_message s.queue)
    begin_stop-Keeps s _ v = v

    pub join_pusher-Keeps : (s : Relay B) (k : Keeper) → Keeps s → Keeps (join_pusher s k)
    join_pusher-Keeps s stopping v =
        if_Keeps (is_outside (s.queue.pc 1)) _ _ (if_Keeps (has_exited s.pusher) _ _ v v) v
    join_pusher-Keeps s _ v = v
