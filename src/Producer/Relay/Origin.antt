-- ===== src/Producer/Relay/Origin.antt =====
-- The elements of the relay's queue.
use bigpipe_cpp.Base.{ℕ, ◌+◌, Bool, true, false, Option, Outcome, done, fail, String, if◌then◌else◌}
use bigpipe_cpp.Folly.{Folly}
use bigpipe_cpp.Proto.Reqmsg.{RequestMessage, no_message}
use bigpipe_cpp.Queue.Ring.{CircularBuffer}
use bigpipe_cpp.Queue.Monitor.{call_put, call_take, enter, spurious}
use bigpipe_cpp.Queue.Monitor.Origin.{IsMade, step-IsMade}
use bigpipe_cpp.Config.{Topics}
use bigpipe_cpp.Producer.{Produced, push_one}
use bigpipe_cpp.Producer.Relay.{
  Pusher, testing, pushing, Keeper, fresh, created, started, stopping, Relay, RelayEvent,
  create_thread, raise_flag, loop_test, enter_section, wake_up, push, request, call_stop, join,
  has_exited, is_outside, settle, handed, create, raise, join_pusher, test_running, begin_stop,
  end_round, step,
}

-- A request brings such a message.
abbrev pub Asks : (RequestMessage → Type 0) → RelayEvent → Type 0
Asks P (request h m) = P m
Asks P _ = Unit

module _ {B : Type 0} (r : CircularBuffer RequestMessage B) (handlers : ℕ)
    (P : RequestMessage → Type 0) where
  -- Every message that is put, or is about to be, has the property.
  abbrev pub IsFed : Relay B → Type 0
  IsFed s = IsMade r (handlers + 2) P s.queue

  if_IsFed : (b : Bool) (s t : Relay B) → IsFed s → IsFed t → IsFed (if b then s else t)
  if_IsFed true s t v w = v
  if_IsFed false s t v w = w

  create-IsFed : (s : Relay B) (k : Keeper) → IsFed s → IsFed (create s k)
  create-IsFed s fresh v = v
  create-IsFed s _ v = v

  raise-IsFed : (s : Relay B) (k : Keeper) → IsFed s → IsFed (raise s k)
  raise-IsFed s created v = v
  raise-IsFed s _ v = v

  test_running-IsFed : (s : Relay B) (p : Pusher) → IsFed s → IsFed (test_running r handlers s p)
  test_running-IsFed s testing v =
      if_IsFed s.is_running _ _ (step-IsMade r (handlers + 2) P (call_take 0) s.queue tt v) v
  test_running-IsFed s _ v = v

  settle-IsFed :
      (m : RequestMessage) (s : Relay B) (o : Outcome (Topics × Option Produced))
      → IsFed s
      → IsFed (settle m s o)
  settle-IsFed m s (done (topics, o)) v = v
  settle-IsFed m s (fail e) v = v

  begin_stop-IsFed :
      (s : Relay B) (k : Keeper) → P no_message → IsFed s → IsFed (begin_stop r handlers s k)
  begin_stop-IsFed s started c v =
      step-IsMade r (handlers + 2) P (call_put 1 no_message) s.queue c v
  begin_stop-IsFed s _ c v = v

  join_pusher-IsFed : (s : Relay B) (k : Keeper) → IsFed s → IsFed (join_pusher s k)
  join_pusher-IsFed s stopping v =
      if_IsFed (is_outside (s.queue.pc 1)) _ _ (if_IsFed (has_exited s.pusher) _ _ v v) v
  join_pusher-IsFed s _ v = v

  module _ {D W : Type 0} (f : Folly D W) (str_hash : String → ℕ) where
    end_round-IsFed :
        (rd : ℕ) (taken : Outcome (Unit {0})) (s : Relay B) (p : Pusher)
        → IsFed s
        → IsFed (end_round f str_hash r handlers rd taken s p)
    end_round-IsFed rd taken s (pushing m) v =
        settle-IsFed m s (handed taken (push_one f str_hash rd m s.topics)) v
    end_round-IsFed rd taken s _ v = v

    pub step-IsFed :
        (e : RelayEvent) (s : Relay B)
        → P no_message
        → Asks P e
        → IsFed s
        → IsFed (step f str_hash r handlers e s)
    unfolding step
    step-IsFed create_thread s c a v = create-IsFed s s.keeper v
    step-IsFed raise_flag s c a v = raise-IsFed s s.keeper v
    step-IsFed loop_test s c a v = test_running-IsFed s s.pusher v
    step-IsFed (enter_section i w) s c a v = step-IsMade r (handlers + 2) P (enter i w) s.queue tt v
    step-IsFed (wake_up i) s c a v = step-IsMade r (handlers + 2) P (spurious i) s.queue tt v
    step-IsFed (push rd taken) s c a v = end_round-IsFed rd taken s s.pusher v
    step-IsFed (request h m) s c a v =
        step-IsMade r (handlers + 2) P (call_put (h + 2) m) s.queue a v
    step-IsFed call_stop s c a v = begin_stop-IsFed s s.keeper c v
    step-IsFed join s c a v = join_pusher-IsFed s s.keeper v
