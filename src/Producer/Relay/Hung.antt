-- ===== src/Producer/Relay/Hung.antt =====
-- Stop, when the queue is full and the thread of Pushing has left its loop.
use bigpipe_cpp.Base.{
  Outcome, ℕ, ◌+◌, ◌≡◌, refl, inl, inr, Bool-cases, true, false, ◌==◌, List, [], ◌∷◌, String,
  if◌then◌else◌,
}
use bigpipe_cpp.Folly.{Folly}
use bigpipe_cpp.Proto.Reqmsg.{RequestMessage}
use bigpipe_cpp.Queue.Ring.{CircularBuffer, CircularBufferLaws}
use bigpipe_cpp.Queue.{Section, take_section}
use bigpipe_cpp.Queue.Monitor.{Pc, outside, Event, call_put, enter, spurious}
use bigpipe_cpp.Queue.Monitor.Roles.{puts}
use bigpipe_cpp.Producer.Relay.{
  Pusher, testing, pushing, exited, Keeper, fresh, created, started, stopping, Relay, RelayEvent,
  create_thread, raise_flag, loop_test, enter_section, wake_up, push, request, call_stop, join,
  is_outside, received, on_queue, create, raise, test_running, end_round, begin_stop, join_pusher,
  step, run,
}
use bigpipe_cpp.Queue.Monitor.Jammed.{IsJammed, no_take, step-IsJammed}

module _ {B : Type 0} {r : CircularBuffer RequestMessage B} (laws : CircularBufferLaws r)
    (handlers : ℕ) where
  -- Stop is in put, the queue is full, and the thread of Pushing is gone.
  pub record IsHung (s : Relay B) : Type 0 where
    pub in_stop : s.keeper ≡ stopping
    pub gone : s.pusher ≡ exited
    pub jammed : IsJammed laws (handlers + 2) 1 s.queue

  queue-IsHung :
      (s : Relay B) (e : Event RequestMessage)
      → no_take e ≡ true
      → IsHung s
      → IsHung (record s { queue = on_queue r handlers e s })
  queue-IsHung s e h v = record {
    in_stop = v.in_stop;
    gone = v.gone;
    jammed = step-IsJammed laws (handlers + 2) 1 e s.queue h v.jammed;
  }

  create-IsHung : (s : Relay B) (k : Keeper) → s.keeper ≡ k → IsHung s → IsHung (create s k)
  create-IsHung s fresh e v = let h = v.in_stop in cc
  create-IsHung s _ e v = v

  raise-IsHung : (s : Relay B) (k : Keeper) → s.keeper ≡ k → IsHung s → IsHung (raise s k)
  raise-IsHung s created e v = let h = v.in_stop in cc
  raise-IsHung s _ e v = v

  test_running-IsHung :
      (s : Relay B) (p : Pusher) → s.pusher ≡ p → IsHung s → IsHung (test_running r handlers s p)
  test_running-IsHung s testing e v = let h = v.gone in cc
  test_running-IsHung s _ e v = v

  begin_stop-IsHung :
      (s : Relay B) (k : Keeper) → s.keeper ≡ k → IsHung s → IsHung (begin_stop r handlers s k)
  begin_stop-IsHung s started e v = let h = v.in_stop in cc
  begin_stop-IsHung s _ e v = v

  in_put : (p : Pc RequestMessage) → puts p ≡ true → is_outside p ≡ false
  in_put outside h = cc
  in_put _ h = refl

  join_pusher-IsHung : (s : Relay B) (k : Keeper) → IsHung s → IsHung (join_pusher s k)
  join_pusher-IsHung s stopping v = rw (in_put (s.queue.pc 1) v.jammed.stuck) v
  join_pusher-IsHung s _ v = v

  received_gone :
      (q : Pusher) (p : Pc RequestMessage) (section : Section (B × RequestMessage))
      → q ≡ exited
      → received q p section ≡ exited
  received_gone exited p section e = refl
  received_gone _ p section e = cc

  enter-IsHung :
      (i w : ℕ) (s : Relay B)
      → IsHung s
      → IsHung (record s {
        queue = on_queue r handlers (enter i w) s;
        pusher =
            if i == 0
            then received s.pusher (s.queue.pc 0) (take_section r s.queue.ring)
            else s.pusher;
      })
  enter-IsHung i w s v = record {
    in_stop = v.in_stop;
    gone = elim (Bool-cases (i == 0)) [
      | inl own ↦ rw own (received_gone s.pusher (s.queue.pc 0) _ v.gone)
      | inr other ↦ rw other v.gone
    ];
    jammed = step-IsJammed laws (handlers + 2) 1 (enter i w) s.queue refl v.jammed;
  }

module _ {D W B : Type 0} (f : Folly D W) (str_hash : String → ℕ)
    {r : CircularBuffer RequestMessage B} (laws : CircularBufferLaws r) (handlers : ℕ) where
  end_round-IsHung :
      (s : Relay B) (rd : ℕ) (taken : Outcome (Unit {0})) (p : Pusher)
      → s.pusher ≡ p
      → IsHung laws handlers s
      → IsHung laws handlers (end_round f str_hash r handlers rd taken s p)
  end_round-IsHung s rd taken (pushing m) e v = let h = v.gone in cc
  end_round-IsHung s rd taken _ e v = v

  step-IsHung :
      (e : RelayEvent) (s : Relay B)
      → IsHung laws handlers s
      → IsHung laws handlers (step f str_hash r handlers e s)
  unfolding step
  step-IsHung create_thread s v = create-IsHung laws handlers s s.keeper refl v
  step-IsHung raise_flag s v = raise-IsHung laws handlers s s.keeper refl v
  step-IsHung loop_test s v = test_running-IsHung laws handlers s s.pusher refl v
  step-IsHung (enter_section i w) s v = enter-IsHung laws handlers i w s v
  step-IsHung (wake_up i) s v = queue-IsHung laws handlers s (spurious i) refl v
  step-IsHung (push rd taken) s v = end_round-IsHung s rd taken s.pusher refl v
  step-IsHung (request h m) s v = queue-IsHung laws handlers s (call_put (h + 2) m) refl v
  step-IsHung call_stop s v = begin_stop-IsHung laws handlers s s.keeper refl v
  step-IsHung join s v = join_pusher-IsHung laws handlers s s.keeper v

  -- Stop can also hang. Where its put finds the queue full after the thread of Pushing has left its
  -- loop, it never comes to the join, whatever happens: no event ends this state.
  pub run-IsHung :
      (es : List RelayEvent) (s : Relay B)
      → IsHung laws handlers s
      → IsHung laws handlers (run f str_hash r handlers es s)
  unfolding run
  run-IsHung [] s v = v
  run-IsHung (e ∷ es) s v = run-IsHung es (step f str_hash r handlers e s) (step-IsHung e s v)
