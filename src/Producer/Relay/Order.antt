-- ===== src/Producer/Relay/Order.antt =====
-- Every schedule of the relay.
use bigpipe_cpp.Base.{
  ℕ, ◌+◌, ◌≡◌, refl, Bool, false, ◌==◌, List, [], ◌∷◌, arith, String, ℕ_discrete,
}
use bigpipe_cpp.Folly.{Folly}
use bigpipe_cpp.Proto.Reqmsg.{RequestMessage}
use bigpipe_cpp.Queue.Ring.{CircularBuffer, CircularBufferLaws}
use bigpipe_cpp.Queue.Monitor.{call_put, enter, spurious}
use bigpipe_cpp.Queue.Monitor.Fifo.{start-IsFifo}
use bigpipe_cpp.Queue.Monitor.Lone.{start-IsLone}
use bigpipe_cpp.Queue.Monitor.Roles.{enter-IsSame, spurious-IsSame, call_put-IsSame}
use bigpipe_cpp.Config.{Topics}
use bigpipe_cpp.Producer.Relay.{
  Relay, RelayEvent, create_thread, raise_flag, loop_test, enter_section, wake_up, push, request,
  call_stop, join, new_relay, step, run,
}
use bigpipe_cpp.Producer.Relay.Relayed.{
  IsRelayed, no_round, threads, queue-IsRelayed, on_queue-IsFifo, on_queue-IsLone, create-IsRelayed,
  raise-IsRelayed, test_running-IsRelayed, end_round-IsRelayed, begin_stop-IsRelayed,
  join_pusher-IsRelayed,
}
use bigpipe_cpp.Producer.Relay.Sections.{own_section-IsRelayed}

module _ {D W B : Type 0} (f : Folly D W) (str_hash : String → ℕ)
    {r : CircularBuffer RequestMessage B} (laws : CircularBufferLaws r) (handlers max_size : ℕ)
    (topics : Topics) where
  abbrev pub Relays : Relay B → Type 0
  Relays s = IsRelayed f str_hash laws handlers max_size topics s

  pub step-IsRelayed :
      (e : RelayEvent) (s : Relay B) → Relays s → Relays (step f str_hash r handlers e s)
  unfolding step
  step-IsRelayed create_thread s v =
      create-IsRelayed f str_hash laws handlers max_size topics s s.keeper refl v
  step-IsRelayed raise_flag s v =
      raise-IsRelayed f str_hash laws handlers max_size topics s s.keeper v
  step-IsRelayed loop_test s v =
      test_running-IsRelayed f str_hash laws handlers max_size topics s s.pusher refl v
  step-IsRelayed (enter_section i w) s v = elim (ℕ_discrete i 0) [
    | yes own ↦
        rw own
          (own_section-IsRelayed f str_hash laws handlers max_size topics w s (s.queue.pc 0) refl v)
    | no other ↦
        let skipped : (i == 0) ≡ false = ground arith in
        rw skipped (
          queue-IsRelayed f str_hash laws handlers max_size topics s _
            (enter-IsSame r (handlers + 2) 0 i w s.queue other (v.lone.others i other))
            (on_queue-IsFifo f str_hash laws handlers max_size topics (enter i w) s v)
            (on_queue-IsLone f str_hash laws handlers max_size topics (enter i w) s refl v) v)
  ]
  step-IsRelayed (wake_up i) s v =
      queue-IsRelayed f str_hash laws handlers max_size topics s _
        (spurious-IsSame r (handlers + 2) 0 i s.queue)
        (on_queue-IsFifo f str_hash laws handlers max_size topics (spurious i) s v)
        (on_queue-IsLone f str_hash laws handlers max_size topics (spurious i) s refl v) v
  step-IsRelayed (push rd taken) s v =
      end_round-IsRelayed f str_hash laws handlers max_size topics s rd taken s.pusher refl v
  step-IsRelayed (request h m) s v =
      queue-IsRelayed f str_hash laws handlers max_size topics s _
        (call_put-IsSame r (handlers + 2) 0 (h + 2) m s.queue (λ e. absurd (omega arith)))
        (on_queue-IsFifo f str_hash laws handlers max_size topics (call_put (h + 2) m) s v)
        (on_queue-IsLone f str_hash laws handlers max_size topics (call_put (h + 2) m) s refl v) v
  step-IsRelayed call_stop s v =
      begin_stop-IsRelayed f str_hash laws handlers max_size topics s s.keeper v
  step-IsRelayed join s v =
      join_pusher-IsRelayed f str_hash laws handlers max_size topics s s.keeper v

  pub run-IsRelayed :
      (es : List RelayEvent) (s : Relay B) → Relays s → Relays (run f str_hash r handlers es s)
  unfolding run
  run-IsRelayed [] s v = v
  run-IsRelayed (e ∷ es) s v =
      run-IsRelayed es (step f str_hash r handlers e s) (step-IsRelayed e s v)

  pub new_relay-IsRelayed : (flag : Bool) → Relays (new_relay r handlers flag max_size topics)
  unfolding new_relay
  new_relay-IsRelayed flag = record {
    fifo = start-IsFifo laws (handlers + 2) max_size;
    lone = start-IsLone laws (handlers + 2) 0 (threads handlers) max_size;
    taker = refl;
    putter = refl;
    unborn_yet = λ h. refl;
    handled = [];
    rounds = no_round;
    order = refl;
  }

  -- On any schedule of the handlers, of Pushing and of Start and Stop, what is handed to Kafka comes
  -- from rounds of Pushing on a first part of the messages that were put into the queue, one round for
  -- each, in their order; what follows that part is the message in hand, if there is one, and the
  -- queue. The thread of Pushing does not sleep while the queue holds a message.
  pub run-new_relay-IsRelayed :
      (flag : Bool) (es : List RelayEvent)
      → Relays (run f str_hash r handlers es (new_relay r handlers flag max_size topics))
  run-new_relay-IsRelayed flag es =
      run-IsRelayed es (new_relay r handlers flag max_size topics) (new_relay-IsRelayed flag)
