-- ===== src/Producer/Relay/Tests.antt =====
-- The relay with one handler, over a queue of one message.
use bigpipe_cpp.Base.{
  done, ℕ, zero, suc, ◌≡◌, refl, ◌⊎◌, Bool, true, false, List, [], ◌∷◌, arith, pos, String, lookup,
  ℕ_discrete,
}
use bigpipe_cpp.Folly.Json.{json, other_text}
use bigpipe_cpp.Proto.Reqmsg.{RequestMessage, no_message, to_json, print_headers}
use bigpipe_cpp.Queue.Ring.{ListRing, list_ring, list_ring-laws}
use bigpipe_cpp.Queue.{put_section, take_section}
use bigpipe_cpp.Queue.Monitor
use bigpipe_cpp.Queue.Monitor.{notify_one, notify_any}
use bigpipe_cpp.Queue.Monitor.Consumers.{takes}
use bigpipe_cpp.Config.{Topics}
use bigpipe_cpp.Producer.{push_one, calc_partition}
use bigpipe_cpp.Producer.Relay.{
  Relay, RelayEvent, create_thread, raise_flag, loop_test, enter_section, push, request, call_stop,
  join, exited, started, joined, new_relay, step, run,
}
use bigpipe_cpp.Producer.Relay.Relayed.{IsRelayed}
use bigpipe_cpp.Producer.Relay.Order.{run-new_relay-IsRelayed}
use bigpipe_cpp.Producer.Relay.Turn.{turn, has_faulted}
use bigpipe_cpp.Producer.Relay.Stop.{stop-joined}
use bigpipe_cpp.Producer.Relay.Hung.{IsHung, run-IsHung}

abbrev no_hash : String → ℕ
no_hash key = 0

abbrev fresh_relay : Bool → Relay (ListRing RequestMessage)
fresh_relay flag = new_relay list_ring 1 flag 1 []

abbrev after : List RelayEvent → Relay (ListRing RequestMessage)
after es = run json no_hash list_ring 1 es (fresh_relay false)

-- The thread of Pushing sleeps in take, and Stop puts its empty message.
abbrev stopped_asleep : List RelayEvent
stopped_asleep =
    create_thread ∷ raise_flag ∷ loop_test ∷ enter_section 0 0 ∷ call_stop ∷ enter_section 1 0 ∷ []

stop-joined_example :
    ((step json no_hash list_ring 1 join
        (run json no_hash list_ring 1 (turn 0 0 (done tt)) (after stopped_asleep))).keeper
      ≡ joined)
    ⊎ (has_faulted (run json no_hash list_ring 1 (turn 0 0 (done tt)) (after stopped_asleep)).pusher
        ≡ true)
unfolding run step new_relay Monitor.step Monitor.start put_section take_section notify_one
    notify_any ℕ_discrete
stop-joined_example =
    stop-joined json no_hash list_ring-laws 1 1 [] false stopped_asleep 0 0 (done tt)
      (after stopped_asleep) refl refl refl

abbrev topics : Topics
topics = ("t", record { partitions = pos 3 }) ∷ []

abbrev order : RequestMessage
order = record no_message { topic = "t" }

-- A handler puts a message, and a round of Pushing hands it to Kafka.
abbrev one_round : List RelayEvent
one_round =
    create_thread
    ∷ raise_flag
    ∷ loop_test
    ∷ request 0 order
    ∷ enter_section 2 0
    ∷ enter_section 0 0
    ∷ push 5 (done tt)
    ∷ []

abbrev relayed : Relay (ListRing RequestMessage)
relayed = run json no_hash list_ring 1 one_round (new_relay list_ring 1 false 1 topics)

one_produced :
    relayed.produced ≡ record { topic = "t"; partition = pos 2; payload = other_text } ∷ []
unfolding run step new_relay Monitor.step Monitor.start put_section take_section notify_one
    notify_any ℕ_discrete push_one calc_partition lookup to_json print_headers
one_produced = refl

run-new_relay-IsRelayed_example : IsRelayed json no_hash list_ring-laws 1 1 topics relayed
run-new_relay-IsRelayed_example =
    run-new_relay-IsRelayed json no_hash list_ring-laws 1 1 topics false one_round

-- A message in hand and one in the queue, when Stop is called.
abbrev stopped_full : List RelayEvent
stopped_full =
    create_thread
    ∷ raise_flag
    ∷ loop_test
    ∷ request 0 no_message
    ∷ enter_section 2 0
    ∷ enter_section 0 0
    ∷ request 0 no_message
    ∷ enter_section 2 0
    ∷ call_stop
    ∷ push 0 (done tt)
    ∷ loop_test
    ∷ enter_section 1 0
    ∷ []

nobody_takes : (i : ℕ) → takes ((after stopped_full).queue.pc i) ≡ false
unfolding run step new_relay Monitor.step Monitor.start put_section take_section notify_one
    notify_any ℕ_discrete push_one
nobody_takes zero = refl
nobody_takes (suc zero) = refl
nobody_takes (suc (suc zero)) = refl
nobody_takes (suc (suc (suc i))) = ground arith

after_full-IsHung : IsHung list_ring-laws 1 (after stopped_full)
unfolding run step new_relay Monitor.step Monitor.start put_section take_section notify_one
    notify_any ℕ_discrete push_one
after_full-IsHung = record {
  in_stop = refl;
  gone = refl;
  jammed = record { full = refl; nobody = nobody_takes; stuck = refl };
}

run-IsHung_example :
    IsHung list_ring-laws 1
      (run json no_hash list_ring 1 (loop_test ∷ join ∷ []) (after stopped_full))
run-IsHung_example =
    run-IsHung json no_hash list_ring-laws 1 (loop_test ∷ join ∷ []) (after stopped_full)
      after_full-IsHung

-- The thread tests IsRunning before Start sets it, and leaves its loop.
start_too_late :
    ((after (create_thread ∷ loop_test ∷ raise_flag ∷ [])).pusher ≡ exited)
    × ((after (create_thread ∷ loop_test ∷ raise_flag ∷ [])).keeper ≡ started)
unfolding run step new_relay
start_too_late = (refl, refl)
